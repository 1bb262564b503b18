-- ===== src/Program/Os.antt =====
-- The operating system as net, server/ipc and cmd/server use it: packages os, net and runtime. The
-- network of a listener is "tcp" or "unix".
use go_ldlm.Errors.{Error}
use go_ldlm.Common.{String, ◌==◌, ◌≡◌, Bool, true, false, not, ◌&&◌, ◌||◌, Option, none, some}

pub record System : Type 1 where
  pub World : Type 0
  -- os.Stat(path) does not answer fs.ErrNotExist
  pub exists : String → World → Bool
  -- os.OpenFile(path, os.O_RDWR|os.O_CREATE, 0644)
  pub open_file : String → World → Option Error × World
  -- os.Remove(path)
  pub remove : String → World → Option Error × World
  -- net.Listen(network, address)
  pub listen : String → String → World → Option Error × World
  -- Close of the listener of a network and address
  pub close_listener : String → String → World → Option Error × World
  pub is_windows : Bool
  pub temp_dir : String
  pub join : String → String → String

abbrev pub is_same : String → String → String → String → Bool
is_same network address n a = network == n && address == a

module _ (sys : System) where
  open sys use {World}

  -- What those packages promise: Listen answers an error and does nothing, or it takes an address that
  -- was free; Close frees it; a listener on a Unix socket has a file at its address, and no other file
  -- changes; OpenFile may make its file, and changes no other, and takes none away; a listener on TCP has no file; a Remove that succeeds takes its file away, and nothing else.
  pub record IsSystem : Type 0 where
    pub listening : String → String → World → Bool
    pub listen_fails :
        (n a : String) (w : World) (e : Error)
        → (sys.listen n a w).0 ≡ some e
        → (sys.listen n a w).1 ≡ w
    pub listen_free :
        (n a : String) (w : World)
        → (sys.listen n a w).0 ≡ none
        → (m b : String) → is_same n a m b ≡ true
        → listening m b w ≡ false
    pub listen_takes :
        (n a : String) (w : World)
        → (sys.listen n a w).0 ≡ none
        → (m b : String) → listening m b (sys.listen n a w).1 ≡ is_same n a m b || listening m b w
    pub listen_files :
        (a : String) (w : World) (p : String)
        → (a == p) ≡ false
        → sys.exists p (sys.listen "unix" a w).1 ≡ sys.exists p w
    pub open_files :
        (a : String) (w : World) (p : String)
        → (a == p) ≡ false
        → sys.exists p (sys.open_file a w).1 ≡ sys.exists p w
    pub open_keeps :
        (a : String) (w : World) (p : String)
        → sys.exists p w ≡ true
        → sys.exists p (sys.open_file a w).1 ≡ true
    pub open_listening :
        (a : String) (w : World) (m b : String)
        → listening m b (sys.open_file a w).1 ≡ listening m b w
    pub close_frees :
        (n a : String) (w : World) (m b : String)
        → listening m b (sys.close_listener n a w).1 ≡ not (is_same n a m b) && listening m b w
    pub close_files :
        (a : String) (w : World) (p : String)
        → (a == p) ≡ false
        → sys.exists p (sys.close_listener "unix" a w).1 ≡ sys.exists p w
    pub remove_gone :
        (p : String) (w : World)
        → (sys.remove p w).0 ≡ none
        → sys.exists p (sys.remove p w).1 ≡ false
    pub remove_files :
        (p : String) (w : World) (q : String)
        → (p == q) ≡ false
        → sys.exists q (sys.remove p w).1 ≡ sys.exists q w
    pub remove_listening :
        (p : String) (w : World) (m b : String) → listening m b (sys.remove p w).1 ≡ listening m b w
    pub tcp_listen_files :
        (a : String) (w : World) (p : String)
        → sys.exists p (sys.listen "tcp" a w).1 ≡ sys.exists p w
    pub tcp_close_files :
        (a : String) (w : World) (p : String)
        → sys.exists p (sys.close_listener "tcp" a w).1 ≡ sys.exists p w
