-- ===== src/Program/Tests.antt =====
-- The theorems about the server program at concrete inputs, over a system that has two tables: what
-- listens, and which files exist.
use go_ldlm.Program.Os.{System, IsSystem, is_same}
use go_ldlm.Program.Sockets.{Serves, ipc_run-IpcLeaves, IpcLeaves}
use go_ldlm.Program.Network.{net_run_leaks}
use go_ldlm.Program.Main.{LockServerConfig, main, new_server, close_server}
use go_ldlm.Program.Main.Exit.{AlikeBut, main_leaves_state_file}
use go_ldlm.Program.{
  grpc_run, rest_run, rest_serve, ipc_close, net_close, NetConfig, net_run, ipc_run, open_store,
}
use go_ldlm.Security.{get_tls_config, SecurityConfig, Crypto}
use go_ldlm.Server.Startup
use go_ldlm.Manager.{new_manager}
use go_ldlm.Manager.Interface.{manager}
use go_ldlm.Session.Memory.{memory}
use go_ldlm.Session
use go_ldlm.Timer
use go_ldlm.Server.{on_sessions}
use go_ldlm.Errors.{error_message, Error, other}
use go_ldlm.Common.{
  continue, pure, if_true, if_false, ◌⊎◌, returns, ℕ, String, ◌==◌, eq_iff, eq_refl, ◌≡◌, refl, sym,
  ap, ◌∙◌, inl, inr, Bool, true, false, not, ◌&&◌, ◌||◌, Option, none, some, if◌then◌else◌,
  Bool-cases, arith,
}

record Tables : Type 0 where
  listeners : String → String → Bool
  files : String → Bool

abbrev opened : String → String → Tables → Tables
opened n a w = record {
  listeners = λ m b. is_same n a m b || w.listeners m b;
  files = λ p. (n == "unix" && a == p) || w.files p;
}

tables_listen : String → String → Tables → Option Error × Tables
tables_listen n a w =
    if w.listeners n a then (some (other "address already in use"), w) else (none, opened n a w)

listen_cases :
    (n a : String) (w : Tables)
    → (tables_listen n a w ≡ (some (other "address already in use"), w))
      ⊎ ((w.listeners n a ≡ false) × (tables_listen n a w ≡ (none, opened n a w)))
unfolding tables_listen
listen_cases n a w = elim (Bool-cases (w.listeners n a)) [
  | inl y ↦ inl (if_true _ _ _ y)
  | inr d ↦ inr (d, if_false _ _ _ d)
]

abbrev tables : System
tables = record {
  World = Tables;
  exists = λ p w. w.files p;
  open_file = λ a w. (none, record w { files = λ p. (a == p) || w.files p });
  remove = λ p w. (none, record w { files = λ q. not (p == q) && w.files q });
  listen = tables_listen;
  close_listener =
      λ n a w. (none, record w { listeners = λ m b. not (is_same n a m b) && w.listeners m b });
  is_windows = false;
  temp_dir = "/tmp";
  join = λ a b. b;
}

free_lem :
    (n a : String) (w : Tables)
    → (tables_listen n a w).0 ≡ none
    → (w.listeners n a ≡ false) × ((tables_listen n a w).1 ≡ opened n a w)
free_lem n a w h = elim (listen_cases n a w) [
  | inl e ↦ absurd (ground (arith, h, ap (λ x. x.0) e))
  | inr (d, e) ↦ (d, ap (λ x. x.1) e)
]

files_lem :
    (n a : String) (w : Tables) (p : String)
    → (n == "unix" && a == p) ≡ false
    → (tables_listen n a w).1.files p ≡ w.files p
files_lem n a w p d = elim (listen_cases n a w) [
  | inl e ↦ ap (λ x. x.1.files p) e
  | inr (_, e) ↦ ap (λ x. x.1.files p) e ∙ ap (λ x. x || w.files p) d
]

refused_lem :
    (n a : String) (w : Tables) (x : Error)
    → (tables_listen n a w).0 ≡ some x
    → (tables_listen n a w).1 ≡ w
refused_lem n a w x h = elim (listen_cases n a w) [
  | inl e ↦ ap (λ y. y.1) e
  | inr (_, e) ↦ absurd (ground (arith, h, ap (λ y. y.0) e))
]

same_lem :
    (n a m b : String) (w : Tables) → is_same n a m b ≡ true → w.listeners m b ≡ w.listeners n a
same_lem n a m b w h =
    ap (λ x. w.listeners x b) (sym ((eq_iff n m).0 (ground (arith, h))))
    ∙ ap (w.listeners n) (sym ((eq_iff a b).0 (ground (arith, h))))

tables-IsSystem : IsSystem tables
tables-IsSystem = record {
  listening = λ n a w. w.listeners n a;
  listen_fails = refused_lem;
  listen_free = λ n a w h m b e. same_lem n a m b w e ∙ (free_lem n a w h).0;
  listen_takes = λ n a w h m b. ap (λ x. x.listeners m b) (free_lem n a w h).1;
  listen_files = λ a w p d. files_lem "unix" a w p d;
  open_files = λ a w p d. rw d refl;
  open_keeps = λ a w p h. rw h (ground arith);
  open_listening = λ a w m b. refl;
  close_frees = λ n a w m b. refl;
  close_files = λ a w p d. refl;
  remove_gone = λ p w e. rw (eq_refl p) refl;
  remove_files = λ p w q d. rw d refl;
  remove_listening = λ p w m b. refl;
  tcp_listen_files = λ a w p. files_lem "tcp" a w p refl;
  tcp_close_files = λ a w p. refl;
}

-- Nothing listens, and no file exists.
abbrev empty : Tables
empty = record { listeners = λ n a. false; files = λ p. false }

-- No certificate can be loaded.
abbrev no_files : Crypto
no_files = record {
  Cert = Unit {0};
  Pool = Unit {0};
  load_key_pair = λ c k. inl (other "no such file");
  read_file = λ f. inl (other "no such file");
  append_certs = λ t. none;
}

abbrev plain : SecurityConfig
plain = record {
  tls_cert = "";
  tls_key = "";
  client_cert_verify = false;
  client_ca = "";
  password = "";
}

abbrev net_config : SecurityConfig → NetConfig
net_config s = record {
  grpc_listen_address = "localhost:3144";
  rest_listen_address = "localhost:8080";
  security = s;
}

net_run_leaks_example :
    (net_run tables no_files none
        (net_config (record plain { tls_cert = "cert.pem" }))
        empty).1.listeners
      "tcp" "localhost:3144"
    ≡ true
unfolding tables_listen get_tls_config error_message tables-IsSystem
net_run_leaks_example =
    (net_run_leaks tables tables-IsSystem no_files none
      (net_config (record plain { tls_cert = "cert.pem" })) empty
      (other "LoadX509KeyPair() error loading cert: no such file") refl refl).2

-- The numbers of two servers.
abbrev newer : ℕ
newer = 7

abbrev older : ℕ
older = 6

ipc_run-IpcLeaves_example :
    let r = ipc_run tables newer "<platform specific>" (some older, empty) in
    IpcLeaves tables tables-IsSystem empty (r.0, r.1.1)
    × Serves tables tables-IsSystem newer "ldlm-ipc.sock" (some older) empty r.1.0
ipc_run-IpcLeaves_example =
    ipc_run-IpcLeaves tables tables-IsSystem newer "<platform specific>" (some older) empty

abbrev one_shard : String → ℕ
one_shard name = 0

abbrev settings : LockServerConfig
settings = record {
  no_clear_on_disconnect = false;
  default_lock_timeout = 600;
  state_file = "ldlm.state";
  ipc_socket_file = "<platform specific>";
}

accepted : get_tls_config no_files plain ≡ inr none
unfolding get_tls_config
accepted = refl

ends_well :
    (main
      (manager one_shard)
      memory
      tables
      no_files
      false
      (new_manager 2)
      none
      (λ m. m)
      none
      settings
      (net_config plain)
      false
      5
      empty).0
    ≡ returns 0
unfolding main get_tls_config continue new_server open_store Startup.new on_sessions Session.load
    Session.new_sessions pure ipc_run tables_listen net_run grpc_run rest_run rest_serve
    close_server ipc_close net_close error_message Startup.close Timer.shutdown new_manager
ends_well = refl

main_leaves_state_file_example :
    AlikeBut
      (manager one_shard)
      memory
      tables
      tables-IsSystem
      no_files
      "ldlm.state"
      empty
      (main
        (manager one_shard)
        memory
        tables
        no_files
        false
        (new_manager 2)
        none
        (λ m. m)
        none
        settings
        (net_config plain)
        false
        5
        empty).1
main_leaves_state_file_example =
    main_leaves_state_file (manager one_shard) memory tables tables-IsSystem no_files false
      (new_manager 2) none (λ m. m) none settings (net_config plain) false 5 empty none 0 accepted
      ends_well
