-- ===== src/Program/Main/Exit.antt =====
-- What the server program leaves behind when it ends.
use go_ldlm.Program.Os.{System, IsSystem}
use go_ldlm.Program.Sockets.{Alike, equal-Alike, IpcLeaves, ipc_run-IpcLeaves}
use go_ldlm.Program.Network.{NetLeaves, net_run-NetLeaves}
use go_ldlm.Program.Main.{
  Process, LockServerConfig, main, new_server, store_opened, loaded, ipc_answered, close_server,
  on_world, on_server, net_served, net_answered, server_answered,
}
use go_ldlm.Program.{
  IpcCloser, NetCloser, NetConfig, open_store, ipc_run, ipc_close, net_run, net_close, rest_serve,
}
use go_ldlm.Security.{Crypto, TlsConfig, get_tls_config}
use go_ldlm.Server.Interfaces.{LockManager}
use go_ldlm.Server.Startup.{new, close}
use go_ldlm.Server.{Server}
use go_ldlm.Session.{SessionStorer}
use go_ldlm.Errors.{Error}
use go_ldlm.Common.{
  ◌∙◌, ◌==◌, Bool-cases, ◌>>◌, continue, pure, Outcome, returns, panics, blocks, ℕ, String, ◌≡◌,
  refl, ◌⊎◌, inl, inr, Bool, true, false, Option, none, some, arith,
}

module _ (lm : LockManager) (st : SessionStorer) (sys : System) (good : IsSystem sys)
    (k : Crypto) where
  open lm use {State}
  open st use {Disk}
  open sys use {World}
  open good use {listening}

  -- An end with a status leaves the system as it was at first.
  Clean : World → Outcome ℕ × Process lm st sys k → Type 0
  Clean w r = (n : ℕ) → r.0 ≡ returns n → Alike sys good w r.1.1

  close_server-Clean :
      (shutdown : State → State) (c : IpcCloser) (n : ℕ) (s : Server State Disk) (w w' w2 : World)
      → IpcLeaves sys good w (inr c, w')
      → Alike sys good w' w2
      → Clean w ((close_server lm st sys k shutdown c >> pure n) (s, w2))
  unfolding close_server on_world on_server Clean pure continue
  close_server-Clean shutdown c n s w w' w2 ipc same = closed (ipc_close sys c w2).0 refl
    where
      closed :
          (o : Outcome (Unit {0}))
          → (ipc_close sys c w2).0 ≡ o
          → let y =
              continue o
                (λ _. on_server lm st sys k (close lm st shutdown))
                (s, (ipc_close sys c w2).1) in
            Clean w (continue y.0 (λ _. pure n) y.1)
      closed (returns u) h m e = ipc.1 w2 same h
      closed (panics x) h m e = absurd (ground (arith, e))
      closed blocks h m e = absurd (ground (arith, e))

  net_answered-Clean :
      (shutdown : State → State) (c : IpcCloser) (late : Bool) (s : Server State Disk)
      (w w' : World) (r : (Error ⊎ NetCloser) × World)
      → IpcLeaves sys good w (inr c, w')
      → NetLeaves sys good k w' r
      → Clean w (net_answered lm st sys k shutdown c late r s)
  unfolding net_answered net_served on_world continue Clean
  net_answered-Clean shutdown c late s w w' (inl e, w2) ipc net =
      close_server-Clean shutdown c 1 s w w' w2 ipc net
  net_answered-Clean shutdown c late s w w' (inr n, w2) ipc net =
      served (rest_serve sys k n late w2).0 refl
    where
      w3 : World
      w3 = (rest_serve sys k n late w2).1

      served :
          (o : Outcome Bool)
          → (rest_serve sys k n late w2).0 ≡ o
          → Clean w (continue o (net_served lm st sys k shutdown c n) (s, w3))
      served (returns b) h m e =
          close_server-Clean shutdown c 0 s w w' (net_close sys k n b w3) ipc (net late b h) m e
      served (panics x) h m e = absurd (ground (arith, e))
      served blocks h m e = absurd (ground (arith, e))

  ipc_answered-Clean :
      (shutdown : State → State) (registered : Option Error) (conf : NetConfig) (late : Bool)
      (tls : Option (TlsConfig k.Cert k.Pool)) (s : Server State Disk) (w : World)
      (r : (Error ⊎ IpcCloser) × World)
      → get_tls_config k conf.security ≡ inr tls
      → IpcLeaves sys good w r
      → let x = ipc_answered lm st sys k r s in
        Clean w (continue x.0 (server_answered lm st sys k shutdown registered conf late) x.1)
  unfolding ipc_answered server_answered continue Clean
  ipc_answered-Clean shutdown registered conf late tls s w (inl e, w1) fine ipc =
      λ n _. equal-Alike sys good w w1 ipc
  ipc_answered-Clean shutdown registered conf late tls s w (inr c, w1) fine ipc =
      net_answered-Clean shutdown c late s w w1 (net_run sys k registered conf w1) ipc
        (net_run-NetLeaves sys good k registered conf w1 tls fine)

  loaded-Clean :
      (shutdown : State → State) (registered : Option Error) (conf : NetConfig) (late : Bool)
      (tls : Option (TlsConfig k.Cert k.Pool)) (file : String) (w : World)
      (x : Outcome (Option Error) × Server State Disk)
      → get_tls_config k conf.security ≡ inr tls
      → let y = loaded lm st sys k file w x in
        Clean w (continue y.0 (server_answered lm st sys k shutdown registered conf late) y.1)
  unfolding loaded continue Clean server_answered
  loaded-Clean shutdown registered conf late tls file w (returns none, s) fine =
      let r = ipc_run sys tt file (none, w) in
      ipc_answered-Clean shutdown registered conf late tls s w (r.0, r.1.1) fine
        (ipc_run-IpcLeaves sys good tt file none w).0
  loaded-Clean shutdown registered conf late tls file w (returns (some e), s) fine =
      λ n _. equal-Alike sys good w w refl
  loaded-Clean shutdown registered conf late tls file w (panics e, s) fine =
      λ n h. absurd (ground (arith, h))
  loaded-Clean shutdown registered conf late tls file w (blocks, s) fine =
      λ n h. absurd (ground (arith, h))

  -- The same listeners, the same files but for one, and that one if it was there.
  pub record AlikeBut (file : String) (w w' : World) : Type 0 where
    pub but_listeners : (m b : String) → listening m b w' ≡ listening m b w
    pub but_files : (p : String) → (file == p) ≡ false → sys.exists p w' ≡ sys.exists p w
    pub but_kept : (p : String) → sys.exists p w ≡ true → sys.exists p w' ≡ true

  Alike-AlikeBut :
      (file : String) (w w1 w2 : World)
      → AlikeBut file w w1
      → Alike sys good w1 w2
      → AlikeBut file w w2
  Alike-AlikeBut file w w1 w2 a b = record {
    but_listeners = λ m x. b.same_listeners m x ∙ a.but_listeners m x;
    but_files = λ p d. b.same_files p ∙ a.but_files p d;
    but_kept = λ p h. b.same_files p ∙ a.but_kept p h;
  }

  same-AlikeBut : (file : String) (w : World) → AlikeBut file w w
  same-AlikeBut file w = record {
    but_listeners = λ m b. refl;
    but_files = λ p d. refl;
    but_kept = λ p h. h;
  }

  open_store-AlikeBut : (file : String) (w : World) → AlikeBut file w (open_store sys file w).1
  unfolding open_store
  open_store-AlikeBut file w = elim (Bool-cases (file == "")) [
    | inl y ↦ rw y (same-AlikeBut file w)
    | inr n ↦ rw n (record {
      but_listeners = λ m b. good.open_listening file w m b;
      but_files = λ p d. good.open_files file w p d;
      but_kept = λ p h. good.open_keeps file w p h;
    })
  ]

  store_opened-Clean :
      (start : State) (disk : Disk) (conf : LockServerConfig) (now : ℕ) (shutdown : State → State)
      (registered : Option Error) (net_conf : NetConfig) (late : Bool)
      (tls : Option (TlsConfig k.Cert k.Pool)) (o : Option Error) (w : World)
      → get_tls_config k net_conf.security ≡ inr tls
      → let y = store_opened lm st sys k start disk conf now (o, w) in
        Clean w (continue y.0 (server_answered lm st sys k shutdown registered net_conf late) y.1)
  unfolding store_opened Clean continue
  store_opened-Clean start disk conf now shutdown registered net_conf late tls (some e) w fine =
      λ n h. absurd (ground (arith, h))
  store_opened-Clean start disk conf now shutdown registered net_conf late tls none w fine =
      loaded-Clean shutdown registered net_conf late tls conf.ipc_socket_file w
        (new lm st start disk conf.no_clear_on_disconnect conf.default_lock_timeout now) fine

  -- main, where the TLS settings are accepted, over an operating system that keeps its promises:
  -- whatever the reload of the saved locks comes to, if the program ends with a status, then what
  -- listens and which files exist is as it was when it started, but for the state file, which stays
  -- if it was there and may be left if it was not.
  pub main_leaves_state_file :
      (version : Bool) (start : State) (disk : Disk) (shutdown : State → State)
      (registered : Option Error) (lock_conf : LockServerConfig) (net_conf : NetConfig)
      (late : Bool) (now : ℕ) (w : World) (tls : Option (TlsConfig k.Cert k.Pool)) (status : ℕ)
      → get_tls_config k net_conf.security ≡ inr tls
      → let r =
          main lm st sys k version start disk shutdown registered lock_conf net_conf late now w in
        r.0 ≡ returns status → AlikeBut lock_conf.state_file w r.1
  unfolding main new_server Clean
  main_leaves_state_file true start disk shutdown registered lock_conf net_conf late now w tls
        status fine e =
      same-AlikeBut lock_conf.state_file w
  main_leaves_state_file false start disk shutdown registered lock_conf net_conf late now w tls
        status fine e =
      let o = open_store sys lock_conf.state_file w in
      Alike-AlikeBut lock_conf.state_file w o.1 _ (open_store-AlikeBut lock_conf.state_file w) (
        store_opened-Clean start disk lock_conf now shutdown registered net_conf late tls o.0 o.1
          fine status e)
