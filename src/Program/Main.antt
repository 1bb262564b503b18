-- ===== src/Program/Main.antt =====
-- cmd/server/main.go, and New of server/server.go with the IPC server that it starts: the server and
-- the operating system together. The results are exit statuses; output is left out.
pub mod Exit
use Prim.Native.String.{◌++◌}
use go_ldlm.Program.Os.{System}
use go_ldlm.Program.{
  IpcCloser, NetCloser, NetConfig, open_store, ipc_run, ipc_close, net_run, net_close, rest_serve,
}
use go_ldlm.Security.{Crypto}
use go_ldlm.Server.Interfaces.{LockManager}
use go_ldlm.Server.Startup
use go_ldlm.Server.Startup.{new, fresh}
use go_ldlm.Server.{Server}
use go_ldlm.Session.{SessionStorer}
use go_ldlm.Errors.{Error, other, error_message}
use go_ldlm.Common.{
  error_panic, ◌>>=◌, ◌>>◌, continue, pure, Outcome, returns, panics, blocks, Method, ℕ, String,
  ◌⊎◌, inl, inr, Bool, true, false, Option, none, some, if◌then◌else◌,
}

-- The settings of the server that its start looks at.
pub record LockServerConfig : Type 0 where
  pub no_clear_on_disconnect : Bool
  pub default_lock_timeout : ℕ
  pub state_file : String
  pub ipc_socket_file : String

module _ (lm : LockManager) (st : SessionStorer) (sys : System) (k : Crypto) where
  open lm use {State}
  open st use {Disk}
  open sys use {World}

  -- What the process has.
  abbrev pub Process : Type 0
  Process = Server State Disk × World

  ipc_answered :
      (Error ⊎ IpcCloser) × World → Server State Disk → Outcome (Error ⊎ IpcCloser) × Process
  ipc_answered (inl e, w) s = (returns (inl (other ("ipc.Run(): " ++ error_message e))), (s, w))
  ipc_answered (inr c, w) s = (returns (inr c), (s, w))

  loaded :
      String
      → World
      → Outcome (Option Error) × Server State Disk
      → Outcome (Error ⊎ IpcCloser) × Process
  loaded file w (returns none, s) =
      let r = ipc_run sys tt file (none, w) in ipc_answered (r.0, r.1.1) s
  loaded file w (returns (some e), s) = (returns (inl e), (s, w))
  loaded file w (panics e, s) = (panics e, (s, w))
  loaded file w (blocks, s) = (blocks, (s, w))

  -- NewManager of the sessions panics where its store cannot be opened. `disk` is what the state file
  -- holds; whether it exists is in the system.
  store_opened :
      State
      → Disk
      → LockServerConfig
      → ℕ
      → Option Error × World
      → Outcome (Error ⊎ IpcCloser) × Process
  store_opened start disk conf now (some e, w) = (
    panics (error_panic (error_message e)),
    (fresh lm st start disk conf.no_clear_on_disconnect, w),
  )
  store_opened start disk conf now (none, w) =
      loaded conf.ipc_socket_file w
        (new lm st start disk conf.no_clear_on_disconnect conf.default_lock_timeout now)

  -- New: the opening of its store, its reload of the saved locks, and then the IPC server. It is the
  -- only server of the process (tt).
  unfoldable pub new_server :
      State → Disk → LockServerConfig → ℕ → World → Outcome (Error ⊎ IpcCloser) × Process
  unfolding store_opened loaded ipc_answered
  new_server start disk conf now w =
      store_opened start disk conf now (open_store sys conf.state_file w)

  on_world : {A : Type 0} → Method World A → Method Process A
  on_world m (s, w) = let (r, w') = m w in (r, (s, w'))

  on_server : (Server State Disk → Server State Disk) → Method Process (Unit {0})
  on_server f (s, w) = (returns tt, (f s, w))

  -- The function that New returns.
  unfoldable pub close_server : (State → State) → IpcCloser → Method Process (Unit {0})
  unfolding on_world on_server
  close_server shutdown c = do on_world (ipc_close sys c); on_server (Startup.close lm st shutdown)

  -- The signal has come: netCloser, lockSrvCloser, and the return of main.
  net_served : (State → State) → IpcCloser → NetCloser → Bool → Method Process ℕ
  net_served shutdown c n served = do
    on_world (λ w. (returns tt, net_close sys k n served w))
    close_server shutdown c
    pure 0

  -- After net.Run. `late` is whether the signal comes before the goroutine of the REST server.
  net_answered :
      (State → State)
      → IpcCloser
      → Bool
      → (Error ⊎ NetCloser) × World
      → Server State Disk
      → Outcome ℕ × Process
  net_answered shutdown c late (inl e, w) s = (do close_server shutdown c; pure 1) (s, w)
  net_answered shutdown c late (inr n, w) s =
      (on_world (rest_serve sys k n late) >>= net_served shutdown c n) (s, w)

  server_answered :
      (State → State) → Option Error → NetConfig → Bool → Error ⊎ IpcCloser → Method Process ℕ
  server_answered shutdown registered conf late (inl e) p = (returns 1, p)
  server_answered shutdown registered conf late (inr c) (s, w) =
      net_answered shutdown c late (net_run sys k registered conf w) s

  -- main, after the settings are read; the first argument is the flag for the version.
  unfoldable pub main :
      Bool
      → State
      → Disk
      → (State → State)
      → Option Error
      → LockServerConfig
      → NetConfig
      → Bool
      → ℕ
      → Method World ℕ
  unfolding server_answered net_answered net_served on_world
  main version start disk shutdown registered lock_conf net_conf late now w =
      if version
      then (returns 0, w)
      else let (r, p) = new_server start disk lock_conf now w in
        let (status, end) = continue r (server_answered shutdown registered net_conf late) p in
        (status, end.1)
