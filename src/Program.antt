-- ===== src/Program.antt =====
-- The server program: server/ipc/server.go, the Run functions of net/grpc/grpc.go, net/rest/rest.go
-- and net/net.go, and cmd/server/main.go. Each starts listeners and gives a function that closes
-- them; the functions are data here. A goroutine that serves is one step. Logging is left out.
pub mod Os
pub mod Sockets
pub mod Network
pub mod Main
mod Tests
use Prim.Native.String.{◌++◌}
use Os.{System}
use go_ldlm.Errors.{Error, other, error_message}
use go_ldlm.Security.{SecurityConfig, Crypto, get_tls_config}
use go_ldlm.Common.{
  ◌>>=◌, ◌>>◌, pure, string_panic, error_panic, Outcome, returns, panics, blocks, Method, ℕ, String,
  ◌==◌, ◌⊎◌, inl, inr, Bool, true, false, Option, none, some, if◌then◌else◌,
}

-- The function that ipc.Run returns.
pub data IpcCloser : Type 0 where
  disabled : IpcCloser
  closes_socket : String → IpcCloser

-- The function that net.Run returns, with the addresses of its listeners.
pub data NetCloser : Type 0 where
  closes_grpc : String → NetCloser
  closes_rest_and_grpc : (rest grpc : String) → NetCloser

-- The parts of the settings that the start looks at.
pub record NetConfig : Type 0 where
  pub grpc_listen_address : String
  pub rest_listen_address : String
  pub security : SecurityConfig

-- errSocketExists
abbrev socket_exists : String
socket_exists =
    "IPC socket file already exists. If another instance of "
    ++ "ldlm isn't running, delete the socket file and try again. "
    ++ "Otherwise, shut down that instance before starting a new "
    ++ "one. Alternatively specify a different IPC socket file"

module _ (sys : System) where
  open sys use {World}

  abbrev pub default_socket_path : String
  default_socket_path =
      if sys.is_windows then "\\\\.\\pipe\\ldlm-ipc" else sys.join sys.temp_dir "ldlm-ipc.sock"

  abbrev pub socket_path_exists : String → World → Bool
  socket_path_exists = sys.exists

  -- The field IPCSocketFile, or the path that stands for it.
  abbrev pub socket_file : String → String
  socket_file file = if file == "<platform specific>" then default_socket_path else file

  -- store.New: the state file is opened, and made if it is not there. A store without one opens none.
  unfoldable pub open_store : String → World → Option Error × World
  open_store file w = if file == "" then (none, w) else sys.open_file file w

  -- setUp: the one IPC object of the process, here its field lckSrv, serves this server from now on.
  abbrev pub set_up : {S : Type 0} → S → Option S → Option S
  set_up lsrv old = some lsrv

  ipc_listened :
      {S : Type 0}
      → String
      → Option S
      → Option Error × World
      → (Error ⊎ IpcCloser) × (Option S × World)
  ipc_listened path srv (none, w) = (inr (closes_socket path), (srv, w))
  ipc_listened path srv (some e, w) =
      (inl (other ("ipc.Run() net.listen error: " ++ error_message e)), (srv, w))

  unfoldable pub ipc_run :
      {S : Type 0} → S → String → Option S × World → (Error ⊎ IpcCloser) × (Option S × World)
  unfolding ipc_listened
  ipc_run lsrv file (srv, w) =
      if socket_file file == ""
      then (inr disabled, (srv, w))
      else if socket_path_exists (socket_file file) w
      then (inl (other ("file: " ++ socket_file file ++ " exists. " ++ socket_exists)), (srv, w))
      else ipc_listened (socket_file file) (set_up lsrv srv)
          (sys.listen "unix" (socket_file file) w)

  removed : Option Error × World → Outcome (Unit {0}) × World
  removed (none, w) = (returns tt, w)
  removed (some e, w) =
      (panics (string_panic ("error removing socket file: " ++ error_message e)), w)

  -- An error of the listener's Close is only logged.
  unfoldable pub ipc_close : IpcCloser → Method World (Unit {0})
  unfolding removed
  ipc_close disabled w = (returns tt, w)
  ipc_close (closes_socket path) w =
      let (_, w') = sys.close_listener "unix" path w in
      if socket_path_exists path w' then removed (sys.remove path w') else (returns tt, w')

  module _ (k : Crypto) where
    grpc_listened : String → SecurityConfig → Option Error × World → (Error ⊎ String) × World
    grpc_listened address sec (some e, w) = (inl e, w)
    grpc_listened address sec (none, w) = elim (get_tls_config k sec) [
      | inl e ↦ (inl e, w)
      | inr tls ↦ (inr address, w)
    ]

    -- grpc.Run; its result stands for the function that stops the server.
    unfoldable pub grpc_run : String → SecurityConfig → World → (Error ⊎ String) × World
    unfolding grpc_listened
    grpc_run address sec w = grpc_listened address sec (sys.listen "tcp" address w)

    -- rest.Run up to the start of its goroutine; `registered` is what RegisterLDLMHandlerServer
    -- returns.
    unfoldable pub rest_run : Option Error → String → SecurityConfig → Error ⊎ String
    rest_run (some e) address sec = inl e
    rest_run none address sec = elim (get_tls_config k sec) [
      | inl e ↦ inl e
      | inr tls ↦ inr address
    ]

    -- The functions that close the servers. `served` is whether the REST server's goroutine listened.
    abbrev pub grpc_close : String → World → World
    grpc_close address w = (sys.close_listener "tcp" address w).1

    abbrev pub rest_close : String → Bool → World → World
    rest_close address served w = if served then (sys.close_listener "tcp" address w).1 else w

    unfoldable pub net_close : NetCloser → Bool → World → World
    net_close (closes_grpc grpc) served w = grpc_close grpc w
    net_close (closes_rest_and_grpc rest grpc) served w = grpc_close grpc (rest_close rest served w)

    rest_started : String → Error ⊎ String → World → (Error ⊎ NetCloser) × World
    rest_started grpc (inl e) w = (inl e, grpc_close grpc w)
    rest_started grpc (inr rest) w = (inr (closes_rest_and_grpc rest grpc), w)

    grpc_started : Option Error → NetConfig → (Error ⊎ String) × World → (Error ⊎ NetCloser) × World
    grpc_started registered conf (inl e, w) = (inl e, w)
    grpc_started registered conf (inr grpc, w) =
        if conf.rest_listen_address == ""
        then (inr (closes_grpc grpc), w)
        else rest_started grpc (rest_run registered conf.rest_listen_address conf.security) w

    unfoldable pub net_run : Option Error → NetConfig → World → (Error ⊎ NetCloser) × World
    unfolding grpc_started rest_started
    net_run registered conf w =
        grpc_started registered conf (grpc_run conf.grpc_listen_address conf.security w)

    rest_listened : Option Error × World → Outcome Bool × World
    rest_listened (none, w) = (returns true, w)
    rest_listened (some e, w) = (panics (error_panic (error_message e)), w)

    -- The goroutine of rest.Run: whether it listens. It does not once the server is closed, and an
    -- error of its Listen is a panic.
    unfoldable pub rest_serve : NetCloser → Bool → Method World Bool
    unfolding rest_listened
    rest_serve (closes_grpc grpc) closed w = (returns false, w)
    rest_serve (closes_rest_and_grpc rest grpc) closed w =
        if closed then (returns false, w) else rest_listened (sys.listen "tcp" rest w)
