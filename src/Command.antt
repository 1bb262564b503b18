-- ===== src/Command.antt =====
-- cmd/lock: the commands that list locks, and unlock one, over the socket of a server. Parameters are
-- what package kong makes of the arguments, the environment, the error of rpc.DialHTTP, and what the
-- connection does with the one call (Wire). The commands are run with the state of the server.
pub mod Forced
mod Tests
use Prim.Native.String.{◌++◌ as ◌<>◌}
use go_ldlm.Server.Interfaces.{LockManager}
use go_ldlm.Session.{SessionStorer}
use go_ldlm.Server.{Server}
use go_ldlm.Ipc
use go_ldlm.Program.Os.{System}
use go_ldlm.Program.{default_socket_path}
use go_ldlm.Errors.{Error, other, error_message}
use go_ldlm.Common.{
  pure, Method, ◌>>=◌, ◌>>◌, ℕ, String, ◌==◌, ◌⊎◌, inl, inr, Bool, true, false, Option, none, some,
  List, [], ◌∷◌, if◌then◌else◌, ℤ,
}

-- The command of the arguments.
pub data Command : Type 0 where
  unlock_command : (lock_name key : String) → Command
  list_command : Command

-- What the connection does with a call: it takes the request there and the answer back, or it fails
-- before the server has the request, or after.
pub data Wire : Type 0 where
  delivers : Wire
  lost_before : Error → Wire
  lost_after : Error → Wire

-- The end of the process, with the lines that it printed and what it wrote to os.Stderr.
pub record Exit : Type 0 where
  pub status : ℕ
  pub stdout : List String
  pub stderr : String

abbrev pub bool_text : Bool → String
bool_text true = "true"
bool_text false = "false"

-- The lines of an answer.
unfoldable pub unlocked_lines : Error ⊎ Bool → Error ⊎ List String
unlocked_lines (inl e) = inl e
unlocked_lines (inr unlocked) = inr (("Unlocked: " <> bool_text unlocked) ∷ [])

unfoldable pub lock_lines : List String → List String
lock_lines [] = "No locks found" ∷ []
lock_lines (l ∷ ls) = l ∷ ls

unfoldable pub listed_lines : Error ⊎ List String → Error ⊎ List String
listed_lines (inl e) = inl e
listed_lines (inr ls) = inr (lock_lines ls)

-- The end of main, by the error of ctx.Run.
unfoldable pub ended : Error ⊎ List String → Exit
ended (inl e) = record { status = 1; stdout = []; stderr = error_message e <> "\n" }
ended (inr ls) = record { status = 0; stdout = ls; stderr = "" }

-- Call of package net/rpc: a method's error comes back as its text, as errors.New gives it.
abbrev pub received : {A : Type 0} → Error ⊎ A → Error ⊎ A
received (inl e) = inl (other (error_message e))
received (inr a) = inr a

unfoldable pub call : {S A : Type 0} → Wire → Method S (Error ⊎ A) → Method S (Error ⊎ A)
call delivers m = do r ← m; pure (received r)
call (lost_before e) m = pure (inl e)
call (lost_after e) m = do r ← m; pure (inl e)

abbrev pub dial_failed : Error → Exit
dial_failed e = record {
  status = 1;
  stdout = [];
  stderr =
      "IPC error: "
      <> error_message e
      <> ". Is the ldlm server running? Do you need to specify the socket file path? See help\n";
}

module _ (sys : System) (getenv : String → String) where
  unfoldable pub get_default_socket_path : String
  get_default_socket_path =
      let f = getenv "LDLM_IPC_SOCKET_FILE" in if f == "" then default_socket_path sys else f

  unfoldable pub socket_path : String → String
  socket_path s = if s == "" then get_default_socket_path else s

module _ (lm : LockManager) (st : SessionStorer) (format_int : ℤ → String) where
  open lm use {State}
  open st use {Disk}

  -- Run of the unlock command.
  unfoldable pub unlock_run :
      (lock_name key : String) → Wire → ℕ → Method (Server State Disk) (Error ⊎ List String)
  unlock_run lock_name key wire now = do
    r ← call wire (Ipc.unlock lm st (record { name = lock_name; key = key }) now)
    pure (unlocked_lines r)

  -- Run of the list command.
  unfoldable pub list_run : Wire → Method (Server State Disk) (Error ⊎ List String)
  list_run wire = do
    r ← call wire (λ s. pure (inr (Ipc.list_locks lm st format_int s)) s)
    pure (listed_lines r)

  unfoldable pub run : Command → Wire → ℕ → Method (Server State Disk) (Error ⊎ List String)
  run (unlock_command lock_name key) wire now = unlock_run lock_name key wire now
  run list_command wire now = list_run wire

  -- main, after newClient.
  unfoldable pub connected : Option Error → Command → Wire → ℕ → Method (Server State Disk) Exit
  connected (some e) cmd wire now = pure (dial_failed e)
  connected none cmd wire now = do r ← run cmd wire now; pure (ended r)

  unfoldable pub main :
      (sys : System)
      → (String → String)
      → (String → Option Error)
      → (socket : String) → Command
      → Wire
      → ℕ
      → Method (Server State Disk) Exit
  main sys getenv dial socket cmd wire now =
      connected (dial (socket_path sys getenv socket)) cmd wire now
