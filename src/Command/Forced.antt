-- ===== src/Command/Forced.antt =====
-- What the commands of cmd/lock do to a server, and what they say.
use go_ldlm.Command.{
  unlock_command, list_command, Wire, delivers, lost_before, lost_after, Exit, ended, call, run,
  unlock_run, list_run, connected, main, socket_path, unlocked_lines, listed_lines, lock_lines,
  dial_failed,
}
use go_ldlm.Server.Interfaces.{LockManager}
use go_ldlm.Session.{SessionStorer}
use go_ldlm.Server.{Server}
use go_ldlm.Ipc
use go_ldlm.Program.Os.{System}
use go_ldlm.Errors.{Error, other, error_message}
use go_ldlm.Common.{
  pure, continue, returns, Outcome, ℕ, String, ◌≡◌, refl, ◌⊎◌, inl, inr, Option, none, some, [], ℤ,
}

-- A run of a command that ends with the status 1, prints nothing, and leaves the server alone.
abbrev pub Refused : {S : Type 0} → Outcome Exit × S → S → Type 0
Refused r s = (x : Exit) × (r ≡ (returns x, s)) × (x.status ≡ 1) × (x.stdout ≡ [])

module _ (lm : LockManager) (st : SessionStorer) (format_int : ℤ → String) where
  open lm use {State}
  open st use {Disk}

  abbrev request : String → String → Ipc.UnlockRequest
  request lock_name key = record { name = lock_name; key = key }

  run_unlock :
      (lock_name key : String) (wire : Wire) (now : ℕ) (s : Server State Disk)
      → (e : Error) × (run lm st format_int (unlock_command lock_name key) wire now s
          ≡ (returns (inl e), s))
  unfolding run unlock_run call pure continue unlocked_lines
  run_unlock lock_name key (lost_before e) now s = (e, refl)
  run_unlock lock_name key delivers now s =
      let (e, refused) = Ipc.unlock_refuses lm st (request lock_name key) now s in
      (other (error_message e), rw refused refl)
  run_unlock lock_name key (lost_after e) now s =
      let (e2, refused) = Ipc.unlock_refuses lm st (request lock_name key) now s in
      (e, rw refused refl)

  connected_unlock :
      (o : Option Error) (lock_name key : String) (wire : Wire) (now : ℕ) (s : Server State Disk)
      → Refused (connected lm st format_int o (unlock_command lock_name key) wire now s) s
  unfolding connected pure continue ended
  connected_unlock (some e) lock_name key wire now s = (dial_failed e, refl, refl, refl)
  connected_unlock none lock_name key wire now s =
      let (e, failed) = run_unlock lock_name key wire now s in
      (ended (inl e), rw failed refl, refl, refl)

  -- The command that unlocks a lock never does: whatever the socket, the environment, the
  -- connection, the name, the key and the server's locks are, it exits with the status 1 and prints
  -- no line that the lock was unlocked, and the server stays as it is.
  pub unlock_command_fails :
      (sys : System) (getenv : String → String) (dial : String → Option Error) (socket : String)
      (lock_name key : String) (wire : Wire) (now : ℕ) (s : Server State Disk)
      → Refused
          (main lm st format_int sys getenv dial socket (unlock_command lock_name key) wire now s)
          s
  unfolding main
  unlock_command_fails sys getenv dial socket lock_name key wire now s =
      connected_unlock (dial (socket_path sys getenv socket)) lock_name key wire now s

  connected_list :
      (o : Option Error) (w : Wire) (now : ℕ) (s : Server State Disk)
      → let r = connected lm st format_int o list_command w now s in
        Refused r s
        ⊎ ((w ≡ delivers)
            × (o ≡ none)
            × (r ≡ (returns (ended (inr (lock_lines (Ipc.list_locks lm st format_int s)))), s)))
  unfolding connected run list_run call pure continue listed_lines ended
  connected_list (some e) w now s = inl (dial_failed e, refl, refl, refl)
  connected_list none (lost_before e) now s = inl (ended (inl e), refl, refl, refl)
  connected_list none (lost_after e) now s = inl (ended (inl e), refl, refl, refl)
  connected_list none delivers now s = inr (refl, refl, refl)

  -- The command that lists locks leaves the server alone. It prints the lines of the server's locks
  -- and exits with 0, where it reaches the server and has the answer, and else prints nothing and
  -- exits with 1.
  pub list_command_lem :
      (sys : System) (getenv : String → String) (dial : String → Option Error) (socket : String)
      (wire : Wire) (now : ℕ) (s : Server State Disk)
      → let r = main lm st format_int sys getenv dial socket list_command wire now s in
        Refused r s
        ⊎ ((wire ≡ delivers)
            × (dial (socket_path sys getenv socket) ≡ none)
            × (r ≡ (returns (ended (inr (lock_lines (Ipc.list_locks lm st format_int s)))), s)))
  unfolding main
  list_command_lem sys getenv dial socket wire now s =
      connected_list (dial (socket_path sys getenv socket)) wire now s
