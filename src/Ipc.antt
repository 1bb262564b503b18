-- ===== src/Ipc.antt =====
-- server/ipc/ipc.go: the calls that the command line tool makes over a Unix socket.
use Prim.Native.String.{◌++◌}
use go_ldlm.Server.Interfaces.{LockManager}
use go_ldlm.Errors.{Error, session_does_not_exist, other, lock_does_not_exist, error_message}
use go_ldlm.Session.{ClientLock, SessionStorer}
use go_ldlm.Common.{
  continue, pure, returns, Method, ◌>>=◌, ℕ, String, ◌==◌, ◌≡◌, refl, ◌⊎◌, inl, inr, Bool, Option,
  none, some, List, [], ◌∷◌, map, if◌then◌else◌, Bool-cases, ℤ,
}
use go_ldlm.Server
use go_ldlm.Server.{Server}

pub record UnlockRequest : Type 0 where
  pub name : String
  pub key : String

-- The key of the last lock of that name, or else the key given.
unfoldable pub key_of : String → String → List ClientLock → String
key_of name key [] = key
key_of name key (l ∷ ls) = key_of name (if l.name == name then l.key else key) ls

-- The text of a lock in the list; `format_int` is the %d of package fmt.
abbrev pub lock_text : (ℤ → String) → ClientLock → String
lock_text format_int l =
    "{Name: " ++ l.name ++ ", Key: " ++ l.key ++ ", Size: " ++ format_int l.size ++ "}"

module _ (lm : LockManager) (st : SessionStorer) where
  open lm use {State}
  open st use {Disk}

  answer : Bool × Option Error → Error ⊎ Bool
  answer (unlocked, none) = inr unlocked
  answer (unlocked, some e) = inl (other ("failed to unlock lock: " ++ error_message e))

  -- context.Background() carries no session.
  unlock_key : String → String → ℕ → Method (Server State Disk) (Error ⊎ Bool)
  unfolding answer
  unlock_key name key now =
      if key == ""
      then pure (inl lock_does_not_exist)
      else do r ← Server.unlock lm st none name key now; pure (answer r)

  unfoldable pub unlock : UnlockRequest → ℕ → Method (Server State Disk) (Error ⊎ Bool)
  unfolding unlock_key
  unlock req now s =
      unlock_key req.name
        (if req.key == "" then key_of req.name req.key (Server.locks lm st s) else req.key) now s

  unfoldable pub list_locks : (ℤ → String) → Server State Disk → List String
  list_locks format_int s = map (lock_text format_int) (Server.locks lm st s)

  unlock_key_lem :
      (name key : String) (now : ℕ) (s : Server State Disk)
      → (e : Error) × (unlock_key name key now s ≡ (returns (inl e), s))
  unfolding unlock_key Server.unlock pure continue
  unlock_key_lem name key now s = elim (Bool-cases (key == "")) [
    | inl h ↦ (lock_does_not_exist, rw (h, unlock_key) refl)
    | inr h ↦ (
      other ("failed to unlock lock: " ++ error_message session_does_not_exist),
      rw (h, unlock_key) refl,
    )
  ]

  -- A call of Unlock never unlocks: it returns an error whatever the request and the locks are, and
  -- the server stays as it is.
  pub unlock_refuses :
      (req : UnlockRequest) (now : ℕ) (s : Server State Disk)
      → (e : Error) × (unlock req now s ≡ (returns (inl e), s))
  unfolding unlock
  unlock_refuses req now s =
      unlock_key_lem req.name
        (if req.key == "" then key_of req.name req.key (Server.locks lm st s) else req.key) now s
