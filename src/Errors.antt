-- ===== src/Errors.antt =====
-- The Go error values that the packages compare by identity, each with its package, and the
-- contexts that carry them.
use go_ldlm.Common.{String, Option, none, some, ◌⊎◌, inl, inr, ◌≡◌, ◌≢◌, refl}

pub data Error : Type 0 where
  invalid_lock_key lock_not_locked : Error  -- lock/lock.go
  lock_does_not_exist manager_shutdown lock_size_mismatch invalid_lock_size : Error  -- lock/manager.go
  timer_does_not_exist : Error  -- timer/timer.go
  empty_name lock_wait_timeout lock_does_not_exist_or_invalid_key : Error  -- server/server.go
  session_does_not_exist invalid_lock_timeout invalid_wait_timeout : Error  -- server/server.go
  context_canceled deadline_exceeded : Error  -- package context
  other : String → Error  -- any further error, by its message

-- A context.Context: live, or done with what Err() and Cause() then return.
pub data Context : Type 0 where
  live : Context
  done : (err cause : Error) → Context

abbrev pub context_err : Context → Option Error
context_err live = none
context_err (done err cause) = some err

abbrev pub context_cause : Context → Option Error
context_cause live = none
context_cause (done err cause) = some cause

-- e.Error()
unfoldable pub error_message : Error → String
error_message invalid_lock_key = "invalid lock key"
error_message lock_not_locked = "lock is not locked"
error_message lock_does_not_exist = "a lock by that name does not exist"
error_message manager_shutdown = "lock manager is shutdown"
error_message lock_size_mismatch = "lock size mismatch"
error_message invalid_lock_size = "lock size must be greater than 0"
error_message timer_does_not_exist = "timer does not exist"
error_message empty_name = "lock name cannot be empty"
error_message lock_wait_timeout = "timeout waiting to acquire lock"
error_message lock_does_not_exist_or_invalid_key = "lock does not exist or invalid key"
error_message session_does_not_exist = "session does not exist"
error_message invalid_lock_timeout = "lock timeout must be greater than 0"
error_message invalid_wait_timeout = "wait timeout must be greater than 0"
error_message context_canceled = "context canceled"
error_message deadline_exceeded = "context deadline exceeded"
error_message (other message) = message

-- A value and an error, of which one counts.
infixl 10 ◌>>=◌
abbrev pub ◌>>=◌ : {A B : Type 0} → Error ⊎ A → (A → Error ⊎ B) → Error ⊎ B
inl e >>= f = inl e
inr a >>= f = f a

pub bind_assoc :
    {A B C : Type 0} (m : Error ⊎ A) (f : A → Error ⊎ B) (g : B → Error ⊎ C)
    → (m >>= f >>= g) ≡ (m >>= λ a. f a >>= g)
bind_assoc (inl e) f g = refl
bind_assoc (inr a) f g = refl

inl≢inr : {B : Type 0} (err : Error) (b : B) → ◌≢◌ {A = Error ⊎ B} (inl err) (inr b)
inl≢inr err b e = cc

-- What came before a result.
pub bind_inr :
    {A B : Type 0} (m : Error ⊎ A) (f : A → Error ⊎ B) (b : B)
    → (m >>= f) ≡ inr b
    → (a : A) × (m ≡ inr a) × (f a ≡ inr b)
bind_inr (inl err) f b e = absurd (inl≢inr err b e)
bind_inr (inr a) f b e = (a, refl, e)
