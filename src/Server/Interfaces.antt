-- ===== src/Server/Interfaces.antt =====
-- The interface lockManager of server/types.go, and what its implementations promise.
use go_ldlm.Manager.Spec.{spec_try_lock, Answer, spec_unlock, Spec}
use go_ldlm.Errors.{Context, Error}
use go_ldlm.Lock.{LockReply, Case}
use go_ldlm.Common.{Outcome, returns, ◌≡◌, Method, ℕ, String, ◌⊎◌, Bool, Option, ℤ}

pub record LockManager : Type 1 where
  pub State : Type 0
  -- Lock up to its return; the first test of its goroutine; the goroutine's select
  pub lock : String → ℤ → ℕ → Method State (Error ⊎ ℕ)
  pub begin : State → Option LockReply
  pub wake : String → String → ℕ → Context → Case → Method State (Option LockReply)
  pub try_lock : String → String → ℤ → ℕ → Method State (Bool × Option Error)
  pub unlock : String → String → ℕ → Method State (Bool × Option Error)

-- What a lock manager promises: it answers and changes as the map of Manager/Spec.antt does.
module _ (lm : LockManager) where
  open lm use {State}

  -- One call agrees with an answer of the specification.
  pub record Follows (view : State → Spec) (r : Outcome (Bool × Option Error) × State) (a : Answer)
      : Type 0 where
    pub reply : r.0 ≡ returns a.0
    pub state : (j : String) → view r.1 j ≡ a.1 j

  pub record IsLockManager : Type 1 where
    pub IsValid : State → Type 0
    pub view : State → Spec
    pub down : State → Bool
    pub try_lock_follows :
        (name key : String) (size : ℤ) (now : ℕ) (x : State)
        → IsValid x
        → Follows view
            (lm.try_lock name key size now x)
            (spec_try_lock (down x) name key size (view x))
    pub unlock_follows :
        (name key : String) (now : ℕ) (x : State)
        → IsValid x
        → Follows view (lm.unlock name key now x) (spec_unlock (down x) name key (view x))
    pub try_lock_valid :
        (name key : String) (size : ℤ) (now : ℕ) (x : State)
        → IsValid x
        → IsValid (lm.try_lock name key size now x).1
          × (down (lm.try_lock name key size now x).1 ≡ down x)
    pub unlock_valid :
        (name key : String) (now : ℕ) (x : State)
        → IsValid x
        → IsValid (lm.unlock name key now x).1 × (down (lm.unlock name key now x).1 ≡ down x)
