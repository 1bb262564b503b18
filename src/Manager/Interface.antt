-- ===== src/Manager/Interface.antt =====
-- lock/manager.go implements the interface of server/types.go.
use go_ldlm.Manager.Spec.{Answer}
use go_ldlm.Manager.Ops.{unlock_Agrees, try_lock_Agrees, Agrees}
use go_ldlm.Manager.Invariant.{Inv}
use go_ldlm.Manager.Steps.{step, unlocks, step-Inv, try_locks}
use go_ldlm.Errors.{Error}
use go_ldlm.Manager.Find.{get_lock_cases}
use go_ldlm.Server.Interfaces.{Follows, IsLockManager, LockManager}
use go_ldlm.Lock.{Lock, lock_begin}
use go_ldlm.Common.{
  Outcome, ◌∙◌, true, false, Option, if◌then◌else◌, pos, ℕ, String, ◌≡◌, refl, Bool, arith, ℤ,
}
use go_ldlm.Manager
use go_ldlm.Manager.{
  try_lock_found, found, lock_wake, Found, put, refused, get_lock, unlock_found, Manager,
}
use go_ldlm.Manager.Ops
use go_ldlm.Lock

module _ (hash : String → ℕ) where
  abbrev pub manager : LockManager
  manager = record {
    State = Manager;
    lock = Manager.lock hash;
    begin = λ m. Lock.lock_begin m.ctx;
    wake = Manager.lock_wake hash;
    try_lock = Manager.try_lock hash;
    unlock = Manager.unlock hash;
  }

  pub down-get_lock :
      (name : String) (create : Bool) (size : ℤ) (now : ℕ) (m : Manager)
      → (get_lock hash name create size now m).1.is_shutdown ≡ m.is_shutdown
  unfolding put
  down-get_lock name create size now m =
      get_lock_cases hash (λ r. r.1.is_shutdown ≡ m.is_shutdown) name create size now m (λ _. refl)
        (λ _ _ _. refl) (λ _ _ _. refl) (λ _ _ _ _. refl) (λ _ _ _ _. refl)

  down-try_lock_found :
      (name key : String) (r : Found) (m : Manager)
      → (try_lock_found hash name key r m).1.is_shutdown ≡ m.is_shutdown
  unfolding try_lock_found put
  down-try_lock_found name key (refused e) m = refl
  down-try_lock_found name key (found l) m = ground arith

  down-unlock_found :
      (name key : String) (r : Found) (m : Manager)
      → (unlock_found hash name key r m).1.is_shutdown ≡ m.is_shutdown
  unfolding unlock_found put
  down-unlock_found name key (refused e) m = refl
  down-unlock_found name key (found l) m = ground arith

  pub down-if :
      {A : Type 0} (d b : Bool) (x y : A × Manager)
      → x.1.is_shutdown ≡ d
      → y.1.is_shutdown ≡ d
      → (if b then x else y).1.is_shutdown ≡ d
  down-if d true x y h k = h
  down-if d false x y h k = k

  down-try_lock :
      (name key : String) (size : ℤ) (now : ℕ) (m : Manager)
      → (Manager.try_lock hash name key size now m).1.is_shutdown ≡ m.is_shutdown
  unfolding Manager.try_lock
  down-try_lock name key size now m =
      down-if m.is_shutdown m.is_shutdown _ _ refl
        (down-try_lock_found name key _ _ ∙ down-get_lock name true size now m)

  down-unlock :
      (name key : String) (now : ℕ) (m : Manager)
      → (Manager.unlock hash name key now m).1.is_shutdown ≡ m.is_shutdown
  unfolding Manager.unlock
  down-unlock name key now m =
      down-if m.is_shutdown m.is_shutdown _ _ refl
        (down-unlock_found name key _ _ ∙ down-get_lock name false (pos 1) now m)

  pub follows :
      {r : Outcome (Bool × Option Error) × Manager} {a : Answer}
      → Ops.Agrees hash r a
      → Follows manager (Ops.view hash) r a
  follows g = record { reply = g.reply; state = g.state }

  pub try_lock_keeps :
      (name key : String) (size : ℤ) (now : ℕ) (m : Manager)
      → Inv hash m
      → Inv hash (Manager.try_lock hash name key size now m).1
        × ((Manager.try_lock hash name key size now m).1.is_shutdown ≡ m.is_shutdown)
  unfolding step
  try_lock_keeps name key size now m v =
      (step-Inv hash m (now, try_locks name key size) v, down-try_lock name key size now m)

  pub unlock_keeps :
      (name key : String) (now : ℕ) (m : Manager)
      → Inv hash m
      → Inv hash (Manager.unlock hash name key now m).1
        × ((Manager.unlock hash name key now m).1.is_shutdown ≡ m.is_shutdown)
  unfolding step
  unlock_keeps name key now m v =
      (step-Inv hash m (now, unlocks name key) v, down-unlock name key now m)

  -- The manager keeps what the server expects of a lock manager, under every hash.
  unfoldable pub manager-IsLockManager : IsLockManager manager
  manager-IsLockManager = record {
    IsValid = Inv hash;
    view = Ops.view hash;
    down = λ m. m.is_shutdown;
    try_lock_follows =
        λ name key size now m v. follows (Ops.try_lock_Agrees hash name key size now m v);
    unlock_follows = λ name key now m v. follows (Ops.unlock_Agrees hash name key now m v);
    try_lock_valid = try_lock_keeps;
    unlock_valid = unlock_keeps;
  }
