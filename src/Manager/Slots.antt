-- ===== src/Manager/Slots.antt =====
-- The slots of the locks that lock/manager.go stores.
use go_ldlm.Manager.{Manager, ManagedLock, find, unlock}
use go_ldlm.Manager.Invariant.{Inv, AllGood}
use go_ldlm.Manager.Spec.{spec_unlock}
use go_ldlm.Manager.Ops.{Agrees, view, unlock_Agrees}
use go_ldlm.Manager.Steps.{step, unlocks, step-Inv}
use mathlib.Core.Path.{subst}
use go_ldlm.Common.{ℕ, String, ◌≡◌, Option, none, some, length}

-- As many elements in the channel of a lock as there are keys that hold it.
abbrev Counted : Option ManagedLock → Type 0
Counted none = Unit
Counted (some l) = l.lock.mtx ≡ length l.lock.keys

AllGood-Counted : (o : Option ManagedLock) → AllGood o → Counted o
AllGood-Counted none g = tt
AllGood-Counted (some l) g = g.sound.counted

module _ (hash : String → ℕ) where
  -- Unlock of a well-formed manager, on every branch: it never blocks; if the key holds the named
  -- lock, that lock loses one occurrence of the key and no lock changes its keys otherwise; and in
  -- every lock that is then found by a name, the slots in use are as many as the keys, so that the
  -- slot of the key is free again.
  pub unlock-Frees :
      (name key : String) (now : ℕ) (m : Manager)
      → Inv hash m
      → Agrees hash (unlock hash name key now m) (spec_unlock m.is_shutdown name key (view hash m))
        × ((j : String) (l : ManagedLock)
            → find hash j (unlock hash name key now m).1 ≡ some l
            → l.lock.mtx ≡ length l.lock.keys)
  unfolding step
  unlock-Frees name key now m v =
      let w = step-Inv hash m (now, unlocks name key) v in
      (
        unlock_Agrees hash name key now m v,
        λ j l e. subst Counted e (AllGood-Counted (find hash j _) (w.good j)),
      )
