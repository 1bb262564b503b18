-- ===== src/Server/Waits.antt =====
-- The lockManager of server/types.go for a Lock that waits: what its three parts do to the holders.
use go_ldlm.Server.Interfaces.{LockManager, IsLockManager}
use go_ldlm.Server.Release.{holders}
use go_ldlm.Errors.{Context}
use go_ldlm.Lock.{LockReply, Case, acquired}
use go_ldlm.Common.{
  Outcome, returns, ℕ, String, ◌==◌, ◌≡◌, Bool, true, false, ◌&&◌, Option, some, List, [], ◌∷◌,
  ◌++◌, ℤ,
}

-- The goroutine's select acquired the lock.
abbrev pub is_acquired : Outcome (Option LockReply) → Bool
is_acquired (returns (some acquired)) = true
is_acquired r = false

-- The key that joins the holders of a name.
abbrev pub added : Bool → String → List String
added true key = key ∷ []
added false key = []

module _ (lm : LockManager) (good : IsLockManager lm) where
  open lm use {State}
  open good use {IsValid, view, down}

  -- A valid state that is down exactly if the one before it is.
  pub record Stays (x y : State) : Type 0 where
    pub valid : IsValid y
    pub same_down : down y ≡ down x

  pub record IsWaitable : Type 0 where
    pub lock_stays :
        (name : String) (size : ℤ) (now : ℕ) (x : State)
        → IsValid x
        → Stays x (lm.lock name size now x).1
    pub lock_holds :
        (name : String) (size : ℤ) (now : ℕ) (x : State)
        → IsValid x
        → (j : String) → holders (view (lm.lock name size now x).1 j) ≡ holders (view x j)
    pub begin_waits : (x : State) → is_acquired (returns (lm.begin x)) ≡ false
    pub wake_stays :
        (name key : String) (id : ℕ) (c : Context) (k : Case) (x : State)
        → IsValid x
        → Stays x (lm.wake name key id c k x).1
    pub wake_holds :
        (name key : String) (id : ℕ) (c : Context) (k : Case) (x : State)
        → IsValid x
        → let r = lm.wake name key id c k x in
          (j : String)
          → holders (view r.1 j) ≡ holders (view x j) ++ added (is_acquired r.0 && name == j) key
