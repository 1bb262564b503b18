-- ===== src/Server/Requests.antt =====
-- TryLock and Unlock of server/server.go, over any lock manager that keeps its promise and a store
-- that works: the answer, the locks, and the sessions' lists together.
use go_ldlm.Manager.Spec.{spec_unlock, spec_try_lock}
use go_ldlm.Errors.{Error}
use go_ldlm.Session.Laws.{remove_lock_lem, add_lock_lem, held_by, IsReliable}
use go_ldlm.Server.Interfaces.{IsLockManager, LockManager}
use go_ldlm.Common.{
  lookup, ◌&&◌, if◌then◌else◌, pure, continue, returns, ℕ, zero, suc, String, ◌==◌, eq_iff, ◌≡◌,
  refl, sym, inl, inr, Bool, true, false, Option, none, some, List, [], ◌∷◌, ◌++◌, arith,
  Bool-cases, ℤ, pos, negsuc,
}
use mathlib.Core.List.{append-nil}
use go_ldlm.Session
use go_ldlm.Session.{without, add_lock, ClientLock, SessionStorer}
use go_ldlm.Server.{
  unlock, try_lock, size_or_one, on_locks, is_negative, try_lock_answered, unlock_answered,
  on_sessions, arm, on_timers, register, Server,
}

-- The locks that a request adds to a session's list.
abbrev pub joined : Bool → ClientLock → List ClientLock
joined true l = l ∷ []
joined false l = []

module _ (lm : LockManager) (st : SessionStorer) (good : IsLockManager lm)
    (ok : IsReliable st) where
  open lm use {State}
  open st use {Disk}
  open good use {IsValid, view, down}

  arm_lem :
      (name key session_id : String) (t : Option ℤ) (now : ℕ) (s : Server State Disk)
      → let r = arm lm st name key session_id t now s in
        (r.0 ≡ returns tt) × (r.1.lock_mgr ≡ s.lock_mgr) × (r.1.sess_mgr ≡ s.sess_mgr)
  unfolding arm on_timers pure
  arm_lem name key session_id none now s = (refl, refl, refl)
  arm_lem name key session_id (some (pos zero)) now s = (refl, refl, refl)
  arm_lem name key session_id (some (pos (suc n))) now s = (refl, refl, refl)
  arm_lem name key session_id (some (negsuc n)) now s = (refl, refl, refl)

  -- A lock that was acquired is registered with the session, and nothing else changes there.
  pub register_lem :
      (name key : String) (size : ℤ) (session_id : String) (t : Option ℤ) (now : ℕ)
      (s : Server State Disk)
      → let r = register lm st name key size session_id t now s in
        (r.0 ≡ returns tt)
        × (r.1.lock_mgr ≡ s.lock_mgr)
        × ((j : String)
            → held_by j r.1.sess_mgr.session_locks
              ≡ held_by j s.sess_mgr.session_locks
                ++ joined (session_id == j) (record { name = name; key = key; size = size }))
  unfolding register on_sessions continue
  register_lem name key size session_id t now s =
      let (added, lists) = Session.Laws.add_lock_lem st ok name key size session_id s.sess_mgr in
      let (armed, same, sess) =
        arm_lem name key session_id t now
          (record s { sess_mgr = (Session.add_lock st name key size session_id s.sess_mgr).1 }) in
      rw (added, continue)
        (
          armed,
          same,
          λ j. rw sess (
              rw (lists j) (elim (Bool-cases (session_id == j)) [
                | inl e ↦ rw e (ground (arith, (eq_iff session_id j).0 e))
                | inr e ↦ rw e (sym (append-nil (held_by j s.sess_mgr.session_locks)))
              ])),
        )

  answered_lem :
      (name key : String) (size : ℤ) (session_id : String) (t : Option ℤ) (now : ℕ)
      (a : Bool × Option Error) (s : Server State Disk)
      → let r = try_lock_answered lm st name key size session_id t now a s in
        (r.0 ≡ returns (some (record { name = name; key = key; locked = a.0 }), a.1))
        × (r.1.lock_mgr ≡ s.lock_mgr)
        × ((j : String)
            → held_by j r.1.sess_mgr.session_locks
              ≡ held_by j s.sess_mgr.session_locks
                ++ joined (a.0 && session_id == j) (record { name = name; key = key; size = size }))
  unfolding try_lock_answered continue pure
  answered_lem name key size session_id t now (true, err) s =
      let (ends, same, lists) = register_lem name key size session_id t now s in
      rw (ends, continue) (refl, same, lists)
  answered_lem name key size session_id t now (false, err) s =
      (refl, refl, λ j. sym (append-nil (held_by j s.sess_mgr.session_locks)))

  -- Over a lock manager that keeps its promise, in a valid state, and a reliable store: TryLock
  -- with a session, a name and no negative timeout answers as the specification of the lock manager
  -- does, the locks change accordingly, and the lock joins the list of the caller's session exactly
  -- if it was acquired; the other sessions' lists stay.
  pub try_lock_registers :
      (session_id name key : String) (size t : Option ℤ) (now : ℕ) (s : Server State Disk)
      → IsValid s.lock_mgr
      → (name == "") ≡ false
      → is_negative t ≡ false
      → let r = try_lock lm st (some session_id) name size t key now s in
        let a = spec_try_lock (down s.lock_mgr) name key (size_or_one size) (view s.lock_mgr) in
        (r.0 ≡ returns (some (record { name = name; key = key; locked = a.0.0 }), a.0.1))
        × ((j : String) → view r.1.lock_mgr j ≡ a.1 j)
        × ((j : String)
            → held_by j r.1.sess_mgr.session_locks
              ≡ held_by j s.sess_mgr.session_locks
                ++ joined
                    (a.0.0 && session_id == j)
                    (record { name = name; key = key; size = size_or_one size }))
  unfolding try_lock on_locks continue
  try_lock_registers session_id name key size t now s v named fits =
      let f = good.try_lock_follows name key (size_or_one size) now s.lock_mgr v in
      let (ends, same, lists) =
        answered_lem name key (size_or_one size) session_id t now
          (spec_try_lock (down s.lock_mgr) name key (size_or_one size) (view s.lock_mgr)).0
          (record s { lock_mgr = (lm.try_lock name key (size_or_one size) now s.lock_mgr).1 }) in
      simp (fits, named, f.reply) (ends, (λ j. rw same (f.state j)), lists)

  -- What TryLock leaves in the lock manager is what its call of the manager left there.
  pub try_lock_mgr :
      (session_id name key : String) (size t : Option ℤ) (now : ℕ) (s : Server State Disk)
      → IsValid s.lock_mgr
      → (name == "") ≡ false
      → is_negative t ≡ false
      → (try_lock lm st (some session_id) name size t key now s).1.lock_mgr
        ≡ (lm.try_lock name key (size_or_one size) now s.lock_mgr).1
  unfolding try_lock on_locks continue
  try_lock_mgr session_id name key size t now s v named fits =
      let f = good.try_lock_follows name key (size_or_one size) now s.lock_mgr v in
      simp (fits, named, f.reply)
        (answered_lem name key (size_or_one size) session_id t now
          (spec_try_lock (down s.lock_mgr) name key (size_or_one size) (view s.lock_mgr)).0
          (record s { lock_mgr = (lm.try_lock name key (size_or_one size) now s.lock_mgr).1 })).1

  unlock_answered_lem :
      (name key session_id : String) (ls : List ClientLock) (a : Bool × Option Error)
      (s : Server State Disk)
      → lookup session_id s.sess_mgr.session_locks ≡ some (some ls)
      → let r = unlock_answered lm st name key session_id a s in
        (r.0 ≡ returns a)
        × (r.1.lock_mgr ≡ s.lock_mgr)
        × ((j : String)
            → held_by j r.1.sess_mgr.session_locks ≡ (
                if a.0 && session_id == j
                then Session.without name key ls
                else held_by j s.sess_mgr.session_locks))
  unfolding unlock_answered on_sessions on_timers continue pure
  unlock_answered_lem name key session_id ls (true, err) s e =
      let (ends, lists) = Session.Laws.remove_lock_lem st ok name key session_id ls s.sess_mgr e in
      rw (ends, continue) (refl, refl, lists)
  unlock_answered_lem name key session_id ls (false, err) s e = (refl, refl, λ j. refl)

  -- Over a lock manager that keeps its promise, in a valid state, and a reliable store: Unlock by a
  -- caller whose session has an entry answers as the specification of the lock
  -- manager does, the locks change accordingly, and if it unlocked, the lock leaves the list of the
  -- caller's session, which need not be the session that acquired it; no other list changes.
  pub unlock_unregisters :
      (session_id name key : String) (ls : List ClientLock) (now : ℕ) (s : Server State Disk)
      → IsValid s.lock_mgr
      → lookup session_id s.sess_mgr.session_locks ≡ some (some ls)
      → let r = unlock lm st (some session_id) name key now s in
        let a = spec_unlock (down s.lock_mgr) name key (view s.lock_mgr) in
        (r.0 ≡ returns a.0)
        × ((j : String) → view r.1.lock_mgr j ≡ a.1 j)
        × ((j : String)
            → held_by j r.1.sess_mgr.session_locks ≡ (
                if a.0.0 && session_id == j
                then Session.without name key ls
                else held_by j s.sess_mgr.session_locks))
  unfolding unlock on_locks continue
  unlock_unregisters session_id name key ls now s v e =
      let f = good.unlock_follows name key now s.lock_mgr v in
      let (ends, same, lists) =
        unlock_answered_lem name key session_id ls
          (spec_unlock (down s.lock_mgr) name key (view s.lock_mgr)).0
          (record s { lock_mgr = (lm.unlock name key now s.lock_mgr).1 }) e in
      simp f.reply (ends, (λ j. rw same (f.state j)), lists)
