-- ===== src/Server/Orphans.antt =====
-- The whole server of server/server.go over a history of its events: no lock is held that no session
-- lists.
use go_ldlm.Session.Laws.{held_by, IsReliable}
use go_ldlm.Session.{SessionStorer, ClientLock}
use go_ldlm.Server.Interfaces.{LockManager, IsLockManager}
use go_ldlm.Server.Accounts.{IsAccounted, held_at, listed_at}
use go_ldlm.Server.Waits.{IsWaitable}
use go_ldlm.Server.Steps.{
  step, run, Happening, connects, disconnects, try_locks, locks, resumes, unlocks, refreshes,
  times_out,
}
use go_ldlm.Server.{Server, Waiting, lock_context, selects, destroy_session}
use go_ldlm.Server.Waits.{is_acquired}
use go_ldlm.Server.Requests.{joined}
use go_ldlm.Server.Release.{destroy_session-Ended, keys_of}
use go_ldlm.Lock.{Case}
use go_ldlm.Errors.{Context}
use go_ldlm.Server.Acquiring.{lock_resume_registers, resumes-Accounted, try_locks-Accounted}
use go_ldlm.Server.Keeping.{
  connects-Accounted, disconnects-Accounted, locks-Accounted, unlocks-Accounted,
  refreshes-Accounted, times_out-Accounted,
}
use go_ldlm.Common.{
  some, true, count, count-append, eq_refl, if_true, ap, ◌∙◌, ◌==◌, ◌++◌, ℕ, zero, suc, refl,
  String, ◌≡◌, false, List, [], ◌∷◌, arith, ◌<◌,
}

module _ (lm : LockManager) (st : SessionStorer) (good : IsLockManager lm) where
  open lm use {State}
  open st use {Disk}

  -- A key that a lock may be taken for is new: no lock of that name is held by it. And a server
  -- from which a session disconnects is one that clears locks then.
  abbrev pub IsRegular : Server State Disk → Happening → Type 0
  IsRegular s (connects session_id) = Unit
  IsRegular s (disconnects session_id now) = s.no_clear_on_disconnect ≡ false
  IsRegular s (try_locks session_id name size timeout key now) = held_at lm st good s name key ≡ 0
  IsRegular s (locks session_id name size timeout wait key now) = Unit
  IsRegular s (resumes w ctx e now) = held_at lm st good s w.name w.key ≡ 0
  IsRegular s (unlocks session_id name key now) = Unit
  IsRegular s (refreshes name key timeout now) = Unit
  IsRegular s (times_out timer now) = Unit

  abbrev pub IsRegularRun : Server State Disk → List Happening → Type 0
  IsRegularRun s [] = Unit
  IsRegularRun s (h ∷ hs) = IsRegular s h × IsRegularRun (step lm st s h) hs

  module _ (ok : IsReliable st) (waits : IsWaitable lm good) where
    -- Each event keeps every lock that is held in the list of some session.
    pub step-IsAccounted :
        (s : Server State Disk) (h : Happening)
        → IsRegular s h
        → IsAccounted lm st good s
        → IsAccounted lm st good (step lm st s h)
    unfolding step
    step-IsAccounted s (connects i) r a = connects-Accounted lm st good ok waits i s a
    step-IsAccounted s (disconnects i now) r a =
        disconnects-Accounted lm st good ok waits i now s a r
    step-IsAccounted s (try_locks i name size timeout key now) r a =
        try_locks-Accounted lm st good ok waits i name size timeout key now s a r
    step-IsAccounted s (locks i name size timeout wait key now) r a =
        locks-Accounted lm st good ok waits i name size timeout wait key now s a
    step-IsAccounted s (resumes w ctx e now) r a =
        resumes-Accounted lm st good ok waits w ctx e now s a r
    step-IsAccounted s (unlocks i name key now) r a =
        unlocks-Accounted lm st good ok waits i name key now s a
    step-IsAccounted s (refreshes name key timeout now) r a =
        refreshes-Accounted lm st good ok waits name key timeout now s a
    step-IsAccounted s (times_out i now) r a = times_out-Accounted lm st good ok waits i now s a

    -- Over a lock manager that keeps its promises, its Lock that waits included, and a store that
    -- works: from a server in which every lock that is held is in the list of some session, any
    -- history of connections, requests, waiting Locks that go on, timeouts of locks and disconnects
    -- leads to such a server, if the keys that locks are taken for are new at the time and the
    -- server clears locks when a session disconnects. The lock manager is valid and running
    -- there, and no key holds a lock twice.
    pub run-IsAccounted :
        (hs : List Happening) (s : Server State Disk)
        → IsAccounted lm st good s
        → IsRegularRun s hs
        → IsAccounted lm st good (run lm st s hs)
    unfolding run
    run-IsAccounted [] s a r = a
    run-IsAccounted (h ∷ hs) s a r =
        run-IsAccounted hs (step lm st s h) (step-IsAccounted s h r.0 a) r.1

    -- After such a history, if no session lists a name and key, then that key does not hold the
    -- lock of that name: what no session can give back is free.
    pub no_orphans :
        (hs : List Happening) (s : Server State Disk)
        → IsAccounted lm st good s
        → IsRegularRun s hs
        → (name key : String)
        → ((j : String) → listed_at lm st good (run lm st s hs) j name key ≡ 0)
        → held_at lm st good (run lm st s hs) name key ≡ 0
    no_orphans hs s a r name key unlisted = free _ refl
      where
        free :
            (n : ℕ)
            → held_at lm st good (run lm st s hs) name key ≡ n
            → held_at lm st good (run lm st s hs) name key ≡ 0
        free zero e = e
        free (suc n) e =
            let (j, l) = (run-IsAccounted hs s a r).accounted name key (omega (arith, e)) in
            absurd (omega (arith, l, unlisted j))

    -- A Lock that waits when its session ends can still acquire the lock, as its select may pick the
    -- send although the context is done. Over a server that keeps its locks accounted for: if it
    -- does, the key holds the lock, and the only lock listed for the session, which has ended, is
    -- that one.
    pub late_lock_outlives :
        (w : Waiting) (ctx : Context) (c : Case) (now : ℕ) (s : Server State Disk)
        → IsAccounted lm st good s
        → s.is_shutdown ≡ false
        → s.no_clear_on_disconnect ≡ false
        → let ended = step lm st s (disconnects w.session_id now) in
          is_acquired
              (lm.wake w.name w.key w.id (lock_context ctx w.deadline now) c ended.lock_mgr).0
            ≡ true
          → let t = step lm st ended (resumes w ctx (selects c) now) in
            (0 < held_at lm st good t w.name w.key)
            × (held_by w.session_id t.sess_mgr.session_locks
                ≡ record { name = w.name; key = w.key; size = w.size } ∷ [])
    unfolding step
    late_lock_outlives w ctx c now s a running clears h =
        let e =
          destroy_session-Ended lm st good ok w.session_id now s a.valid a.up running clears in
        let ended = (destroy_session lm st (some w.session_id) now s).1 in
        let (keys, lists) =
          lock_resume_registers lm st good ok waits w ctx c now ended e.still_valid h in
        (
          omega (
            arith,
            ap (count w.key) keys,
            count-append w.key (keys_of lm st good ended w.name) (w.key ∷ []),
            counted,
          ),
          lists w.session_id
              ∙ ap (λ x. x ++ joined (w.session_id == w.session_id) lock)
                  (e.lists w.session_id ∙ if_true _ _ _ (eq_refl w.session_id))
              ∙ rw (eq_refl w.session_id) refl,
        )
      where
        lock : ClientLock
        lock = record { name = w.name; key = w.key; size = w.size }

        counted : count w.key (w.key ∷ []) ≡ 1
        counted = rw (eq_refl w.key) (omega arith)
