-- ===== src/Server/Timeouts.antt =====
-- The lock timers of server/server.go: what RefreshLock answers, and what a timeout releases.
use go_ldlm.Timer.Laws.{refresh_answer, IsLinked, refresh_lem}
use go_ldlm.Session.Laws.{held_by, remove_lock_lem, IsReliable}
use go_ldlm.Manager.Spec.{spec_unlock}
use go_ldlm.Server.Interfaces.{LockManager, IsLockManager}
use go_ldlm.Server.Keys.{timer_key}
use go_ldlm.Errors.{Error, lock_does_not_exist_or_invalid_key}
use go_ldlm.Session.{ClientLock, SessionStorer, without}
use go_ldlm.Timer.{is_armed, Timer}
use go_ldlm.Common.{
  Bool, Option, lookup, continue, returns, ℕ, ◌*◌, String, ◌==◌, ◌≡◌, refl, true, none, some, List,
  if◌then◌else◌, ℤ, is_pos, pos_part,
}
use go_ldlm.Server.{
  refresh_error, Reply, second, on_locks, on_sessions, on_timeout, refresh_lock, Server, OnTimeout,
}
use go_ldlm.Session
use go_ldlm.Timer

-- What the server makes of an answer of the timers.
abbrev pub refresh_reply : String → String → Bool × Option Error → Reply
refresh_reply name key (armed, none) =
    (some (record { name = name; key = key; locked = armed }), none)
refresh_reply name key (armed, some e) = (
  some (record { name = name; key = key; locked = armed }),
  some lock_does_not_exist_or_invalid_key,
)

module _ (lm : LockManager) (st : SessionStorer) (good : IsLockManager lm) where
  open lm use {State}
  open st use {Disk}
  open good use {IsValid, view, down}

  replied :
      (name key : String) (o : Option ℕ) (heap : List (Timer OnTimeout))
      → returns (
        some (record { name = name; key = key; locked = (refresh_answer o heap).0 }),
        refresh_error lm st (refresh_answer o heap).1,
      )
        ≡ returns (refresh_reply name key (refresh_answer o heap))
  unfolding refresh_error
  replied name key none heap = refl
  replied name key (some i) heap = refl

  -- Where the timers agree with their map, and with a positive timeout, RefreshLock refuses a name
  -- and key that no timer is for, answers for the others whether their timer still runs, and leaves
  -- locks and sessions alone.
  pub refresh_lock_answers :
      (name key : String) (t : ℤ) (now : ℕ) (s : Server State Disk)
      → IsLinked s.lock_timers
      → is_pos t ≡ true
      → let r = refresh_lock lm st name key t now s in
        (r.0
          ≡ returns (
              refresh_reply name key (
                refresh_answer
                  (lookup (timer_key name key) s.lock_timers.timers)
                  s.lock_timers.heap)))
        × IsLinked r.1.lock_timers
        × (r.1.lock_mgr ≡ s.lock_mgr)
        × (r.1.sess_mgr ≡ s.sess_mgr)
  unfolding refresh_lock
  refresh_lock_answers name key t now s v positive =
      let (linked, answer, same) =
        Timer.Laws.refresh_lem (timer_key name key) now (pos_part t * second) s.lock_timers v in
      rw (positive, refresh_lock)
        (
          rw answer (
              replied name key (lookup (timer_key name key) s.lock_timers.timers)
                s.lock_timers.heap),
          linked,
          refl,
          refl,
        )

  -- Over a lock manager that keeps its promise, in a valid state, and a reliable store: when the
  -- timer of a lock runs out and its session has an entry, the call returns; the lock is released
  -- as the specification of the lock manager says, if its key still holds it; and the lock leaves
  -- the list of its session, whether it was released or not. No other list changes.
  pub on_timeout_releases :
      IsReliable st
      → (c : OnTimeout) (ls : List ClientLock) (now : ℕ) (s : Server State Disk)
      → IsValid s.lock_mgr
      → lookup c.session_id s.sess_mgr.session_locks ≡ some (some ls)
      → let r = on_timeout lm st c now s in
        (r.0 ≡ returns tt)
        × ((j : String)
            → view r.1.lock_mgr j
              ≡ (spec_unlock (down s.lock_mgr) c.name c.key (view s.lock_mgr)).1 j)
        × ((j : String)
            → held_by j r.1.sess_mgr.session_locks ≡ (
                if c.session_id == j
                then Session.without c.name c.key ls
                else held_by j s.sess_mgr.session_locks))
  unfolding on_timeout on_locks on_sessions continue
  on_timeout_releases ok c ls now s v e =
      let f = good.unlock_follows c.name c.key now s.lock_mgr v in
      let (ends, lists) =
        Session.Laws.remove_lock_lem st ok c.name c.key c.session_id ls s.sess_mgr e in
      rw (f.reply, continue) (rw ends (refl, f.state, lists))
