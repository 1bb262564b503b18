-- ===== src/Manager/Collect.antt =====
-- Garbage collection and shutdown of lock/manager.go, and what they mean for the goroutines that
-- wait for a lock.
use go_ldlm.Manager.Find.{find-put, fresh_lock, find-lock_gc}
use go_ldlm.Manager.Invariant.{Inv}
use go_ldlm.Manager.{
  get_shard, wake_collected, put, lock, ManagedLock, Manager, lock_wake, find, is_garbage, lock_gc,
  get_lock,
}
use go_ldlm.Errors.{Context}
use go_ldlm.Lock.{new_lock, send_slot}
use go_ldlm.Common.{
  ◌||◌, ltb, leb, if◌then◌else◌, string_panic, eq_refl, refl, ℕ, ◌+◌, ◌<◌, String, ◌≡◌, inr, true,
  false, none, some, arith, length, ℤ, is_pos, returns, panics,
}

module _ (hash : String → ℕ) where
  -- One round of the collector, over all shards: a lock stays, as it is, if a key holds it or if it
  -- was asked for within `min_idle`; any other lock is gone.
  pub lock_gc_lem :
      (min_idle now : ℕ) (name : String) (m : Manager) (l : ManagedLock)
      → find hash name m ≡ some l
      → find hash name (lock_gc min_idle now m) ≡ (
          if ltb 0 (length l.lock.keys) || leb now (l.last_accessed + min_idle)
          then some l
          else none)
  unfolding is_garbage
  lock_gc_lem min_idle now name m l e =
      rw (find-lock_gc hash min_idle now name m) (ground (arith, e))

  lock_fresh :
      (name : String) (size : ℤ) (now : ℕ) (m : Manager)
      → m.is_shutdown ≡ false
      → is_pos size ≡ true
      → find hash name m ≡ none
      → lock hash name size now m ≡ (
        returns (inr m.next_id),
        record (put hash name (fresh_lock hash size now m) m) { next_id = m.next_id + 1 },
      )
  unfolding lock get_lock
  lock_fresh name size now m up ok e = simp (up, ok, e)

  fresh_is_garbage :
      (min_idle now later : ℕ) (size : ℤ) (m : Manager)
      → now + min_idle < later
      → is_garbage min_idle later (fresh_lock hash size now m) ≡ true
  unfolding is_garbage new_lock
  fresh_is_garbage min_idle now later size m h = ground arith

  -- On a well-formed manager that runs, for a name without a lock and a positive size: a goroutine
  -- of Lock that is still at its select when its lock is collected, which needs `gcMinIdle` to pass
  -- since the call, sends to a closed channel and panics.
  pub wake_after_collect_panics :
      (name key : String) (size : ℤ) (now later min_idle : ℕ) (rctx : Context) (m : Manager)
      → Inv hash m
      → m.is_shutdown ≡ false
      → is_pos size ≡ true
      → find hash name m ≡ none
      → now + min_idle < later
      → let (started, m') = lock hash name size now m in
        (started ≡ returns (inr m.next_id))
        × ((lock_wake hash name key m.next_id rctx send_slot (lock_gc min_idle later m')).0
            ≡ panics (string_panic "send on closed channel"))
  unfolding lock_wake
  wake_after_collect_panics name key size now later min_idle rctx m v up ok e h =
      rw (lock_fresh name size now m up ok e)
        (refl, rw (gone, lock_wake) (unfold wake_collected in refl))
    where
      gone :
          find hash name (
            lock_gc min_idle later
              (record (put hash name (fresh_lock hash size now m) m) { next_id = m.next_id + 1 }))
          ≡ none
      gone = rw find-lock_gc (
          unfold find get_shard in
          rw (find-put hash name name (fresh_lock hash size now m) m v.has_shards)
            (simp (eq_refl, fresh_is_garbage min_idle now later size m h)))
