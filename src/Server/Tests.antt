-- ===== src/Server/Tests.antt =====
-- The theorems about server/server.go at concrete inputs, over the lock manager of lock/manager.go
-- and a store in memory.
use go_ldlm.Manager
use go_ldlm.Manager.Ops
use go_ldlm.Manager.{find, put, get_lock}
use go_ldlm.Lock
use go_ldlm.Lock.{new_lock}
use go_ldlm.Manager.Steps.{step}
use go_ldlm.Server.{try_lock, unlock, destroy_session, on_timeout, Server}
use go_ldlm.Session.{ClientLock, SessionLocks}
use go_ldlm.Lock.{new_lock, Lock}
use go_ldlm.Server.{unlock, try_lock, destroy_session, Server, on_timeout}
use go_ldlm.Timer.{empty_timers}
use go_ldlm.Common.{
  lookup, insert, returns, ℕ, String, ◌≡◌, refl, true, false, Option, none, some, List, [], ◌∷◌,
  pos, panics, error_panic,
}
use go_ldlm.Manager.Interface.{manager, manager-IsLockManager}
use go_ldlm.Manager.Invariant.{new_manager-Inv, Inv}
use go_ldlm.Manager.Steps.{run, run-Inv, Call, try_locks}
use go_ldlm.Manager.{find, get_lock, put, new_manager, Manager}
use go_ldlm.Session.Memory.{memory, memory-IsReliable}
use go_ldlm.Server.Release.{destroy_session_releases}
use go_ldlm.Server.Requests.{try_lock_registers, unlock_unregisters}
use go_ldlm.Server.Startup.Overfull.{new_overfull_panics, single}
use go_ldlm.Server.Startup.{new}
use go_ldlm.Server.Startup.Restore.{new_restores}
use go_ldlm.Manager.Find.{find-new_manager}
use go_ldlm.Server.Timeouts.{on_timeout_releases}

abbrev one_shard : String → ℕ
one_shard name = 0

abbrev history : List (ℕ × Call)
history = (5, try_locks "a" "k1" (pos 1)) ∷ []

abbrev busy : Manager
busy = run one_shard (new_manager 2) history

busy-Inv : Inv one_shard busy
busy-Inv = run-Inv one_shard (new_manager 2) history (new_manager-Inv one_shard 2)

busy_up : busy.is_shutdown ≡ false
unfolding run step new_manager Manager.try_lock get_lock put find Lock.try_lock new_lock lookup
    insert
busy_up = refl

abbrev owned : List ClientLock
owned = record { name = "a"; key = "k1"; size = pos 1 } ∷ []

abbrev start : Server Manager (Option SessionLocks)
start = record {
  lock_mgr = busy;
  sess_mgr = record { session_locks = ("s1", some owned) ∷ []; store = none };
  lock_timers = empty_timers;
  is_shutdown = false;
  no_clear_on_disconnect = false;
}

try_lock_registers_example :
    (try_lock (manager one_shard) memory (some "s1") "b" none none "k2" 6 start).0
    ≡ returns (some (record { name = "b"; key = "k2"; locked = true }), none)
unfolding manager-IsLockManager run step Manager.try_lock new_manager get_lock find lookup put
    Ops.view insert
try_lock_registers_example =
    (try_lock_registers (manager one_shard) memory (manager-IsLockManager one_shard)
      memory-IsReliable "s1" "b" "k2" none none 6 start busy-Inv refl refl).0

unlock_unregisters_example :
    (unlock (manager one_shard) memory (some "s1") "a" "k1" 6 start).0 ≡ returns (true, none)
unfolding lookup manager-IsLockManager run step Manager.try_lock new_manager get_lock find put
    Ops.view insert Lock.try_lock new_lock
unlock_unregisters_example =
    (unlock_unregisters (manager one_shard) memory (manager-IsLockManager one_shard)
      memory-IsReliable "s1" "a" "k1" owned 6 start busy-Inv refl).0

destroy_session_releases_example :
    (destroy_session (manager one_shard) memory (some "s1") 6 start).0 ≡ returns "s1"
unfolding manager-IsLockManager
destroy_session_releases_example =
    (destroy_session_releases (manager one_shard) memory (manager-IsLockManager one_shard)
      memory-IsReliable "s1" 6 start busy-Inv busy_up refl refl).0

on_timeout_releases_example :
    (on_timeout
      (manager one_shard)
      memory
      (record { name = "a"; key = "k1"; session_id = "s1" })
      6
      start).0
    ≡ returns tt
unfolding lookup manager-IsLockManager
on_timeout_releases_example =
    (on_timeout_releases (manager one_shard) memory (manager-IsLockManager one_shard)
      memory-IsReliable (record { name = "a"; key = "k1"; session_id = "s1" }) owned 6 start
      busy-Inv refl).0

abbrev saved : SessionLocks
saved =
    ("s1", some (record { name = "a"; key = "k1"; size = pos 1 } ∷ []))
    ∷ ("s2", some (record { name = "b"; key = "k2"; size = pos 2 } ∷ []))
    ∷ []

new_restores_example :
    (new (manager one_shard) memory (new_manager 2) (some saved) false 600 5).0 ≡ returns none
unfolding manager-IsLockManager new_manager Ops.view
new_restores_example =
    (new_restores (manager one_shard) memory (manager-IsLockManager one_shard) (new_manager 2)
      (some saved) saved false 600 5 (new_manager-Inv one_shard 2) refl
      (λ n. rw (find-new_manager one_shard n 2) refl) refl refl).0

abbrev overfull : SessionLocks
overfull = ("s1", some (single "a" "k1" ∷ single "a" "k2" ∷ [])) ∷ []

new_overfull_panics_example :
    (new (manager one_shard) memory (new_manager 2) (some overfull) false 600 5).0
    ≡ panics (error_panic "invalid memory address or nil pointer dereference")
unfolding manager-IsLockManager new_manager Ops.view
new_overfull_panics_example =
    new_overfull_panics (manager one_shard) memory (manager-IsLockManager one_shard) (new_manager 2)
      (some overfull) "s1" "a" "k1" "k2" false 600 5 (new_manager-Inv one_shard 2) refl
      (λ n. rw (find-new_manager one_shard n 2) refl) refl

abbrev timed : Server Manager (Option SessionLocks)
timed = record start {
  lock_timers = record {
    timers = ("ak1", 0) ∷ [];
    heap =
        record {
          armed = true;
          deadline = 9;
          key = "ak1";
          callback = record { name = "a"; key = "k1"; session_id = "s1" };
        }
        ∷ [];
  };
}
