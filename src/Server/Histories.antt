-- ===== src/Server/Histories.antt =====
-- The theorems about histories of server/server.go at concrete inputs.
use go_ldlm.Server.Orphans.{run-IsAccounted, IsRegularRun, late_lock_outlives}
use go_ldlm.Server.Accounts.{IsAccounted, held_at}
use go_ldlm.Server.Steps.{Happening, run, step, connects, disconnects, try_locks, locks, resumes}
use go_ldlm.Server
use go_ldlm.Server.{Server, Waiting, selects, try_lock, create_session, destroy_session}
use go_ldlm.Manager
use go_ldlm.Manager.Ops
use go_ldlm.Manager.Waits.{manager-IsWaitable}
use go_ldlm.Manager.Interface.{manager, manager-IsLockManager}
use go_ldlm.Manager.Invariant.{new_manager-Inv}
use go_ldlm.Manager.Find.{find-new_manager}
use go_ldlm.Manager.{Manager, new_manager, find, put, get_lock}
use go_ldlm.Lock
use go_ldlm.Lock.{new_lock}
use go_ldlm.Session
use go_ldlm.Session.Memory.{memory, memory-IsReliable}
use go_ldlm.Session.{SessionLocks, add_lock}
use go_ldlm.Timer.{empty_timers}
use go_ldlm.Session.Laws.{held_by}
use go_ldlm.Errors.{done, context_canceled}
use go_ldlm.Lock.{send_slot}
use go_ldlm.Common.{
  insert, lookup, delete, ℕ, String, ◌≡◌, refl, false, Option, none, List, [], ◌∷◌, arith, pos,
  pure, continue,
}

abbrev one_shard : String → ℕ
one_shard name = 0

abbrev idle : Server Manager (Option SessionLocks)
idle = record {
  lock_mgr = new_manager 2;
  sess_mgr = record { session_locks = []; store = none };
  lock_timers = empty_timers;
  is_shutdown = false;
  no_clear_on_disconnect = false;
}

nothing_held :
    (name key : String)
    → held_at (manager one_shard) memory (manager-IsLockManager one_shard) idle name key ≡ 0
unfolding manager-IsLockManager Ops.view
nothing_held name key = rw (find-new_manager one_shard name 2) refl

idle-IsAccounted : IsAccounted (manager one_shard) memory (manager-IsLockManager one_shard) idle
unfolding manager-IsLockManager new_manager
idle-IsAccounted = record {
  valid = new_manager-Inv one_shard 2;
  up = refl;
  once = λ name key. omega (arith, nothing_held name key);
  accounted = λ name key h. absurd (omega (arith, h, nothing_held name key));
}

abbrev visit : List Happening
visit = connects "s1" ∷ try_locks "s1" "a" none none "k1" 5 ∷ disconnects "s1" 6 ∷ []

visit-IsRegularRun :
    IsRegularRun (manager one_shard) memory (manager-IsLockManager one_shard) idle visit
unfolding step create_session try_lock manager-IsLockManager Ops.view new_manager find lookup
    Server.on_locks continue pure Server.register Server.arm Server.on_sessions
    Session.create_session Session.add_lock Session.save_or_panic Session.save insert put get_lock
    Manager.try_lock Lock.try_lock new_lock Manager.get_shard
visit-IsRegularRun = (tt, (refl, (refl, tt)))

run-IsAccounted_example :
    IsAccounted
      (manager one_shard)
      memory
      (manager-IsLockManager one_shard)
      (run (manager one_shard) memory idle visit)
run-IsAccounted_example =
    run-IsAccounted (manager one_shard) memory (manager-IsLockManager one_shard) memory-IsReliable
      (manager-IsWaitable one_shard) visit idle idle-IsAccounted visit-IsRegularRun

abbrev waiting : Waiting
waiting = record {
  name = "a";
  key = "k1";
  size = pos 1;
  session_id = "s1";
  lock_timeout = none;
  deadline = none;
  id = 0;
}

abbrev asks : List Happening
asks = connects "s1" ∷ locks "s1" "a" none none none "k1" 5 ∷ []

abbrev asked : Server Manager (Option SessionLocks)
asked = run (manager one_shard) memory idle asks

asked-IsAccounted : IsAccounted (manager one_shard) memory (manager-IsLockManager one_shard) asked
asked-IsAccounted =
    run-IsAccounted (manager one_shard) memory (manager-IsLockManager one_shard) memory-IsReliable
      (manager-IsWaitable one_shard) asks idle idle-IsAccounted (tt, (tt, tt))

late_lock_outlives_example :
    held_by "s1"
      (step
        (manager one_shard)
        memory
        (step (manager one_shard) memory asked (disconnects "s1" 7))
        (resumes waiting
          (done context_canceled context_canceled)
          (selects send_slot)
          8)).sess_mgr.session_locks
    ≡ record { name = "a"; key = "k1"; size = pos 1 } ∷ []
unfolding run step create_session Server.lock manager-IsLockManager Ops.view new_manager find lookup
    Server.on_locks continue pure Server.register Server.arm Server.on_sessions
    Session.create_session Session.save insert put get_lock Manager.lock Manager.lock_wake
    Lock.lock_select new_lock Manager.get_shard destroy_session Session.destroy_session delete
late_lock_outlives_example =
    (late_lock_outlives (manager one_shard) memory (manager-IsLockManager one_shard)
      memory-IsReliable (manager-IsWaitable one_shard) waiting
      (done context_canceled context_canceled) send_slot 8 asked asked-IsAccounted refl refl refl).1
