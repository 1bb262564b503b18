-- ===== src/Manager/Tests.antt =====
-- Runs of lock/manager.go at concrete inputs, and the theorems about it applied there.
use go_ldlm.Manager.Collect.{lock_gc_lem, wake_after_collect_panics}
use go_ldlm.Manager.Spec.{spec_try_lock, spec_unlock}
use go_ldlm.Manager.Ops.{view, try_lock_Agrees, Agrees}
use go_ldlm.Manager.Slots.{unlock-Frees}
use go_ldlm.Manager.Invariant.{Inv, new_manager-Inv}
use go_ldlm.Manager.Steps.{step, Call, run-NotOverheld, run, NotOverheld, try_locks, run-Inv}
use go_ldlm.Errors.{live}
use go_ldlm.Lock.{Lock, new_lock, send_slot}
use go_ldlm.Common.{
  string_panic, lookup, insert, ℕ, String, ◌==◌, ◌≡◌, refl, false, none, some, List, [], ◌∷◌, arith,
  if◌then◌else◌, pos, panics,
}
use go_ldlm.Manager.{
  try_lock, unlock, get_lock, Manager, lock_wake, put, lock_gc, new_manager, ManagedLock, find,
  lock,
}
use go_ldlm.Lock

-- A hash that spreads the empty name and the others over two shards.
abbrev toy_hash : String → ℕ
toy_hash name = if name == "" then 0 else 1

abbrev history : List (ℕ × Call)
history = (5, try_locks "a" "k1" (pos 1)) ∷ (6, try_locks "" "k2" (pos 3)) ∷ []

abbrev busy : Manager
busy = run toy_hash (new_manager 2) history

abbrev held : ManagedLock
held = record {
  id = 0;
  last_accessed = 5;
  deleted = false;
  lock = record { size = pos 1; keys = "k1" ∷ []; mtx = 1 };
}

find-busy : find toy_hash "a" busy ≡ some held
unfolding run step new_manager try_lock get_lock put find Lock.try_lock new_lock lookup insert
find-busy = refl

busy_up : busy.is_shutdown ≡ false
unfolding run step new_manager try_lock get_lock put find Lock.try_lock new_lock lookup insert
busy_up = refl

busy-Inv : Inv toy_hash busy
busy-Inv = run-Inv toy_hash (new_manager 2) history (new_manager-Inv toy_hash 2)

try_lock_Agrees_example :
    Agrees toy_hash
      (try_lock toy_hash "a" "k2" (pos 1) 6 busy)
      (spec_try_lock busy.is_shutdown "a" "k2" (pos 1) (view toy_hash busy))
try_lock_Agrees_example = try_lock_Agrees toy_hash "a" "k2" (pos 1) 6 busy busy-Inv

unlock-Frees_example :
    Agrees toy_hash
      (unlock toy_hash "a" "k1" 6 busy)
      (spec_unlock busy.is_shutdown "a" "k1" (view toy_hash busy))
unlock-Frees_example = (unlock-Frees toy_hash "a" "k1" 6 busy busy-Inv).0

run-NotOverheld_example : NotOverheld toy_hash (find toy_hash "a" busy)
run-NotOverheld_example = run-NotOverheld toy_hash 2 history "a"

lock_gc_lem_example : find toy_hash "a" (lock_gc 0 100 busy) ≡ some held
lock_gc_lem_example = lock_gc_lem toy_hash 0 100 "a" busy held find-busy

absent_c : find toy_hash "c" busy ≡ none
unfolding run step new_manager try_lock get_lock put find Lock.try_lock new_lock lookup insert
absent_c = refl

wake_after_collect_panics_example :
    (lock_wake toy_hash "c" "k3" busy.next_id live send_slot
      (lock_gc 0 8 (lock toy_hash "c" (pos 1) 7 busy).1)).0
    ≡ panics (string_panic "send on closed channel")
wake_after_collect_panics_example =
    (wake_after_collect_panics toy_hash "c" "k3" (pos 1) 7 8 0 live busy busy-Inv busy_up refl
      absent_c (omega arith)).1
