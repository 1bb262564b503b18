-- ===== src/Lock/Tests.antt =====
-- Runs of lock/lock.go at concrete inputs, and the theorems about it applied there.
use go_ldlm.Common.{ℕ, ◌≤◌, String, ◌≡◌, refl, true, false, none, List, [], ◌∷◌, arith, pos}
use go_ldlm.Errors.{live}
use go_ldlm.Lock.{Lock, try_lock}
use go_ldlm.Lock.Ops.{IsSound}
use go_ldlm.Lock.Threads.{
  Shared, idle, waiting, sent, adding, leaving, replying, arrive, while_replying, reply, call_lock,
  send, lock_key, add, unlock_key, System, step, Reach, start, later,
}
use go_ldlm.Lock.Exclusion.{keys-le-cap}
use go_ldlm.Lock.Deadlock.{Run, IsQuiet, calls_settle}

abbrev two_holders : Lock
two_holders = record { size = pos 2; keys = "a" ∷ "b" ∷ []; mtx = 2 }

two_holders-IsSound : IsSound two_holders
two_holders-IsSound = omega arith

try_then_full : (try_lock live "c" two_holders).0 ≡ (false, none)
unfolding try_lock
try_then_full = refl

abbrev mem_at : List String → ℕ → ℕ → Shared
mem_at keys mtx key_mtx = record { cap = 1; keys = keys; mtx = mtx; key_mtx = key_mtx }

-- One goroutine locks with key "a", and is about to send its reply.
locked : Reach 1 1 (record { mem = mem_at ("a" ∷ []) 1 1; pcs = replying false ∷ [] })
locked =
    later {s = record { mem = mem_at [] 1 1; pcs = adding false "a" ∷ [] }}
      (later {s = record { mem = mem_at [] 1 0; pcs = sent false "a" ∷ [] }}
        (later {s = record { mem = mem_at [] 0 0; pcs = waiting false "a" ∷ [] }}
          (later start (step [] [] _ _ refl (call_lock "a") refl))
          (step [] [] _ _ refl (send (omega arith)) refl))
        (step [] [] _ _ refl (lock_key (omega arith)) refl))
      (step [] [] _ _ refl add refl)

held : Reach 1 1 (record { mem = mem_at ("a" ∷ []) 1 0; pcs = idle ∷ [] })
held =
    later {s = record { mem = mem_at ("a" ∷ []) 1 1; pcs = leaving ∷ [] }}
      (later {s = record { mem = mem_at ("a" ∷ []) 1 1; pcs = replying true ∷ [] }}
        (later locked (step [] [] _ _ refl (arrive while_replying) refl))
        (step [] [] _ _ refl reply refl))
      (step [] [] _ _ refl (unlock_key (omega arith)) refl)

keys-le-cap_example : 1 ≤ 1
keys-le-cap_example = keys-le-cap 1 1 _ held

calls_settle_example :
    (t : System) × Run (record { mem = mem_at ("a" ∷ []) 1 1; pcs = replying false ∷ [] }) t
    × IsQuiet t
calls_settle_example = calls_settle 1 1 _ locked
