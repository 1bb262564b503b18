-- ===== src/Timer.antt =====
-- timer/timer.go: timers by key, each with a callback. A time.Timer is an object that outlives its
-- entry in the map; `heap` holds all that were made, and `timers` points into it. A callback is
-- data of type `C`, which the client interprets. `now` is the time at the call.
pub mod Heap
pub mod Laws
pub mod Firing
mod Tests
-- A time.AfterFunc timer is armed until it fires or is stopped.
use go_ldlm.Errors.{Error, timer_does_not_exist}
use go_ldlm.Common.{
  lookup, delete, insert, Assoc, ℕ, zero, suc, ◌+◌, String, Bool, true, false, ◌&&◌, Option, none,
  some, List, [], ◌∷◌, ◌++◌, leb, if◌then◌else◌, length, get_elem?,
}

pub record Timer {ℓ} (C : Type ℓ) : Type ℓ where
  pub armed : Bool
  pub deadline : ℕ
  pub key : String  -- the key that its function removes
  pub callback : C

pub record Timers {ℓ} (C : Type ℓ) : Type ℓ where
  pub timers : Assoc ℕ
  pub heap : List (Timer C)

module _ {ℓ} {C : Type ℓ} where
  abbrev pub empty_timers : Timers C
  empty_timers = record { timers = []; heap = [] }

  -- t.Stop(): whether the call stopped the timer.
  abbrev pub stop_timer : ℕ → List (Timer C) → List (Timer C)
  stop_timer i [] = []
  stop_timer zero (t ∷ ts) = record t { armed = false } ∷ ts
  stop_timer (suc i) (t ∷ ts) = t ∷ stop_timer i ts

  -- t.Reset(d)
  abbrev pub reset_timer : ℕ → ℕ → List (Timer C) → List (Timer C)
  reset_timer i d [] = []
  reset_timer zero d (t ∷ ts) = record t { armed = true; deadline = d } ∷ ts
  reset_timer (suc i) d (t ∷ ts) = t ∷ reset_timer i d ts

  abbrev pub is_armed : ℕ → List (Timer C) → Bool
  is_armed i [] = false
  is_armed zero (t ∷ ts) = t.armed
  is_armed (suc i) (t ∷ ts) = is_armed i ts

  -- An old timer of the same key is left to run.
  unfoldable pub add : String → C → ℕ → ℕ → Timers C → Timers C
  add key callback now timeout m = record {
    timers = insert key (length m.heap) m.timers;
    heap =
        m.heap
        ++ record { armed = true; deadline = now + timeout; key = key; callback = callback } ∷ [];
  }

  unfoldable pub remove : String → Timers C → Timers C
  remove key m = elim (lookup key m.timers) [
    | none ↦ m
    | some i ↦ record { timers = delete key m.timers; heap = stop_timer i m.heap }
  ]

  unfoldable pub refresh : String → ℕ → ℕ → Timers C → (Bool × Option Error) × Timers C
  refresh key now timeout m = elim (lookup key m.timers) [
    | none ↦ ((false, some timer_does_not_exist), m)
    | some i ↦
        if is_armed i m.heap
        then ((true, none), record m { heap = reset_timer i (now + timeout) (stop_timer i m.heap) })
        else ((false, none), m)
  ]

  stop_all : Assoc ℕ → List (Timer C) → List (Timer C)
  stop_all [] heap = heap
  stop_all ((key, i) ∷ rest) heap = stop_all rest (stop_timer i heap)

  unfoldable pub shutdown : Timers C → Timers C
  unfolding stop_all
  shutdown m = record { timers = []; heap = stop_all m.timers m.heap }

  -- Package time: the timer at `i` fires if it is armed and due. The result is its callback and the
  -- key that its function removes when the callback has returned.
  unfoldable pub fire : ℕ → ℕ → Timers C → Option ((C × String) × Timers C)
  fire i now m = elim (get_elem? m.heap i) [
    | none ↦ none
    | some t ↦
        if t.armed && leb t.deadline now
        then some ((t.callback, t.key), record m { heap = stop_timer i m.heap })
        else none
  ]
