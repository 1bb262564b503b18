-- ===== src/Timer/Firing.antt =====
-- When a timer of timer/timer.go fires: not before a refreshed deadline, once only, and never after
-- the shutdown.
use go_ldlm.Timer.Heap.{armed-get_elem?, is_armed-stop, key_at-stop, key_at, key_at_armed}
use go_ldlm.Timer.Laws.{IsLinked}
use go_ldlm.Timer.{
  stop_timer, reset_timer, shutdown, refresh, fire, is_armed, Timers, Timer, stop_all,
}
use mathlib.Core.Path.{subst}
use go_ldlm.Common.{
  lookup, Assoc, ℕ, zero, suc, ◌+◌, ◌<◌, String, ◌≡◌, refl, ap, ◌∙◌, ◌≢◌, inl, inr, true, false,
  none, some, List, [], ◌∷◌, arith, if◌then◌else◌, Bool-cases, Option-cases, get_elem?,
}
use mathlib.Core.Option

module _ {ℓ} {C : Type ℓ} where
  rearmed : ℕ → Timer C → Timer C
  rearmed d t = record t { armed = true; deadline = d }

  get_elem?-reset :
      (i d : ℕ) (ts : List (Timer C))
      → get_elem? (reset_timer i d ts) i ≡ Option.map (rearmed d) (get_elem? ts i)
  unfolding rearmed
  get_elem?-reset i d [] = refl
  get_elem?-reset zero d (t ∷ ts) = refl
  get_elem?-reset (suc i) d (t ∷ ts) = get_elem?-reset i d ts

  reset_waits :
      (i d now : ℕ) (timers : Assoc ℕ) (ts : List (Timer C))
      → now < d
      → fire i now (record { timers = timers; heap = reset_timer i d ts }) ≡ none
  unfolding fire rearmed
  reset_waits i d now timers ts h =
      rw (get_elem?-reset i d ts, fire)
        (elim (Option-cases (get_elem? ts i)) [ inl e ↦ rw e | inr (t, e) ↦ rw e (ground arith) ])

  refresh_armed :
      (key : String) (i now timeout : ℕ) (m : Timers C)
      → lookup key m.timers ≡ some i
      → refresh key now timeout m ≡ (
          if is_armed i m.heap
          then (
            (true, none),
            record m { heap = reset_timer i (now + timeout) (stop_timer i m.heap) },
          )
          else ((false, none), m))
  unfolding refresh
  refresh_armed key i now timeout m e = rw (e, refresh)

  -- After a Refresh that succeeds, the timer of the key does not fire before the new deadline.
  pub refresh_delays :
      (key : String) (i now timeout t : ℕ) (m : Timers C)
      → lookup key m.timers ≡ some i
      → (refresh key now timeout m).0 ≡ (true, none)
      → t < now + timeout
      → fire i t (refresh key now timeout m).1 ≡ none
  refresh_delays key i now timeout t m e ok early = elim (Bool-cases (is_armed i m.heap)) [
    | inl on ↦
        rw (refresh_armed key i now timeout m e, on)
          (reset_waits i (now + timeout) t m.timers (stop_timer i m.heap) early)
    | inr off ↦ absurd (ground (arith, refresh_armed key i now timeout m e))
  ]

  stop-IsLinked :
      (i : ℕ) (m : Timers C) → IsLinked m → IsLinked (record m { heap = stop_timer i m.heap })
  stop-IsLinked n m v = record {
    mapped =
        λ i k h e. ground (arith, v.mapped i k, is_armed-stop n i m.heap, key_at-stop n i m.heap);
    keyed = λ k i e. rw (key_at-stop n i m.heap) (v.keyed k i e);
  }

  pub fire_inversion :
      (i now : ℕ) (m : Timers C) (t : Timer C) {c : C} {key : String} {m' : Timers C}
      → get_elem? m.heap i ≡ some t
      → fire i now m ≡ some ((c, key), m')
      → (t.armed ≡ true) × (t.key ≡ key) × (record m { heap = stop_timer i m.heap } ≡ m')
  unfolding fire
  fire_inversion i now m t there e = ground arith

  -- Where the map and the timers agree, they do so after a timer fires; it was armed, is armed no
  -- more, and is the one that its key leads to, so the Remove that follows its callback takes it
  -- out of the map.
  pub fire_lem :
      (i now : ℕ) (m : Timers C) {c : C} {key : String} {m' : Timers C}
      → IsLinked m
      → fire i now m ≡ some ((c, key), m')
      → (is_armed i m.heap ≡ true)
        × (is_armed i m'.heap ≡ false)
        × (lookup key m'.timers ≡ some i)
        × IsLinked m'
  fire_lem i now m {c} {key} {m'} v e = elim (Option-cases (get_elem? m.heap i)) [
    | inl nothing ↦ absurd (unfold fire in ground (arith, e, nothing))
    | inr (t, there) ↦
        let (on, same_key, same_timers) = fire_inversion i now m t there e in
        let (a, k) = armed-get_elem? i m.heap t there in
        let armed : is_armed i m.heap ≡ true = a ∙ on in
        subst
          (λ x.
            (is_armed i m.heap ≡ true)
            × (is_armed i x.heap ≡ false)
            × (lookup key x.timers ≡ some i)
            × IsLinked x)
          same_timers
          (
            armed,
            ground (arith, is_armed-stop i i m.heap),
            v.mapped i key armed (k ∙ ap some same_key),
            stop-IsLinked i m v,
          )
  ]

  is_armed-stop_all :
      (entries : Assoc ℕ) (j : ℕ) (ts : List (Timer C))
      → is_armed j (stop_all entries ts) ≡ true
      → (is_armed j ts ≡ true) × ((k : String) → lookup k entries ≢ some j)
  unfolding stop_all lookup
  is_armed-stop_all [] j ts h = (h, λ k e. cc)
  is_armed-stop_all ((key, i) ∷ rest) j ts h =
      let (on, away) = is_armed-stop_all rest j (stop_timer i ts) h in
      (ground (arith, is_armed-stop i j ts), λ k e. ground (arith, away k, is_armed-stop i j ts))

  key_at-stop_all :
      (entries : Assoc ℕ) (j : ℕ) (ts : List (Timer C))
      → key_at j (stop_all entries ts) ≡ key_at j ts
  unfolding stop_all
  key_at-stop_all [] j ts = refl
  key_at-stop_all ((key, i) ∷ rest) j ts =
      key_at-stop_all rest j (stop_timer i ts) ∙ key_at-stop i j ts

  -- Where the map and the timers agree, no timer ever fires after the shutdown, whenever the clock
  -- is read.
  pub shutdown_silent : (i now : ℕ) (m : Timers C) → IsLinked m → fire i now (shutdown m) ≡ none
  unfolding fire shutdown
  shutdown_silent i now m v = elim (Option-cases (get_elem? (stop_all m.timers m.heap) i)) [
    | inl e ↦ rw (e, fire)
    | inr (t, e) ↦
        rw (e, fire)
          (elim (Bool-cases t.armed) [
            | inr off ↦ rw off
            | inl on ↦
                let a : is_armed i (stop_all m.timers m.heap) ≡ true =
                  (armed-get_elem? i (stop_all m.timers m.heap) t e).0 ∙ on in
                let (b, away) = is_armed-stop_all m.timers i m.heap a in
                let (k, at_key) = key_at_armed i m.heap b in absurd (away k (v.mapped i k b at_key))
          ])
  ]

  -- A timer that the map leads to does not fire after the shutdown, whatever other timers there are.
  pub shutdown_stops :
      (key : String) (i now : ℕ) (m : Timers C)
      → lookup key m.timers ≡ some i
      → fire i now (shutdown m) ≡ none
  unfolding fire shutdown
  shutdown_stops key i now m mapped = elim (Option-cases (get_elem? (stop_all m.timers m.heap) i)) [
    | inl e ↦ rw (e, fire)
    | inr (t, e) ↦
        rw (e, fire)
          (elim (Bool-cases t.armed) [
            | inr off ↦ rw off
            | inl on ↦
                let a : is_armed i (stop_all m.timers m.heap) ≡ true =
                  (armed-get_elem? i (stop_all m.timers m.heap) t e).0 ∙ on in
                absurd ((is_armed-stop_all m.timers i m.heap a).1 key mapped)
          ])
  ]
