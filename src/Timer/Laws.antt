-- ===== src/Timer/Laws.antt =====
-- The methods of timer/timer.go keep every armed timer within reach of its key, so that Remove
-- stops what it means to stop, and Refresh answers for the timer of its key.
use go_ldlm.Timer.Heap.{
  key_at_end, key_at-stop, is_armed-reset, key_at-reset, is_armed-stop, key_at-snoc, is_armed-snoc,
  key_at,
}
use go_ldlm.Errors.{Error, timer_does_not_exist}
use go_ldlm.Timer.{remove, refresh, empty_timers, Timers, is_armed, Timer, stop_timer, add}
use go_ldlm.Common.{
  ◌==◌, Bool, not, ◌&&◌, Option, List, lookup, lookup-insert, lookup-delete, ℕ, ◌+◌, String, eq_iff,
  eq_refl, ◌≡◌, refl, inl, inr, true, false, none, some, arith, Bool-cases, Option-cases, length,
}

abbrev pub is_key : String → Option String → Bool
is_key key none = false
is_key key (some k) = k == key

module _ {ℓ} {C : Type ℓ} where
  -- The map and the timers agree: an armed timer is the one that its key leads to.
  pub record IsLinked (m : Timers C) : Type ℓ where
    pub mapped :
        (i : ℕ) (k : String)
        → is_armed i m.heap ≡ true
        → key_at i m.heap ≡ some k
        → lookup k m.timers ≡ some i
    pub keyed : (k : String) (i : ℕ) → lookup k m.timers ≡ some i → key_at i m.heap ≡ some k

  pub empty_timers-IsLinked : IsLinked empty_timers
  unfolding key_at lookup
  empty_timers-IsLinked = record { mapped = λ i k h e. cc; keyed = λ k i e. cc }

  -- Where the map and the timers agree, and a key is not in use, they agree after an Add under it.
  pub add-IsLinked :
      (key : String) (c : C) (now timeout : ℕ) (m : Timers C)
      → lookup key m.timers ≡ none
      → IsLinked m
      → IsLinked (add key c now timeout m)
  unfolding add
  add-IsLinked key c now timeout m absent v = record {
    mapped = λ i k h e. rw (lookup-insert key k (length m.heap) m.timers) (
        ground (
          arith,
          v.mapped i k,
          is_armed-snoc i m.heap (timer),
          key_at-snoc i m.heap (timer),
          eq_iff key k,
        ));
    keyed = λ k i e. rw (key_at-snoc i m.heap timer) (
        ground (
          arith,
          v.keyed k i,
          eq_iff key k,
          lookup-insert key k (length m.heap) m.timers,
          key_at_end m.heap,
        ));
  }
    where
      timer : Timer C
      timer = record { armed = true; deadline = now + timeout; key = key; callback = c }

  -- Where the map and the timers agree, they do so after Remove, which stops every timer of
  -- its key and no other, and takes the key out of the map.
  pub remove_lem :
      (key : String) (m : Timers C)
      → IsLinked m
      → let m' = remove key m in
        IsLinked m'
        × (lookup key m'.timers ≡ none)
        × ((i : ℕ) → is_armed i m'.heap ≡ (is_armed i m.heap && not (is_key key (key_at i m.heap))))
  unfolding remove
  remove_lem key m v = elim (Option-cases (lookup key m.timers)) [
    | inl absent ↦ rw (absent, remove) (v, absent, λ i. unarmed i absent)
    | inr (n, hit) ↦
        rw (hit, remove)
          (
            record {
              mapped = λ i k h e. rw (lookup-delete key k m.timers) (
                  ground (
                    arith,
                    v.mapped i k,
                    is_armed-stop n i m.heap,
                    key_at-stop n i m.heap,
                    eq_iff key k,
                  ));
              keyed = λ k i e.
                  rw (key_at-stop n i m.heap)
                    (ground (arith, v.keyed k i, lookup-delete key k m.timers, eq_iff key k));
            },
            rw (lookup-delete key key m.timers) (ground (arith, eq_refl key)),
            (λ i. stopped i n hit),
          )
  ]
    where
      unarmed :
          (i : ℕ)
          → lookup key m.timers ≡ none
          → is_armed i m.heap ≡ (is_armed i m.heap && not (is_key key (key_at i m.heap)))
      unarmed i absent = elim (Option-cases (key_at i m.heap)) [
        | inl e ↦ rw e (ground arith)
        | inr (k, e) ↦ rw e (ground (arith, e, eq_iff k key, v.mapped i k, absent))
      ]

      stopped :
          (i n : ℕ)
          → lookup key m.timers ≡ some n
          → is_armed i (stop_timer n m.heap)
            ≡ (is_armed i m.heap && not (is_key key (key_at i m.heap)))
      stopped i n hit = elim (Option-cases (key_at i m.heap)) [
        | inl e ↦ rw e (ground (arith, is_armed-stop n i m.heap, v.keyed key n, hit, e))
        | inr (k, e) ↦ rw e (
            ground
              (arith, is_armed-stop n i m.heap, v.mapped i k, v.keyed key n, hit, e, eq_iff k key))
      ]

  -- What Refresh should answer: an error where the key has no timer, or whether its timer is armed.
  abbrev pub refresh_answer : Option ℕ → List (Timer C) → Bool × Option Error
  refresh_answer none heap = (false, some timer_does_not_exist)
  refresh_answer (some i) heap = (is_armed i heap, none)

  -- Where the map and the timers agree they do so after Refresh; it answers with an error for a key
  -- without a timer, and whether the timer is armed for another; and the same timers stay armed.
  pub refresh_lem :
      (key : String) (now timeout : ℕ) (m : Timers C)
      → IsLinked m
      → let (reply, m') = refresh key now timeout m in
        IsLinked m'
        × (reply ≡ refresh_answer (lookup key m.timers) m.heap)
        × ((j : ℕ) → is_armed j m'.heap ≡ is_armed j m.heap)
  unfolding refresh
  refresh_lem key now timeout m v = elim (Option-cases (lookup key m.timers)) [
    | inl absent ↦ rw (absent, refresh) (v, refl, (λ j. refl))
    | inr (n, hit) ↦ elim (Bool-cases (is_armed n m.heap)) [
      | inr off ↦ rw (hit, off, refresh) (v, refl, (λ j. refl))
      | inl on ↦
          rw (hit, on, refresh)
            (
              record {
                mapped = λ i k h e.
                    v.mapped i k (rw (is_armed-reset n i (now + timeout) m.heap on) at h) (
                      rw
                        (
                          key_at-reset n i (now + timeout) (stop_timer n m.heap),
                          key_at-stop n i m.heap,
                        )
                        at e);
                keyed = λ k i e.
                    rw
                      (
                        key_at-reset n i (now + timeout) (stop_timer n m.heap),
                        key_at-stop n i m.heap,
                      )
                      (v.keyed k i e);
              },
              refl,
              (λ j. is_armed-reset n j (now + timeout) m.heap on),
            )
    ]
  ]
