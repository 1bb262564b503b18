-- ===== src/Timer/Heap.antt =====
-- The timers of timer/timer.go as objects: what stopping, resetting and adding one does to each.
use go_ldlm.Timer.{stop_timer, reset_timer, Timer, is_armed}
use mathlib.Core.Bool.{false≢true}
use go_ldlm.Common.{
  ℕ, zero, suc, String, ◌≡◌, refl, sym, true, false, Option, none, some, List, [], ◌∷◌, ◌++◌, arith,
  eqb, if◌then◌else◌, length, get_elem?,
}

module _ {ℓ} {C : Type ℓ} where
  unfoldable pub key_at : ℕ → List (Timer C) → Option String
  key_at i [] = none
  key_at zero (t ∷ ts) = some t.key
  key_at (suc i) (t ∷ ts) = key_at i ts

  pub is_armed-stop :
      (i j : ℕ) (ts : List (Timer C))
      → is_armed j (stop_timer i ts) ≡ (if eqb i j then false else is_armed j ts)
  is_armed-stop i j [] = ground arith
  is_armed-stop zero zero (t ∷ ts) = refl
  is_armed-stop zero (suc j) (t ∷ ts) = ground arith
  is_armed-stop (suc i) zero (t ∷ ts) = ground arith
  is_armed-stop (suc i) (suc j) (t ∷ ts) = ground (arith, is_armed-stop i j ts)

  pub key_at-stop : (i j : ℕ) (ts : List (Timer C)) → key_at j (stop_timer i ts) ≡ key_at j ts
  unfolding key_at
  key_at-stop i j [] = refl
  key_at-stop zero zero (t ∷ ts) = refl
  key_at-stop zero (suc j) (t ∷ ts) = refl
  key_at-stop (suc i) zero (t ∷ ts) = refl
  key_at-stop (suc i) (suc j) (t ∷ ts) = key_at-stop i j ts

  pub is_armed-reset :
      (i j d : ℕ) (ts : List (Timer C))
      → is_armed i ts ≡ true
      → is_armed j (reset_timer i d (stop_timer i ts)) ≡ is_armed j ts
  is_armed-reset i j d [] h = cc
  is_armed-reset zero zero d (t ∷ ts) h = sym h
  is_armed-reset zero (suc j) d (t ∷ ts) h = refl
  is_armed-reset (suc i) zero d (t ∷ ts) h = refl
  is_armed-reset (suc i) (suc j) d (t ∷ ts) h = is_armed-reset i j d ts h

  pub key_at-reset : (i j d : ℕ) (ts : List (Timer C)) → key_at j (reset_timer i d ts) ≡ key_at j ts
  unfolding key_at
  key_at-reset i j d [] = refl
  key_at-reset zero zero d (t ∷ ts) = refl
  key_at-reset zero (suc j) d (t ∷ ts) = refl
  key_at-reset (suc i) zero d (t ∷ ts) = refl
  key_at-reset (suc i) (suc j) d (t ∷ ts) = key_at-reset i j d ts

  pub is_armed-snoc :
      (j : ℕ) (ts : List (Timer C)) (t : Timer C)
      → is_armed j (ts ++ t ∷ []) ≡ (if eqb j (length ts) then t.armed else is_armed j ts)
  is_armed-snoc zero [] t = refl
  is_armed-snoc (suc j) [] t = ground arith
  is_armed-snoc zero (s ∷ ts) t = ground arith
  is_armed-snoc (suc j) (s ∷ ts) t = ground (arith, is_armed-snoc j ts t)

  pub key_at-snoc :
      (j : ℕ) (ts : List (Timer C)) (t : Timer C)
      → key_at j (ts ++ t ∷ []) ≡ (if eqb j (length ts) then some t.key else key_at j ts)
  unfolding key_at
  key_at-snoc zero [] t = refl
  key_at-snoc (suc j) [] t = ground arith
  key_at-snoc zero (s ∷ ts) t = ground arith
  key_at-snoc (suc j) (s ∷ ts) t = ground (arith, key_at-snoc j ts t)

  pub key_at_end : (ts : List (Timer C)) → key_at (length ts) ts ≡ none
  unfolding key_at
  key_at_end [] = refl
  key_at_end (t ∷ ts) = key_at_end ts

  pub armed-get_elem? :
      (i : ℕ) (ts : List (Timer C)) (t : Timer C)
      → get_elem? ts i ≡ some t
      → (is_armed i ts ≡ t.armed) × (key_at i ts ≡ some t.key)
  unfolding key_at
  armed-get_elem? i [] t e = cc
  armed-get_elem? zero (s ∷ ts) t e = ground (arith, e)
  armed-get_elem? (suc i) (s ∷ ts) t e = armed-get_elem? i ts t e

  pub key_at_armed :
      (i : ℕ) (ts : List (Timer C)) → is_armed i ts ≡ true → (k : String) × (key_at i ts ≡ some k)
  unfolding key_at
  key_at_armed i [] h = absurd (false≢true h)
  key_at_armed zero (t ∷ ts) h = (t.key, refl)
  key_at_armed (suc i) (t ∷ ts) h = key_at_armed i ts h
