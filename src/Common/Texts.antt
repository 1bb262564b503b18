-- ===== src/Common/Texts.antt =====
-- What the program uses of Go's package strings. Positions count bytes.
use Prim.Native.Nat.{ℕ, zero, suc, ◌+◌, ◌<◌}
use Prim.Native.String.{String, len, find, slice, ◌++◌ as ◌<>◌}
use mathlib.Core.Path.{◌≡◌, refl, sym, ap, ◌∙◌, subst}
use mathlib.Core.Logic.{◌⊎◌, inl, inr, ◌≢◌}
use mathlib.Core.Bool.{true}
use native.Mathlib.Omega.{arith}
use text.Mathlib.TextFind.{find_cases}
use text.Mathlib.TextPositions.{slice-append_left, slice-append_right, len-append}
use text.Mathlib.TextLemmas.{append_assoc}
use mathlib.Core.List.{List, [], ◌∷◌}
use mathlib.Core.Option.{Option, none, some}
use go_ldlm.Common.Tests.{leb, Option-cases, if◌then◌else◌}

-- strings.Cut, and strings.SplitN(s, sep, 2) where it gives two parts
unfoldable pub cut : String → String → Option (String × String)
cut s sep =
    let n = find s sep in
    if leb (n + len sep) (len s) then some (slice s 0 n, slice s (n + len sep) (len s)) else none

split_fuel : ℕ → String → String → List String
split_fuel zero s sep = s ∷ []
split_fuel (suc fuel) s sep = elim (cut s sep) [
  | none ↦ s ∷ []
  | some (front, back) ↦ front ∷ split_fuel fuel back sep
]

-- strings.Split for a separator that is not empty: there are at most as many parts as bytes, and
-- one more.
unfoldable pub split : String → String → List String
unfolding split_fuel
split s sep = split_fuel (len s) s sep

-- What stands before the last part: s[:strings.LastIndex(s, sep)]
unfoldable pub before_last : String → List String → Option String
before_last sep [] = none
before_last sep (x ∷ []) = none
before_last sep (x ∷ y ∷ rest) = elim (before_last sep (y ∷ rest)) [
  | none ↦ some x
  | some s ↦ some (x <> (sep <> s))
]

concat : List String → String
concat [] = ""
concat (x ∷ xs) = x <> concat xs

-- strings.ReplaceAll(s, old, "") for a text `old` that is not empty
unfoldable pub remove_all : String → String → String
unfolding concat
remove_all s old = concat (split s old)

cut_parts :
    (s sep a b : String)
    → cut s sep ≡ some (a, b)
    → (leb (find s sep + len sep) (len s) ≡ true)
      × (slice s 0 (find s sep) ≡ a)
      × (slice s (find s sep + len sep) (len s) ≡ b)
unfolding cut
cut_parts s sep a b e = ground (arith, e)

-- What Cut takes apart is the text again.
pub cut-append : (s sep a b : String) → cut s sep ≡ some (a, b) → s ≡ a <> (sep <> b)
cut-append s sep a b e =
    let (fits, front, back) = cut_parts s sep a b e in
    elim (find_cases s sep) [
      | inr miss ↦ absurd (ground (arith, fits, miss))
      | inl (u, v, parts, at) ↦
          let whole : s ≡ (u <> sep) <> v = parts ∙ sym (append_assoc u sep v) in
          let size : len s ≡ len (u <> sep) + len v = ap len whole ∙ len-append (u <> sep) v in
          let left : u ≡ a =
            sym (slice-append_left u (sep <> v))
            ∙ ap (λ x. slice x 0 (len u)) (sym parts)
            ∙ ap (λ n. slice s 0 n) (sym at)
            ∙ front in
          let right : v ≡ b =
            sym (slice-append_right (u <> sep) v)
            ∙ ap (λ x. slice x (len (u <> sep)) (len (u <> sep) + len v)) (sym whole)
            ∙ ap (λ n. slice s (len (u <> sep)) n) (sym size)
            ∙ ap (λ n. slice s n (len s)) (len-append u sep ∙ ap (λ n. n + len sep) (sym at))
            ∙ back in
          parts ∙ ap (λ x. x <> (sep <> v)) left ∙ ap (λ x. a <> (sep <> x)) right
    ]

head_eq : {A : Type 0} {x y : A} {xs ys : List A} → x ∷ xs ≡ y ∷ ys → x ≡ y
head_eq e = cc

tail_eq : {A : Type 0} {x y : A} {xs ys : List A} → x ∷ xs ≡ y ∷ ys → xs ≡ ys
tail_eq e = cc

split_step :
    (fuel : ℕ) (s sep : String) {x y : String}
    → cut s sep ≡ some (x, y)
    → split_fuel (suc fuel) s sep ≡ x ∷ split_fuel fuel y sep
unfolding split_fuel
split_step fuel s sep more = rw (more, split_fuel) refl

split_some : (fuel : ℕ) (s sep : String) → split_fuel fuel s sep ≢ []
unfolding split_fuel
split_some zero s sep e = cc
split_some (suc fuel) s sep e = elim (Option-cases (cut s sep)) [
  | inl whole ↦ ground (arith, e, whole)
  | inr ((x, y), more) ↦ let same = sym (split_step fuel s sep more) ∙ e in cc
]

-- A text that Split leaves whole, and one that it takes into two.
split_one : (fuel : ℕ) (s sep b : String) → split_fuel fuel s sep ≡ b ∷ [] → s ≡ b
unfolding split_fuel
split_one zero s sep b e = ground (arith, e)
split_one (suc fuel) s sep b e = elim (Option-cases (cut s sep)) [
  | inl whole ↦ ground (arith, e, whole)
  | inr ((x, y), more) ↦
      absurd (split_some fuel y sep (tail_eq (sym (split_step fuel s sep more) ∙ e)))
]

split_two :
    (fuel : ℕ) (s sep a b : String) → split_fuel fuel s sep ≡ a ∷ b ∷ [] → s ≡ a <> (sep <> b)
unfolding split_fuel
split_two zero s sep a b e = ground (arith, e)
split_two (suc fuel) s sep a b e = elim (Option-cases (cut s sep)) [
  | inl whole ↦ absurd (ground (arith, e, whole))
  | inr ((x, y), more) ↦
      let same = sym (split_step fuel s sep more) ∙ e in
      cut-append s sep x y more
      ∙ ap (λ u. u <> (sep <> y)) (head_eq same)
      ∙ ap (λ v. a <> (sep <> v)) (split_one fuel y sep b (tail_eq same))
]

-- What Split takes into two parts is the parts and the separator.
pub split-append : (s sep a b : String) → split s sep ≡ a ∷ b ∷ [] → s ≡ a <> (sep <> b)
unfolding split
split-append s sep a b e = split_two (len s) s sep a b e

-- A part of a text up to where a separator is found first, or the whole text.
abbrev pub IsFirst : String → String → String → Type 0
IsFirst s sep a =
    ((find s sep ≡ suc (len s)) × (a ≡ s))
    ⊎ ((rest : String) × (s ≡ a <> (sep <> rest)) × (find s sep ≡ len a))

cut-IsFirst : (s sep a b : String) → cut s sep ≡ some (a, b) → IsFirst s sep a
cut-IsFirst s sep a b e =
    let whole = cut-append s sep a b e in
    let (fits, front, back) = cut_parts s sep a b e in
    elim (find_cases s sep) [
      | inr miss ↦ absurd (ground (arith, fits, miss))
      | inl (u, v, parts, at) ↦
          let left : u ≡ a =
            sym (slice-append_left u (sep <> v))
            ∙ ap (λ x. slice x 0 (len u)) (sym parts)
            ∙ ap (λ n. slice s 0 n) (sym at)
            ∙ front in
          inr (b, whole, at ∙ ap len left)
    ]

-- A text that is not cut does not have the separator.
cut-none : (s sep : String) → cut s sep ≡ none → find s sep ≡ suc (len s)
unfolding cut
cut-none s sep e = elim (find_cases s sep) [
  | inr miss ↦ miss
  | inl (u, v, parts, at) ↦
      let size : len s ≡ len u + (len sep + len v) =
        ap len parts ∙ len-append u (sep <> v) ∙ ap (λ n. len u + n) (len-append sep v) in
      absurd (ground (arith, e, size, at))
]

pub split-IsFirst :
    (s sep x : String) (xs : List String) → 0 < len sep → split s sep ≡ x ∷ xs → IsFirst s sep x
unfolding split
split-IsFirst s sep x xs room e = first_of (len s) refl e
  where
    whole : s ∷ [] ≡ x ∷ xs → cut s sep ≡ none → IsFirst s sep x
    whole e miss = inl (cut-none s sep miss, sym (head_eq e))

    first_of : (fuel : ℕ) → len s ≡ fuel → split_fuel fuel s sep ≡ x ∷ xs → IsFirst s sep x
    first_of zero short e = elim (Option-cases (cut s sep)) [
      | inl miss ↦ whole e miss
      | inr ((a, b), more) ↦
          let (fits, front, back) = cut_parts s sep a b more in
          absurd (ground (arith, fits, short, room))
    ]
    first_of (suc fuel) short e = elim (Option-cases (cut s sep)) [
      | inl miss ↦ whole (sym (rw (miss, split_fuel) refl) ∙ e) miss
      | inr ((a, b), more) ↦
          subst (λ y. IsFirst s sep y) (head_eq (sym (split_step fuel s sep more) ∙ e))
            (cut-IsFirst s sep a b more)
    ]

pub split-some : (s sep : String) → split s sep ≢ []
unfolding split
split-some s sep e = split_some (len s) s sep e
