-- ===== src/Config/Visits.antt =====
-- visitConfigFields of config/config.go, with callbacks that write to their field only.
-- No field of the struct has the address.
use mathlib.Core.Bool.{false≢true}
use go_ldlm.Config.Types.{Fields, field, StructField, no_fields, Memory, visit, Value, anonymous}
use go_ldlm.Errors.{Error}
use mathlib.Core.Path.{subst}
use go_ldlm.Common.{
  if_true, if_false, ap, ◌∙◌, refl, sym, arith, ℕ, ◌≡◌, ◌⊎◌, inl, inr, Bool, true, false, eqb,
  if◌then◌else◌, Bool-cases,
}

abbrev pub has_addr : ℕ → Fields → Bool
has_addr a no_fields = false
has_addr a (field fld rest) = if eqb fld.addr a then true else has_addr a rest
has_addr a (anonymous exported sub rest) = if has_addr a sub then true else has_addr a rest

-- The field is exported, in exported structs, and the only one at its address.
pub data IsOnly (fld : StructField) : Fields → Type 0 where
  only_here :
      {rest : Fields}
      → fld.exported ≡ true
      → has_addr fld.addr rest ≡ false
      → IsOnly fld (field fld rest)
  only_later :
      {other_fld : StructField} {rest : Fields}
      → eqb other_fld.addr fld.addr ≡ false
      → IsOnly fld rest
      → IsOnly fld (field other_fld rest)
  only_in :
      {sub rest : Fields}
      → IsOnly fld sub
      → has_addr fld.addr rest ≡ false
      → IsOnly fld (anonymous true sub rest)
  only_after :
      {exported : Bool} {sub rest : Fields}
      → has_addr fld.addr sub ≡ false
      → IsOnly fld rest
      → IsOnly fld (anonymous exported sub rest)

abbrev pub Callback : Type 0
Callback = StructField → Memory → Error ⊎ (Memory × Bool)

-- A callback that never stops and writes to its field only.
pub record IsSetter (f : Callback) (Gives : StructField → Value → Value → Type 0) : Type 0 where
  pub stays :
      (fld : StructField) (m m' : Memory) (stop : Bool) → f fld m ≡ inr (m', stop) → stop ≡ false
  pub gives :
      (fld : StructField) (m m' : Memory) (stop : Bool)
      → f fld m ≡ inr (m', stop)
      → Gives fld (m fld.addr) (m' fld.addr)
  pub away :
      (fld : StructField) (m m' : Memory) (stop : Bool) (a : ℕ)
      → f fld m ≡ inr (m', stop)
      → eqb fld.addr a ≡ false
      → m' a ≡ m a

inr_eq : (m m' : Memory) → ◌≡◌ {A = Error ⊎ Memory} (inr m) (inr m') → m ≡ m'
inr_eq m m' e = cc

-- What a visit does at a field that is exported.
next : (Callback) → Fields → Error ⊎ (Memory × Bool) → Error ⊎ Memory
next f rest (inl e) = inl e
next f rest (inr (m, stop)) = if stop then inr m else visit f rest m

visit_shown :
    (f : Callback) (fld : StructField) (rest : Fields) (m : Memory)
    → fld.exported ≡ true
    → visit f (field fld rest) m ≡ next f rest (f fld m)
unfolding visit next
visit_shown f fld rest m shown = if_true fld.exported _ _ shown ∙ by_result (f fld m)
  where
    by_result :
        (r : Error ⊎ (Memory × Bool))
        → elim r [ inl e ↦ inl e | inr (s', stop) ↦ if stop then inr s' else visit f rest s' ]
          ≡ next f rest r
    by_result (inl e) = refl
    by_result (inr (m1, stop)) = refl

visit_hidden :
    (f : Callback) (fld : StructField) (rest : Fields) (m : Memory)
    → fld.exported ≡ false
    → visit f (field fld rest) m ≡ visit f rest m
unfolding visit
visit_hidden f fld rest m hidden = if_false fld.exported _ _ hidden

module _ (f : Callback) (Gives : StructField → Value → Value → Type 0) (ok : IsSetter f Gives) where
  -- A field that is exported was written by its callback, and the rest was visited.
  shown_cases :
      (fld : StructField) (rest : Fields) (m m' : Memory) (r : Error ⊎ (Memory × Bool))
      → f fld m ≡ r
      → next f rest r ≡ inr m'
      → (m1 : Memory) × (f fld m ≡ inr (m1, false)) × (visit f rest m1 ≡ inr m')
  unfolding next
  shown_cases fld rest m m' (inl err) called e = absurd (ground (arith, e))
  shown_cases fld rest m m' (inr (m1, true)) called e =
      absurd (false≢true (sym (ok.stays fld m m1 true called)))
  shown_cases fld rest m m' (inr (m1, false)) called e = (m1, called, e)

  -- A visit of a struct inside a struct, and then of the rest.
  inner_cases :
      (sub rest : Fields) (m m' : Memory)
      → visit f (anonymous true sub rest) m ≡ inr m'
      → (m1 : Memory) × (visit f sub m ≡ inr m1) × (visit f rest m1 ≡ inr m')
  inner_cases sub rest m m' e = by_result (visit f sub m) refl (unfold visit in e)
    where
      by_result :
          (r : Error ⊎ Memory)
          → visit f sub m ≡ r
          → elim r [ inl err ↦ inl err | inr s ↦ visit f rest s ] ≡ inr m'
          → (m1 : Memory) × (visit f sub m ≡ inr m1) × (visit f rest m1 ≡ inr m')
      by_result (inl err) called end = absurd (ground (arith, end))
      by_result (inr m1) called end = (m1, called, end)

  -- A visit leaves an address alone that is not of the struct.
  visit-away :
      (t : Fields) (m m' : Memory) (a : ℕ)
      → visit f t m ≡ inr m'
      → has_addr a t ≡ false
      → m' a ≡ m a
  visit-away no_fields m m' a e none_there = ap (λ k. k a) (sym (inr_eq m m' (unfold visit in e)))
  visit-away (field fld rest) m m' a e none_there = elim (Bool-cases fld.exported) [
    | inr hidden ↦
        visit-away rest m m' a (sym (visit_hidden f fld rest m hidden) ∙ e)
          (ground (arith, none_there))
    | inl shown ↦
        let (m1, called, later) =
          shown_cases fld rest m m' (f fld m) refl (sym (visit_shown f fld rest m shown) ∙ e) in
        visit-away rest m1 m' a later (ground (arith, none_there))
        ∙ ok.away fld m m1 false a called (ground (arith, none_there))
  ]
  visit-away (anonymous true sub rest) m m' a e none_there =
      let (m1, first, later) = inner_cases sub rest m m' e in
      visit-away rest m1 m' a later (ground (arith, none_there))
      ∙ visit-away sub m m1 a first (ground (arith, none_there))
  visit-away (anonymous false sub rest) m m' a e none_there =
      visit-away rest m m' a (unfold visit in e) (ground (arith, none_there))

  -- Where a visit ends well, the value of a field that is the only one at its address is what its
  -- callback gives.
  pub visit-gives :
      (fld : StructField) (t : Fields) (m m' : Memory)
      → IsOnly fld t
      → visit f t m ≡ inr m'
      → Gives fld (m fld.addr) (m' fld.addr)
  visit-gives fld no_fields m m' o e = elim o [ ]
  visit-gives fld (field _ rest) m m' (only_here shown rest_free) e =
      let (m1, called, later) =
        shown_cases fld rest m m' (f fld m) refl (sym (visit_shown f fld rest m shown) ∙ e) in
      subst (λ v. Gives fld (m fld.addr) v) (sym (visit-away rest m1 m' fld.addr later rest_free))
        (ok.gives fld m m1 false called)
  visit-gives fld (field fld2 rest) m m' (only_later differ o) e = elim (Bool-cases fld2.exported) [
    | inr hidden ↦ visit-gives fld rest m m' o (sym (visit_hidden f fld2 rest m hidden) ∙ e)
    | inl shown ↦
        let (m1, called, later) =
          shown_cases fld2 rest m m' (f fld2 m) refl (sym (visit_shown f fld2 rest m shown) ∙ e) in
        subst (λ v. Gives fld v (m' fld.addr)) (ok.away fld2 m m1 false fld.addr called differ)
          (visit-gives fld rest m1 m' o later)
  ]
  visit-gives fld (anonymous true sub rest) m m' (only_in o rest_free) e =
      let (m1, first, later) = inner_cases sub rest m m' e in
      subst (λ v. Gives fld (m fld.addr) v) (sym (visit-away rest m1 m' fld.addr later rest_free))
        (visit-gives fld sub m m1 o first)
  visit-gives fld (anonymous true sub rest) m m' (only_after sub_free o) e =
      let (m1, first, later) = inner_cases sub rest m m' e in
      subst (λ v. Gives fld v (m' fld.addr)) (visit-away sub m m1 fld.addr first sub_free)
        (visit-gives fld rest m1 m' o later)
  visit-gives fld (anonymous false sub rest) m m' (only_after sub_free o) e =
      visit-gives fld rest m m' o (unfold visit in e)
