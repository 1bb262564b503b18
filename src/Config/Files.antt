-- ===== src/Config/Files.antt =====
-- The field of the configuration file, which setConfigFile of config/config.go finds.
use go_ldlm.Config.Types.{
  Fields, field, StructField, no_fields, visit, anonymous, Parsers, Kind, duration, text, file,
  uint32, int32, boolean, level, unsupported,
}
use go_ldlm.Config.{set_config_file, is_file, Host, Options}
use go_ldlm.Errors.{Error}
use mathlib.Core.Path.{subst}
use go_ldlm.Common.{
  refl, sym, ◌∙◌, ℕ, ◌≡◌, ◌⊎◌, inl, inr, Bool, true, false, Option, none, some, eqb, ◌&&◌, ◌||◌,
  if◌then◌else◌, Bool-cases, arith, if_true, if_false,
}

abbrev pub is_file_type : Kind → Bool
is_file_type duration = false
is_file_type text = false
is_file_type file = true
is_file_type uint32 = false
is_file_type int32 = false
is_file_type boolean = false
is_file_type level = false
is_file_type unsupported = false

abbrev pub names_file : StructField → Bool
names_file fld = fld.exported && is_file_type fld.kind

-- A struct has an exported field of type File, in exported structs.
abbrev pub has_file : Fields → Bool
has_file no_fields = false
has_file (field fld rest) = names_file fld || has_file rest
has_file (anonymous exported sub rest) = (exported && has_file sub) || has_file rest

-- It has one at this address.
abbrev pub has_file_at : ℕ → Fields → Bool
has_file_at a no_fields = false
has_file_at a (field fld rest) = (names_file fld && eqb fld.addr a) || has_file_at a rest
has_file_at a (anonymous exported sub rest) = (exported && has_file_at a sub) || has_file_at a rest

-- The address of such a field, or none if there is no such field.
abbrev pub IsFileField : Fields → Option ℕ → Type 0
IsFileField t none = has_file t ≡ false
IsFileField t (some a) = has_file_at a t ≡ true

module _ (p : Parsers) (host : Host) (opts : Options) where
  -- The callback of setConfigFile.
  abbrev finds_file : StructField → Option ℕ → Error ⊎ (Option ℕ × Bool)
  finds_file fld s =
      inr (if is_file p host opts fld.kind then (some fld.addr, true) else (s, false))

  pub kind_lem : (k : Kind) → is_file p host opts k ≡ is_file_type k
  unfolding is_file
  kind_lem duration = refl
  kind_lem text = refl
  kind_lem file = refl
  kind_lem uint32 = refl
  kind_lem int32 = refl
  kind_lem boolean = refl
  kind_lem level = refl
  kind_lem unsupported = refl

  step_lem :
      (fld : StructField) (rest : Fields) (s : Option ℕ)
      → visit finds_file (field fld rest) s
        ≡ (if names_file fld then inr (some fld.addr) else visit finds_file rest s)
  unfolding visit
  step_lem fld rest s = elim (Bool-cases fld.exported) [
    | inr hidden ↦ rw hidden refl
    | inl shown ↦
        rw (shown, kind_lem fld.kind)
          (elim (Bool-cases (is_file_type fld.kind)) [ inl y ↦ rw y refl | inr n ↦ rw n refl ])
  ]

  -- What a visit finds, from an address that was found before, or none.
  abbrev Finds : Fields → Option ℕ → Error ⊎ Option ℕ → Type 0
  Finds t s r =
      ((has_file t ≡ false) × (r ≡ inr s))
      ⊎ ((a : ℕ) × (has_file_at a t ≡ true) × (r ≡ inr (some a)))

  visit-Finds : (t : Fields) (s : Option ℕ) → Finds t s (visit finds_file t s)
  visit-Finds no_fields s = inl (refl, unfold visit in refl)
  visit-Finds (field fld rest) s = elim (Bool-cases (names_file fld)) [
    | inl y ↦
        inr (fld.addr, ground (arith, y), step_lem fld rest s ∙ if_true (names_file fld) _ _ y)
    | inr n ↦
        let same = step_lem fld rest s ∙ if_false (names_file fld) _ _ n in
        elim (visit-Finds rest s) [
          | inl (nothing, e) ↦ inl (ground (arith, n, nothing), same ∙ e)
          | inr (a, there, e) ↦ inr (a, ground (arith, there), same ∙ e)
        ]
  ]
  visit-Finds (anonymous false sub rest) s = elim (visit-Finds rest s) [
    | inl (nothing, e) ↦ inl (nothing, unfold visit in e)
    | inr (a, there, e) ↦ inr (a, there, unfold visit in e)
  ]
  visit-Finds (anonymous true sub rest) s = elim (visit-Finds sub s) [
    | inl (nothing, e) ↦
        let same = inner sub rest s s e in
        elim (visit-Finds rest s) [
          | inl (nothing2, e2) ↦ inl (ground (arith, nothing, nothing2), same ∙ e2)
          | inr (a, there, e2) ↦ inr (a, ground (arith, there), same ∙ e2)
        ]
    | inr (b, there, e) ↦
        let same = inner sub rest s (some b) e in
        elim (visit-Finds rest (some b)) [
          | inl (nothing2, e2) ↦ inr (b, ground (arith, there), same ∙ e2)
          | inr (a, there2, e2) ↦ inr (a, ground (arith, there2), same ∙ e2)
        ]
  ]
    where
      inner :
          (sub rest : Fields) (s s2 : Option ℕ)
          → visit finds_file sub s ≡ inr s2
          → visit finds_file (anonymous true sub rest) s ≡ visit finds_file rest s2
      inner sub rest s s2 e = unfold visit in rw e refl

  found_eq : (x y : Option ℕ) → ◌≡◌ {A = Error ⊎ Option ℕ} (inr x) (inr y) → x ≡ y
  found_eq x y e = cc

  -- setConfigFile finds a field of type File, if there is one.
  pub set_config_file-IsFileField :
      (t : Fields) (o : Option ℕ) → set_config_file p host opts t ≡ inr o → IsFileField t o
  unfolding set_config_file
  set_config_file-IsFileField t o h = elim (visit-Finds t none) [
    | inl (nothing, e) ↦ subst (λ x. IsFileField t x) (found_eq none o (sym e ∙ h)) nothing
    | inr (a, there, e) ↦ subst (λ x. IsFileField t x) (found_eq (some a) o (sym e ∙ h)) there
  ]
