-- ===== src/Config/FileFlags.antt =====
-- The flag of the configuration file, which loadFlags of config/config.go finds.
use mathlib.Core.Bool.{false≢true}
use go_ldlm.Config.Types.{
  Fields, field, StructField, no_fields, visit, anonymous, Parsers, Kind, Tags, duration, text,
  file, uint32, int32, boolean, level, unsupported,
}
use go_ldlm.Config.Files.{names_file, has_file, kind_lem, is_file_type}
use go_ldlm.Config.{
  load_flag, load_flags, flag_of, file_flag, is_file, required, supported, ConfigFile, FlagSpec,
  Host, Options,
}
use go_ldlm.Errors.{Error, bind_inr}
use mathlib.Core.Path.{subst}
use go_ldlm.Common.{
  String, ◌==◌, eq_refl, refl, sym, ap, ◌∙◌, ◌≡◌, ◌⊎◌, inl, inr, Bool, true, false, List, ◌&&◌,
  ◌||◌, if◌then◌else◌, Bool-cases, arith, if_true, if_false,
}

module _ (p : Parsers) (host : Host) (opts : Options) where
  -- The flag of an exported field of type File of a struct.
  abbrev pub names_flag : String → Fields → Bool
  names_flag s no_fields = false
  names_flag s (field fld rest) =
      (names_file fld && (host.to_snake fld.name == s)) || names_flag s rest
  names_flag s (anonymous exported sub rest) = (exported && names_flag s sub) || names_flag s rest

  -- The flag of the configuration file: that of such a field, if there is one, and else as before.
  abbrev pub Flags : Fields → ConfigFile → ConfigFile → Type 0
  Flags t c c' = ((has_file t ≡ false) × (c' ≡ c)) ⊎ (names_flag c'.flag t ≡ true)

  abbrev State : Type 0
  State = List FlagSpec × ConfigFile

  spec_eq : (f f' : FlagSpec) → ◌≡◌ {A = Error ⊎ FlagSpec} (inr f) (inr f') → f ≡ f'
  spec_eq f f' e = cc

  state_eq :
      (x y : State) (b b' : Bool)
      → ◌≡◌ {A = Error ⊎ (State × Bool)} (inr (x, b)) (inr (y, b'))
      → (x ≡ y) × (b ≡ b')
  state_eq x y b b' e = (cc, cc)

  supported_same : (k : Kind) (f f' : FlagSpec) → supported p host opts k f ≡ inr f' → f ≡ f'
  unfolding supported
  supported_same unsupported f f' e = absurd (ground (arith, e))
  supported_same duration f f' e = spec_eq f f' e
  supported_same text f f' e = spec_eq f f' e
  supported_same file f f' e = spec_eq f f' e
  supported_same uint32 f f' e = spec_eq f f' e
  supported_same int32 f f' e = spec_eq f f' e
  supported_same boolean f f' e = spec_eq f f' e
  supported_same level f f' e = spec_eq f f' e

  flag_of_name :
      (fld : StructField) (r : Error ⊎ Tags) (f : FlagSpec)
      → flag_of p host opts fld r ≡ inr f
      → f.name ≡ host.to_snake fld.name
  unfolding flag_of
  flag_of_name fld (inl err) f e = absurd (ground (arith, e))
  flag_of_name fld (inr tags) f e =
      let (desc, _, e1) = bind_inr (required p host opts tags.desc) _ f e in
      let (dflt, _, e2) = bind_inr (required p host opts tags.dflt) _ f e1 in
      ap (λ x. x.name) (sym (supported_same fld.kind _ f e2))

  load_flag_lem :
      (fld : StructField) (s s' : State) (stop : Bool)
      → load_flag p host opts fld s ≡ inr (s', stop)
      → (stop ≡ false)
        × (is_file_type fld.kind ≡ false → s'.1 ≡ s.1)
        × (is_file_type fld.kind ≡ true → s'.1.flag ≡ host.to_snake fld.name)
  unfolding load_flag file_flag
  load_flag_lem fld (fl, c) s' stop e =
      let (f, flagged, e1) = bind_inr (flag_of p host opts fld fld.tags) _ (s', stop) e in
      let (more, _, e2) = bind_inr (host.add_flag fl f) _ (s', stop) e1 in
      let (same, off) = state_eq _ s' false stop e2 in
      let kind = kind_lem p host opts fld.kind in
      (
        sym off,
        λ other.
            ap (λ x. x.1) (sym same) ∙ if_false (is_file p host opts fld.kind) _ _ (kind ∙ other),
        λ on.
            ap {A = State} (λ x. x.1.flag) (sym same)
            ∙ ap {A = ConfigFile} (λ x. x.flag)
                (if_true (is_file p host opts fld.kind) _ _ (kind ∙ on))
            ∙ flag_of_name fld fld.tags f flagged,
      )

  abbrev loads : Fields → State → Error ⊎ State
  loads t s = visit (load_flag p host opts) t s

  hidden_lem :
      (fld : StructField) (rest : Fields) (s : State)
      → fld.exported ≡ false
      → loads (field fld rest) s ≡ loads rest s
  unfolding visit
  hidden_lem fld rest s hidden = if_false fld.exported _ _ hidden

  -- A visit of an exported field.
  shown_cases :
      (fld : StructField) (rest : Fields) (s s' : State)
      → fld.exported ≡ true
      → loads (field fld rest) s ≡ inr s'
      → (s1 : State) × (load_flag p host opts fld s ≡ inr (s1, false)) × (loads rest s1 ≡ inr s')
  unfolding visit
  shown_cases fld rest s s' shown e =
      by_result (load_flag p host opts fld s) refl (sym (if_true fld.exported _ _ shown) ∙ e)
    where
      by_result :
          (r : Error ⊎ (State × Bool))
          → load_flag p host opts fld s ≡ r
          → elim r [ inl err ↦ inl err | inr (x, stop) ↦ if stop then inr x else loads rest x ]
            ≡ inr s'
          → (s1 : State) × (load_flag p host opts fld s ≡ inr (s1, false))
            × (loads rest s1 ≡ inr s')
      by_result (inl err) called end = absurd (ground (arith, end))
      by_result (inr (x, true)) called end =
          absurd (false≢true (sym (load_flag_lem fld s x true called).0))
      by_result (inr (x, false)) called end = (x, called, end)

  inner_cases :
      (sub rest : Fields) (s s' : State)
      → loads (anonymous true sub rest) s ≡ inr s'
      → (s1 : State) × (loads sub s ≡ inr s1) × (loads rest s1 ≡ inr s')
  inner_cases sub rest s s' e = by_result (loads sub s) refl (unfold visit in e)
    where
      by_result :
          (r : Error ⊎ State)
          → loads sub s ≡ r
          → elim r [ inl err ↦ inl err | inr x ↦ loads rest x ] ≡ inr s'
          → (s1 : State) × (loads sub s ≡ inr s1) × (loads rest s1 ≡ inr s')
      by_result (inl err) called end = absurd (ground (arith, end))
      by_result (inr x) called end = (x, called, end)

  result_eq : (x y : State) → ◌≡◌ {A = Error ⊎ State} (inr x) (inr y) → x ≡ y
  result_eq x y e = cc

  visit-Flags : (t : Fields) (s s' : State) → loads t s ≡ inr s' → Flags t s.1 s'.1
  visit-Flags no_fields s s' e =
      inl (refl, ap (λ x. x.1) (sym (result_eq s s' (unfold visit in e))))
  visit-Flags (field fld rest) s s' e = elim (Bool-cases fld.exported) [
    | inr hidden ↦ elim (visit-Flags rest s s' (sym (hidden_lem fld rest s hidden) ∙ e)) [
      | inl (nothing, same) ↦ inl (ground (arith, hidden, nothing), same)
      | inr there ↦ inr (ground (arith, there))
    ]
    | inl shown ↦
        let (s1, called, later) = shown_cases fld rest s s' shown e in
        let (_, keeps, flags) = load_flag_lem fld s s1 false called in
        elim (visit-Flags rest s1 s' later) [
          | inr there ↦ inr (ground (arith, there))
          | inl (nothing, same) ↦ elim (Bool-cases (is_file_type fld.kind)) [
            | inr other ↦ inl (ground (arith, other, nothing), same ∙ keeps other)
            | inl on ↦
                let named : host.to_snake fld.name == s'.1.flag ≡ true =
                  rw (ap (λ x. x.flag) same ∙ flags on) (eq_refl (host.to_snake fld.name)) in
                inr (ground (arith, shown, on, named))
          ]
        ]
  ]
  visit-Flags (anonymous false sub rest) s s' e = elim (visit-Flags rest s s' (unfold visit in e)) [
    | inl (nothing, same) ↦ inl (nothing, same)
    | inr there ↦ inr there
  ]
  visit-Flags (anonymous true sub rest) s s' e =
      let (s1, first, later) = inner_cases sub rest s s' e in
      elim (visit-Flags rest s1 s' later) [
        | inr there ↦ inr (ground (arith, there))
        | inl (nothing, same) ↦ elim (visit-Flags sub s s1 first) [
          | inl (nothing2, same2) ↦ inl (ground (arith, nothing, nothing2), same ∙ same2)
          | inr there ↦
              inr (ground (arith, subst (λ x. names_flag x.flag sub ≡ true) (sym same) there))
        ]
      ]

  -- loadFlags finds the flag of a field of type File, if there is one.
  pub load_flags-Flags :
      (t : Fields) (s s' : State) → load_flags p host opts t s ≡ inr s' → Flags t s.1 s'.1
  unfolding load_flags
  load_flags-Flags t s s' e = visit-Flags t s s' e
