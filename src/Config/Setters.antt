-- ===== src/Config/Setters.antt =====
-- What the callbacks of config/config.go that write a field give it.
use go_ldlm.Config.Types.{Memory, StructField, Value, set_from_string, Kind, store, Parsers}
use go_ldlm.Config.Visits.{IsSetter}
use go_ldlm.Errors.{Error, bind_inr}
use go_ldlm.Config.{default_tag, set_default, Options, assign, Host}
use go_ldlm.Common.{
  if_true, if_false, ℕ, String, ◌≡◌, sym, ap, ◌∙◌, ◌⊎◌, inr, Bool, false, Option, none, some, arith,
  eqb,
}

module _ (p : Parsers) (host : Host) (opts : Options) where
  -- A value where a source gives a text, or none.
  abbrev pub Takes : Kind → Option String → Value → Value → Type 0
  Takes k none old new = new ≡ old
  Takes k (some s) old new = set_from_string p k s ≡ inr new

  pair_eq :
      (m m' : Memory) (b b' : Bool)
      → ◌≡◌ {A = Error ⊎ (Memory × Bool)} (inr (m, b)) (inr (m', b'))
      → (m ≡ m') × (b ≡ b')
  pair_eq m m' b b' e = (cc, cc)

  assign_lem :
      (fld : StructField) (o : Option String) (m m' : Memory) (stop : Bool)
      → assign p host opts fld o m ≡ inr (m', stop)
      → (stop ≡ false)
        × Takes fld.kind o (m fld.addr) (m' fld.addr)
        × ((a : ℕ) → eqb fld.addr a ≡ false → m' a ≡ m a)
  unfolding assign
  assign_lem fld none m m' stop e =
      let (same, off) = pair_eq m m' false stop e in
      (sym off, ap (λ k. k fld.addr) (sym same), λ a h. ap (λ k. k a) (sym same))
  assign_lem fld (some s) m m' stop e =
      let (v, parsed, end) =
        bind_inr (set_from_string p fld.kind s) (λ v. inr (store fld.addr v m, false)) (m', stop)
          e in
      let (same, off) = pair_eq (store fld.addr v m) m' false stop end in
      (
        sym off,
        parsed
            ∙ ap inr (
                sym (if_true (eqb fld.addr fld.addr) v (m fld.addr) (ground arith))
                ∙ ap (λ k. k fld.addr) same),
        λ a h. sym (ap (λ k. k a) same) ∙ if_false (eqb fld.addr a) v (m a) h,
      )

  pub assign-IsSetter :
      (source : StructField → Option String)
      → IsSetter
          (λ fld m. assign p host opts fld (source fld) m)
          (λ fld old new. Takes fld.kind (source fld) old new)
  assign-IsSetter source = record {
    stays = λ fld m m' stop e. (assign_lem fld (source fld) m m' stop e).0;
    gives = λ fld m m' stop e. (assign_lem fld (source fld) m m' stop e).1;
    away = λ fld m m' stop a e h. (assign_lem fld (source fld) m m' stop e).2 a h;
  }

  default_of :
      (fld : StructField) (m m' : Memory) (stop : Bool)
      → set_default p host opts fld m ≡ inr (m', stop)
      → (d : String) × (default_tag p host opts fld.tags ≡ inr d)
        × (assign p host opts fld (some d) m ≡ inr (m', stop))
  unfolding set_default
  default_of fld m m' stop e =
      bind_inr (default_tag p host opts fld.tags) (λ d. assign p host opts fld (some d) m)
        (m', stop) e

  -- A default is the text of a field's tag.
  pub set_default-IsSetter : IsSetter (set_default p host opts) (λ fld old new.
      (d : String) × (default_tag p host opts fld.tags ≡ inr d)
      × (set_from_string p fld.kind d ≡ inr new))
  set_default-IsSetter = record {
    stays = λ fld m m' stop e.
        let (d, tagged, rest) = default_of fld m m' stop e in
        (assign_lem fld (some d) m m' stop rest).0;
    gives = λ fld m m' stop e.
        let (d, tagged, rest) = default_of fld m m' stop e in
        (d, tagged, (assign_lem fld (some d) m m' stop rest).1);
    away = λ fld m m' stop a e h.
        let (d, tagged, rest) = default_of fld m m' stop e in
        (assign_lem fld (some d) m m' stop rest).2 a h;
  }
