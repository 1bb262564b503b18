-- ===== src/Rest/Password.antt =====
-- ValidatePassword of net/rest/rest.go: who passes.
use go_ldlm.Rest.Types.{
  RestHandler, password_given, Request, Gateway, bad_password, GrpcLockServer, is_valid_password,
}
use go_ldlm.Rest.{serve_http}
use go_ldlm.Errors.{Error}
use mathlib.Core.Bool.{false≢true}
use go_ldlm.Common.{
  cut, split, cut-append, split-append, pure, returns, ℕ, String, ◌==◌, eq_iff, ◌≡◌, refl, ap, ◌∙◌,
  ◌⊎◌, inl, inr, true, List, [], ◌∷◌, arith, Bool-cases, Option-cases,
}
use Prim.Native.String.{◌++◌ as ◌<>◌}

module _ (srv : GrpcLockServer) (g : Gateway srv) where
  open srv use {State, Ctx}

  -- The request carries the gateway's password in its Authorization header.
  abbrev pub CarriesPassword : Request → Type 0
  CarriesPassword r =
      (front : String) × (encoded : String) × (user : String) × (r.authorization
        ≡ front <> ("Basic " <> encoded))
      × (g.decode_string encoded ≡ inr (user <> (":" <> g.password)))

  password_given_sound :
      (parts : List String)
      → password_given srv g parts ≡ true
      → (front : String) × (encoded : String) × (user : String) × (parts ≡ front ∷ encoded ∷ [])
        × (g.decode_string encoded ≡ inr (user <> (":" <> g.password)))
  unfolding password_given
  password_given_sound [] e = absurd (false≢true e)
  password_given_sound (x ∷ []) e = absurd (false≢true e)
  password_given_sound (x ∷ y ∷ z ∷ rest) e = absurd (false≢true e)
  password_given_sound (x ∷ y ∷ []) e = decoded (g.decode_string y) refl
    where
      decoded :
          (d : Error ⊎ String)
          → g.decode_string y ≡ d
          → (front : String) × (encoded : String) × (user : String) × (x ∷ y ∷ []
              ≡ front ∷ encoded ∷ [])
            × (g.decode_string encoded ≡ inr (user <> (":" <> g.password)))
      decoded (inl err) at = absurd (ground (arith, e, at))
      decoded (inr text) at = elim (Option-cases (cut text ":")) [
        | inl whole ↦ absurd (ground (arith, e, at, whole))
        | inr ((user, given), there) ↦
            let same : given == g.password ≡ true = ground (arith, e, at, there) in
            (
              x,
              y,
              user,
              refl,
              at
                  ∙ ap inr (
                      cut-append text ":" user given there
                      ∙ ap (λ p. user <> (":" <> p)) ((eq_iff given g.password).0 same)),
            )
      ]

  -- Every request is answered with status 401 and changes nothing, unless the gateway has no password
  -- or the request carries it: its Authorization header ends in "Basic " and the encoding of a text
  -- that ends in a colon and the password.
  pub serve_http_password :
      (r : Request) (uuid server_session : String) (now : ℕ) (h : RestHandler State Ctx)
      → (serve_http srv g r uuid server_session now h ≡ (returns bad_password, h))
        ⊎ ((g.password ≡ "") ⊎ CarriesPassword r)
  unfolding serve_http is_valid_password pure
  serve_http_password r uuid server_session now h = elim (Bool-cases (g.password == "")) [
    | inl open_gate ↦ inr (inl ((eq_iff g.password "").0 open_gate))
    | inr closed ↦ elim (Bool-cases (password_given srv g (split r.authorization "Basic "))) [
      | inr bad ↦ inl (rw (closed, bad) refl)
      | inl good ↦
          let (front, encoded, user, parts, decoded) =
            password_given_sound (split r.authorization "Basic ") good in
          inr (
            inr (
              front,
              encoded,
              user,
              split-append r.authorization "Basic " front encoded parts,
              decoded,
            ))
    ]
  ]
