-- ===== src/Security/Laws.antt =====
-- What GetTLSConfig of net/security/security.go promises.
use go_ldlm.Security.{
  Crypto, SecurityConfig, Settings, TlsConfig, with_cert, with_pool, with_ca, server_settings,
  client_settings, decided, get_tls_config,
}
use go_ldlm.Errors.{Error, bind_inr}
use mathlib.Core.Path.{subst}
use go_ldlm.Common.{
  if_true, if_false, refl, sym, ap, ◌∙◌, ◌≡◌, ◌⊎◌, inl, inr, String, ◌==◌, arith, Bool-cases, Bool,
  true, false, not, ◌||◌, Option, none, some,
}

module _ (k : Crypto) where
  open k use {Cert, Pool}

  -- Whether the settings ask that clients show a certificate.
  abbrev pub asks_clients : SecurityConfig → Bool
  asks_clients conf = not (conf.client_ca == "") || conf.client_cert_verify

  abbrev plain : Settings k
  plain = (record { certificates = none; client_cas = none; client_auth = false }, false)

  abbrev certified : Cert → Settings k
  certified c = (record { certificates = some c; client_cas = none; client_auth = false }, true)

  settings_eq : (x y : Settings k) → ◌≡◌ {A = Error ⊎ Settings k} (inr x) (inr y) → x ≡ y
  settings_eq x y e = cc

  cert_cases :
      (r : Error ⊎ Cert) (s : Settings k)
      → with_cert k r ≡ inr s
      → (c : Cert) × (r ≡ inr c) × (certified c ≡ s)
  unfolding with_cert
  cert_cases (inl err) s e = absurd (ground (arith, e))
  cert_cases (inr c) s e = (c, refl, settings_eq (certified c) s e)

  server_cases :
      (conf : SecurityConfig) (s : Settings k)
      → server_settings k conf ≡ inr s
      → ((conf.tls_cert == "" ≡ true) × (plain ≡ s))
        ⊎ ((conf.tls_cert == "" ≡ false)
            × ((c : Cert) × (k.load_key_pair conf.tls_cert conf.tls_key ≡ inr c)
                × (certified c ≡ s)))
  unfolding server_settings
  server_cases conf s e = elim (Bool-cases (conf.tls_cert == "")) [
    | inl h ↦ inl (h, settings_eq plain s (sym (if_true (conf.tls_cert == "") _ _ h) ∙ e))
    | inr h ↦ inr (
      h,
      cert_cases (k.load_key_pair conf.tls_cert conf.tls_key) s
          (sym (if_false (conf.tls_cert == "") _ _ h) ∙ e),
    )
  ]

  -- The settings where clients have to show a certificate.
  abbrev Verifies : Settings k → Settings k → Type 0
  Verifies s c = (c.0.client_auth ≡ true) × (c.1 ≡ true) × (c.0.certificates ≡ s.0.certificates)

  pool_cases :
      (t : TlsConfig Cert Pool) (b : Bool) (o : Option Pool) (c : Settings k)
      → with_pool k t o ≡ inr c
      → Verifies (t, b) c
  unfolding with_pool
  pool_cases t b none c e = absurd (ground (arith, e))
  pool_cases t b (some pool) c e =
      subst (λ x. Verifies (t, b) x) (settings_eq _ c e) (refl, refl, refl)

  ca_cases :
      (t : TlsConfig Cert Pool) (b : Bool) (r : Error ⊎ String) (c : Settings k)
      → with_ca k t r ≡ inr c
      → Verifies (t, b) c
  unfolding with_ca
  ca_cases t b (inl err) c e = absurd (ground (arith, e))
  ca_cases t b (inr pem) c e = pool_cases t b (k.append_certs pem) c e

  client_cases :
      (conf : SecurityConfig) (s c : Settings k)
      → client_settings k conf s ≡ inr c
      → ((asks_clients conf ≡ false) × (s ≡ c)) ⊎ ((asks_clients conf ≡ true) × Verifies s c)
  unfolding client_settings
  client_cases conf (t, b) c e = elim (Bool-cases (conf.client_ca == "")) [
    | inr ca ↦ inr (
      ground (arith, ca),
      ca_cases t b (k.read_file conf.client_ca) c
          (sym (if_true (not (conf.client_ca == "")) _ _ (ground (arith, ca))) ∙ e),
    )
    | inl no_ca ↦
        let e2 = sym (if_false (not (conf.client_ca == "")) _ _ (ground (arith, no_ca))) ∙ e in
        elim (Bool-cases conf.client_cert_verify) [
          | inl on ↦ inr (
            ground (arith, on),
            subst (λ x. Verifies (t, b) x)
                (settings_eq _ c (sym (if_true conf.client_cert_verify _ _ on) ∙ e2))
                (refl, refl, refl),
          )
          | inr off ↦ inl (
            ground (arith, no_ca, off),
            settings_eq (t, b) c (sym (if_false conf.client_cert_verify _ _ off) ∙ e2),
          )
        ]
  ]

  option_eq :
      (x y : Option (TlsConfig Cert Pool))
      → ◌≡◌ {A = Error ⊎ Option (TlsConfig Cert Pool)} (inr x) (inr y)
      → x ≡ y
  option_eq x y e = cc

  decided_cases :
      (conf : SecurityConfig) (t : TlsConfig Cert Pool) (use_tls : Bool)
      (o : Option (TlsConfig Cert Pool))
      → decided k conf (t, use_tls) ≡ inr o
      → ((use_tls ≡ true) × (conf.tls_cert == "" ≡ false) × (o ≡ some t))
        ⊎ ((use_tls ≡ false) × (o ≡ none))
  unfolding decided
  decided_cases conf t false o e = inr (refl, sym (option_eq none o e))
  decided_cases conf t true o e = elim (Bool-cases (conf.tls_cert == "")) [
    | inl h ↦ absurd (ground (arith, e, h))
    | inr h ↦
        inl (refl, h, sym (option_eq (some t) o (sym (if_false (conf.tls_cert == "") _ _ h) ∙ e)))
  ]

  -- Where GetTLSConfig gives no error, it gives settings exactly if a certificate is configured; they
  -- then hold that certificate and ask clients for theirs exactly if a client CA or the verification
  -- of clients is configured. Without a certificate neither of the two is: where clients are to be
  -- verified and there is no certificate, it gives an error.
  pub get_tls_config_lem :
      (conf : SecurityConfig) (o : Option (TlsConfig Cert Pool))
      → get_tls_config k conf ≡ inr o
      → ((o ≡ none) × (conf.tls_cert == "" ≡ true) × (asks_clients conf ≡ false))
        ⊎ ((t : TlsConfig Cert Pool) × (c : Cert) × (o ≡ some t)
            × (conf.tls_cert == "" ≡ false)
            × (k.load_key_pair conf.tls_cert conf.tls_key ≡ inr c)
            × (t.certificates ≡ some c)
            × (t.client_auth ≡ asks_clients conf))
  unfolding get_tls_config decided
  get_tls_config_lem conf o e =
      let (s, ok1, e1) = bind_inr (server_settings k conf) _ o e in
      let (c, ok2, e2) = bind_inr (client_settings k conf s) _ o e1 in
      let d = decided_cases conf c.0 c.1 o e2 in
      elim (server_cases conf s ok1) [
        | inl (no_cert, same) ↦ elim (client_cases conf s c ok2) [
          | inl (quiet, kept) ↦
              let off : c.1 ≡ false = sym (ap (λ x. x.1) (same ∙ kept)) in
              elim d [
                | inl (on, h, got) ↦ absurd (ground (arith, on, off))
                | inr (h, got) ↦ inl (got, no_cert, quiet)
              ]
          | inr (asked, (auth, on, certs)) ↦ elim d [
            | inl (h, cert, got) ↦ absurd (ground (arith, no_cert, cert))
            | inr (off, got) ↦ absurd (ground (arith, on, off))
          ]
        ]
        | inr (cert, (x, loaded, same)) ↦ elim (client_cases conf s c ok2) [
          | inl (quiet, kept) ↦ elim d [
            | inl (h, h2, got) ↦ inr (
              c.0,
              x,
              got,
              cert,
              loaded,
              sym (ap (λ y. y.0.certificates) (same ∙ kept)),
              sym (ap (λ y. y.0.client_auth) (same ∙ kept)) ∙ sym quiet,
            )
            | inr (off, got) ↦
                let on : true ≡ c.1 = ap (λ y. y.1) (same ∙ kept) in
                absurd (ground (arith, on, off))
          ]
          | inr (asked, (auth, on, certs)) ↦ elim d [
            | inl (h, h2, got) ↦ inr (
              c.0,
              x,
              got,
              cert,
              loaded,
              certs ∙ sym (ap (λ y. y.0.certificates) same),
              auth ∙ sym asked,
            )
            | inr (off, got) ↦ absurd (ground (arith, on, off))
          ]
        ]
      ]
