-- ===== src/Client/Dial/Secured.antt =====
-- What New of client/client.go promises about the security of its connection.
use go_ldlm.Client.Dial.{
  Config, ClientTls, base_tls, first_part, cert_loaded, with_client_cert, pool_made, ca_read,
  with_client_ca, client_credentials, NewClient, dialed, new,
}
use go_ldlm.Security.{Crypto}
use go_ldlm.Errors.{Error, bind_inr}
use mathlib.Core.Path.{subst}
use go_ldlm.Common.{
  split, split-some, split-IsFirst, IsFirst, List, ◌∷◌, if_true, if_false, refl, sym, ◌∙◌, ◌≡◌, ◌⊎◌,
  inl, inr, String, ◌==◌, arith, Bool-cases, Bool, true, false, not, ◌||◌, Option, none, some, [],
  if◌then◌else◌,
}

module _ (k : Crypto) where
  open k use {Cert, Pool}

  -- A certificate and CAs of the settings: those that their files hold, and none without a file.
  abbrev pub Certified : Config → ClientTls Cert Pool → Type 0
  Certified conf t =
      ((conf.tls_cert == "" ≡ true) × (t.certificates ≡ none))
      ⊎ ((c : Cert) × (k.load_key_pair conf.tls_cert conf.tls_key ≡ inr c)
          × (t.certificates ≡ some c))

  abbrev pub Trusts : Config → ClientTls Cert Pool → Type 0
  Trusts conf t =
      ((conf.ca_file == "" ≡ true) × (t.root_cas ≡ none))
      ⊎ ((pem : String) × (p : Pool) × (k.read_file conf.ca_file ≡ inr pem)
          × (k.append_certs pem ≡ some p)
          × (t.root_cas ≡ some p))

  first_part_of : (s : String) (ls : List String) → split s ":" ≡ ls → IsFirst s ":" (first_part ls)
  first_part_of s [] e = absurd (split-some s ":" e)
  first_part_of s (x ∷ xs) e = split-IsFirst s ":" x xs (omega arith) e

  first_part_lem : (s : String) → IsFirst s ":" (first_part (split s ":"))
  first_part_lem s = first_part_of s (split s ":") refl

  inr_eq :
      (x y : ClientTls Cert Pool) → ◌≡◌ {A = Error ⊎ ClientTls Cert Pool} (inr x) (inr y) → x ≡ y
  inr_eq x y e = cc

  -- The settings after the certificate: the base ones with another certificate.
  cert_loaded_cases :
      (t u : ClientTls Cert Pool) (r : Error ⊎ Cert)
      → cert_loaded k t r ≡ inr u
      → (c : Cert) × (r ≡ inr c) × (u ≡ record t { certificates = some c })
  unfolding cert_loaded
  cert_loaded_cases t u (inl e) h = absurd (ground (arith, h))
  cert_loaded_cases t u (inr c) h = (c, refl, sym (inr_eq _ u h))

  pool_made_cases :
      (t u : ClientTls Cert Pool) (o : Option Pool)
      → pool_made k t o ≡ inr u
      → (p : Pool) × (o ≡ some p) × (u ≡ record t { root_cas = some p })
  unfolding pool_made
  pool_made_cases t u none h = absurd (ground (arith, h))
  pool_made_cases t u (some p) h = (p, refl, sym (inr_eq _ u h))

  ca_read_cases :
      (t u : ClientTls Cert Pool) (r : Error ⊎ String)
      → ca_read k t r ≡ inr u
      → (pem : String) × (p : Pool) × (r ≡ inr pem)
        × (k.append_certs pem ≡ some p)
        × (u ≡ record t { root_cas = some p })
  unfolding ca_read
  ca_read_cases t u (inl e) h = absurd (ground (arith, h))
  ca_read_cases t u (inr pem) h =
      let (p, made, same) = pool_made_cases t u (k.append_certs pem) h in (pem, p, refl, made, same)

  -- The name that the server's certificate must have, the address up to its first colon, or all of
  -- it if there is none; and whether it is checked at all.
  abbrev pub Names : Config → ClientTls Cert Pool → Type 0
  Names conf t =
      IsFirst conf.address ":" t.server_name × (t.insecure_skip_verify ≡ conf.skip_verify)

  with_client_cert_lem :
      (conf : Config) (t : ClientTls Cert Pool)
      → with_client_cert k conf (base_tls k conf) ≡ inr t
      → Names conf t × Certified conf t × (t.root_cas ≡ none)
  unfolding with_client_cert
  with_client_cert_lem conf t h = elim (Bool-cases (conf.tls_cert == "")) [
    | inl empty ↦
        let same = inr_eq (base_tls k conf) t (sym (if_true (conf.tls_cert == "") _ _ empty) ∙ h) in
        subst (λ x. Names conf x × Certified conf x × (x.root_cas ≡ none)) same
          ((first_part_lem conf.address, refl), inl (empty, refl), refl)
    | inr given ↦
        let (c, loaded, same) =
          cert_loaded_cases (base_tls k conf) t (k.load_key_pair conf.tls_cert conf.tls_key)
            (sym (if_false (conf.tls_cert == "") _ _ given) ∙ h) in
        subst (λ x. Names conf x × Certified conf x × (x.root_cas ≡ none)) (sym same)
          ((first_part_lem conf.address, refl), inr (c, loaded, refl), refl)
  ]

  with_client_ca_lem :
      (conf : Config) (t u : ClientTls Cert Pool)
      → t.root_cas ≡ none
      → with_client_ca k conf t ≡ inr u
      → Names conf t
      → Certified conf t
      → Names conf u × Certified conf u × Trusts conf u
  unfolding with_client_ca
  with_client_ca_lem conf t u bare h names cert = elim (Bool-cases (conf.ca_file == "")) [
    | inl empty ↦
        let same = inr_eq t u (sym (if_true (conf.ca_file == "") _ _ empty) ∙ h) in
        subst (λ x. Names conf x × Certified conf x × Trusts conf x) same
          (names, cert, inl (empty, bare))
    | inr given ↦
        let (pem, p, got, made, same) =
          ca_read_cases t u (k.read_file conf.ca_file)
            (sym (if_false (conf.ca_file == "") _ _ given) ∙ h) in
        subst (λ x. Names conf x × Certified conf x × Trusts conf x) (sym same)
          (names, cert, inr (pem, p, got, made, refl))
  ]

  -- The credentials that the settings ask for.
  abbrev pub asks_tls : Config → Bool
  asks_tls conf = conf.use_tls || not (conf.tls_cert == "")

  some_eq :
      (x y : Option (ClientTls Cert Pool))
      → ◌≡◌ {A = Error ⊎ Option (ClientTls Cert Pool)} (inr x) (inr y)
      → x ≡ y
  some_eq x y e = cc

  -- Credentials are insecure exactly where no TLS is asked for.
  abbrev pub Secured : Config → Option (ClientTls Cert Pool) → Type 0
  Secured conf o =
      ((asks_tls conf ≡ false) × (o ≡ none))
      ⊎ ((t : ClientTls Cert Pool) × (asks_tls conf ≡ true)
          × (o ≡ some t)
          × Names conf t
          × Certified conf t
          × Trusts conf t)

  client_credentials-Secured :
      (conf : Config) (o : Option (ClientTls Cert Pool))
      → client_credentials k conf ≡ inr o
      → Secured conf o
  unfolding client_credentials
  client_credentials-Secured conf o h = elim (Bool-cases (asks_tls conf)) [
    | inr off ↦ inl (off, sym (some_eq none o (sym (if_false (asks_tls conf) _ _ off) ∙ h)))
    | inl on ↦
        let (t, ok1, h1) =
          bind_inr (with_client_cert k conf (base_tls k conf)) _ o
            (sym (if_true (asks_tls conf) _ _ on) ∙ h) in
        let (u, ok2, h2) = bind_inr (with_client_ca k conf t) _ o h1 in
        let (names, cert, bare) = with_client_cert_lem conf t ok1 in
        let (names2, cert2, trusts) = with_client_ca_lem conf t u bare ok2 names cert in
        inr (u, on, sym (some_eq (some u) o h2), names2, cert2, trusts)
  ]

  -- What the password of the settings becomes.
  abbrev pub Authorizes : Config → Option String → Type 0
  Authorizes conf o =
      ((conf.password == "" ≡ true) × (o ≡ none))
      ⊎ ((conf.password == "" ≡ false) × (o ≡ some conf.password))

  -- The client of New: dialed without an error, with no refreshers, and with its settings.
  abbrev pub Dials :
      (String → Option (ClientTls Cert Pool) → Option Error) → Config → NewClient k → Type 0
  Dials dial conf n =
      (dial conf.address n.credentials ≡ none)
      × Authorizes conf n.authorization
      × (n.client.refresh_map ≡ [])
      × (n.client.max_retries ≡ conf.max_retries)

  new_eq : (x y : NewClient k) → ◌≡◌ {A = Error ⊎ NewClient k} (inr x) (inr y) → x ≡ y
  new_eq x y e = cc

  authorization_cases :
      (conf : Config)
      → Authorizes conf (if not (conf.password == "") then some conf.password else none)
  authorization_cases conf = elim (Bool-cases (conf.password == "")) [
    | inl empty ↦ inl (empty, if_false (not (conf.password == "")) _ _ (ground (arith, empty)))
    | inr given ↦ inr (given, if_true (not (conf.password == "")) _ _ (ground (arith, given)))
  ]

  dialed_cases :
      (dial : String → Option (ClientTls Cert Pool) → Option Error) (conf : Config)
      (creds : Option (ClientTls Cert Pool)) (r : Option Error) (n : NewClient k)
      → dial conf.address creds ≡ r
      → dialed k conf creds r ≡ inr n
      → (n.credentials ≡ creds) × Dials dial conf n
  unfolding dialed
  dialed_cases dial conf creds (some e) n d h = absurd (ground (arith, h))
  dialed_cases dial conf creds none n d h =
      subst (λ x. (x.credentials ≡ creds) × Dials dial conf x) (new_eq _ n h)
        (refl, (d, authorization_cases conf, refl, refl))

  -- Where New gives a client, its connection has TLS exactly if the settings ask for it, by UseTls
  -- or a certificate; it then expects the server's name to be the address up to its first colon,
  -- or all of it if there is none, skips that check exactly if SkipVerify is set, and holds the
  -- certificate and the CAs of the settings' files, and none without them. Dialing with these credentials gave no error, the
  -- password goes with the requests where it is not empty, and there are no refreshers yet.
  pub new-Secured :
      (dial : String → Option (ClientTls Cert Pool) → Option Error) (conf : Config)
      (n : NewClient k)
      → new k dial conf ≡ inr n
      → Secured conf n.credentials × Dials dial conf n
  unfolding new
  new-Secured dial conf n h =
      let (creds, ok, h2) = bind_inr (client_credentials k conf) _ n h in
      let (same, dials) = dialed_cases dial conf creds (dial conf.address creds) n refl h2 in
      (subst (λ x. Secured conf x) (sym same) (client_credentials-Secured conf creds ok), dials)
