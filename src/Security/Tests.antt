-- ===== src/Security/Tests.antt =====
-- The theorem about net/security at a configuration that verifies clients.
use go_ldlm.Security.{Crypto, SecurityConfig, TlsConfig, get_tls_config}
use go_ldlm.Security.Laws.{get_tls_config_lem, asks_clients}
use go_ldlm.Common.{String, ◌≡◌, ◌⊎◌, ◌==◌, refl, inr, true, false, some, none}

abbrev texts : Crypto
texts = record {
  Cert = String × String;
  Pool = String;
  load_key_pair = λ cert key. inr (cert, key);
  read_file = λ name. inr name;
  append_certs = λ pem. some pem;
}

abbrev strict : SecurityConfig
strict = record {
  tls_cert = "cert.pem";
  tls_key = "key.pem";
  client_cert_verify = false;
  client_ca = "ca.pem";
  password = "";
}

get_tls_config_lem_example :
    let t : TlsConfig (String × String) String = record {
      certificates = some ("cert.pem", "key.pem");
      client_cas = some "ca.pem";
      client_auth = true;
    } in
    ((some t ≡ none) × (strict.tls_cert == "" ≡ true) × (asks_clients texts strict ≡ false))
    ⊎ ((t' : TlsConfig (String × String) String) × (c : String × String) × (some t ≡ some t')
        × (strict.tls_cert == "" ≡ false)
        × (texts.load_key_pair strict.tls_cert strict.tls_key ≡ inr c)
        × (t'.certificates ≡ some c)
        × (t'.client_auth ≡ asks_clients texts strict))
unfolding get_tls_config
get_tls_config_lem_example = get_tls_config_lem texts strict _ refl
