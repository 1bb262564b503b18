-- ===== src/Security.antt =====
-- net/security/security.go: the TLS settings of the services. Parameters are packages crypto/tls and
-- crypto/x509, and the reading of a file.
pub mod Laws
mod Tests
use Prim.Native.String.{◌++◌ as ◌<>◌}
use go_ldlm.Errors.{error_message, other, Error, ◌>>=◌}
use go_ldlm.Common.{
  String, ◌==◌, ◌⊎◌, inl, inr, Bool, true, false, not, ◌&&◌, Option, none, some, if◌then◌else◌,
}

pub record SecurityConfig : Type 0 where
  pub tls_cert : String
  pub tls_key : String
  pub client_cert_verify : Bool
  pub client_ca : String
  pub password : String

pub record Crypto : Type 1 where
  pub Cert : Type 0
  pub Pool : Type 0
  pub load_key_pair : String → String → Error ⊎ Cert
  pub read_file : String → Error ⊎ String
  pub append_certs : String → Option Pool  -- none where AppendCertsFromPEM answers false

-- tls.Config: `client_auth` is whether it is RequireAndVerifyClientCert.
pub record TlsConfig (Cert Pool : Type 0) : Type 0 where
  pub certificates : Option Cert
  pub client_cas : Option Pool
  pub client_auth : Bool

module _ (k : Crypto) where
  open k use {Cert, Pool}

  -- A configuration, and whether to use it.
  abbrev pub Settings : Type 0
  Settings = TlsConfig Cert Pool × Bool

  with_cert : Error ⊎ Cert → Error ⊎ Settings
  with_cert (inl e) = inl (other ("LoadX509KeyPair() error loading cert: " <> error_message e))
  with_cert (inr cert) =
      inr (record { certificates = some cert; client_cas = none; client_auth = false }, true)

  server_settings : SecurityConfig → Error ⊎ Settings
  server_settings conf =
      if conf.tls_cert == ""
      then inr (record { certificates = none; client_cas = none; client_auth = false }, false)
      else with_cert (k.load_key_pair conf.tls_cert conf.tls_key)

  with_pool : TlsConfig Cert Pool → Option Pool → Error ⊎ Settings
  with_pool t none = inl (other "AppendCertsFromPEM() failed to append client ca cert")
  with_pool t (some pool) = inr (record t { client_cas = some pool; client_auth = true }, true)

  with_ca : TlsConfig Cert Pool → Error ⊎ String → Error ⊎ Settings
  with_ca t (inl e) = inl (other ("os.ReadFile() failed to read ca cert: " <> error_message e))
  with_ca t (inr pem) = with_pool t (k.append_certs pem)

  client_settings : SecurityConfig → Settings → Error ⊎ Settings
  client_settings conf (t, use_tls) =
      if not (conf.client_ca == "")
      then with_ca t (k.read_file conf.client_ca)
      else if conf.client_cert_verify
      then inr (record t { client_auth = true }, true)
      else inr (t, use_tls)

  decided : SecurityConfig → Settings → Error ⊎ Option (TlsConfig Cert Pool)
  decided conf (t, use_tls) =
      if use_tls && (conf.tls_cert == "")
      then inl (other "client TLS certificate verification requires server TLS to be configured")
      else inr (if use_tls then some t else none)

  -- GetTLSConfig: none where no TLS is configured.
  unfoldable pub get_tls_config : SecurityConfig → Error ⊎ Option (TlsConfig Cert Pool)
  unfolding server_settings with_cert client_settings with_ca with_pool decided
  get_tls_config conf = do s ← server_settings conf; c ← client_settings conf s; decided conf c
