-- ===== src/Client/Dial.antt =====
-- New of client/client.go. Parameters are packages crypto/tls and crypto/x509, as for the server, and
-- the error of grpc.NewClient, by the address and the credentials. The credentials are none where they
-- are insecure. The metadata of the client's context has at most the key `authorization`.
pub mod Secured
use Prim.Native.String.{◌++◌ as ◌<>◌}
use go_ldlm.Client.{Client}
use go_ldlm.Security.{Crypto}
use go_ldlm.Errors.{Error, other, error_message, ◌>>=◌}
use go_ldlm.Common.{
  split, String, ◌==◌, ◌≡◌, ◌⊎◌, inl, inr, Bool, true, false, not, ◌||◌, Option, none, some, List,
  [], ◌∷◌, if◌then◌else◌, ℤ,
}

pub record Config : Type 0 where
  pub address : String
  pub no_auto_refresh : Bool
  pub use_tls : Bool
  pub skip_verify : Bool
  pub ca_file : String
  pub tls_cert : String
  pub tls_key : String
  pub password : String
  pub max_retries : ℤ

-- tls.Config
pub record ClientTls (Cert Pool : Type 0) : Type 0 where
  pub server_name : String
  pub insecure_skip_verify : Bool
  pub certificates : Option Cert
  pub root_cas : Option Pool

-- strings.Split(s, ":")[0]
abbrev pub first_part : List String → String
first_part [] = ""
first_part (x ∷ xs) = x

module _ (k : Crypto) where
  open k use {Cert, Pool}

  cert_loaded : ClientTls Cert Pool → Error ⊎ Cert → Error ⊎ ClientTls Cert Pool
  cert_loaded t (inl e) = inl (other ("error loading TlsCert and TlsKey: " <> error_message e))
  cert_loaded t (inr c) = inr (record t { certificates = some c })

  with_client_cert : Config → ClientTls Cert Pool → Error ⊎ ClientTls Cert Pool
  with_client_cert conf t =
      if conf.tls_cert == ""
      then inr t
      else cert_loaded t (k.load_key_pair conf.tls_cert conf.tls_key)

  pool_made : ClientTls Cert Pool → Option Pool → Error ⊎ ClientTls Cert Pool
  pool_made t none = inl (other "unknown error adding CA certificate to x509.CertPool")
  pool_made t (some p) = inr (record t { root_cas = some p })

  ca_read : ClientTls Cert Pool → Error ⊎ String → Error ⊎ ClientTls Cert Pool
  ca_read t (inl e) = inl (other ("failed to read CA certificate: " <> error_message e))
  ca_read t (inr pem) = pool_made t (k.append_certs pem)

  with_client_ca : Config → ClientTls Cert Pool → Error ⊎ ClientTls Cert Pool
  with_client_ca conf t = if conf.ca_file == "" then inr t else ca_read t (k.read_file conf.ca_file)

  abbrev pub base_tls : Config → ClientTls Cert Pool
  base_tls conf = record {
    server_name = first_part (split conf.address ":");
    insecure_skip_verify = conf.skip_verify;
    certificates = none;
    root_cas = none;
  }

  -- The credentials: none where they are insecure.
  unfoldable pub client_credentials : Config → Error ⊎ Option (ClientTls Cert Pool)
  unfolding cert_loaded with_client_cert pool_made ca_read with_client_ca
  client_credentials conf =
      if conf.use_tls || not (conf.tls_cert == "")
      then (do t ← with_client_cert conf (base_tls conf); u ← with_client_ca conf t; inr (some u))
      else inr none

  -- The client, with what its connection and its context were made from.
  pub record NewClient : Type 0 where
    pub address : String
    pub credentials : Option (ClientTls Cert Pool)
    pub authorization : Option String
    pub client : Client

  dialed : Config → Option (ClientTls Cert Pool) → Option Error → Error ⊎ NewClient
  dialed conf creds (some e) = inl e
  dialed conf creds none = inr (record {
    address = conf.address;
    credentials = creds;
    authorization = if not (conf.password == "") then some conf.password else none;
    client = record {
      refresh_map = [];
      goroutines = [];
      no_auto_refresh = conf.no_auto_refresh;
      max_retries = conf.max_retries;
    };
  })

  unfoldable pub new :
      (String → Option (ClientTls Cert Pool) → Option Error) → Config → Error ⊎ NewClient
  unfolding dialed
  new dial conf = do creds ← client_credentials conf; dialed conf creds (dial conf.address creds)
