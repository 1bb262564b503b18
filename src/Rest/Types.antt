-- ===== src/Rest/Types.antt =====
-- net/rest/types.go and the data of net/rest/rest.go; ValidatePassword.
use Prim.Native.String.{◌++◌ as ◌<>◌}
use go_ldlm.Errors.{Error}
use go_ldlm.Timer.{empty_timers, Timers}
use go_ldlm.Common.{
  Assoc, cut, split, Method, ℕ, zero, suc, String, ◌==◌, ◌⊎◌, inl, inr, Bool, true, false, Option,
  none, some, List, [], ◌∷◌, if◌then◌else◌,
}

abbrev pub session_cookie_name : String
session_cookie_name = "ldlm-session"

abbrev pub session_path : String
session_path = "/session"

-- `cookie` is r.Cookie(sessionCookieName).
pub record Request : Type 0 where
  pub method : String
  pub path : String
  pub authorization : String
  pub cookie : Error ⊎ String
  pub remote_addr : String

-- A cookie with its time of expiry, where it has one.
pub record Cookie : Type 0 where
  pub value : String
  pub expires : Option ℕ

pub record Response : Type 0 where
  pub status : ℕ
  pub headers : Assoc String
  pub set_cookie : Option Cookie
  pub body : String

-- Interface grpcLockServer: TagConn for a remote address, with the id that a new session gets, and
-- HandleConn for the end of a connection.
pub record GrpcLockServer : Type 1 where
  pub State : Type 0
  pub Ctx : Type 0
  pub tag_conn : String → String → State → Ctx × State
  pub conn_end : Ctx → ℕ → Method State (Unit {0})

pub record RestSession (Ctx : Type 0) : Type 0 where
  pub ctx : Ctx
  pub mtx : Bool

-- `heap` holds the sessions ever made; `sessions` points into it.
pub record RestHandler (State Ctx : Type 0) : Type 0 where
  pub sessions : Assoc ℕ
  pub heap : List (RestSession Ctx)
  pub sessions_mtx : Bool
  pub grpc_srv : State
  pub timer_mgr : Timers String

abbrev pub set_mtx : {Ctx : Type 0} → ℕ → Bool → List (RestSession Ctx) → List (RestSession Ctx)
set_mtx i b [] = []
set_mtx zero b (x ∷ xs) = record x { mtx = b } ∷ xs
set_mtx (suc i) b (x ∷ xs) = x ∷ set_mtx i b xs

-- What rest.go takes from elsewhere: runtime.ServeMux, base64.StdEncoding.DecodeString,
-- json.Marshal of an error, net.TCPAddr.String of an address without a port.
pub record Gateway (srv : GrpcLockServer) : Type 0 where
  pub mux : srv.Ctx → Request → ℕ → Method srv.State Response
  pub decode_string : String → Error ⊎ String
  pub error_json : Error → String
  pub tcp_address : String → String
  pub session_expiration : ℕ
  pub password : String

abbrev pub json_type : Assoc String
json_type = ("Content-Type", "application/json") ∷ []

abbrev pub refused : ℕ → Assoc String → String → Response
refused status headers body = record {
  status = status;
  headers = headers;
  set_cookie = none;
  body = body;
}

abbrev pub unauthorized : String → Response
unauthorized what = refused 401 json_type (
    "{\"error\": \"session cookie "
    <> (what <> (". create a new session at " <> (session_path <> "\"}"))))

abbrev pub new_handler : (srv : GrpcLockServer) → srv.State → RestHandler srv.State srv.Ctx
new_handler srv x = record {
  sessions = [];
  heap = [];
  sessions_mtx = false;
  grpc_srv = x;
  timer_mgr = empty_timers;
}

abbrev pub bad_password : Response
bad_password = refused 401 (("WWW-Authenticate", "Basic realm=\"Restricted\"") ∷ []) ""

module _ (srv : GrpcLockServer) (g : Gateway srv) where
  -- The function isValid of ValidatePassword.
  unfoldable pub password_given : List String → Bool
  password_given (front ∷ encoded ∷ []) = elim (g.decode_string encoded) [
    | inl e ↦ false
    | inr decoded ↦ elim (cut decoded ":") [
      | none ↦ false
      | some (user, given) ↦ given == g.password
    ]
  ]
  password_given parts = false

  unfoldable pub is_valid_password : Request → Bool
  unfolding password_given
  is_valid_password r =
      if g.password == "" then true else password_given (split r.authorization "Basic ")
