-- ===== src/Grpc.antt =====
-- net/grpc/grpc.go: the gRPC service over the lock server. Messages are those of ldlm.proto, with a
-- session id for the context of a call.
pub mod Codes
use go_ldlm.Server.Interfaces.{LockManager}
use go_ldlm.Errors.{Error, Context}
use go_ldlm.Common.{
  pure, error_panic, Outcome, returns, panics, Method, ◌>>=◌, ◌>>◌, ℕ, String, ◌==◌, ◌⊎◌, inl, inr,
  Bool, false, Option, none, some, List, [], ◌∷◌, if◌then◌else◌, ℤ,
}
use Codes.{PbError, lock_err_to_proto_buff_err}
use go_ldlm.Server
use go_ldlm.Server.{Reply, Event, Server, Waiting}
use go_ldlm.Session.{SessionStorer}

pub record LockRequest : Type 0 where
  pub name : String
  pub size : Option ℤ
  pub lock_timeout_seconds : Option ℤ
  pub wait_timeout_seconds : Option ℤ

pub record LockResponse : Type 0 where
  pub locked : Bool
  pub name : String
  pub key : String
  pub error : Option PbError

pub record UnlockResponse : Type 0 where
  pub unlocked : Bool
  pub name : String
  pub error : Option PbError

-- A nil *Lock is replaced by an empty one.
unfoldable pub lock_response : String → Server.Reply → LockResponse
lock_response name (none, err) = record {
  locked = false;
  name = name;
  key = "";
  error = lock_err_to_proto_buff_err err;
}
lock_response name (some l, err) = record {
  locked = l.locked;
  name = name;
  key = l.key;
  error = lock_err_to_proto_buff_err err;
}

-- A request in the authorised state: the handler runs.
pub data Auth : Type 0 where
  missing_credentials invalid_credentials handled : Auth

module _ (lm : LockManager) (st : SessionStorer) where
  open lm use {State}
  open st use {Disk}

  abbrev pub Handler : Type 0 → Type 0
  Handler A = Method (Server State Disk) A

  lock_answer : String → Server.Reply ⊎ Waiting → Handler (LockResponse ⊎ Waiting)
  lock_answer name (inl reply) = pure (inl (lock_response name reply))
  lock_answer name (inr w) = pure (inr w)

  -- Lock up to its wait.
  unfoldable pub lock : Option String → LockRequest → String → ℕ → Handler (LockResponse ⊎ Waiting)
  unfolding lock_answer
  lock ctx req key now = do
    r ←
        Server.lock lm st ctx req.name req.size req.lock_timeout_seconds req.wait_timeout_seconds
          key now
    lock_answer req.name r

  -- Lock once the server answers.
  resumed : String → Option Server.Reply → Handler (Option LockResponse)
  resumed name none = pure none
  resumed name (some reply) = pure (some (lock_response name reply))

  unfoldable pub lock_resume : Waiting → Context → Server.Event → ℕ → Handler (Option LockResponse)
  unfolding resumed
  lock_resume w ctx event now = do r ← Server.lock_resume lm st w ctx event now; resumed w.name r

  unfoldable pub try_lock : Option String → LockRequest → String → ℕ → Handler LockResponse
  try_lock ctx req key now = do
    r ← Server.try_lock lm st ctx req.name req.size req.lock_timeout_seconds key now
    pure (lock_response req.name r)

  unlock_response : String → Bool × Option Error → UnlockResponse
  unlock_response name (unlocked, err) = record {
    unlocked = unlocked;
    name = name;
    error = lock_err_to_proto_buff_err err;
  }

  unfoldable pub unlock : Option String → String → String → ℕ → Handler UnlockResponse
  unfolding unlock_response
  unlock ctx name key now = do
    r ← Server.unlock lm st ctx name key now
    pure (unlock_response name r)

  unfoldable pub refresh_lock : String → String → ℤ → ℕ → Handler LockResponse
  refresh_lock name key lock_timeout now = do
    r ← Server.refresh_lock lm st name key lock_timeout now
    pure (lock_response name r)

-- authPasswordInterceptor: `md` is the "authorization" entry of the metadata, where there is one.
unfoldable pub auth_password : String → Option (List String) → Outcome Auth
auth_password password none = returns missing_credentials
auth_password password (some []) = panics (error_panic "index out of range")
auth_password password (some (given ∷ rest)) =
    returns (if given == password then handled else invalid_credentials)

-- What package stats tells of a connection; only its end matters.
pub data ConnStats : Type 0 where
  conn_begin conn_end : ConnStats

module _ (lm : LockManager) (st : SessionStorer) where
  open lm use {State}
  open st use {Disk}

  unfoldable pub handle_conn : Option String → ConnStats → ℕ → Handler lm st (Unit {0})
  handle_conn ctx conn_begin now = pure tt
  handle_conn ctx conn_end now = do Server.destroy_session lm st ctx now; pure tt

  -- The context that is returned carries the new session id. The address is only logged.
  unfoldable pub tag_conn : String → String → Server State Disk → Option String × Server State Disk
  tag_conn remote_addr session_id s = (some session_id, Server.create_session lm st session_id s)
