-- ===== src/Rest.antt =====
-- net/rest/rest.go: the REST gateway in front of the gRPC service. Parameters are the service (an
-- interface of net/rest/types.go), the multiplexer that turns a request into a gRPC call, base64, the
-- encoding of an error as JSON and the text of a TCP address. A mutex is a Boolean: a call that has to
-- wait for one blocks, and what it did before is kept.
pub mod Types
mod Expiry
pub mod Laws
mod Steps
pub mod Runs
pub mod Sessions
pub mod Ending
pub mod Password
pub mod Service
mod Tests
use Prim.Native.String.{◌++◌ as ◌<>◌}
use go_ldlm.Timer
use go_ldlm.Errors.{Error}
use go_ldlm.Timer.{empty_timers, Timers}
use go_ldlm.Common.{
  delete, insert, not, ◌&&◌, ◌++◌, length, lookup, Assoc, cut, split, before_last, remove_all, pure,
  error_panic, returns, panics, blocks, Outcome, Method, ◌>>=◌, ◌>>◌, ℕ, zero, suc, ◌+◌, String,
  ◌==◌, ◌⊎◌, inl, inr, Bool, true, false, Option, none, some, List, [], ◌∷◌, if◌then◌else◌,
  get_elem?,
}
use Types.{
  session_path, Request, Cookie, Response, GrpcLockServer, RestSession, RestHandler, set_mtx,
  Gateway, json_type, refused, unauthorized, is_valid_password, bad_password,
}

module _ (srv : GrpcLockServer) (g : Gateway srv) where
  open srv use {State, Ctx}

  abbrev pub Handler : Type 0 → Type 0
  Handler A = Method (RestHandler State Ctx) A

  pub lock_sessions : Handler (Unit {0})
  lock_sessions h =
      if h.sessions_mtx then (blocks, h) else (returns tt, record h { sessions_mtx = true })

  unlock_sessions : Handler (Unit {0})
  unlock_sessions h = (returns tt, record h { sessions_mtx = false })

  -- s.mtx.Lock(), where s may be nil
  pub lock_session : Option ℕ → Handler ℕ
  lock_session none h = (panics (error_panic "nil pointer dereference"), h)
  lock_session (some i) h = elim (get_elem? h.heap i) [
    | none ↦ (panics (error_panic "nil pointer dereference"), h)
    | some s ↦ if s.mtx then (blocks, h) else (returns i, record h { heap = set_mtx i true h.heap })
  ]

  pub unlock_session : ℕ → RestHandler State Ctx → RestHandler State Ctx
  unlock_session i h = record h { heap = set_mtx i false h.heap }

  -- A deferred function runs after a return and in a panic, but not while the call blocks.
  pub after : {A : Type 0} → (RestHandler State Ctx → RestHandler State Ctx) → Outcome A → Handler A
  after f (returns a) h = (returns a, f h)
  after f (panics e) h = (panics e, f h)
  after f blocks h = (blocks, h)

  pub deferred :
      {A : Type 0} → (RestHandler State Ctx → RestHandler State Ctx) → Handler A → Handler A
  deferred f m h = let (r, h') = m h in after f r h'

  pub on_server : {A : Type 0} → Method State A → Handler A
  on_server m h = let (r, x) = m h.grpc_srv in (r, record h { grpc_srv = x })

  pub with_ctx : {A : Type 0} → ℕ → (Ctx → Method State A) → Handler A
  with_ctx i m h = elim (get_elem? h.heap i) [
    | none ↦ (panics (error_panic "nil pointer dereference"), h)
    | some s ↦ on_server (m s.ctx) h
  ]

  abbrev pub session_cookie : String → ℕ → Cookie
  session_cookie id now = record { value = id; expires = some (now + g.session_expiration) }

  -- ValidateSession after the timer has been refreshed, with its deferred Unlock.
  pub refreshed : String → ℕ → Bool × Option Error → Handler (Response ⊎ (ℕ × Cookie))
  refreshed id now (true, none) = do
    i ← λ h. lock_session (lookup id h.sessions) h
    pure (inr (i, session_cookie id now))
  refreshed id now (true, some e) = pure (inl (unauthorized "invalid or expired"))
  refreshed id now (false, err) = pure (inl (unauthorized "invalid or expired"))

  pub refresh_timer : String → ℕ → Handler (Bool × Option Error)
  refresh_timer id now h =
      let (r, timers) = Timer.refresh id now g.session_expiration h.timer_mgr in
      (returns r, record h { timer_mgr = timers })

  unfoldable pub validate_session : Request → ℕ → Handler (Response ⊎ (ℕ × Cookie))
  unfolding refreshed refresh_timer lock_session lock_sessions unlock_sessions deferred after
  validate_session r now = elim r.cookie [
    | inl err ↦ pure (inl (unauthorized "not found"))
    | inr id ↦ do
      lock_sessions
      deferred (λ h. record h { sessions_mtx = false })
          (do ok ← refresh_timer id now; refreshed id now ok)
  ]

  -- The end of a session that was taken out of the map: s.mtx is held meanwhile.
  end_session : ℕ → ℕ → Handler (Unit {0})
  end_session i now = deferred (unlock_session i) (with_ctx i (λ ctx. srv.conn_end ctx now))

  -- DestroySession once sessionsMtx is held.
  destroy_found : String → Option ℕ → ℕ → Handler Response
  destroy_found id none now = do
    unlock_sessions
    pure (refused 409 [] "{\"error\": \"session not found\"}")
  destroy_found id (some i) now = do
    λ h. (
      returns tt,
      record h { timer_mgr = Timer.remove id h.timer_mgr; sessions = delete id h.sessions },
    )
    unlock_sessions
    lock_session (some i)
    end_session i now
    pure (record {
      status = 200;
      headers = json_type;
      set_cookie = some (record { value = ""; expires = none });
      body = "{\"session_id\": \"\"}";
    })

  unfoldable pub destroy_session : Request → ℕ → Handler Response
  unfolding destroy_found lock_session lock_sessions unlock_sessions deferred after end_session
      with_ctx on_server unlock_session
  destroy_session r now = elim r.cookie [
    | inl err ↦ pure (refused 500 [] (g.error_json err))
    | inr id ↦ do lock_sessions; λ h. destroy_found id (lookup id h.sessions) now h
  ]

  -- The address without its port.
  pub remote_ip : String → String
  remote_ip addr = elim (before_last ":" (split addr ":")) [ none ↦ "0.0.0.0" | some ip ↦ ip ]

  -- CreateSession once sessionsMtx is held, and its Unlock.
  pub add_session : String → Ctx → ℕ → Handler (Unit {0})
  add_session id ctx now h = (
    returns tt,
    record h {
      sessions = insert id (length h.heap) h.sessions;
      heap = h.heap ++ record { ctx = ctx; mtx = false } ∷ [];
      timer_mgr = Timer.add id id now g.session_expiration h.timer_mgr;
      sessions_mtx = false;
    },
  )

  pub tag_conn : String → String → Handler Ctx
  tag_conn addr server_session h =
      let (ctx, x) = srv.tag_conn (g.tcp_address (remote_ip addr)) server_session h.grpc_srv in
      (returns ctx, record h { grpc_srv = x })

  -- `uuid` is the new id of the REST session, `server_session` that of the lock server's.
  unfoldable pub create_session : Request → String → String → ℕ → Handler Response
  unfolding tag_conn add_session lock_sessions remote_ip
  create_session r uuid server_session now = do
    ctx ← tag_conn r.remote_addr server_session
    lock_sessions
    add_session (remove_all uuid "-") ctx now
    pure (record {
      status = 201;
      headers = json_type;
      set_cookie = some (session_cookie (remove_all uuid "-") now);
      body = "{\"session_id\": \"" <> (remove_all uuid "-" <> "\"}");
    })

  -- onTimeoutFunc once sessionsMtx is held.
  timeout_found : String → Option ℕ → ℕ → Handler (Unit {0})
  timeout_found id none now = unlock_sessions
  timeout_found id (some i) now = do
    λ h. (returns tt, record h { sessions = delete id h.sessions })
    lock_session (some i)
    unlock_sessions
    end_session i now

  unfoldable pub on_timeout : String → ℕ → Handler (Unit {0})
  unfolding timeout_found lock_session lock_sessions unlock_sessions deferred after end_session
      with_ctx on_server unlock_session
  on_timeout id now = do lock_sessions; λ h. timeout_found id (lookup id h.sessions) now h

  -- The function of a session's timer (timer.Add): it removes the timer in the end.
  unfoldable pub timer_function : String → ℕ → Handler (Unit {0})
  timer_function id now = do
    on_timeout id now
    λ h. (returns tt, record h { timer_mgr = Timer.remove id h.timer_mgr })

  add_cookie : Cookie → Response → Response
  add_cookie c resp = record resp { set_cookie = some c }

  -- ServeHTTP after ValidateSession.
  pub served : Request → ℕ → Response ⊎ (ℕ × Cookie) → Handler Response
  served r now (inl resp) = pure resp
  served r now (inr (i, c)) = do
    resp ← deferred (unlock_session i) (with_ctx i (λ ctx. g.mux ctx r now))
    pure (add_cookie c resp)

  unfoldable pub serve_http : Request → String → String → ℕ → Handler Response
  unfolding served with_ctx on_server deferred after unlock_session add_cookie
  serve_http r uuid server_session now =
      if not (is_valid_password srv g r)
      then pure bad_password
      else if (r.path == session_path) && (r.method == "POST")
      then create_session r uuid server_session now
      else if (r.path == session_path) && (r.method == "DELETE")
      then destroy_session r now
      else do v ← validate_session r now; served r now v
