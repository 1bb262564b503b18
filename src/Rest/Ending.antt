-- ===== src/Rest/Ending.antt =====
-- The end of a REST session (net/rest/rest.go), by request or by timeout: once.
use go_ldlm.Rest.Types.{
  refused, Request, GrpcLockServer, set_mtx, json_type, RestHandler, Response, Gateway, RestSession,
}
use go_ldlm.Rest.{destroy_session, on_timeout, lock_session, lock_sessions, unlock_session}
use go_ldlm.Timer.{Timers}
use go_ldlm.Common.{
  lookup, delete, Assoc, lookup-delete, pure, continue, returns, ℕ, zero, suc, String, eq_iff, ◌≡◌,
  refl, inr, Bool, true, false, none, some, List, [], ◌∷◌, arith, get_elem?,
}
use go_ldlm.Timer

get_elem?-set_mtx :
    {Ctx : Type 0} (xs : List (RestSession Ctx)) (j : ℕ) (b : Bool) (s : RestSession Ctx)
    → get_elem? xs j ≡ some s
    → get_elem? (set_mtx j b xs) j ≡ some (record s { mtx = b })
get_elem?-set_mtx [] j b s e = cc
get_elem?-set_mtx (x ∷ xs) zero b s e = ground (arith, e)
get_elem?-set_mtx (x ∷ xs) (suc j) b s e = get_elem?-set_mtx xs j b s e

lookup-delete_self : {V : Type 0} (k : String) (m : Assoc V) → lookup k (delete k m) ≡ none
lookup-delete_self k m = ground (arith, lookup-delete k k m, eq_iff k k)

module _ (srv : GrpcLockServer) (g : Gateway srv) where
  open srv use {State, Ctx}

  abbrev pub gone : Response
  gone = refused 409 [] "{\"error\": \"session not found\"}"

  abbrev pub goodbye : Response
  goodbye = record {
    status = 200;
    headers = json_type;
    set_cookie = some (record { value = ""; expires = none });
    body = "{\"session_id\": \"\"}";
  }

  -- The handler after a session has ended.
  abbrev ended :
      String
      → ℕ
      → ℕ
      → RestSession Ctx
      → Timers String
      → RestHandler State Ctx
      → RestHandler State Ctx
  ended id j now s m h = record {
    sessions = delete id h.sessions;
    heap = set_mtx j false (set_mtx j true h.heap);
    sessions_mtx = false;
    grpc_srv = (srv.conn_end s.ctx now h.grpc_srv).1;
    timer_mgr = m;
  }

  destroy_ends :
      (r : Request) (id : String) (now j : ℕ) (s : RestSession Ctx) (h : RestHandler State Ctx)
      → h.sessions_mtx ≡ false
      → r.cookie ≡ inr id
      → lookup id h.sessions ≡ some j
      → get_elem? h.heap j ≡ some s
      → s.mtx ≡ false
      → (srv.conn_end s.ctx now h.grpc_srv).0 ≡ returns tt
      → destroy_session srv g r now h
        ≡ (returns goodbye, ended id j now s (Timer.remove id h.timer_mgr) h)
  unfolding destroy_session lock_sessions lock_session unlock_session pure continue
  destroy_ends r id now j s h free cookie listed there idle ends =
      let held = get_elem?-set_mtx h.heap j true s there in
      rw (cookie, free, listed, there, idle, held, ends) refl

  destroy_gone :
      (r : Request) (id : String) (now : ℕ) (h : RestHandler State Ctx)
      → h.sessions_mtx ≡ false
      → r.cookie ≡ inr id
      → lookup id h.sessions ≡ none
      → destroy_session srv g r now h ≡ (returns gone, record h { sessions_mtx = false })
  unfolding destroy_session lock_sessions pure continue
  destroy_gone r id now h free cookie absent = rw (cookie, free, absent) refl

  timeout_ends :
      (id : String) (now j : ℕ) (s : RestSession Ctx) (h : RestHandler State Ctx)
      → h.sessions_mtx ≡ false
      → lookup id h.sessions ≡ some j
      → get_elem? h.heap j ≡ some s
      → s.mtx ≡ false
      → (srv.conn_end s.ctx now h.grpc_srv).0 ≡ returns tt
      → on_timeout srv g id now h ≡ (returns tt, ended id j now s h.timer_mgr h)
  unfolding on_timeout lock_sessions lock_session unlock_session pure continue
  timeout_ends id now j s h free listed there idle ends =
      let held = get_elem?-set_mtx h.heap j true s there in
      rw (free, listed, there, idle, held, ends) refl

  timeout_gone :
      (id : String) (now : ℕ) (h : RestHandler State Ctx)
      → h.sessions_mtx ≡ false
      → lookup id h.sessions ≡ none
      → on_timeout srv g id now h ≡ (returns tt, record h { sessions_mtx = false })
  unfolding on_timeout lock_sessions pure continue
  timeout_gone id now h free absent = rw (free, absent) refl

  -- Where both mutexes are free and the session is in the table: DestroySession with its cookie ends
  -- the session's connection at the service, once, and takes it out of the table; the session's
  -- timeout, should it have fired meanwhile, and a second DestroySession then leave the service alone,
  -- the latter with status 409. The condition is that the end of the connection returns.
  pub destroy_session_ends_once :
      (r : Request) (id : String) (now later j : ℕ) (s : RestSession Ctx)
      (h : RestHandler State Ctx)
      → h.sessions_mtx ≡ false
      → r.cookie ≡ inr id
      → lookup id h.sessions ≡ some j
      → get_elem? h.heap j ≡ some s
      → s.mtx ≡ false
      → (srv.conn_end s.ctx now h.grpc_srv).0 ≡ returns tt
      → let a = destroy_session srv g r now h in
        (a.0 ≡ returns goodbye)
        × (a.1.grpc_srv ≡ (srv.conn_end s.ctx now h.grpc_srv).1)
        × (lookup id a.1.sessions ≡ none)
        × (on_timeout srv g id later a.1 ≡ (returns tt, a.1))
        × (destroy_session srv g r later a.1 ≡ (returns gone, a.1))
  destroy_session_ends_once r id now later j s h free cookie listed there idle ends =
      let x = ended id j now s (Timer.remove id h.timer_mgr) h in
      let absent : lookup id x.sessions ≡ none = lookup-delete_self id h.sessions in
      rw (destroy_ends r id now j s h free cookie listed there idle ends) (
        refl,
        refl,
        absent,
        timeout_gone id later x refl absent,
        destroy_gone r id later x refl cookie absent,
      )

  -- Likewise, the function of a session's timer ends the session once, and a DestroySession that comes
  -- too late is answered with status 409 and leaves the service alone.
  pub on_timeout_ends_once :
      (r : Request) (id : String) (now later j : ℕ) (s : RestSession Ctx)
      (h : RestHandler State Ctx)
      → h.sessions_mtx ≡ false
      → r.cookie ≡ inr id
      → lookup id h.sessions ≡ some j
      → get_elem? h.heap j ≡ some s
      → s.mtx ≡ false
      → (srv.conn_end s.ctx now h.grpc_srv).0 ≡ returns tt
      → let a = on_timeout srv g id now h in
        (a.0 ≡ returns tt)
        × (a.1.grpc_srv ≡ (srv.conn_end s.ctx now h.grpc_srv).1)
        × (lookup id a.1.sessions ≡ none)
        × (destroy_session srv g r later a.1 ≡ (returns gone, a.1))
  on_timeout_ends_once r id now later j s h free cookie listed there idle ends =
      let x = ended id j now s h.timer_mgr h in
      let absent : lookup id x.sessions ≡ none = lookup-delete_self id h.sessions in
      rw (timeout_ends id now j s h free listed there idle ends)
        (refl, refl, absent, destroy_gone r id later x refl cookie absent)
