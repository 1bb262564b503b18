-- ===== src/Rest/Service.antt =====
-- The REST gateway of net/rest/rest.go in front of the gRPC service of net/grpc/grpc.go.
use go_ldlm.Session.Laws.{held_by, IsReliable}
use go_ldlm.Server.Interfaces.{LockManager, IsLockManager}
use go_ldlm.Session.Listed.{listed}
use go_ldlm.Server.Release.{keys_of, destroy_session_releases}
use go_ldlm.Rest.Ending.{on_timeout_ends_once}
use go_ldlm.Rest.Types.{RestHandler, Request, GrpcLockServer, Gateway}
use go_ldlm.Rest.{on_timeout}
use go_ldlm.Server.{Server}
use go_ldlm.Grpc.{conn_end}
use go_ldlm.Server
use go_ldlm.Session.{SessionStorer}
use go_ldlm.Common.{
  lookup, pure, continue, returns, ℕ, ◌-◌, String, ◌≡◌, refl, false, Option, none, some, get_elem?,
  ◌∙◌, inr, count,
}
use go_ldlm.Grpc

abbrev with_cookie : String → Request
with_cookie id = record {
  method = "DELETE";
  path = "/session";
  authorization = "";
  cookie = inr id;
  remote_addr = "";
}

module _ (lm : LockManager) (st : SessionStorer) where
  open lm use {State}
  open st use {Disk}

  -- The service as the gateway's interface: a context is the id of its session.
  abbrev pub service : GrpcLockServer
  service = record {
    State = Server State Disk;
    Ctx = Option String;
    tag_conn = Grpc.tag_conn lm st;
    conn_end = λ ctx now. Grpc.handle_conn lm st ctx conn_end now;
  }

  conn_end-destroy_session :
      (session_id : String) (now : ℕ) (x : Server State Disk)
      → (Server.destroy_session lm st (some session_id) now x).0 ≡ returns session_id
      → let r = Grpc.handle_conn lm st (some session_id) conn_end now x in
        (r.0 ≡ returns tt) × (r.1 ≡ (Server.destroy_session lm st (some session_id) now x).1)
  unfolding Grpc.handle_conn continue pure
  conn_end-destroy_session session_id now x ends = rw ends (refl, refl)

  module _ (good : IsLockManager lm) (g : Gateway service) where
    open good use {IsValid, view, down}

    -- When the timer of a REST session runs out, while no request of it is served, each lock that its
    -- session at the lock server lists is released once for each time it is listed and no other is;
    -- and the REST session is gone. The conditions: the lock manager keeps its promise, in a valid
    -- state and running, the store is reliable, the mutexes are free, and the server runs and clears
    -- locks on disconnect.
    pub rest_timeout_releases :
        IsReliable st
        → (id session_id : String) (now j : ℕ) (h : RestHandler (Server State Disk) (Option String))
        → h.sessions_mtx ≡ false
        → lookup id h.sessions ≡ some j
        → get_elem? h.heap j ≡ some (record { ctx = some session_id; mtx = false })
        → IsValid h.grpc_srv.lock_mgr
        → down h.grpc_srv.lock_mgr ≡ false
        → h.grpc_srv.is_shutdown ≡ false
        → h.grpc_srv.no_clear_on_disconnect ≡ false
        → let a = on_timeout service g id now h in
          let ls = held_by session_id h.grpc_srv.sess_mgr.session_locks in
          (a.0 ≡ returns tt)
          × (lookup id a.1.sessions ≡ none)
          × ((name key : String)
              → count key (keys_of lm st good a.1.grpc_srv name)
                ≡ count key (keys_of lm st good h.grpc_srv name) - listed name key ls)
    rest_timeout_releases ok id session_id now j h free at there v up on clears =
        let (ends, freed, lists, gone) =
          destroy_session_releases lm st good ok session_id now h.grpc_srv v up on clears in
        let (answer, same) = conn_end-destroy_session session_id now h.grpc_srv ends in
        let (done, served, absent, late) =
          on_timeout_ends_once service g (with_cookie id) id now now j
            (record { ctx = some session_id; mtx = false }) h free refl at there refl answer in
        (done, absent, λ name key. rw (served ∙ same) (freed name key))
