-- ===== src/Rest/Tests.antt =====
-- The theorems about net/rest at concrete inputs.
use go_ldlm.Manager
use go_ldlm.Lock
use go_ldlm.Grpc
use go_ldlm.Server
use go_ldlm.Session
use go_ldlm.Lock.{new_lock}
use go_ldlm.Manager.{find, put, get_lock}
use go_ldlm.Manager.Steps.{step, run, run-Inv, Call, try_locks}
use go_ldlm.Manager.Invariant.{new_manager-Inv}
use go_ldlm.Session.Laws.{held_by}
use go_ldlm.Session.Listed.{listed}
use go_ldlm.Server.Release.{keys_of}
use go_ldlm.Rest.Service.{rest_timeout_releases, service}
use go_ldlm.Manager.{Manager, new_manager}
use go_ldlm.Rest.Types.{
  bad_password, RestSession, GrpcLockServer, refused, Gateway, is_valid_password, RestHandler,
  Request, new_handler,
}
use go_ldlm.Server.{Server}
use go_ldlm.Errors.{other}
use go_ldlm.Rest.Runs.{Reach, start, later, requested, Reach-IsConsistent}
use go_ldlm.Rest.Laws.{IsConsistent}
use go_ldlm.Rest.Password.{CarriesPassword, serve_http_password}
use go_ldlm.Rest.Sessions.{Answers, validate_session-Answers, Stuck, second_request_blocks}
use go_ldlm.Rest.Ending.{gone, goodbye, destroy_session_ends_once}
use go_ldlm.Rest.{validate_session, destroy_session, on_timeout, create_session, serve_http}
use go_ldlm.Session.{SessionLocks}
use go_ldlm.Timer.{empty_timers}
use go_ldlm.Manager.Interface.{manager, manager-IsLockManager}
use go_ldlm.Session.Memory.{memory, memory-IsReliable}
use go_ldlm.Common.{
  lookup, ◌⊎◌, insert, cut, split, before_last, remove_all, ℕ, pure, continue, returns, true, pos,
  count, List, ◌∷◌, ◌-◌, blocks, String, ◌≡◌, refl, inl, inr, false, Option, none, some, [],
}
use go_ldlm.Timer

abbrev one_shard : String → ℕ
one_shard name = 0

abbrev backend : GrpcLockServer
backend = service (manager one_shard) memory

abbrev gw : Gateway backend
gw = record {
  mux = λ ctx r now x. (returns (refused 200 [] "{}"), x);
  decode_string = λ s. inr s;
  error_json = λ e. "{}";
  tcp_address = λ ip. ip;
  session_expiration = 600;
  password = "pw";
}

abbrev empty_server : Server Manager (Option SessionLocks)
empty_server = record {
  lock_mgr = new_manager 2;
  sess_mgr = record { session_locks = []; store = none };
  lock_timers = empty_timers;
  is_shutdown = false;
  no_clear_on_disconnect = false;
}

abbrev post : Request
post = record {
  method = "POST";
  path = "/session";
  authorization = "Basic u:pw";
  cookie = inl (other "no cookie");
  remote_addr = "[::1]:80";
}

abbrev get : Request
get = record {
  method = "POST";
  path = "/v1/lock";
  authorization = "Basic u:pw";
  cookie = inr "s1";
  remote_addr = "[::1]:80";
}

abbrev opened : RestHandler (Server Manager (Option SessionLocks)) (Option String)
opened = (serve_http backend gw post "s-1" "srv1" 5 (new_handler backend empty_server)).1

reached : Reach backend gw empty_server (record { handler = opened; waiting = [] })
unfolding lookup
reached = later start (requested post "s-1" "srv1" 5 _ refl refl)

Reach-IsConsistent_example : IsConsistent backend gw [] opened
Reach-IsConsistent_example =
    Reach-IsConsistent backend gw empty_server (record { handler = opened; waiting = [] }) reached

opened-IsConsistent : IsConsistent backend gw [] opened
opened-IsConsistent = Reach-IsConsistent backend gw empty_server _ reached

validate_session-Answers_example :
    Answers backend gw "s1" 6 opened (validate_session backend gw get 6 opened)
unfolding serve_http create_session is_valid_password split cut lookup insert remove_all before_last
    Timer.add continue pure
validate_session-Answers_example =
    validate_session-Answers backend gw [] get "s1" 6 opened opened-IsConsistent refl refl

-- While a request is being served.
abbrev serving : RestHandler (Server Manager (Option SessionLocks)) (Option String)
serving = (validate_session backend gw get 6 opened).1

second_request_blocks_example :
    let a = validate_session backend gw get 7 serving in (a.0 ≡ blocks) × Stuck backend gw a.1
unfolding serve_http validate_session Timer.refresh create_session is_valid_password split cut
    lookup insert remove_all before_last Timer.add continue pure Grpc.tag_conn
second_request_blocks_example =
    second_request_blocks backend gw get "s1" 7 0 0 (record { ctx = some "srv1"; mtx = true })
      serving refl refl refl refl refl refl refl

abbrev one : RestSession (Option String)
one = record { ctx = some "srv1"; mtx = false }

destroy_session_ends_once_example :
    let a = destroy_session backend gw get 7 opened in
    (a.0 ≡ returns (goodbye backend gw))
    × (a.1.grpc_srv ≡ (backend.conn_end one.ctx 7 opened.grpc_srv).1)
    × (lookup "s1" a.1.sessions ≡ none)
    × (on_timeout backend gw "s1" 8 a.1 ≡ (returns tt, a.1))
    × (destroy_session backend gw get 8 a.1 ≡ (returns (gone backend gw), a.1))
unfolding serve_http create_session is_valid_password split cut lookup insert remove_all before_last
    Timer.add continue pure Grpc.tag_conn Grpc.handle_conn Server.destroy_session
    Server.create_session Server.on_sessions Session.destroy_session Session.create_session
    Session.save
destroy_session_ends_once_example =
    destroy_session_ends_once backend gw get "s1" 7 8 0 one opened refl refl refl refl refl refl

abbrev history : List (ℕ × Call)
history = (5, try_locks "a" "k1" (pos 1)) ∷ []

abbrev busy : Manager
busy = run one_shard (new_manager 2) history

busy_up : busy.is_shutdown ≡ false
unfolding run step new_manager Manager.try_lock get_lock put find Lock.try_lock new_lock lookup
    insert
busy_up = refl

-- A REST session "r1" of the lock server's session "s1", which holds a lock.
abbrev owning : RestHandler (Server Manager (Option SessionLocks)) (Option String)
owning = record {
  sessions = ("r1", 0) ∷ [];
  heap = record { ctx = some "s1"; mtx = false } ∷ [];
  sessions_mtx = false;
  grpc_srv = record empty_server {
    lock_mgr = busy;
    sess_mgr = record {
      session_locks = ("s1", some (record { name = "a"; key = "k1"; size = pos 1 } ∷ [])) ∷ [];
      store = none;
    };
  };
  timer_mgr = empty_timers;
}

rest_timeout_releases_example :
    let a = on_timeout backend gw "r1" 700 owning in
    (a.0 ≡ returns tt)
    × (lookup "r1" a.1.sessions ≡ none)
    × ((name key : String)
        → count key
            (keys_of (manager one_shard) memory (manager-IsLockManager one_shard) a.1.grpc_srv name)
          ≡ count key (
              keys_of
                (manager one_shard)
                memory
                (manager-IsLockManager one_shard)
                owning.grpc_srv
                name)
            - listed name key (held_by "s1" owning.grpc_srv.sess_mgr.session_locks))
unfolding lookup manager-IsLockManager
rest_timeout_releases_example =
    rest_timeout_releases (manager one_shard) memory (manager-IsLockManager one_shard) gw
      memory-IsReliable "r1" "s1" 700 0 owning refl refl refl
      (run-Inv one_shard (new_manager 2) history (new_manager-Inv one_shard 2)) busy_up refl refl

serve_http_password_example :
    (serve_http backend gw post "s-1" "srv1" 5 opened ≡ (returns bad_password, opened))
    ⊎ ((gw.password ≡ "") ⊎ CarriesPassword backend gw post)
serve_http_password_example = serve_http_password backend gw post "s-1" "srv1" 5 opened
