-- ===== src/Rest/Runs.antt =====
-- Runs of net/rest/rest.go: requests, timers that fire, and their functions, in any order.
use go_ldlm.Rest.Laws.{
  IsConsistent, validate_session-Keeps, same_tables, continue-Keeps, unlock_session-Changes, Keeps,
  bind-Keeps, deferred-Keeps, with_ctx-Keeps,
}
use go_ldlm.Rest.Types.{
  new_handler, is_valid_password, session_path, GrpcLockServer, Request, Cookie, Response,
  RestHandler, Gateway,
}
use go_ldlm.Rest.Steps.{
  on_timeout-Keeps, remove-Changes, either_way, tag_conn-Keeps, add_session-Keeps,
  destroy_session-Keeps,
}
use go_ldlm.Rest.{
  Handler, timer_function, on_timeout, validate_session, remote_ip, create_session, served,
  deferred, unlock_session, lock_sessions, serve_http, tag_conn,
}
use mathlib.Core.Path.{subst}
use go_ldlm.Timer
use go_ldlm.Timer.{Timers}
use go_ldlm.Timer.Laws.{empty_timers-IsLinked}
use go_ldlm.Rest.Expiry.{Quiet, fire-IsSound}
use go_ldlm.Common.{
  sym, ◌∙◌, eq_iff, arith, some, [], ◌∷◌, erase, Bool-cases, lookup, remove_all, pure, continue, ℕ,
  Bool, true, not, ◌&&◌, ◌==◌, if◌then◌else◌, refl, String, ◌≡◌, ◌⊎◌, inl, inr, false, none, List,
  contains,
}

-- The ids that a request may get are in use nowhere: uuid.NewString() does not repeat.
contains-erase :
    (id k : String) (ks : List String) → contains k (erase id ks) ≡ true → contains k ks ≡ true
contains-erase id k [] h = h
contains-erase id k (j ∷ ks) h = ground (arith, contains-erase id k ks, h)

module _ (srv : GrpcLockServer) (g : Gateway srv) where
  open srv use {State, Ctx}

  abbrev IsUnused : String → List String → RestHandler State Ctx → Type 0
  IsUnused uuid waiting h =
      (lookup (remove_all uuid "-") h.timer_mgr.timers ≡ none)
      × (contains (remove_all uuid "-") waiting ≡ false)

  create_session-Keeps :
      (waiting : List String) (r : Request) (uuid server_session : String) (now : ℕ)
      (h : RestHandler State Ctx)
      → IsUnused uuid waiting h
      → IsConsistent srv g waiting h
      → IsConsistent srv g waiting (create_session srv g r uuid server_session now h).1
  unfolding create_session lock_sessions pure continue tag_conn
  create_session-Keeps waiting r uuid server_session now h unused v =
      let (answer, tagged) = tag_conn srv g r.remote_addr server_session h in
      let ctx =
        (srv.tag_conn (g.tcp_address (remote_ip srv g r.remote_addr)) server_session
          h.grpc_srv).0 in
      let w = tag_conn-Keeps srv g waiting r.remote_addr server_session h v in
      either_way srv g waiting _ tt tagged _ h.sessions_mtx w (
        add_session-Keeps srv g waiting (remove_all uuid "-") ctx now _ unused.0 unused.1
          (same_tables srv g waiting true tagged.grpc_srv h.heap tagged refl w))

  choice :
      {A : Type 0} (waiting : List String) (m n : Handler srv g A) (b : Bool)
      (h : RestHandler State Ctx)
      → IsConsistent srv g waiting (m h).1
      → IsConsistent srv g waiting (n h).1
      → IsConsistent srv g waiting ((if b then m else n) h).1
  choice waiting m n true h v w = v
  choice waiting m n false h v w = w

  served-Keeps :
      (waiting : List String) (r : Request) (now : ℕ) (x : Response ⊎ (ℕ × Cookie))
      → Keeps srv g waiting (served srv g r now x)
  unfolding served pure
  served-Keeps waiting r now (inl resp) h v = v
  served-Keeps waiting r now (inr (i, c)) h v =
      bind-Keeps srv g waiting (deferred srv g (unlock_session srv g i) _) _
        (deferred-Keeps srv g waiting (unlock_session srv g i) _
          (unlock_session-Changes srv g waiting i)
          (with_ctx-Keeps srv g waiting i (λ ctx. g.mux ctx r now)))
        (λ resp h' w. w) h v

  pub serve_http-Keeps :
      (waiting : List String) (r : Request) (uuid server_session : String) (now : ℕ)
      (h : RestHandler State Ctx)
      → IsUnused uuid waiting h
      → IsConsistent srv g waiting h
      → IsConsistent srv g waiting (serve_http srv g r uuid server_session now h).1
  unfolding serve_http pure
  serve_http-Keeps waiting r uuid server_session now h unused v =
      choice waiting _ _ (not (is_valid_password srv g r)) h v (
        choice waiting _ _ ((r.path == session_path) && (r.method == "POST")) h
          (create_session-Keeps waiting r uuid server_session now h unused v)
          (choice waiting _ _ ((r.path == session_path) && (r.method == "DELETE")) h
            (destroy_session-Keeps srv g waiting r now h v)
            (bind-Keeps srv g waiting (validate_session srv g r now) _
              (validate_session-Keeps srv g waiting r now) (served-Keeps waiting r now) h v)))

  pub record System : Type 0 where
    pub handler : RestHandler State Ctx
    pub waiting : List String

  -- One step: a request with ids that are not in use, a timer that fires, or the function of a timer
  -- that has fired.
  pub data Step : System → System → Type 0 where
    requested :
        (r : Request) (uuid server_session : String) (now : ℕ) (s : System)
        → lookup (remove_all uuid "-") s.handler.timer_mgr.timers ≡ none
        → contains (remove_all uuid "-") s.waiting ≡ false
        → Step s (record s { handler = (serve_http srv g r uuid server_session now s.handler).1 })
    fires :
        (i now : ℕ) (id key : String) (timers : Timers String) (s : System)
        → Timer.fire i now s.handler.timer_mgr ≡ some ((id, key), timers)
        → Step s (record {
          handler = record (s.handler) { timer_mgr = timers };
          waiting = id ∷ s.waiting;
        })
    times_out :
        (id : String) (now : ℕ) (s : System)
        → contains id s.waiting ≡ true
        → Step s (record {
          handler = (timer_function srv g id now s.handler).1;
          waiting = erase id s.waiting;
        })

  pub data Reach (x : State) : System → Type 0 where
    start : Reach x (record { handler = new_handler srv x; waiting = [] })
    later : {s t : System} → Reach x s → Step s t → Reach x t

  timer_function-Keeps :
      (waiting : List String) (id : String) (now : ℕ) (h : RestHandler State Ctx)
      → Quiet id h.timer_mgr
      → IsConsistent srv g waiting h
      → IsConsistent srv g waiting (timer_function srv g id now h).1
  unfolding timer_function
  timer_function-Keeps waiting id now h q v =
      continue-Keeps srv g waiting (on_timeout srv g id now h).0 _
        (λ u. remove-Changes srv g waiting id) (on_timeout srv g id now h).1
        (on_timeout-Keeps srv g waiting id now h q v)

  fires-IsConsistent :
      (waiting : List String) (i now : ℕ) (id key : String) (timers : Timers String)
      (h : RestHandler State Ctx)
      → Timer.fire i now h.timer_mgr ≡ some ((id, key), timers)
      → IsConsistent srv g waiting h
      → IsConsistent srv g (id ∷ waiting) (record h { timer_mgr = timers })
  fires-IsConsistent waiting i now id key timers h e v =
      let (sound, calms, own, quiet) = fire-IsSound i now h.timer_mgr timers id key v.sound e in
      record {
        sound = sound;
        live = λ k absent. calms k (v.live k absent);
        stored = v.stored;
        fired = λ k there. elim (Bool-cases (id == k)) [
          | inl same ↦ subst (λ j. Quiet j timers) (sym own ∙ (eq_iff id k).0 same) quiet
          | inr differ ↦ calms k (v.fired k (ground (arith, there, differ)))
        ];
      }

  erase-IsConsistent :
      (waiting : List String) (id : String) (h : RestHandler State Ctx)
      → IsConsistent srv g waiting h
      → IsConsistent srv g (erase id waiting) h
  erase-IsConsistent waiting id h v = record {
    sound = v.sound;
    live = v.live;
    stored = v.stored;
    fired = λ k there. v.fired k (contains-erase id k waiting there);
  }

  Step-IsConsistent :
      {s t : System}
      → Step s t
      → IsConsistent srv g s.waiting s.handler
      → IsConsistent srv g t.waiting t.handler
  Step-IsConsistent (requested r uuid server_session now s unused not_waiting) v =
      serve_http-Keeps s.waiting r uuid server_session now s.handler (unused, not_waiting) v
  Step-IsConsistent (fires i now id key timers s e) v =
      fires-IsConsistent s.waiting i now id key timers s.handler e v
  Step-IsConsistent (times_out id now s there) v =
      erase-IsConsistent s.waiting id _
        (timer_function-Keeps s.waiting id now s.handler (v.fired id there) v)

  -- In every run of the gateway from its start, whatever requests come, timers fire and functions of
  -- timers run, and in whatever order: the timers agree with their map; the timer of a session is
  -- armed only while the session is in the table and its function is not waiting to run; and every
  -- entry of the table points to a session. The condition is that the ids of new sessions are fresh.
  pub Reach-IsConsistent :
      (x : State) (s : System) → Reach x s → IsConsistent srv g s.waiting s.handler
  unfolding lookup
  Reach-IsConsistent x s start = record {
    sound = record { linked = empty_timers-IsLinked; own = tt };
    live = λ id absent i e. cc;
    stored = λ id i e. cc;
    fired = λ id e. cc;
  }
  Reach-IsConsistent x s (later r step) = Step-IsConsistent step (Reach-IsConsistent x _ r)
