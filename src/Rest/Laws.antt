-- ===== src/Rest/Laws.antt =====
-- The handlers of net/rest/rest.go keep their session table in step with the timers.
use go_ldlm.Rest.Expiry.{IsSound, Quiet, refresh-IsSound}
use go_ldlm.Rest.Types.{RestSession, RestHandler, set_mtx, Gateway, Request, GrpcLockServer}
use go_ldlm.Rest.{
  Handler, lock_sessions, unlock_session, after, deferred, lock_session, on_server, with_ctx,
  refresh_timer, refreshed, validate_session,
}
use go_ldlm.Common.{
  lookup, continue, Outcome, returns, panics, blocks, ◌>>=◌, ℕ, zero, suc, ◌<◌, String, ◌≡◌, refl,
  ap, inl, inr, Bool, true, false, none, some, List, [], ◌∷◌, arith, Option-cases, if◌then◌else◌,
  get_elem?, Option, ◌⊎◌, Method, pure, length, contains,
}
use go_ldlm.Errors.{Error}

module _ (srv : GrpcLockServer) (g : Gateway srv) where
  open srv use {State, Ctx}

  -- `waiting` are the sessions whose timer has fired and whose function has still to run. A session's
  -- timer is armed only while the session is in the table and its function is not waiting.
  pub record IsConsistent (waiting : List String) (h : RestHandler State Ctx) : Type 0 where
    pub sound : IsSound h.timer_mgr
    pub live : (id : String) → lookup id h.sessions ≡ none → Quiet id h.timer_mgr
    pub stored : (id : String) (i : ℕ) → lookup id h.sessions ≡ some i → i < length h.heap
    pub fired : (id : String) → contains id waiting ≡ true → Quiet id h.timer_mgr

  length-set_mtx :
      (i : ℕ) (b : Bool) (xs : List (RestSession Ctx)) → length (set_mtx i b xs) ≡ length xs
  length-set_mtx i b [] = refl
  length-set_mtx zero b (x ∷ xs) = refl
  length-set_mtx (suc i) b (x ∷ xs) = ap suc (length-set_mtx i b xs)

  module _ (waiting : List String) where
    abbrev pub Keeps : {A : Type 0} → Handler srv g A → Type 0
    Keeps m = (h : RestHandler State Ctx) → IsConsistent waiting h → IsConsistent waiting (m h).1

    abbrev pub Changes : (RestHandler State Ctx → RestHandler State Ctx) → Type 0
    Changes f = (h : RestHandler State Ctx) → IsConsistent waiting h → IsConsistent waiting (f h)

    pub either :
        {A : Type 0} (r r' : Outcome A × RestHandler State Ctx) (b : Bool)
        → IsConsistent waiting r.1
        → IsConsistent waiting r'.1
        → IsConsistent waiting (if b then r else r').1
    either r r' true v w = v
    either r r' false v w = w

    pub continue-Keeps :
        {A B : Type 0} (r : Outcome A) (f : A → Handler srv g B)
        → ((a : A) → Keeps (f a))
        → Keeps (continue r f)
    unfolding continue
    continue-Keeps (returns a) f k h v = k a h v
    continue-Keeps (panics e) f k h v = v
    continue-Keeps blocks f k h v = v

    -- One call after the other.
    pub bind-Keeps :
        {A B : Type 0} (m : Handler srv g A) (f : A → Handler srv g B)
        → Keeps m
        → ((a : A) → Keeps (f a))
        → Keeps (m >>= f)
    bind-Keeps m f km kf h v = continue-Keeps (m h).0 f kf (m h).1 (km h v)

    pub after-Keeps :
        {A : Type 0} (f : RestHandler State Ctx → RestHandler State Ctx) (r : Outcome A)
        → Changes f
        → Keeps (after srv g f r)
    unfolding after
    after-Keeps f (returns a) k h v = k h v
    after-Keeps f (panics e) k h v = k h v
    after-Keeps f blocks k h v = v

    pub deferred-Keeps :
        {A : Type 0} (f : RestHandler State Ctx → RestHandler State Ctx) (m : Handler srv g A)
        → Changes f
        → Keeps m
        → Keeps (deferred srv g f m)
    unfolding deferred
    deferred-Keeps f m kf km h v = after-Keeps f (m h).0 kf (m h).1 (km h v)

    -- A change of the mutexes and of the service alone.
    pub same_tables :
        (b : Bool) (x : State) (heap : List (RestSession Ctx)) (h : RestHandler State Ctx)
        → length heap ≡ length h.heap
        → IsConsistent waiting h
        → IsConsistent waiting (record h { sessions_mtx = b; grpc_srv = x; heap = heap })
    same_tables b x heap h e v = record {
      sound = v.sound;
      live = v.live;
      stored = λ id i hit. omega (arith, v.stored id i hit);
      fired = v.fired;
    }

    pub unlock_session-Changes : (i : ℕ) → Changes (unlock_session srv g i)
    unfolding unlock_session
    unlock_session-Changes i h v =
        same_tables h.sessions_mtx h.grpc_srv (set_mtx i false h.heap) h
          (length-set_mtx i false h.heap) v

    pub lock_sessions-Keeps : Keeps (lock_sessions srv g)
    unfolding lock_sessions
    lock_sessions-Keeps h v =
        either _ _ h.sessions_mtx v (same_tables true h.grpc_srv h.heap h refl v)

    pub unlock_sessions-Changes : Changes (λ h. record h { sessions_mtx = false })
    unlock_sessions-Changes h v = same_tables false h.grpc_srv h.heap h refl v

    pub lock_session-Keeps : (o : Option ℕ) → Keeps (lock_session srv g o)
    unfolding lock_session
    lock_session-Keeps none h v = v
    lock_session-Keeps (some i) h v = elim (Option-cases (get_elem? h.heap i)) [
      | inl e ↦ rw (e, lock_session) v
      | inr (s, e) ↦
          rw (e, lock_session)
            (either _ _ s.mtx v (
              same_tables h.sessions_mtx h.grpc_srv (set_mtx i true h.heap) h
                (length-set_mtx i true h.heap) v))
    ]

    pub on_server-Keeps : {A : Type 0} (m : Method State A) → Keeps (on_server srv g m)
    unfolding on_server
    on_server-Keeps m h v = same_tables h.sessions_mtx (m h.grpc_srv).1 h.heap h refl v

    pub with_ctx-Keeps :
        {A : Type 0} (i : ℕ) (m : Ctx → Method State A) → Keeps (with_ctx srv g i m)
    unfolding with_ctx
    with_ctx-Keeps i m h v = elim (Option-cases (get_elem? h.heap i)) [
      | inl e ↦ rw (e, with_ctx) v
      | inr (s, e) ↦ rw (e, with_ctx) (on_server-Keeps (m s.ctx) h v)
    ]

    pub refresh_timer-Keeps : (id : String) (now : ℕ) → Keeps (refresh_timer srv g id now)
    unfolding refresh_timer
    refresh_timer-Keeps id now h v =
        let (sound, calms) = refresh-IsSound id now g.session_expiration h.timer_mgr v.sound in
        record {
          sound = sound;
          live = λ k e. calms k (v.live k e);
          stored = v.stored;
          fired = λ k e. calms k (v.fired k e);
        }

    pub refreshed-Keeps :
        (id : String) (now : ℕ) (r : Bool × Option Error) → Keeps (refreshed srv g id now r)
    unfolding refreshed pure
    refreshed-Keeps id now (true, none) h v =
        bind-Keeps (λ h'. lock_session srv g (lookup id h'.sessions) h') _
          (λ h' w. lock_session-Keeps (lookup id h'.sessions) h' w) (λ i h' w. w) h v
    refreshed-Keeps id now (true, some e) h v = v
    refreshed-Keeps id now (false, err) h v = v

    pub validate_session-Keeps : (r : Request) (now : ℕ) → Keeps (validate_session srv g r now)
    unfolding validate_session pure
    validate_session-Keeps r now = on_cookie r.cookie
      where
        on_cookie :
            (c : Error ⊎ String) → Keeps (validate_session srv g (record r { cookie = c }) now)
        on_cookie (inl err) h v = v
        on_cookie (inr id) h v =
            bind-Keeps (lock_sessions srv g) _ lock_sessions-Keeps
              (λ u. deferred-Keeps _ _ unlock_sessions-Changes (
                bind-Keeps (refresh_timer srv g id now) _ (refresh_timer-Keeps id now)
                  (refreshed-Keeps id now)))
              h v
