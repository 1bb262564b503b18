-- ===== src/Rest/Sessions.antt =====
-- ValidateSession of net/rest/rest.go: whom it lets in, and what it locks.
use go_ldlm.Rest.Types.{
  unauthorized, GrpcLockServer, set_mtx, RestSession, Gateway, Request, RestHandler, Response,
  Cookie,
}
use go_ldlm.Rest.{
  lock_sessions, session_cookie, validate_session, destroy_session, on_timeout, create_session,
}
use go_ldlm.Errors.{Error, timer_does_not_exist}
use go_ldlm.Timer.{Timers}
use go_ldlm.Timer.{is_armed}
use go_ldlm.Rest.Laws.{IsConsistent}
use go_ldlm.Rest.Expiry.{Quiet}
use mathlib.Core.Path.{subst}
use go_ldlm.Common.{
  ap, sym, ◌∙◌, List, [], ◌∷◌, zero, suc, ◌<◌, length, ◌⊎◌, Option-cases, arith, lookup, pure,
  continue, Outcome, returns, blocks, ℕ, String, ◌≡◌, refl, inl, inr, true, false, Option, none,
  some, if◌then◌else◌, get_elem?, Bool-cases,
}
use go_ldlm.Timer

elem_at : {A : Type 0} (xs : List A) (j : ℕ) → j < length xs → (x : A) × (get_elem? xs j ≡ some x)
elem_at [] j h = absurd (omega (arith, h))
elem_at (x ∷ xs) zero h = (x, refl)
elem_at (x ∷ xs) (suc j) h = elem_at xs j (omega (arith, h))

module _ (srv : GrpcLockServer) (g : Gateway srv) where
  open srv use {State, Ctx}

  -- The state in which sessionsMtx is free.
  abbrev pub unlocked : RestHandler State Ctx → RestHandler State Ctx
  unlocked h = record h { sessions_mtx = false }

  validate_refused :
      (r : Request) (id : String) (now : ℕ) (e : Option Error) (h : RestHandler State Ctx)
      → r.cookie ≡ inr id
      → h.sessions_mtx ≡ false
      → Timer.refresh id now g.session_expiration h.timer_mgr ≡ ((false, e), h.timer_mgr)
      → validate_session srv g r now h
        ≡ (returns (inl (unauthorized "invalid or expired")), unlocked h)
  unfolding validate_session lock_sessions continue pure
  validate_refused r id now e h cookie free quiet = rw (cookie, free, quiet) refl

  validate_locked :
      (r : Request) (id : String) (now j : ℕ) (s : RestSession Ctx) (m : Timers String)
      (h : RestHandler State Ctx)
      → r.cookie ≡ inr id
      → h.sessions_mtx ≡ false
      → Timer.refresh id now g.session_expiration h.timer_mgr ≡ ((true, none), m)
      → lookup id h.sessions ≡ some j
      → get_elem? h.heap j ≡ some s
      → validate_session srv g r now h ≡ (
          if s.mtx then (blocks, record h { sessions_mtx = true; timer_mgr = m }) else (
            returns (inr (j, session_cookie srv g id now)),
            record (unlocked h) { timer_mgr = m; heap = set_mtx j true h.heap },
          ))
  unfolding validate_session lock_sessions continue pure
  validate_locked r id now j s m h cookie free armed found there =
      rw (cookie, free, armed, found, there)
        (elim (Bool-cases s.mtx) [ inl e ↦ rw e refl | inr e ↦ rw e refl ])

  -- Whether the timer of a key is armed.
  armed_cases :
      (id : String) (m : Timers String)
      → ((i : ℕ) × (lookup id m.timers ≡ some i) × (is_armed i m.heap ≡ true)) ⊎ Quiet id m
  armed_cases id m = elim (Option-cases (lookup id m.timers)) [
    | inl absent ↦ inr (λ i e. cc)
    | inr (i, e) ↦ elim (Bool-cases (is_armed i m.heap)) [
      | inl on ↦ inl (i, e, on)
      | inr off ↦ inr (λ j f. ground (arith, e, f, off))
    ]
  ]

  refresh-Quiet :
      (id : String) (now timeout : ℕ) (m : Timers String)
      → Quiet id m
      → (e : Option Error) × (Timer.refresh id now timeout m ≡ ((false, e), m))
  unfolding Timer.refresh
  refresh-Quiet id now timeout m q = elim (Option-cases (lookup id m.timers)) [
    | inl absent ↦ (some timer_does_not_exist, rw (absent, Timer.refresh) refl)
    | inr (i, e) ↦ (none, rw (e, q i e, Timer.refresh) refl)
  ]

  refresh_on :
      (id : String) (now timeout i : ℕ) (m : Timers String)
      → lookup id m.timers ≡ some i
      → is_armed i m.heap ≡ true
      → Timer.refresh id now timeout m ≡ ((true, none), (Timer.refresh id now timeout m).1)
  unfolding Timer.refresh
  refresh_on id now timeout i m e on = rw (e, on, Timer.refresh) refl

  -- The session of an armed timer.
  session_of :
      (waiting : List String) (id : String) (i : ℕ) (h : RestHandler State Ctx)
      → IsConsistent srv g waiting h
      → lookup id h.timer_mgr.timers ≡ some i
      → is_armed i h.timer_mgr.heap ≡ true
      → (j : ℕ) × (s : RestSession Ctx) × (lookup id h.sessions ≡ some j)
        × (get_elem? h.heap j ≡ some s)
  session_of waiting id i h v e on = elim (Option-cases (lookup id h.sessions)) [
    | inl absent ↦ absurd (ground (arith, v.live id absent i e, on))
    | inr (j, there) ↦ let (s, at) = elem_at h.heap j (v.stored id j there) in (j, s, there, at)
  ]

  -- What ValidateSession answers for the cookie of a session.
  abbrev pub Answers :
      String
      → ℕ
      → RestHandler State Ctx
      → Outcome (Response ⊎ (ℕ × Cookie)) × RestHandler State Ctx
      → Type 0
  Answers id now h a =
      let m = (Timer.refresh id now g.session_expiration h.timer_mgr).1 in
      (Quiet id h.timer_mgr × (a ≡ (returns (inl (unauthorized "invalid or expired")), unlocked h)))
      ⊎ ((j : ℕ) × (s : RestSession Ctx) × (lookup id h.sessions ≡ some j)
          × (get_elem? h.heap j ≡ some s)
          × (a ≡ (
              if s.mtx then (blocks, record h { sessions_mtx = true; timer_mgr = m }) else (
                returns (inr (j, session_cookie srv g id now)),
                record (unlocked h) { timer_mgr = m; heap = set_mtx j true h.heap },
              ))))

  -- Where the gateway is consistent, sessionsMtx is free and the request has a cookie: ValidateSession
  -- refuses it and changes nothing if no timer of the cookie's session is armed; else the session is
  -- in the table, and the call either waits for a request of that session, or lets this one in with a
  -- new cookie, its session locked and its timer reset. It never follows a nil session.
  pub validate_session-Answers :
      (waiting : List String) (r : Request) (id : String) (now : ℕ) (h : RestHandler State Ctx)
      → IsConsistent srv g waiting h
      → h.sessions_mtx ≡ false
      → r.cookie ≡ inr id
      → Answers id now h (validate_session srv g r now h)
  validate_session-Answers waiting r id now h v free cookie = elim (armed_cases id h.timer_mgr) [
    | inr quiet ↦
        let (e, refused) = refresh-Quiet id now g.session_expiration h.timer_mgr quiet in
        inl (quiet, validate_refused r id now e h cookie free refused)
    | inl (i, e, on) ↦
        let (j, s, listed, there) = session_of waiting id i h v e on in
        inr (
          j,
          s,
          listed,
          there,
          validate_locked r id now j s _ h cookie free
              (refresh_on id now g.session_expiration i h.timer_mgr e on) listed there,
        )
  ]

  -- What a call finds while sessionsMtx is held.
  abbrev pub Stuck : RestHandler State Ctx → Type 0
  Stuck h =
      (r : Request) (id uuid server_session : String) (now : ℕ)
      → r.cookie ≡ inr id
      → (validate_session srv g r now h ≡ (blocks, h))
        × (destroy_session srv g r now h ≡ (blocks, h))
        × (on_timeout srv g id now h ≡ (blocks, h))
        × ((create_session srv g r uuid server_session now h).0 ≡ blocks)

  held-Stuck : (h : RestHandler State Ctx) → h.sessions_mtx ≡ true → Stuck h
  unfolding validate_session destroy_session on_timeout create_session lock_sessions continue
  held-Stuck h held r id uuid server_session now cookie = rw (cookie, held) (refl, refl, refl, refl)

  -- While a request of a session is being served, a second request with the same cookie waits for it
  -- with sessionsMtx in its hands: from then on every request with a cookie, every new session and
  -- every session timeout, of whatever session, blocks as well.
  pub second_request_blocks :
      (r : Request) (id : String) (now i j : ℕ) (s : RestSession Ctx) (h : RestHandler State Ctx)
      → h.sessions_mtx ≡ false
      → r.cookie ≡ inr id
      → lookup id h.timer_mgr.timers ≡ some i
      → is_armed i h.timer_mgr.heap ≡ true
      → lookup id h.sessions ≡ some j
      → get_elem? h.heap j ≡ some s
      → s.mtx ≡ true
      → let a = validate_session srv g r now h in (a.0 ≡ blocks) × Stuck a.1
  second_request_blocks r id now i j s h free cookie e on listed there busy =
      let a : validate_session srv g r now h ≡ (
        blocks,
        record h {
          sessions_mtx = true;
          timer_mgr = (Timer.refresh id now g.session_expiration h.timer_mgr).1;
        },
      ) =
        validate_locked r id now j s _ h cookie free
          (refresh_on id now g.session_expiration i h.timer_mgr e on) listed there
        ∙ rw busy refl in
      (ap (λ p. p.0) a, subst (λ p. Stuck p.1) (sym a) (held-Stuck _ refl))
