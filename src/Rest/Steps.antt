-- ===== src/Rest/Steps.antt =====
-- Runs of net/rest/rest.go: requests, timers that fire, and their functions, in any order.
use go_ldlm.Timer.{remove, Timer}
use go_ldlm.Rest.Laws.{
  same_tables, Changes, unlock_sessions-Changes, unlock_session-Changes, with_ctx-Keeps,
  deferred-Keeps, IsConsistent, lock_sessions-Keeps, bind-Keeps, Keeps, lock_session-Keeps,
}
use go_ldlm.Rest.Expiry.{add-IsSound, Quiet, remove-IsSound}
use go_ldlm.Rest.Types.{RestHandler, Request, Gateway, GrpcLockServer}
use go_ldlm.Errors.{Error}
use go_ldlm.Rest.{
  Handler, on_timeout, remote_ip, add_session, tag_conn, destroy_session, lock_sessions,
  unlock_sessions, lock_session, unlock_session, end_session, destroy_found, timeout_found,
}
use mathlib.Core.Path.{subst}
use go_ldlm.Common.{
  ◌≡◌, ◌≢◌, ◌∷◌, [], refl, false, true, Bool, Assoc, insert, lookup-insert, length, length-append,
  Outcome, blocks, returns, if◌then◌else◌, contains, lookup, delete, lookup-delete, pure, continue,
  ℕ, String, ◌==◌, eq_iff, ◌⊎◌, inl, inr, Option, none, some, List, arith, Bool-cases,
}
use go_ldlm.Timer

lookup-insert-none :
    (key probe : String) (n : ℕ) (m : Assoc ℕ)
    → lookup probe (insert key n m) ≡ none
    → (key ≢ probe) × (lookup probe m ≡ none)
lookup-insert-none key probe n m e =
    let found = lookup-insert key probe n m in
    ((λ same. ground (arith, found, e, eq_iff key probe, same)), ground (arith, found, e))

module _ (srv : GrpcLockServer) (g : Gateway srv) where
  open srv use {State, Ctx}

  module _ (waiting : List String) where
    -- A session that leaves the table takes its armed timer with it.
    delete-Keeps :
        (id : String) (h : RestHandler State Ctx)
        → Quiet id h.timer_mgr
        → IsConsistent srv g waiting h
        → IsConsistent srv g waiting (record h { sessions = delete id h.sessions })
    delete-Keeps id h q v = record {
      sound = v.sound;
      live = λ k e. elim (Bool-cases (id == k)) [
        | inl same ↦ subst (λ j. Quiet j h.timer_mgr) ((eq_iff id k).0 same) q
        | inr differ ↦ v.live k (ground (arith, lookup-delete id k h.sessions, e, differ))
      ];
      stored = λ k i e. v.stored k i (ground (arith, lookup-delete id k h.sessions, e));
      fired = v.fired;
    }

    pub remove-Changes :
        (id : String)
        → Changes srv g waiting (λ h. record h { timer_mgr = Timer.remove id h.timer_mgr })
    remove-Changes id h v =
        let (sound, calms, quiet) = remove-IsSound id h.timer_mgr v.sound in
        record {
          sound = sound;
          live = λ k e. calms k (v.live k e);
          stored = v.stored;
          fired = λ k e. calms k (v.fired k e);
        }

    -- DestroySession: the timer and the entry go together.
    forget-Changes :
        (id : String)
        → Changes srv g waiting (λ h. record h {
          timer_mgr = Timer.remove id h.timer_mgr;
          sessions = delete id h.sessions;
        })
    forget-Changes id h v =
        delete-Keeps id (record h { timer_mgr = Timer.remove id h.timer_mgr })
          (remove-IsSound id h.timer_mgr v.sound).2 (remove-Changes id h v)

    end_session-Keeps : (i now : ℕ) → Keeps srv g waiting (end_session srv g i now)
    unfolding end_session
    end_session-Keeps i now =
        deferred-Keeps srv g waiting (unlock_session srv g i) _
          (unlock_session-Changes srv g waiting i)
          (with_ctx-Keeps srv g waiting i (λ ctx. srv.conn_end ctx now))

    destroy_found-Keeps :
        (id : String) (o : Option ℕ) (now : ℕ) → Keeps srv g waiting (destroy_found srv g id o now)
    unfolding destroy_found unlock_sessions pure continue
    destroy_found-Keeps id none now h v = unlock_sessions-Changes srv g waiting h v
    destroy_found-Keeps id (some i) now h v =
        bind-Keeps srv g waiting (lock_session srv g (some i)) _
          (lock_session-Keeps srv g waiting (some i))
          (λ a.
            bind-Keeps srv g waiting (end_session srv g i now) _ (end_session-Keeps i now)
              (λ u h' w. w))
          _ (unlock_sessions-Changes srv g waiting _ (forget-Changes id h v))

    pub destroy_session-Keeps :
        (r : Request) (now : ℕ) → Keeps srv g waiting (destroy_session srv g r now)
    unfolding destroy_session pure
    destroy_session-Keeps r now = on_cookie r.cookie
      where
        on_cookie :
            (c : Error ⊎ String)
            → Keeps srv g waiting (destroy_session srv g (record r { cookie = c }) now)
        on_cookie (inl err) h v = v
        on_cookie (inr id) h v =
            bind-Keeps srv g waiting (lock_sessions srv g) _ (lock_sessions-Keeps srv g waiting)
              (λ u h' w. destroy_found-Keeps id (lookup id h'.sessions) now h' w) h v

    timeout_found-Keeps :
        (id : String) (o : Option ℕ) (now : ℕ) (h : RestHandler State Ctx)
        → Quiet id h.timer_mgr
        → IsConsistent srv g waiting h
        → IsConsistent srv g waiting (timeout_found srv g id o now h).1
    unfolding timeout_found unlock_sessions continue
    timeout_found-Keeps id none now h q v = unlock_sessions-Changes srv g waiting h v
    timeout_found-Keeps id (some i) now h q v =
        bind-Keeps srv g waiting (lock_session srv g (some i)) _
          (lock_session-Keeps srv g waiting (some i))
          (λ a h' w. end_session-Keeps i now _ (unlock_sessions-Changes srv g waiting h' w))
          (record h { sessions = delete id h.sessions }) (delete-Keeps id h q v)

    -- What follows where a mutex is held already, and where it is free.
    pub either_way :
        {A B : Type 0} (f : A → Handler srv g B) (a : A) (h h' : RestHandler State Ctx) (b : Bool)
        → IsConsistent srv g waiting h
        → IsConsistent srv g waiting (f a h').1
        → let r : Outcome A × RestHandler State Ctx =
            (if b then (blocks, h) else (returns a, h')) in
          IsConsistent srv g waiting (continue r.0 f r.1).1
    unfolding continue
    either_way f a h h' true v w = v
    either_way f a h h' false v w = w

    pub on_timeout-Keeps :
        (id : String) (now : ℕ) (h : RestHandler State Ctx)
        → Quiet id h.timer_mgr
        → IsConsistent srv g waiting h
        → IsConsistent srv g waiting (on_timeout srv g id now h).1
    unfolding on_timeout lock_sessions continue
    on_timeout-Keeps id now h q v =
        either_way (λ u h'. timeout_found srv g id (lookup id h'.sessions) now h') tt _ _
          h.sessions_mtx v
          (timeout_found-Keeps id (lookup id h.sessions) now (record h { sessions_mtx = true }) q
            (same_tables srv g waiting true h.grpc_srv h.heap h refl v))

    pub tag_conn-Keeps : (addr id : String) → Keeps srv g waiting (tag_conn srv g addr id)
    unfolding tag_conn
    tag_conn-Keeps addr id h v =
        same_tables srv g waiting h.sessions_mtx
          (srv.tag_conn (g.tcp_address (remote_ip srv g addr)) id h.grpc_srv).1 h.heap h refl v

    -- A new session under an id that is not in use.
    pub add_session-Keeps :
        (id : String) (ctx : Ctx) (now : ℕ) (h : RestHandler State Ctx)
        → lookup id h.timer_mgr.timers ≡ none
        → contains id waiting ≡ false
        → IsConsistent srv g waiting h
        → IsConsistent srv g waiting (add_session srv g id ctx now h).1
    unfolding add_session
    add_session-Keeps id ctx now h unused not_waiting v =
        let (sound, calms) = add-IsSound id now g.session_expiration h.timer_mgr unused v.sound in
        record {
          sound = sound;
          live = λ k e.
              let (differ, absent) = lookup-insert-none id k (length h.heap) h.sessions e in
              calms k differ (v.live k absent);
          stored = λ k i e.
              rw (length-append h.heap (record { ctx = ctx; mtx = false } ∷ []))
                (ground (arith, v.stored k i, lookup-insert id k (length h.heap) h.sessions, e));
          fired = λ k e. calms k (λ same. cc) (v.fired k e);
        }
