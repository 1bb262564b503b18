-- ===== src/Session/Durable.antt =====
-- What a restart finds (Load of server/session/session.go) after any calls: the locks of every
-- session, as they were when the server stopped, wherever that was.
use mathlib.Core.Path.{subst}
use go_ldlm.Session.Laws.{
  made, held_by-made, saved_state, held_by-insert, saved_by, save_or_panic_reliable, save_reliable,
  held_by, IsReliable,
}
use go_ldlm.Errors.{Error}
use go_ldlm.Session.{
  create_session, Sessions, add_lock, load, new_sessions, remove_lock, SessionLocks, ClientLock,
  SessionStorer, slice_at, destroy_session, load_read, remove_from, destroy_found,
}
use go_ldlm.Common.{
  sym, lookup, String, eq_iff, ◌≡◌, refl, ◌⊎◌, inl, inr, Option, none, some, List, [], ◌∷◌, arith,
  Option-cases, ℤ, Outcome, returns,
}

pub data Call : Type 0 where
  creates : (session_id : String) → Call
  adds : (name key : String) (size : ℤ) (session_id : String) → Call
  removes : (name key session_id : String) → Call
  destroys : (session_id : String) → Call

module _ (st : SessionStorer) where
  open st use {Disk, write, read}

  -- The sessions after one call, however it ends.
  unfoldable pub step : Sessions Disk → Call → Sessions Disk
  step s (creates session_id) = create_session st session_id s
  step s (adds name key size session_id) = (add_lock st name key size session_id s).1
  step s (removes name key session_id) = (remove_lock st name key session_id s).1
  step s (destroys session_id) = (destroy_session st session_id s).1

  unfoldable pub run : Sessions Disk → List Call → Sessions Disk
  run s [] = s
  run s (c ∷ cs) = run (step s c) cs

  -- The store holds the locks of every session.
  pub record IsSaved (s : Sessions Disk) : Type 0 where
    pub saved : Option SessionLocks
    pub on_disk : read s.store ≡ returns (inr saved)
    pub agree : (j : String) → saved_by j saved ≡ held_by j s.session_locks

  saved_state-IsSaved : IsReliable st → (s : Sessions Disk) → IsSaved (saved_state st s)
  unfolding saved_state
  saved_state-IsSaved ok s = record {
    saved = some (made s.session_locks);
    on_disk = ok.reads_back s.session_locks s.store;
    agree = λ j. held_by-made j s.session_locks;
  }

  module _ (ok : IsReliable st) where
    create_session-IsSaved :
        (session_id : String) (s : Sessions Disk)
        → IsSaved s
        → IsSaved (create_session st session_id s)
    unfolding create_session
    create_session-IsSaved session_id s v =
        elim (Option-cases (slice_at (lookup session_id s.session_locks))) [
          | inl e ↦
              rw (e, create_session)
                (record {
                  saved = v.saved;
                  on_disk = v.on_disk;
                  agree = λ j.
                      rw (held_by-insert session_id j [] s.session_locks)
                        (ground (arith, v.agree j, e, eq_iff session_id j));
                })
          | inr (ls, e) ↦ rw (e, create_session) v
        ]

    add_lock-IsSaved :
        (name key : String) (size : ℤ) (session_id : String) (s : Sessions Disk)
        → IsSaved (add_lock st name key size session_id s).1
    unfolding add_lock
    add_lock-IsSaved name key size session_id s =
        rw (save_or_panic_reliable st ok _) (saved_state-IsSaved ok _)

    remove_from-IsSaved :
        (name key session_id : String) (found : Option (Option (List ClientLock)))
        (s : Sessions Disk)
        → IsSaved s
        → IsSaved (remove_from st name key session_id found s).1
    unfolding remove_from
    remove_from-IsSaved name key session_id none s v = v
    remove_from-IsSaved name key session_id (some none) s v = v
    remove_from-IsSaved name key session_id (some (some [])) s v = v
    remove_from-IsSaved name key session_id (some (some (l ∷ ls))) s v =
        rw (save_or_panic_reliable st ok _) (saved_state-IsSaved ok _)

    destroy_found-IsSaved :
        (session_id : String) (found : Option (Option (List ClientLock))) (s : Sessions Disk)
        → IsSaved s
        → IsSaved (destroy_found st session_id found s).1
    unfolding destroy_found
    destroy_found-IsSaved session_id none s v = v
    destroy_found-IsSaved session_id (some locks) s v =
        rw (save_reliable st ok _) (saved_state-IsSaved ok _)

    step-IsSaved : (s : Sessions Disk) (c : Call) → IsSaved s → IsSaved (step s c)
    unfolding step remove_lock destroy_session
    step-IsSaved s (creates session_id) v = create_session-IsSaved session_id s v
    step-IsSaved s (adds name key size session_id) v = add_lock-IsSaved name key size session_id s
    step-IsSaved s (removes name key session_id) v = remove_from-IsSaved name key session_id _ s v
    step-IsSaved s (destroys session_id) v = destroy_found-IsSaved session_id _ s v

    run-IsSaved : (s : Sessions Disk) (cs : List Call) → IsSaved s → IsSaved (run s cs)
    unfolding run
    run-IsSaved s [] v = v
    run-IsSaved s (c ∷ cs) v = run-IsSaved (step s c) cs (step-IsSaved s c v)

  -- What Load returns lists the locks `held`.
  abbrev pub Lists : Outcome (Error ⊎ SessionLocks) → (String → List ClientLock) → Type 0
  Lists (returns (inr m)) held = (j : String) → held_by j m ≡ held j
  Lists _ held = ⊥

  loaded-Lists :
      (saved : Option SessionLocks) (held : String → List ClientLock) (s : Sessions Disk)
      → ((j : String) → saved_by j saved ≡ held j)
      → Lists (load_read st (returns (inr saved)) s).0 held
  unfolding load_read lookup
  loaded-Lists none held s h = h
  loaded-Lists (some m) held s h = h

  load-Lists :
      (s : Sessions Disk)
      → IsSaved s
      → Lists (load st (new_sessions st s.store)).0 (λ j. held_by j s.session_locks)
  unfolding load new_sessions
  load-Lists s v =
      subst
        (λ r.
          Lists (load_read st r (record { session_locks = []; store = s.store })).0
            (λ j. held_by j s.session_locks))
        (sym v.on_disk) (loaded-Lists v.saved _ _ v.agree)

  -- Over a disk that works and that is empty at first: after any calls, a new session manager over
  -- the same disk loads, for every session, exactly the locks that the old one listed.
  pub restart-Lists :
      IsReliable st
      → (disk : Disk) (cs : List Call) → read disk ≡ returns (inr none)
      → let s = run (new_sessions st disk) cs in
        Lists (load st (new_sessions st s.store)).0 (λ j. held_by j s.session_locks)
  restart-Lists ok disk cs e = load-Lists _ (run-IsSaved ok _ cs start)
    where
      start : IsSaved (new_sessions st disk)
      start = record {
        saved = none;
        on_disk = unfold new_sessions in e;
        agree = λ j. unfold new_sessions lookup in refl;
      }
