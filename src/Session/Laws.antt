-- ===== src/Session/Laws.antt =====
-- The methods of server/session/session.go over a store that works: what each does to the locks of
-- each session, and that a restart finds them.

-- The locks that a map lists under a session.
use go_ldlm.Session.{
  destroy_session, remove_from, ClientLock, SessionLocks, save_or_panic, slice_at, save, without,
  SessionStorer, remove_lock, Sessions, elements, add_lock,
}
use go_ldlm.Common.{
  map, eq_iff, inl, Option-cases, eq_refl, lookup, delete, insert, lookup-insert, lookup-delete,
  String, ◌==◌, ◌≡◌, refl, inr, Option, none, some, List, [], ◌∷◌, ◌++◌, arith, if◌then◌else◌, ℤ,
  returns,
}

abbrev pub held_by : String → SessionLocks → List ClientLock
held_by session_id m = elements (slice_at (lookup session_id m))

abbrev pub saved_by : String → Option SessionLocks → List ClientLock
saved_by session_id none = []
saved_by session_id (some m) = held_by session_id m

pub held_by-insert :
    (k j : String) (ls : List ClientLock) (m : SessionLocks)
    → held_by j (insert k (some ls) m) ≡ (if k == j then ls else held_by j m)
held_by-insert k j ls m = rw (lookup-insert k j (some ls) m) (ground arith)

pub held_by-delete :
    (k j : String) (m : SessionLocks)
    → held_by j (delete k m) ≡ (if k == j then [] else held_by j m)
held_by-delete k j m = rw (lookup-delete k j m) (ground arith)

-- A map as it is read from a store: no slice of it is nil.
abbrev pub made : SessionLocks → SessionLocks
made = map (λ ((k, v) : String × Option (List ClientLock)). (k, some (elements v)))

pub held_by-made : (j : String) (m : SessionLocks) → held_by j (made m) ≡ held_by j m
unfolding lookup
held_by-made j [] = refl
held_by-made j ((k, v) ∷ m) = ground (arith, held_by-made j m)

module _ (st : SessionStorer) where
  open st use {Disk, write, read}

  -- The disk works: a write returns no error, and what was written is what is read,
  -- with slices of no elements for nil ones.
  pub record IsReliable : Type 0 where
    pub writes : (m : SessionLocks) (d : Disk) → (write m d).0 ≡ returns none
    pub reads_back :
        (m : SessionLocks) (d : Disk) → read (write m d).1 ≡ returns (inr (some (made m)))

  unfoldable pub saved_state : Sessions Disk → Sessions Disk
  saved_state s = record s { store = (write s.session_locks s.store).1 }

  pub save_or_panic_reliable :
      IsReliable → (s : Sessions Disk) → save_or_panic st s ≡ (returns tt, saved_state s)
  unfolding saved_state save_or_panic
  save_or_panic_reliable ok s = simp (ok.writes s.session_locks s.store)

  pub save_reliable : IsReliable → (s : Sessions Disk) → save st s ≡ (returns none, saved_state s)
  unfolding saved_state save
  save_reliable ok s = simp (ok.writes s.session_locks s.store)

  -- AddLock returns, appends the lock to its session and leaves the other sessions alone.
  pub add_lock_lem :
      IsReliable
      → (name key : String) (size : ℤ) (session_id : String) (s : Sessions Disk)
      → let r = add_lock st name key size session_id s in
        (r.0 ≡ returns tt)
        × ((j : String)
            → held_by j r.1.session_locks ≡ (
                if session_id == j
                then held_by session_id s.session_locks
                  ++ record { name = name; key = key; size = size } ∷ []
                else held_by j s.session_locks))
  unfolding add_lock saved_state
  add_lock_lem ok name key size session_id s =
      rw (save_or_panic_reliable ok _) (refl, λ j. held_by-insert session_id j _ s.session_locks)

  remove_from_lem :
      IsReliable
      → (name key session_id : String) (ls : List ClientLock) (s : Sessions Disk)
      → lookup session_id s.session_locks ≡ some (some ls)
      → let r = remove_from st name key session_id (some (some ls)) s in
        (r.0 ≡ returns tt)
        × ((j : String)
            → held_by j r.1.session_locks
              ≡ (if session_id == j then without name key ls else held_by j s.session_locks))
  unfolding remove_from saved_state without
  remove_from_lem ok name key session_id [] s e =
      (refl, λ j. ground (arith, e, eq_iff session_id j))
  remove_from_lem ok name key session_id (l ∷ ls) s e =
      rw (save_or_panic_reliable ok _) (refl, λ j. held_by-insert session_id j _ s.session_locks)

  -- Over a reliable store, RemoveLock of a session with an entry returns, and takes every lock of
  -- that name and key, and no other, out of that session, and out of no other session.
  pub remove_lock_lem :
      IsReliable
      → (name key session_id : String) (ls : List ClientLock) (s : Sessions Disk)
      → lookup session_id s.session_locks ≡ some (some ls)
      → let r = remove_lock st name key session_id s in
        (r.0 ≡ returns tt)
        × ((j : String)
            → held_by j r.1.session_locks
              ≡ (if session_id == j then without name key ls else held_by j s.session_locks))
  unfolding remove_lock
  remove_lock_lem ok name key session_id ls s e =
      rw (e, remove_lock) (remove_from_lem ok name key session_id ls s e)

  -- Over a reliable store, DestroySession returns the locks of the session, which then has no entry;
  -- the other sessions keep theirs.
  pub destroy_session_lem :
      IsReliable
      → (session_id : String) (s : Sessions Disk)
      → let r = destroy_session st session_id s in
        (r.0 ≡ returns (held_by session_id s.session_locks))
        × ((j : String)
            → held_by j r.1.session_locks
              ≡ (if session_id == j then [] else held_by j s.session_locks))
        × (lookup session_id r.1.session_locks ≡ none)
  unfolding destroy_session saved_state
  destroy_session_lem ok session_id s = elim (Option-cases (lookup session_id s.session_locks)) [
    | inl e ↦ rw (e, destroy_session) (refl, λ j. ground (arith, e, eq_iff session_id j), e)
    | inr (locks, e) ↦
        rw (e, destroy_session)
          (rw (save_reliable ok _) (
            refl,
            λ j. held_by-delete session_id j s.session_locks,
            rw (lookup-delete session_id session_id s.session_locks)
                (ground (arith, eq_refl session_id)),
          ))
  ]
