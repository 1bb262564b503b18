-- ===== src/Session.antt =====
-- server/session/session.go and server/clientlock/clientlock.go: the locks that each session holds,
-- saved through a store after each change. The store is an interface (server/session/types.go).
pub mod Laws
pub mod Listed
pub mod Durable
pub mod Memory
mod Tests
-- clientlock.Lock
use go_ldlm.Errors.{Error}
use go_ldlm.Common.{
  string_panic, error_panic, lookup, delete, insert, Assoc, String, ◌==◌, ◌⊎◌, inl, inr, ◌&&◌,
  Option, none, some, List, [], ◌∷◌, ◌++◌, if◌then◌else◌, ℤ, Outcome, Method, returns, panics,
  blocks,
}

pub record ClientLock : Type 0 where
  pub name : String
  pub key : String
  pub size : ℤ

-- map[string][]cl.Lock; `none` is a nil slice.
abbrev pub SessionLocks : Type 0
SessionLocks = Assoc (Option (List ClientLock))

-- The elements of a slice that may be nil.
abbrev pub elements : Option (List ClientLock) → List ClientLock
elements none = []
elements (some locks) = locks

-- m[k], which is nil where there is no entry
abbrev pub slice_at : Option (Option (List ClientLock)) → Option (List ClientLock)
slice_at none = none
slice_at (some locks) = locks

-- sessionStorer, over the state of the store. A Write that returns no error is what the next Read
-- returns; a store that never was written to returns a nil map.
pub record SessionStorer : Type 1 where
  pub Disk : Type 0
  pub write : SessionLocks → Method Disk (Option Error)
  pub read : Disk → Outcome (Error ⊎ Option SessionLocks)

pub record Sessions (Disk : Type 0) : Type 0 where
  pub session_locks : SessionLocks
  pub store : Disk

-- The loop of RemoveLock.
pub without : String → String → List ClientLock → List ClientLock
without name key [] = []
without name key (l ∷ ls) =
    let rest = without name key ls in if l.name == name && l.key == key then rest else l ∷ rest

module _ (st : SessionStorer) where
  open st use {Disk, write, read}

  unfoldable pub new_sessions : Disk → Sessions Disk
  new_sessions disk = record { session_locks = []; store = disk }

  unfoldable pub save : Method (Sessions Disk) (Option Error)
  save s = let (r, disk) = write s.session_locks s.store in (r, record s { store = disk })

  -- if err := l.Save(); err != nil { panic(err) }
  panic_on_error : Outcome (Option Error) → Method (Sessions Disk) (Unit {0})
  panic_on_error (returns none) s = (returns tt, s)
  panic_on_error (returns (some e)) s = (panics (error_panic "error writing the state file"), s)
  panic_on_error (panics e) s = (panics e, s)
  panic_on_error blocks s = (blocks, s)

  unfoldable pub save_or_panic : Method (Sessions Disk) (Unit {0})
  unfolding save panic_on_error
  save_or_panic s = let (r, s') = save s in panic_on_error r s'

  load_read : Outcome (Error ⊎ Option SessionLocks) → Method (Sessions Disk) (Error ⊎ SessionLocks)
  load_read (returns (inl e)) s = (returns (inl e), s)
  load_read (returns (inr none)) s = (returns (inr []), s)
  load_read (returns (inr (some m))) s = (returns (inr m), record s { session_locks = m })
  load_read (panics e) s = (panics e, s)
  load_read blocks s = (blocks, s)

  unfoldable pub load : Method (Sessions Disk) (Error ⊎ SessionLocks)
  unfolding load_read
  load s = load_read (read s.store) s

  remove_from :
      String
      → String
      → String
      → Option (Option (List ClientLock))
      → Method (Sessions Disk) (Unit {0})
  remove_from name key session_id none s = (panics (string_panic "Client has no session entry"), s)
  remove_from name key session_id (some none) s =
      (panics (string_panic "Client has a nil session entry"), s)
  remove_from name key session_id (some (some [])) s = (returns tt, s)
  remove_from name key session_id (some (some (l ∷ ls))) s = save_or_panic (record s {
    session_locks = insert session_id (some (without name key (l ∷ ls))) s.session_locks;
  })

  unfoldable pub remove_lock : String → String → String → Method (Sessions Disk) (Unit {0})
  unfolding remove_from
  remove_lock name key session_id s =
      remove_from name key session_id (lookup session_id s.session_locks) s

  unfoldable pub add_lock : String → String → ℤ → String → Method (Sessions Disk) (Unit {0})
  add_lock name key size session_id s =
      let old = elements (slice_at (lookup session_id s.session_locks)) in
      let new : ClientLock = record { name = name; key = key; size = size } in
      save_or_panic
        (record s { session_locks = insert session_id (some (old ++ new ∷ [])) s.session_locks })

  -- Not saved.
  unfoldable pub create_session : String → Sessions Disk → Sessions Disk
  create_session session_id s = elim (slice_at (lookup session_id s.session_locks)) [
    | none ↦ record s { session_locks = insert session_id (some []) s.session_locks }
    | some locks ↦ s
  ]

  -- An error of Save is dropped; a panic is not.
  destroy_saved :
      List ClientLock
      → Outcome (Option Error) × Sessions Disk
      → Outcome (List ClientLock) × Sessions Disk
  destroy_saved locks (returns e, s) = (returns locks, s)
  destroy_saved locks (panics e, s) = (panics e, s)
  destroy_saved locks (blocks, s) = (blocks, s)

  destroy_found :
      String → Option (Option (List ClientLock)) → Method (Sessions Disk) (List ClientLock)
  unfolding destroy_saved
  destroy_found session_id none s = (returns [], s)
  destroy_found session_id (some locks) s =
      destroy_saved (elements locks)
        (save (record s { session_locks = delete session_id s.session_locks }))

  unfoldable pub destroy_session : String → Method (Sessions Disk) (List ClientLock)
  unfolding destroy_found
  destroy_session session_id s = destroy_found session_id (lookup session_id s.session_locks) s
