-- ===== src/Server/Release.antt =====
-- DestroySession of server/server.go: what the end of a session releases.
use go_ldlm.Session.Listed.{listed}
use go_ldlm.Session.Laws.{IsReliable, destroy_session_lem, held_by}
use go_ldlm.Server.Interfaces.{LockManager, IsLockManager}
use go_ldlm.Errors.{Error}
use go_ldlm.Manager.Spec.{Entry, spec_unlock, Spec}
use go_ldlm.Common.{
  lookup, ◌∙◌, pure, continue, Outcome, returns, ◌>>=◌, refl, Bool, true, ℕ, ◌-◌, String, ◌==◌,
  eq_iff, ◌≡◌, inl, inr, false, ◌&&◌, Option, none, some, List, [], ◌∷◌, arith, if◌then◌else◌,
  Bool-cases, Option-cases, count, contains, contains-count, count-erase_sub,
}
use go_ldlm.Server.{
  destroy_session, on_sessions, release_one, release_all, on_timers, on_locks, released, Server,
}
use go_ldlm.Session
use go_ldlm.Session.{SessionStorer, ClientLock}

-- The keys that hold a lock.
abbrev pub holders : Option Entry → List String
holders none = []
holders (some e) = e.keys

-- One Unlock of the specification frees one occurrence of the key, if there is one.
pub holders-spec_unlock :
    (n k name key : String) (v : Spec)
    → count key (holders ((spec_unlock false n k v).1 name))
      ≡ count key (holders (v name)) - (if n == name && k == key then 1 else 0)
holders-spec_unlock n k name key v = elim (Option-cases (v n)) [
  | inl e ↦ rw e (ground (arith, e, eq_iff n name))
  | inr (x, e) ↦ rw e (elim (Bool-cases (contains k x.keys)) [
    | inl h ↦ rw h (ground (arith, e, eq_iff n name, eq_iff k key, count-erase_sub k key x.keys))
    | inr h ↦ rw h (ground (arith, e, eq_iff n name, eq_iff k key, contains-count k x.keys))
  ])
]

module _ (lm : LockManager) (st : SessionStorer) (good : IsLockManager lm) where
  open lm use {State}
  open st use {Disk}
  open good use {IsValid, view, down}

  abbrev pub keys_of : Server State Disk → String → List String
  keys_of s name = holders (view s.lock_mgr name)

  released_lem :
      (name key : String) (a : Bool × Option Error) (s : Server State Disk)
      → let r = released lm st name key a s in
        (r.0 ≡ returns tt) × (r.1.lock_mgr ≡ s.lock_mgr) × (r.1.sess_mgr ≡ s.sess_mgr)
  unfolding released on_timers pure
  released_lem name key (true, none) s = (refl, refl, refl)
  released_lem name key (true, some e) s = (refl, refl, refl)
  released_lem name key (false, e) s = (refl, refl, refl)

  -- What a part of a request leaves behind.
  record Releases (ls : List ClientLock) (s : Server State Disk)
      (r : Outcome (Unit {0}) × Server State Disk) : Type 0 where
    ends : r.0 ≡ returns tt
    valid : IsValid r.1.lock_mgr
    up : down r.1.lock_mgr ≡ down s.lock_mgr
    sessions : r.1.sess_mgr ≡ s.sess_mgr
    freed :
        (name key : String)
        → count key (keys_of r.1 name) ≡ count key (keys_of s name) - listed name key ls

  after-unlock :
      (l : ClientLock) (now : ℕ) (s : Server State Disk)
      → IsValid s.lock_mgr
      → down s.lock_mgr ≡ false
      → (name key : String)
      → count key (holders (view (lm.unlock l.name l.key now s.lock_mgr).1 name))
        ≡ count key (keys_of s name) - listed name key (l ∷ [])
  after-unlock l now s v up name key =
      rw ((good.unlock_follows l.name l.key now s.lock_mgr v).state name, up)
        (omega (arith, holders-spec_unlock l.name l.key name key (view s.lock_mgr)))

  release_one_lem :
      (l : ClientLock) (now : ℕ) (s : Server State Disk)
      → IsValid s.lock_mgr
      → down s.lock_mgr ≡ false
      → Releases (l ∷ []) s (release_one lm st l now s)
  unfolding release_one on_locks continue
  release_one_lem l now s v up =
      let f = good.unlock_follows l.name l.key now s.lock_mgr v in
      let x = (lm.unlock l.name l.key now s.lock_mgr).1 in
      let (end, same, sess) =
        released_lem l.name l.key (spec_unlock (down s.lock_mgr) l.name l.key (view s.lock_mgr)).0
          (record s { lock_mgr = x }) in
      let (valid, still) = good.unlock_valid l.name l.key now s.lock_mgr v in
      rw (f.reply, continue)
        (record {
          ends = end;
          valid = rw same valid;
          up = rw same still;
          sessions = sess;
          freed = λ name key. rw same (after-unlock l now s v up name key);
        })

  release_all_lem :
      (ls : List ClientLock) (now : ℕ) (s : Server State Disk)
      → IsValid s.lock_mgr
      → down s.lock_mgr ≡ false
      → Releases ls s (release_all lm st ls now s)
  unfolding release_all pure continue
  release_all_lem [] now s v up = record {
    ends = refl;
    valid = v;
    up = refl;
    sessions = refl;
    freed = λ name key. omega arith;
  }
  release_all_lem (l ∷ ls) now s v up =
      let one = release_one_lem l now s v up in
      let rest = release_all_lem ls now (release_one lm st l now s).1 one.valid (one.up ∙ up) in
      rw one.ends (record {
        ends = rest.ends;
        valid = rest.valid;
        up = rest.up ∙ one.up;
        sessions = rest.sessions ∙ one.sessions;
        freed = λ name key. omega (arith, rest.freed name key, one.freed name key);
      })

  -- The end of a session, whatever is proved of it.
  pub record Ended (session_id : String) (s : Server State Disk)
      (r : Outcome String × Server State Disk) : Type 0 where
    pub answer : r.0 ≡ returns session_id
    pub still_valid : IsValid r.1.lock_mgr
    pub still_up : down r.1.lock_mgr ≡ false
    pub released_keys :
        (name key : String)
        → count key (keys_of r.1 name)
          ≡ count key (keys_of s name)
            - listed name key (held_by session_id s.sess_mgr.session_locks)
    pub lists :
        (j : String)
        → held_by j r.1.sess_mgr.session_locks
          ≡ (if session_id == j then [] else held_by j s.sess_mgr.session_locks)
    pub gone : lookup session_id r.1.sess_mgr.session_locks ≡ none

  pub destroy_session-Ended :
      IsReliable st
      → (session_id : String) (now : ℕ) (s : Server State Disk) → IsValid s.lock_mgr
      → down s.lock_mgr ≡ false
      → s.is_shutdown ≡ false
      → s.no_clear_on_disconnect ≡ false
      → Ended session_id s (destroy_session lm st (some session_id) now s)
  unfolding destroy_session on_sessions continue pure
  destroy_session-Ended ok session_id now s v up running clears =
      let d = Session.Laws.destroy_session_lem st ok session_id s.sess_mgr in
      let rel =
        release_all_lem (held_by session_id s.sess_mgr.session_locks) now
          (record s {
            sess_mgr = (Session.destroy_session st session_id s.sess_mgr).1;
            is_shutdown = false;
            no_clear_on_disconnect = false;
          })
          v up in
      simp (running, clears, d.0)
        (rw (rel.ends, ◌>>=◌)
          (record {
            answer = refl;
            still_valid = rel.valid;
            still_up = rel.up ∙ up;
            released_keys = rel.freed;
            lists = λ j. rw rel.sessions (d.1 j);
            gone = rw rel.sessions d.2;
          }))

  -- Over a lock manager that keeps its promise, in a valid state and running, and a reliable store:
  -- when a session ends, while the server runs and clears locks on disconnect, the call returns,
  -- each lock that the session lists is released once for each time it is listed and no other lock
  -- is, the session has no entry left, and the other sessions keep their lists.
  pub destroy_session_releases :
      IsReliable st
      → (session_id : String) (now : ℕ) (s : Server State Disk) → IsValid s.lock_mgr
      → down s.lock_mgr ≡ false
      → s.is_shutdown ≡ false
      → s.no_clear_on_disconnect ≡ false
      → let r = destroy_session lm st (some session_id) now s in
        let ls = held_by session_id s.sess_mgr.session_locks in
        (r.0 ≡ returns session_id)
        × ((name key : String)
            → count key (keys_of r.1 name) ≡ count key (keys_of s name) - listed name key ls)
        × ((j : String)
            → held_by j r.1.sess_mgr.session_locks
              ≡ (if session_id == j then [] else held_by j s.sess_mgr.session_locks))
        × (lookup session_id r.1.sess_mgr.session_locks ≡ none)
  destroy_session_releases ok session_id now s v up running clears =
      let e = destroy_session-Ended ok session_id now s v up running clears in
      (e.answer, e.released_keys, e.lists, e.gone)
