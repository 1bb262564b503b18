-- ===== src/Server/Startup/Restore.antt =====
-- New of server/server.go on a file whose locks fit together: the server that starts holds them.
use go_ldlm.Manager.Spec.{Entry, Spec, update, spec_try_lock}
use go_ldlm.Server.Interfaces.{LockManager, IsLockManager}
use go_ldlm.Timer.{empty_timers}
use mathlib.Core.Path.{subst}
use go_ldlm.Session
use go_ldlm.Server.Startup.{new, reload, reload_one, new_loaded, reload_answered, saved_locks}
use go_ldlm.Server.{Server, on_sessions, on_locks, on_timers}
use go_ldlm.Session.{new_sessions, load, ClientLock, SessionLocks, SessionStorer}
use go_ldlm.Common.{
  pure, continue, Outcome, returns, ℕ, zero, suc, String, ◌==◌, eq_iff, eq_refl, ◌≡◌, ap, ◌∙◌, inl,
  inr, Bool, true, false, not, ◌&&◌, ◌||◌, Option, none, some, List, [], ◌∷◌, arith, if◌then◌else◌,
  Bool-cases, lt→ltb, ℤ, is_pos, pos, negsuc, refl,
}

-- Some lock of the list has the name.
abbrev pub is_named : String → List (String × ClientLock) → Bool
is_named name [] = false
is_named name ((session_id, l) ∷ ls) = l.name == name || is_named name ls

-- No two locks of the list have the same name, and their sizes are positive.
abbrev pub is_loadable : List (String × ClientLock) → Bool
is_loadable [] = true
is_loadable ((session_id, l) ∷ ls) = (is_pos l.size && not (is_named l.name ls)) && is_loadable ls

-- The entry of a name once the locks of the list are held again, if `e` was the entry before.
abbrev pub restored : String → List (String × ClientLock) → Option Entry → Option Entry
restored name [] e = e
restored name ((session_id, l) ∷ ls) e =
    let rest = restored name ls e in
    if l.name == name then some (record { size = l.size; keys = l.key ∷ [] }) else rest

-- A key takes a lock that nobody asked for yet.
take_free :
    (name key : String) (size : ℤ) (v : Spec)
    → v name ≡ none
    → is_pos size ≡ true
    → spec_try_lock false name key size v
      ≡ ((true, none), update name (record { size = size; keys = key ∷ [] }) v)
take_free name key (pos (suc n)) v free positive =
    simp free (rw (lt→ltb 0 (suc n) (omega arith)) refl)
take_free name key (pos zero) v free positive = absurd (ground (arith, positive))
take_free name key (negsuc n) v free positive = absurd (ground (arith, positive))

loadable_parts :
    (session_id : String) (l : ClientLock) (ls : List (String × ClientLock))
    → is_loadable ((session_id, l) ∷ ls) ≡ true
    → (is_pos l.size ≡ true) × (is_named l.name ls ≡ false) × (is_loadable ls ≡ true)
loadable_parts session_id l ls h = (ground (arith, h), ground (arith, h), ground (arith, h))

restored_other :
    (n : String) (ls : List (String × ClientLock)) (e : Option Entry)
    → is_named n ls ≡ false
    → restored n ls e ≡ e
restored_other n [] e h = refl
restored_other n ((session_id, l) ∷ ls) e h = ground (arith, h, restored_other n ls e)

restored_again :
    (n session_id : String) (l : ClientLock) (ls : List (String × ClientLock)) (e : Option Entry)
    → is_named l.name ls ≡ false
    → restored n ls (restored n ((session_id, l) ∷ []) e) ≡ restored n ((session_id, l) ∷ ls) e
restored_again n session_id l ls e apart = elim (Bool-cases (l.name == n)) [
  | inl same ↦
      rw same (
        restored_other n ls _ (subst (λ x. is_named x ls ≡ false) ((eq_iff l.name n).0 same) apart))
  | inr other_name ↦ rw other_name refl
]

pub loaded :
    (st : SessionStorer) (disk : st.Disk) (m : SessionLocks)
    → st.read disk ≡ returns (inr (some m))
    → Session.load st (Session.new_sessions st disk)
      ≡ (returns (inr m), record { session_locks = m; store = disk })
unfolding Session.load Session.new_sessions
loaded st disk m e = rw e refl

module _ (lm : LockManager) (st : SessionStorer) (good : IsLockManager lm) where
  open lm use {State}
  open st use {Disk, read}
  open good use {IsValid, view, down}

  -- What the reload of some locks does, where none of their names is in use and they fit together.
  pub record Restores (ls : List (String × ClientLock)) (s : Server State Disk)
      (r : Outcome (Unit {0}) × Server State Disk) : Type 0 where
    pub ends : r.0 ≡ returns tt
    pub sessions : r.1.sess_mgr ≡ s.sess_mgr
    pub valid : IsValid r.1.lock_mgr
    pub up : down r.1.lock_mgr ≡ false
    pub taken : (n : String) → view r.1.lock_mgr n ≡ restored n ls (view s.lock_mgr n)

  pub reload_one_lem :
      (session_id : String) (l : ClientLock) (timeout now : ℕ) (s : Server State Disk)
      → IsValid s.lock_mgr
      → down s.lock_mgr ≡ false
      → view s.lock_mgr l.name ≡ none
      → is_pos l.size ≡ true
      → Restores ((session_id, l) ∷ []) s (reload_one lm st session_id l timeout now s)
  unfolding reload_one reload_answered on_locks on_timers continue
  reload_one_lem session_id l timeout now s v up free positive =
      let f = good.try_lock_follows l.name l.key l.size now s.lock_mgr v in
      let (valid, still) = good.try_lock_valid l.name l.key l.size now s.lock_mgr v in
      rw (f.reply, up, take_free l.name l.key l.size (view s.lock_mgr) free positive)
        (record {
          ends = refl;
          sessions = refl;
          valid = valid;
          up = still ∙ up;
          taken = λ n.
              rw (f.state n, up, take_free l.name l.key l.size (view s.lock_mgr) free positive)
                refl;
        })

  reload_lem :
      (ls : List (String × ClientLock)) (timeout now : ℕ) (s : Server State Disk)
      → IsValid s.lock_mgr
      → down s.lock_mgr ≡ false
      → is_loadable ls ≡ true
      → ((n : String) → is_named n ls ≡ true → view s.lock_mgr n ≡ none)
      → Restores ls s (reload lm st ls timeout now s)
  unfolding reload continue pure
  reload_lem [] timeout now s v up fit free = record {
    ends = refl;
    sessions = refl;
    valid = v;
    up = up;
    taken = λ n. refl;
  }
  reload_lem ((session_id, l) ∷ ls) timeout now s v up fit free =
      let (positive, apart, rest_fit) = loadable_parts session_id l ls fit in
      let one =
        reload_one_lem session_id l timeout now s v up
          (free l.name (ground (arith, eq_refl l.name))) positive in
      let rest =
        reload_lem ls timeout now (reload_one lm st session_id l timeout now s).1 one.valid one.up
          rest_fit
          (λ n named.
            one.taken n ∙ ground (arith, free n, named, apart, eq_iff l.name n, eq_refl l.name)) in
      rw one.ends (record {
        ends = rest.ends;
        sessions = rest.sessions ∙ one.sessions;
        valid = rest.valid;
        up = rest.up;
        taken = λ n.
            rest.taken n
            ∙ rw (one.taken n) (restored_again n session_id l ls (view s.lock_mgr n) apart);
      })

  -- Where the store reads saved locks of positive sizes, no two of one name, a server over a lock
  -- manager that keeps its promise, valid, running and without locks, takes them again: New, from
  -- where its store is open up to the start of its IPC server, runs without an error or a panic, the
  -- sessions list what was saved, each lock that was saved is held by its key alone, and no other
  -- lock is there.
  pub new_restores :
      (start : State) (disk : Disk) (m : SessionLocks) (no_clear : Bool) (timeout now : ℕ)
      → IsValid start
      → down start ≡ false
      → ((n : String) → view start n ≡ none)
      → read disk ≡ returns (inr (some m))
      → is_loadable (saved_locks m) ≡ true
      → let r = new lm st start disk no_clear timeout now in
        (r.0 ≡ returns none)
        × (r.1.sess_mgr.session_locks ≡ m)
        × ((n : String) → view r.1.lock_mgr n ≡ restored n (saved_locks m) none)
  unfolding new new_loaded continue pure on_sessions
  new_restores start disk m no_clear timeout now v up empty e fit =
      let all =
        reload_lem (saved_locks m) timeout now
          (record {
            lock_mgr = start;
            sess_mgr = record { session_locks = m; store = disk };
            lock_timers = empty_timers;
            is_shutdown = false;
            no_clear_on_disconnect = no_clear;
          })
          v up fit (λ n named. empty n) in
      rw (loaded st disk m e, continue)
        (rw (all.ends, continue)
          (refl, ap (λ x. x.session_locks) all.sessions, λ n. all.taken n ∙ rw (empty n) refl))
