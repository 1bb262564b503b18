-- ===== src/Server/Startup/Overfull.antt =====
-- New of server/server.go on a file that lists more locks of a name than the name has slots.
use go_ldlm.Server.Interfaces.{IsLockManager, LockManager}
use go_ldlm.Timer.{empty_timers}
use go_ldlm.Common.{
  ap, continue, error_panic, returns, panics, ℕ, String, eq_refl, ◌≡◌, refl, ◌∙◌, inr, Bool, false,
  none, some, [], ◌∷◌, pos,
}
use go_ldlm.Server.Startup.Restore.{reload_one_lem, loaded}
use go_ldlm.Server.Startup.{new, reload_one, reload, reload_answered, new_loaded}
use go_ldlm.Server.{Server, on_sessions, on_locks}
use go_ldlm.Manager.Spec.{Spec, spec_try_lock}
use go_ldlm.Session.{SessionStorer, ClientLock}

full_answer :
    (name k1 k2 : String) (d : Bool) (v : Spec)
    → d ≡ false
    → v name ≡ some (record { size = pos 1; keys = k1 ∷ [] })
    → (spec_try_lock d name k2 (pos 1) v).0 ≡ (false, none)
full_answer name k1 k2 d v up full = simp (up, full) refl

abbrev pub single : String → String → ClientLock
single name key = record { name = name; key = key; size = pos 1 }

module _ (lm : LockManager) (st : SessionStorer) (good : IsLockManager lm) where
  open lm use {State}
  open st use {Disk, read}
  open good use {IsValid, view, down}

  second_panics :
      (session_id name k1 k2 : String) (timeout now : ℕ) (s : Server State Disk)
      → IsValid s.lock_mgr
      → down s.lock_mgr ≡ false
      → view s.lock_mgr name ≡ some (record { size = pos 1; keys = k1 ∷ [] })
      → (reload_one lm st session_id (single name k2) timeout now s).0
        ≡ panics (error_panic "invalid memory address or nil pointer dereference")
  unfolding reload_one reload_answered on_locks continue
  second_panics session_id name k1 k2 timeout now s v up full =
      let reply : (lm.try_lock name k2 (pos 1) now s.lock_mgr).0 ≡ returns (false, none) =
        (good.try_lock_follows name k2 (pos 1) now s.lock_mgr v).reply
        ∙ ap returns (full_answer name k1 k2 (down s.lock_mgr) (view s.lock_mgr) up full) in
      rw (reply, continue) refl

  -- The server with the loaded session.
  abbrev loading : State → Disk → String → String → String → String → Bool → Server State Disk
  loading start disk session_id name k1 k2 no_clear = record {
    lock_mgr = start;
    sess_mgr = record {
      session_locks = (session_id, some (single name k1 ∷ single name k2 ∷ [])) ∷ [];
      store = disk;
    };
    lock_timers = empty_timers;
    is_shutdown = false;
    no_clear_on_disconnect = no_clear;
  }

  -- A saved session with two locks of one name and of size one: over a lock manager
  -- that keeps its promise, valid, running and without locks, New
  -- panics at the second lock, where TryLock fails without an error.
  pub new_overfull_panics :
      (start : State) (disk : Disk) (session_id name k1 k2 : String) (no_clear : Bool)
      (timeout now : ℕ)
      → IsValid start
      → down start ≡ false
      → ((n : String) → view start n ≡ none)
      → read disk
        ≡ returns (inr (some ((session_id, some (single name k1 ∷ single name k2 ∷ [])) ∷ [])))
      → (new lm st start disk no_clear timeout now).0
        ≡ panics (error_panic "invalid memory address or nil pointer dereference")
  unfolding new new_loaded reload on_sessions continue
  new_overfull_panics start disk session_id name k1 k2 no_clear timeout now v up empty e =
      let s = loading start disk session_id name k1 k2 no_clear in
      let one =
        reload_one_lem lm st good session_id (single name k1) timeout now s v up (empty name)
          refl in
      rw (loaded st disk _ e, continue)
        (rw (one.ends, continue)
          (rw
            (
              second_panics session_id name k1 k2 timeout now
                  (reload_one lm st session_id (single name k1) timeout now s).1 one.valid one.up
                  (one.taken name ∙ rw (eq_refl name) refl),
              continue,
            )
            refl))
