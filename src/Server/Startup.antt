-- ===== src/Server/Startup.antt =====
-- New of server/server.go: a server that starts takes the saved locks again. `start` is the lock
-- manager that NewManager makes, `timeout` the DefaultLockTimeout; the opening of the state file and
-- the start of the IPC server, with which New begins and ends, are in Program/Main.antt. The loop over the sessions and their locks is a loop over their pairs, in any order.
pub mod Restore
pub mod Overfull
pub mod Closing
use go_ldlm.Server.Interfaces.{LockManager}
use go_ldlm.Server.Keys.{timer_key}
use go_ldlm.Errors.{Error}
use go_ldlm.Timer.{empty_timers}
use go_ldlm.Common.{
  ◌>>=◌, ◌>>◌, pure, error_panic, Outcome, panics, Method, ℕ, String, ◌⊎◌, inl, inr, Bool, true,
  false, Option, none, some, List, [], ◌∷◌, ◌++◌,
}
use go_ldlm.Server.{Server, on_locks, on_sessions, on_timers}
use go_ldlm.Session
use go_ldlm.Session.{ClientLock, SessionStorer, SessionLocks, elements}
use go_ldlm.Timer

abbrev tagged : String → List ClientLock → List (String × ClientLock)
tagged session_id [] = []
tagged session_id (l ∷ ls) = (session_id, l) ∷ tagged session_id ls

abbrev pub saved_locks : SessionLocks → List (String × ClientLock)
saved_locks [] = []
saved_locks ((session_id, ls) ∷ rest) = tagged session_id (elements ls) ++ saved_locks rest

module _ (lm : LockManager) (st : SessionStorer) where
  open lm use {State}
  open st use {Disk}

  -- After TryLock. Where it fails without an error, the text of the error is asked of nil.
  reload_answered :
      String → ClientLock → ℕ → ℕ → Bool × Option Error → Method (Server State Disk) (Unit {0})
  reload_answered session_id l timeout now (true, none) = on_timers lm st (
      Timer.add (timer_key l.name l.key)
        (record { name = l.name; key = l.key; session_id = session_id }) now timeout)
  reload_answered session_id l timeout now (locked, some e) =
      on_sessions lm st (Session.remove_lock st l.name l.key session_id)
  reload_answered session_id l timeout now (false, none) =
      λ s. (panics (error_panic "invalid memory address or nil pointer dereference"), s)

  pub reload_one : String → ClientLock → ℕ → ℕ → Method (Server State Disk) (Unit {0})
  reload_one session_id l timeout now = do
    answer ← on_locks lm st (lm.try_lock l.name l.key l.size now)
    reload_answered session_id l timeout now answer

  reload : List (String × ClientLock) → ℕ → ℕ → Method (Server State Disk) (Unit {0})
  reload [] timeout now = pure tt
  reload ((session_id, l) ∷ ls) timeout now = do
    reload_one session_id l timeout now
    reload ls timeout now

  new_loaded : Error ⊎ SessionLocks → ℕ → ℕ → Method (Server State Disk) (Option Error)
  new_loaded (inl e) timeout now = pure (some e)
  new_loaded (inr m) timeout now = do reload (saved_locks m) timeout now; pure none

  abbrev pub fresh : State → Disk → Bool → Server State Disk
  fresh start disk no_clear = record {
    lock_mgr = start;
    sess_mgr = Session.new_sessions st disk;
    lock_timers = empty_timers;
    is_shutdown = false;
    no_clear_on_disconnect = no_clear;
  }

  -- New, from where the store is open up to the start of the IPC server.
  unfoldable pub new : State → Disk → Bool → ℕ → ℕ → Outcome (Option Error) × Server State Disk
  unfolding new_loaded reload reload_one reload_answered
  new start disk no_clear timeout now =
      (do loaded ← on_sessions lm st (Session.load st); new_loaded loaded timeout now)
        (fresh start disk no_clear)

  -- The function that New returns, beside the end of the IPC server; `shutdown` is the function that
  -- NewManager of the lock manager returned.
  unfoldable pub close : (State → State) → Server State Disk → Server State Disk
  close shutdown s = record s {
    is_shutdown = true;
    lock_timers = Timer.shutdown s.lock_timers;
    lock_mgr = shutdown s.lock_mgr;
  }
