-- ===== src/Server.antt =====
-- server/server.go: the lock server over its lock manager, session manager and timers. Each request
-- is one step, but for Lock, which waits: `lock` is the request up to the wait and `lock_resume`
-- what follows. Contexts enter as the session id that they carry; uuid.NewString() and time.Now()
-- as arguments; int32 pointers as options. Logging is left out.
pub mod Keys
pub mod Interfaces
pub mod Release
pub mod Requests
pub mod Timeouts
pub mod Startup
pub mod Waits
pub mod Accounts
pub mod Steps
pub mod Effects
pub mod Keeping
pub mod Acquiring
pub mod Orphans
mod Histories
mod Tests
use go_ldlm.Errors.{
  live, deadline_exceeded, done, lock_does_not_exist_or_invalid_key, invalid_wait_timeout,
  timer_does_not_exist, Context, empty_name, invalid_lock_timeout, Error, lock_wait_timeout,
  session_does_not_exist,
}
use go_ldlm.Lock.{acquired, LockReply, failed, Case}
use go_ldlm.Common.{
  ◌>>=◌, pure, string_panic, error_panic, Outcome, returns, panics, Method, ◌>>◌, ℕ, ◌+◌, ◌*◌,
  String, ◌==◌, ◌⊎◌, inl, inr, Bool, true, false, not, Option, none, some, List, [], ◌∷◌, ◌++◌, leb,
  if◌then◌else◌, ℤ, is_neg, is_pos, pos_part, pos,
}
use Keys.{timer_key}
use Interfaces.{LockManager}
use go_ldlm.Timer
use go_ldlm.Timer.{add, refresh, Timer, remove, fire, Timers}
use go_ldlm.Session
use go_ldlm.Session.{
  add_lock, elements, SessionLocks, remove_lock, SessionStorer, Sessions, ClientLock,
}

-- Durations are nanoseconds.
abbrev pub second : ℕ
second = 1_000_000_000

-- What onTimeoutFunc closes over.
pub record OnTimeout : Type 0 where
  pub name : String
  pub key : String
  pub session_id : String

-- server.Lock
pub record ServerLock : Type 0 where
  pub name : String
  pub key : String
  pub locked : Bool

-- A *Lock that may be nil, and an error.
abbrev pub Reply : Type 0
Reply = Option ServerLock × Option Error

-- What Lock remembers while it waits. `id` is the lock that its goroutine points to.
pub record Waiting : Type 0 where
  pub name : String
  pub key : String
  pub size : ℤ
  pub session_id : String
  pub lock_timeout : Option ℤ
  pub deadline : Option ℕ
  pub id : ℕ

-- What the goroutine of Lock does next: its first test, or a case of its select.
pub data Event : Type 0 where
  begins : Event
  selects : Case → Event

abbrev pub is_negative : Option ℤ → Bool
is_negative none = false
is_negative (some t) = is_neg t

abbrev pub size_or_one : Option ℤ → ℤ
size_or_one none = pos 1
size_or_one (some size) = size

-- The context with the wait timeout: cancelled with its parent, or when the deadline is reached.
abbrev pub lock_context : Context → Option ℕ → ℕ → Context
lock_context (done err cause) deadline now = done err cause
lock_context live none now = live
lock_context live (some d) now =
    if leb d now then done deadline_exceeded lock_wait_timeout else live

abbrev pub wait_deadline : Option ℤ → ℕ → Option ℕ
wait_deadline none now = none
wait_deadline (some t) now = if is_pos t then some (now + pos_part t * second) else none

pub record Server (State Disk : Type 0) : Type 0 where
  pub lock_mgr : State
  pub sess_mgr : Sessions Disk
  pub lock_timers : Timers OnTimeout
  pub is_shutdown : Bool
  pub no_clear_on_disconnect : Bool

module _ (lm : LockManager) (st : SessionStorer) where
  open lm use {State}
  open st use {Disk}

  abbrev pub Call : Type 0 → Type 0
  Call A = Method (Server State Disk) A

  unfoldable pub on_locks : {A : Type 0} → Method State A → Call A
  on_locks m s = let (r, x) = m s.lock_mgr in (r, record s { lock_mgr = x })

  unfoldable pub on_sessions : {A : Type 0} → Method (Sessions Disk) A → Call A
  on_sessions m s = let (r, x) = m s.sess_mgr in (r, record s { sess_mgr = x })

  unfoldable pub on_timers : (Timers OnTimeout → Timers OnTimeout) → Call (Unit {0})
  on_timers f s = (returns tt, record s { lock_timers = f s.lock_timers })

  unfoldable pub arm : String → String → String → Option ℤ → ℕ → Call (Unit {0})
  arm name key session_id none now = pure tt
  arm name key session_id (some t) now =
      if is_pos t
      then on_timers (
          Timer.add (timer_key name key)
            (record { name = name; key = key; session_id = session_id }) now (pos_part t * second))
      else pure tt

  -- What Lock and TryLock do once they hold the lock.
  unfoldable pub register : String → String → ℤ → String → Option ℤ → ℕ → Call (Unit {0})
  register name key size session_id lock_timeout now = do
    on_sessions (Session.add_lock st name key size session_id)
    arm name key session_id lock_timeout now

  -- After the lock manager has answered.
  try_lock_answered : String → String → ℤ → String → Option ℤ → ℕ → Bool × Option Error → Call Reply
  try_lock_answered name key size session_id lock_timeout now (true, err) = do
    register name key size session_id lock_timeout now
    pure (some (record { name = name; key = key; locked = true }), err)
  try_lock_answered name key size session_id lock_timeout now (false, err) =
      pure (some (record { name = name; key = key; locked = false }), err)

  unfoldable pub try_lock : Option String → String → Option ℤ → Option ℤ → String → ℕ → Call Reply
  unfolding try_lock_answered
  try_lock none name size lock_timeout key now = pure (none, some session_does_not_exist)
  try_lock (some session_id) name size lock_timeout key now =
      if is_negative lock_timeout then pure (none, some invalid_lock_timeout) else do
        answer ←
            if name == ""
            then pure (false, some empty_name)
            else on_locks (lm.try_lock name key (size_or_one size) now)
        try_lock_answered name key (size_or_one size) session_id lock_timeout now answer

  -- The request up to its wait: an answer at once, or what it remembers.
  lock_started : Waiting → Error ⊎ ℕ → Call (Reply ⊎ Waiting)
  lock_started w (inl err) =
      pure (inl (some (record { name = w.name; key = ""; locked = false }), some err))
  lock_started w (inr id) = pure (inr (record w { id = id }))

  unfoldable pub lock :
      Option String → String → Option ℤ → Option ℤ → Option ℤ → String → ℕ → Call (Reply ⊎ Waiting)
  unfolding lock_started
  lock none name size lock_timeout wait_timeout key now =
      pure (inl (none, some session_does_not_exist))
  lock (some session_id) name size lock_timeout wait_timeout key now =
      if is_negative lock_timeout
      then pure (inl (none, some invalid_lock_timeout))
      else if is_negative wait_timeout
      then pure (inl (none, some invalid_wait_timeout))
      else do
        started ←
            if name == ""
            then pure (inl empty_name)
            else on_locks (lm.lock name (size_or_one size) now)
        lock_started
            (record {
              name = name;
              key = key;
              size = size_or_one size;
              session_id = session_id;
              lock_timeout = lock_timeout;
              deadline = wait_deadline wait_timeout now;
              id = 0;
            })
            started

  -- The request once its goroutine has replied; none where it goes on waiting.
  lock_replied : Waiting → ℕ → Option LockReply → Call (Option Reply)
  lock_replied w now none = pure none
  lock_replied w now (some (failed err)) =
      pure (some (some (record { name = w.name; key = w.key; locked = false }), some err))
  lock_replied w now (some acquired) = do
    register w.name w.key w.size w.session_id w.lock_timeout now
    pure (some (some (record { name = w.name; key = w.key; locked = true }), none))

  -- The goroutine's next event, with the context of the request as it is then.
  lock_event : Waiting → Context → Event → Method State (Option LockReply)
  lock_event w rctx begins x = (returns (lm.begin x), x)
  lock_event w rctx (selects c) x = lm.wake w.name w.key w.id rctx c x

  unfoldable pub lock_resume : Waiting → Context → Event → ℕ → Call (Option Reply)
  unfolding lock_replied lock_event
  lock_resume w ctx event now = do
    reply ← on_locks (lock_event w (lock_context ctx w.deadline now) event)
    lock_replied w now reply

  unlock_answered : String → String → String → Bool × Option Error → Call (Bool × Option Error)
  unlock_answered name key session_id (true, err) = do
    on_sessions (Session.remove_lock st name key session_id)
    on_timers (Timer.remove (timer_key name key))
    pure (true, err)
  unlock_answered name key session_id (false, err) = pure (false, err)

  unfoldable pub unlock : Option String → String → String → ℕ → Call (Bool × Option Error)
  unfolding unlock_answered
  unlock none name key now = pure (false, some session_does_not_exist)
  unlock (some session_id) name key now = do
    answer ← on_locks (lm.unlock name key now)
    unlock_answered name key session_id answer

  refresh_error : Option Error → Option Error
  refresh_error (some timer_does_not_exist) = some lock_does_not_exist_or_invalid_key
  refresh_error e = e

  -- The session of the caller is not looked at.
  unfoldable pub refresh_lock : String → String → ℤ → ℕ → Call Reply
  unfolding refresh_error
  refresh_lock name key lock_timeout now s =
      if not (is_pos lock_timeout)
      then (returns (none, some invalid_lock_timeout), s)
      else let ((locked, err), timers) =
          Timer.refresh (timer_key name key) now (pos_part lock_timeout * second) s.lock_timers in
        (
          returns (some (record { name = name; key = key; locked = locked }), refresh_error err),
          record s { lock_timers = timers },
        )

  all_locks : Session.SessionLocks → List ClientLock
  all_locks [] = []
  all_locks ((session_id, ls) ∷ rest) = Session.elements ls ++ all_locks rest

  unfoldable pub locks : Server State Disk → List ClientLock
  unfolding all_locks
  locks s = all_locks s.sess_mgr.session_locks

  -- The context that is returned carries the new session id.
  unfoldable pub create_session : String → Server State Disk → Server State Disk
  create_session session_id s = record s {
    sess_mgr = Session.create_session st session_id s.sess_mgr;
  }

  -- One round of the loop of DestroySession; an error is only logged.
  released : String → String → Bool × Option Error → Call (Unit {0})
  released name key (true, none) = on_timers (Timer.remove (timer_key name key))
  released name key answer = pure tt

  release_one : ClientLock → ℕ → Call (Unit {0})
  release_one l now = do
    answer ← on_locks (lm.unlock l.name l.key now)
    released l.name l.key answer

  release_all : List ClientLock → ℕ → Call (Unit {0})
  release_all [] now = pure tt
  release_all (l ∷ ls) now = do release_one l now; release_all ls now

  unfoldable pub destroy_session : Option String → ℕ → Call String
  unfolding release_all release_one released
  destroy_session none now s =
      (panics (error_panic "interface conversion: interface {} is nil, not string"), s)
  destroy_session (some session_id) now s =
      if s.is_shutdown
      then pure session_id s
      else (do
        ls ← on_sessions (Session.destroy_session st session_id)
        if s.no_clear_on_disconnect then pure tt else release_all ls now
        pure session_id)
          s

  -- recover() in onTimeoutFunc: `r.(string)` panics anew where the value is an error.
  recovered : Outcome (Unit {0}) → Outcome (Unit {0})
  recovered (panics (string_panic e)) = returns tt
  recovered r = r

  -- What a lock timer runs when it fires.
  unfoldable pub on_timeout : OnTimeout → ℕ → Call (Unit {0})
  unfolding recovered
  on_timeout c now = do
    on_locks (lm.unlock c.name c.key now)
    λ s.
        let (r, s') = on_sessions (Session.remove_lock st c.name c.key c.session_id) s in
        (recovered r, s')

  -- A lock timer fires, runs its function and removes its key (timer.Add).
  unfoldable pub timer_fires :
      ℕ → ℕ → Server State Disk → Option (Outcome (Unit {0}) × Server State Disk)
  timer_fires i now s = elim (Timer.fire i now s.lock_timers) [
    | none ↦ none
    | some ((c, key), timers) ↦
        some
          ((on_timeout c now >> on_timers (Timer.remove key)) (record s { lock_timers = timers }))
  ]
