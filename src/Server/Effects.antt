-- ===== src/Server/Effects.antt =====
-- What the requests of server/server.go leave behind, however they end: the lock manager as its own
-- call left it, and the lists as the session manager's call left them.
use go_ldlm.Server.Interfaces.{LockManager}
use go_ldlm.Errors.{Error}
use go_ldlm.Session.{SessionStorer, remove_lock, Sessions}
use go_ldlm.Server.Keys.{timer_key}
use go_ldlm.Timer
use go_ldlm.Server.{
  try_lock, try_lock_answered, Waiting, wait_deadline, unlock_answered, unlock, lock, size_or_one,
  on_locks, is_negative, on_timers, Call, on_sessions, Server, OnTimeout, on_timeout, lock_started,
}
use go_ldlm.Timer.{Timers}
use go_ldlm.Common.{
  ◌>>◌, pure, continue, Outcome, returns, panics, blocks, Method, ◌>>=◌, ℕ, String, ◌==◌, ◌≡◌, refl,
  ◌⊎◌, inl, inr, Bool, true, false, Option, some, Bool-cases, ℤ,
}

module _ (lm : LockManager) (st : SessionStorer) where
  open lm use {State}
  open st use {Disk}

  -- A part of a request that touches neither locks nor lists.
  abbrev IsQuiet : {A : Type 0} → Call lm st A → Type 0
  IsQuiet m =
      (s : Server State Disk) → ((m s).1.lock_mgr ≡ s.lock_mgr) × ((m s).1.sess_mgr ≡ s.sess_mgr)

  pure-IsQuiet : {A : Type 0} (a : A) → IsQuiet (pure a)
  unfolding pure
  pure-IsQuiet a s = (refl, refl)

  on_timers-IsQuiet : (f : Timers OnTimeout → Timers OnTimeout) → IsQuiet (on_timers lm st f)
  unfolding on_timers
  on_timers-IsQuiet f s = (refl, refl)

  continue-IsQuiet :
      {A B : Type 0} (r : Outcome A) (f : A → Call lm st B)
      → ((a : A) → IsQuiet (f a))
      → IsQuiet (continue r f)
  unfolding continue
  continue-IsQuiet (returns a) f q s = q a s
  continue-IsQuiet (panics e) f q s = (refl, refl)
  continue-IsQuiet blocks f q s = (refl, refl)

  after_locks :
      {A B : Type 0} (m : Method State A) (f : A → Call lm st B)
      → ((a : A) → IsQuiet (f a))
      → (s : Server State Disk)
      → let r = (on_locks lm st m >>= f) s in
        (r.1.lock_mgr ≡ (m s.lock_mgr).1) × (r.1.sess_mgr ≡ s.sess_mgr)
  unfolding on_locks
  after_locks m f q s =
      continue-IsQuiet (m s.lock_mgr).0 f q (record s { lock_mgr = (m s.lock_mgr).1 })

  after_sessions :
      {A B : Type 0} (m : Method (Sessions Disk) A) (f : A → Call lm st B)
      → ((a : A) → IsQuiet (f a))
      → (s : Server State Disk)
      → let r = (on_sessions lm st m >>= f) s in
        (r.1.lock_mgr ≡ s.lock_mgr) × (r.1.sess_mgr ≡ (m s.sess_mgr).1)
  unfolding on_sessions
  after_sessions m f q s =
      continue-IsQuiet (m s.sess_mgr).0 f q (record s { sess_mgr = (m s.sess_mgr).1 })

  lock_started-IsQuiet : (w : Waiting) (r : Error ⊎ ℕ) → IsQuiet (lock_started lm st w r)
  unfolding lock_started pure
  lock_started-IsQuiet w (inl e) s = (refl, refl)
  lock_started-IsQuiet w (inr id) s = (refl, refl)

  unlock_answered_leaves :
      (name key session_id : String) (a : Bool × Option Error) (s : Server State Disk)
      → let r = unlock_answered lm st name key session_id a s in
        (r.1.lock_mgr ≡ s.lock_mgr)
        × ((r.1.sess_mgr ≡ s.sess_mgr)
            ⊎ (r.1.sess_mgr ≡ (remove_lock st name key session_id s.sess_mgr).1))
  unfolding unlock_answered pure on_timers continue
  unlock_answered_leaves name key session_id (true, err) s =
      let (mgr, sess) =
        after_sessions (remove_lock st name key session_id)
          (λ _. on_timers lm st (Timer.remove (timer_key name key)) >>= λ _. pure (true, err))
          (λ _ _. (refl, refl)) s in
      (mgr, inr sess)
  unlock_answered_leaves name key session_id (false, err) s = (refl, inl refl)

  -- The function of a timer, and then the removal of its key.
  pub timer_fired_leaves :
      (c : OnTimeout) (key : String) (now : ℕ) (s : Server State Disk)
      → let r = (on_timeout lm st c now >> on_timers lm st (Timer.remove key)) s in
        (r.1.lock_mgr ≡ (on_timeout lm st c now s).1.lock_mgr)
        × (r.1.sess_mgr ≡ (on_timeout lm st c now s).1.sess_mgr)
  timer_fired_leaves c key now s =
      continue-IsQuiet (on_timeout lm st c now s).0 (λ _. on_timers lm st (Timer.remove key))
        (λ _. on_timers-IsQuiet (Timer.remove key)) (on_timeout lm st c now s).1

  -- Lock up to its wait, past the checks of its arguments: the lock manager's own Lock or nothing.
  pub lock_leaves :
      (session_id name : String) (size t w : Option ℤ) (key : String) (now : ℕ)
      (s : Server State Disk)
      → let r = lock lm st (some session_id) name size t w key now s in
        (r.1.sess_mgr ≡ s.sess_mgr)
        × ((r.1.lock_mgr ≡ s.lock_mgr)
            ⊎ (r.1.lock_mgr ≡ (lm.lock name (size_or_one size) now s.lock_mgr).1))
  unfolding lock lock_started pure continue
  lock_leaves session_id name size t w key now s = elim (Bool-cases (is_negative t)) [
    | inl y ↦ rw y (refl, inl refl)
    | inr n ↦ elim (Bool-cases (is_negative w)) [
      | inl y ↦ rw (n, y) (refl, inl refl)
      | inr d ↦ elim (Bool-cases (name == "")) [
        | inl y ↦ rw (n, d, y) (refl, inl refl)
        | inr e ↦
            let w' : Waiting = record {
              name = name;
              key = key;
              size = size_or_one size;
              session_id = session_id;
              lock_timeout = t;
              deadline = wait_deadline w now;
              id = 0;
            } in
            let (mgr, sess) =
              after_locks (lm.lock name (size_or_one size) now) (lock_started lm st w')
                (lock_started-IsQuiet w') s in
            rw (n, d, e) (sess, inr mgr)
      ]
    ]
  ]

  -- Unlock: the lock manager's Unlock, and the session's RemoveLock if that unlocked.
  pub unlock_leaves :
      (session_id name key : String) (now : ℕ) (s : Server State Disk) (a : Bool × Option Error)
      → (lm.unlock name key now s.lock_mgr).0 ≡ returns a
      → let r = unlock lm st (some session_id) name key now s in
        (r.1.lock_mgr ≡ (lm.unlock name key now s.lock_mgr).1)
        × ((r.1.sess_mgr ≡ s.sess_mgr)
            ⊎ (r.1.sess_mgr ≡ (remove_lock st name key session_id s.sess_mgr).1))
  unfolding unlock on_locks continue
  unlock_leaves session_id name key now s a e = rw e (
      unlock_answered_leaves name key session_id a
        (record s { lock_mgr = (lm.unlock name key now s.lock_mgr).1 }))

  -- The timeout of a lock: Unlock and RemoveLock.
  pub on_timeout_leaves :
      (c : OnTimeout) (now : ℕ) (s : Server State Disk) (a : Bool × Option Error)
      → (lm.unlock c.name c.key now s.lock_mgr).0 ≡ returns a
      → let r = on_timeout lm st c now s in
        (r.1.lock_mgr ≡ (lm.unlock c.name c.key now s.lock_mgr).1)
        × (r.1.sess_mgr ≡ (remove_lock st c.name c.key c.session_id s.sess_mgr).1)
  unfolding on_timeout on_locks on_sessions continue
  on_timeout_leaves c now s a e = rw e (refl, refl)

  -- TryLock refuses a negative timeout and an empty name, and then leaves everything as it was.
  pub try_lock_refused :
      (session_id name : String) (size t : Option ℤ) (key : String) (now : ℕ)
      (s : Server State Disk)
      → (is_negative t ≡ true) ⊎ ((name == "") ≡ true)
      → (try_lock lm st (some session_id) name size t key now s).1 ≡ s
  unfolding try_lock try_lock_answered pure continue
  try_lock_refused session_id name size t key now s (inl y) = rw y refl
  try_lock_refused session_id name size t key now s (inr e) = elim (Bool-cases (is_negative t)) [
    | inl y ↦ rw y refl
    | inr n ↦ rw (n, e) refl
  ]
