-- ===== src/Server/Steps.antt =====
-- server/server.go as a whole: any history of its requests, session ends and lock timeouts.
use go_ldlm.Server.Interfaces.{LockManager}
use go_ldlm.Errors.{Context}
use go_ldlm.Session.{SessionStorer}
use go_ldlm.Server.{
  try_lock, unlock, create_session, destroy_session, refresh_lock, lock, lock_resume, Server,
  Waiting, Event, timer_fires,
}
use go_ldlm.Common.{Outcome, ℕ, String, Option, none, some, List, [], ◌∷◌, ℤ}

-- What happens to the server: a connection starts or ends, a request comes in, a Lock that waits
-- goes on, or a lock timer fires.
pub data Happening : Type 0 where
  connects : (session_id : String) → Happening
  disconnects : (session_id : String) (now : ℕ) → Happening
  try_locks :
      (session_id name : String) (size timeout : Option ℤ) (key : String) (now : ℕ) → Happening
  locks :
      (session_id name : String) (size timeout wait : Option ℤ) (key : String) (now : ℕ) → Happening
  resumes : (w : Waiting) (ctx : Context) (e : Event) (now : ℕ) → Happening
  unlocks : (session_id name key : String) (now : ℕ) → Happening
  refreshes : (name key : String) (timeout : ℤ) (now : ℕ) → Happening
  times_out : (timer now : ℕ) → Happening

module _ (lm : LockManager) (st : SessionStorer) where
  open lm use {State}
  open st use {Disk}

  unfoldable pub fired :
      Server State Disk → Option (Outcome (Unit {0}) × Server State Disk) → Server State Disk
  fired s none = s
  fired s (some (r, t)) = t

  -- The server afterwards, however the call ends.
  unfoldable pub step : Server State Disk → Happening → Server State Disk
  unfolding fired
  step s (connects session_id) = create_session lm st session_id s
  step s (disconnects session_id now) = (destroy_session lm st (some session_id) now s).1
  step s (try_locks session_id name size timeout key now) =
      (try_lock lm st (some session_id) name size timeout key now s).1
  step s (locks session_id name size timeout wait key now) =
      (lock lm st (some session_id) name size timeout wait key now s).1
  step s (resumes w ctx e now) = (lock_resume lm st w ctx e now s).1
  step s (unlocks session_id name key now) = (unlock lm st (some session_id) name key now s).1
  step s (refreshes name key timeout now) = (refresh_lock lm st name key timeout now s).1
  step s (times_out timer now) = fired s (timer_fires lm st timer now s)

  unfoldable pub run : Server State Disk → List Happening → Server State Disk
  run s [] = s
  run s (h ∷ hs) = run (step s h) hs
