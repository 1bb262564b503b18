-- ===== src/Client/Errors.antt =====
-- What the service's errors become on their way to a client.

-- The errors that client/client.go gives names to, and that reach it under another message.
use go_ldlm.Server.Interfaces.{LockManager}
use go_ldlm.Server.Keys.{timer_key}
use go_ldlm.Server.{Server}
use go_ldlm.Grpc.{LockResponse, lock_response}
use go_ldlm.Session.{SessionStorer}
use go_ldlm.Grpc.Codes.{error_code, lock_err_to_proto_buff_err}
use go_ldlm.Errors.{
  timer_does_not_exist, lock_not_locked, lock_wait_timeout, Error, other, lock_does_not_exist,
  invalid_lock_size, error_message, invalid_lock_key, lock_size_mismatch,
  lock_does_not_exist_or_invalid_key,
}
use go_ldlm.Client.{rpc_error_to_error}
use go_ldlm.Common.{
  lookup, pure, continue, returns, ℕ, String, true, false, ℤ, is_pos, ◌≡◌, refl, Option, none, some,
}
use mathlib.Core.Option
use go_ldlm.Grpc
use go_ldlm.Server
use go_ldlm.Timer.{refresh}

abbrev pub arrives_as : Error → Error
arrives_as invalid_lock_key = invalid_lock_key
arrives_as lock_not_locked = lock_not_locked
arrives_as lock_does_not_exist = lock_does_not_exist
arrives_as lock_size_mismatch = lock_size_mismatch
arrives_as invalid_lock_size = invalid_lock_size
arrives_as lock_wait_timeout = lock_wait_timeout
arrives_as timer_does_not_exist = lock_does_not_exist_or_invalid_key
arrives_as e = other (error_message e)

-- Through the protobuf error and back: six of the errors that the client names arrive as
-- themselves, the timers' error arrives as lock_does_not_exist_or_invalid_key, and every other
-- error, that one included, arrives as an anonymous error with the same message. No error stays no
-- error.
pub rpc_error_roundtrip :
    (e : Option Error) → rpc_error_to_error (lock_err_to_proto_buff_err e) ≡ Option.map arrives_as e
unfolding rpc_error_to_error lock_err_to_proto_buff_err error_code
rpc_error_roundtrip none = refl
rpc_error_roundtrip (some invalid_lock_key) = refl
rpc_error_roundtrip (some _) = refl

module _ (lm : LockManager) (st : SessionStorer) where
  open lm use {State}
  open st use {Disk}

  missing : String → String → LockResponse
  missing name key = record {
    locked = false;
    name = name;
    key = key;
    error = lock_err_to_proto_buff_err (some lock_does_not_exist_or_invalid_key);
  }

  server_missing :
      (name key : String) (t : ℤ) (now : ℕ) (s : Server State Disk)
      → is_pos t ≡ true
      → lookup (timer_key name key) s.lock_timers.timers ≡ none
      → (Server.refresh_lock lm st name key t now s).0
        ≡ returns (
          some (record { name = name; key = key; locked = false }),
          some lock_does_not_exist_or_invalid_key,
        )
  unfolding Server.refresh_lock refresh
  server_missing name key t now s positive absent =
      rw (positive, Server.refresh_lock) (rw (absent, refresh) refl)

  refresh_missing :
      (name key : String) (t : ℤ) (now : ℕ) (s : Server State Disk)
      → is_pos t ≡ true
      → lookup (timer_key name key) s.lock_timers.timers ≡ none
      → (Grpc.refresh_lock lm st name key t now s).0 ≡ returns (missing name key)
  unfolding missing Grpc.refresh_lock Grpc.lock_response pure continue
  refresh_missing name key t now s positive absent =
      rw (server_missing name key t now s positive absent, continue) refl

  -- A client that refreshes a lock that has no timer, with a positive timeout, gets no lock and an
  -- anonymous error with the message of lock_does_not_exist_or_invalid_key, not the error of that
  -- name.
  pub refresh_missing_anonymous :
      (name key : String) (t : ℤ) (now : ℕ) (s : Server State Disk)
      → is_pos t ≡ true
      → lookup (timer_key name key) s.lock_timers.timers ≡ none
      → (response : LockResponse) × ((Grpc.refresh_lock lm st name key t now s).0
          ≡ returns response)
        × (response.locked ≡ false)
        × (rpc_error_to_error response.error
            ≡ some (other (error_message lock_does_not_exist_or_invalid_key)))
  unfolding missing
  refresh_missing_anonymous name key t now s positive absent = (
    missing name key,
    refresh_missing name key t now s positive absent,
    refl,
    rpc_error_roundtrip (some lock_does_not_exist_or_invalid_key),
  )
