-- ===== src/Client/Requests.antt =====
-- client/client.go: the requests of a client, and the locks it gets. The service is a function from
-- a request and the number of the attempt to what that attempt returns.
use go_ldlm.Errors.{other, Error, lock_not_locked}
use go_ldlm.Common.{
  ◌>>=◌, ◌+◌, arith, pure, returns, Method, ◌>>◌, ℕ, zero, suc, String, ◌≡◌, refl, ◌⊎◌, inl, inr,
  Bool, true, false, not, Option, none, some, if◌then◌else◌, ℤ, is_pos, pos_part, pos, negsuc,
}
use go_ldlm.Client.Retry.{rpc_with_retry-Ends}
use go_ldlm.Client.{
  Client, RpcResult, answers, unavailable, fails, rpc_with_retry, rpc_error_to_error,
  maybe_create_refresher, maybe_remove_refresher,
}
use go_ldlm.Grpc.{LockRequest, LockResponse, UnlockResponse}
use go_ldlm.Server.{is_negative, size_or_one}
use mathlib.Core.Option

pub record ClientLock : Type 0 where
  pub name : String
  pub key : String
  pub locked : Bool

pub record LockOptions : Type 0 where
  pub wait_timeout_seconds : ℤ
  pub lock_timeout_seconds : ℤ
  pub size : ℤ

-- An error of the transport, or of the client itself.
pub data CallError : Type 0 where
  rpc_error : CallError
  rejected : Error → CallError

-- What Lock, TryLock and RefreshLock return.
abbrev pub Reply : Type 0
Reply = CallError ⊎ (ClientLock × Option Error)

-- Nil options are options of zeros.
abbrev pub options : Option LockOptions → LockOptions
options none = record { wait_timeout_seconds = pos 0; lock_timeout_seconds = pos 0; size = pos 0 }
options (some o) = o

abbrev pub if_positive : ℤ → Option ℤ
if_positive n = if is_pos n then some n else none

unfoldable pub lock_request : String → LockOptions → LockRequest
lock_request name o = record {
  name = name;
  size = if_positive o.size;
  lock_timeout_seconds = if_positive o.lock_timeout_seconds;
  wait_timeout_seconds = if_positive o.wait_timeout_seconds;
}

-- rpcWithRetry, with fuel for every attempt that it may make.
abbrev pub retried : {A : Type 0} → ℤ → (ℕ → RpcResult A) → Option (RpcResult A × ℕ)
retried max_retries f = rpc_with_retry (suc (pos_part max_retries)) max_retries f

-- What Lock and TryLock do with the response.
lock_answered : ℤ → Option (RpcResult LockResponse × ℕ) → Method Client (Option Reply)
lock_answered timeout none = pure none
lock_answered timeout (some (answers r, n)) = do
  if r.locked then maybe_create_refresher r.locked r.name r.key timeout else pure tt
  pure (
      some (
        inr (record { name = r.name; key = r.key; locked = r.locked }, rpc_error_to_error r.error)))
lock_answered timeout (some (unavailable, n)) = pure (some (inl rpc_error))
lock_answered timeout (some (fails, n)) = pure (some (inl rpc_error))

unfoldable pub lock :
    (LockRequest → ℕ → RpcResult LockResponse)
    → String
    → Option LockOptions
    → Method Client (Option Reply)
unfolding lock_answered
lock service name o c =
    lock_answered (options o).lock_timeout_seconds
      (retried c.max_retries (service (lock_request name (options o)))) c

-- A TryLockRequest has no wait timeout.
unfoldable pub try_lock :
    (LockRequest → ℕ → RpcResult LockResponse)
    → String
    → Option LockOptions
    → Method Client (Option Reply)
unfolding lock_answered
try_lock service name o c =
    if is_pos (options o).wait_timeout_seconds
    then (returns (some (inl (rejected (other "wait timeout not supported for TryLock")))), c)
    else lock_answered (options o).lock_timeout_seconds
        (retried c.max_retries
          (service (record (lock_request name (options o)) { wait_timeout_seconds = none })))
        c

pub unlock_answered :
    Option (RpcResult UnlockResponse × ℕ) → Option (Bool × Option (CallError ⊎ Error))
unlock_answered none = none
unlock_answered (some (answers r, n)) =
    some (r.unlocked, Option.map inr (rpc_error_to_error r.error))
unlock_answered (some (unavailable, n)) = some (false, some (inl rpc_error))
unlock_answered (some (fails, n)) = some (false, some (inl rpc_error))

unfoldable pub unlock :
    (String → String → ℕ → RpcResult UnlockResponse)
    → String
    → String
    → Method Client (Option (Bool × Option (CallError ⊎ Error)))
unfolding unlock_answered
unlock service name key c =
    (do
      maybe_remove_refresher name
      pure (unlock_answered (retried c.max_retries (service name key))))
      c

-- Lock.Unlock: it clears `locked` when it succeeds.
cleared :
    ClientLock
    → Option (Bool × Option (CallError ⊎ Error))
    → Method Client (Option (Bool × Option (CallError ⊎ Error)) × ClientLock)
cleared l (some (true, none)) = pure (some (true, none), record l { locked = false })
cleared l r = pure (r, l)

unfoldable pub unlock_lock :
    (String → String → ℕ → RpcResult UnlockResponse)
    → ClientLock
    → Method Client (Option (Bool × Option (CallError ⊎ Error)) × ClientLock)
unfolding cleared
unlock_lock service l =
    if not l.locked
    then pure (some (false, some (inr lock_not_locked)), l)
    else do r ← unlock service l.name l.key; cleared l r

refresh_answered : String → Option (RpcResult LockResponse × ℕ) → Option Reply
refresh_answered name none = none
refresh_answered name (some (answers r, n)) =
    some (inr (record { name = name; key = r.key; locked = r.locked }, rpc_error_to_error r.error))
refresh_answered name (some (unavailable, n)) = some (inl rpc_error)
refresh_answered name (some (fails, n)) = some (inl rpc_error)

-- The client itself does not change.
unfoldable pub refresh_lock :
    (String → String → ℤ → ℕ → RpcResult LockResponse) → String → String → ℤ → Client → Option Reply
unfolding refresh_answered
refresh_lock service name key lock_timeout c =
    refresh_answered name (retried c.max_retries (service name key lock_timeout))

answers_lem :
    (r : RpcResult UnlockResponse) (n : ℕ)
    → (a : Bool × Option (CallError ⊎ Error)) × (unlock_answered (some (r, n)) ≡ some a)
unfolding unlock_answered
answers_lem (answers r) n = ((r.unlocked, Option.map inr (rpc_error_to_error r.error)), refl)
answers_lem unavailable n = ((false, some (inl rpc_error)), refl)
answers_lem fails n = ((false, some (inl rpc_error)), refl)

pub retried_answers :
    (max_retries : ℤ) (f : ℕ → RpcResult UnlockResponse)
    → (a : Bool × Option (CallError ⊎ Error)) × (unlock_answered (retried max_retries f) ≡ some a)
retried_answers max_retries f =
    let ends = rpc_with_retry-Ends (suc (pos_part max_retries)) max_retries f (omega arith) in
    let (a, e) = answers_lem (f ends.last) (ends.last + 1) in (a, rw ends.result e)

-- A request of Lock passes the server's checks of its numbers: no timeout in it is negative, and
-- the size that the server makes of it is positive, whatever the options are.
pub lock_request_accepted :
    (name : String) (o : Option LockOptions)
    → let req = lock_request name (options o) in
      (is_negative req.lock_timeout_seconds ≡ false)
      × (is_negative req.wait_timeout_seconds ≡ false)
      × (is_pos (size_or_one req.size) ≡ true)
unfolding lock_request
lock_request_accepted name o = (
  fits (options o).lock_timeout_seconds,
  fits (options o).wait_timeout_seconds,
  sized (options o).size,
)
  where
    fits : (n : ℤ) → is_negative (if_positive n) ≡ false
    fits (pos zero) = refl
    fits (pos (suc n)) = refl
    fits (negsuc n) = refl

    sized : (n : ℤ) → is_pos (size_or_one (if_positive n)) ≡ true
    sized (pos zero) = refl
    sized (pos (suc n)) = refl
    sized (negsuc n) = refl
