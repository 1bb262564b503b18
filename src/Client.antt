-- ===== src/Client.antt =====
-- client/client.go: the errors that a client sees, its retries, and its refreshers.
pub mod Errors
pub mod Retry
pub mod Refresh
pub mod Requests
pub mod Goroutine
pub mod Stopping
pub mod Ends
pub mod Dial
mod Tests
-- The client's own errors are those of the server's packages; errors.New(m) is `other m`.
use Prim.Native.Nat.{max}
use Prim.Native.String.{◌++◌ as ◌<>◌}
use go_ldlm.Grpc.Codes.{
  unknown_code, invalid_lock_key_code, ErrorCode, lock_size_mismatch_code, lock_does_not_exist_code,
  unlisted_code, not_locked_code, PbError, invalid_lock_size_code,
  lock_does_not_exist_or_invalid_key_code, lock_wait_timeout_code,
}
use go_ldlm.Errors.{
  other, lock_does_not_exist_or_invalid_key, invalid_lock_key, invalid_lock_size, Error,
  lock_not_locked, lock_does_not_exist, lock_wait_timeout, lock_size_mismatch,
}
use go_ldlm.Common.{
  error_panic, get_or, set, length, List, [], ◌∷◌, ◌++◌, pure, ◌>>◌, lookup, delete, insert, Assoc,
  string_panic, returns, panics, Method, ℕ, zero, suc, ◌+◌, ◌-◌, Bool, false, not, ◌||◌, map, leb,
  eqb, if◌then◌else◌, ℤ, pos_part, pos, negsuc, String, Option, none, some,
}

client_error : ErrorCode → String → Error
client_error unknown_code m = other m
client_error lock_does_not_exist_code m = lock_does_not_exist
client_error invalid_lock_key_code m = invalid_lock_key
client_error lock_wait_timeout_code m = lock_wait_timeout
client_error not_locked_code m = lock_not_locked
client_error lock_does_not_exist_or_invalid_key_code m = lock_does_not_exist_or_invalid_key
client_error lock_size_mismatch_code m = lock_size_mismatch
client_error invalid_lock_size_code m = invalid_lock_size
client_error (unlisted_code number) m =
    other ("unknown RPC error. code: " <> number <> " message: " <> m)

unfoldable pub rpc_error_to_error : Option PbError → Option Error
unfolding client_error
rpc_error_to_error none = none
rpc_error_to_error (some err) = some (client_error err.code err.message)

-- What a client's call of the service returns: an answer, or an error of the transport.
pub data RpcResult {ℓ} (A : Type ℓ) : Type ℓ where
  answers : A → RpcResult A
  unavailable : RpcResult A
  fails : RpcResult A

module _ {ℓ} {A : Type ℓ} where
  -- The loop of rpcWithRetry, with fuel; `f` gives the result of each attempt. The result comes
  -- with the number of attempts; none where the fuel runs out.
  retry_loop : ℕ → ℤ → (ℕ → RpcResult A) → ℕ → Option (RpcResult A × ℕ)
  retry_loop zero max_retries f retries = none
  retry_loop (suc fuel) max_retries f retries =
      let again = retry_loop fuel max_retries f (retries + 1) in
      elim (f retries) [
        | answers a ↦ some (answers a, retries + 1)
        | unavailable ↦
            if leb (pos_part max_retries) retries then some (unavailable, retries + 1) else again
        | fails ↦ some (fails, retries + 1)
      ]

  unfoldable pub rpc_with_retry : ℕ → ℤ → (ℕ → RpcResult A) → Option (RpcResult A × ℕ)
  unfolding retry_loop
  rpc_with_retry fuel max_retries f = retry_loop fuel max_retries f 0

-- The interval of refresher.Start, in seconds: minRefreshSeconds is 10.
unfoldable pub refresh_interval : ℤ → ℕ
refresh_interval (negsuc n) = 10
refresh_interval (pos t) = if leb t 30 then 10 else max (t - 30) 10

-- Where the goroutine of a refresher is: before its select or on the way back to it, at the select,
-- in its call of RefreshLock, or past its return, where it has closed the channel `stop`.
pub data Phase : Type 0 where
  starting selecting refreshing finished : Phase

-- `id` stands for the channel `stop` and for the goroutine that reads it.
pub record Refresher : Type 0 where
  pub name : String
  pub key : String
  pub lock_timeout_seconds : ℤ
  pub id : ℕ

-- `goroutines` has the goroutines of all refreshers that were made.
pub record Client : Type 0 where
  pub refresh_map : Assoc Refresher
  pub goroutines : List Phase
  pub no_auto_refresh : Bool
  pub max_retries : ℤ

abbrev pub phase_of : ℕ → Client → Phase
phase_of id c = get_or c.goroutines id starting

-- Stop, by the phase of the goroutine that would receive: its select sends only to a goroutine that
-- is at its own select, which then closes the channel; a send on a closed channel panics.
stopped : ℕ → Phase → Method Client (Unit {0})
stopped id starting c = (returns tt, c)
stopped id selecting c = (returns tt, record c { goroutines = set c.goroutines id finished })
stopped id refreshing c = (returns tt, c)
stopped id finished c = (panics (error_panic "send on closed channel"), c)

unfoldable pub stop : Refresher → Method Client (Unit {0})
unfolding stopped
stop r c = stopped r.id (phase_of r.id c) c

-- The goroutine has been started.
abbrev pub new_refresher : String → String → ℤ → Client → Refresher × Client
new_refresher name key lock_timeout c = (
  record { name = name; key = key; lock_timeout_seconds = lock_timeout; id = length c.goroutines },
  record c { goroutines = c.goroutines ++ starting ∷ [] },
)

abbrev pub is_zero : ℤ → Bool
is_zero (pos n) = eqb n 0
is_zero (negsuc n) = false

-- maybeCreateRefresher, for a response that says `locked`; LoadOrStore keeps an entry that is
-- there.
unfoldable pub maybe_create_refresher : Bool → String → String → ℤ → Method Client (Unit {0})
maybe_create_refresher locked name key lock_timeout c =
    if not locked || c.no_auto_refresh || is_zero lock_timeout
    then (returns tt, c)
    else let (r, c') = new_refresher name key lock_timeout c in
      elim (lookup name c.refresh_map) [
        | some old ↦
            (panics (string_panic "client out of sync - lock already exists in refresh map"), c')
        | none ↦ (returns tt, record c' { refresh_map = insert name r c.refresh_map })
      ]

unfoldable pub maybe_remove_refresher : String → Method Client (Unit {0})
maybe_remove_refresher name c =
    if c.no_auto_refresh then (returns tt, c) else elim (lookup name c.refresh_map) [
      | none ↦ (returns tt, c)
      | some r ↦ stop r (record c { refresh_map = delete name c.refresh_map })
    ]

pub stop_all : Assoc Refresher → Method Client (Unit {0})
stop_all [] = pure tt
stop_all ((name, r) ∷ rest) = do stop r; stop_all rest

-- The argument is what closing the connection returns.
unfoldable pub close : Option Error → Method Client (Option Error)
unfolding stop_all
close closed c = (do stop_all c.refresh_map; pure closed) c
