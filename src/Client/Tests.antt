-- ===== src/Client/Tests.antt =====
-- The theorems about client/client.go at concrete inputs.
use go_ldlm.Client.Ends.{unlock_ends_refresher, missed_stop_panics, close_twice_panics}
use go_ldlm.Client.Dial.{Config, ClientTls, base_tls, NewClient, new, client_credentials}
use go_ldlm.Client.Dial.Secured.{new-Secured, Secured, Dials}
use go_ldlm.Security.{Crypto}
use go_ldlm.Client.Goroutine.{refresh_returns, refresher_step}
use go_ldlm.Grpc
use go_ldlm.Manager.Interface.{manager}
use go_ldlm.Manager.{Manager, new_manager}
use go_ldlm.Server.{Server}
use go_ldlm.Session.Memory.{memory}
use go_ldlm.Grpc.Codes.{lock_err_to_proto_buff_err}
use go_ldlm.Manager.{new_manager, Manager}
use go_ldlm.Server.{Server}
use go_ldlm.Grpc.{LockResponse}
use go_ldlm.Errors.{
  Error, other, error_message, lock_wait_timeout, lock_does_not_exist_or_invalid_key,
}
use go_ldlm.Session.{SessionLocks}
use go_ldlm.Timer.{empty_timers}
use go_ldlm.Common.{
  pure, continue, string_panic, error_panic, panics, inl, inr, ◌∷◌, eqb, if◌then◌else◌, lookup,
  returns, ℕ, ◌≤◌, String, ◌≡◌, refl, true, false, Option, none, some, [], arith, pos,
}
use go_ldlm.Client.Errors.{rpc_error_roundtrip, refresh_missing_anonymous}
use go_ldlm.Client.Retry.{rpc_with_retry-Ends, Ends}
use go_ldlm.Client.Requests.{rpc_error, unlock}
use go_ldlm.Grpc.{UnlockResponse}
use go_ldlm.Client.Refresh.{refresh_interval_in_time}
use go_ldlm.Client.{
  finished, Refresher, close, stop_all, stop, refreshing, Phase, phase_of, selecting, stopped,
  rpc_error_to_error, rpc_with_retry, RpcResult, unavailable, answers, refresh_interval, Client,
}

rpc_error_roundtrip_example :
    rpc_error_to_error (lock_err_to_proto_buff_err (some lock_wait_timeout))
    ≡ some lock_wait_timeout
rpc_error_roundtrip_example = rpc_error_roundtrip (some lock_wait_timeout)

-- The third attempt succeeds.
attempts : ℕ → RpcResult ℕ
attempts n = if eqb n 2 then answers 9 else unavailable

rpc_with_retry-Ends_example : Ends (pos 5) attempts 0 (rpc_with_retry 6 (pos 5) attempts)
rpc_with_retry-Ends_example = rpc_with_retry-Ends 6 (pos 5) attempts (omega arith)

refresh_interval_in_time_example : 10 ≤ refresh_interval (pos 45)
refresh_interval_in_time_example = (refresh_interval_in_time (pos 45)).0

abbrev client : Client
client = record { refresh_map = []; goroutines = []; no_auto_refresh = false; max_retries = pos 3 }

one_shard : String → ℕ
one_shard name = 0

abbrev idle : Server Manager (Option SessionLocks)
idle = record {
  lock_mgr = new_manager 2;
  sess_mgr = record { session_locks = []; store = none };
  lock_timers = empty_timers;
  is_shutdown = false;
  no_clear_on_disconnect = false;
}

refresh_missing_anonymous_example :
    (response : LockResponse) × ((Grpc.refresh_lock
        (manager one_shard)
        memory
        "a"
        "k1"
        (pos 20)
        6
        idle).0
      ≡ returns response)
    × (response.locked ≡ false)
    × (rpc_error_to_error response.error
        ≡ some (other (error_message lock_does_not_exist_or_invalid_key)))
unfolding lookup
refresh_missing_anonymous_example =
    refresh_missing_anonymous (manager one_shard) memory "a" "k1" (pos 20) 6 idle refl refl

-- A service that unlocks at the second attempt.
second_time : String → String → ℕ → RpcResult UnlockResponse
second_time name key n =
    if eqb n 0 then unavailable else answers (record { unlocked = true; name = name; error = none })

abbrev refresher : Refresher
refresher = record { name = "a"; key = "k1"; lock_timeout_seconds = pos 20; id = 0 }

abbrev refreshes_at : Phase → Client
refreshes_at p = record {
  refresh_map = ("a", refresher) ∷ [];
  goroutines = p ∷ [];
  no_auto_refresh = false;
  max_retries = pos 3;
}

unlock_ends_refresher_example :
    phase_of 0 (unlock second_time "a" "k1" (refreshes_at selecting)).1 ≡ finished
unfolding lookup
unlock_ends_refresher_example =
    (unlock_ends_refresher second_time "a" "k1" refresher (refreshes_at selecting) refl refl refl).1

close_twice_panics_example :
    (close none (close none (refreshes_at selecting)).1).0
    ≡ panics (error_panic "send on closed channel")
unfolding lookup close stop stop_all stopped continue pure
close_twice_panics_example =
    (close_twice_panics none none "a" "k1" second_time refresher (refreshes_at selecting) refl refl
      refl).1

missed_stop_panics_example :
    (refresher_step refresher
      (refresh_returns (inl rpc_error))
      (unlock second_time "a" "k1" (refreshes_at refreshing)).1).0
    ≡ panics (string_panic "error refreshing lock a")
unfolding lookup
missed_stop_panics_example =
    (missed_stop_panics second_time "a" "k1" refresher (inl rpc_error) (inl rpc_error)
      (refreshes_at refreshing) refl refl refl refl).1

abbrev files : Crypto
files = record {
  Cert = String × String;
  Pool = String;
  load_key_pair = λ cert key. inr (cert, key);
  read_file = λ name. inr name;
  append_certs = λ pem. some pem;
}

abbrev secure : Config
secure = record {
  address = "lock-host:3144";
  no_auto_refresh = false;
  use_tls = false;
  skip_verify = false;
  ca_file = "ca.pem";
  tls_cert = "cert.pem";
  tls_key = "key.pem";
  password = "secret";
  max_retries = pos 3;
}

dials : String → Option (ClientTls (String × String) String) → Option Error
dials address creds = none

abbrev connected : NewClient files
connected = record {
  address = "lock-host:3144";
  credentials = some (record (base_tls files secure) {
    certificates = some ("cert.pem", "key.pem");
    root_cas = some "ca.pem";
  });
  authorization = some "secret";
  client = client;
}

new-Secured_example :
    Secured files secure connected.credentials × Dials files dials secure connected
unfolding new client_credentials dials
new-Secured_example = new-Secured files dials secure connected refl
