-- ===== src/Grpc/Codes.antt =====
-- The error codes of ldlm.proto and lockErrToProtoBuffErr of net/grpc/grpc.go.
use go_ldlm.Errors.{
  error_message, lock_not_locked, invalid_lock_key, invalid_lock_size, lock_size_mismatch,
  timer_does_not_exist, lock_wait_timeout, lock_does_not_exist, Error,
}
use go_ldlm.Common.{String, Option, none, some}

pub data ErrorCode : Type 0 where
  unknown_code lock_does_not_exist_code invalid_lock_key_code lock_wait_timeout_code : ErrorCode
  not_locked_code lock_does_not_exist_or_invalid_key_code : ErrorCode
  lock_size_mismatch_code invalid_lock_size_code : ErrorCode
  unlisted_code : (number : String) → ErrorCode  -- any other number, in decimal

pub record PbError : Type 0 where
  pub code : ErrorCode
  pub message : String

unfoldable pub error_code : Error → ErrorCode
error_code lock_wait_timeout = lock_wait_timeout_code
error_code invalid_lock_key = invalid_lock_key_code
error_code lock_does_not_exist = lock_does_not_exist_code
error_code lock_not_locked = not_locked_code
error_code timer_does_not_exist = lock_does_not_exist_or_invalid_key_code
error_code invalid_lock_size = invalid_lock_size_code
error_code lock_size_mismatch = lock_size_mismatch_code
error_code _ = unknown_code

unfoldable pub lock_err_to_proto_buff_err : Option Error → Option PbError
lock_err_to_proto_buff_err none = none
lock_err_to_proto_buff_err (some e) =
    some (record { code = error_code e; message = error_message e })
