-- ===== src/Network/ErrorCode.antt =====
-- network/error.rs: the error codes of a response.
use bitcask.Prelude.{ℕ, ◌==◌, if◌then◌else◌}
use bitcask.Prelude.Bytes.{codes}
use bitcask.Error.{
  Result, ok, err, KvsError, unexpected_command_type, key_not_found, invalid_data, server_internal,
}

pub data ErrorCode : Type 0 where
  no_such_key internal invalid_request : ErrorCode

-- The discriminants of the enum.
abbrev pub code_byte : ErrorCode → ℕ
code_byte no_such_key = 1
code_byte internal = 2
code_byte invalid_request = 3

-- `ErrorCode::from(&err)`
abbrev pub error_code : KvsError → ErrorCode
error_code KvsError.key_not_found = no_such_key
error_code (KvsError.invalid_data msg) = invalid_request
error_code _ = internal

-- `KvsError::from(code)`
abbrev pub kvs_error : ErrorCode → KvsError
kvs_error no_such_key = key_not_found
kvs_error invalid_request = invalid_data (codes "rejected by server")
kvs_error internal = server_internal

unfoldable pub code_try_from : ℕ → Result ErrorCode
code_try_from b =
    if b == 1
    then ok no_such_key
    else if b == 2
    then ok internal
    else if b == 3
    then ok invalid_request
    else err unexpected_command_type
