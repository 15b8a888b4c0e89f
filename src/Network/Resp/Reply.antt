-- ===== src/Network/Resp/Reply.antt =====
-- network/resp.rs: the replies. A writer is the bytes written so far.
use bitcask.Prelude.{◌*◌, List, [], ◌∷◌, ◌++◌, ◌||◌, ◌==◌, if◌then◌else◌, length}
use bitcask.Decimal.{decimal}
use bitcask.Prelude.Bytes.{Bytes, codes}
use bitcask.Error.{KvsError}
use bitcask.Network.ErrorCode.{ErrorCode, no_such_key, internal, invalid_request}
use bitcask.Network.Protocol.{Response, done, found, failed}
use bitcask.Network.Resp.{RespCommand, get_command, del_command, crlf}

-- `code.to_string()`
abbrev pub code_text : ErrorCode → Bytes
code_text no_such_key = codes "Key not found"
code_text internal = codes "Internal server error"
code_text invalid_request = codes "Invalid request"

-- `msg.replace(['\r', '\n'], " ")`
unfoldable pub one_line : Bytes → Bytes
one_line [] = []
one_line (b ∷ bs) = (if b == 13 || b == 10 then 32 else b) ∷ one_line bs

unfoldable pub write_error : Bytes → Bytes → Bytes
unfolding one_line
write_error writer msg = writer ++ (codes "-ERR " ++ (one_line msg ++ crlf))

-- A bulk string.
unfoldable pub write_bulk : Bytes → Bytes
write_bulk v = codes "$" ++ (decimal (length v) ++ (crlf ++ (v ++ crlf)))

unfoldable pub write_response_resp : Bytes → RespCommand → Response → Bytes
unfolding write_bulk write_error
write_response_resp writer cmd (found v) = writer ++ write_bulk v
write_response_resp writer del_command done = writer ++ (codes ":1" ++ crlf)
write_response_resp writer del_command (failed no_such_key) = writer ++ (codes ":0" ++ crlf)
write_response_resp writer get_command (failed no_such_key) = writer ++ (codes "$-1" ++ crlf)
write_response_resp writer cmd done = writer ++ (codes "+OK" ++ crlf)
write_response_resp writer cmd (failed code) = write_error writer (code_text code)

-- A name with an empty value.
unfoldable pub write_names : Bytes → List Bytes → Bytes
write_names writer [] = writer
write_names writer (name ∷ names) =
    write_names
      (writer
        ++ (codes "$"
            ++ (decimal (length name)
                ++ (crlf ++ (name ++ (crlf ++ (codes "$0" ++ (crlf ++ crlf))))))))
      names

unfoldable pub write_config_get : Bytes → List Bytes → Bytes
unfolding write_names
write_config_get writer names =
    write_names (writer ++ (codes "*" ++ (decimal (length names * 2) ++ crlf))) names

-- `to_string` is Display of an error.
abbrev pub decode_error_message : (KvsError → Bytes) → KvsError → Bytes
decode_error_message to_string (KvsError.invalid_data msg) = msg
decode_error_message to_string e = to_string e
