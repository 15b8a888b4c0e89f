-- ===== src/Network/Resp.antt =====
-- network/resp.rs: the values, requests and responses of the redis protocol. Readers and writers
-- are those of `Protocol`. `lossy` is `String::from_utf8_lossy`, which only messages use.
pub mod Frames
pub mod Parse
pub mod Reply
pub mod RoundTrip
use bitcask.Prelude.{
  ℕ, zero, suc, ◌+◌, ◌-◌, ◌*◌, ◌/◌, ◌%◌, ◌^◌, Option, none, some, Bool, true, false, not, List, [],
  ◌∷◌, ◌++◌, ◌&&◌, ◌||◌, ltb, leb, ◌==◌, if◌then◌else◌, length, take, drop,
}
use bitcask.Prelude.Bytes.{Bytes, codes, bytes_eq, ends_with}
use bitcask.Decimal.{all_digits, number, is_empty}
use bitcask.Error.{Result, ok, err, KvsError, invalid_data, io, unexpected_eof, ◌>>=◌}
use bitcask.BytesUtil.{slice}
use bitcask.Utf8.{is_utf8}
use bitcask.Network.ErrorCode.{ErrorCode, no_such_key, internal, invalid_request}
use bitcask.Network.Protocol.{
  max_payload, Request, get_req, set_req, rm_req, Response, done, found, failed, text, read_exact,
}

abbrev pub max_array_len : ℕ
max_array_len = 2 ^ 20

abbrev pub max_depth : ℕ
max_depth = 32

-- i64
pub data ℤ : Type 0 where
  pos : ℕ → ℤ
  negsuc : ℕ → ℤ

mutual
  pub data RespValue : Type 0 where
    simple_string : Bytes → RespValue
    error_string : Bytes → RespValue
    integer : ℤ → RespValue
    bulk_string : Option Bytes → RespValue
    null_array : RespValue
    array : RespValues → RespValue

  -- The items of an array.
  pub data RespValues : Type 0 where
    no_items : RespValues
    item : RespValue → RespValues → RespValues

pub data RespCommand : Type 0 where
  get_command set_command del_command : RespCommand

pub data RespRequest : Type 0 where
  kv : Request → RespRequest
  config_get : List Bytes → RespRequest

-- `RespCommand::from(&req)`
abbrev pub command_of : Request → RespCommand
command_of (get_req key) = get_command
command_of (set_req key value) = set_command
command_of (rm_req key) = del_command

abbrev pub plus : ℕ
plus = 43

abbrev pub minus : ℕ
minus = 45

abbrev pub colon : ℕ
colon = 58

abbrev pub dollar : ℕ
dollar = 36

abbrev pub star : ℕ
star = 42

abbrev pub crlf : Bytes
crlf = 13 ∷ 10 ∷ []

unfoldable pub is_resp : ℕ → Bool
is_resp b = b == plus || b == minus || b == colon || b == dollar || b == star

unfoldable pub protocol_error : Bytes → KvsError
protocol_error msg = invalid_data (codes "Protocol error: " ++ msg)

unfoldable pub parse_len : Bytes → Result (Option ℕ)
unfolding protocol_error
parse_len body =
    if bytes_eq body (codes "-1")
    then ok none
    else if is_empty body || ltb 10 (length body) || not (all_digits body)
    then err (protocol_error (codes "invalid length"))
    else ok (some (number 0 body))

-- `read_until(b'\n')`: the bytes up to the first line feed, it included, and what is behind it.
unfoldable pub read_line : Bytes → Bytes × Bytes
read_line [] = ([], [])
read_line (b ∷ bs) =
    let (line, rest) = read_line bs in if b == 10 then (b ∷ [], bs) else (b ∷ line, rest)

-- The values still due, the frame so far, and the reader.
abbrev pub Progress : Type 0
Progress = ℕ × Bytes × Bytes

abbrev pub read_bulk : Option ℕ → ℕ → Bytes → Bytes → Result Progress
unfolding protocol_error read_exact
read_bulk none pending frame reader = ok (pending, frame, reader)
read_bulk (some len) pending frame reader =
    if ltb max_payload len then err (protocol_error (codes "bulk string too large")) else do
      (data_bytes, reader) ← read_exact (len + 2) reader
      if ends_with (frame ++ data_bytes) crlf
          then ok (pending, frame ++ data_bytes, reader)
          else err (protocol_error (codes "bulk string not CRLF-terminated"))

abbrev pub read_array : Option ℕ → ℕ → Bytes → Bytes → Result Progress
unfolding protocol_error
read_array none pending frame reader = ok (pending, frame, reader)
read_array (some len) pending frame reader =
    if ltb max_array_len len || ltb max_array_len (pending + len)
    then err (protocol_error (codes "array too large"))
    else ok (pending + len, frame, reader)

-- The match on the first byte of a line.
unfoldable pub read_kind : ℕ → Bytes → ℕ → Bytes → Bytes → Result Progress
unfolding parse_len read_exact protocol_error
read_kind kind body pending frame reader =
    if kind == plus || kind == minus || kind == colon
    then ok (pending, frame, reader)
    else if kind == dollar
    then (do len ← parse_len body; read_bulk len pending frame reader)
    else if kind == star
    then (do len ← parse_len body; read_array len pending frame reader)
    else err (protocol_error (codes "unknown type byte"))

-- A line with its frame, which it ends.
unfoldable pub read_value : Bytes → ℕ → Bytes → Bytes → Result Progress
unfolding read_kind protocol_error
read_value [] pending frame reader = err (protocol_error (codes "expected CRLF-terminated line"))
read_value (kind ∷ line) pending frame reader =
    if ltb (length line) 2 || not (ends_with (kind ∷ line) crlf)
    then err (protocol_error (codes "expected CRLF-terminated line"))
    else read_kind kind (take (length line - 2) line) pending frame reader

-- The loop, on fuel; `none` if it is still going round when the fuel is gone.
unfoldable pub frame_loop : ℕ → ℕ → Bytes → Bytes → Option (Result (Option Bytes × Bytes))
unfolding read_line read_value
frame_loop fuel zero frame reader = some (ok (some frame, reader))
frame_loop zero (suc pending) frame reader = none
frame_loop (suc fuel) (suc pending) [] [] = some (ok (none, []))
frame_loop (suc fuel) (suc pending) (b ∷ frame) [] = some (err (io unexpected_eof))
frame_loop (suc fuel) (suc pending) frame (c ∷ cs) =
    let (line, rest) = read_line (c ∷ cs) in
    elim (read_value line pending (frame ++ line) rest) [
      | ok (pending, frame, reader) ↦ frame_loop fuel pending frame reader
      | err e ↦ some (err e)
    ]

-- Every turn reads a byte, and the last finds none.
unfoldable pub read_frame_resp : Bytes → Option (Result (Option Bytes × Bytes))
unfolding frame_loop
read_frame_resp reader = frame_loop (suc (length reader)) 1 [] reader
