-- ===== src/Command.antt =====
-- storage/command.rs: the records of the log.
pub mod Header
pub mod RoundTrip
pub mod Canonical
pub mod Torn
use bitcask.Prelude.{
  ℕ, zero, suc, ◌+◌, ◌%◌, ◌^◌, Option, none, some, [], ◌∷◌, ◌++◌, ltb, ◌==◌, if◌then◌else◌, length,
  drop,
}
use bitcask.Prelude.Bytes.{Bytes}
use bitcask.Error.{Result, ok, err, io, unexpected_eof, corruption, unexpected_command_type, ◌>>=◌}
use bitcask.Wire.{to_le_bytes, from_le_bytes, as_u32}
use bitcask.Crc32.{Crc32}
use bitcask.BytesUtil.{slice, read_u8, read_u32, read_u64, read_bytes}

abbrev pub header_len : ℕ
header_len = 8

abbrev pub crc_len : ℕ
crc_len = 4

pub data Command : Type 0 where
  set : (ts : ℕ) (key value : Bytes) → Command
  rm : (ts : ℕ) (key : Bytes) → Command

pub data CommandType : Type 0 where
  set rm : CommandType

abbrev pub type_byte : CommandType → ℕ
type_byte CommandType.set = 0
type_byte CommandType.rm = 1

unfoldable pub try_from : ℕ → Result CommandType
try_from value =
    if value == 0
    then ok CommandType.set
    else if value == 1
    then ok CommandType.rm
    else err unexpected_command_type

-- The length field of a record's header.
unfoldable pub body_len : Bytes → ℕ
body_len header = from_le_bytes (slice header crc_len header_len)

abbrev pub get_timestamp : Command → ℕ
get_timestamp (Command.set ts key value) = ts
get_timestamp (Command.rm ts key) = ts

abbrev pub get_key : Command → Bytes
get_key (Command.set ts key value) = key
get_key (Command.rm ts key) = key

abbrev pub get_value : Command → Option Bytes
get_value (Command.set ts key value) = some value
get_value (Command.rm ts key) = none

unfoldable pub encoded_body_len : Command → ℕ
encoded_body_len (Command.set ts key value) = 8 + 1 + 4 + length key + 4 + length value
encoded_body_len (Command.rm ts key) = 8 + 1 + 4 + length key

-- The appends of `write_body`, in order, nested to the right.
unfoldable pub write_body : Command → Bytes
write_body (Command.set ts key value) =
    to_le_bytes 8 ts
    ++ (type_byte CommandType.set
        ∷ (to_le_bytes 4 (as_u32 (length key))
            ++ (key ++ (to_le_bytes 4 (as_u32 (length value)) ++ value))))
write_body (Command.rm ts key) =
    to_le_bytes 8 ts ++ (type_byte CommandType.rm ∷ (to_le_bytes 4 (as_u32 (length key)) ++ key))

-- The body, by its type byte.
unfoldable pub read_command : Bytes → ℕ → CommandType → ℕ → Result (Command × ℕ)
read_command buf ts CommandType.set cursor = do
  (key_len, cursor) ← read_u32 buf cursor
  (key, cursor) ← read_bytes buf cursor key_len
  (value_len, cursor) ← read_u32 buf cursor
  (value, cursor) ← read_bytes buf cursor value_len
  ok (Command.set ts key value, cursor)
read_command buf ts CommandType.rm cursor = do
  (key_len, cursor) ← read_u32 buf cursor
  (key, cursor) ← read_bytes buf cursor key_len
  ok (Command.rm ts key, cursor)

-- `deserialize` below the checks of length and crc.
unfoldable pub read_body : Bytes → ℕ → ℕ → Result (Command × ℕ)
unfolding read_command
read_body buf cursor command_end = do
  (ts, cursor) ← read_u64 buf cursor
  (type, cursor) ← read_u8 buf cursor
  command_type ← try_from type
  (command, cursor) ← read_command buf ts command_type cursor
  if cursor == command_end then ok (command, command_end) else err corruption

module _ ⦃crc32 : Crc32⦄ where
  -- The crc's place is held by zeros until what follows it is written.
  unfoldable pub serialize : Command → Bytes
  unfolding encoded_body_len write_body
  serialize c =
      let buf : Bytes =
        0 ∷ 0 ∷ 0 ∷ 0 ∷ (to_le_bytes 4 (as_u32 (encoded_body_len c)) ++ write_body c) in
      to_le_bytes 4 (crc32.hash (drop crc_len buf)) ++ drop crc_len buf

  unfoldable pub deserialize : Bytes → Result (Command × ℕ)
  unfolding read_body
  deserialize buf = do
    (stored_crc, cursor) ← read_u32 buf 0
    (body_len, cursor) ← read_u32 buf cursor
    if ltb (length buf) (header_len + body_len)
        then err (io unexpected_eof)
        else if crc32.hash (slice buf crc_len (header_len + body_len)) == stored_crc
        then read_body buf cursor (header_len + body_len)
        else err corruption
