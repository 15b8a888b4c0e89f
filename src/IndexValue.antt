-- ===== src/IndexValue.antt =====
-- storage/index_value.rs: an entry of the keydir, and its record in a hint file.
pub mod RoundTrip
pub mod Canonical
use bitcask.Prelude.{ℕ, ◌+◌, ◌^◌, [], ◌∷◌, ◌++◌, ltb, ◌==◌, if◌then◌else◌, length, drop}
use bitcask.Prelude.Bytes.{Bytes}
use bitcask.Error.{Result, ok, err, io, unexpected_eof, corruption, ◌>>=◌}
use bitcask.Wire.{to_le_bytes, as_u32}
use bitcask.Crc32.{Crc32}
use bitcask.BytesUtil.{usize_mod, slice, read_u32, read_u64, read_bytes}

abbrev pub crc_len : ℕ
crc_len = 4

abbrev pub body_len_len : ℕ
body_len_len = 4

abbrev pub key_len_len : ℕ
key_len_len = 4

abbrev pub index_value_len : ℕ
index_value_len = 24

abbrev pub header_len : ℕ
header_len = crc_len + body_len_len

pub record IndexValue : Type 0 where
  pub file_id : ℕ
  pub ts : ℕ
  pub offset : ℕ
  pub len : ℕ

-- What the appends of `serialize` put behind the crc's place.
unfoldable pub covered : IndexValue → Bytes → Bytes
covered e key =
    let body_len = key_len_len + length key + index_value_len in
    to_le_bytes 4 (as_u32 body_len)
    ++ (to_le_bytes 4 (as_u32 (length key))
        ++ (key ++ (to_le_bytes 8 e.ts ++ (to_le_bytes 8 e.offset ++ to_le_bytes 8 e.len))))

module _ ⦃crc32 : Crc32⦄ where
  -- The crc's place is held by zeros until what follows it is written.
  unfoldable pub serialize : IndexValue → Bytes → Bytes
  unfolding covered
  serialize e key =
      let buf : Bytes = 0 ∷ 0 ∷ 0 ∷ 0 ∷ covered e key in
      to_le_bytes 4 (crc32.hash (drop crc_len buf)) ++ drop crc_len buf

-- `usize::try_from`
abbrev pub usize_try_from : ℕ → Result ℕ
usize_try_from n = if ltb n usize_mod then ok n else err corruption

-- `deserialize` below the checks of length and crc.
unfoldable pub read_body : Bytes → ℕ → ℕ → ℕ → Result (Bytes × IndexValue × ℕ)
read_body buf file_id cursor record_end = do
  (key_len, cursor) ← read_u32 buf cursor
  (key, cursor) ← read_bytes buf cursor key_len
  (ts, cursor) ← read_u64 buf cursor
  (offset, cursor) ← read_u64 buf cursor
  (len, cursor) ← read_u64 buf cursor
  len ← usize_try_from len
  if cursor == record_end
      then ok (key, record { file_id = file_id; ts = ts; offset = offset; len = len }, record_end)
      else err corruption

module _ ⦃crc32 : Crc32⦄ where
  unfoldable pub deserialize : Bytes → ℕ → Result (Bytes × IndexValue × ℕ)
  unfolding read_body
  deserialize buf file_id = do
    (stored_crc, cursor) ← read_u32 buf 0
    (body_len, cursor) ← read_u32 buf cursor
    if ltb (length buf) (header_len + body_len)
        then err (io unexpected_eof)
        else if crc32.hash (slice buf crc_len (header_len + body_len)) == stored_crc
        then read_body buf file_id cursor (header_len + body_len)
        else err corruption
