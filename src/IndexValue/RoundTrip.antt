-- ===== src/IndexValue/RoundTrip.antt =====
-- A hint record is read back as it was written; its file id is the caller's.
use bitcask.Prelude.{
  ℕ, ◌+◌, ◌^◌, ◌<◌, ◌≤◌, ◌≡◌, refl, ◌∙◌, ◌++◌, arith, length, length-append, append_assoc, ==_refl,
  le→ltb, lt→ltb,
}
use bitcask.Prelude.Bytes.{Bytes}
use bitcask.Error.{ok}
use bitcask.Wire.{to_le_bytes, as_u32}
use bitcask.Wire.Laws.{length-to_le_bytes}
use bitcask.Crc32.{Crc32}
use bitcask.BytesUtil.{slice, read_u32}
use bitcask.BytesUtil.Cursor.{
  IsBuffer, At, slice-At, read_u32-At, read_u64-At, At-after_u32, At-after_u64, field_len,
  field_bytes, field_after,
}
use bitcask.IndexValue.{
  IndexValue, crc_len, header_len, key_len_len, index_value_len, covered, serialize, read_body,
  deserialize,
}

-- The fields fit their widths.
pub record Fits (e : IndexValue) (key : Bytes) : Type 0 where
  pub ts : e.ts < 2 ^ 64
  pub offset : e.offset < 2 ^ 64
  pub len : e.len < 2 ^ 64
  pub body : key_len_len + length key + index_value_len < 2 ^ 32

abbrev pub numbers : IndexValue → Bytes
numbers e = to_le_bytes 8 e.ts ++ (to_le_bytes 8 e.offset ++ to_le_bytes 8 e.len)

abbrev pub body : IndexValue → Bytes → Bytes
body e key = to_le_bytes 4 (as_u32 (length key)) ++ (key ++ numbers e)

pub length-body :
    (e : IndexValue) (key : Bytes)
    → length (body e key) ≡ key_len_len + length key + index_value_len
length-body e key = omega (
  arith,
  length-append (to_le_bytes 4 (as_u32 (length key))) (key ++ numbers e),
  length-append key (numbers e),
  length-append (to_le_bytes 8 e.ts) (to_le_bytes 8 e.offset ++ to_le_bytes 8 e.len),
  length-append (to_le_bytes 8 e.offset) (to_le_bytes 8 e.len),
  length-to_le_bytes,
)

module _ (buf : Bytes) (cursor : ℕ) (e : IndexValue) (key rest : Bytes)
    (at : At buf cursor (body e key ++ rest)) (fits : Fits e key) (small : IsBuffer buf) where
  At-key : At buf cursor (
      to_le_bytes 4 (as_u32 (length key))
      ++ (key ++ (to_le_bytes 8 e.ts ++ (to_le_bytes 8 e.offset ++ (to_le_bytes 8 e.len ++ rest)))))
  At-key = simp append_assoc at at

  key-lt : length key < 2 ^ 32
  key-lt = omega (arith, fits.body)

  At-ts :
      At buf
        (cursor + 4 + length key)
        (to_le_bytes 8 e.ts ++ (to_le_bytes 8 e.offset ++ (to_le_bytes 8 e.len ++ rest)))
  At-ts = field_after buf cursor key _ At-key key-lt small

  At-offset :
      At buf (cursor + 4 + length key + 8) (to_le_bytes 8 e.offset ++ (to_le_bytes 8 e.len ++ rest))
  At-offset = At-after_u64 buf _ _ _ At-ts

  At-len : At buf (cursor + 4 + length key + 8 + 8) (to_le_bytes 8 e.len ++ rest)
  At-len = At-after_u64 buf _ _ _ At-offset

  read_body-At :
      (file_id : ℕ)
      → read_body buf file_id cursor (cursor + length (body e key))
        ≡ ok (key, record e { file_id = file_id }, cursor + length (body e key))
  unfolding read_body
  read_body-At file_id =
      let end : cursor + 4 + length key + 8 + 8 + 8 ≡ cursor + length (body e key) =
        omega (arith, length-body e key) in
      rw (
        field_len buf cursor key _ At-key key-lt small,
        field_bytes buf cursor key _ At-key key-lt small,
        read_u64-At buf _ _ _ fits.ts At-ts small,
        read_u64-At buf _ _ _ fits.offset At-offset small,
        read_u64-At buf _ _ _ fits.len At-len small,
        lt→ltb _ _ fits.len,
        end,
        ==_refl,
      )

module _ ⦃crc32 : Crc32⦄ (e : IndexValue) (key : Bytes) where
  pub covered-body :
      covered e key
      ≡ to_le_bytes 4 (as_u32 (key_len_len + length key + index_value_len)) ++ body e key
  unfolding covered
  covered-body = refl

  pub serialize-covered :
      serialize e key ≡ to_le_bytes 4 (crc32.hash (covered e key)) ++ covered e key
  unfolding serialize
  serialize-covered = refl

  length-covered : length (covered e key) ≡ 4 + length (body e key)
  length-covered = rw covered-body (
      omega (
        arith,
        length-append (to_le_bytes 4 (as_u32 (key_len_len + length key + index_value_len)))
            (body e key),
        length-to_le_bytes,
      ))

  pub length-serialize : length (serialize e key) ≡ header_len + length (body e key)
  length-serialize = rw serialize-covered (
      omega (
        arith,
        length-append (to_le_bytes 4 (crc32.hash (covered e key))) (covered e key),
        length-to_le_bytes,
        length-covered,
      ))

  module _ (rest : Bytes) (fits : Fits e key) (small : IsBuffer (serialize e key ++ rest)) where
    At-crc :
        At
          (serialize e key ++ rest)
          0
          (to_le_bytes 4 (crc32.hash (covered e key)) ++ (covered e key ++ rest))
    At-crc = record { inside = omega arith; follows = rw (serialize-covered, append_assoc) }

    At-covered : At (serialize e key ++ rest) 4 (covered e key ++ rest)
    At-covered = At-after_u32 (serialize e key ++ rest) 0 _ _ At-crc

    At-body_len : At (serialize e key ++ rest) 4 (
        to_le_bytes 4 (as_u32 (key_len_len + length key + index_value_len)) ++ (body e key ++ rest))
    At-body_len = record {
      inside = At-covered.inside;
      follows =
          At-covered.follows
          ∙ rw covered-body (
              append_assoc (to_le_bytes 4 (as_u32 (key_len_len + length key + index_value_len)))
                (body e key) rest);
    }

    At-body : At (serialize e key ++ rest) 8 (body e key ++ rest)
    At-body = At-after_u32 (serialize e key ++ rest) 4 _ _ At-body_len

    read_body_len : read_u32 (serialize e key ++ rest) 4 ≡ ok (length (body e key), 8)
    read_body_len =
        let same : as_u32 (key_len_len + length key + index_value_len) ≡ length (body e key) =
          omega (arith, fits.body, length-body e key) in
        rw same at (read_u32-At (serialize e key ++ rest) 4 _ _ (omega arith) At-body_len small)

    whole :
        slice (serialize e key ++ rest) crc_len (header_len + length (body e key)) ≡ covered e key
    whole =
        let end : header_len + length (body e key) ≡ 4 + length (covered e key) =
          omega (arith, length-covered) in
        rw end (slice-At (serialize e key ++ rest) 4 (covered e key) rest At-covered)

    complete : header_len + length (body e key) ≤ length (serialize e key ++ rest)
    complete = omega (arith, length-append (serialize e key) rest, length-serialize)

    -- A hint record that was written is read back under the caller's file id, and exactly its bytes
    -- are used, whatever follows it.
    pub deserialize-serialize_hint :
        (file_id : ℕ)
        → deserialize (serialize e key ++ rest) file_id
          ≡ ok (key, record e { file_id = file_id }, length (serialize e key))
    unfolding deserialize
    deserialize-serialize_hint file_id = rw (
      length-serialize,
      read_u32-At (serialize e key ++ rest) 0 _ _ (crc32.hash-lt _) At-crc small,
      read_body_len,
      le→ltb _ _ complete,
      whole,
      ==_refl,
      read_body-At (serialize e key ++ rest) 8 e key rest At-body fits small file_id,
    )
