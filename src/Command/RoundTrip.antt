-- ===== src/Command/RoundTrip.antt =====
-- What `serialize` writes, `deserialize` reads back, whatever bytes follow.
use bitcask.Prelude.{
  ℕ, ◌+◌, ◌^◌, ◌<◌, ◌≤◌, ◌≡◌, refl, ◌∷◌, ◌++◌, arith, length, length-append, append_assoc, ==_refl,
  le→ltb,
}
use bitcask.Prelude.Bytes.{Bytes}
use bitcask.Error.{ok}
use bitcask.Wire.{to_le_bytes, as_u32}
use bitcask.Wire.Laws.{length-to_le_bytes}
use bitcask.Crc32.{Crc32}
use bitcask.BytesUtil.{slice, read_u32}
use bitcask.BytesUtil.Cursor.{
  IsBuffer, At, At-start, slice-At, read_u32-At, read_u64-At, read_u8-At, At-after_u32,
  At-after_u64, At-after_u8, field_len, field_bytes, field_after,
}
use bitcask.Command.{
  Command, CommandType, get_timestamp, header_len, crc_len, type_byte, encoded_body_len, write_body,
  serialize, try_from, read_command, read_body, deserialize,
}

-- A command whose timestamp is a u64 and whose body length is a u32.
pub record Fits (c : Command) : Type 0 where
  pub ts : get_timestamp c < 2 ^ 64
  pub body : encoded_body_len c < 2 ^ 32

pub length-write_body : (c : Command) → length (write_body c) ≡ encoded_body_len c
unfolding write_body encoded_body_len
length-write_body (Command.set ts key value) = omega (
  arith,
  length-append (to_le_bytes 8 ts) (
      0
      ∷ (to_le_bytes 4 (as_u32 (length key))
          ++ (key ++ (to_le_bytes 4 (as_u32 (length value)) ++ value)))),
  length-append (to_le_bytes 4 (as_u32 (length key)))
      (key ++ (to_le_bytes 4 (as_u32 (length value)) ++ value)),
  length-append key (to_le_bytes 4 (as_u32 (length value)) ++ value),
  length-append (to_le_bytes 4 (as_u32 (length value))) value,
  length-to_le_bytes,
)
length-write_body (Command.rm ts key) = omega (
  arith,
  length-append (to_le_bytes 8 ts) (1 ∷ (to_le_bytes 4 (as_u32 (length key)) ++ key)),
  length-append (to_le_bytes 4 (as_u32 (length key))) key,
  length-to_le_bytes,
)

abbrev pub command_type : Command → CommandType
command_type (Command.set ts key value) = CommandType.set
command_type (Command.rm ts key) = CommandType.rm

-- What `write_body` writes behind the type byte.
abbrev pub fields : Command → Bytes
fields (Command.set ts key value) =
    to_le_bytes 4 (as_u32 (length key)) ++ (key ++ (to_le_bytes 4 (as_u32 (length value)) ++ value))
fields (Command.rm ts key) = to_le_bytes 4 (as_u32 (length key)) ++ key

module _ (buf : Bytes) (cursor : ℕ) (rest : Bytes) (small : IsBuffer buf) where
  read_command-At :
      (c : Command)
      → At buf cursor (fields c ++ rest)
      → encoded_body_len c < 2 ^ 32
      → read_command buf (get_timestamp c) (command_type c) cursor
        ≡ ok (c, cursor + length (fields c))
  unfolding read_command encoded_body_len
  read_command-At (Command.set ts key value) at fits =
      let lv : Bytes = to_le_bytes 4 (as_u32 (length value)) in
      let at₁ : At buf cursor
          (to_le_bytes 4 (as_u32 (length key)) ++ (key ++ (lv ++ (value ++ rest)))) =
        simp append_assoc at at in
      let at₂ : At buf (cursor + 4 + length key) (lv ++ (value ++ rest)) =
        field_after buf cursor key _ at₁ (omega arith) small in
      let whole : cursor + 4 + length key + 4 + length value
          ≡ cursor + length (fields (Command.set ts key value)) =
        omega (
          arith,
          length-to_le_bytes,
          length-append (to_le_bytes 4 (as_u32 (length key))) (key ++ (lv ++ value)),
          length-append key (lv ++ value),
          length-append lv value,
        ) in
      rw (
        field_len buf cursor key _ at₁ (omega arith) small,
        field_bytes buf cursor key _ at₁ (omega arith) small,
        field_len buf (cursor + 4 + length key) value rest at₂ (omega arith) small,
        field_bytes buf (cursor + 4 + length key) value rest at₂ (omega arith) small,
        whole,
      )
  read_command-At (Command.rm ts key) at fits =
      let at₁ : At buf cursor (to_le_bytes 4 (as_u32 (length key)) ++ (key ++ rest)) =
        simp append_assoc at at in
      let whole : cursor + 4 + length key ≡ cursor + length (fields (Command.rm ts key)) =
        omega
          (arith, length-to_le_bytes, length-append (to_le_bytes 4 (as_u32 (length key))) key) in
      rw (
        field_len buf cursor key _ at₁ (omega arith) small,
        field_bytes buf cursor key _ at₁ (omega arith) small,
        whole,
      )

pub write_body-fields :
    (c : Command)
    → write_body c ≡ to_le_bytes 8 (get_timestamp c) ++ (type_byte (command_type c) ∷ fields c)
unfolding write_body
write_body-fields (Command.set ts key value) = refl
write_body-fields (Command.rm ts key) = refl

try_from-type_byte : (t : CommandType) → try_from (type_byte t) ≡ ok t
unfolding try_from
try_from-type_byte CommandType.set = refl
try_from-type_byte CommandType.rm = refl

module _ (buf : Bytes) (cursor : ℕ) (c : Command) (rest : Bytes)
    (at : At buf cursor (write_body c ++ rest)) (fits : Fits c) (small : IsBuffer buf) where
  At-ts :
      At buf cursor
        (to_le_bytes 8 (get_timestamp c) ++ (type_byte (command_type c) ∷ (fields c ++ rest)))
  At-ts = simp (write_body-fields c, append_assoc) at at

  At-type : At buf (cursor + 8) (type_byte (command_type c) ∷ (fields c ++ rest))
  At-type = At-after_u64 buf cursor _ _ At-ts

  At-fields : At buf (cursor + 8 + 1) (fields c ++ rest)
  At-fields = At-after_u8 buf (cursor + 8) _ _ At-type

  body_end : cursor + 8 + 1 + length (fields c) ≡ cursor + length (write_body c)
  body_end = rw (write_body-fields c) (
      omega (
        arith,
        length-append (to_le_bytes 8 (get_timestamp c)) (type_byte (command_type c) ∷ fields c),
        length-to_le_bytes,
      ))

  read_body-At :
      read_body buf cursor (cursor + length (write_body c)) ≡ ok (c, cursor + length (write_body c))
  unfolding read_body
  read_body-At = rw (
    read_u64-At buf cursor _ _ fits.ts At-ts small,
    read_u8-At buf (cursor + 8) _ _ At-type,
    try_from-type_byte,
    read_command-At buf (cursor + 8 + 1) rest small c At-fields fits.body,
    body_end,
    ==_refl,
  )

module _ ⦃crc32 : Crc32⦄ where
  -- What the crc covers: the length field and the body.
  abbrev pub covered : Command → Bytes
  covered c = to_le_bytes 4 (as_u32 (encoded_body_len c)) ++ write_body c

  pub serialize-covered :
      (c : Command) → serialize c ≡ to_le_bytes 4 (crc32.hash (covered c)) ++ covered c
  unfolding serialize
  serialize-covered c = refl

  pub length-covered : (c : Command) → length (covered c) ≡ 4 + encoded_body_len c
  length-covered c = omega (
    arith,
    length-append (to_le_bytes 4 (as_u32 (encoded_body_len c))) (write_body c),
    length-to_le_bytes,
    length-write_body c,
  )

  pub length-serialize : (c : Command) → length (serialize c) ≡ header_len + encoded_body_len c
  length-serialize c = rw (serialize-covered c) (
      omega (
        arith,
        length-append (to_le_bytes 4 (crc32.hash (covered c))) (covered c),
        length-to_le_bytes,
        length-covered c,
      ))

  module _ (c : Command) (rest : Bytes) (fits : Fits c)
      (small : IsBuffer (serialize c ++ rest)) where
    At-crc :
        At (serialize c ++ rest) 0 (to_le_bytes 4 (crc32.hash (covered c)) ++ (covered c ++ rest))
    At-crc =
        let e = serialize-covered c in rw (← append_assoc, ← e) (At-start (serialize c ++ rest))

    At-covered : At (serialize c ++ rest) 4 (covered c ++ rest)
    At-covered = At-after_u32 (serialize c ++ rest) 0 _ _ At-crc

    At-len :
        At
          (serialize c ++ rest)
          4
          (to_le_bytes 4 (as_u32 (encoded_body_len c)) ++ (write_body c ++ rest))
    At-len = rw append_assoc at At-covered

    At-body : At (serialize c ++ rest) 8 (write_body c ++ rest)
    At-body = At-after_u32 (serialize c ++ rest) 4 _ _ At-len

    read_len : read_u32 (serialize c ++ rest) 4 ≡ ok (encoded_body_len c, 8)
    read_len =
        let e : as_u32 (encoded_body_len c) ≡ encoded_body_len c = omega (arith, fits.body) in
        rw e at (read_u32-At (serialize c ++ rest) 4 _ _ (omega arith) At-len small)

    whole : slice (serialize c ++ rest) crc_len (header_len + encoded_body_len c) ≡ covered c
    whole =
        let e : header_len + encoded_body_len c ≡ 4 + length (covered c) =
          omega (arith, length-covered c) in
        rw e (slice-At (serialize c ++ rest) 4 (covered c) rest At-covered)

    complete : header_len + encoded_body_len c ≤ length (serialize c ++ rest)
    complete = omega (arith, length-append (serialize c) rest, length-serialize c)

    -- A record that was written is read back, and exactly its bytes are used, whatever follows it.
    pub deserialize-serialize : deserialize (serialize c ++ rest) ≡ ok (c, length (serialize c))
    unfolding deserialize
    deserialize-serialize =
        let n : header_len + encoded_body_len c ≡ 8 + length (write_body c) =
          omega (arith, length-write_body c) in
        rw (
          length-serialize c,
          read_u32-At (serialize c ++ rest) 0 _ _ (crc32.hash-lt _) At-crc small,
          read_len,
          le→ltb _ _ complete,
          whole,
          ==_refl,
          n,
          read_body-At (serialize c ++ rest) 8 c rest At-body fits small,
        )
