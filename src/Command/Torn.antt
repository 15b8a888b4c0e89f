-- ===== src/Command/Torn.antt =====
-- A record cut short, and a record whose crc does not match.
use bitcask.Prelude.{
  ℕ, ◌+◌, ◌-◌, ◌^◌, ◌<◌, ◌≤◌, ◌≡◌, ap, ◌∙◌, ◌++◌, arith, length, take, lt→ltb, ltb, inl, inr,
  Bool-cases, ltb→le, ltb→lt, if◌then◌else◌, length-take, take-append_ge, ◌==◌, true,
}
use bitcask.Prelude.Bytes.{Bytes}
use bitcask.Error.{err, io, unexpected_eof, corruption}
use bitcask.Wire.{to_le_bytes, as_u32}
use bitcask.Wire.Laws.{length-to_le_bytes}
use bitcask.Crc32.{Crc32}
use bitcask.BytesUtil.{slice}
use bitcask.BytesUtil.Cursor.{
  IsBuffer, At, At-after_u32, read_u32-At, read_u32_short, read_u32_room,
}
use bitcask.Command.{
  Command, header_len, crc_len, encoded_body_len, write_body, serialize, deserialize, read_body,
}
use bitcask.Command.RoundTrip.{Fits, covered, serialize-covered, length-serialize}

module _ ⦃crc32 : Crc32⦄ where
  -- A buffer that starts with the two length fields of a record and ends before the record does.
  module _ (buf : Bytes) (crc len : ℕ) (rest : Bytes)
      (at : At buf 0 (to_le_bytes 4 crc ++ (to_le_bytes 4 len ++ rest))) (crc-lt : crc < 2 ^ 32)
      (len-lt : len < 2 ^ 32) (small : IsBuffer buf) where
    pub header_then : deserialize buf ≡ (
        if ltb (length buf) (header_len + len)
        then err (io unexpected_eof)
        else if crc32.hash (slice buf crc_len (header_len + len)) == crc
        then read_body buf 8 (header_len + len)
        else err corruption)
    unfolding deserialize
    header_then = rw (
      read_u32-At buf 0 crc _ crc-lt at small,
      read_u32-At buf 4 len rest len-lt (At-after_u32 buf 0 _ _ at) small,
    )

  -- A buffer that ends before the body does.
  deserialize_short : (buf : Bytes) → length buf < 8 → deserialize buf ≡ err (io unexpected_eof)
  unfolding deserialize
  deserialize_short buf h = elim (Bool-cases (ltb (length buf) 4)) [
    | inl short ↦ rw (read_u32_short buf 0 (ltb→lt _ _ short) (omega arith))
    | inr long ↦
        rw (
          read_u32_room buf 0 (ltb→le _ _ long) (omega arith),
          read_u32_short buf 4 h (omega arith),
        )
  ]

  module _ (c : Command) (n : ℕ) (fits : Fits c) (small : IsBuffer (serialize c))
      (h : n < length (serialize c)) where
    abbrev cut : Bytes
    cut = take n (serialize c)

    length-cut : length (take n (serialize c)) ≡ n
    length-cut = omega (arith, length-take n (serialize c), h)

    cut_header :
        8 ≤ n
        → take n (serialize c)
          ≡ to_le_bytes 4 (crc32.hash (covered c))
            ++ (to_le_bytes 4 (as_u32 (encoded_body_len c)) ++ take (n - 8) (write_body c))
    cut_header long =
        let crc = to_le_bytes 4 (crc32.hash (covered c)) in
        let len = to_le_bytes 4 (as_u32 (encoded_body_len c)) in
        let four : length crc ≡ 4 = length-to_le_bytes 4 _ in
        let four' : length len ≡ 4 = length-to_le_bytes 4 _ in
        let e : n - length crc - length len ≡ n - 8 = omega arith in
        rw (serialize-covered c) (
          take-append_ge n crc (len ++ write_body c) (omega arith)
          ∙ ap (λ t. crc ++ t)
              (take-append_ge (n - length crc) len (write_body c) (omega arith) ∙ rw e))

    deserialize_cut : 8 ≤ n → deserialize (take n (serialize c)) ≡ err (io unexpected_eof)
    deserialize_cut long =
        let at : At (take n (serialize c)) 0 (
            to_le_bytes 4 (crc32.hash (covered c))
            ++ (to_le_bytes 4 (as_u32 (encoded_body_len c)) ++ take (n - 8) (write_body c))) =
          record { inside = omega arith; follows = cut_header long } in
        let short : ltb (length (take n (serialize c))) (header_len + as_u32 (encoded_body_len c))
            ≡ true =
          lt→ltb _ _ (omega (arith, length-cut, length-serialize c, fits.body, h)) in
        header_then (take n (serialize c)) _ _ _ at (crc32.hash-lt _) (omega arith)
          (omega (arith, length-cut, h, small))
        ∙ rw short

  -- Every proper prefix of a record is reported as an incomplete read: not as corruption, and not
  -- as a command.
  pub deserialize_torn :
      (c : Command) (n : ℕ)
      → Fits c
      → IsBuffer (serialize c)
      → n < length (serialize c)
      → deserialize (take n (serialize c)) ≡ err (io unexpected_eof)
  deserialize_torn c n fits small h = elim (Bool-cases (ltb n 8)) [
    | inl short ↦
        deserialize_short (take n (serialize c))
          (omega (arith, length-cut c n fits small h, ltb→lt _ _ short))
    | inr long ↦ deserialize_cut c n fits small h (ltb→le _ _ long)
  ]
