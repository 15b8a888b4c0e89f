-- ===== src/Command/Header.antt =====
-- The length field of a header, as `RecordReader` reads it.
use bitcask.Prelude.{
  ℕ, ◌^◌, ◌<◌, ◌≡◌, ◌++◌, arith, length, take, drop, append_assoc, length-append, take-append,
  drop-append, take_self, subst,
}
use bitcask.Prelude.Bytes.{Bytes}
use bitcask.Wire.{to_le_bytes}
use bitcask.Wire.Laws.{length-to_le_bytes, from_le_bytes-to_le_bytes}
use bitcask.Command.{header_len, body_len}

module _ (crc len : ℕ) (rest : Bytes) where
  take-header :
      take header_len (to_le_bytes 4 crc ++ (to_le_bytes 4 len ++ rest))
      ≡ to_le_bytes 4 crc ++ to_le_bytes 4 len
  take-header =
      let e : length (to_le_bytes 4 crc ++ to_le_bytes 4 len) ≡ header_len =
        omega (arith, length-append (to_le_bytes 4 crc) (to_le_bytes 4 len), length-to_le_bytes) in
      rw (← append_assoc) (
        subst
          (λ k.
            take k (to_le_bytes 4 crc ++ to_le_bytes 4 len ++ rest)
            ≡ to_le_bytes 4 crc ++ to_le_bytes 4 len)
          e (take-append (to_le_bytes 4 crc ++ to_le_bytes 4 len) rest))

  drop-crc : drop 4 (to_le_bytes 4 crc ++ to_le_bytes 4 len) ≡ to_le_bytes 4 len
  drop-crc =
      subst (λ k. drop k (to_le_bytes 4 crc ++ to_le_bytes 4 len) ≡ to_le_bytes 4 len)
        (length-to_le_bytes 4 crc) (drop-append (to_le_bytes 4 crc) (to_le_bytes 4 len))

  take_len : take 4 (to_le_bytes 4 len) ≡ to_le_bytes 4 len
  take_len =
      subst (λ k. take k (to_le_bytes 4 len) ≡ to_le_bytes 4 len) (length-to_le_bytes 4 len)
        (take_self (to_le_bytes 4 len))

  -- The header of a record that starts with its crc and its length.
  pub body_len-header :
      len < 2 ^ 32
      → body_len (take header_len (to_le_bytes 4 crc ++ (to_le_bytes 4 len ++ rest))) ≡ len
  unfolding body_len
  body_len-header fits = rw (take-header, drop-crc, take_len) (from_le_bytes-to_le_bytes 4 len fits)
