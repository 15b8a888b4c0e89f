-- ===== src/BytesUtil/Cursor.antt =====
-- What a read does at a cursor, seen from what the buffer still holds there: which value it takes,
-- where it leaves the cursor, and when it runs past the end.
use bitcask.Prelude.{
  ℕ, zero, suc, subst, ◌+◌, ◌-◌, ◌^◌, ◌≤◌, ◌<◌, ◌≡◌, refl, sym, ap, ◌∙◌, ◌++◌, [], ◌∷◌, arith,
  length, drop, length-append, length-drop, take-append, drop-append, drop-drop,
}
use bitcask.Prelude.Bytes.{Bytes}
use bitcask.Error.{ok, err, io, unexpected_eof}
use bitcask.Wire.{to_le_bytes, from_le_bytes, as_u32}
use bitcask.Wire.Laws.{length-to_le_bytes, from_le_bytes-to_le_bytes}
use bitcask.BytesUtil.{usize_mod, slice, byte_at, read_end, read_u8, read_u32, read_u64, read_bytes}

-- Rust allocates at most isize::MAX bytes.
abbrev pub IsBuffer : Bytes → Type 0
IsBuffer buf = length buf < 2 ^ 63

-- The cursor lies in the buffer, and `rest` is what follows it.
pub record At (buf : Bytes) (cursor : ℕ) (rest : Bytes) : Type 0 where
  pub inside : cursor ≤ length buf
  pub follows : drop cursor buf ≡ rest

pub At-start : (buf : Bytes) → At buf 0 buf
At-start buf = record { inside = omega arith; follows = refl }

module _ (buf : Bytes) (cursor : ℕ) (xs rest : Bytes) (at : At buf cursor (xs ++ rest)) where
  room : length buf ≡ cursor + length xs + length rest
  room =
      omega (arith, length-drop cursor buf, ap length at.follows, length-append xs rest, at.inside)

  pub At-advance : At buf (cursor + length xs) rest
  At-advance = record {
    inside = omega (arith, room);
    follows =
        sym (drop-drop (length xs) cursor buf)
        ∙ ap (drop (length xs)) at.follows
        ∙ drop-append xs rest;
  }

  pub slice-At : slice buf cursor (cursor + length xs) ≡ xs
  slice-At =
      let e : cursor + length xs - cursor ≡ length xs = omega arith in
      rw (e, at.follows) (take-append xs rest)

  read_end-At : IsBuffer buf → read_end buf cursor (length xs) ≡ ok (cursor + length xs)
  unfolding read_end
  read_end-At small = ground (arith, room)

  -- The read takes what stands at the cursor.
  pub read_bytes-At : IsBuffer buf → read_bytes buf cursor (length xs) ≡ ok (xs, cursor + length xs)
  unfolding read_bytes
  read_bytes-At small = rw (read_end-At small, slice-At)

  -- A full read of `w` bytes, written for an integer.
  read_end-width : (w : ℕ) → length xs ≡ w → IsBuffer buf → read_end buf cursor w ≡ ok (cursor + w)
  read_end-width w e small = rw (← e) (read_end-At small)

  slice-width : (w : ℕ) → length xs ≡ w → slice buf cursor (cursor + w) ≡ xs
  slice-width w e = rw (← e) slice-At

At-advance_width :
    (buf : Bytes) (cursor w n : ℕ) (rest : Bytes)
    → At buf cursor (to_le_bytes w n ++ rest)
    → At buf (cursor + w) rest
At-advance_width buf cursor w n rest at =
    subst (λ k. At buf (cursor + k) rest) (length-to_le_bytes w n)
      (At-advance buf cursor (to_le_bytes w n) rest at)

module _ (buf : Bytes) (cursor n : ℕ) (rest : Bytes) where
  pub read_u32-At :
      n < 2 ^ 32
      → At buf cursor (to_le_bytes 4 n ++ rest)
      → IsBuffer buf
      → read_u32 buf cursor ≡ ok (n, cursor + 4)
  unfolding read_u32
  read_u32-At fits at small = rw (
    read_end-width buf cursor (to_le_bytes 4 n) rest at 4 (length-to_le_bytes 4 n) small,
    slice-width buf cursor (to_le_bytes 4 n) rest at 4 (length-to_le_bytes 4 n),
    from_le_bytes-to_le_bytes 4 n fits,
  )

  pub read_u64-At :
      n < 2 ^ 64
      → At buf cursor (to_le_bytes 8 n ++ rest)
      → IsBuffer buf
      → read_u64 buf cursor ≡ ok (n, cursor + 8)
  unfolding read_u64
  read_u64-At fits at small = rw (
    read_end-width buf cursor (to_le_bytes 8 n) rest at 8 (length-to_le_bytes 8 n) small,
    slice-width buf cursor (to_le_bytes 8 n) rest at 8 (length-to_le_bytes 8 n),
    from_le_bytes-to_le_bytes 8 n fits,
  )

  pub At-after_u32 : At buf cursor (to_le_bytes 4 n ++ rest) → At buf (cursor + 4) rest
  At-after_u32 = At-advance_width buf cursor 4 n rest

  pub At-after_u64 : At buf cursor (to_le_bytes 8 n ++ rest) → At buf (cursor + 8) rest
  At-after_u64 = At-advance_width buf cursor 8 n rest

  byte_at-drop : (bs : Bytes) (i : ℕ) → drop i bs ≡ n ∷ rest → byte_at bs i ≡ n
  byte_at-drop [] zero e = cc
  byte_at-drop [] (suc i) e = cc
  byte_at-drop (b ∷ bs) zero e = cc
  byte_at-drop (b ∷ bs) (suc i) e = byte_at-drop bs i e

  pub read_u8-At : At buf cursor (n ∷ rest) → read_u8 buf cursor ≡ ok (n, cursor + 1)
  unfolding read_u8
  read_u8-At at =
      ground (arith, room buf cursor (n ∷ []) rest at, byte_at-drop buf cursor at.follows)

  pub At-after_u8 : At buf cursor (n ∷ rest) → At buf (cursor + 1) rest
  At-after_u8 at = At-advance buf cursor (n ∷ []) rest at

-- A read that runs past the end of the buffer.
pub read_u32_short :
    (buf : Bytes) (cursor : ℕ)
    → length buf < cursor + 4
    → cursor + 4 < usize_mod
    → read_u32 buf cursor ≡ err (io unexpected_eof)
unfolding read_u32 read_end
read_u32_short buf cursor short fits = ground arith

-- A read with room for its four bytes.
pub read_u32_room :
    (buf : Bytes) (cursor : ℕ)
    → cursor + 4 ≤ length buf
    → IsBuffer buf
    → read_u32 buf cursor ≡ ok (from_le_bytes (slice buf cursor (cursor + 4)), cursor + 4)
unfolding read_u32 read_end
read_u32_room buf cursor room small = ground arith

-- One field with its length before it.
module _ (buf : Bytes) (cursor : ℕ) (xs rest : Bytes)
    (at : At buf cursor (to_le_bytes 4 (as_u32 (length xs)) ++ (xs ++ rest)))
    (fits : length xs < 2 ^ 32) (small : IsBuffer buf) where
  pub field_len : read_u32 buf cursor ≡ ok (length xs, cursor + 4)
  field_len =
      let e : as_u32 (length xs) ≡ length xs = omega arith in
      rw e at (read_u32-At buf cursor (as_u32 (length xs)) (xs ++ rest) (omega arith) at small)

  pub field_bytes : read_bytes buf (cursor + 4) (length xs) ≡ ok (xs, cursor + 4 + length xs)
  field_bytes = read_bytes-At buf (cursor + 4) xs rest (At-after_u32 buf cursor _ _ at) small

  pub field_after : At buf (cursor + 4 + length xs) rest
  field_after = At-advance buf (cursor + 4) xs rest (At-after_u32 buf cursor _ _ at)
