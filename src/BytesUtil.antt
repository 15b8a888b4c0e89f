-- ===== src/BytesUtil.antt =====
-- storage/bytes_util.rs: reads at a cursor. A read returns its value and the moved cursor; the
-- source writes the cursor only after the last check, so on an error the caller's stays.
pub mod Cursor
pub mod Taken
use bitcask.Prelude.{
  ℕ, zero, suc, ◌+◌, ◌-◌, ◌^◌, Option, none, some, List, [], ◌∷◌, ltb, leb, if◌then◌else◌, length,
  take, drop,
}
use bitcask.Prelude.Bytes.{Bytes}
use bitcask.Error.{Result, ok, err, io, unexpected_eof, invalid_data}
use bitcask.Error.{IoErrorKind, ◌>>=◌}
use bitcask.Wire.{from_le_bytes}

-- `usize` is 64 bits wide.
abbrev pub usize_mod : ℕ
usize_mod = 2 ^ 64

abbrev pub checked_add : ℕ → ℕ → Option ℕ
checked_add a b = if ltb (a + b) usize_mod then some (a + b) else none

-- `buf[start..end]`, for start ≤ end ≤ buf.len().
abbrev pub slice : Bytes → ℕ → ℕ → Bytes
slice buf start end = take (end - start) (drop start buf)

-- `buf[i]`, for i < buf.len().
abbrev pub byte_at : Bytes → ℕ → ℕ
byte_at [] i = 0
byte_at (b ∷ bs) zero = b
byte_at (b ∷ bs) (suc i) = byte_at bs i

unfoldable pub read_u8 : Bytes → ℕ → Result (ℕ × ℕ)
read_u8 buf cursor =
    if leb (length buf) cursor then err (io unexpected_eof) else ok (byte_at buf cursor, cursor + 1)

-- The part that the other reads share: the end of the read, checked.
read_end : Bytes → ℕ → ℕ → Result ℕ
read_end buf cursor len = elim (checked_add cursor len) [
  | none ↦ err (io IoErrorKind.invalid_data)
  | some end ↦ if ltb (length buf) end then err (io unexpected_eof) else ok end
]

unfoldable pub read_u32 : Bytes → ℕ → Result (ℕ × ℕ)
unfolding read_end
read_u32 buf cursor = do end ← read_end buf cursor 4; ok (from_le_bytes (slice buf cursor end), end)

unfoldable pub read_u64 : Bytes → ℕ → Result (ℕ × ℕ)
unfolding read_end
read_u64 buf cursor = do end ← read_end buf cursor 8; ok (from_le_bytes (slice buf cursor end), end)

unfoldable pub read_bytes : Bytes → ℕ → ℕ → Result (Bytes × ℕ)
unfolding read_end
read_bytes buf cursor len = do end ← read_end buf cursor len; ok (slice buf cursor end, end)
