-- ===== src/Crc32.antt =====
-- The crate crc32fast, as the code uses it: `hash` maps bytes to a u32.
use bitcask.Prelude.{ℕ, ◌+◌, ◌*◌, ◌%◌, ◌^◌, ◌<◌, [], ◌∷◌, arith}
use bitcask.Prelude.Bytes.{Bytes}

pub record Crc32 : Type 0 where
  pub hash : Bytes → ℕ
  pub hash-lt : (bs : Bytes) → hash bs < 2 ^ 32

-- A checksum for the concrete runs: a polynomial in the bytes, modulo 2 ^ 32.
abbrev pub poly_hash : Bytes → ℕ
poly_hash [] = 7
poly_hash (b ∷ bs) = (b + 1 + 31 * poly_hash bs) % 2 ^ 32

pub poly_hash-lt : (bs : Bytes) → poly_hash bs < 2 ^ 32
poly_hash-lt [] = omega arith
poly_hash-lt (b ∷ bs) = omega arith

abbrev pub poly : Crc32
poly = record { hash = poly_hash; hash-lt = poly_hash-lt }
