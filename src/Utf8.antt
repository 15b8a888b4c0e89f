-- ===== src/Utf8.antt =====
-- `std::str::from_utf8` and `String::from_utf8`: which bytes are UTF-8. A `&str` is its bytes.
use bitcask.Prelude.{
  ℕ, zero, suc, Bool, false, Option, none, some, [], ◌∷◌, ◌&&◌, ltb, leb, ◌==◌, if◌then◌else◌, ◌≡◌,
  refl, true, inl, inr, ◌++◌, arith, Option-cases,
}
use bitcask.Prelude.Bytes.{Bytes}

-- How many continuation bytes are due, and the range of the next one.
abbrev Due : Type 0
Due = ℕ × ℕ × ℕ

abbrev between : ℕ → ℕ → ℕ → Bool
between lo hi b = leb lo b && leb b hi

first_byte : ℕ → Option Due
first_byte b =
    if ltb b 0x80
    then some (0, 0x80, 0xbf)
    else if between 0xc2 0xdf b
    then some (1, 0x80, 0xbf)
    else if b == 0xe0
    then some (2, 0xa0, 0xbf)
    else if b == 0xed
    then some (2, 0x80, 0x9f)
    else if between 0xe1 0xef b
    then some (2, 0x80, 0xbf)
    else if b == 0xf0
    then some (3, 0x90, 0xbf)
    else if between 0xf1 0xf3 b
    then some (3, 0x80, 0xbf)
    else if b == 0xf4
    then some (3, 0x80, 0x8f)
    else none

next_byte : Due → ℕ → Option Due
next_byte (zero, lo, hi) b = first_byte b
next_byte (suc n, lo, hi) b = if between lo hi b then some (n, 0x80, 0xbf) else none

run : Option Due → Bytes → Bool
run none bs = false
run (some (n, lo, hi)) [] = n == 0
run (some due) (b ∷ bs) = run (next_byte due b) bs

unfoldable pub is_utf8 : Bytes → Bool
unfolding run next_byte first_byte
is_utf8 bs = run (some (0, 0x80, 0xbf)) bs

run-start : (lo hi : ℕ) (bs : Bytes) → run (some (0, lo, hi)) bs ≡ is_utf8 bs
unfolding is_utf8 run next_byte
run-start lo hi [] = refl
run-start lo hi (b ∷ bs) = refl

run-append :
    (n lo hi : ℕ) (xs ys : Bytes)
    → run (some (n, lo, hi)) xs ≡ true
    → run (some (n, lo, hi)) (xs ++ ys) ≡ is_utf8 ys
unfolding run
run-append zero lo hi [] ys h = run-start lo hi ys
run-append (suc n) lo hi [] ys h = absurd (ground (arith, h))
run-append n lo hi (b ∷ xs) ys h = elim (Option-cases (next_byte (n, lo, hi) b)) [
  | inl stop ↦ absurd (cc (rw (run, stop) at h))
  | inr ((m, l, u), go) ↦ rw (run, go) (run-append m l u xs ys (rw (run, go) at h))
]

-- What follows a whole text is UTF-8 if the two together are.
pub is_utf8-append : (xs ys : Bytes) → is_utf8 xs ≡ true → is_utf8 (xs ++ ys) ≡ is_utf8 ys
unfolding is_utf8
is_utf8-append xs ys h = run-append 0 0x80 0xbf xs ys h
