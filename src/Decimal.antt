-- ===== src/Decimal.antt =====
-- Decimal numbers as texts: std's Display of an unsigned integer, and reading the digits back.
use bitcask.Prelude.{
  ℕ, zero, suc, ◌+◌, ◌-◌, ◌*◌, ◌/◌, ◌%◌, ◌^◌, ◌≤◌, ◌<◌, ◌≡◌, refl, ◌∙◌, Bool, true, false, inl, inr,
  [], ◌∷◌, ◌++◌, ◌&&◌, arith, ltb, leb, length, if◌then◌else◌, Bool-cases, ltb→lt, ltb→le, lt→ltb,
  Option, none, some, not, ◌||◌, ◌==◌,
}
use bitcask.Prelude.Bytes.{Bytes}

-- The digits of a number, on as much fuel as it is large.
unfoldable pub digits : ℕ → ℕ → Bytes
digits zero n = (48 + n) ∷ []
digits (suc fuel) n =
    let front = digits fuel (n / 10) in
    if ltb n 10 then (48 + n) ∷ [] else front ++ ((48 + n % 10) ∷ [])

abbrev pub decimal : ℕ → Bytes
decimal n = digits n n

abbrev pub is_digit : ℕ → Bool
is_digit b = leb 48 b && leb b 57

abbrev pub all_digits : Bytes → Bool
all_digits [] = true
all_digits (b ∷ bs) = is_digit b && all_digits bs

abbrev pub is_empty : Bytes → Bool
is_empty [] = true
is_empty (b ∷ bs) = false

-- The loop over the digits.
unfoldable pub number : ℕ → Bytes → ℕ
number n [] = n
number n (d ∷ ds) = number (n * 10 + (d - 48)) ds

pub all_digits-append :
    (xs ys : Bytes) → all_digits xs ≡ true → all_digits ys ≡ true → all_digits (xs ++ ys) ≡ true
all_digits-append [] ys h k = k
all_digits-append (x ∷ xs) ys h k = let rest = all_digits-append xs ys in ground (arith, h, k, rest)

pub number-append : (n : ℕ) (xs ys : Bytes) → number n (xs ++ ys) ≡ number (number n xs) ys
unfolding number
number-append n [] ys = refl
number-append n (x ∷ xs) ys = number-append (n * 10 + (x - 48)) xs ys

is_empty-append : (xs ys : Bytes) → is_empty xs ≡ false → is_empty (xs ++ ys) ≡ false
is_empty-append [] ys h = absurd (cc h)
is_empty-append (x ∷ xs) ys h = refl

-- What is shown of a number.
pub record Shows (n : ℕ) (ds : Bytes) : Type 0 where
  pub value : number 0 ds ≡ n
  pub all : all_digits ds ≡ true
  pub some_digit : is_empty ds ≡ false

digit-Shows : (n : ℕ) → n < 10 → Shows n ((48 + n) ∷ [])
unfolding number
digit-Shows n h = record { value = omega arith; all = ground (arith, h); some_digit = refl }

append-Shows : (n : ℕ) (ds : Bytes) → Shows (n / 10) ds → Shows n (ds ++ ((48 + n % 10) ∷ []))
unfolding number
append-Shows n ds h = record {
  value = number-append 0 ds ((48 + n % 10) ∷ []) ∙ omega (arith, h.value);
  all = all_digits-append ds ((48 + n % 10) ∷ []) h.all ground arith;
  some_digit = is_empty-append ds ((48 + n % 10) ∷ []) h.some_digit;
}

digits-Shows : (fuel n : ℕ) → n ≤ fuel → Shows n (digits fuel n)
unfolding digits
digits-Shows zero n h = digit-Shows n (omega arith)
digits-Shows (suc fuel) n h = elim (Bool-cases (ltb n 10)) [
  | inl small ↦ rw (digits, small) (digit-Shows n (ltb→lt _ _ small))
  | inr large ↦
      rw (digits, large)
        (append-Shows n (digits fuel (n / 10))
          (digits-Shows fuel (n / 10) (omega (arith, ltb→le n 10 large))))
]

pub decimal-Shows : (n : ℕ) → Shows n (decimal n)
decimal-Shows n = digits-Shows n n (omega arith)

-- Noughts in front, up to a width.
abbrev pub noughts : ℕ → Bytes
noughts zero = []
noughts (suc n) = 48 ∷ noughts n

-- `format!("{:06}", n)` for a width of 6
abbrev pub padded : ℕ → ℕ → Bytes
padded width n = noughts (width - length (decimal n)) ++ decimal n

noughts-Shows : (k n : ℕ) (ds : Bytes) → Shows n ds → Shows n (noughts k ++ ds)
unfolding number
noughts-Shows zero n ds h = h
noughts-Shows (suc k) n ds h =
    let rest = noughts-Shows k n ds h in
    record { value = rest.value; all = ground (arith, rest.all); some_digit = refl }

pub padded-Shows : (width n : ℕ) → Shows n (padded width n)
padded-Shows width n = noughts-Shows (width - length (decimal n)) n (decimal n) (decimal-Shows n)

-- `s.parse::<u64>()`: a sign may stand in front.
abbrev parse_digits : Bytes → Option ℕ
parse_digits ds =
    if is_empty ds || not (all_digits ds)
    then none
    else if ltb (number 0 ds) (2 ^ 64)
    then some (number 0 ds)
    else none

abbrev pub parse_u64 : Bytes → Option ℕ
parse_u64 [] = none
parse_u64 (b ∷ bs) = if b == 43 then parse_digits bs else parse_digits (b ∷ bs)

pub parse_u64-Shows : (n : ℕ) (ds : Bytes) → n < 2 ^ 64 → Shows n ds → parse_u64 ds ≡ some n
parse_u64-Shows n [] room h = absurd (cc h.some_digit)
parse_u64-Shows n (d ∷ ds) room h =
    let no_sign : (d == 43) ≡ false = ground (arith, h.all) in
    rw (no_sign, h.all, h.value, lt→ltb n (2 ^ 64) room) refl
