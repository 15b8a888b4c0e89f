-- ===== src/Network/Resp/RoundTrip.antt =====
-- A value that the server sends is read back by the parser of the protocol.
use bitcask.Prelude.{
  ℕ, zero, suc, ◌+◌, ◌-◌, ◌/◌, ◌%◌, ◌^◌, ◌≤◌, ◌<◌, ◌≡◌, refl, subst, some, true, false, [], ◌∷◌,
  ◌++◌, ◌==◌, arith, length, length-append, take-append, drop-append, append_assoc, ltb, Bool-cases,
  inl, inr, lt→ltb, le→ltb, ==_refl, drop-drop,
}
use bitcask.Prelude.Bytes.{Bytes, codes, bytes_eq, bytes_eq_refl}
use bitcask.Decimal.{decimal, digits, decimal-Shows, all_digits}
use bitcask.Error.{ok}
use bitcask.BytesUtil.{slice}
use bitcask.Network.Resp.{crlf, bulk_string, parse_len}
use bitcask.Network.Resp.Parse.{find_crlf, take_line, parse_bulk, parse_value, parse_resp}
use bitcask.Network.Resp.Reply.{write_bulk}

find_crlf-digits :
    (ds rest : Bytes) → all_digits ds ≡ true → find_crlf (ds ++ (13 ∷ 10 ∷ rest)) ≡ some (length ds)
unfolding find_crlf
find_crlf-digits [] rest h = refl
find_crlf-digits (d ∷ []) rest h = ground (arith, h)
find_crlf-digits (d ∷ e ∷ ds) rest h =
    let k = find_crlf-digits (e ∷ ds) rest (ground (arith, h)) in
    let no_cr : (d == 13) ≡ false = ground (arith, h) in rw (find_crlf, no_cr, k) refl

length-digits : (fuel k n : ℕ) → n < 10 ^ suc k → length (digits fuel n) ≤ suc k
unfolding digits
length-digits zero k n h = omega arith
length-digits (suc fuel) zero n h =
    let small : ltb n 10 ≡ true = lt→ltb n 10 (omega arith) in rw (digits, small) (omega arith)
length-digits (suc fuel) (suc k) n h = elim (Bool-cases (ltb n 10)) [
  | inl small ↦ rw (digits, small) (omega arith)
  | inr large ↦
      let less : n / 10 < 10 ^ suc k = omega arith in
      let front = length-digits fuel k (n / 10) less in
      let size = length-append (digits fuel (n / 10)) ((48 + n % 10) ∷ []) in
      rw (digits, large) (omega (arith, size, front))
]

no_minus : (ds : Bytes) → all_digits ds ≡ true → bytes_eq ds (codes "-1") ≡ false
unfolding bytes_eq
no_minus [] h = refl
no_minus (d ∷ ds) h = ground (arith, h)

parse_len-decimal : (n : ℕ) → n < 10 ^ 10 → parse_len (decimal n) ≡ ok (some n)
unfolding parse_len
parse_len-decimal n h =
    let shown = decimal-Shows n in
    let short : ltb 10 (length (decimal n)) ≡ false =
      le→ltb 10 (length (decimal n)) (length-digits n 9 n h) in
    rw (parse_len, no_minus (decimal n) shown.all, shown.some_digit, short, shown.all, shown.value)
      refl

-- The line in front of a bulk string.
take_line-bulk :
    (ds rest : Bytes)
    → all_digits ds ≡ true
    → take_line (36 ∷ (ds ++ (13 ∷ 10 ∷ rest))) ≡ ok (36, ds, length ds + 3)
unfolding take_line find_crlf
take_line-bulk [] rest h = refl
take_line-bulk (d ∷ ds) rest h =
    let k = find_crlf-digits (d ∷ ds) rest h in
    let cut : suc (suc (length ds)) - 1 ≡ length (d ∷ ds) = omega arith in
    let some_line : (suc (suc (length ds)) == 0) ≡ false = ground arith in
    let used : suc (suc (length ds)) + 2 ≡ suc (length ds) + 3 = omega arith in
    rw (take_line, find_crlf, k, some_line, cut, used, take-append (d ∷ ds) (13 ∷ 10 ∷ rest)) refl

parse_bulk-line :
    (front v : Bytes)
    → parse_bulk (front ++ (v ++ crlf)) (some (length v)) (length front)
      ≡ ok (bulk_string (some v), length front + length v + 2)
unfolding parse_bulk
parse_bulk-line front v =
    let buf = front ++ (v ++ crlf) in
    let size : length buf ≡ length front + length v + 2 =
      omega (arith, length-append front (v ++ crlf), length-append v crlf) in
    let long : ltb (length buf) (length front + length v) ≡ false =
      le→ltb (length buf) (length front + length v) (omega (arith, size)) in
    let value : slice buf (length front) (length front + length v) ≡ v =
      (let n : length front + length v - length front ≡ length v = omega arith in
        rw (n, drop-append front (v ++ crlf), take-append v crlf) refl) in
    let end : slice buf (length front + length v) (length front + length v + 2) ≡ crlf =
      (let n : length front + length v + 2 - (length front + length v) ≡ 2 = omega arith in
        rw
          (
            n,
            ← drop-drop (length v) (length front) buf,
            drop-append front (v ++ crlf),
            drop-append v crlf,
          )
          refl) in
    rw (parse_bulk, long, value, end, bytes_eq_refl crlf) refl

parse_bulk-at :
    (buf front v : Bytes) (used : ℕ)
    → front ++ (v ++ crlf) ≡ buf
    → length front ≡ used
    → parse_bulk buf (some (length v)) used ≡ ok (bulk_string (some v), used + length v + 2)
parse_bulk-at buf front v used e n =
    subst (λ u. parse_bulk buf (some (length v)) u ≡ ok (bulk_string (some v), u + length v + 2)) n
      (subst
        (λ b.
          parse_bulk b (some (length v)) (length front)
          ≡ ok (bulk_string (some v), length front + length v + 2))
        e (parse_bulk-line front v))

-- A bulk string that is written, of a length with at most ten digits, is parsed back.
pub parse_resp-write_bulk :
    (v : Bytes) → length v < 10 ^ 10 → parse_resp (write_bulk v) ≡ ok (bulk_string (some v))
unfolding parse_resp parse_value write_bulk
parse_resp-write_bulk v h =
    let ds = decimal (length v) in
    let shown = decimal-Shows (length v) in
    let line = take_line-bulk ds (v ++ crlf) shown.all in
    let front : Bytes = 36 ∷ (ds ++ (13 ∷ 10 ∷ [])) in
    let whole : front ++ (v ++ crlf) ≡ 36 ∷ (ds ++ (13 ∷ 10 ∷ (v ++ crlf))) =
      rw append_assoc refl in
    let behind : length front ≡ length ds + 3 = omega (arith, length-append ds (13 ∷ 10 ∷ [])) in
    let value = parse_bulk-at (write_bulk v) front v (length ds + 3) whole behind in
    let used : (length ds + 3 + length v + 2 == length (write_bulk v)) ≡ true =
      (let size : length (write_bulk v) ≡ length ds + 3 + length v + 2 =
          omega (arith, length-append ds (13 ∷ 10 ∷ (v ++ crlf)), length-append v crlf) in
        rw size (==_refl (length ds + 3 + length v + 2))) in
    rw (parse_resp, parse_value, line, parse_len-decimal (length v) h, value, used) refl
