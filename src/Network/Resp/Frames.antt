-- ===== src/Network/Resp/Frames.antt =====
-- A redis frame takes bytes off the connection, and reading one comes to an end.
use bitcask.Prelude.{
  ℕ, zero, suc, ◌+◌, ◌≤◌, ◌<◌, ◌≡◌, refl, Option, none, some, inl, inr, [], ◌∷◌, ◌++◌, arith,
  length, length-drop, take, ◌-◌, ltb, ◌==◌, ◌||◌, not, Bool-cases,
}
use bitcask.Prelude.Bytes.{Bytes, ends_with}
use bitcask.Error.{Result, ok, err, io, unexpected_eof, ◌>>=◌, ok-bind, refuse-ok, Result-cases}
use bitcask.Network.Protocol.{read_exact, max_payload}
use bitcask.Network.Resp.{
  Progress, plus, minus, colon, dollar, star, crlf, parse_len, read_bulk, read_array, read_kind,
  read_value, read_line, frame_loop, read_frame_resp,
}

-- What is left of a reader.
abbrev Left : Bytes → Progress → Type 0
Left reader (pending, frame, rest) = length rest ≤ length reader

pub read_exact-shrinks :
    (n : ℕ) (reader : Bytes) {bytes rest : Bytes}
    → read_exact n reader ≡ ok (bytes, rest)
    → length rest ≤ length reader
unfolding read_exact
read_exact-shrinks n reader e = let h = length-drop n reader in ground (arith, e, h)

read_bulk-Left :
    (len : Option ℕ) (pending : ℕ) (frame reader : Bytes) {p : Progress}
    → read_bulk len pending frame reader ≡ ok p
    → Left reader p
unfolding read_bulk
read_bulk-Left none pending frame reader e = ground (arith, e)
read_bulk-Left (some len) pending frame reader e =
    let (small, f) = refuse-ok (ltb max_payload len) _ e in
    ok-bind (read_exact (len + 2) reader) _ f λ (bytes, rest) exact g.
      let h = read_exact-shrinks (len + 2) reader exact in ground (arith, g, h)

read_array-Left :
    (len : Option ℕ) (pending : ℕ) (frame reader : Bytes) {p : Progress}
    → read_array len pending frame reader ≡ ok p
    → Left reader p
unfolding read_array
read_array-Left none pending frame reader e = ground (arith, e)
read_array-Left (some len) pending frame reader e = ground (arith, e)

-- A step of parsing a length and going on.
parse_len-Left :
    (body reader : Bytes) (f : Option ℕ → Result Progress) {p : Progress}
    → (parse_len body >>= f) ≡ ok p
    → ((len : Option ℕ) → f len ≡ ok p → Left reader p)
    → Left reader p
parse_len-Left body reader f e k = ok-bind (parse_len body) f e (λ len parsed g. k len g)

read_kind-Left :
    (kind : ℕ) (body : Bytes) (pending : ℕ) (frame reader : Bytes) {p : Progress}
    → read_kind kind body pending frame reader ≡ ok p
    → Left reader p
unfolding read_kind
read_kind-Left kind body pending frame reader e =
    elim (Bool-cases (kind == plus || kind == minus || kind == colon)) [
      | inl line ↦ ground (arith, rw line at e)
      | inr other ↦ elim (Bool-cases (kind == dollar)) [
        | inl bulk ↦
            parse_len-Left body reader (λ len. read_bulk len pending frame reader)
              (rw (other, bulk) at e) (λ len f. read_bulk-Left len pending frame reader f)
        | inr no_bulk ↦ elim (Bool-cases (kind == star)) [
          | inl items ↦
              parse_len-Left body reader (λ len. read_array len pending frame reader)
                (rw (other, no_bulk, items) at e)
                (λ len f. read_array-Left len pending frame reader f)
          | inr nothing ↦ absurd (cc (rw (other, no_bulk, nothing) at e))
        ]
      ]
    ]

read_value-Left :
    (line : Bytes) (pending : ℕ) (frame reader : Bytes) {p : Progress}
    → read_value line pending frame reader ≡ ok p
    → Left reader p
unfolding read_value
read_value-Left [] pending frame reader e = absurd (cc e)
read_value-Left (kind ∷ line) pending frame reader e =
    let (framed, f) = refuse-ok (ltb (length line) 2 || not (ends_with (kind ∷ line) crlf)) _ e in
    read_kind-Left kind (take (length line - 2) line) pending frame reader f

read_line-shrinks : (c : ℕ) (cs : Bytes) → length (read_line (c ∷ cs)).1 ≤ length cs
unfolding read_line
read_line-shrinks c [] = ground arith
read_line-shrinks c (d ∷ cs) = let h = read_line-shrinks d cs in ground (arith, h)

-- The loop has ended, and a frame that it has found leaves at most `n` bytes.
pub record Returned (n : ℕ) (o : Option (Result (Option Bytes × Bytes))) : Type 0 where
  pub result : Result (Option Bytes × Bytes)
  pub returns : o ≡ some result
  pub left : (frame rest : Bytes) → result ≡ ok (some frame, rest) → length rest ≤ n

-- The loops on this fuel.
abbrev AllReturned : ℕ → Type 0
AllReturned fuel =
    (pending : ℕ) (frame reader : Bytes)
    → length reader < fuel
    → Returned (length reader) (frame_loop fuel pending frame reader)

go_on : ℕ → Result Progress → Option (Result (Option Bytes × Bytes))
go_on fuel (ok (pending, frame, reader)) = frame_loop fuel pending frame reader
go_on fuel (err e) = some (err e)

turn-Returned :
    (fuel : ℕ) (c : ℕ) (cs : Bytes) (pending : ℕ) (frame : Bytes)
    → AllReturned fuel
    → length cs < fuel
    → Returned (length cs) (
        go_on fuel (
          read_value
            (read_line (c ∷ cs)).0
            pending
            (frame ++ (read_line (c ∷ cs)).0)
            (read_line (c ∷ cs)).1))
unfolding go_on
turn-Returned fuel c cs pending frame all less =
    let (line, rest) = read_line (c ∷ cs) in
    let short : length rest ≤ length cs = read_line-shrinks c cs in
    elim (Result-cases (read_value line pending (frame ++ line) rest)) [
      | inl ((p, f, reader), e) ↦
          let h = read_value-Left line pending (frame ++ line) rest e in
          let r = all p f reader (omega arith) in
          rw e (record {
            result = r.result;
            returns = r.returns;
            left = λ g left e. let k = r.left g left e in omega arith;
          })
      | inr (x, e) ↦
          rw e (record { result = err x; returns = refl; left = λ f rest e. absurd (cc e) })
    ]

Returned-weaken :
    {m n : ℕ} {o : Option (Result (Option Bytes × Bytes))} → m ≤ n → Returned m o → Returned n o
Returned-weaken h r = record {
  result = r.result;
  returns = r.returns;
  left = λ f rest e. let k = r.left f rest e in omega arith;
}

frame_loop-Returned : (fuel : ℕ) → AllReturned fuel
unfolding frame_loop go_on
frame_loop-Returned fuel zero frame reader less = record {
  result = ok (some frame, reader);
  returns = refl;
  left = λ f rest e. ground (arith, e);
}
frame_loop-Returned zero (suc pending) frame reader less = absurd (omega arith)
frame_loop-Returned (suc fuel) (suc pending) [] [] less = record {
  result = ok (none, []);
  returns = refl;
  left = λ f rest e. absurd (cc e);
}
frame_loop-Returned (suc fuel) (suc pending) (b ∷ frame) [] less = record {
  result = err (io unexpected_eof);
  returns = refl;
  left = λ f rest e. absurd (cc e);
}
frame_loop-Returned (suc fuel) (suc pending) [] (c ∷ cs) less =
    Returned-weaken (omega arith)
      (turn-Returned fuel c cs pending [] (frame_loop-Returned fuel) (omega arith))
frame_loop-Returned (suc fuel) (suc pending) (b ∷ frame) (c ∷ cs) less =
    Returned-weaken (omega arith)
      (turn-Returned fuel c cs pending (b ∷ frame) (frame_loop-Returned fuel) (omega arith))

-- Reading a frame comes to an end, and a frame that was found took at least a byte.
pub read_frame_resp-returns :
    (reader : Bytes)
    → (r : Result (Option Bytes × Bytes)) × (read_frame_resp reader ≡ some r)
      × ((frame rest : Bytes) → r ≡ ok (some frame, rest) → length rest < length reader)
unfolding read_frame_resp frame_loop go_on
read_frame_resp-returns [] = (ok (none, []), refl, λ f rest e. absurd (cc e))
read_frame_resp-returns (c ∷ cs) =
    let r =
      turn-Returned (suc (length cs)) c cs 0 [] (frame_loop-Returned (suc (length cs)))
        (omega arith) in
    (r.result, r.returns, λ f rest e. let k = r.left f rest e in omega arith)
