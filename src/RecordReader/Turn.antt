-- ===== src/RecordReader/Turn.antt =====
-- One `next_record`, whatever the bytes: a record that uses bytes up, or the end.
use bitcask.Prelude.{
  ℕ, ◌+◌, ◌≤◌, ◌<◌, ◌≡◌, refl, ap, sym, ◌∙◌, ◌++◌, ◌==◌, arith, length, take, drop, length-append,
  length-take, length-drop, take-append-drop, append_assoc, ltb, ltb→le, inl, inr, Bool-cases,
}
use bitcask.Prelude.Bytes.{Bytes}
use bitcask.Command.{header_len, body_len}
use bitcask.RecordReader.{RecordReader, full_record, clean_eof, torn_tail, next_record, sub_u64}

pub data Turn (r : RecordReader) : Type 0 where
  whole :
      (bytes : Bytes) (next : RecordReader)
      → (next_record r).0 ≡ full_record r.position bytes
      → (next_record r).1 ≡ next
      → r.reader ≡ bytes ++ next.reader
      → next.position ≡ r.position + length bytes
      → next.file_len ≡ r.file_len
      → header_len ≤ length bytes
      → Turn r
  ended : (next_record r).0 ≡ clean_eof → Turn r
  cut : (position : ℕ) → (next_record r).0 ≡ torn_tail position → Turn r

module _ (r : RecordReader) (long : header_len ≤ length r.reader) where
  abbrev header : Bytes
  header = take header_len r.reader

  abbrev rest : Bytes
  rest = drop header_len r.reader

  module _ (there : body_len header ≤ length rest) where
    split : r.reader ≡ (header ++ take (body_len header) rest) ++ drop (body_len header) rest
    split =
        sym (take-append-drop header_len r.reader)
        ∙ ap (λ t. header ++ t) (sym (take-append-drop (body_len header) rest))
        ∙ sym (append_assoc header (take (body_len header) rest) (drop (body_len header) rest))

    length-bytes : length (header ++ take (body_len header) rest) ≡ header_len + body_len header
    length-bytes = omega (
      arith,
      length-append header (take (body_len header) rest),
      length-take header_len r.reader,
      length-take (body_len header) rest,
      length-drop header_len r.reader,
    )

pub next_record-Turn : (r : RecordReader) → Turn r
unfolding next_record
next_record-Turn r =
    let head = take header_len r.reader in
    let behind = drop header_len r.reader in
    let len = body_len head in
    elim (Bool-cases (ltb (length r.reader) header_len)) [
      | inl short ↦ elim (Bool-cases (r.position == r.file_len)) [
        | inl end ↦ ended (rw (short, end))
        | inr inside ↦ cut r.position (rw (short, inside))
      ]
      | inr long ↦
          elim (Bool-cases (ltb (sub_u64 (sub_u64 r.file_len r.position) header_len) len)) [
            | inl over ↦ cut r.position (rw (long, over))
            | inr fits ↦ elim (Bool-cases (ltb (length behind) len)) [
              | inl missing ↦ cut r.position (rw (long, fits, missing))
              | inr there ↦
                  let e = length-bytes r (ltb→le _ _ long) (ltb→le _ _ there) in
                  whole (head ++ take len behind)
                    (record r {
                      reader = drop len behind;
                      position = r.position + header_len + len;
                    })
                    (rw (long, fits, there)) (rw (long, fits, there))
                    (split r (ltb→le _ _ long) (ltb→le _ _ there)) (omega (arith, e)) refl
                    (omega (arith, e))
            ]
          ]
    ]

pub next_record-shrinks :
    (r next : RecordReader) (bytes : Bytes)
    → r.reader ≡ bytes ++ next.reader
    → header_len ≤ length bytes
    → length next.reader < length r.reader
next_record-shrinks r next bytes e long =
    omega (arith, ap length e, length-append bytes next.reader)
