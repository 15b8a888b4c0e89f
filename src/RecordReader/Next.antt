-- ===== src/RecordReader/Next.antt =====
-- What one `next_record` returns, on a log that goes on with a record, that is cut short, or that is
-- at its end.
use bitcask.Prelude.{
  ◌+◌, ◌^◌, ◌≤◌, ◌<◌, ◌≡◌, ap, [], ◌++◌, arith, length, length-append, length-drop, take, drop,
  take-append, take-append-drop, drop-append, ltb, lt→ltb, le→ltb, ltb→le, drop-append_le,
  take-append_le, Bool-cases, false, inl, inr, ◌==◌,
}
use bitcask.Prelude.Bytes.{Bytes}
use bitcask.Wire.{as_u32}
use bitcask.Crc32.{Crc32}
use bitcask.Command.{Command, header_len, body_len, serialize, encoded_body_len}
use bitcask.Command.Header.{body_len-header}
use bitcask.Command.RoundTrip.{Fits, serialize-covered, length-serialize}
use bitcask.RecordReader.{full_record, clean_eof, torn_tail, RecordReader, sub_u64, next_record}

-- The file length is that of the whole file, and it is a u64.
pub record IsSynced (r : RecordReader) : Type 0 where
  pub whole : r.position + length r.reader ≡ r.file_len
  pub fits : r.file_len < 2 ^ 64

-- A record with a header of eight bytes that announce the length of its body.
pub record IsFrame (bytes : Bytes) : Type 0 where
  pub long : header_len ≤ length bytes
  pub body : header_len + body_len (take header_len bytes) ≡ length bytes

module _ (r : RecordReader) (s : IsSynced r) where
  remaining_lem :
      header_len ≤ length r.reader
      → sub_u64 (sub_u64 r.file_len r.position) header_len ≡ length (drop header_len r.reader)
  remaining_lem h = omega (arith, s.whole, s.fits, length-drop header_len r.reader)

  module _ (bytes rest : Bytes) (e : r.reader ≡ bytes ++ rest) (f : IsFrame bytes) where
    length-reader : length r.reader ≡ length bytes + length rest
    length-reader = rw e (length-append bytes rest)

    header_same : take header_len r.reader ≡ take header_len bytes
    header_same = rw e (take-append_le header_len bytes rest f.long)

    body_then : drop header_len r.reader ≡ drop header_len bytes ++ rest
    body_then = rw e (drop-append_le header_len bytes rest f.long)

    length-body : length (drop header_len bytes) ≡ body_len (take header_len bytes)
    length-body = omega (arith, length-drop header_len bytes, f.body)

    room : body_len (take header_len bytes) ≤ length (drop header_len r.reader)
    room = omega (arith, length-drop header_len r.reader, length-reader, f.body)

    take_body :
        take (body_len (take header_len bytes)) (drop header_len r.reader) ≡ drop header_len bytes
    take_body = rw (body_then, ← length-body) (take-append (drop header_len bytes) rest)

    drop_body : drop (body_len (take header_len bytes)) (drop header_len r.reader) ≡ rest
    drop_body = rw (body_then, ← length-body) (drop-append (drop header_len bytes) rest)

    end_lem : r.position + header_len + body_len (take header_len bytes) ≡ r.position + length bytes
    end_lem = omega (arith, f.body)

    -- The whole frame at the front of the bytes is returned with its place in the file, and the
    -- reader stands behind it.
    pub next_record-frame : next_record r ≡ (
      full_record r.position bytes,
      record r { reader = rest; position = r.position + length bytes },
    )
    unfolding next_record
    next_record-frame = rw (
      le→ltb _ _ (let h : header_len ≤ length r.reader = omega (arith, length-reader, f.long) in h),
      header_same,
      remaining_lem (omega (arith, length-reader, f.long)),
      le→ltb _ _ room,
      take_body,
      drop_body,
      take-append-drop,
      end_lem,
    )

    pub IsSynced-next : IsSynced (record r { reader = rest; position = r.position + length bytes })
    IsSynced-next = record { whole = omega (arith, s.whole, length-reader); fits = s.fits }

  -- At the end of the file the end is clean.
  pub next_record-end : r.reader ≡ [] → next_record r ≡ (clean_eof, record r { reader = [] })
  unfolding next_record
  next_record-end e = ground (arith, s.whole, ap length e)

  -- Bytes that do not make up a frame are a torn tail at the place where they start.
  pub next_record-torn :
      0 < length r.reader
      → length r.reader < header_len + body_len (take header_len r.reader)
      → (next_record r).0 ≡ torn_tail r.position
  unfolding next_record
  next_record-torn some short = elim (Bool-cases (ltb (length r.reader) header_len)) [
    | inl cut ↦
        let not_end : (r.position == r.file_len) ≡ false = ground (arith, s.whole) in
        rw (cut, not_end)
    | inr header ↦
        let less : length (drop header_len r.reader) < body_len (take header_len r.reader) =
          omega (arith, length-drop header_len r.reader, ltb→le _ _ header) in
        rw (header, remaining_lem (ltb→le _ _ header), lt→ltb _ _ less)
  ]

module _ ⦃crc32 : Crc32⦄ (c : Command) (fits : Fits c) where
  pub body_len-serialize : body_len (take header_len (serialize c)) ≡ encoded_body_len c
  body_len-serialize =
      let e : as_u32 (encoded_body_len c) ≡ encoded_body_len c = omega (arith, fits.body) in
      rw
        (
          serialize-covered c,
          body_len-header _ _ _ (let h : as_u32 (encoded_body_len c) < 2 ^ 32 = omega arith in h),
        )
        e

  -- What `serialize` writes is a frame.
  pub serialize-IsFrame : IsFrame (serialize c)
  serialize-IsFrame = record {
    long = omega (arith, length-serialize c);
    body = rw (body_len-serialize, length-serialize);
  }
