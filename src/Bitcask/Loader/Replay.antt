-- ===== src/Bitcask/Loader/Replay.antt =====
-- What the loop over a data file does on a file that holds a log, and on one whose last record was
-- torn by a crash.
use bitcask.Prelude.{
  ℕ, suc, ◌+◌, ◌-◌, ◌^◌, ◌≤◌, ◌<◌, ◌≡◌, refl, ◌∙◌, sym, ap, some, false, List, [], ◌∷◌, ◌++◌, arith,
  All, length, take, drop, length-append, length-take, append_assoc, append-nil, take-append-drop,
  take-append_le, inl, inr, Bool-cases, ltb, ltb→lt, ltb→le,
}
use bitcask.Prelude.Bytes.{Bytes}
use bitcask.Crc32.{Crc32}
use bitcask.Error.{ok}
use bitcask.Command.{Command, header_len, body_len, serialize, deserialize}
use bitcask.Command.RoundTrip.{Fits, deserialize-serialize, length-serialize}
use bitcask.RecordReader
use bitcask.RecordReader.{RecordReader, full_record, clean_eof, torn_tail, next_record}
use bitcask.RecordReader.Next.{
  IsSynced, next_record-frame, IsSynced-next, next_record-end, next_record-torn, serialize-IsFrame,
  body_len-serialize,
}
use bitcask.Bitcask.Loader.{Loader, replay_command, torn_data, data_loop, replay_data}

module _ ⦃crc32 : Crc32⦄ where
  -- The file to which these commands were appended, one after another.
  abbrev pub log : List Command → Bytes
  log [] = []
  log (c ∷ cs) = serialize c ++ log cs

  -- The commands applied in their order, from a place in the file.
  abbrev pub replayed : ℕ → ℕ → List Command → Loader → Loader
  replayed file_id position [] l = l
  replayed file_id position (c ∷ cs) l =
      replayed file_id (position + length (serialize c)) cs
        (replay_command file_id position (length (serialize c)) c l)

  abbrev pub from_start : Loader → Loader
  from_start l = record l { writer = record l.writer { offset = 0 } }

  pub length-log_le : (cs : List Command) → length cs ≤ length (log cs)
  length-log_le [] = omega arith
  length-log_le (c ∷ cs) =
      omega (arith, length-append (serialize c) (log cs), length-serialize c, length-log_le cs)

  deserialize_record :
      (c : Command)
      → Fits c
      → length (serialize c) < 2 ^ 63
      → deserialize (serialize c) ≡ ok (c, length (serialize c))
  deserialize_record c fits small = rw append-nil at (
      deserialize-serialize c [] fits (
        let h : length (serialize c ++ []) < 2 ^ 63 =
          omega (arith, length-append (serialize c) [], small) in
        h))

  -- One turn of the loop, on a record.
  data_loop_record :
      (file_id fuel position n : ℕ) (bytes : Bytes) (c : Command) (r next : RecordReader)
      (l : Loader)
      → next_record r ≡ (full_record position bytes, next)
      → deserialize bytes ≡ ok (c, n)
      → data_loop (suc fuel) r file_id l
        ≡ data_loop fuel next file_id (replay_command file_id position (length bytes) c l)
  unfolding data_loop
  data_loop_record file_id fuel position n bytes c r next l e d =
      let after : (next_record r).1 ≡ next = ap (λ p. p.1) e in rw (data_loop, e, d, after)

  data_loop_end :
      (file_id fuel : ℕ) (r : RecordReader) (l : Loader) {next : RecordReader}
      → next_record r ≡ (clean_eof, next)
      → data_loop (suc fuel) r file_id l ≡ some (ok false, l)
  unfolding data_loop
  data_loop_end file_id fuel r l e = rw (data_loop, e)

  data_loop_torn :
      (file_id fuel position : ℕ) (r : RecordReader) (l : Loader)
      → (next_record r).0 ≡ torn_tail position
      → data_loop (suc fuel) r file_id l ≡ some (torn_data file_id position l)
  unfolding data_loop
  data_loop_torn file_id fuel position r l e = rw (data_loop, e)

  -- A record cut short is not a frame.
  cut_frame :
      (c : Command) (n : ℕ)
      → Fits c
      → n < length (serialize c)
      → length (take n (serialize c))
        < header_len + body_len (take header_len (take n (serialize c)))
  cut_frame c n fit less = elim (Bool-cases (ltb n header_len)) [
    | inl short ↦ omega (arith, length-take n (serialize c), ltb→lt _ _ short)
    | inr long ↦
        let same : take header_len (take n (serialize c)) ≡ take header_len (serialize c) =
          sym (
            take-append_le header_len (take n (serialize c)) (drop n (serialize c))
              (omega (arith, length-take n (serialize c), ltb→le _ _ long)))
          ∙ ap (take header_len) (take-append-drop n (serialize c)) in
        omega (
          arith,
          length-take n (serialize c),
          ap body_len same,
          body_len-serialize c fit,
          length-serialize c,
        )
  ]

  module _ (file_id : ℕ) (tail : Bytes) (fuel : ℕ) where
    -- The loop goes over the whole records, and on at what follows them.
    data_loop-log :
        (cs : List Command) (r : RecordReader) (l : Loader)
        → All Fits cs
        → IsSynced r
        → r.file_len < 2 ^ 63
        → r.reader ≡ log cs ++ tail
        → data_loop (length cs + fuel) r file_id l
          ≡ data_loop fuel
              (record r { reader = tail; position = r.position + length (log cs) })
              file_id
              (replayed file_id r.position cs l)
    data_loop-log [] r l fits synced small e =
        let z : r.position + 0 ≡ r.position = omega arith in
        let f : 0 + fuel ≡ fuel = omega arith in rw (z, f, ← e)
    data_loop-log (c ∷ cs) r l fits synced small e =
        let e₁ : r.reader ≡ serialize c ++ (log cs ++ tail) =
          e ∙ append_assoc (serialize c) (log cs) tail in
        let step : suc (length cs) + fuel ≡ suc (length cs + fuel) = omega arith in
        let len : length (serialize c) < 2 ^ 63 = omega (
          arith,
          synced.whole,
          ap length e₁,
          length-append (serialize c) (log cs ++ tail),
          small,
        ) in
        let next : RecordReader = record r {
          reader = log cs ++ tail;
          position = r.position + length (serialize c);
        } in
        let place : r.position + length (serialize c) + length (log cs)
            ≡ r.position + length (log (c ∷ cs)) =
          omega (arith, length-append (serialize c) (log cs)) in
        rw (
          step,
          data_loop_record file_id (length cs + fuel) r.position (length (serialize c))
              (serialize c) c r next l
              (next_record-frame r synced (serialize c) (log cs ++ tail) e₁
                (serialize-IsFrame c fits.0))
              (deserialize_record c fits.0 len),
          data_loop-log cs next (replay_command file_id r.position (length (serialize c)) c l)
              fits.1
              (IsSynced-next r synced (serialize c) (log cs ++ tail) e₁
                (serialize-IsFrame c fits.0))
              small refl,
          place,
        )

  module _ (file_id inode : ℕ) (l : Loader) (cs : List Command) (fits : All Fits cs)
      (small : length (l.files.contents inode) < 2 ^ 63) where
    -- The reader behind the whole records.
    abbrev at_tail : Bytes → RecordReader
    at_tail tail = record {
      reader = tail;
      position = length (log cs);
      file_len = length (l.files.contents inode);
    }

    replay_data-tail :
        (tail : Bytes) (fuel : ℕ)
        → l.files.contents inode ≡ log cs ++ tail
        → length cs + fuel ≡ suc (length (l.files.contents inode))
        → replay_data file_id inode l
          ≡ data_loop fuel (at_tail tail) file_id (replayed file_id 0 cs (from_start l))
    unfolding replay_data RecordReader.new
    replay_data-tail tail fuel e enough =
        let z : 0 + length (log cs) ≡ length (log cs) = omega arith in
        rw (z, enough) at
          (data_loop-log file_id tail fuel cs
            (RecordReader.new (l.files.contents inode) (length (l.files.contents inode)))
            (from_start l) fits (record { whole = omega arith; fits = omega (arith, small) }) small
            e)

    IsSynced-tail :
        (tail : Bytes) → l.files.contents inode ≡ log cs ++ tail → IsSynced (at_tail tail)
    IsSynced-tail tail e = record {
      whole = omega (arith, ap length e, length-append (log cs) tail);
      fits = omega (arith, small);
    }

    spare :
        (tail : Bytes)
        → l.files.contents inode ≡ log cs ++ tail
        → (fuel : ℕ) × (length cs + suc fuel ≡ suc (length (l.files.contents inode)))
    spare tail e = (
      length (l.files.contents inode) - length cs,
      omega (arith, ap length e, length-append (log cs) tail, length-log_le cs),
    )

    -- A file that holds the records of a log is replayed to its end, each command at its place.
    pub replay_data-log :
        l.files.contents inode ≡ log cs
        → replay_data file_id inode l ≡ some (ok false, replayed file_id 0 cs (from_start l))
    replay_data-log e =
        let e₁ : l.files.contents inode ≡ log cs ++ [] = e ∙ sym (append-nil (log cs)) in
        let (fuel, enough) = spare [] e₁ in
        replay_data-tail [] (suc fuel) e₁ enough
        ∙ data_loop_end file_id fuel (at_tail []) (replayed file_id 0 cs (from_start l))
            (next_record-end (at_tail []) (IsSynced-tail [] e₁) refl)

    -- A file whose last record was cut is replayed up to that record.
    pub replay_data-torn :
        (c : Command) (n : ℕ)
        → Fits c
        → 0 < n
        → n < length (serialize c)
        → l.files.contents inode ≡ log cs ++ take n (serialize c)
        → replay_data file_id inode l
          ≡ some (torn_data file_id (length (log cs)) (replayed file_id 0 cs (from_start l)))
    replay_data-torn c n fit some_bytes less e =
        let (fuel, enough) = spare (take n (serialize c)) e in
        replay_data-tail (take n (serialize c)) (suc fuel) e enough
        ∙ data_loop_torn file_id fuel (length (log cs)) (at_tail (take n (serialize c)))
            (replayed file_id 0 cs (from_start l))
            (next_record-torn (at_tail (take n (serialize c)))
              (IsSynced-tail (take n (serialize c)) e) (omega (arith, length-take n (serialize c)))
              (cut_frame c n fit less))
