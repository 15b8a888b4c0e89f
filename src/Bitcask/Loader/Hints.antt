-- ===== src/Bitcask/Loader/Hints.antt =====
-- The replay of a hint file: the keydir that it makes is that of the data file which it describes.
use bitcask.Prelude.{
  ℕ, suc, ◌+◌, ◌-◌, ◌^◌, ◌≤◌, ◌<◌, ◌≡◌, refl, ap, some, true, false, List, [], ◌∷◌, ◌++◌, arith,
  All, length, length-append, append-nil, take,
}
use bitcask.Prelude.Bytes.{Bytes}
use bitcask.Prelude.Map
use bitcask.Crc32.{Crc32}
use bitcask.Error.{ok}
use bitcask.Wire.{as_u32}
use bitcask.Files.{open_read}
use bitcask.Files.Names.{hint_file, file_name_key}
use bitcask.Command.{Command, serialize, header_len, body_len}
use bitcask.Command.Header.{body_len-header}
use bitcask.IndexValue
use bitcask.IndexValue.{IndexValue, key_len_len, index_value_len}
use bitcask.IndexValue.RoundTrip
use bitcask.IndexValue.RoundTrip.{
  length-body, covered-body, serialize-covered, deserialize-serialize_hint,
}
use bitcask.RecordReader
use bitcask.RecordReader.{RecordReader, full_record, clean_eof, next_record}
use bitcask.RecordReader.Next.{IsSynced, IsFrame, next_record-frame, IsSynced-next, next_record-end}
use bitcask.Bitcask.Loader.{
  Loader, replay_hint, hint_loop, replay_command, replay_hint_file, after_hint,
}
use bitcask.Bitcask.Loader.Replay.{replayed}

-- The key and the entry of a hint record.
abbrev pub Hint : Type 0
Hint = Bytes × IndexValue

-- The entries put one after another, under the file id of the caller.
abbrev pub hinted : ℕ → List Hint → Loader → Loader
hinted file_id [] l = l
hinted file_id ((key, e) ∷ hints) l =
    hinted file_id hints (replay_hint key (record e { file_id = file_id }) l)

abbrev pub SetsKey : Command → Type 0
SetsKey (Command.set ts key value) = Unit
SetsKey (Command.rm ts key) = ⊥

module _ ⦃crc32 : Crc32⦄ where
  abbrev pub hint_log : List Hint → Bytes
  hint_log [] = []
  hint_log ((key, e) ∷ hints) = IndexValue.serialize e key ++ hint_log hints

  -- The hints of the sets of a log, each with its place in the file.
  abbrev pub hints_of : ℕ → ℕ → List Command → List Hint
  hints_of file_id position [] = []
  hints_of file_id position (Command.set ts key value ∷ cs) =
      let len = length (serialize (Command.set ts key value)) in
      (key, record { file_id = file_id; ts = ts; offset = position; len = len })
      ∷ hints_of file_id (position + len) cs
  hints_of file_id position (Command.rm ts key ∷ cs) =
      hints_of file_id (position + length (serialize (Command.rm ts key))) cs

  abbrev pub HintFits : Hint → Type 0
  HintFits (key, e) = IndexValue.RoundTrip.Fits e key

  module _ (key : Bytes) (e : IndexValue) (fits : IndexValue.RoundTrip.Fits e key) where
    body_len-hint :
        body_len (take header_len (IndexValue.serialize e key))
        ≡ key_len_len + length key + index_value_len
    body_len-hint =
        let small : as_u32 (key_len_len + length key + index_value_len)
            ≡ key_len_len + length key + index_value_len =
          omega (arith, fits.body) in
        rw
          (
            serialize-covered e key,
            covered-body e key,
            body_len-header _ _ _ (
                let h : as_u32 (key_len_len + length key + index_value_len) < 2 ^ 32 =
                  omega arith in
                h),
          )
          small

    serialize_hint-IsFrame : IsFrame (IndexValue.serialize e key)
    serialize_hint-IsFrame = record {
      long = omega (arith, IndexValue.RoundTrip.length-serialize e key);
      body =
          rw body_len-hint
            (omega (arith, length-body e key, IndexValue.RoundTrip.length-serialize e key));
    }

    deserialize_hint_record :
        (file_id : ℕ)
        → length (IndexValue.serialize e key) < 2 ^ 63
        → IndexValue.deserialize (IndexValue.serialize e key) file_id
          ≡ ok (key, record e { file_id = file_id }, length (IndexValue.serialize e key))
    deserialize_hint_record file_id small = rw append-nil at (
        deserialize-serialize_hint e key [] fits
          (let h : length (IndexValue.serialize e key ++ []) < 2 ^ 63 =
              omega (arith, length-append (IndexValue.serialize e key) [], small) in
            h)
          file_id)

  -- One turn of the loop, on a hint.
  hint_loop_record :
      (file_id fuel position n : ℕ) (bytes key : Bytes) (e : IndexValue) (r next : RecordReader)
      (l : Loader)
      → next_record r ≡ (full_record position bytes, next)
      → IndexValue.deserialize bytes file_id ≡ ok (key, e, n)
      → hint_loop (suc fuel) r file_id l ≡ hint_loop fuel next file_id (replay_hint key e l)
  unfolding hint_loop
  hint_loop_record file_id fuel position n bytes key e r next l f d =
      let after : (next_record r).1 ≡ next = ap (λ p. p.1) f in rw (hint_loop, f, d, after)

  hint_loop_end :
      (file_id fuel : ℕ) (r : RecordReader) (l : Loader) {next : RecordReader}
      → next_record r ≡ (clean_eof, next)
      → hint_loop (suc fuel) r file_id l ≡ some (true, l)
  unfolding hint_loop
  hint_loop_end file_id fuel r l e = rw (hint_loop, e)

  length-hint_log_le : (hints : List Hint) → length hints ≤ length (hint_log hints)
  length-hint_log_le [] = omega arith
  length-hint_log_le ((key, e) ∷ hints) = omega (
    arith,
    length-append (IndexValue.serialize e key) (hint_log hints),
    IndexValue.RoundTrip.length-serialize e key,
    length-hint_log_le hints,
  )

  -- The loop goes over the whole file.
  hint_loop-log :
      (file_id spare : ℕ) (hints : List Hint) (r : RecordReader) (l : Loader)
      → All HintFits hints
      → IsSynced r
      → r.file_len < 2 ^ 63
      → r.reader ≡ hint_log hints
      → hint_loop (length hints + suc spare) r file_id l ≡ some (true, hinted file_id hints l)
  hint_loop-log file_id spare [] r l fits synced small e =
      let f : 0 + suc spare ≡ suc spare = omega arith in
      rw f (hint_loop_end file_id spare r l (next_record-end r synced e))
  hint_loop-log file_id spare ((key, v) ∷ hints) r l fits synced small e =
      let step : suc (length hints) + suc spare ≡ suc (length hints + suc spare) = omega arith in
      let len : length (IndexValue.serialize v key) < 2 ^ 63 = omega (
        arith,
        synced.whole,
        ap length e,
        length-append (IndexValue.serialize v key) (hint_log hints),
        small,
      ) in
      let next : RecordReader = record r {
        reader = hint_log hints;
        position = r.position + length (IndexValue.serialize v key);
      } in
      let frame = serialize_hint-IsFrame key v fits.0 in
      rw
        (
          step,
          hint_loop_record file_id (length hints + suc spare) r.position
              (length (IndexValue.serialize v key)) (IndexValue.serialize v key) key
              (record v { file_id = file_id }) r next l
              (next_record-frame r synced (IndexValue.serialize v key) (hint_log hints) e frame)
              (deserialize_hint_record key v fits.0 file_id len),
        )
        (hint_loop-log file_id spare hints next (replay_hint key (record v { file_id = file_id }) l)
          fits.1 (IsSynced-next r synced (IndexValue.serialize v key) (hint_log hints) e frame)
          small refl)

  -- A hint file that holds whole hints is taken for its data file.
  pub replay_hint_file-log :
      (file_id inode hint : ℕ) (l : Loader) (hints : List Hint)
      → Map.get l.files.dir (hint_file file_id) ≡ some hint
      → l.files.contents hint ≡ hint_log hints
      → All HintFits hints
      → length (l.files.contents hint) < 2 ^ 63
      → replay_hint_file file_id inode l ≡ some (ok false, hinted file_id hints l)
  unfolding replay_hint_file open_read after_hint RecordReader.new
  replay_hint_file-log file_id inode hint l hints there e fits small =
      let enough : length hints + suc (length (l.files.contents hint) - length hints)
          ≡ suc (length (l.files.contents hint)) =
        omega (arith, ap length e, length-hint_log_le hints) in
      let goes =
        hint_loop-log file_id (length (l.files.contents hint) - length hints) hints
          (RecordReader.new (l.files.contents hint) (length (l.files.contents hint))) l fits
          (record { whole = omega arith; fits = omega (arith, small) }) small e in
      rw (replay_hint_file, open_read, there, ← enough, goes) refl

  -- Put by hint or by record, the entries are the same.
  pub hinted-replayed :
      (file_id position : ℕ) (cs : List Command) (l t : Loader)
      → All SetsKey cs
      → l.index ≡ t.index
      → (hinted file_id (hints_of file_id position cs) l).index
        ≡ (replayed file_id position cs t).index
  unfolding replay_command
  hinted-replayed file_id position [] l t sets e = e
  hinted-replayed file_id position (Command.set ts key value ∷ cs) l t sets e =
      let len = length (serialize (Command.set ts key value)) in
      hinted-replayed file_id (position + len) cs _ _ sets.1 (rw e refl)
  hinted-replayed file_id position (Command.rm ts key ∷ cs) l t sets e = absurd sets.0
