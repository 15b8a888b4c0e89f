-- ===== src/Bitcask/Merge/Records.antt =====
-- One record of a sealed file.
use bitcask.Prelude.{
  ℕ, ◌+◌, ◌-◌, ◌^◌, ◌≤◌, ◌<◌, ◌≡◌, refl, ◌∙◌, sym, ap, Option, some, true, List, ◌++◌, arith,
  length, take, drop, length-append, take-append-drop, inl, inr, Bool-cases,
}
use bitcask.Prelude.Bytes.{Bytes}
use bitcask.Prelude.Map
use bitcask.Prelude.Map.{id_key}
use bitcask.Crc32.{Crc32}
use bitcask.Error.{ok}
use bitcask.BytesUtil.Cursor.{At}
use bitcask.Exec.Ends.{Ends, went, Ends-bind}
use bitcask.Command.{Command, serialize, deserialize}
use bitcask.IndexValue.{IndexValue}
use bitcask.Index.{lookup}
use bitcask.RecordReader.{RecordReader, full_record, next_record}
use bitcask.RecordReader.Next.{IsSynced, next_record-frame, serialize-IsFrame}
use bitcask.Bitcask.State.{Shared, Env}
use bitcask.Bitcask.Invariant.{Holds}
use bitcask.Bitcask.Lookup.{deserialize_record}
use bitcask.Bitcask.Appended.{slice_end}
use bitcask.Bitcask.Merge.{PendingUpdate, MergeOutput, sits_at, append_output, merge_command}
use bitcask.Bitcask.Merge.Steady.{Steady, Steady-refl}
use bitcask.Bitcask.Merge.Working.{Answers, missing, holds, Working, Copied, Filling}
use bitcask.Bitcask.Merge.Copy.{
  next_entry, advanced, Grown, append_output-Ends, Grown-Working, Grown-Filling,
}

sits_at-eq :
    (file_id position : ℕ) (e : IndexValue)
    → sits_at file_id position (some e) ≡ true
    → (e.file_id ≡ file_id) × (e.offset ≡ position)
sits_at-eq file_id position e h = ground arith

module _ ⦃crc32 : Crc32⦄ where
  -- The reader stands in the bytes of an open sealed file.
  pub record Reading (s : Shared) (file_id inode : ℕ) (r : RecordReader) : Type 0 where
    pub opened : Map.get s.readers file_id ≡ some inode
    pub synced : IsSynced r
    pub at : At (s.files.contents inode) r.position r.reader

  module _ {s : Shared} {file_id inode : ℕ} {r : RecordReader} (reading : Reading s file_id inode r)
      (e : IndexValue) (key value : Bytes) (h : Holds s e key value)
      (same_file : e.file_id ≡ file_id) (same_place : e.offset ≡ r.position) where
    same_inode : h.inode ≡ inode
    same_inode = cc (h.opened, reading.opened, same_file)

    reader-split : r.reader ≡ serialize (Command.set e.ts key value) ++ drop e.len r.reader
    reader-split =
        let n : e.offset + e.len - e.offset ≡ e.len = omega arith in
        let at : drop e.offset (s.files.contents h.inode) ≡ r.reader =
          rw (same_inode, same_place) reading.at.follows in
        let front : take e.len r.reader ≡ serialize (Command.set e.ts key value) =
          rw (n, at) at h.bytes in
        sym (take-append-drop e.len r.reader) ∙ ap (λ t. t ++ drop e.len r.reader) front

    -- The record that the reader returns is the one that the entry leads to.
    record-here :
        {bytes : Bytes}
        → (next_record r).0 ≡ full_record r.position bytes
        → bytes ≡ serialize (Command.set e.ts key value)
    record-here turn =
        let whole =
          next_record-frame r reading.synced (serialize (Command.set e.ts key value))
            (drop e.len r.reader) reader-split (serialize-IsFrame _ h.fits) in
        cc (turn, ap (λ p. p.0) whole)

  module _ (view : Bytes → Option Bytes) (low : ℕ) where
    -- What a part of a merge keeps of the output that it was given.
    pub record Merged (s : Shared) (last_id next_free : ℕ) (out : MergeOutput) (limit : ℕ)
        (r : MergeOutput × List PendingUpdate) (t : Shared) : Type 0 where
      pub steady : Steady low s t
      pub working : Working view low last_id next_free t
      pub filling : Filling view low r.0 r.1 t
      pub same_id : r.0.id ≡ out.id
      pub bounded : r.0.written ≤ limit

    module _ ⦃env : Env⦄ {s : Shared} {last_id next_free : ℕ} {out : MergeOutput}
        {pending : List PendingUpdate} (w : Working view low last_id next_free s)
        (f : Filling view low out pending s) {file_id inode : ℕ} {r : RecordReader}
        (reading : Reading s file_id inode r) (bytes : Bytes)
        (turn : (next_record r).0 ≡ full_record r.position bytes)
        (room : out.written + length bytes < 2 ^ 64) where
      kept : Merged s last_id next_free out (out.written + length bytes) (out, pending) s
      kept = record {
        steady = Steady-refl low s;
        working = w;
        filling = f;
        same_id = refl;
        bounded = omega arith;
      }

      update : ℕ → Bytes → PendingUpdate
      update ts key = record {
        key = key;
        previous_value = record {
          file_id = file_id;
          ts = ts;
          offset = r.position;
          len = length bytes;
        };
        new = next_entry out ts (length bytes);
      }

      update-Copied :
          (ts : ℕ) (key value : Bytes) {t : Shared}
          → Grown view low s out bytes t
          → bytes ≡ serialize (Command.set ts key value)
          → (e : IndexValue) → Holds s e key value
          → e.ts ≡ ts
          → view key ≡ some value
          → Copied view (advanced out (length bytes)) t (update ts key)
      unfolding update
      update-Copied ts key value g same e h same_ts current = record {
        value = value;
        current = current;
        file = refl;
        inside =
            rw g.grown
              (omega (arith, f.at_end, length-append (s.files.contents out.data_inode) bytes));
        bytes = rw (g.grown, ← f.at_end) (slice_end (s.files.contents out.data_inode) bytes ∙ same);
        fits = rw same_ts at h.fits;
        text = h.text;
      }

      copy-Ends :
          (ts : ℕ) (key value : Bytes) (n : ℕ)
          → deserialize bytes ≡ ok (Command.set ts key value, n)
          → sits_at file_id r.position (lookup s.index key) ≡ true
          → Answers s key (view key)
          → Ends
              (Merged s last_id next_free out (out.written + length bytes))
              (Steady low s)
              (merge_command file_id r.position bytes (Command.set ts key value) out pending s)
      unfolding merge_command update
      copy-Ends ts key value n d sits (missing e none_now) =
          absurd (cc (sits, ap (sits_at file_id r.position) e))
      copy-Ends ts key value n d sits (holds e v found h current) =
          let (same_file, same_place) =
            sits_at-eq file_id r.position e (ap (sits_at file_id r.position) (sym found) ∙ sits) in
          let here = record-here reading e key v h same_file same_place turn in
          let whole : deserialize (serialize (Command.set e.ts key v))
              ≡ ok (Command.set e.ts key v, length (serialize (Command.set e.ts key v))) =
            deserialize_record (Command.set e.ts key v) h.fits in
          let read : ok (Command.set ts key value, n)
              ≡ ok (Command.set e.ts key v, length (serialize (Command.set e.ts key v))) =
            sym d ∙ ap deserialize here ∙ whole in
          let same_ts : e.ts ≡ ts = cc read in
          rw (merge_command, sits)
            (Ends-bind (append_output out bytes key ts) _ s
              (append_output-Ends view low f bytes key ts room)
              λ r' t (entry, out', g).
                rw (entry, out')
                  (went _ _ (record {
                    steady = g.steady;
                    working = Grown-Working view low g w;
                    filling =
                        Grown-Filling view low g f (update ts key)
                          (update-Copied ts key v g (rw (← same_ts) here) e h same_ts current);
                    same_id = refl;
                    bounded = omega arith;
                  })))

      pub merge_command-Ends :
          (c : Command) (n : ℕ)
          → deserialize bytes ≡ ok (c, n)
          → Ends
              (Merged s last_id next_free out (out.written + length bytes))
              (Steady low s)
              (merge_command file_id r.position bytes c out pending s)
      unfolding merge_command
      merge_command-Ends (Command.rm ts key) n d = went _ _ kept
      merge_command-Ends (Command.set ts key value) n d =
          elim (Bool-cases (sits_at file_id r.position (lookup s.index key))) [
            | inl sits ↦ copy-Ends ts key value n d sits (w.serves.answers key)
            | inr gone ↦ rw (merge_command, gone) (went _ _ kept)
          ]
