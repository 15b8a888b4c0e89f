-- ===== src/Bitcask/Merge/Loop.antt =====
-- The loop over a sealed file.
use bitcask.Prelude.{
  ℕ, zero, ◌+◌, ◌^◌, ◌≤◌, ◌<◌, ◌≡◌, refl, ◌∙◌, ap, Option, some, List, [], ◌∷◌, ◌++◌, suc, All,
  arith, length, length-append, inl, inr,
}
use bitcask.Prelude.Bytes.{Bytes}
use bitcask.Prelude.Map
use bitcask.Prelude.Map.{id_key}
use bitcask.Crc32.{Crc32}
use bitcask.Error.{corruption, Result-cases}
use bitcask.BytesUtil.Cursor.{At-start, At-advance}
use bitcask.Exec.{Exec, ◌>>=◌}
use bitcask.Exec.Ends.{Ends, went, failed, Ends-bind, Ends-weaken}
use bitcask.Command.{deserialize}
use bitcask.RecordReader
use bitcask.RecordReader.{RecordReader, full_record, next_record}
use bitcask.RecordReader.Turn.{whole, ended, cut, next_record-Turn}
use bitcask.Bitcask.State.{Shared, Env, call, tick_on}
use bitcask.Bitcask.Merge.{PendingUpdate, MergeOutput, merge_command, merge_loop, merge_file}
use bitcask.Bitcask.Merge.Steady.{Steady, Steady-refl, Steady-trans, Steady-tick, call-Ends}
use bitcask.Bitcask.Merge.Working.{Working, Filling, Copied}
use bitcask.Bitcask.Merge.Outputs.{Steady-Working}
use bitcask.Bitcask.Merge.Records.{Reading, Merged, merge_command-Ends}

module _ ⦃crc32 : Crc32⦄ {s t : Shared} {file_id inode low : ℕ} (r next : RecordReader)
    (reading : Reading s file_id inode r) (k : Steady low s t) (below : inode < low) where
  Reading-next :
      (bytes : Bytes)
      → r.reader ≡ bytes ++ next.reader
      → next.position ≡ r.position + length bytes
      → next.file_len ≡ r.file_len
      → Reading t file_id inode next
  Reading-next bytes split place len = record {
    opened = rw k.readers reading.opened;
    synced = record {
      whole = omega (
        arith,
        reading.synced.whole,
        ap length split,
        length-append bytes next.reader,
        place,
        len,
      );
      fits = omega (arith, reading.synced.fits, len);
    };
    at =
        rw (k.contents inode below, place)
          (At-advance (s.files.contents inode) r.position bytes next.reader
            (rw split at reading.at));
  }

module _ ⦃crc32 : Crc32⦄ (view : Bytes → Option Bytes) (low : ℕ) where
  Merged-trans :
      {s t : Shared} {last_id next_free limit limit' : ℕ} {out out' : MergeOutput}
      {x : MergeOutput × List PendingUpdate} {u : Shared}
      → Steady low s t
      → out'.id ≡ out.id
      → limit' ≤ limit
      → Merged view low t last_id next_free out' limit' x u
      → Merged view low s last_id next_free out limit x u
  Merged-trans k i l m = record {
    steady = Steady-trans k m.steady;
    working = m.working;
    filling = m.filling;
    same_id = m.same_id ∙ i;
    bounded = omega (arith, m.bounded, l);
  }

  Copied-ticked :
      (s : Shared) (out : MergeOutput) (pending : List PendingUpdate)
      → All (Copied view out s) pending
      → All (Copied view out (tick_on s)) pending
  Copied-ticked s out [] h = tt
  Copied-ticked s out (p ∷ pending) (c, h) = (
    record {
      value = c.value;
      current = c.current;
      file = c.file;
      inside = c.inside;
      bytes = c.bytes;
      fits = c.fits;
      text = c.text;
    },
    Copied-ticked s out pending h,
  )

  -- A call that changes nothing leaves the working state.
  module _ {s : Shared} where
    ticked-Working :
        {last_id next_free : ℕ}
        → Working view low last_id next_free s
        → Working view low last_id next_free (tick_on s)
    ticked-Working {last_id} w =
        Steady-Working view low last_id (Steady-tick low s (suc s.tick)) w w.new_compact w.new_hint

    ticked-Filling :
        {out : MergeOutput} {pending : List PendingUpdate}
        → Filling view low out pending s
        → Filling view low out pending (tick_on s)
    ticked-Filling {out} {pending} f = record {
      place = f.place;
      above = f.above;
      apart = f.apart;
      made = f.made;
      at_end = f.at_end;
      copied = Copied-ticked s out pending f.copied;
    }

    ticked-Reading :
        {file_id inode : ℕ} {r : RecordReader}
        → Reading s file_id inode r
        → Reading (tick_on s) file_id inode r
    ticked-Reading reading = record {
      opened = reading.opened;
      synced = reading.synced;
      at = reading.at;
    }

  -- How a loop over a file, or a part of it, ends.
  abbrev pub LoopEnds :
      Shared → ℕ → ℕ → MergeOutput → ℕ → Option (MergeOutput × List PendingUpdate) → Shared → Type 0
  LoopEnds s last_id next_free out limit o t =
      (x : MergeOutput × List PendingUpdate) × (o ≡ some x)
      × Merged view low s last_id next_free out limit x t

  module _ ⦃env : Env⦄ {last_id next_free : ℕ} (file_id inode : ℕ) (below : inode < low) where
    after_call :
        (s : Shared) (m : Unit {0} → Exec Shared (Option (MergeOutput × List PendingUpdate)))
        (out : MergeOutput) {limit : ℕ}
        → Ends
            (LoopEnds (tick_on s) last_id next_free out limit)
            (Steady low (tick_on s))
            (m tt (tick_on s))
        → Ends (LoopEnds s last_id next_free out limit) (Steady low s) ((call >>= m) s)
    after_call s m out h =
        let k = Steady-tick low s (suc s.tick) in
        Ends-bind call m s (call-Ends s) λ a t at_t. rw at_t (
          Ends-weaken h (λ o u q. (q.0, q.1, Merged-trans k refl (omega arith) q.2))
            (λ u l. Steady-trans k l))

    merge_loop-Ends :
        (fuel : ℕ) (r : RecordReader) (out : MergeOutput) (pending : List PendingUpdate)
        (s : Shared)
        → Working view low last_id next_free s
        → Filling view low out pending s
        → Reading s file_id inode r
        → length r.reader < fuel
        → out.written + length r.reader < 2 ^ 64
        → Ends
            (LoopEnds s last_id next_free out (out.written + length r.reader))
            (Steady low s)
            (merge_loop fuel r file_id out pending s)
    unfolding merge_loop
    merge_loop-Ends zero r out pending s w f reading enough room = absurd (omega arith)
    merge_loop-Ends (suc fuel) r out pending s w f reading enough room =
        after_call s _ out (elim (next_record-Turn r) [
          | whole bytes next e n split place len long ↦
              let sum : length r.reader ≡ length bytes + length next.reader =
                omega (arith, ap length split, length-append bytes next.reader) in
              elim (Result-cases (deserialize bytes)) [
                | inl ((c, used), d) ↦
                    rw (e, d, n)
                      (Ends-bind (merge_command file_id r.position bytes c out pending) _
                        (tick_on s)
                        (merge_command-Ends view low (ticked-Working w) (ticked-Filling f)
                          (ticked-Reading reading) bytes e (omega arith) c used d)
                        λ x t m.
                          Ends-weaken
                            (merge_loop-Ends fuel next x.0 x.1 t m.working m.filling
                              (Reading-next r next (ticked-Reading reading) m.steady below bytes
                                split place len)
                              (omega arith) (omega (arith, m.bounded)))
                            (λ o u q. (
                              q.0,
                              q.1,
                              Merged-trans m.steady m.same_id (omega (arith, m.bounded, sum)) q.2,
                            ))
                            (λ u k. Steady-trans m.steady k))
                | inr (x, d) ↦ rw (e, d) (failed x _ (Steady-refl low _))
              ]
          | ended e ↦ rw e (
              went _ _ (
                (out, pending),
                refl,
                record {
                  steady = Steady-refl low _;
                  working = ticked-Working w;
                  filling = ticked-Filling f;
                  same_id = refl;
                  bounded = omega arith;
                },
              ))
          | cut position e ↦ rw e (failed corruption _ (Steady-refl low _))
        ])

    pub merge_file-Ends :
        (out : MergeOutput) (pending : List PendingUpdate) (s : Shared)
        → Working view low last_id next_free s
        → Filling view low out pending s
        → Map.get s.readers file_id ≡ some inode
        → out.written + length (s.files.contents inode) < 2 ^ 64
        → Ends
            (LoopEnds s last_id next_free out (out.written + length (s.files.contents inode)))
            (Steady low s)
            (merge_file file_id inode out pending s)
    unfolding merge_file RecordReader.new
    merge_file-Ends out pending s w f opened room = after_call s _ out (
        after_call (tick_on s) _ out (
          merge_loop-Ends (suc (length (s.files.contents inode)))
            (RecordReader.new (s.files.contents inode) (length (s.files.contents inode))) out
            pending (tick_on (tick_on s)) (ticked-Working (ticked-Working w))
            (ticked-Filling (ticked-Filling f))
            (record {
              opened = opened;
              synced = record { whole = omega arith; fits = omega arith };
              at = At-start (s.files.contents inode);
            })
            (omega arith) room))
