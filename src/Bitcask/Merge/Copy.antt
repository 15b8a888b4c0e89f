-- ===== src/Bitcask/Merge/Copy.antt =====
-- Copying a record to an output.
use bitcask.Prelude.{
  ℕ, suc, ◌+◌, ◌%◌, ◌^◌, ◌<◌, ◌≡◌, refl, sym, ap, Option, List, [], ◌∷◌, ◌++◌, arith, All,
  All-append, length, length-append,
}
use bitcask.Prelude.Bytes.{Bytes}
use bitcask.Crc32.{Crc32}
use bitcask.Exec.Ends.{Ends, went, Ends-bind, Ends-weaken}
use bitcask.Files.{write}
use bitcask.Files.Names.{file_name_key}
use bitcask.IndexValue
use bitcask.IndexValue.{IndexValue}
use bitcask.Bitcask.State.{Shared, Env}
use bitcask.Bitcask.Appended.{slice-append}
use bitcask.Bitcask.Merge.{PendingUpdate, MergeOutput, append_output, write_to}
use bitcask.Bitcask.Merge.Steady.{Steady, Steady-trans, Steady-write, write_to-Ends}
use bitcask.Bitcask.Merge.Working.{Working, Copied, Filling}
use bitcask.Bitcask.Merge.Outputs.{Steady-Working}

-- The entry of a record that is written next.
abbrev pub next_entry : MergeOutput → ℕ → ℕ → IndexValue
next_entry out ts len = record { file_id = out.id; ts = ts; offset = out.written; len = len }

abbrev pub advanced : MergeOutput → ℕ → MergeOutput
advanced out len = record out { written = out.written + len }

module _ ⦃crc32 : Crc32⦄ (view : Bytes → Option Bytes) (low : ℕ) where
  -- The state behind the record's two writes.
  pub record Grown (s : Shared) (out : MergeOutput) (bytes : Bytes) (t : Shared) : Type 0 where
    pub steady : Steady low s t
    pub dir : t.files.dir ≡ s.files.dir
    pub next_inode : t.files.next_inode ≡ s.files.next_inode
    pub grown : t.files.contents out.data_inode ≡ s.files.contents out.data_inode ++ bytes

  module _ ⦃env : Env⦄ {s : Shared} {out : MergeOutput} {pending : List PendingUpdate}
      (f : Filling view low out pending s) (bytes key : Bytes) (ts : ℕ)
      (fits : out.written + length bytes < 2 ^ 64) where
    abbrev hinted : Bytes
    hinted = IndexValue.serialize (next_entry out ts (length bytes)) key

    abbrev after_data : Shared
    after_data = record s { files = write out.data_inode bytes s.files; tick = suc s.tick }

    abbrev after_both : Shared
    after_both = record s {
      files = write out.hint_inode hinted (write out.data_inode bytes s.files);
      tick = suc (suc s.tick);
    }

    data-Steady : Steady low s after_data
    data-Steady = Steady-write s out.data_inode (suc s.tick) bytes f.above

    both-Steady : Steady low s after_both
    both-Steady = Steady-trans data-Steady (
        Steady-write after_data out.hint_inode (suc (suc s.tick)) hinted
          (omega (arith, f.above, f.apart)))

    both-Grown : Grown s out bytes after_both
    unfolding write
    both-Grown = record {
      steady = both-Steady;
      dir = refl;
      next_inode = refl;
      grown = ground (arith, f.apart);
    }

    pub append_output-Ends :
        Ends
          (λ r t.
            (r.0 ≡ next_entry out ts (length bytes))
            × (r.1 ≡ advanced out (length bytes))
            × Grown s out bytes t)
          (Steady low s)
          (append_output out bytes key ts s)
    unfolding append_output
    append_output-Ends =
        Ends-bind (write_to out.data_inode bytes) _ s (write_to-Ends out.data_inode bytes s f.above)
          λ a t at_t. rw at_t (
            Ends-bind (write_to out.hint_inode hinted) _ after_data
              (Ends-weaken
                (write_to-Ends out.hint_inode hinted after_data (omega (arith, f.above, f.apart)))
                (λ b u q. q) (λ u k. Steady-trans data-Steady k))
              λ b u at_u. rw at_u (
                let e : advanced out (length bytes)
                    ≡ record out { written = (out.written + length bytes) % 2 ^ 64 } =
                  let n : out.written + length bytes ≡ (out.written + length bytes) % 2 ^ 64 =
                    omega arith in
                  ap (λ w. record out { written = w }) n in
                went _ _ (refl, sym e, both-Grown)))

  module _ {s t : Shared} {out : MergeOutput} {bytes : Bytes} (g : Grown s out bytes t) where
    pub Grown-Working :
        {last_id next_free : ℕ}
        → Working view low last_id next_free s
        → Working view low last_id next_free t
    Grown-Working {last_id} w =
        Steady-Working view low last_id g.steady w (rw g.dir w.new_compact) (rw g.dir w.new_hint)

    Copied-Grown :
        (p : PendingUpdate) → Copied view out s p → Copied view (advanced out (length bytes)) t p
    Copied-Grown p c = record {
      value = c.value;
      current = c.current;
      file = c.file;
      inside =
          rw g.grown
            (omega (arith, c.inside, length-append (s.files.contents out.data_inode) bytes));
      bytes =
          rw
            (
              g.grown,
              slice-append (s.files.contents out.data_inode) bytes p.new.offset p.new.len c.inside,
            )
            c.bytes;
      fits = c.fits;
      text = c.text;
    }

    Copied-All :
        (ps : List PendingUpdate)
        → All (Copied view out s) ps
        → All (Copied view (advanced out (length bytes)) t) ps
    Copied-All [] h = tt
    Copied-All (p ∷ ps) h = (Copied-Grown p h.0, Copied-All ps h.1)

    pub Grown-Filling :
        {pending : List PendingUpdate}
        → Filling view low out pending s
        → (p : PendingUpdate) → Copied view (advanced out (length bytes)) t p
        → Filling view low (advanced out (length bytes)) (pending ++ (p ∷ [])) t
    Grown-Filling {pending} f p c = record {
      place = rw g.dir f.place;
      above = f.above;
      apart = f.apart;
      made = rw g.next_inode f.made;
      at_end =
          rw g.grown
            (omega (arith, f.at_end, length-append (s.files.contents out.data_inode) bytes));
      copied =
          All-append (Copied view (advanced out (length bytes)) t) pending (p ∷ [])
            (Copied-All pending f.copied) (c, tt);
    }
