-- ===== src/Bitcask/Merge/Outputs.antt =====
-- Opening an output and copying a record to it.
use bitcask.Prelude.{ℕ, suc, ◌+◌, ◌<◌, ◌≡◌, refl, Option, none, [], arith}
use bitcask.Prelude.Bytes.{Bytes}
use bitcask.Prelude.Map
use bitcask.Prelude.Map.{id_key, get-insert}
use bitcask.Crc32.{Crc32}
use bitcask.Exec.Ends.{Ends, went, Ends-bind, Ends-weaken}
use bitcask.Files.Names.{compact_file, hint_file, file_name_key, name_eq}
use bitcask.Bitcask.State.{Shared, Env, create_file}
use bitcask.Bitcask.Merge.{MergeOutput, open_output}
use bitcask.Bitcask.Merge.Steady.{Steady, Steady-trans, Steady-created, created, create_file-Ends}
use bitcask.Bitcask.Merge.Working.{Steady-Serves, Steady-IsOpen, Working, Filling}

module _ ⦃crc32 : Crc32⦄ (view : Bytes → Option Bytes) (low : ℕ) where
  pub Steady-Working :
      {last_id next_free : ℕ} {s t : Shared} (last_id' : ℕ)
      → Steady low s t
      → Working view low last_id next_free s
      → ((id : ℕ) → last_id' < id → Map.get t.files.dir (compact_file id) ≡ none)
      → ((id : ℕ) → last_id' < id → Map.get t.files.dir (hint_file id) ≡ none)
      → Working view low last_id' next_free t
  Steady-Working last_id' k w c h = record {
    serves = Steady-Serves k w.serves;
    is_open = Steady-IsOpen w.serves.inodes k w.is_open;
    free = λ id from less. rw k.readers (w.free id from (rw k.writer at less));
    new_compact = c;
    new_hint = h;
  }

  -- The state in which an output is open.
  pub record Opened (id next_free : ℕ) (s : Shared) (out : MergeOutput) (t : Shared) : Type 0 where
    pub steady : Steady low s t
    pub same_id : out.id ≡ id
    pub empty : out.written ≡ 0
    pub working : Working view low id next_free t
    pub filling : Filling view low out [] t

  module _ ⦃env : Env⦄ {last_id next_free : ℕ} (id : ℕ) {s : Shared}
      (w : Working view low last_id next_free s) (above : last_id < id) where
    abbrev both : Shared
    both = record s {
      files = created (hint_file id) (created (compact_file id) s.files);
      tick = suc (suc s.tick);
    }

    both-Steady : Steady low s both
    unfolding name_eq
    both-Steady =
        Steady-trans (Steady-created (compact_file id) s (suc s.tick) w.serves.room (λ i. refl)) (
          Steady-created (hint_file id) _ (suc (suc s.tick)) (omega (arith, w.serves.room))
            (λ i. refl))

    new_output : MergeOutput
    new_output = record {
      id = id;
      data_inode = s.files.next_inode;
      hint_inode = s.files.next_inode + 1;
      written = 0;
    }

    both-Opened : Opened id next_free s new_output both
    unfolding name_eq new_output
    both-Opened = record {
      steady = both-Steady;
      same_id = refl;
      empty = refl;
      working =
          Steady-Working id both-Steady w
            (λ i less. rw (get-insert, get-insert) (ground (arith, w.new_compact i)))
            (λ i less. rw (get-insert, get-insert) (ground (arith, w.new_hint i)));
      filling = record {
        place = rw (get-insert, get-insert) (ground arith);
        above = w.serves.room;
        apart = omega arith;
        made = omega arith;
        at_end = ground arith;
        copied = tt;
      };
    }

    pub open_output-Ends : Ends (Opened id next_free s) (Steady low s) (open_output id s)
    unfolding open_output name_eq new_output
    open_output-Ends =
        Ends-bind (create_file (compact_file id)) _ s
          (create_file-Ends (compact_file id) s (w.new_compact id above))
          λ a t (at_a, at_t).
            rw (at_a, at_t)
              (Ends-bind (create_file (hint_file id)) _ _
                (Ends-weaken
                  (create_file-Ends (hint_file id)
                    (record s { files = created (compact_file id) s.files; tick = suc s.tick })
                    (rw get-insert (w.new_hint id above)))
                  (λ b u q. q)
                  (λ u k.
                    Steady-trans
                      (Steady-created (compact_file id) s (suc s.tick) w.serves.room (λ i. refl))
                      k))
                λ b u (at_b, at_u). rw (at_b, at_u) (went _ _ both-Opened))
