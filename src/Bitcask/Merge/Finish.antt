-- ===== src/Bitcask/Merge/Finish.antt =====
-- `finish_output`: the output becomes a data file, and the keydir leads to it.
use bitcask.Prelude.{
  ℕ, suc, ◌+◌, ◌≤◌, ◌<◌, ◌≡◌, refl, Option, none, some, List, [], ◌∷◌, ◌==◌, arith, All, inl, inr,
  Bool-cases, ◌⊎◌,
}
use bitcask.Prelude.Bytes.{Bytes}
use bitcask.Prelude.Map
use bitcask.Prelude.Map.{id_key}
use bitcask.Crc32.{Crc32}
use bitcask.Error.{ok}
use bitcask.Exec.Ends.{Ends, went, Ends-bind, Ends-weaken}
use bitcask.Files.{Files, sync_all, rename}
use bitcask.Files.Names.{data_file, compact_file, file_name_key, name_eq}
use bitcask.Bitcask.State.{Shared, Env, insert, open_file}
use bitcask.Bitcask.Readers.{get-insert}
use bitcask.Bitcask.Invariant.{IsOpen}
use bitcask.Bitcask.Merge.{
  PendingUpdate, MergeOutput, apply_updates, sync_output, sync_inode, on_files, finish_output,
}
use bitcask.Bitcask.Merge.Steady.{
  Steady, Steady-trans, Steady-files, sync_inode-Ends, on_files-Ends, open_file-Ends,
}
use bitcask.Bitcask.Merge.Publish.{with_index, apply_updates-Answers}
use bitcask.Bitcask.Merge.Working.{Answers, missing, holds, Serves, Working, Copied, Filling}

module _ ⦃crc32 : Crc32⦄ (view : Bytes → Option Bytes) where
  module _ ⦃env : Env⦄ {low last_id next_free : ℕ} {out : MergeOutput}
      {pending : List PendingUpdate} {s : Shared} (w : Working view low last_id next_free s)
      (f : Filling view low out pending s) (from : next_free ≤ out.id)
      (below : out.id < s.writer.current_file_id) where
    abbrev synced : Files
    synced = sync_all out.hint_inode (sync_all out.data_inode s.files)

    abbrev renamed : Files
    renamed = record synced {
      dir =
          Map.insert (Map.remove s.files.dir (compact_file out.id)) (data_file out.id)
            out.data_inode;
    }

    synced-Steady : (tick : ℕ) → Steady low s (record s { files = synced; tick = tick })
    unfolding sync_all
    synced-Steady tick = Steady-files synced tick (λ i less. refl) (omega arith) (λ id above e. e)

    renamed-names :
        (id : ℕ)
        → s.writer.current_file_id < id
        → Map.get s.files.dir (data_file id) ≡ none
        → Map.get renamed.dir (data_file id) ≡ none
    unfolding name_eq
    renamed-names id above e = rw (Map.get-insert, Map.get-remove) (ground (arith, below))

    renamed-Steady : (tick : ℕ) → Steady low s (record s { files = renamed; tick = tick })
    unfolding sync_all
    renamed-Steady tick = Steady-files renamed tick (λ i less. refl) (omega arith) renamed-names

    -- The state behind `finish_output`.
    abbrev pub finished : ℕ → Shared
    finished tick = record s {
      files = renamed;
      readers = insert s.readers out.id out.data_inode;
      index = apply_updates pending s.index;
      tick = tick;
    }

    not_open : Map.get s.readers out.id ≡ none
    not_open = w.free out.id from below

    finished-opened : Map.get (insert s.readers out.id out.data_inode) out.id ≡ some out.data_inode
    finished-opened = rw get-insert (ground arith)

    -- What was open is open.
    pub kept_open :
        (id inode : ℕ)
        → Map.get s.readers id ≡ some inode
        → Map.get (insert s.readers out.id out.data_inode) id ≡ some inode
    kept_open id inode h = rw get-insert (ground (arith, not_open, h))

    readers-finished :
        (id inode : ℕ)
        → Map.get (insert s.readers out.id out.data_inode) id ≡ some inode
        → (Map.get s.readers id ≡ some inode) ⊎ ((id ≡ out.id) × (inode ≡ out.data_inode))
    readers-finished id inode h = elim (Bool-cases (out.id == id)) [
      | inl same ↦ inr (ground (arith, get-insert s.readers out.id id out.data_inode, h, same))
      | inr apart ↦ inl (ground (arith, get-insert s.readers out.id id out.data_inode, h, apart))
    ]

    finished-IsOpen : (tick : ℕ) → IsOpen (finished tick)
    unfolding sync_all
    finished-IsOpen tick = record {
      active = kept_open _ _ w.is_open.active;
      at_end = w.is_open.at_end;
      ids = λ id inode h. elim (readers-finished id inode h) [
        | inl old ↦ w.is_open.ids id inode old
        | inr (same, _) ↦ omega (arith, same, below)
      ];
      inodes = λ id inode h. elim (readers-finished id inode h) [
        | inl old ↦ w.is_open.inodes id inode old
        | inr (_, same) ↦ omega (arith, same, f.apart, f.made)
      ];
      names = λ id above. renamed-names id above (w.is_open.names id above);
    }

    -- Before the updates, the keydir leads where it did.
    finished-before :
        (tick : ℕ) (key : Bytes)
        → Answers s key (view key)
        → Answers (with_index view (finished tick) s.index) key (view key)
    unfolding sync_all
    finished-before tick key (missing e n) = missing e n
    finished-before tick key (holds e value found h n) =
        holds e value found
          (record {
            inode = h.inode;
            opened = kept_open _ _ h.opened;
            inside = h.inside;
            bytes = h.bytes;
            fits = h.fits;
            text = h.text;
          })
          n

    Copied-finished :
        (tick : ℕ) (ps : List PendingUpdate)
        → All (Copied view out s) ps
        → All (Copied view out (finished tick)) ps
    unfolding sync_all
    Copied-finished tick [] h = tt
    Copied-finished tick (p ∷ ps) h = (
      record {
        value = h.0.value;
        current = h.0.current;
        file = h.0.file;
        inside = h.0.inside;
        bytes = h.0.bytes;
        fits = h.0.fits;
        text = h.0.text;
      },
      Copied-finished tick ps h.1,
    )

    finished-Serves : (tick : ℕ) → Serves view s.files.next_inode (finished tick)
    unfolding sync_all
    finished-Serves tick = record {
      answers =
          apply_updates-Answers view (finished tick) out finished-opened pending s.index
            (Copied-finished tick pending f.copied)
            (λ key. finished-before tick key (w.serves.answers key));
      inodes = λ id inode h. elim (readers-finished id inode h) [
        | inl old ↦ w.is_open.inodes id inode old
        | inr (_, same) ↦ omega (arith, same, f.apart, f.made)
      ];
      room = omega arith;
    }

    -- The output is a data file, and the next one has another id.
    pub finished-Working :
        (tick : ℕ) → Working view s.files.next_inode last_id (out.id + 1) (finished tick)
    unfolding sync_all name_eq
    finished-Working tick = record {
      serves = finished-Serves tick;
      is_open = finished-IsOpen tick;
      free = λ id after less.
          rw get-insert (ground (arith, w.free id (omega (arith, after, from)) less));
      new_compact =
          λ id above. rw (Map.get-insert, Map.get-remove) (ground (arith, w.new_compact id above));
      new_hint =
          λ id above. rw (Map.get-insert, Map.get-remove) (ground (arith, w.new_hint id above));
    }

    after_sync-Ends :
        Ends
          (λ _ t. (tick : ℕ) × (t ≡ record s { files = synced; tick = tick }))
          (Steady low s)
          (sync_output out s)
    unfolding sync_output sync_all
    after_sync-Ends =
        Ends-bind (sync_inode out.data_inode) _ s (sync_inode-Ends out.data_inode s) λ a t at_t.
          rw at_t (
            Ends-weaken
              (sync_inode-Ends {low = low} out.hint_inode
                (record s { files = sync_all out.data_inode s.files; tick = suc s.tick }))
              (λ b u q. (suc (suc s.tick), q))
              (λ u k.
                Steady-trans
                  (Steady-files (sync_all out.data_inode s.files) (suc s.tick) (λ i less. refl)
                    (omega arith) (λ id above e. e))
                  k))

    rename-synced : rename (compact_file out.id) (data_file out.id) synced ≡ ok renamed
    unfolding rename sync_all
    rename-synced = rw (rename, f.place)

    renamed-place : Map.get renamed.dir (data_file out.id) ≡ some out.data_inode
    unfolding name_eq
    renamed-place = rw Map.get-insert (ground arith)

    pub finish_output-Ends :
        Ends (λ _ t. (tick : ℕ) × (t ≡ finished tick)) (Steady low s) (finish_output out pending s)
    unfolding finish_output
    finish_output-Ends = Ends-bind (sync_output out) _ s after_sync-Ends λ a t (tick, at_t).
        rw at_t (
          Ends-bind (on_files (rename (compact_file out.id) (data_file out.id))) _ _
            (Ends-weaken
              (on_files-Ends {low = low} (rename (compact_file out.id) (data_file out.id))
                (record s { files = synced; tick = tick }))
              (λ b u q. q) (λ u k. Steady-trans (synced-Steady tick) k))
            λ b u (files, e, at_u).
              let same : files ≡ renamed = cc (e, rename-synced) in
              rw (at_u, same)
                (Ends-bind (open_file (data_file out.id)) _ _
                  (Ends-weaken
                    (open_file-Ends {low = low} (data_file out.id)
                      (record s { files = renamed; tick = suc tick }))
                    (λ c v q. q) (λ v k. Steady-trans (renamed-Steady (suc tick)) k))
                  λ c v (there, at_v).
                    let inode : c ≡ out.data_inode = cc (there, renamed-place) in
                    rw (at_v, inode) (went tt _ (suc (suc tick), refl))))
