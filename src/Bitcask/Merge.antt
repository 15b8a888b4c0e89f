-- ===== src/Bitcask/Merge.antt =====
-- storage/bitcask.rs: `run_compaction`, `finish_output` and MergeOutput, as one thread runs them with
-- no other in between. Bytes given to a BufWriter reach the file at once. A read that fails does so
-- before the next record of its file. A loop over a file is on fuel, and `none` says that it was still going round at its end.
-- A file_size_threshold of 0, on which the source panics, divides to 0 here.
pub mod Updates
pub mod Steady
pub mod Working
pub mod Outputs
pub mod Copy
pub mod Records
pub mod Loop
pub mod Publish
pub mod Finish
pub mod Budget
pub mod Walk
pub mod Start
pub mod Ready
pub mod Preserves
pub mod Tests
use bitcask.Prelude.{
  ℕ, zero, suc, ◌+◌, ◌/◌, ◌&&◌, Option, none, some, Bool, true, false, List, [], ◌∷◌, ◌++◌, ltb,
  leb, ◌==◌, if◌then◌else◌, length, take,
}
use bitcask.Prelude.Bytes.{Bytes}
use bitcask.Prelude.Map.{Map}
use bitcask.Crc32.{Crc32}
use bitcask.Error.{Result, ok, err, corruption}
use bitcask.Exec.{Exec, ◌>>=◌, ◌>>◌, pure, raise, lift, gets, modify, when}
use bitcask.Files.{Files, exists, write, sync_all, remove_file, rename}
use bitcask.Files.Names.{FileName, data_file, compact_file, hint_file}
use bitcask.Command.{Command, deserialize}
use bitcask.IndexValue.{IndexValue}
use bitcask.IndexValue
use bitcask.Index.{Index, lookup, put}
use bitcask.RecordReader.{RecordReader, full_record, clean_eof, torn_tail, next_record, sub_u64}
use bitcask.RecordReader
use bitcask.Bitcask.State.{Shared, Env, attempt, tick_on, call, insert, create_file, open_file}
use bitcask.Bitcask.Write.{add_u64, writer_update, rotate_to}

pub record PendingUpdate : Type 0 where
  pub key : Bytes
  pub previous_value : IndexValue
  pub new : IndexValue

pub record MergeOutput : Type 0 where
  pub id : ℕ
  pub data_inode : ℕ
  pub hint_inode : ℕ
  pub written : ℕ

abbrev pub is_full : ℕ → MergeOutput → Bool
is_full threshold out = leb threshold out.written

-- Whether the keydir has a key at this place.
abbrev pub sits_at : ℕ → ℕ → Option IndexValue → Bool
sits_at file_id offset none = false
sits_at file_id offset (some e) = e.file_id == file_id && e.offset == offset

-- The files without the active one.
unfoldable pub sealed_readers : ℕ → Map ℕ ℕ → Map ℕ ℕ
sealed_readers current [] = []
sealed_readers current ((id, inode) ∷ m) =
    let rest = sealed_readers current m in if id == current then rest else (id, inode) ∷ rest

-- The sum of the lengths; a file whose metadata cannot be had counts 0.
unfoldable pub total_bytes : (ℕ → Bool) → Map ℕ ℕ → Files → ℕ
total_bytes unmeasured [] files = 0
total_bytes unmeasured ((id, inode) ∷ m) files =
    add_u64 (if unmeasured inode then 0 else length (files.contents inode))
      (total_bytes unmeasured m files)

-- One pending update of `finish_output`: an entry that was overwritten meanwhile stays.
unfoldable pub apply_update : PendingUpdate → Index → Index
apply_update p index =
    if sits_at p.previous_value.file_id p.previous_value.offset (lookup index p.key)
    then put index p.key p.new
    else index

unfoldable pub apply_updates : List PendingUpdate → Index → Index
unfolding apply_update
apply_updates [] index = index
apply_updates (p ∷ pending) index = apply_updates pending (apply_update p index)

module _ ⦃env : Env⦄ where
  pub write_to : ℕ → Bytes → Exec Shared (Unit {0})
  write_to inode bytes =
      attempt (λ s. (ok tt, record s { files = write inode bytes s.files }))
        (λ k s. record s { files = write inode (take k bytes) s.files })

  pub sync_inode : ℕ → Exec Shared (Unit {0})
  sync_inode inode = attempt (λ s. (ok tt, record s { files = sync_all inode s.files })) (λ k s. s)

  -- A call that changes the directory.
  pub on_files : (Files → Result Files) → Exec Shared (Unit {0})
  on_files change =
      attempt
        (λ s. elim (change s.files) [
          | ok files ↦ (ok tt, record s { files = files })
          | err x ↦ (err x, s)
        ])
        (λ k s. s)

  -- `Path::exists`: a look that fails says no.
  unfoldable pub seen : FileName → Exec Shared Bool
  seen name s = elim (env.fault s.tick) [
    | none ↦ (ok (exists name s.files), tick_on s)
    | some k ↦ (ok false, tick_on s)
  ]

  unfoldable pub open_output : ℕ → Exec Shared MergeOutput
  open_output id = do
    data_inode ← create_file (compact_file id)
    hint_inode ← create_file (hint_file id)
    pure (record { id = id; data_inode = data_inode; hint_inode = hint_inode; written = 0 })

  unfoldable pub sync_output : MergeOutput → Exec Shared (Unit {0})
  unfolding sync_inode
  sync_output out = do sync_inode out.data_inode; sync_inode out.hint_inode

  unfoldable pub finish_output : MergeOutput → List PendingUpdate → Exec Shared (Unit {0})
  unfolding sync_output on_files
  finish_output out pending = do
    sync_output out
    on_files (rename (compact_file out.id) (data_file out.id))
    compacted_file ← open_file (data_file out.id)
    modify (λ s. record s { readers = insert s.readers out.id compacted_file })
    modify (λ s. record s { index = apply_updates pending s.index })

  -- The part of `run_compaction` under the writer's lock: the sealed files, the stale bytes and the
  -- id below the outputs, if there is something to do.
  unfoldable pub start_compaction : Exec Shared (Option (Map ℕ ℕ × ℕ × ℕ))
  unfolding sealed_readers total_bytes
  start_compaction s =
      let snapshot = sealed_readers s.writer.current_file_id s.readers in
      let reserve =
        add_u64
          (total_bytes (env.unmeasured s.tick) snapshot s.files / s.config.file_size_threshold) 2 in
      let next_active = add_u64 (add_u64 s.writer.current_file_id reserve) 1 in
      if ltb s.writer.stale_bytes_count s.config.compaction_threshold
      then (ok none, s)
      else elim snapshot [
        | [] ↦ (ok none, s)
        | (f ∷ fs) ↦
            (do
              rotate_to next_active
              pure (some (f ∷ fs, s.writer.stale_bytes_count, s.writer.current_file_id)))
              s
      ]

  unfoldable pub remove_compacted : Map ℕ ℕ → Exec Shared (Unit {0})
  unfolding on_files seen
  remove_compacted [] = pure tt
  remove_compacted ((id, inode) ∷ snapshot) = do
    on_files (remove_file (data_file id))
    has_hint ← seen (hint_file id)
    when has_hint (on_files (remove_file (hint_file id)))
    remove_compacted snapshot

  -- The output that is being written, or the next one.
  unfoldable pub ensure_output : Option MergeOutput → ℕ → Exec Shared (MergeOutput × ℕ)
  unfolding open_output
  ensure_output (some out) next_id = pure (out, next_id)
  ensure_output none next_id = do
    out ← open_output (add_u64 next_id 1)
    pure (out, add_u64 next_id 1)

  unfoldable pub finish_if_full :
      MergeOutput → List PendingUpdate → Exec Shared (Option MergeOutput × List PendingUpdate)
  unfolding finish_output
  finish_if_full out pending s =
      if is_full s.config.file_size_threshold out
      then (do finish_output out pending; pure (none, [])) s
      else (ok (some out, pending), s)

  unfoldable pub finish_last : Option MergeOutput → List PendingUpdate → Exec Shared (Unit {0})
  unfolding finish_output
  finish_last none pending = pure tt
  finish_last (some out) pending = finish_output out pending

  module _ ⦃crc32 : Crc32⦄ where
    unfoldable pub append_output :
        MergeOutput → Bytes → Bytes → ℕ → Exec Shared (IndexValue × MergeOutput)
    unfolding write_to
    append_output out bytes key ts = do
      write_to out.data_inode bytes
      let e : IndexValue = record {
        file_id = out.id;
        ts = ts;
        offset = out.written;
        len = length bytes;
      }
      write_to out.hint_inode (IndexValue.serialize e key)
      pure (e, record out { written = add_u64 out.written (length bytes) })

    -- One record: a set that its key's entry points at is copied.
    unfoldable pub merge_command :
        ℕ
        → ℕ
        → Bytes
        → Command
        → MergeOutput
        → List PendingUpdate
        → Exec Shared (MergeOutput × List PendingUpdate)
    unfolding append_output
    merge_command file_id position bytes (Command.rm ts key) out pending s = (ok (out, pending), s)
    merge_command file_id position bytes (Command.set ts key value) out pending s =
        let previous : IndexValue = record {
          file_id = file_id;
          ts = ts;
          offset = position;
          len = length bytes;
        } in
        if sits_at file_id position (lookup s.index key)
        then (do
          (e, out) ← append_output out bytes key ts
          pure (out, pending ++ (record { key = key; previous_value = previous; new = e } ∷ [])))
            s
        else (ok (out, pending), s)

    unfoldable pub merge_loop :
        ℕ
        → RecordReader
        → ℕ
        → MergeOutput
        → List PendingUpdate
        → Exec Shared (Option (MergeOutput × List PendingUpdate))
    unfolding merge_command call
    merge_loop zero r file_id out pending = pure none
    merge_loop (suc fuel) r file_id out pending =
        let (read, next) = next_record r in
        call >> elim read [
          | full_record position bytes ↦ do
            (c, _) ← lift (deserialize bytes)
            (out, pending) ← merge_command file_id position bytes c out pending
            merge_loop fuel next file_id out pending
          | clean_eof ↦ pure (some (out, pending))
          | torn_tail position ↦ raise corruption
        ]

    -- One sealed file: a seek, its length, and the loop.
    unfoldable pub merge_file :
        ℕ
        → ℕ
        → MergeOutput
        → List PendingUpdate
        → Exec Shared (Option (MergeOutput × List PendingUpdate))
    unfolding merge_loop call
    merge_file file_id inode out pending s =
        let bytes = s.files.contents inode in
        (do
          call
          call
          merge_loop (suc (length bytes)) (RecordReader.new bytes (length bytes)) file_id out
              pending)
          s

    -- The loop over the sealed files.
    unfoldable pub merge_files :
        Map ℕ ℕ → Option MergeOutput → ℕ → List PendingUpdate → Exec Shared (Option (Unit {0}))
    unfolding merge_file finish_if_full finish_last ensure_output
    merge_files [] output next_id pending = do finish_last output pending; pure (some tt)
    merge_files ((file_id, inode) ∷ snapshot) output next_id pending = do
      (out, next_id) ← ensure_output output next_id
      merged ← merge_file file_id inode out pending
      elim merged [
        | none ↦ pure none
        | some (out, pending) ↦ do
          (output, pending) ← finish_if_full out pending
          merge_files snapshot output next_id pending
      ]

    unfoldable pub run_compaction : Exec Shared (Option (Unit {0}))
    unfolding merge_files start_compaction remove_compacted
    run_compaction = do
      started ← start_compaction
      elim started [
        | none ↦ pure (some tt)
        | some (snapshot, stale, prev_file_id) ↦ do
          merged ← merge_files snapshot none prev_file_id []
          elim merged [
            | none ↦ pure none
            | some _ ↦ do
              remove_compacted snapshot
              modify (
                  writer_update
                    λ w. record w { stale_bytes_count = sub_u64 w.stale_bytes_count stale })
              pure (some tt)
          ]
      ]
