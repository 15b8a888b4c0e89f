-- ===== src/Bitcask/Write.antt =====
-- storage/bitcask.rs: `append` and what follows a write, `set`, `remove`.
use bitcask.Prelude.{
  List, [], ◌∷◌, ℕ, ◌+◌, ◌/◌, ◌%◌, ◌^◌, Option, none, some, true, ltb, leb, if◌then◌else◌, length,
}
use bitcask.Prelude.Bytes.{Bytes}
use bitcask.Crc32.{Crc32}
use bitcask.Error.{ok, err, key_not_found}
use bitcask.Exec.{Exec, ◌>>=◌, ◌>>◌, pure, gets, modify}
use bitcask.Files.Names.{data_file}
use bitcask.Config.{DurabilityPolicy, sync_on_every_put, sync_on_interval, os_decides}
use bitcask.Command.{Command, serialize}
use bitcask.IndexValue.{IndexValue}
use bitcask.Index.{lookup, put, delete}
use bitcask.RecordReader.{sub_u64}
use bitcask.Bitcask.State.{
  Shared, WriterState, Env, insert, unix_now, write_all, sync_file, create_file, open_file,
}

-- u64 addition, as a build without overflow checks computes it.
abbrev pub add_u64 : ℕ → ℕ → ℕ
add_u64 a b = (a + b) % 2 ^ 64

-- `Duration::as_millis() as u64` and `Duration::as_secs()`, of a time in milliseconds.
abbrev pub as_millis : ℕ → ℕ
as_millis now = now % 2 ^ 64

abbrev pub as_secs : ℕ → ℕ
as_secs now = now / 1000 % 2 ^ 64

abbrev pub writer_update : (WriterState → WriterState) → Shared → Shared
writer_update f s = record s { writer = f s.writer }

abbrev pub add_stale : ℕ → Shared → Shared
add_stale n = writer_update λ w. record w { stale_bytes_count = add_u64 w.stale_bytes_count n }

-- The entry that a key had becomes stale.
abbrev pub replaced : Option IndexValue → Shared → Shared
replaced none s = s
replaced (some old) s = add_stale old.len s

-- The index after the record of `len` bytes was written at `offset`.
unfoldable pub publish : Command → ℕ → ℕ → Shared → Shared
publish (Command.set ts key value) offset len s =
    let e : IndexValue = record {
      file_id = s.writer.current_file_id;
      ts = ts;
      offset = offset;
      len = len;
    } in
    replaced (lookup s.index key) (record s { index = put s.index key e })
publish (Command.rm ts key) offset len s =
    replaced (lookup s.index key) (record s { index = delete s.index key })

-- Actions one after the other, and a last one; an error ends them.
abbrev pub in_turn : List (Exec Shared (Unit {0})) → Exec Shared (Unit {0}) → Exec Shared (Unit {0})
in_turn [] last = last
in_turn (action ∷ actions) last = action >> in_turn actions last

module _ ⦃env : Env⦄ where
  unfoldable pub sync : Exec Shared (Unit {0})
  sync = do sync_file; modify (writer_update λ w. record w { flushed_offset = w.offset })

  unfoldable pub rotate_to : ℕ → Exec Shared (Unit {0})
  rotate_to next_file_id = do
    sync
    next_file_writer ← create_file (data_file next_file_id)
    modify (
        writer_update λ w. record w {
          file = next_file_writer;
          current_file_id = next_file_id;
          flushed_offset = 0;
          offset = 0;
        })
    now ← unix_now
    modify (writer_update λ w. record w { last_ts_flushed = as_millis now })
    next_file_reader ← open_file (data_file next_file_id)
    modify (λ s. record s { readers = insert s.readers next_file_id next_file_reader })

  unfoldable pub rotate_if_full : Exec Shared (Unit {0})
  rotate_if_full s =
      if ltb s.writer.offset s.config.file_size_threshold
      then (ok tt, s)
      else rotate_to (add_u64 s.writer.current_file_id 1) s

  unfoldable pub sync_if_due : ℕ → Exec Shared (Unit {0})
  sync_if_due now s =
      if leb s.config.flush_threshold_millis (sub_u64 now s.writer.last_ts_flushed)
      then (do sync; modify (writer_update λ w. record w { last_ts_flushed = now })) s
      else (ok tt, s)

  unfoldable pub sync_by : DurabilityPolicy → Exec Shared (Unit {0})
  sync_by sync_on_every_put = sync
  sync_by sync_on_interval = do now ← unix_now; sync_if_due (as_millis now)
  sync_by os_decides = pure tt

  unfoldable pub handle_policy : Exec Shared (Unit {0})
  handle_policy s = sync_by s.config.durability_policy s

  -- A send to a full channel is dropped.
  unfoldable pub compaction_trigger : Exec Shared (Unit {0})
  compaction_trigger s = (
    ok tt,
    if leb s.config.compaction_threshold s.writer.stale_bytes_count
        then record s { compaction_signal = true }
        else s,
  )

  abbrev pub before_rotation : List (Exec Shared (Unit {0}))
  before_rotation = compaction_trigger ∷ handle_policy ∷ []

  unfoldable pub post_write_ops : Exec Shared (Unit {0})
  post_write_ops = in_turn before_rotation rotate_if_full

  module _ ⦃crc32 : Crc32⦄ where
    -- What `append` does before `post_write_ops`, with the offset that it begins at.
    abbrev pub write_actions : Command → ℕ → List (Exec Shared (Unit {0}))
    write_actions command offset =
        let serialized_command = serialize command in
        write_all serialized_command
        ∷ modify (publish command offset (length serialized_command))
        ∷ modify
            (writer_update λ w. record w { offset = add_u64 w.offset (length serialized_command) })
        ∷ []

    unfoldable pub append : Command → Exec Shared (Unit {0})
    append command = do
      offset ← gets (λ s. s.writer.offset)
      in_turn (write_actions command offset) post_write_ops

    unfoldable pub set : Bytes → Bytes → Exec Shared (Unit {0})
    set key value = do now ← unix_now; append (Command.set (as_secs now) key value)

    unfoldable pub remove : Bytes → Exec Shared (Unit {0})
    remove key s = elim (lookup s.index key) [
      | none ↦ (err key_not_found, s)
      | some e ↦ (do now ← unix_now; append (Command.rm (as_secs now) key)) s
    ]
