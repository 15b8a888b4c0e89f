-- ===== src/Bitcask/Loader.antt =====
-- storage/bitcask.rs: `Loader::replay`, which rebuilds the keydir from the files at `open`. Nothing
-- else has the files yet; the errors of a failing disk are not modelled. A loop is given fuel, and
-- `none` says that it was still going round when the fuel was gone.
pub mod Replay
pub mod Keydir
pub mod Among
pub mod Recovery
pub mod Crash
pub mod Valid
pub mod Hints
pub mod Total
mod Tests
use bitcask.Prelude.{
  ℕ, zero, suc, ◌+◌, ◌&&◌, not, Option, none, some, Bool, true, false, [], ◌∷◌, ◌==◌, if◌then◌else◌,
  length,
}
use bitcask.Prelude.Bytes.{Bytes}
use bitcask.Prelude.Map
use bitcask.Prelude.Map.{Map}
use bitcask.Crc32.{Crc32}
use bitcask.Error.{Result, ok, err, io, not_found, corruption}
use bitcask.Files.{Files, exists, open_read, remove_file, set_len}
use bitcask.Files.Names.{hint_file, file_name_key}
use bitcask.Command.{Command, deserialize}
use bitcask.IndexValue
use bitcask.IndexValue.{IndexValue}
use bitcask.Index.{Index, put, delete}
use bitcask.RecordReader.{RecordReader, full_record, clean_eof, torn_tail, next_record}
use bitcask.RecordReader
use bitcask.Bitcask.State.{WriterState}
use bitcask.Bitcask.Write.{add_u64}

pub record Loader : Type 0 where
  pub readers : Map ℕ ℕ
  pub index : Index
  pub writer : WriterState
  pub files : Files

-- What a loop returns.
abbrev pub Run {ℓ} : Type ℓ → Type ℓ
Run A = Option (Result A × Loader)

-- One command of a data file: the entry of a set is put, a rm deletes it and its own record is stale.
unfoldable pub replay_command : ℕ → ℕ → ℕ → Command → Loader → Loader
replay_command file_id position len (Command.set ts key value) l =
    let e : IndexValue = record { file_id = file_id; ts = ts; offset = position; len = len } in
    record l {
      index = put l.index key e;
      writer = record l.writer { offset = add_u64 l.writer.offset len };
    }
replay_command file_id position len (Command.rm ts key) l = record l {
  index = delete l.index key;
  writer = record l.writer {
    stale_bytes_count = add_u64 l.writer.stale_bytes_count len;
    offset = add_u64 l.writer.offset len;
  };
}

-- The torn tail of the active file is cut off and ends the replay; any other is an error.
unfoldable pub torn_data : ℕ → ℕ → Loader → Result Bool × Loader
torn_data file_id position l =
    if file_id == l.writer.current_file_id
    then (
      ok true,
      record l {
        files = set_len l.writer.file position l.files;
        writer = record l.writer { offset = position };
      },
    )
    else (err corruption, l)

-- The entry of a hint record.
abbrev pub replay_hint : Bytes → IndexValue → Loader → Loader
replay_hint key e l = record l { index = put l.index key e }

module _ ⦃crc32 : Crc32⦄ where
  -- The loop over a hint file: whether it went to the end.
  unfoldable pub hint_loop : ℕ → RecordReader → ℕ → Loader → Option (Bool × Loader)
  hint_loop zero r file_id l = none
  hint_loop (suc fuel) r file_id l =
      let (read, next) = next_record r in
      elim read [
        | full_record position bytes ↦ elim (IndexValue.deserialize bytes file_id) [
          | ok (key, e, _) ↦ hint_loop fuel next file_id (replay_hint key e l)
          | err x ↦ some (false, l)
        ]
        | clean_eof ↦ some (true, l)
        | torn_tail position ↦ some (false, l)
      ]

  -- The loop over a data file: whether the whole replay returns there.
  unfoldable pub data_loop : ℕ → RecordReader → ℕ → Loader → Run Bool
  data_loop zero r file_id l = none
  data_loop (suc fuel) r file_id l =
      let (read, next) = next_record r in
      elim read [
        | full_record position bytes ↦ elim (deserialize bytes) [
          | ok (c, _) ↦
              data_loop fuel next file_id (replay_command file_id position (length bytes) c l)
          | err x ↦ some (err x, l)
        ]
        | clean_eof ↦ some (ok false, l)
        | torn_tail position ↦ some (torn_data file_id position l)
      ]

  -- The data file of one id, from its start.
  unfoldable pub replay_data : ℕ → ℕ → Loader → Run Bool
  replay_data file_id inode l =
      let bytes = l.files.contents inode in
      data_loop (suc (length bytes)) (RecordReader.new bytes (length bytes)) file_id
        (record l { writer = record l.writer { offset = 0 } })

  -- Behind the loop over the hint file.
  unfoldable pub after_hint : ℕ → ℕ → Bool × Loader → Run Bool
  after_hint file_id inode (true, l) = some (ok false, l)
  after_hint file_id inode (false, l) = elim (remove_file (hint_file file_id) l.files) [
    | err x ↦ some (err x, l)
    | ok files ↦ replay_data file_id inode (record l { files = files })
  ]

  unfoldable pub replay_hint_file : ℕ → ℕ → Loader → Run Bool
  replay_hint_file file_id inode l = elim (open_read (hint_file file_id) l.files) [
    | err x ↦ some (err x, l)
    | ok hint ↦
        let bytes = l.files.contents hint in
        elim (hint_loop (suc (length bytes)) (RecordReader.new bytes (length bytes)) file_id l) [
          | none ↦ none
          | some r ↦ after_hint file_id inode r
        ]
  ]

  -- One turn of the loop over the files.
  unfoldable pub replay_file : ℕ → ℕ → Loader → Run Bool
  replay_file file_id inode l =
      if not (file_id == l.writer.current_file_id) && exists (hint_file file_id) l.files
      then replay_hint_file file_id inode l
      else replay_data file_id inode l

  unfoldable pub replay_files : Map ℕ ℕ → Loader → Run (Unit {0})
  replay_files [] l = some (ok tt, l)
  replay_files ((file_id, inode) ∷ readers) l = elim (replay_file file_id inode l) [
    | none ↦ none
    | some (ok true, l) ↦ some (ok tt, l)
    | some (ok false, l) ↦ replay_files readers l
    | some (err x, l) ↦ some (err x, l)
  ]

  unfoldable pub replay : Loader → Run (Unit {0})
  replay l = replay_files l.readers l
