-- ===== src/Bitcask/Open.antt =====
-- storage/bitcask.rs: `open` behind the lock. The directory holds files with the names of the store
-- alone, and no call of the system fails on it but those that find no file. `read_dir` gives the names
-- that were there before the first removal. The compaction thread is not started.
pub mod Fresh
pub mod Step
pub mod Clean
pub mod Handlers
pub mod Recover
mod Tests
use bitcask.Prelude.{ℕ, Option, none, some, Bool, true, false, List, [], ◌∷◌, ltb, if◌then◌else◌}
use bitcask.Prelude.Map.{Map}
use bitcask.Crc32.{Crc32}
use bitcask.Error.{Result, ok, err, ◌>>=◌}
use bitcask.Config.{Config}
use bitcask.Files.{Files, exists, open_append, open_read, remove_file}
use bitcask.Files.Names.{FileName, data_file}
use bitcask.Files.Text.{file_text, get_file_id, is_compact, hint_id}
use bitcask.Index
use bitcask.Bitcask.State.{WriterState, Shared, insert}
use bitcask.Bitcask.Write.{as_millis}
use bitcask.Bitcask.Loader.{Loader, replay}

-- The state of the loop over the directory.
pub record Scan : Type 0 where
  pub read_handlers : Map ℕ ℕ
  pub max_id : Option ℕ
  pub files : Files

abbrev pub remove_left : FileName → Scan → Result Scan
remove_left name sc = do files ← remove_file name sc.files; ok (record sc { files = files })

abbrev pub max_or : ℕ → Option ℕ → ℕ
max_or id none = id
max_or id (some m) = if ltb m id then id else m

-- A data file is opened.
abbrev pub scan_data : ℕ → FileName → Scan → Result Scan
scan_data id name sc = do
  inode ← open_read name sc.files
  ok (record sc {
    read_handlers = insert sc.read_handlers id inode;
    max_id = some (max_or id sc.max_id);
  })

-- A hint file goes if its data file is gone.
abbrev pub scan_hint : Option ℕ → FileName → Scan → Result Scan
scan_hint none name sc = ok sc
scan_hint (some id) name sc = if exists (data_file id) sc.files then ok sc else remove_left name sc

abbrev pub scan_other : FileName → Scan → Result Scan
scan_other name sc =
    if is_compact (file_text name)
    then remove_left name sc
    else scan_hint (hint_id (file_text name)) name sc

-- One entry of the directory.
unfoldable pub scan_entry : FileName → Scan → Result Scan
scan_entry name sc = elim (get_file_id (file_text name)) [
  | some id ↦ scan_data id name sc
  | none ↦ scan_other name sc
]

unfoldable pub scan : List (FileName × ℕ) → Scan → Result Scan
scan [] sc = ok sc
scan ((name, inode) ∷ entries) sc = do sc ← scan_entry name sc; scan entries sc

abbrev pub current_id : Option ℕ → ℕ
current_id none = 1
current_id (some m) = m

-- The loader behind the scan: the active file is opened, or made, for writing and for reading. `now`
-- is what the clock says.
unfoldable pub open_loader : Scan → ℕ → Result Loader
open_loader sc now =
    let id = current_id sc.max_id in
    let (file, files) = open_append (data_file id) sc.files in
    do
      r_file ← open_read (data_file id) files
      ok (record {
        readers = insert sc.read_handlers id r_file;
        index = Index.empty;
        writer = record {
          current_file_id = id;
          file = file;
          offset = 0;
          flushed_offset = 0;
          last_ts_flushed = as_millis now;
          stale_bytes_count = 0;
        };
        files = files;
      })

abbrev pub shared_of : Config → Loader → Shared
shared_of config l = record {
  index = l.index;
  readers = l.readers;
  writer = l.writer;
  config = config;
  files = l.files;
  compaction_signal = false;
  tick = 0;
}

module _ ⦃crc32 : Crc32⦄ where
  -- `replay`, and the store that it leaves.
  unfoldable pub open_replayed : Config → Result Loader → Option (Result Shared)
  open_replayed config (err e) = some (err e)
  open_replayed config (ok loader) = elim (replay loader) [
    | none ↦ none
    | some (err e, l) ↦ some (err e)
    | some (ok _, l) ↦ some (ok (shared_of config l))
  ]

  unfoldable pub open_bitcask : Config → ℕ → Files → Option (Result Shared)
  open_bitcask config now files = open_replayed config (do
    sc ← scan files.dir (record { read_handlers = []; max_id = none; files = files })
    open_loader sc now)
