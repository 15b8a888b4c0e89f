-- ===== src/Bitcask/Invariant.antt =====
-- The invariant of the writer's state: the active file is open and the writer's offset is its length,
-- ids and inodes are fresh above the active ones, and every entry of the keydir points at the bytes
-- of a record that sets its key.
use bitcask.Prelude.{ℕ, ◌+◌, ◌≤◌, ◌<◌, ◌≡◌, none, some, true, length}
use bitcask.Prelude.Bytes.{Bytes}
use bitcask.Prelude.Map
use bitcask.Prelude.Map.{id_key}
use bitcask.Crc32.{Crc32}
use bitcask.BytesUtil.{slice}
use bitcask.Files.Names.{data_file, file_name_key}
use bitcask.Utf8.{is_utf8}
use bitcask.Command.{Command, serialize}
use bitcask.Command.RoundTrip.{Fits}
use bitcask.IndexValue.{IndexValue}
use bitcask.Index.{lookup}
use bitcask.Bitcask.State.{Shared}

-- The active file, and what is fresh.
pub record IsOpen (s : Shared) : Type 0 where
  pub active : Map.get s.readers s.writer.current_file_id ≡ some s.writer.file
  pub at_end : s.writer.offset ≡ length (s.files.contents s.writer.file)
  pub ids : (id inode : ℕ) → Map.get s.readers id ≡ some inode → id ≤ s.writer.current_file_id
  pub inodes : (id inode : ℕ) → Map.get s.readers id ≡ some inode → inode < s.files.next_inode
  pub names : (id : ℕ) → s.writer.current_file_id < id → Map.get s.files.dir (data_file id) ≡ none

module _ ⦃crc32 : Crc32⦄ where
  -- The entry leads through an open file to the record that sets the key to the value.
  pub record Holds (s : Shared) (e : IndexValue) (key value : Bytes) : Type 0 where
    pub inode : ℕ
    pub opened : Map.get s.readers e.file_id ≡ some inode
    pub inside : e.offset + e.len ≤ length (s.files.contents inode)
    pub bytes :
        slice (s.files.contents inode) e.offset (e.offset + e.len)
        ≡ serialize (Command.set e.ts key value)
    pub fits : Fits (Command.set e.ts key value)
    pub text : is_utf8 value ≡ true

  pub record IsValid (s : Shared) : Type 0 where
    pub structure : IsOpen s
    pub entries :
        (key : Bytes) (e : IndexValue)
        → lookup s.index key ≡ some e
        → (value : Bytes) × Holds s e key value

  -- Nothing that a reader can reach is lost from `s` to `t`.
  pub record Keeps (s t : Shared) : Type 0 where
    pub index : t.index ≡ s.index
    pub data_kept : (e : IndexValue) (key value : Bytes) → Holds s e key value → Holds t e key value
