-- ===== src/Bitcask/Concurrent.antt =====
-- storage/bitcask.rs: a `get` beside the writer. The states that `append` passes are those behind its
-- actions (History); a step is what a reader can tell apart in them.
pub mod Grown
pub mod Get
pub mod Books
pub mod History
pub mod Append
pub mod Chain
mod Tests
use bitcask.Prelude.{ℕ, suc, ◌+◌, ◌<◌, ◌≡◌, none, some, []}
use bitcask.Prelude.Bytes.{Bytes}
use bitcask.Prelude.Map
use bitcask.Prelude.Map.{id_key}
use bitcask.Crc32.{Crc32}
use bitcask.Command.{Command}
use bitcask.IndexValue.{IndexValue}
use bitcask.Index.{lookup}
use bitcask.Files.{write, at}
use bitcask.Bitcask.State.{Shared, insert}
use bitcask.Bitcask.Write.{publish}
use bitcask.Bitcask.Invariant.{Holds}

-- What `get` looks at is the same, and the names and the active file. The rest of the writer's state
-- and what is durable may differ.
pub record Booked (s t : Shared) : Type 0 where
  pub index : t.index ≡ s.index
  pub readers : t.readers ≡ s.readers
  pub contents : t.files.contents ≡ s.files.contents
  pub next_inode : t.files.next_inode ≡ s.files.next_inode
  pub dir : t.files.dir ≡ s.files.dir
  pub current : t.writer.current_file_id ≡ s.writer.current_file_id
  pub handle : t.writer.file ≡ s.writer.file

-- The record of a set that is published stands where the entry says.
abbrev pub InPlace : ⦃crc32 : Crc32⦄ → Command → ℕ → ℕ → Shared → Type 0
InPlace (Command.set ts key value) offset len s =
    Holds s (record { file_id = s.writer.current_file_id; ts = ts; offset = offset; len = len }) key
      value
InPlace (Command.rm ts key) offset len s = Unit

module _ ⦃crc32 : Crc32⦄ where
  pub data Step (s : Shared) : Shared → Type 0 where
    books : (t : Shared) → Booked s t → Step s t
    -- Bytes at the end of a file, all of them or those before a failure.
    writes : (inode : ℕ) (bytes : Bytes) → Step s (record s { files = write inode bytes s.files })
    publishes :
        (c : Command) (offset len : ℕ) → InPlace c offset len s → Step s (publish c offset len s)
    -- A new file.
    creates :
        (t : Shared)
        → t.index ≡ s.index
        → t.readers ≡ s.readers
        → t.files.contents ≡ at s.files.contents s.files.next_inode []
        → t.files.next_inode ≡ s.files.next_inode + 1
        → Step s t
    -- A file that is there is opened for reading, under an id that is new.
    opens :
        (id inode : ℕ)
        → Map.get s.readers id ≡ none
        → inode < s.files.next_inode
        → Step s (record s { readers = insert s.readers id inode })

  -- One step after another.
  pub data Steps (s : Shared) : Shared → Type 0 where
    still : Steps s s
    further : {t u : Shared} → Steps s t → Step t u → Steps s u

  -- What a reader relies on: open files are there, and entries lead to their records.
  pub record Served (s : Shared) : Type 0 where
    pub inodes : (id inode : ℕ) → Map.get s.readers id ≡ some inode → inode < s.files.next_inode
    pub entries :
        (key : Bytes) (e : IndexValue)
        → lookup s.index key ≡ some e
        → (value : Bytes) × Holds s e key value

  -- What a reader could reach it still reaches, by the same handle.
  pub record Sees (s t : Shared) : Type 0 where
    pub opened :
        (id inode : ℕ) → Map.get s.readers id ≡ some inode → Map.get t.readers id ≡ some inode
    pub data_kept : (e : IndexValue) (key value : Bytes) → Holds s e key value → Holds t e key value
