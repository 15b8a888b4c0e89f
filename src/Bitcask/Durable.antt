-- ===== src/Bitcask/Durable.antt =====
-- What is in the files of a store in use: the logs of what was done since it had none, and no hint
-- files. A store that has not been compacted is of this kind.
pub mod Directory
pub mod Files
pub mod Rotated
pub mod Append
pub mod Stored
pub mod Reopen
mod Tests
use bitcask.Prelude.{ℕ, ◌^◌, ◌<◌, ◌≡◌, none, List, [], ◌∷◌, ◌++◌, All}
use bitcask.Prelude.Bytes.{Bytes}
use bitcask.Prelude.Map
use bitcask.Prelude.Map.{Map}
use bitcask.Crc32.{Crc32}
use bitcask.Files.Names.{hint_file, file_name_key}
use bitcask.Files.Text.{name_id}
use bitcask.Command.{Command}
use bitcask.Bitcask.State.{Shared}
use bitcask.Bitcask.Loader.Recovery.{bytes_of, Sealed}
use bitcask.Bitcask.Loader.Valid.{Placed}
use bitcask.Bitcask.Open.Clean.{Unique}

-- The files in the order of their ids, the active one last.
abbrev pub files_of : Shared → Map ℕ ℕ → Map ℕ ℕ
files_of s sealed = sealed ++ ((s.writer.current_file_id, s.writer.file) ∷ [])

module _ ⦃crc32 : Crc32⦄ (logs : ℕ → List Command) where
  pub record OnDisk (s : Shared) (sealed : Map ℕ ℕ) : Type 0 where
    pub readers : s.readers ≡ files_of s sealed
    pub placed : Placed logs s.files (files_of s sealed)
    pub room : All (λ entry. name_id entry.0 < 2 ^ 64) s.files.dir
    pub unique : Unique s.files.dir
    pub no_hints : (i : ℕ) → Map.get s.files.dir (hint_file i) ≡ none
    pub closed : All (Sealed logs s.files) sealed
    pub bytes : s.files.contents s.writer.file ≡ bytes_of logs s.writer.current_file_id
