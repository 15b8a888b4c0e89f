-- ===== src/Bitcask/Read.antt =====
-- storage/bitcask.rs: `get`. A merge and the writer may run between its steps, so it is given the
-- state at each of its reads: the index, the readers, the file.
use bitcask.Prelude.{ℕ, zero, suc, ◌+◌, ◌-◌, Option, none, some, if◌then◌else◌, length, drop}
use bitcask.Prelude.Bytes.{Bytes}
use bitcask.Prelude.Map
use bitcask.Prelude.Map.{id_key}
use bitcask.Crc32.{Crc32}
use bitcask.Error.{Result, ok, err, utf8, ◌>>=◌}
use bitcask.Files.{Files, read_exact_at}
use bitcask.Utf8.{is_utf8}
use bitcask.Command.{Command, get_value, deserialize}
use bitcask.IndexValue.{IndexValue}
use bitcask.Index.{lookup}
use bitcask.Bitcask.State.{Shared}

-- `String::from_utf8`
abbrev pub from_utf8 : Bytes → Result Bytes
from_utf8 buf = if is_utf8 buf then ok buf else err utf8

-- The value's bytes are the last ones of the record.
abbrev pub value_of : Bytes → Command → Result (Option Bytes)
value_of buf c = elim (get_value c) [
  | none ↦ ok none
  | some value ↦ (do text ← from_utf8 (drop (length buf - length value) buf); ok (some text))
]

module _ ⦃crc32 : Crc32⦄ where
  unfoldable pub read_entry : IndexValue → ℕ → Files → Result (Option Bytes)
  read_entry e inode files = do
    buf ← read_exact_at inode e.offset e.len files
    (deserialized, _) ← deserialize buf
    value_of buf deserialized

  -- The loop of `get` on `world`, the state at each moment; `none` if it is still going round when
  -- the fuel is gone.
  unfoldable pub get_loop : ℕ → (ℕ → Shared) → ℕ → Bytes → Option (Result (Option Bytes))
  get_loop zero world now key = none
  get_loop (suc fuel) world now key =
      let again = get_loop fuel world (now + 2) key in
      elim (lookup (world now).index key) [
        | none ↦ some (ok none)
        | some e ↦ elim (Map.get (world (now + 1)).readers e.file_id) [
          | none ↦ again
          | some inode ↦ some (read_entry e inode (world (now + 2)).files)
        ]
      ]
