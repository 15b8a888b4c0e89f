-- ===== src/Files.antt =====
-- The files under the store's directory, as storage/bitcask.rs uses them through std::fs. A name leads
-- to an inode, an open handle is an inode, and unlinking a name leaves the inode to its handles.
-- `durable` counts the bytes of an inode that `sync_all` has put on disk.
pub mod Names
pub mod Text
use bitcask.Prelude.{
  ℕ, ◌+◌, ◌≤◌, Option, none, some, Bool, true, false, [], ◌++◌, ltb, ◌==◌, if◌then◌else◌, length,
  take,
}
use bitcask.Prelude.Bytes.{Bytes}
use bitcask.Prelude.Map.{Map, get, insert, remove}
use bitcask.Error.{Result, ok, err, io, unexpected_eof, not_found}
use bitcask.BytesUtil.{slice}
use Names.{FileName, file_name_key}

pub record Files : Type 0 where
  pub dir : Map FileName ℕ
  pub contents : ℕ → Bytes
  pub durable : ℕ → ℕ
  pub next_inode : ℕ

-- A function changed at one point.
abbrev pub at {ℓ} : {A : Type ℓ} → (ℕ → A) → ℕ → A → ℕ → A
at f i a j = if i == j then a else f j

abbrev pub exists : FileName → Files → Bool
exists name fs = elim (get fs.dir name) [ none ↦ false | some inode ↦ true ]

-- OpenOptions::new().create(true).append(true).open(name)
unfoldable pub open_append : FileName → Files → ℕ × Files
open_append name fs = elim (get fs.dir name) [
  | some inode ↦ (inode, fs)
  | none ↦ (
    fs.next_inode,
    record {
      dir = insert fs.dir name fs.next_inode;
      contents = at fs.contents fs.next_inode [];
      durable = at fs.durable fs.next_inode 0;
      next_inode = fs.next_inode + 1;
    },
  )
]

-- OpenOptions::new().read(true).open(name)
unfoldable pub open_read : FileName → Files → Result ℕ
open_read name fs = elim (get fs.dir name) [ none ↦ err (io not_found) | some inode ↦ ok inode ]

-- A write through an appending handle.
unfoldable pub write : ℕ → Bytes → Files → Files
write inode bytes fs = record fs { contents = at fs.contents inode (fs.contents inode ++ bytes) }

unfoldable pub sync_all : ℕ → Files → Files
sync_all inode fs = record fs { durable = at fs.durable inode (length (fs.contents inode)) }

-- set_len, to at most the present length
unfoldable pub set_len : ℕ → ℕ → Files → Files
set_len inode len fs = record fs { contents = at fs.contents inode (take len (fs.contents inode)) }

-- file.read_exact_at(buf, offset), for a buffer of `len` bytes
unfoldable pub read_exact_at : ℕ → ℕ → ℕ → Files → Result Bytes
read_exact_at inode offset len fs =
    if ltb (length (fs.contents inode)) (offset + len)
    then err (io unexpected_eof)
    else ok (slice (fs.contents inode) offset (offset + len))

unfoldable pub remove_file : FileName → Files → Result Files
remove_file name fs = elim (get fs.dir name) [
  | none ↦ err (io not_found)
  | some inode ↦ ok (record fs { dir = remove fs.dir name })
]

unfoldable pub rename : FileName → FileName → Files → Result Files
rename from to fs = elim (get fs.dir from) [
  | none ↦ err (io not_found)
  | some inode ↦ ok (record fs { dir = insert (remove fs.dir from) to inode })
]
