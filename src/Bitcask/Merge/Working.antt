-- ===== src/Bitcask/Merge/Working.antt =====
-- What holds in the middle of a merge: readers are served as before, and the output that is being
-- written holds the records that its pending updates lead to.
use bitcask.Prelude.{ℕ, ◌+◌, ◌≤◌, ◌<◌, ◌≡◌, Option, none, some, true, arith, All, length, List}
use bitcask.Prelude.Bytes.{Bytes}
use bitcask.Prelude.Map
use bitcask.Prelude.Map.{id_key}
use bitcask.Crc32.{Crc32}
use bitcask.BytesUtil.{slice}
use bitcask.Files.Names.{compact_file, hint_file, file_name_key}
use bitcask.Utf8.{is_utf8}
use bitcask.Command.{Command, serialize}
use bitcask.Command.RoundTrip.{Fits}
use bitcask.IndexValue.{IndexValue}
use bitcask.Index.{lookup}
use bitcask.Bitcask.State.{Shared}
use bitcask.Bitcask.Invariant.{IsOpen, Holds}
use bitcask.Bitcask.Merge.{PendingUpdate, MergeOutput}
use bitcask.Bitcask.Merge.Steady.{Steady}

module _ ⦃crc32 : Crc32⦄ where
  -- What the keydir and the files say of a key.
  pub data Answers (s : Shared) (key : Bytes) (o : Option Bytes) : Type 0 where
    missing : lookup s.index key ≡ none → o ≡ none → Answers s key o
    holds :
        (e : IndexValue) (value : Bytes)
        → lookup s.index key ≡ some e
        → Holds s e key value
        → o ≡ some value
        → Answers s key o

  -- Every key is answered as the map says, through files below `low`.
  pub record Serves (view : Bytes → Option Bytes) (low : ℕ) (s : Shared) : Type 0 where
    pub answers : (key : Bytes) → Answers s key (view key)
    pub inodes : (id inode : ℕ) → Map.get s.readers id ≡ some inode → inode < low
    pub room : low ≤ s.files.next_inode

  pub Steady-Holds :
      {low : ℕ} {s t : Shared} (e : IndexValue) (key value : Bytes)
      → ((id inode : ℕ) → Map.get s.readers id ≡ some inode → inode < low)
      → Steady low s t
      → Holds s e key value
      → Holds t e key value
  Steady-Holds e key value below k h =
      let same = k.contents h.inode (below e.file_id h.inode h.opened) in
      record {
        inode = h.inode;
        opened = rw k.readers h.opened;
        inside = rw same h.inside;
        bytes = rw same h.bytes;
        fits = h.fits;
        text = h.text;
      }

  pub Steady-Serves :
      {view : Bytes → Option Bytes} {low : ℕ} {s t : Shared}
      → Steady low s t
      → Serves view low s
      → Serves view low t
  Steady-Serves {view} {low} {s} {t} k v = record {
    answers = λ key. go key (v.answers key);
    inodes = λ id inode h. v.inodes id inode (rw k.readers at h);
    room = omega (arith, v.room, k.room);
  }
    where
      go : (key : Bytes) → Answers s key (view key) → Answers t key (view key)
      go key (missing e n) = missing (rw k.index e) n
      go key (holds e value found h n) =
          holds e value (rw k.index found) (Steady-Holds e key value v.inodes k h) n

  -- The writer goes on undisturbed.
  pub Steady-IsOpen :
      {low : ℕ} {s t : Shared}
      → ((id inode : ℕ) → Map.get s.readers id ≡ some inode → inode < low)
      → Steady low s t
      → IsOpen s
      → IsOpen t
  Steady-IsOpen {low} {s} {t} below k o = record {
    active = rw (k.readers, k.writer) o.active;
    at_end = rw (k.writer, k.contents _ (below _ _ o.active)) o.at_end;
    ids = λ id inode h. rw k.writer (o.ids id inode (rw k.readers at h));
    inodes = λ id inode h. omega (arith, o.inodes id inode (rw k.readers at h), k.room);
    names = λ id above. k.names id (rw k.writer at above) (o.names id (rw k.writer at above));
  }

  -- Between two outputs: no file has an id from `next_free` to the active one, and no output or
  -- hint file has a name above `last_id`.
  pub record Working (view : Bytes → Option Bytes) (low last_id next_free : ℕ) (s : Shared)
      : Type 0 where
    pub serves : Serves view low s
    pub is_open : IsOpen s
    pub free :
        (id : ℕ) → next_free ≤ id → id < s.writer.current_file_id → Map.get s.readers id ≡ none
    pub new_compact : (id : ℕ) → last_id < id → Map.get s.files.dir (compact_file id) ≡ none
    pub new_hint : (id : ℕ) → last_id < id → Map.get s.files.dir (hint_file id) ≡ none

  -- The new place of a pending update holds a record of the value that its key has.
  pub record Copied (view : Bytes → Option Bytes) (out : MergeOutput) (s : Shared)
      (p : PendingUpdate) : Type 0 where
    pub value : Bytes
    pub current : view p.key ≡ some value
    pub file : p.new.file_id ≡ out.id
    pub inside : p.new.offset + p.new.len ≤ length (s.files.contents out.data_inode)
    pub bytes :
        slice (s.files.contents out.data_inode) p.new.offset (p.new.offset + p.new.len)
        ≡ serialize (Command.set p.new.ts p.key value)
    pub fits : Fits (Command.set p.new.ts p.key value)
    pub text : is_utf8 value ≡ true

  -- The output that is being written.
  pub record Filling (view : Bytes → Option Bytes) (low : ℕ) (out : MergeOutput)
      (pending : List PendingUpdate) (s : Shared) : Type 0 where
    pub place : Map.get s.files.dir (compact_file out.id) ≡ some out.data_inode
    pub above : low ≤ out.data_inode
    pub apart : out.data_inode < out.hint_inode
    pub made : out.hint_inode < s.files.next_inode
    pub at_end : length (s.files.contents out.data_inode) ≡ out.written
    pub copied : All (Copied view out s) pending
