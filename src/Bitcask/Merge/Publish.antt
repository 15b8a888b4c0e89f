-- ===== src/Bitcask/Merge/Publish.antt =====
-- The pending updates of an output: the keydir goes on to answer as the map says.
use bitcask.Prelude.{
  ◌≡◌, ◌∙◌, sym, ap, subst, Option, some, List, [], ◌∷◌, All, inl, inr, Bool-cases,
}
use bitcask.Prelude.Bytes.{Bytes, bytes_eq, bytes_eq_iff}
use bitcask.Prelude.Map
use bitcask.Prelude.Map.{id_key}
use bitcask.Crc32.{Crc32}
use bitcask.Files.Names.{file_name_key}
use bitcask.IndexValue.{IndexValue}
use bitcask.Index.{Index, lookup, put}
use bitcask.Index.Lookup.{lookup-put}
use bitcask.Bitcask.State.{Shared}
use bitcask.Bitcask.Invariant.{Holds}
use bitcask.Bitcask.Merge.{PendingUpdate, MergeOutput, sits_at, apply_update, apply_updates}
use bitcask.Bitcask.Merge.Working.{Answers, missing, holds, Copied}

module _ ⦃crc32 : Crc32⦄ (view : Bytes → Option Bytes) where
  abbrev pub with_index : Shared → Index → Shared
  with_index s i = record s { index = i }

  Holds-with_index :
      (s : Shared) (i j : Index) (e : IndexValue) (key value : Bytes)
      → Holds (with_index s i) e key value
      → Holds (with_index s j) e key value
  Holds-with_index s i j e key value h = record {
    inode = h.inode;
    opened = h.opened;
    inside = h.inside;
    bytes = h.bytes;
    fits = h.fits;
    text = h.text;
  }

  -- An entry that other updates leave alone.
  Answers-same :
      (s : Shared) (i j : Index) (key : Bytes)
      → lookup j key ≡ lookup i key
      → Answers (with_index s i) key (view key)
      → Answers (with_index s j) key (view key)
  Answers-same s i j key same (missing e n) = missing (same ∙ e) n
  Answers-same s i j key same (holds e value found h n) =
      holds e value (same ∙ found) (Holds-with_index s i j e key value h) n

  module _ (s : Shared) (out : MergeOutput)
      (opened : Map.get s.readers out.id ≡ some out.data_inode) where
    Copied-Holds :
        (i : Index) (p : PendingUpdate) (c : Copied view out s p)
        → Holds (with_index s i) p.new p.key c.value
    Copied-Holds i p c = record {
      inode = out.data_inode;
      opened = rw c.file opened;
      inside = c.inside;
      bytes = c.bytes;
      fits = c.fits;
      text = c.text;
    }

    apply_update-Answers :
        (p : PendingUpdate) (i : Index)
        → Copied view out s p
        → ((key : Bytes) → Answers (with_index s i) key (view key))
        → (key : Bytes) → Answers (with_index s (apply_update p i)) key (view key)
    unfolding apply_update
    apply_update-Answers p i c answers key =
        elim (Bool-cases
          (sits_at p.previous_value.file_id p.previous_value.offset (lookup i p.key))) [
            | inr gone ↦ rw gone (answers key)
            | inl sits ↦ elim (Bool-cases (bytes_eq p.key key)) [
              | inl same ↦
                  let k : p.key ≡ key = (bytes_eq_iff p.key key).0 same in
                  rw sits (
                    holds p.new c.value (lookup-put i p.key key p.new ∙ rw same)
                      (subst (λ j. Holds (with_index s (put i p.key p.new)) p.new j c.value) k
                        (Copied-Holds (put i p.key p.new) p c))
                      (ap view (sym k) ∙ c.current))
              | inr different ↦ rw sits (
                  Answers-same s i (put i p.key p.new) key
                    (lookup-put i p.key key p.new ∙ rw different) (answers key))
            ]
          ]

    pub apply_updates-Answers :
        (pending : List PendingUpdate) (i : Index)
        → All (Copied view out s) pending
        → ((key : Bytes) → Answers (with_index s i) key (view key))
        → (key : Bytes) → Answers (with_index s (apply_updates pending i)) key (view key)
    unfolding apply_updates
    apply_updates-Answers [] i h answers = answers
    apply_updates-Answers (p ∷ pending) i h answers =
        apply_updates-Answers pending (apply_update p i) h.1 (apply_update-Answers p i h.0 answers)
