-- ===== src/Bitcask/Merge/Ready.antt =====
-- The state in which a compaction starts, and what it does first.
use bitcask.Prelude.{
  ℕ, ◌+◌, ◌/◌, ◌^◌, ◌<◌, ◌≡◌, refl, Option, none, some, false, [], ◌∷◌, ◌==◌, ◌⊎◌, arith, All, inl,
  inr, Bool-cases, Option-cases,
}
use bitcask.Prelude.Bytes.{Bytes}
use bitcask.Prelude.Map
use bitcask.Prelude.Map.{Map, id_key}
use bitcask.Crc32.{Crc32}
use bitcask.Files.Names.{compact_file, hint_file, file_name_key, name_eq}
use bitcask.IndexValue.{IndexValue}
use bitcask.Index.{lookup}
use bitcask.Bitcask.State.{Shared, Env}
use bitcask.Bitcask.Readers.{get-insert}
use bitcask.Bitcask.Outcome.{rotated}
use bitcask.Bitcask.Invariant.{IsValid, Keeps}
use bitcask.Bitcask.Steps.{rotated-IsOpen, rotated-Keeps}
use bitcask.Bitcask.Merge.{sealed_readers}
use bitcask.Bitcask.Merge.Working.{Answers, missing, holds, Serves}
use bitcask.Bitcask.Merge.Budget.{sum_len, Opens, Between}
use bitcask.Bitcask.Merge.Start.{Kept}

abbrev pub sealed_of : Shared → Map ℕ ℕ
sealed_of s = sealed_readers s.writer.current_file_id s.readers

abbrev pub sealed_bytes : Shared → ℕ
sealed_bytes s = sum_len (sealed_of s) s.files.contents

-- The id that a compaction of this state makes the active one.
abbrev pub next_active : Shared → ℕ
next_active s = s.writer.current_file_id + sealed_bytes s / s.config.file_size_threshold + 3

module _ ⦃crc32 : Crc32⦄ ⦃env : Env⦄ where
  -- A valid state, in which no id of an open file is listed twice, no name of an output is taken
  -- above the active id, the metadata of the sealed files can be had when the compaction asks for
  -- their total, and the ids and sizes fit in a u64.
  pub record IsReady (s : Shared) : Type 0 where
    pub valid : IsValid s
    pub listed : All (Opens s) s.readers
    pub new_compact :
        (id : ℕ) → s.writer.current_file_id < id → Map.get s.files.dir (compact_file id) ≡ none
    pub new_hint :
        (id : ℕ) → s.writer.current_file_id < id → Map.get s.files.dir (hint_file id) ≡ none
    pub positive : 0 < s.config.file_size_threshold
    pub measured : All (λ file. env.unmeasured s.tick file.1 ≡ false) (sealed_of s)
    pub size : sealed_bytes s < 2 ^ 64
    pub room : next_active s < 2 ^ 64

module _ ⦃crc32 : Crc32⦄ where
  -- The map that a valid state stands for.
  view_at :
      {s : Shared} (v : IsValid s) (key : Bytes)
      → (lookup s.index key ≡ none) ⊎ ((e : IndexValue) × (lookup s.index key ≡ some e))
      → Option Bytes
  view_at v key (inl e) = none
  view_at v key (inr (e, found)) = some (v.entries key e found).0

  unfoldable pub view_of : {s : Shared} → IsValid s → Bytes → Option Bytes
  unfolding view_at
  view_of {s} v key = view_at v key (Option-cases (lookup s.index key))

  view_at-Answers :
      {s : Shared} (v : IsValid s) (key : Bytes)
      (c : (lookup s.index key ≡ none) ⊎ ((e : IndexValue) × (lookup s.index key ≡ some e)))
      → Answers s key (view_at v key c)
  unfolding view_at
  view_at-Answers v key (inl e) = missing e refl
  view_at-Answers v key (inr (e, found)) =
      let (value, h) = v.entries key e found in holds e value found h refl

  pub view_of-Answers : {s : Shared} (v : IsValid s) (key : Bytes) → Answers s key (view_of v key)
  unfolding view_of
  view_of-Answers {s} v key = view_at-Answers v key (Option-cases (lookup s.index key))

  pub IsValid-Serves : {s : Shared} (v : IsValid s) → Serves (view_of v) s.files.next_inode s
  IsValid-Serves v = record {
    answers = view_of-Answers v;
    inodes = v.structure.inodes;
    room = omega arith;
  }

  pub Kept-Serves :
      {view : Bytes → Option Bytes} {s t : Shared}
      → Serves view s.files.next_inode s
      → Kept s t
      → Serves view s.files.next_inode t
  Kept-Serves {view} {s} {t} v k = record {
    answers = λ key. go key (v.answers key);
    inodes = λ id inode h. v.inodes id inode (rw k.readers at h);
    room = k.room;
  }
    where
      go : (key : Bytes) → Answers s key (view key) → Answers t key (view key)
      go key (missing e n) = missing (rw k.index e) n
      go key (holds e value found h n) =
          let same = k.contents h.inode (v.inodes e.file_id h.inode h.opened) in
          holds e value (rw k.index found)
            (record {
              inode = h.inode;
              opened = rw k.readers h.opened;
              inside = rw same h.inside;
              bytes = rw same h.bytes;
              fits = h.fits;
              text = h.text;
            })
            n

sealed_readers-All {κ} :
    (P : ℕ × ℕ → Type κ) (current : ℕ) (m : Map ℕ ℕ)
    → All P m
    → All (λ file. P file × ((file.0 == current) ≡ false)) (sealed_readers current m)
unfolding sealed_readers
sealed_readers-All P current [] h = tt
sealed_readers-All P current ((id, inode) ∷ m) h = elim (Bool-cases (id == current)) [
  | inl same ↦ rw same (sealed_readers-All P current m h.1)
  | inr apart ↦ rw apart ((h.0, apart), sealed_readers-All P current m h.1)
]

module _ ⦃crc32 : Crc32⦄ ⦃env : Env⦄ {s : Shared} (ready : IsReady s) (now : ℕ) where
  abbrev start : Shared
  start = rotated (next_active s) now s

  above_lem : s.writer.current_file_id < next_active s
  above_lem = omega arith

  start-Opens :
      (m : Map ℕ ℕ)
      → All (λ file. Opens s file × ((file.0 == s.writer.current_file_id) ≡ false)) m
      → All (Opens start) m × (sum_len m start.files.contents ≡ sum_len m s.files.contents)
  start-Opens [] h = (tt, refl)
  start-Opens ((id, inode) ∷ m) h =
      let (rest, sum) = start-Opens m h.1 in
      let below = ready.valid.structure.ids id inode h.0.0 in
      let fresh = ready.valid.structure.inodes id inode h.0.0 in
      let same : start.files.contents inode ≡ s.files.contents inode = ground (arith, fresh) in
      ((rw get-insert (ground (arith, h.0.0, below)), rest), rw (same, sum))

  -- The rotation leaves the state in which the first output can be opened.
  pub start-Between :
      (cap : ℕ)
      → cap ≡ sealed_bytes s
      → Between
          (view_of ready.valid)
          s.writer.current_file_id
          s.config.file_size_threshold
          cap
          (next_active s)
          (sealed_of s)
          s.writer.current_file_id
          start
  unfolding name_eq
  start-Between cap whole =
      let (opens, sum) =
        start-Opens (sealed_of s)
          (sealed_readers-All (Opens s) s.writer.current_file_id s.readers ready.listed) in
      let o = ready.valid.structure in
      let kept = rotated-Keeps o (next_active s) now above_lem in
      record {
        low = s.files.next_inode + 1;
        done = 0;
        next = omega arith;
        budget = omega (arith, sum, whole);
        working = record {
          serves = record {
            answers = λ key. go key (view_of-Answers ready.valid key) kept;
            inodes = (rotated-IsOpen o (next_active s) now above_lem).inodes;
            room = omega arith;
          };
          is_open = rotated-IsOpen o (next_active s) now above_lem;
          free = λ id from less. elim (Option-cases (Map.get s.readers id)) [
            | inl unused ↦ rw get-insert (ground (arith, unused))
            | inr (inode, used) ↦ absurd (omega (arith, o.ids id inode used))
          ];
          new_compact = λ id after. rw Map.get-insert (ground (arith, ready.new_compact id after));
          new_hint = λ id after. rw Map.get-insert (ground (arith, ready.new_hint id after));
        };
        opens = opens;
        setting = record { current = refl; threshold = refl };
      }
    where
      go :
          (key : Bytes)
          → Answers s key (view_of ready.valid key)
          → Keeps s start
          → Answers start key (view_of ready.valid key)
      go key (missing e n) k = missing e n
      go key (holds e value found h n) k = holds e value found (k.data_kept e key value h) n
