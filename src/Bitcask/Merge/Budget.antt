-- ===== src/Bitcask/Merge/Budget.antt =====
-- The sealed files that a merge still has to read, and how many outputs it can come to: each one but
-- the last holds at least a full file's bytes of them.
use bitcask.Prelude.{
  ℕ, ◌+◌, ◌*◌, ◌/◌, ◌^◌, ◌≤◌, ◌<◌, ◌≡◌, refl, Option, some, Bool, false, List, [], ◌∷◌, arith, All,
  length,
}
use native.Mathlib.Nat.{le-div_iff_mul-le}
use bitcask.Prelude.Bytes.{Bytes}
use bitcask.Prelude.Map
use bitcask.Prelude.Map.{Map, id_key}
use bitcask.Crc32.{Crc32}
use bitcask.Files.{Files}
use bitcask.Bitcask.State.{Shared}
use bitcask.Bitcask.Merge.{PendingUpdate, MergeOutput, total_bytes}
use bitcask.Bitcask.Merge.Steady.{Steady}
use bitcask.Bitcask.Merge.Working.{Working, Filling}

abbrev pub sum_len : Map ℕ ℕ → (ℕ → Bytes) → ℕ
sum_len [] contents = 0
sum_len ((id, inode) ∷ m) contents = length (contents inode) + sum_len m contents

-- The total of the source, where no metadata is missing, does not wrap.
pub total_bytes-sum_len :
    (unmeasured : ℕ → Bool) (m : Map ℕ ℕ) (files : Files)
    → All (λ file. unmeasured file.1 ≡ false) m
    → sum_len m files.contents < 2 ^ 64
    → total_bytes unmeasured m files ≡ sum_len m files.contents
unfolding total_bytes
total_bytes-sum_len unmeasured [] files known h = refl
total_bytes-sum_len unmeasured ((id, inode) ∷ m) files known h =
    rw known.0 (omega (arith, total_bytes-sum_len unmeasured m files known.1 (omega arith)))

abbrev pub Opens : Shared → ℕ × ℕ → Type 0
Opens s file = Map.get s.readers file.0 ≡ some file.1

pub Steady-Opens :
    {low : ℕ} {s t : Shared} (m : Map ℕ ℕ) → Steady low s t → All (Opens s) m → All (Opens t) m
Steady-Opens [] k h = tt
Steady-Opens (file ∷ m) k h = (rw k.readers h.0, Steady-Opens m k h.1)

pub Steady-sum_len :
    {low : ℕ} {s t : Shared} (m : Map ℕ ℕ)
    → ((id inode : ℕ) → Map.get s.readers id ≡ some inode → inode < low)
    → Steady low s t
    → All (Opens s) m
    → sum_len m t.files.contents ≡ sum_len m s.files.contents
Steady-sum_len [] below k h = refl
Steady-sum_len ((id, inode) ∷ m) below k h =
    let e = k.contents inode (below id inode h.0) in rw (e, Steady-sum_len m below k h.1)

module _ ⦃crc32 : Crc32⦄ (view : Bytes → Option Bytes) (prev size cap active : ℕ) where
  -- What stays as it is.
  pub record Setting (t : Shared) : Type 0 where
    pub current : t.writer.current_file_id ≡ active
    pub threshold : t.config.file_size_threshold ≡ size

  -- Between two outputs, of which `done` are finished.
  pub record Between (m : Map ℕ ℕ) (next_id : ℕ) (t : Shared) : Type 0 where
    pub low : ℕ
    pub done : ℕ
    pub next : next_id ≡ prev + done
    pub budget : done * size + sum_len m t.files.contents ≤ cap
    pub working : Working view low next_id (next_id + 1) t
    pub opens : All (Opens t) m
    pub setting : Setting t

  -- In the middle of an output.
  pub record Within (m : Map ℕ ℕ) (out : MergeOutput) (pending : List PendingUpdate) (next_id : ℕ)
      (t : Shared) : Type 0 where
    pub low : ℕ
    pub done : ℕ
    pub same_id : out.id ≡ next_id
    pub next : next_id ≡ prev + done + 1
    pub budget : done * size + out.written + sum_len m t.files.contents ≤ cap
    pub working : Working view low next_id next_id t
    pub filling : Filling view low out pending t
    pub opens : All (Opens t) m
    pub setting : Setting t

  -- The ids that are reserved are enough.
  module _ (positive : 0 < size) (reserve : active ≡ prev + cap / size + 3) where
    pub output_below : (done rest : ℕ) → done * size + rest ≤ cap → prev + done + 1 < active
    output_below done rest h =
        let few : done ≤ cap / size = (le-div_iff_mul-le positive).1 (omega arith) in omega arith
