-- ===== src/Bitcask/Merge/Updates.antt =====
-- The end of a merge, beside the writes that ran during it.
use bitcask.Prelude.{
  ◌≡◌, refl, ◌∙◌, false, true, none, some, arith, List, [], ◌∷◌, All, Option, inl, inr, Bool-cases,
}
use bitcask.Prelude.Bytes.{Bytes, bytes_eq, bytes_eq_iff}
use bitcask.IndexValue.{IndexValue}
use bitcask.Index.{Index, lookup}
use bitcask.Index.Lookup.{lookup-put}
use bitcask.Bitcask.Merge.{PendingUpdate, sits_at, apply_update, apply_updates}

-- No update of this key was read at the place of its entry.
abbrev pub IsElsewhere : Bytes → Option IndexValue → PendingUpdate → Type 0
IsElsewhere key entry p =
    p.key ≡ key
    → (e : IndexValue) → entry ≡ some e
    → ¬ ((e.file_id ≡ p.previous_value.file_id) × (e.offset ≡ p.previous_value.offset))

sits_at-elsewhere :
    (p : PendingUpdate) (key : Bytes) (entry : Option IndexValue)
    → p.key ≡ key
    → IsElsewhere key entry p
    → sits_at p.previous_value.file_id p.previous_value.offset entry ≡ false
sits_at-elsewhere p key none same h = refl
sits_at-elsewhere p key (some e) same h =
    elim (Bool-cases (sits_at p.previous_value.file_id p.previous_value.offset (some e))) [
      | inl sits ↦ absurd (h same e refl (ground arith, ground arith))
      | inr stays ↦ stays
    ]

apply_update-kept :
    (p : PendingUpdate) (index : Index) (key : Bytes)
    → IsElsewhere key (lookup index key) p
    → lookup (apply_update p index) key ≡ lookup index key
unfolding apply_update
apply_update-kept p index key h = elim (Bool-cases (bytes_eq p.key key)) [
  | inl same ↦
      let k : p.key ≡ key = (bytes_eq_iff p.key key).0 same in
      let stays : sits_at p.previous_value.file_id p.previous_value.offset (lookup index p.key)
          ≡ false =
        rw k (sits_at-elsewhere p key (lookup index key) k h) in
      rw stays
  | inr other ↦
      elim (Bool-cases
        (sits_at p.previous_value.file_id p.previous_value.offset (lookup index p.key))) [
          | inl moved ↦ rw (moved, lookup-put, other)
          | inr stays ↦ rw stays
        ]
]

-- A key that has no entry, or one at another file or offset than those at which the pending updates of
-- this key were read, keeps its entry or its absence through all the updates.
pub apply_updates-kept :
    (pending : List PendingUpdate) (index : Index) (key : Bytes)
    → All (IsElsewhere key (lookup index key)) pending
    → lookup (apply_updates pending index) key ≡ lookup index key
unfolding apply_updates
apply_updates-kept [] index key h = refl
apply_updates-kept (p ∷ pending) index key h =
    let e = apply_update-kept p index key h.0 in
    apply_updates-kept pending (apply_update p index) key (rw e h.1) ∙ e

apply_update_moved :
    (p : PendingUpdate) (index : Index) (e : IndexValue)
    → lookup index p.key ≡ some e
    → e.file_id ≡ p.previous_value.file_id
    → e.offset ≡ p.previous_value.offset
    → lookup (apply_update p index) p.key ≡ some p.new
unfolding apply_update
apply_update_moved p index e found file offset =
    let sits : sits_at p.previous_value.file_id p.previous_value.offset (lookup index p.key)
        ≡ true =
      rw found (ground (arith, file, offset)) in
    let same : bytes_eq p.key p.key ≡ true = (bytes_eq_iff p.key p.key).1 refl in
    rw (sits, lookup-put, same)

-- A key whose entry lies at the file and offset at which the first update was read leads to that
-- update's copy behind all of them, where no later update of this key was read at the copy's place.
pub apply_updates_moved :
    (p : PendingUpdate) (pending : List PendingUpdate) (index : Index) (e : IndexValue)
    → lookup index p.key ≡ some e
    → e.file_id ≡ p.previous_value.file_id
    → e.offset ≡ p.previous_value.offset
    → All (IsElsewhere p.key (some p.new)) pending
    → lookup (apply_updates (p ∷ pending) index) p.key ≡ some p.new
unfolding apply_updates
apply_updates_moved p pending index e found file offset rest =
    let moved = apply_update_moved p index e found file offset in
    apply_updates-kept pending (apply_update p index) p.key (rw moved rest) ∙ moved
