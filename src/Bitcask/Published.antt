-- ===== src/Bitcask/Published.antt =====
-- `get` right after a record was published, and the state that an `append` that goes through leaves.
use bitcask.Prelude.{
  ℕ, ◌+◌, ◌^◌, ◌≤◌, ◌<◌, ◌≡◌, ◌∙◌, sym, subst, ap, some, none, Option, arith, length, inl, inr,
  Bool-cases, Option-cases, if◌then◌else◌,
}
use bitcask.Prelude.Bytes.{Bytes, bytes_eq, bytes_eq_iff}
use bitcask.Crc32.{Crc32}
use bitcask.Error.{Result, ok}
use bitcask.Exec.{ok-seq}
use bitcask.Command.{Command, serialize}
use bitcask.Index.{lookup}
use bitcask.Index.Lookup.{lookup-put, lookup-delete}
use bitcask.Bitcask.State.{Shared, Env, write_all}
use bitcask.Bitcask.Write.{append, post_write_ops}
use bitcask.Bitcask.Read.{get_loop}
use bitcask.Bitcask.Lookup.{get_loop-Holds, get_loop_missing}
use bitcask.Bitcask.Outcome.{write_all-ok}
use bitcask.Bitcask.Invariant.{Holds, IsValid, Keeps}
use bitcask.Bitcask.Steps.{Keeps-IsValid}
use bitcask.Bitcask.Appended.{
  appended, IsStorable, appended-IsValid, appended-writer, appended-with_record, with_record, entry,
  with_record-Holds, entry-Holds,
}
use bitcask.Bitcask.After.{post_write_ops-Rests}

-- The counters do not wrap: ids and offsets are u64.
pub record HasRoom (s : Shared) (len : ℕ) : Type 0 where
  pub id : s.writer.current_file_id + 1 < 2 ^ 64
  pub offset : s.writer.offset + len < 2 ^ 64

-- The active file is below the size at which it is full.
abbrev pub HasSpace : Shared → Type 0
HasSpace s = s.writer.offset < s.config.file_size_threshold

-- The writer is at most one file further, and no further in its file than `len` bytes.
pub record Moves (len : ℕ) (s t : Shared) : Type 0 where
  pub file : t.writer.current_file_id ≤ s.writer.current_file_id + 1
  pub offset : t.writer.offset ≤ s.writer.offset + len
  pub below : HasSpace s → HasSpace t

module _ ⦃crc32 : Crc32⦄ where
  -- `get`, when no other thread runs between its steps.
  abbrev pub get : Shared → Bytes → Option (Result (Option Bytes))
  get s key = get_loop 1 (λ _. s) 0 key

  -- Two states of which the second keeps what the first shows answer alike.
  pub get-Keeps : {s t : Shared} → IsValid s → Keeps s t → (key : Bytes) → get t key ≡ get s key
  get-Keeps {s} {t} v k key = elim (Option-cases (lookup s.index key)) [
    | inl missing ↦
        get_loop_missing t 0 0 key (rw k.index missing) ∙ sym (get_loop_missing s 0 0 key missing)
    | inr (e, found) ↦
        let (value, h) = v.entries key e found in
        get_loop-Holds t 0 0 key value e (rw k.index found) (k.data_kept e key value h)
        ∙ sym (get_loop-Holds s 0 0 key value e found h)
  ]

  -- `get` right after the record was published.
  module _ (stale : ℕ) {s : Shared} (v : IsValid s) (j : Bytes) where
    get-other :
        (c : Command)
        → lookup (with_record c (serialize c) stale s).index j ≡ lookup s.index j
        → get (with_record c (serialize c) stale s) j ≡ get s j
    get-other c same = elim (Option-cases (lookup s.index j)) [
      | inl missing ↦
          get_loop_missing (with_record c (serialize c) stale s) 0 0 j (same ∙ missing)
          ∙ sym (get_loop_missing s 0 0 j missing)
      | inr (e, found) ↦
          let (value, h) = v.entries j e found in
          get_loop-Holds (with_record c (serialize c) stale s) 0 0 j value e (same ∙ found)
            (with_record-Holds c (serialize c) stale e j value h)
          ∙ sym (get_loop-Holds s 0 0 j value e found h)
    ]

    pub get-published_set :
        (ts : ℕ) (key value : Bytes)
        → IsStorable (Command.set ts key value)
        → let c = Command.set ts key value in
          get (with_record c (serialize c) stale s) j
          ≡ (if bytes_eq key j then some (ok (some value)) else get s j)
    get-published_set ts key value storable =
        let c = Command.set ts key value in
        let law = lookup-put s.index key j (entry c (length (serialize c)) s) in
        elim (Bool-cases (bytes_eq key j)) [
          | inl same ↦
              let eq : key ≡ j = (bytes_eq_iff key j).0 same in
              rw same (
                get_loop-Holds (with_record c (serialize c) stale s) 0 0 j value
                  (entry c (length (serialize c)) s) (law ∙ rw same)
                  (subst
                    (λ k.
                      Holds (with_record c (serialize c) stale s) (entry c (length (serialize c)) s)
                        k value)
                    eq (entry-Holds ts key value stale v.structure storable)))
          | inr other ↦ rw other (get-other c (law ∙ rw other))
        ]

    pub get-published_rm :
        (ts : ℕ) (key : Bytes)
        → let c = Command.rm ts key in
          get (with_record c (serialize c) stale s) j
          ≡ (if bytes_eq key j then some (ok none) else get s j)
    get-published_rm ts key =
        let c = Command.rm ts key in
        let law = lookup-delete s.index key j in
        elim (Bool-cases (bytes_eq key j)) [
          | inl same ↦
              rw same (get_loop_missing (with_record c (serialize c) stale s) 0 0 j (law ∙ rw same))
          | inr other ↦ rw other (get-other c (law ∙ rw other))
        ]

module _ ⦃crc32 : Crc32⦄ ⦃env : Env⦄ where
  -- An `append` that goes through.
  pub append-Keeps :
      (c : Command) {s : Shared}
      → IsValid s
      → IsStorable c
      → HasRoom s (length (serialize c))
      → (append c s).0 ≡ ok tt
      → IsValid (append c s).1
        × Keeps (appended c (serialize c) s) (append c s).1
        × Moves (length (serialize c)) s (append c s).1
  unfolding append
  append-Keeps c {s} v storable room e = ok-seq (write_all (serialize c)) _ s e λ a h k.
      let out = write_all-ok (serialize c) s h in
      let now = appended c (serialize c) s in
      let valid : IsValid now = appended-IsValid c room.offset storable v in
      let went : (post_write_ops now).0 ≡ ok tt = rw out at k in
      let (stale, same) = appended-with_record c (serialize c) s in
      let (here, below, config) = appended-writer c (serialize c) s in
      let rest =
        post_write_ops-Rests valid.structure (subst (λ i. i + 1 < 2 ^ 64) (sym here) room.id)
          went in
      rw (h, out)
        (
          Keeps-IsValid rest.keeps rest.is_open valid,
          rest.keeps,
          record {
            file = omega (arith, rest.file, here);
            offset = omega (arith, rest.offset, below);
            below =
                λ h. rest.below (subst (λ c. 0 < c.file_size_threshold) (sym config) (omega arith));
          },
        )

  -- After an `append` that goes through, `get` answers as on the published state.
  pub get-append :
      (c : Command) {s : Shared}
      → IsValid s
      → IsStorable c
      → HasRoom s (length (serialize c))
      → (append c s).0 ≡ ok tt
      → (j : Bytes)
      → (stale : ℕ) × (get (append c s).1 j ≡ get (with_record c (serialize c) stale s) j)
  get-append c {s} v storable room e j =
      let (stale, same) = appended-with_record c (serialize c) s in
      let (_, kept, _) = append-Keeps c v storable room e in
      let valid = appended-IsValid c room.offset storable v in
      (stale, get-Keeps valid kept j ∙ ap (λ t. get t j) same)
