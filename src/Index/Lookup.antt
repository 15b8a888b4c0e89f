-- ===== src/Index/Lookup.antt =====
-- The array of sixteen maps behaves as one map, and no access of it is out of bounds.
use bitcask.Prelude.{
  ℕ, zero, suc, ◌+◌, ◌<◌, ◌≡◌, refl, ◌∙◌, sym, ap, subst, none, some, true, false, ◌∷◌, ◌==◌, arith,
  if◌then◌else◌,
}
use mathlib.Core.Option
use bitcask.Prelude.Bytes.{Bytes, bytes_eq, bytes_eq_iff}
use bitcask.Prelude.Map.{bytes_key, get, insert, remove, get-insert, get-remove}
use bitcask.IndexValue.{IndexValue}
use bitcask.Index.{
  Index, KeyDir, index_buckets_num, get_bucket, lookup, put, delete, set_bucket, slots, array,
  bucket_at, with_bucket, read_access, write_access,
}

-- A bucket is one of the sixteen.
pub get_bucket-lt : (key : Bytes) → get_bucket key < index_buckets_num
unfolding get_bucket
get_bucket-lt key = omega arith

-- The bounds check at a position in range goes through.
bucket_at-slots :
    (index : Index) (start count bucket : ℕ)
    → bucket < count
    → bucket_at (slots index start count) bucket ≡ some (index (start + bucket))
bucket_at-slots index start zero bucket less = absurd (omega arith)
bucket_at-slots index start (suc count) zero less =
    let e : start ≡ start + 0 = omega arith in ap (λ i. some (index i)) e
bucket_at-slots index start (suc count) (suc bucket) less =
    let e : start + 1 + bucket ≡ start + suc bucket = omega arith in
    bucket_at-slots index (start + 1) count bucket (omega arith) ∙ ap (λ i. some (index i)) e

-- A change below the first position leaves the rest.
slots-set_below :
    (index : Index) (start count bucket : ℕ) (m : KeyDir)
    → bucket < start
    → slots (set_bucket index bucket m) start count ≡ slots index start count
slots-set_below index start zero bucket m below = refl
slots-set_below index start (suc count) bucket m below =
    let other : (bucket == start) ≡ false = ground arith in
    rw other
      (ap (λ l. index start ∷ l) (slots-set_below index (start + 1) count bucket m (omega arith)))

with_bucket-slots :
    (index : Index) (start count bucket : ℕ) (m : KeyDir)
    → bucket < count
    → with_bucket (slots index start count) bucket m
      ≡ slots (set_bucket index (start + bucket) m) start count
with_bucket-slots index start zero bucket m less = absurd (omega arith)
with_bucket-slots index start (suc count) zero m less =
    let here : (start + 0 == start) ≡ true = ground arith in
    rw here
      (ap (λ l. m ∷ l) (sym (slots-set_below index (start + 1) count (start + 0) m (omega arith))))
with_bucket-slots index start (suc count) (suc bucket) m less =
    let apart : (start + suc bucket == start) ≡ false = ground arith in
    let e : start + 1 + bucket ≡ start + suc bucket = omega arith in
    rw apart (
      ap (λ l. index start ∷ l)
        (subst
          (λ i.
            with_bucket (slots index (start + 1) count) bucket m
            ≡ slots (set_bucket index i m) (start + 1) count)
          e (with_bucket-slots index (start + 1) count bucket m (omega arith))))

pub lookup-put :
    (index : Index) (key j : Bytes) (e : IndexValue)
    → lookup (put index key e) j ≡ (if bytes_eq key j then some e else lookup index j)
unfolding lookup put
lookup-put index key j e =
    ground (arith, bytes_eq_iff key j, get-insert (index (get_bucket key)) key j e)

pub lookup-delete :
    (index : Index) (key j : Bytes)
    → lookup (delete index key) j ≡ (if bytes_eq key j then none else lookup index j)
unfolding lookup delete
lookup-delete index key j =
    ground (arith, bytes_eq_iff key j, get-remove (index (get_bucket key)) key j)

bucket_at-array :
    (index : Index) (bucket : ℕ)
    → bucket < index_buckets_num
    → bucket_at (array index) bucket ≡ some (index bucket)
bucket_at-array index bucket less =
    let e : 0 + bucket ≡ bucket = omega arith in
    bucket_at-slots index 0 index_buckets_num bucket less ∙ ap (λ i. some (index i)) e

with_bucket-array :
    (index : Index) (bucket : ℕ) (m : KeyDir)
    → bucket < index_buckets_num
    → with_bucket (array index) bucket m ≡ array (set_bucket index bucket m)
with_bucket-array index bucket m less =
    let e : 0 + bucket ≡ bucket = omega arith in
    with_bucket-slots index 0 index_buckets_num bucket m less
    ∙ ap (λ i. array (set_bucket index i m)) e

written_lem :
    (index : Index) (key : Bytes) (change : KeyDir → KeyDir)
    → write_access (array index) key change
      ≡ some (array (set_bucket index (get_bucket key) (change (index (get_bucket key)))))
unfolding write_access
written_lem index key change =
    let less = get_bucket-lt key in
    rw (bucket_at-array index (get_bucket key) less)
      (ap some (with_bucket-array index (get_bucket key) _ less))

read_lem :
    (index : Index) (j : Bytes)
    → Option.map (λ m. get m j) (read_access (array index) j) ≡ some (lookup index j)
unfolding read_access lookup
read_lem index j = rw (bucket_at-array index (get_bucket j) (get_bucket-lt j)) refl

-- On the array of sixteen maps no access is out of bounds, for whatever key: a read gives the map in
-- which `lookup` looks, and the array after an insert or a remove is the one of `put` and `delete`. An
-- entry that was put is seen at its key and at no other, and so is its removal.
pub array-access :
    (index : Index) (key j : Bytes) (e : IndexValue)
    → (Option.map (λ m. get m j) (read_access (array index) j) ≡ some (lookup index j))
      × (write_access (array index) key (λ m. insert m key e) ≡ some (array (put index key e)))
      × (write_access (array index) key (λ m. remove m key) ≡ some (array (delete index key)))
      × (Option.map (λ m. get m j) (read_access (array (put index key e)) j)
          ≡ some (if bytes_eq key j then some e else lookup index j))
      × (Option.map (λ m. get m j) (read_access (array (delete index key)) j)
          ≡ some (if bytes_eq key j then none else lookup index j))
unfolding put delete
array-access index key j e = (
  read_lem index j,
  written_lem index key _,
  written_lem index key _,
  read_lem (put index key e) j ∙ ap some (lookup-put index key j e),
  read_lem (delete index key) j ∙ ap some (lookup-delete index key j),
)
