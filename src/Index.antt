-- ===== src/Index.antt =====
-- storage/index.rs: the keydir, sixteen hash maps chosen by a hash of the key. A bucket's lock is the
-- last one that a thread takes and none panics with it, so the locks and their poisoning are not
-- modelled.
pub mod Lookup
use bitcask.Prelude.{
  ℕ, ◌*◌, ◌/◌, ◌%◌, ◌^◌, bit_xor, Option, none, some, List, zero, suc, ◌+◌, [], ◌∷◌, if◌then◌else◌,
  ◌==◌,
}
use mathlib.Core.Option
use bitcask.Prelude.Bytes.{Bytes}
use bitcask.Prelude.Map.{Map, get, insert, remove, bytes_key}
use bitcask.IndexValue.{IndexValue}

abbrev pub index_buckets_num : ℕ
index_buckets_num = 16

abbrev pub KeyDir : Type 0
KeyDir = Map Bytes IndexValue

-- The maps by position. `array` lists the sixteen that there are, and Index.Lookup shows that the
-- bounds checks of the source on that list never fail.
abbrev pub Index : Type 0
Index = ℕ → KeyDir

abbrev pub fnv_offset : ℕ
fnv_offset = 0xcbf29ce484222325

abbrev pub fnv_prime : ℕ
fnv_prime = 0x00000100000001b3

-- The loop over the key's bytes.
fnv_1a : ℕ → Bytes → ℕ
fnv_1a hash [] = hash
fnv_1a hash (byte ∷ key) = fnv_1a (bit_xor hash byte * fnv_prime % 2 ^ 64) key

unfoldable pub get_bucket : Bytes → ℕ
unfolding fnv_1a
get_bucket key =
    let hash = fnv_1a fnv_offset key in bit_xor (hash / 2 ^ 32) hash % index_buckets_num

-- `read_access(key)?.get(key)`
unfoldable pub lookup : Index → Bytes → Option IndexValue
lookup index key = get (index (get_bucket key)) key

-- `write_access(key)?` and a change of that map.
abbrev pub set_bucket : Index → ℕ → KeyDir → Index
set_bucket index bucket m i = if bucket == i then m else index i

unfoldable pub put : Index → Bytes → IndexValue → Index
put index key e = set_bucket index (get_bucket key) (insert (index (get_bucket key)) key e)

unfoldable pub delete : Index → Bytes → Index
delete index key = set_bucket index (get_bucket key) (remove (index (get_bucket key)) key)

abbrev pub empty : Index
empty i = []

abbrev pub slots : Index → ℕ → ℕ → List KeyDir
slots index start zero = []
slots index start (suc count) = index start ∷ slots index (start + 1) count

-- The array of the source.
abbrev pub array : Index → List KeyDir
array index = slots index 0 index_buckets_num

-- `self.index[bucket]`, which panics (`none`) out of range.
abbrev pub bucket_at : List KeyDir → ℕ → Option KeyDir
bucket_at [] bucket = none
bucket_at (m ∷ ms) zero = some m
bucket_at (m ∷ ms) (suc bucket) = bucket_at ms bucket

abbrev pub with_bucket : List KeyDir → ℕ → KeyDir → List KeyDir
with_bucket [] bucket m = []
with_bucket (_ ∷ ms) zero m = m ∷ ms
with_bucket (m' ∷ ms) (suc bucket) m = m' ∷ with_bucket ms bucket m

unfoldable pub read_access : List KeyDir → Bytes → Option KeyDir
read_access maps key = bucket_at maps (get_bucket key)

-- The array after a change of the map that `write_access` gives.
unfoldable pub write_access : List KeyDir → Bytes → (KeyDir → KeyDir) → Option (List KeyDir)
write_access maps key change =
    Option.map (λ m. with_bucket maps (get_bucket key) (change m)) (bucket_at maps (get_bucket key))
