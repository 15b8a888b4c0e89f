-- ===== src/KvStore.antt =====
-- storage/kvstore.rs: the interface of a store, and the store that is one of the two engines.
pub mod Reference
use bitcask.Prelude.{ℕ, Option}
use bitcask.Prelude.Bytes.{Bytes, codes}
use bitcask.Error.{Result, ok, ◌>>=◌}
use bitcask.Exec.{Exec}

-- The operations on an open store, on its state.
pub record KvStore (S : Type 0) : Type 0 where
  pub set : Bytes → Bytes → Exec S (Unit {0})
  pub remove : Bytes → Exec S (Unit {0})
  pub get : Bytes → Exec S (Option Bytes)

pub data StoreType : Type 0 where
  bitcask_type sled_type : StoreType

abbrev pub as_str : StoreType → Bytes
as_str bitcask_type = codes "bitcask"
as_str sled_type = codes "sled"

pub data Store (S T : Type 0) : Type 0 where
  bitcask_store : S → Store S T
  sled_store : T → Store S T

-- `Store::open`, by what opens each engine.
abbrev pub open_store : {S T : Type 0} → Result S → Result T → StoreType → Result (Store S T)
open_store bitcask sled bitcask_type = do s ← bitcask; ok (bitcask_store s)
open_store bitcask sled sled_type = do t ← sled; ok (sled_store t)

-- The result of a method, with its state put back.
abbrev pub back : {A S U : Type 0} → (S → U) → Result A × S → Result A × U
back f (r, s) = (r, f s)

module _ {S T : Type 0} (bitcask : KvStore S) (sled : KvStore T) where
  unfoldable pub set_store : Bytes → Bytes → Exec (Store S T) (Unit {0})
  set_store key value (bitcask_store s) = back bitcask_store (bitcask.set key value s)
  set_store key value (sled_store s) = back sled_store (sled.set key value s)

  unfoldable pub remove_store : Bytes → Exec (Store S T) (Unit {0})
  remove_store key (bitcask_store s) = back bitcask_store (bitcask.remove key s)
  remove_store key (sled_store s) = back sled_store (sled.remove key s)

  unfoldable pub get_store : Bytes → Exec (Store S T) (Option Bytes)
  get_store key (bitcask_store s) = back bitcask_store (bitcask.get key s)
  get_store key (sled_store s) = back sled_store (sled.get key s)

  abbrev pub store : KvStore (Store S T)
  store = record { set = set_store; remove = remove_store; get = get_store }
