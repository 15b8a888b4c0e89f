-- ===== src/SledStore.antt =====
-- storage/sled_store.rs, with the crate sled as a parameter: a database is a state `D`, and each call
-- may fail with an error of sled.
pub mod Refines
mod Tests
use bitcask.Prelude.{ℕ, Option, none, some, Bool, true, false, if◌then◌else◌}
use bitcask.Prelude.Bytes.{Bytes}
use bitcask.Error.{
  KvsError, Result, ok, err, IoErrorKind, io, corruption, invalid_data, key_not_found, utf8,
}
use bitcask.Exec.{Exec, ◌>>=◌, ◌>>◌, pure, raise, lift, when}
use bitcask.Config.{Config, DurabilityPolicy, sync_on_every_put, sync_on_interval, os_decides}
use bitcask.KvStore.{KvStore}
use bitcask.Utf8.{is_utf8}

-- What the code tells apart of sled::Error; the others show as their text.
pub data SledError : Type 0 where
  sled_io : IoErrorKind → SledError
  sled_corruption : SledError
  sled_other : Bytes → SledError

-- `KvsError::from(e)`
abbrev pub sled_error : SledError → KvsError
sled_error (sled_io k) = io k
sled_error sled_corruption = corruption
sled_error (sled_other text) = invalid_data text

pub data SledResult (A : Type 0) : Type 0 where
  sled_ok : A → SledResult A
  sled_err : SledError → SledResult A

-- The calls of sled::Db that the store makes. `insert` and `remove` return the value before.
pub record SledDb (D : Type 0) : Type 0 where
  pub insert : Bytes → Bytes → D → SledResult (Option Bytes) × D
  pub remove : Bytes → D → SledResult (Option Bytes) × D
  pub get : Bytes → D → SledResult (Option Bytes) × D
  pub flush : D → SledResult (Unit {0}) × D

pub record SledStore (D : Type 0) : Type 0 where
  pub db : D
  pub sync_every_put : Bool

-- `flush_every_ms` and `sync_every_put` of the configuration.
abbrev pub flush_every_ms : Config → Option ℕ
flush_every_ms config = elim config.durability_policy [
  | sync_on_interval ↦ some config.flush_threshold_millis
  | sync_on_every_put ↦ none
  | os_decides ↦ none
]

abbrev pub syncs_every_put : DurabilityPolicy → Bool
syncs_every_put sync_on_every_put = true
syncs_every_put sync_on_interval = false
syncs_every_put os_decides = false

-- `SledStore::open` behind the lock, by what opens a database.
unfoldable pub open_sled : {D : Type 0} → (Option ℕ → SledResult D) → Config → Result (SledStore D)
open_sled sled_open config = elim (sled_open (flush_every_ms config)) [
  | sled_err e ↦ err (sled_error e)
  | sled_ok db ↦ ok (record { db = db; sync_every_put = syncs_every_put config.durability_policy })
]

-- The `?` on a call of the database.
abbrev pub call_db : {D A : Type 0} → (D → SledResult A × D) → Exec (SledStore D) A
call_db m s =
    let (r, db) = m s.db in
    (elim r [ sled_ok a ↦ ok a | sled_err e ↦ err (sled_error e) ], record s { db = db })

-- A value is a String.
abbrev pub sled_value : Option Bytes → Result (Option Bytes)
sled_value none = ok none
sled_value (some v) = if is_utf8 v then ok (some v) else err utf8

module _ {D : Type 0} (sled : SledDb D) where
  abbrev pub flush_if_synced : Exec (SledStore D) (Unit {0})
  flush_if_synced s = when s.sync_every_put (call_db sled.flush) s

  unfoldable pub set_sled : Bytes → Bytes → Exec (SledStore D) (Unit {0})
  set_sled key value = do _ ← call_db (sled.insert key value); flush_if_synced

  unfoldable pub remove_sled : Bytes → Exec (SledStore D) (Unit {0})
  remove_sled key = do
    previous ← call_db (sled.remove key)
    elim previous [ some v ↦ flush_if_synced | none ↦ raise key_not_found ]

  unfoldable pub get_sled : Bytes → Exec (SledStore D) (Option Bytes)
  get_sled key = do value ← call_db (sled.get key); lift (sled_value value)

  abbrev pub sled_store : KvStore (SledStore D)
  sled_store = record { set = set_sled; remove = remove_sled; get = get_sled }
