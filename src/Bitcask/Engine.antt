-- ===== src/Bitcask/Engine.antt =====
-- storage/bitcask.rs: the engine as a store, used by one thread at a time on a system in which no call
-- fails. Requests to it are answered as by a map from keys to values.
pub mod Refines
pub mod Served
mod Tests
use bitcask.Prelude.{Option, none, some}
use bitcask.Prelude.Bytes.{Bytes}
use bitcask.Crc32.{Crc32}
use bitcask.Error.{Result, ok, err}
use bitcask.KvStore.{KvStore}
use bitcask.KvStore.Reference.{Values}
use bitcask.Bitcask.State.{Shared, Env}
use bitcask.Bitcask.Write.{set, remove}
use bitcask.Bitcask.Published.{get}

-- The result of a call that came back, or `spin` in place of one that goes round for ever.
abbrev pub came_back {ℓ} : {A : Type ℓ} → A → Option A → A
came_back spin none = spin
came_back spin (some r) = r

module _ ⦃crc32 : Crc32⦄ where
  module _ ⦃env : Env⦄ where
    -- What is shown of it holds whatever `spin` is, so on a valid state no `get` goes round for ever.
    abbrev pub engine : Result (Option Bytes) → KvStore Shared
    engine spin = record {
      set = set;
      remove = remove;
      get = λ key s. (came_back spin (get s key), s);
    }

  abbrev pub value_in : Option (Result (Option Bytes)) → Option Bytes
  value_in none = none
  value_in (some (ok value)) = value
  value_in (some (err e)) = none

  -- The map that a state stands for.
  abbrev pub values : Shared → Values
  values s key = value_in (get s key)
