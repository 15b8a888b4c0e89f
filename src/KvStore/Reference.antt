-- ===== src/KvStore/Reference.antt =====
-- What a store promises: it is a map from keys to values.
use bitcask.Prelude.{Option, none, some, if◌then◌else◌}
use bitcask.Prelude.Bytes.{Bytes, bytes_eq}
use bitcask.Error.{ok, err, key_not_found}
use bitcask.KvStore.{KvStore}

abbrev pub Values : Type 0
Values = Bytes → Option Bytes

abbrev pub update : Bytes → Option Bytes → Values → Values
update key value m j = if bytes_eq key j then value else m j

abbrev pub reference : KvStore Values
reference = record {
  set = λ key value m. (ok tt, update key (some value) m);
  remove =
      λ key m. elim (m key) [ none ↦ (err key_not_found, m) | some v ↦ (ok tt, update key none m) ];
  get = λ key m. (ok (m key), m);
}
