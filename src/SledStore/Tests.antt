-- ===== src/SledStore/Tests.antt =====
-- Sled as a map in memory.
use bitcask.Prelude.{◌≡◌, refl, none, some, true, List, [], ◌∷◌}
use bitcask.Prelude.Bytes.{Bytes, codes}
use bitcask.KvStore.Reference.{Values, update, reference}
use bitcask.Utf8.{is_utf8}
use bitcask.Network.Protocol.{Request, get_req, set_req, rm_req}
use bitcask.Server.Answers.{executed}
use bitcask.SledStore.{SledDb, sled_ok, SledStore, sled_store}
use bitcask.SledStore.Refines.{IsMap, executed-sled}

abbrev in_memory : SledDb Values
in_memory = record {
  insert = λ key value m. (sled_ok (m key), update key (some value) m);
  remove = λ key m. (sled_ok (m key), update key none m);
  get = λ key m. (sled_ok (m key), m);
  flush = λ m. (sled_ok tt, m);
}

abbrev values_of : Values → Values
values_of m = m

in_memory-IsMap : IsMap in_memory values_of
in_memory-IsMap = record {
  insert_does = λ key value m. record { result = refl; values = refl };
  remove_does = λ key m. record { result = refl; values = refl };
  get_does = λ key m. record { result = refl; values = refl };
  flush_does = λ m. record { result = refl; values = refl };
}

abbrev key : Bytes
key = codes "key"

abbrev requests : List Request
requests = set_req key (codes "value") ∷ rm_req key ∷ rm_req key ∷ get_req key ∷ []

abbrev empty : SledStore Values
empty = record { db = λ j. none; sync_every_put = true }

executed-sled_example :
    ((executed (sled_store in_memory) requests empty).0
      ≡ (executed reference requests (values_of empty.db)).0)
    × (values_of (executed (sled_store in_memory) requests empty).1.db
        ≡ (executed reference requests (values_of empty.db)).1)
unfolding is_utf8
executed-sled_example =
    executed-sled in_memory values_of in_memory-IsMap requests empty (refl, (tt, (tt, (tt, tt))))
      (λ j v e. absurd (cc e))
