-- ===== src/Tests.antt =====
-- Runs of the record formats, the reader of records and the keydir, and the theorems at them.
use bitcask.Prelude.{◌≡◌, refl, none, some, [], ◌∷◌, ◌++◌, arith, length, take, drop, if◌then◌else◌}
use mathlib.Core.Option
use bitcask.Prelude.Bytes.{Bytes, bytes_eq}
use bitcask.Prelude.Map.{bytes_key, get, insert, remove}
use bitcask.Crc32.{Crc32, poly}
use bitcask.Error.{ok, err, io, unexpected_eof, corruption}
use bitcask.Wire.{to_le_bytes, from_le_bytes}
use bitcask.BytesUtil.{read_u32, read_u64, read_u8, read_bytes}
use bitcask.Command.{
  Command, body_len, serialize, deserialize, read_body, read_command, try_from, encoded_body_len,
}
use bitcask.Command.RoundTrip.{Fits, deserialize-serialize}
use bitcask.Command.Canonical.{serialize-deserialize}
use bitcask.Command.Torn.{deserialize_torn}
use bitcask.IndexValue.{
  IndexValue, serialize as serialize_hint, deserialize as deserialize_hint,
  read_body as read_hint_body,
}
use bitcask.IndexValue.RoundTrip.{Fits as FitsHint, deserialize-serialize_hint}
use bitcask.IndexValue.Canonical.{serialize-deserialize_hint}
use bitcask.RecordReader.{RecordReader, full_record, torn_tail, next_record, new}
use bitcask.RecordReader.Next.{IsSynced, next_record-frame, next_record-torn, serialize-IsFrame}
use bitcask.Index.{empty, lookup, put, delete, array, read_access, write_access}
use bitcask.Index.Lookup.{array-access}

instance abbrev crc : Crc32
crc = poly

-- What the formats call.
abbrev formats : Unit {0}
unfolding serialize deserialize read_body read_command try_from encoded_body_len body_len
    to_le_bytes from_le_bytes read_u32 read_u64 read_u8 read_bytes serialize_hint deserialize_hint
    read_hint_body next_record new
formats = tt

abbrev set_k : Command
set_k = Command.set 42 (107 ∷ []) (118 ∷ 119 ∷ [])

abbrev set_bytes : Bytes
set_bytes = serialize set_k

set_k-Fits : Fits set_k
unfolding formats
set_k-Fits = record { ts = omega arith; body = omega arith }

deserialize-serialize_example : deserialize (set_bytes ++ 9 ∷ []) ≡ ok (set_k, length set_bytes)
unfolding formats
deserialize-serialize_example = deserialize-serialize set_k (9 ∷ []) set_k-Fits (omega arith)

serialize-deserialize_example :
    (28 ≡ length set_bytes)
    × (set_bytes ++ 9 ∷ [] ≡ set_bytes ++ drop 28 (set_bytes ++ 9 ∷ []))
    × Fits set_k
unfolding formats
serialize-deserialize_example =
    serialize-deserialize (set_bytes ++ 9 ∷ []) (omega arith) {c = set_k} {n = 28} refl

deserialize_torn_example : deserialize (take 11 set_bytes) ≡ err (io unexpected_eof)
unfolding formats
deserialize_torn_example = deserialize_torn set_k 11 set_k-Fits (omega arith) (omega arith)

-- A flipped bit in the body, and a record that claims a type that there is not.
flipped : deserialize (take 20 set_bytes ++ (108 ∷ drop 21 set_bytes)) ≡ err corruption
unfolding formats
flipped = refl

abbrev hint : IndexValue
hint = record { file_id = 7; ts = 99; offset = 4096; len = 123 }

hint-Fits : FitsHint hint (107 ∷ [])
hint-Fits = record { ts = omega arith; offset = omega arith; len = omega arith; body = omega arith }

deserialize-serialize_hint_example :
    deserialize_hint (serialize_hint hint (107 ∷ []) ++ 1 ∷ []) 9
    ≡ ok (107 ∷ [], record hint { file_id = 9 }, length (serialize_hint hint (107 ∷ [])))
unfolding formats
deserialize-serialize_hint_example =
    deserialize-serialize_hint hint (107 ∷ []) (1 ∷ []) hint-Fits (omega arith) 9

serialize-deserialize_hint_example :
    (37 ≡ length (serialize_hint hint (107 ∷ [])))
    × (serialize_hint hint (107 ∷ []) ≡ serialize_hint hint (107 ∷ []) ++ [])
    × (hint.file_id ≡ 7)
    × FitsHint hint (107 ∷ [])
unfolding formats
serialize-deserialize_hint_example =
    serialize-deserialize_hint (serialize_hint hint (107 ∷ [])) (omega arith) 7 {key = 107 ∷ []}
      {e = hint} {n = 37} refl

abbrev log : RecordReader
log = record { reader = set_bytes ++ take 9 set_bytes; position = 0; file_len = 37 }

log-IsSynced : IsSynced log
unfolding formats
log-IsSynced = record { whole = refl; fits = omega arith }

next_record-frame_example :
    next_record log
    ≡ (full_record 0 set_bytes, record log { reader = take 9 set_bytes; position = 28 })
unfolding formats
next_record-frame_example =
    next_record-frame log log-IsSynced set_bytes (take 9 set_bytes) refl
      (serialize-IsFrame set_k set_k-Fits)

abbrev tail : RecordReader
tail = record { reader = take 9 set_bytes; position = 28; file_len = 37 }

next_record-torn_example : (next_record tail).0 ≡ torn_tail 28
unfolding formats
next_record-torn_example =
    next_record-torn tail (record { whole = refl; fits = omega arith }) (omega arith) (omega arith)

array-access_example :
    (Option.map (λ m. get m (2 ∷ [])) (read_access (array empty) (2 ∷ []))
      ≡ some (lookup empty (2 ∷ [])))
    × (write_access (array empty) (1 ∷ []) (λ m. insert m (1 ∷ []) hint)
        ≡ some (array (put empty (1 ∷ []) hint)))
    × (write_access (array empty) (1 ∷ []) (λ m. remove m (1 ∷ []))
        ≡ some (array (delete empty (1 ∷ []))))
    × (Option.map (λ m. get m (2 ∷ [])) (read_access (array (put empty (1 ∷ []) hint)) (2 ∷ []))
        ≡ some (if bytes_eq (1 ∷ []) (2 ∷ []) then some hint else lookup empty (2 ∷ [])))
    × (Option.map (λ m. get m (2 ∷ [])) (read_access (array (delete empty (1 ∷ []))) (2 ∷ []))
        ≡ some (if bytes_eq (1 ∷ []) (2 ∷ []) then none else lookup empty (2 ∷ [])))
array-access_example = array-access empty (1 ∷ []) (2 ∷ []) hint
