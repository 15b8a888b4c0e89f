-- ===== src/Server/Tests.antt =====
-- A connection to a server on a map in memory.
use bitcask.Prelude.{◌≡◌, refl, some, false, Bool, List, [], ◌∷◌, arith}
use bitcask.Prelude.Bytes.{Bytes, codes, bytes_eq}
use bitcask.Prelude.Map
use bitcask.Prelude.Map.{Map, bytes_key}
use bitcask.Error.{KvsError, Result, ok}
use bitcask.Wire.{to_le_bytes}
use bitcask.Utf8.{is_utf8}
use bitcask.KvStore.{KvStore}
use bitcask.Network.Protocol.{Request, set_req, get_req, write_frame, write_response, execute}
use bitcask.Network.Protocol.RoundTrip.{set_text, get_text}
use bitcask.Server.{handle}
use bitcask.Server.Answers.{write_requests, write_responses, executed, handle-requests}
use bitcask.Server.Returns.{handle-returns}

abbrev in_memory : KvStore (Map Bytes Bytes)
in_memory = record {
  set = λ key value m. (ok tt, Map.insert m key value);
  remove = λ key m. (ok tt, Map.remove m key);
  get = λ key m. (ok (Map.get m key), m);
}

abbrev key : Bytes
key = codes "key"

abbrev value : Bytes
value = codes "value"

abbrev requests : List Request
requests = set_req key value ∷ get_req key ∷ []

-- Messages are not looked at.
abbrev same : Bytes → Bytes
same b = b

abbrev message : KvsError → Bytes
message e = codes "error"

abbrev never : Bytes → Bool
never b = false

-- `Ok`, and a value of five bytes.
abbrev replies : Bytes
replies = 0 ∷ 0 ∷ 0 ∷ 0 ∷ 0 ∷ 1 ∷ 5 ∷ 0 ∷ 0 ∷ 0 ∷ value

replies_lem : write_responses [] (executed in_memory requests []).0 ≡ ok replies
unfolding execute write_response write_frame to_le_bytes Map.insert Map.get Map.remove bytes_eq
replies_lem = refl

handle-requests_example :
    (wire : Bytes) × (write_requests [] requests ≡ ok wire)
    × (handle in_memory same message never wire []
        ≡ some (ok tt, (executed in_memory requests []).1, replies))
unfolding is_utf8
handle-requests_example =
    handle-requests in_memory same message never requests []
      (set_text key value refl refl (omega arith), (get_text key refl (omega arith), tt))
      replies_lem

-- A redis command that is cut off.
handle-returns_example :
    (r : Result (Unit {0}) × Map Bytes Bytes × Bytes) × (handle in_memory same message never
        (codes "*1")
        []
      ≡ some r)
handle-returns_example = handle-returns in_memory same message never (codes "*1") []
