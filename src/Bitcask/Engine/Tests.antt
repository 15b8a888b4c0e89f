-- ===== src/Bitcask/Engine/Tests.antt =====
-- Requests to the engine on a small state, and over a connection.
use bitcask.Prelude.{◌<◌, ◌≤◌, ◌+◌, ◌^◌, ◌≡◌, refl, some, List, [], ◌∷◌, All, arith, Bool, false}
use bitcask.Prelude.Bytes.{Bytes}
use bitcask.Error.{KvsError, ok, err, lock_poisoned}
use bitcask.KvStore.Reference.{reference}
use bitcask.Network.Protocol.{
  Request, get_req, set_req, rm_req, write_response, write_frame, execute,
}
use bitcask.Network.Protocol.RoundTrip.{IsSendable, get_text, rm_text}
use bitcask.Utf8.{is_utf8}
use bitcask.Server.{handle}
use bitcask.Server.Answers.{write_requests, write_responses, executed}
use bitcask.Bitcask.State.{Shared}
use bitcask.Bitcask.Invariant.{IsValid}
use bitcask.Bitcask.Published.{HasSpace}
use bitcask.Bitcask.Tests.{crc, calm, calm-IsCalm, k1, v1, one_key, one_key-IsValid, runs}
use bitcask.Bitcask.Engine.{engine, values}
use bitcask.Bitcask.Engine.Refines.{IsLoggable, weights, executed-engine, executed-engine_bounds}
use bitcask.Bitcask.Engine.Served.{handle-engine}

-- `k1` is there, and is removed twice.
abbrev requests : List Request
requests = get_req k1 ∷ rm_req k1 ∷ rm_req k1 ∷ set_req v1 k1 ∷ get_req v1 ∷ []

requests-All : All IsLoggable requests
unfolding is_utf8
requests-All =
    (tt, (omega arith, (omega arith, (record { body = omega arith; text = refl }, (tt, tt)))))

one_key-room :
    (one_key.writer.current_file_id + 5 < 2 ^ 64)
    × (one_key.writer.offset + weights requests < 2 ^ 64)
    × HasSpace one_key
unfolding runs
one_key-room = (omega arith, omega arith, omega arith)

executed-engine_example :
    ((executed (engine (err lock_poisoned)) requests one_key).0
      ≡ (executed reference requests (values one_key)).0)
    × (values (executed (engine (err lock_poisoned)) requests one_key).1
        ≡ (executed reference requests (values one_key)).1)
    × IsValid (executed (engine (err lock_poisoned)) requests one_key).1
executed-engine_example =
    executed-engine calm-IsCalm (err lock_poisoned) requests one_key-IsValid requests-All
      (one_key-room.0) (one_key-room.1)

executed-engine_bounds_example :
    HasSpace (executed (engine (err lock_poisoned)) requests one_key).1
    × ((executed (engine (err lock_poisoned)) requests one_key).1.writer.current_file_id
        ≤ one_key.writer.current_file_id + 5)
executed-engine_bounds_example =
    executed-engine_bounds calm-IsCalm (err lock_poisoned) requests one_key-IsValid requests-All
      (one_key-room.0) one_key-room.1 one_key-room.2

abbrev asked : List Request
asked = get_req k1 ∷ rm_req k1 ∷ []

-- The value that is there, and `Ok`.
abbrev replies : Bytes
replies = 1 ∷ 2 ∷ 0 ∷ 0 ∷ 0 ∷ 118 ∷ 49 ∷ 0 ∷ 0 ∷ 0 ∷ 0 ∷ 0 ∷ []

replies_lem : write_responses [] (executed reference asked (values one_key)).0 ≡ ok replies
unfolding runs execute write_response write_frame
replies_lem = refl

asked-All : All IsSendable asked
unfolding is_utf8
asked-All = (get_text k1 refl (omega arith), (rm_text k1 refl (omega arith), tt))

asked-room : one_key.writer.offset + weights asked < 2 ^ 64
unfolding runs
asked-room = omega arith

-- Messages are not looked at.
abbrev same : Bytes → Bytes
same b = b

abbrev message : KvsError → Bytes
message e = []

abbrev never : Bytes → Bool
never b = false

handle-engine_example :
    (wire : Bytes) × (t : Shared) × (write_requests [] asked ≡ ok wire)
    × (handle (engine (err lock_poisoned)) same message never wire one_key
        ≡ some (ok tt, t, replies))
    × (values t ≡ (executed reference asked (values one_key)).1)
    × IsValid t
handle-engine_example =
    handle-engine calm-IsCalm (err lock_poisoned) same message never asked one_key-IsValid asked-All
      (omega (arith, (one_key-room.0))) asked-room replies_lem
