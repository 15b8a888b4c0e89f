-- ===== src/Bitcask/Engine/Served.antt =====
-- A connection to the server on the engine: the client sees a map.
use bitcask.Prelude.{
  ◌+◌, ◌^◌, ◌<◌, ◌≡◌, ap, ◌∙◌, some, Option, Bool, List, [], ◌∷◌, All, arith, length,
}
use bitcask.Prelude.Bytes.{Bytes}
use bitcask.Crc32.{Crc32}
use bitcask.Error.{KvsError, Result, ok}
use bitcask.KvStore.Reference.{reference}
use bitcask.Network.Protocol.{Request}
use bitcask.Network.Protocol.RoundTrip.{IsSendable, get_text, set_text, rm_text}
use bitcask.Server.{handle}
use bitcask.Server.Answers.{write_requests, write_responses, executed, handle-requests}
use bitcask.Bitcask.State.{Shared, Env}
use bitcask.Bitcask.Invariant.{IsValid}
use bitcask.Bitcask.Calm.{IsCalm}
use bitcask.Bitcask.Engine.{engine, values}
use bitcask.Bitcask.Engine.Refines.{IsLoggable, weights, executed-engine}

-- What fits a frame fits a record.
IsSendable-IsLoggable : (req : Request) → IsSendable req → IsLoggable req
IsSendable-IsLoggable _ (get_text key k small) = tt
IsSendable-IsLoggable _ (set_text key value k v small) = record { body = omega arith; text = v }
IsSendable-IsLoggable _ (rm_text key k small) = omega arith

All-IsLoggable : (reqs : List Request) → All IsSendable reqs → All IsLoggable reqs
All-IsLoggable [] h = tt
All-IsLoggable (req ∷ reqs) h = (IsSendable-IsLoggable req h.0, All-IsLoggable reqs h.1)

module _ ⦃crc32 : Crc32⦄ ⦃env : Env⦄ (calm : IsCalm env) (spin : Result (Option Bytes)) where
  -- A client that sends requests to the server on the engine, which are texts within the limit, and
  -- closes: the server sends the responses of the map from keys to values that the valid state stands
  -- for, where each can be written, and leaves a valid state, which stands for the map that is left.
  -- The system does not fail, the counters do not wrap, and no other thread uses the store.
  pub handle-engine :
      (lossy : Bytes → Bytes) (to_string : KvsError → Bytes) (drained : Bytes → Bool)
      (reqs : List Request) {s : Shared} {out : Bytes}
      → IsValid s
      → All IsSendable reqs
      → s.writer.current_file_id + length reqs < 2 ^ 64
      → s.writer.offset + weights reqs < 2 ^ 64
      → write_responses [] (executed reference reqs (values s)).0 ≡ ok out
      → (wire : Bytes) × (t : Shared) × (write_requests [] reqs ≡ ok wire)
        × (handle (engine spin) lossy to_string drained wire s ≡ some (ok tt, t, out))
        × (values t ≡ (executed reference reqs (values s)).1)
        × IsValid t
  handle-engine lossy to_string drained reqs {s} {out} v h ids offsets w =
      let (responses, view, valid) =
        executed-engine calm spin reqs v (All-IsLoggable reqs h) ids offsets in
      let (wire, sent, handled) =
        handle-requests (engine spin) lossy to_string drained reqs s h
          (ap (write_responses []) responses ∙ w) in
      (wire, (executed (engine spin) reqs s).1, sent, handled, view, valid)
