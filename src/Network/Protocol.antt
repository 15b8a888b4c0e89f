-- ===== src/Network/Protocol.antt =====
-- network/protocol.rs: frames, requests and responses.
-- A reader is the bytes that the peer sent before it closed its side, a writer the bytes sent so
-- far; the other errors of a socket are not modelled. A `&str` is its bytes.
pub mod RoundTrip
pub mod Torn
use bitcask.Prelude.{
  ℕ, ◌+◌, ◌-◌, ◌*◌, ◌^◌, Option, none, some, [], ◌∷◌, ◌++◌, ltb, ◌==◌, if◌then◌else◌, length, take,
  drop,
}
use bitcask.Prelude.Bytes.{Bytes, codes}
use bitcask.Error.{
  Result, ok, err, KvsError, io, unexpected_eof, unexpected_command_type, invalid_data, utf8, ◌>>=◌,
}
use bitcask.KvStore.{KvStore}
use bitcask.Wire.{to_le_bytes, from_le_bytes, as_u32}
use bitcask.Utf8.{is_utf8}
use bitcask.Network.ErrorCode.{ErrorCode, code_byte, code_try_from, error_code, no_such_key}

abbrev pub max_payload : ℕ
max_payload = 16 * 2 ^ 20

abbrev pub req_get : ℕ
req_get = 0

abbrev pub req_set : ℕ
req_set = 1

abbrev pub req_rm : ℕ
req_rm = 2

abbrev pub resp_ok : ℕ
resp_ok = 0

abbrev pub resp_value : ℕ
resp_value = 1

abbrev pub resp_error : ℕ
resp_error = 2

pub data Request : Type 0 where
  get_req : (key : Bytes) → Request
  set_req : (key value : Bytes) → Request
  rm_req : (key : Bytes) → Request

pub data Response : Type 0 where
  done : Response
  found : Bytes → Response
  failed : ErrorCode → Response

abbrev too_large : KvsError
too_large = invalid_data (codes "payload too large")

abbrev short_set : KvsError
short_set = invalid_data (codes "short set payload")

-- `utf8`
unfoldable pub text : Bytes → Result Bytes
text b = if is_utf8 b then ok b else err (invalid_data (codes "invalid utf-8"))

-- `read_exact` of `len` bytes: those, and what the reader still holds; a short read is an error.
unfoldable pub read_exact : ℕ → Bytes → Result (Bytes × Bytes)
read_exact len reader =
    if ltb (length reader) len
    then err (io unexpected_eof)
    else ok (take len reader, drop len reader)

-- `none` is the peer's close between two frames.
unfoldable pub read_frame : Bytes → Result (Option (ℕ × Bytes) × Bytes)
unfolding read_exact
read_frame [] = ok (none, [])
read_frame (msg_type ∷ reader) = do
  (len_bytes, reader) ← read_exact 4 reader
  let len = from_le_bytes len_bytes
  if ltb max_payload len
      then err too_large
      else do (payload, reader) ← read_exact len reader; ok (some (msg_type, payload), reader)

-- The writer's bytes after the frame.
unfoldable pub write_frame : Bytes → ℕ → Bytes → Result Bytes
write_frame writer msg_type payload =
    if ltb (length payload) (2 ^ 32)
    then ok (writer ++ (msg_type ∷ (to_le_bytes 4 (length payload) ++ payload)))
    else err too_large

unfoldable pub write_request : Bytes → Request → Result Bytes
unfolding write_frame
write_request writer (get_req key) = write_frame writer req_get key
write_request writer (rm_req key) = write_frame writer req_rm key
write_request writer (set_req key value) =
    write_frame writer req_set (to_le_bytes 4 (as_u32 (length key)) ++ (key ++ value))

-- The payload of a set.
unfoldable pub decode_set : Bytes → Result Request
unfolding text
decode_set payload =
    let key_len = from_le_bytes (take 4 payload) in
    let rest = drop 4 payload in
    if ltb (length payload) 4
    then err short_set
    else if ltb (length rest) key_len
    then err short_set
    else do key ← text (take key_len rest); value ← text (drop key_len rest); ok (set_req key value)

unfoldable pub decode_request : ℕ → Bytes → Result Request
unfolding text decode_set
decode_request msg_type payload =
    if msg_type == req_get
    then (do key ← text payload; ok (get_req key))
    else if msg_type == req_rm
    then (do key ← text payload; ok (rm_req key))
    else if msg_type == req_set
    then decode_set payload
    else err unexpected_command_type

unfoldable pub write_response : Bytes → Response → Result Bytes
unfolding write_frame
write_response writer done = write_frame writer resp_ok []
write_response writer (found v) = write_frame writer resp_value v
write_response writer (failed code) = write_frame writer resp_error (code_byte code ∷ [])

-- The payload of an error.
unfoldable pub decode_code : Bytes → Result Response
decode_code [] = err (invalid_data (codes "missing error code"))
decode_code (b ∷ payload) = do code ← code_try_from b; ok (failed code)

unfoldable pub decode_response : ℕ → Bytes → Result Response
unfolding decode_code
decode_response msg_type payload =
    if msg_type == resp_ok
    then ok done
    else if msg_type == resp_value
    then (if is_utf8 payload then ok (found payload) else err utf8)
    else if msg_type == resp_error
    then decode_code payload
    else err unexpected_command_type

abbrev pub answer {ℓ} : {A : Type ℓ} → (A → Response) → Result A → Response
answer f (ok a) = f a
answer f (err e) = failed (error_code e)

-- What is answered to a value, or to none.
abbrev pub value_response : Option Bytes → Response
value_response none = failed no_such_key
value_response (some v) = found v

module _ {S : Type 0} (store : KvStore S) where
  unfoldable pub execute : Request → S → Response × S
  execute (get_req key) s = let (r, t) = store.get key s in (answer value_response r, t)
  execute (set_req key value) s = let (r, t) = store.set key value s in (answer (λ _. done) r, t)
  execute (rm_req key) s = let (r, t) = store.remove key s in (answer (λ _. done) r, t)
