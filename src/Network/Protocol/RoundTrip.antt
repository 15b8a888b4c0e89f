-- ===== src/Network/Protocol/RoundTrip.antt =====
-- What one side of a connection writes, the other side reads.
use bitcask.Prelude.{
  ℕ, ◌+◌, ◌^◌, ◌≤◌, ◌<◌, ◌≡◌, refl, true, some, [], ◌∷◌, ◌++◌, arith, length, length-append,
  append_assoc, take-append, drop-append, le→ltb, lt→ltb,
}
use bitcask.Prelude.Bytes.{Bytes}
use bitcask.Error.{Result, ok}
use bitcask.Wire.{to_le_bytes, as_u32}
use bitcask.Wire.Laws.{length-to_le_bytes, from_le_bytes-to_le_bytes}
use bitcask.Utf8.{is_utf8}
use bitcask.Network.ErrorCode.{ErrorCode, code_byte, code_try_from}
use bitcask.Network.Protocol.{
  max_payload, req_get, req_set, req_rm, resp_ok, resp_value, resp_error, Request, get_req, set_req,
  rm_req, Response, done, found, failed, text, read_exact, read_frame, write_frame, write_request,
  decode_set, decode_request, write_response, decode_code, decode_response,
}

-- A frame as it stands on the wire.
abbrev pub frame : ℕ → Bytes → Bytes
frame msg_type payload = msg_type ∷ (to_le_bytes 4 (length payload) ++ payload)

-- A reader that starts with the bytes asked for.
pub read_exact-append : (xs rest : Bytes) → read_exact (length xs) (xs ++ rest) ≡ ok (xs, rest)
unfolding read_exact
read_exact-append xs rest = rw (
  le→ltb (length (xs ++ rest)) (length xs) (omega (arith, length-append xs rest)),
  take-append,
  drop-append,
)

pub read_exact-u32 :
    (n : ℕ) (rest : Bytes) → read_exact 4 (to_le_bytes 4 n ++ rest) ≡ ok (to_le_bytes 4 n, rest)
read_exact-u32 n rest = rw (length-to_le_bytes 4 n) at (read_exact-append (to_le_bytes 4 n) rest)

pub read_frame-frame :
    (msg_type : ℕ) (payload rest : Bytes)
    → length payload ≤ max_payload
    → read_frame (frame msg_type payload ++ rest) ≡ ok (some (msg_type, payload), rest)
unfolding read_frame
read_frame-frame msg_type payload rest small = rw (
  append_assoc,
  read_exact-u32,
  from_le_bytes-to_le_bytes 4 (length payload) (omega arith),
  le→ltb max_payload (length payload) small,
  read_exact-append,
)

pub write_frame-frame :
    (writer : Bytes) (msg_type : ℕ) (payload : Bytes)
    → length payload ≤ max_payload
    → write_frame writer msg_type payload ≡ ok (writer ++ frame msg_type payload)
unfolding write_frame
write_frame-frame writer msg_type payload small =
    rw (lt→ltb (length payload) (2 ^ 32) (omega arith))

-- Keys and values are `&str`, and a payload that is larger than the reader takes is not sent.
pub data IsSendable : Request → Type 0 where
  get_text :
      (key : Bytes) → is_utf8 key ≡ true → length key ≤ max_payload → IsSendable (get_req key)
  set_text :
      (key value : Bytes)
      → is_utf8 key ≡ true
      → is_utf8 value ≡ true
      → 4 + length key + length value ≤ max_payload
      → IsSendable (set_req key value)
  rm_text : (key : Bytes) → is_utf8 key ≡ true → length key ≤ max_payload → IsSendable (rm_req key)

decode_set-fields :
    (key value : Bytes)
    → is_utf8 key ≡ true
    → is_utf8 value ≡ true
    → length key < 2 ^ 32
    → decode_set (to_le_bytes 4 (as_u32 (length key)) ++ (key ++ value)) ≡ ok (set_req key value)
unfolding decode_set text to_le_bytes
decode_set-fields key value k v small =
    let e : as_u32 (length key) ≡ length key = omega arith in
    rw (
      e,
      le→ltb (length (to_le_bytes 4 (length key) ++ (key ++ value))) 4 (
          omega
            (arith, length-append (to_le_bytes 4 (length key)) (key ++ value), length-to_le_bytes)),
      from_le_bytes-to_le_bytes 4 (length key) small,
      le→ltb (length (key ++ value)) (length key) (omega (arith, length-append key value)),
      take-append,
      drop-append,
      k,
      v,
    )

-- What a peer that reads the bytes gets, and what they leave for the next read.
pub record Arrives {ℓ} {A : Type ℓ} (decode : ℕ → Bytes → Result A) (sent : Bytes) (a : A)
    : Type ℓ where
  pub msg_type : ℕ
  pub payload : Bytes
  pub reads : (rest : Bytes) → read_frame (sent ++ rest) ≡ ok (some (msg_type, payload), rest)
  pub decodes : decode msg_type payload ≡ ok a

-- A request that is sent is appended to what the connection carries, and the server reads from those
-- bytes, whatever follows them, one frame that decodes to the same request.
pub decode_request-write_request :
    (writer : Bytes) (req : Request)
    → IsSendable req
    → (sent : Bytes) × (write_request writer req ≡ ok (writer ++ sent))
      × Arrives decode_request sent req
unfolding write_request decode_request text
decode_request-write_request writer _ (get_text key k small) = (
  frame req_get key,
  write_frame-frame writer req_get key small,
  record {
    msg_type = req_get;
    payload = key;
    reads = λ rest. read_frame-frame req_get key rest small;
    decodes = rw k;
  },
)
decode_request-write_request writer _ (rm_text key k small) = (
  frame req_rm key,
  write_frame-frame writer req_rm key small,
  record {
    msg_type = req_rm;
    payload = key;
    reads = λ rest. read_frame-frame req_rm key rest small;
    decodes = rw k;
  },
)
decode_request-write_request writer _ (set_text key value k v small) =
    let payload : Bytes = to_le_bytes 4 (as_u32 (length key)) ++ (key ++ value) in
    let fits : length payload ≤ max_payload = omega (
      arith,
      length-append (to_le_bytes 4 (as_u32 (length key))) (key ++ value),
      length-append key value,
      length-to_le_bytes,
    ) in
    (
      frame req_set payload,
      write_frame-frame writer req_set payload fits,
      record {
        msg_type = req_set;
        payload = payload;
        reads = λ rest. read_frame-frame req_set payload rest fits;
        decodes = decode_set-fields key value k v (omega arith);
      },
    )

pub data IsAnswer : Response → Type 0 where
  done_answer : IsAnswer done
  found_answer : (v : Bytes) → is_utf8 v ≡ true → length v ≤ max_payload → IsAnswer (found v)
  failed_answer : (code : ErrorCode) → IsAnswer (failed code)

code_try_from-code_byte : (code : ErrorCode) → code_try_from (code_byte code) ≡ ok code
unfolding code_try_from
code_try_from-code_byte ErrorCode.no_such_key = refl
code_try_from-code_byte ErrorCode.internal = refl
code_try_from-code_byte ErrorCode.invalid_request = refl

-- A response that is sent is appended to what the connection carries, and the client reads from those
-- bytes, whatever follows them, one frame that decodes to the same response.
pub decode_response-write_response :
    (writer : Bytes) (resp : Response)
    → IsAnswer resp
    → (sent : Bytes) × (write_response writer resp ≡ ok (writer ++ sent))
      × Arrives decode_response sent resp
unfolding write_response decode_response decode_code
decode_response-write_response writer _ done_answer = (
  frame resp_ok [],
  write_frame-frame writer resp_ok [] (omega arith),
  record {
    msg_type = resp_ok;
    payload = [];
    reads = λ rest. read_frame-frame resp_ok [] rest (omega arith);
    decodes = refl;
  },
)
decode_response-write_response writer _ (found_answer v t small) = (
  frame resp_value v,
  write_frame-frame writer resp_value v small,
  record {
    msg_type = resp_value;
    payload = v;
    reads = λ rest. read_frame-frame resp_value v rest small;
    decodes = rw t;
  },
)
decode_response-write_response writer _ (failed_answer code) = (
  frame resp_error (code_byte code ∷ []),
  write_frame-frame writer resp_error (code_byte code ∷ []) (omega arith),
  record {
    msg_type = resp_error;
    payload = code_byte code ∷ [];
    reads = λ rest. read_frame-frame resp_error (code_byte code ∷ []) rest (omega arith);
    decodes = rw code_try_from-code_byte;
  },
)
