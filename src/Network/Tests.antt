-- ===== src/Network/Tests.antt =====
-- Frames, requests and responses on the wire.
use bitcask.Prelude.{some, ◌≡◌, refl, [], ◌∷◌, ◌++◌, arith, take}
use bitcask.Prelude.Bytes.{Bytes, codes}
use bitcask.Error.{ok, err, io, unexpected_eof}
use bitcask.Wire.{to_le_bytes}
use bitcask.Utf8.{is_utf8}
use bitcask.Network.Protocol.{
  set_req, found, read_frame, write_request, decode_request, write_response, decode_response,
}
use bitcask.Network.Protocol.RoundTrip.{
  Arrives, frame, set_text, found_answer, decode_request-write_request,
  decode_response-write_response,
}
use bitcask.Network.Protocol.Torn.{read_frame_torn}
use bitcask.Network.Resp.{bulk_string}
use bitcask.Network.Resp.Parse.{parse_resp}
use bitcask.Network.Resp.Reply.{write_bulk}
use bitcask.Network.Resp.RoundTrip.{parse_resp-write_bulk}

abbrev key : Bytes
key = codes "key"

abbrev value : Bytes
value = codes "value"

decode_request-write_request_example :
    (sent : Bytes) × (write_request (1 ∷ 2 ∷ []) (set_req key value) ≡ ok ((1 ∷ 2 ∷ []) ++ sent))
    × Arrives decode_request sent (set_req key value)
unfolding is_utf8
decode_request-write_request_example =
    decode_request-write_request (1 ∷ 2 ∷ []) (set_req key value)
      (set_text key value refl refl (omega arith))

decode_response-write_response_example :
    (sent : Bytes) × (write_response [] (found value) ≡ ok ([] ++ sent))
    × Arrives decode_response sent (found value)
unfolding is_utf8
decode_response-write_response_example =
    decode_response-write_response [] (found value) (found_answer value refl (omega arith))

read_frame_torn_example : read_frame (take 6 (frame 0 key)) ≡ err (io unexpected_eof)
unfolding to_le_bytes
read_frame_torn_example = read_frame_torn 0 key 6 (omega arith) (omega arith) (omega arith)

parse_resp-write_bulk_example : parse_resp (write_bulk value) ≡ ok (bulk_string (some value))
parse_resp-write_bulk_example = parse_resp-write_bulk value (omega arith)
