-- ===== src/Server/Answers.antt =====
-- The server answers each request of a connection, in order.
use bitcask.Prelude.{
  ℕ, zero, suc, ◌<◌, ◌≡◌, refl, ◌∙◌, sym, subst, Option, some, Bool, false, List, [], ◌∷◌, ◌++◌,
  append_assoc, append-nil, arith, All, length, length-append, ltb, if◌then◌else◌,
}
use bitcask.Prelude.Bytes.{Bytes, codes}
use bitcask.Error.{KvsError, Result, ok, err, ◌>>=◌, ok-bind, refuse-ok, invalid_data}
use bitcask.Wire.{from_le_bytes}
use bitcask.KvStore.{KvStore}
use bitcask.Network.Protocol.{
  Request, Response, read_frame, read_exact, max_payload, decode_request, write_request,
  write_response, execute,
}
use bitcask.Network.Protocol.RoundTrip.{IsSendable, Arrives, decode_request-write_request}
use bitcask.Network.Resp.{is_resp}
use bitcask.Server.{respond, serve_loop, handle}

-- What a peer that sends these requests one after another has sent.
abbrev pub write_requests : Bytes → List Request → Result Bytes
write_requests writer [] = ok writer
write_requests writer (req ∷ reqs) = do
  writer ← write_request writer req
  write_requests writer reqs

abbrev pub write_responses : Bytes → List Response → Result Bytes
write_responses writer [] = ok writer
write_responses writer (resp ∷ resps) = do
  writer ← write_response writer resp
  write_responses writer resps

module _ {S : Type 0} (store : KvStore S) where
  -- The requests executed one after another.
  abbrev pub executed : List Request → S → List Response × S
  executed [] s = ([], s)
  executed (req ∷ reqs) s =
      let (resp, t) = execute store req s in let (resps, u) = executed reqs t in (resp ∷ resps, u)

-- The bytes of the requests, each as the server reads it.
pub data Sent : List Request → Bytes → Type 0 where
  nothing_sent : Sent [] []
  request_sent :
      (req : Request) (reqs : List Request) (sent rest : Bytes)
      → Arrives decode_request sent req
      → Sent reqs rest
      → Sent (req ∷ reqs) (sent ++ rest)

write_requests-Sent :
    (writer : Bytes) (reqs : List Request)
    → All IsSendable reqs
    → (wire : Bytes) × (write_requests writer reqs ≡ ok (writer ++ wire)) × Sent reqs wire
write_requests-Sent writer [] h = ([], rw append-nil refl, nothing_sent)
write_requests-Sent writer (req ∷ reqs) h =
    let (sent, written, arrives) = decode_request-write_request writer req h.0 in
    let (rest, all, s) = write_requests-Sent (writer ++ sent) reqs h.1 in
    (sent ++ rest, rw (written, all, append_assoc), request_sent req reqs sent rest arrives s)

-- The first byte of a request, which is none of the redis protocol's.
record Starts (sent : Bytes) : Type 0 where
  first : ℕ
  behind : Bytes
  bytes : sent ≡ first ∷ behind
  kind : is_resp first ≡ false

-- `read_frame` behind its first four bytes.
abbrev read_payload : ℕ → Bytes × Bytes → Result (Option (ℕ × Bytes) × Bytes)
read_payload b (len_bytes, reader) =
    if ltb max_payload (from_le_bytes len_bytes)
    then err (invalid_data (codes "payload too large"))
    else do
      (payload, reader) ← read_exact (from_le_bytes len_bytes) reader
      ok (some (b, payload), reader)

read_frame-first :
    (b msg_type : ℕ) (bs payload rest : Bytes)
    → read_frame (b ∷ bs) ≡ ok (some (msg_type, payload), rest)
    → b ≡ msg_type
unfolding read_frame
read_frame-first b msg_type bs payload rest e =
    ok-bind (read_exact 4 bs) (read_payload b) e λ (len_bytes, reader) exact f.
      let (small, g) =
        refuse-ok (ltb max_payload (from_le_bytes len_bytes))
          (invalid_data (codes "payload too large")) f in
      ok-bind (read_exact (from_le_bytes len_bytes) reader) (λ (p, r). ok (some (b, p), r)) g
        λ (p, r) last h. cc h

decode_request-kind :
    (msg_type : ℕ) (payload : Bytes) {req : Request}
    → decode_request msg_type payload ≡ ok req
    → is_resp msg_type ≡ false
unfolding decode_request is_resp
decode_request-kind msg_type payload e = ground (arith, e)

Arrives-Starts : (sent : Bytes) {req : Request} → Arrives decode_request sent req → Starts sent
unfolding read_frame
Arrives-Starts [] a = absurd (cc (a.reads []))
Arrives-Starts (b ∷ bs) a = record {
  first = b;
  behind = bs;
  bytes = refl;
  kind =
      rw (read_frame-first b a.msg_type (bs ++ []) a.payload [] (a.reads []))
        (decode_request-kind a.msg_type a.payload a.decodes);
}

module _ {S : Type 0} (store : KvStore S) where
  respond-request :
      (msg_type : ℕ) (payload : Bytes) (req : Request) (s : S)
      → decode_request msg_type payload ≡ ok req
      → respond store msg_type payload s ≡ execute store req s
  unfolding respond
  respond-request msg_type payload req s e = rw (respond, e) refl

  serve_loop_turn :
      (fuel : ℕ) (writer written reader rest : Bytes) (msg_type : ℕ) (payload : Bytes) (s : S)
      → read_frame reader ≡ ok (some (msg_type, payload), rest)
      → write_response writer (respond store msg_type payload s).0 ≡ ok written
      → serve_loop store (suc fuel) reader writer s
        ≡ serve_loop store fuel rest written (respond store msg_type payload s).1
  unfolding serve_loop
  serve_loop_turn fuel writer written reader rest msg_type payload s e w =
      rw (serve_loop, e, w) refl

  serve_loop-Sent :
      (fuel : ℕ) (reqs : List Request) (wire writer out : Bytes) (s : S)
      → Sent reqs wire
      → length wire < fuel
      → write_responses writer (executed store reqs s).0 ≡ ok out
      → serve_loop store fuel wire writer s ≡ some (ok tt, (executed store reqs s).1, out)
  unfolding serve_loop read_frame
  serve_loop-Sent zero reqs wire writer out s sent less e = absurd (omega arith)
  serve_loop-Sent (suc fuel) _ _ writer out s nothing_sent less e = cc e
  serve_loop-Sent (suc fuel) _ _ writer out s (request_sent req reqs sent rest a later) less e =
      let st = Arrives-Starts sent a in
      let (resp, t) = execute store req s in
      let size : length sent ≡ suc (length st.behind) = rw st.bytes refl in
      ok-bind (write_response writer resp) (λ w. write_responses w (executed store reqs t).0) e
        λ w written more.
          let same : respond store a.msg_type a.payload s ≡ (resp, t) =
            respond-request a.msg_type a.payload req s a.decodes in
          serve_loop_turn fuel writer w (sent ++ rest) rest a.msg_type a.payload s (a.reads rest)
            (subst (λ q. write_response writer q.0 ≡ ok w) (sym same) written)
          ∙ subst
              (λ q. serve_loop store fuel rest w q.1 ≡ some (ok tt, (executed store reqs t).1, out))
              (sym same)
              (serve_loop-Sent fuel reqs rest w out t later
                (omega (arith, length-append sent rest, size)) more)

  pub handle-Sent :
      (reqs : List Request) (wire out : Bytes) (s : S)
      → Sent reqs wire
      → write_responses [] (executed store reqs s).0 ≡ ok out
      → ((lossy : Bytes → Bytes) (to_string : KvsError → Bytes) (drained : Bytes → Bool)
          → handle store lossy to_string drained wire s
            ≡ some (ok tt, (executed store reqs s).1, out))
  unfolding handle
  handle-Sent _ _ out s nothing_sent e lossy to_string drained = cc e
  handle-Sent _ _ out s (request_sent req reqs sent rest a later) e lossy to_string drained =
      let st = Arrives-Starts sent a in
      let whole : sent ++ rest ≡ st.first ∷ (st.behind ++ rest) = rw st.bytes refl in
      rw (whole, handle, st.kind)
        (subst
          (λ wire.
            serve_loop store (suc (length wire)) wire [] s
            ≡ some (ok tt, (executed store (req ∷ reqs) s).1, out))
          whole
          (serve_loop-Sent (suc (length (sent ++ rest))) (req ∷ reqs) (sent ++ rest) [] out s
            (request_sent req reqs sent rest a later) (omega arith) e))

  -- A client that sends requests one after another, which are texts within the limit, and closes,
  -- gets the responses of the requests executed in that order, where each can be written, and the
  -- store is as that execution leaves it.
  pub handle-requests :
      (lossy : Bytes → Bytes) (to_string : KvsError → Bytes) (drained : Bytes → Bool)
      (reqs : List Request) (s : S) {out : Bytes}
      → All IsSendable reqs
      → write_responses [] (executed store reqs s).0 ≡ ok out
      → (wire : Bytes) × (write_requests [] reqs ≡ ok wire)
        × (handle store lossy to_string drained wire s
            ≡ some (ok tt, (executed store reqs s).1, out))
  handle-requests lossy to_string drained reqs s h e =
      let (wire, written, sent) = write_requests-Sent [] reqs h in
      (wire, written, handle-Sent reqs wire _ s sent e lossy to_string drained)
