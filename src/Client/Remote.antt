-- ===== src/Client/Remote.antt =====
-- A client of a server sees what a terminal on the store itself sees.
use bitcask.Prelude.{◌≡◌, refl, subst, Option, none, some, Bool, [], ◌∷◌, ◌++◌, append-nil}
use bitcask.Prelude.Bytes.{Bytes}
use bitcask.Error.{KvsError, Result, ok, err, key_not_found}
use bitcask.KvStore.{KvStore}
use bitcask.Network.Protocol.{
  Request, get_req, set_req, rm_req, Response, write_request, decode_response, execute,
}
use bitcask.Network.Protocol.RoundTrip.{
  IsSendable, IsAnswer, Arrives, decode_request-write_request, decode_response-write_response,
}
use bitcask.Server.{handle}
use bitcask.Server.Answers.{nothing_sent, request_sent, handle-Sent}
use bitcask.Repl.{ReplCommand, set_command, get_command, rm_command, run_command}
use bitcask.Client.{TcpStream, send, receive, call_result, call, run_remote}

abbrev pub stream_of : Bytes → Bytes → TcpStream
stream_of incoming outgoing = record { incoming = incoming; outgoing = outgoing }

-- The request of a command.
abbrev pub request_of : ReplCommand → Request
request_of (set_command key value) = set_req key value
request_of (get_command key) = get_req key
request_of (rm_command key) = rm_req key

call-Arrives :
    (req : Request) (resp : Response) (sent answer rest outgoing : Bytes)
    → write_request outgoing req ≡ ok (outgoing ++ sent)
    → Arrives decode_response answer resp
    → call req (stream_of (answer ++ rest) outgoing)
      ≡ call_result resp (stream_of rest (outgoing ++ sent))
unfolding call send receive
call-Arrives req resp sent answer rest outgoing written a =
    rw (call, send, written, receive, a.reads rest, a.decodes) refl

-- What a server on the store sends back to one request.
record Served {S : Type 0} (serve : Bytes → S → Option (Result (Unit {0}) × S × Bytes))
    (req : Request) (outgoing : Bytes) (resp : Response) (s t : S) : Type 0 where
  wire : Bytes
  answer : Bytes
  requested : write_request outgoing req ≡ ok (outgoing ++ wire)
  served : serve wire s ≡ some (ok tt, t, answer)
  arrives : Arrives decode_response answer resp

module _ {S : Type 0} (store : KvStore S) (lossy : Bytes → Bytes) (to_string : KvsError → Bytes)
    (drained : Bytes → Bool) where
  abbrev serve : Bytes → S → Option (Result (Unit {0}) × S × Bytes)
  serve = handle store lossy to_string drained

  serve-request :
      (req : Request) (outgoing : Bytes) (s : S)
      → IsSendable req
      → IsAnswer (execute store req s).0
      → Served serve req outgoing (execute store req s).0 s (execute store req s).1
  serve-request req outgoing s h a =
      let (wire, requested, arrives) = decode_request-write_request outgoing req h in
      let (answer, written, back) = decode_response-write_response [] (execute store req s).0 a in
      record {
        wire = wire;
        answer = answer;
        requested = requested;
        served =
            subst (λ wire. serve wire s ≡ some (ok tt, (execute store req s).1, answer))
              (append-nil wire)
              (handle-Sent store (req ∷ []) (wire ++ []) answer s
                (request_sent req [] wire [] arrives nothing_sent) (rw written refl) lossy to_string
                drained);
        arrives = back;
      }

  -- The result of the store is one that a client tells apart: it went through, or a key to be removed
  -- was not there.
  pub data Settles (s : S) : ReplCommand → Type 0 where
    set_went :
        (key value : Bytes) → (store.set key value s).0 ≡ ok tt → Settles s (set_command key value)
    get_went :
        (key : Bytes) (o : Option Bytes) → (store.get key s).0 ≡ ok o → Settles s (get_command key)
    rm_went : (key : Bytes) → (store.remove key s).0 ≡ ok tt → Settles s (rm_command key)
    rm_missing :
        (key : Bytes) → (store.remove key s).0 ≡ err key_not_found → Settles s (rm_command key)

  module _ (debug : Response → Bytes) where
    -- What a client prints for an answer of the store is what the terminal prints.
    shown :
        (c : ReplCommand) (s : S) (stream left : TcpStream)
        → Settles s c
        → call (request_of c) stream ≡ call_result (execute store (request_of c) s).0 left
        → (run_remote to_string debug c stream ≡ ((run_command to_string store c s).0, left))
          × ((execute store (request_of c) s).1 ≡ (run_command to_string store c s).1)
    unfolding run_remote run_command execute
    shown _ s stream left (set_went key value e) h =
        let back = rw (execute, e) at h in (rw (back, e) refl, refl)
    shown _ s stream left (get_went key none e) h =
        let back = rw (execute, e) at h in (rw (back, e) refl, refl)
    shown _ s stream left (get_went key (some v) e) h =
        let back = rw (execute, e) at h in (rw (back, e) refl, refl)
    shown _ s stream left (rm_went key e) h =
        let back = rw (execute, e) at h in (rw (back, e) refl, refl)
    shown _ s stream left (rm_missing key e) h =
        let back = rw (execute, e) at h in (rw (back, e) refl, refl)

    -- A command on the store: the client sends bytes to which the server on that store sends an answer
    -- back, with that answer the client prints the line that a terminal on the store itself prints,
    -- whatever else the connection carries, and the server leaves the store as that terminal does. The
    -- request and the response are texts within the limit, and the store does not fail, unless a key
    -- to be removed is missing.
    pub run_remote-run_command :
        (c : ReplCommand) (s : S) (outgoing rest : Bytes)
        → IsSendable (request_of c)
        → IsAnswer (execute store (request_of c) s).0
        → Settles s c
        → (wire : Bytes) × (answer : Bytes) × (serve wire s
            ≡ some (ok tt, (run_command to_string store c s).1, answer))
          × (run_remote to_string debug c (stream_of (answer ++ rest) outgoing)
              ≡ ((run_command to_string store c s).0, stream_of rest (outgoing ++ wire)))
    run_remote-run_command c s outgoing rest h a settles =
        let served = serve-request (request_of c) outgoing s h a in
        let (line, left) =
          shown c s (stream_of (served.answer ++ rest) outgoing)
            (stream_of rest (outgoing ++ served.wire)) settles
            (call-Arrives (request_of c) (execute store (request_of c) s).0 served.wire
              served.answer rest outgoing served.requested served.arrives) in
        (
          served.wire,
          served.answer,
          subst (λ t. serve served.wire s ≡ some (ok tt, t, served.answer)) left served.served,
          line,
        )
