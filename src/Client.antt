-- ===== src/Client.antt =====
-- bin/kvs-client.rs: `call`, the commands, and main on a connection that was opened. A TcpStream is the
-- bytes that are still to be read from the server and the bytes sent to it. `debug` is Debug of a
-- response.
pub mod Remote
mod Tests
use bitcask.Prelude.{ℕ, Option, none, some, List, [], ◌∷◌, ◌++◌, drop}
use bitcask.Prelude.Bytes.{Bytes, codes}
use bitcask.Error.{KvsError, Result, ok, err, io, unexpected_eof, key_not_found}
use bitcask.Exec.{Exec, ◌>>=◌, ◌>>◌, pure, raise, lift}
use bitcask.Network.ErrorCode.{kvs_error}
use bitcask.Network.Protocol.{
  Request, get_req, set_req, rm_req, Response, done, found, failed, read_frame, write_request,
  decode_response,
}
use bitcask.Repl.{
  ReplCommand, set_command, get_command, rm_command, Line, stdout, stderr, Input, print_help,
  printing, input_loop, error_line,
}

pub record TcpStream : Type 0 where
  pub incoming : Bytes
  pub outgoing : Bytes

-- `write_request` to the stream.
unfoldable pub send : Request → Exec TcpStream (Unit {0})
send req stream = elim (write_request stream.outgoing req) [
  | ok outgoing ↦ (ok tt, record stream { outgoing = outgoing })
  | err e ↦ (err e, stream)
]

-- What an error of `read_frame` leaves: a short read took everything, and a payload that is too large
-- was not read behind its header.
abbrev left_over : KvsError → Bytes → Bytes
left_over (io k) incoming = []
left_over e incoming = drop 5 incoming

-- `read_frame` from the stream.
unfoldable pub receive : Exec TcpStream (Option (ℕ × Bytes))
receive stream = elim (read_frame stream.incoming) [
  | ok (frame, incoming) ↦ (ok frame, record stream { incoming = incoming })
  | err e ↦ (err e, record stream { incoming = left_over e stream.incoming })
]

-- An error code in a response is an error of the call.
abbrev pub call_result : Response → Exec TcpStream Response
call_result (failed code) = raise (kvs_error code)
call_result resp = pure resp

unfoldable pub call : Request → Exec TcpStream Response
call req = do
  send req
  frame ← receive
  elim frame [
    | none ↦ raise (io unexpected_eof)
    | some (msg_type, payload) ↦ do resp ← lift (decode_response msg_type payload); call_result resp
  ]

module _ (to_string : KvsError → Bytes) (debug : Response → Bytes) where
  abbrev unexpected : Response → Line
  unexpected other = stderr (codes "Error: unexpected response " ++ debug other)

  -- What each command prints.
  abbrev pub show_set : Bytes → Bytes → Result Response → Line
  show_set key value (ok done) = stdout (codes "SET " ++ (key ++ (codes " = " ++ value)))
  show_set key value (ok other) = unexpected other
  show_set key value (err e) = error_line to_string e

  abbrev pub show_get : Result Response → Line
  show_get (ok (found value)) = stdout value
  show_get (ok other) = unexpected other
  show_get (err KvsError.key_not_found) = stdout (codes "Key not found")
  show_get (err e) = error_line to_string e

  abbrev pub show_rm : Bytes → Result Response → Line
  show_rm key (ok done) = stdout (codes "Removed key: " ++ key)
  show_rm key (ok other) = unexpected other
  show_rm key (err e) = error_line to_string e

  unfoldable pub run_remote : ReplCommand → TcpStream → Line × TcpStream
  run_remote (set_command key value) stream =
      let (r, t) = call (set_req key value) stream in (show_set key value r, t)
  run_remote (get_command key) stream = let (r, t) = call (get_req key) stream in (show_get r, t)
  run_remote (rm_command key) stream = let (r, t) = call (rm_req key) stream in (show_rm key r, t)

  -- main, on a connection: the loop is that of the other terminal.
  abbrev pub client : List Input → TcpStream → List Line × TcpStream
  client inputs stream = printing print_help (input_loop run_remote inputs stream)
