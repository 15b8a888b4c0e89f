-- ===== src/Server.antt =====
-- bin/kvs-server.rs: `handle` and `handle_resp`, one connection. A reader is the bytes that the peer
-- sent before it closed its side. A loop over it is on fuel, and `none` says that it was still going
-- round at its end. The results hold the store and what was written, which an error leaves there: a
-- BufWriter flushes when it is dropped. The listener and its threads are not modelled.
pub mod Answers
pub mod Returns
mod Tests
use bitcask.Prelude.{ℕ, zero, suc, Option, none, some, Bool, [], ◌∷◌, ◌++◌, if◌then◌else◌, length}
use bitcask.Prelude.Bytes.{Bytes}
use bitcask.Error.{KvsError, Result, ok, err}
use bitcask.KvStore.{KvStore}
use bitcask.Network.ErrorCode.{invalid_request}
use bitcask.Network.Protocol.{Response, failed, read_frame, decode_request, write_response, execute}
use bitcask.Network.Resp.{kv, config_get, command_of, is_resp, read_frame_resp}
use bitcask.Network.Resp.Parse.{decode_request_resp}
use bitcask.Network.Resp.Reply.{
  write_error, write_response_resp, write_config_get, decode_error_message,
}

-- A BufWriter: what it has passed on, and what it may still hold back.
pub record BufWriter : Type 0 where
  pub sent : Bytes
  pub held : Bytes

abbrev pub flush : BufWriter → BufWriter
flush w = record { sent = w.sent ++ w.held; held = [] }

abbrev pub hold : (Bytes → Bytes) → BufWriter → BufWriter
hold f w = record { sent = w.sent; held = f w.held }

module _ {S : Type 0} (store : KvStore S) where
  -- The answer to one frame.
  unfoldable pub respond : ℕ → Bytes → S → Response × S
  respond msg_type payload s = elim (decode_request msg_type payload) [
    | ok req ↦ execute store req s
    | err e ↦ (failed invalid_request, s)
  ]

  unfoldable pub serve_loop : ℕ → Bytes → Bytes → S → Option (Result (Unit {0}) × S × Bytes)
  serve_loop zero reader writer s = none
  serve_loop (suc fuel) reader writer s = elim (read_frame reader) [
    | err e ↦ some (err e, s, writer)
    | ok (none, reader) ↦ some (ok tt, s, writer)
    | ok (some (msg_type, payload), reader) ↦
        let (resp, t) = respond msg_type payload s in
        elim (write_response writer resp) [
          | err e ↦ some (err e, t, writer)
          | ok writer ↦ serve_loop fuel reader writer t
        ]
  ]

  -- `drained` says whether the buffer of the reader is empty when this much is still to be read.
  module _ (lossy : Bytes → Bytes) (to_string : KvsError → Bytes) (drained : Bytes → Bool) where
    -- The answer to one frame, written.
    unfoldable pub reply_resp : Bytes → BufWriter → S → BufWriter × S
    reply_resp frame w s = elim (decode_request_resp lossy frame) [
      | ok (kv req) ↦
          let (resp, t) = execute store req s in
          (hold (λ b. write_response_resp b (command_of req) resp) w, t)
      | ok (config_get names) ↦ (hold (λ b. write_config_get b names) w, s)
      | err e ↦ (hold (λ b. write_error b (decode_error_message to_string e)) w, s)
    ]

    abbrev pub flush_if_drained : Bytes → BufWriter → BufWriter
    flush_if_drained reader w = if drained reader then flush w else w

    unfoldable pub resp_loop :
        ℕ → Bytes → BufWriter → S → Option (Result (Unit {0}) × S × BufWriter)
    resp_loop zero reader w s = none
    resp_loop (suc fuel) reader w s = elim (read_frame_resp reader) [
      | none ↦ none
      | some (err e) ↦ some (err e, s, w)
      | some (ok (none, reader)) ↦ some (ok tt, s, flush w)
      | some (ok (some frame, reader)) ↦
          let (w, t) = reply_resp frame w s in resp_loop fuel reader (flush_if_drained reader w) t
    ]

    -- Every turn but the last reads a byte.
    unfoldable pub handle_resp : Bytes → S → Option (Result (Unit {0}) × S × BufWriter)
    handle_resp reader s =
        resp_loop (suc (length reader)) reader (record { sent = []; held = [] }) s

    -- What was written, by either protocol.
    abbrev pub all_written :
        Option (Result (Unit {0}) × S × BufWriter) → Option (Result (Unit {0}) × S × Bytes)
    all_written none = none
    all_written (some (r, s, w)) = some (r, s, w.sent ++ w.held)

    unfoldable pub handle : Bytes → S → Option (Result (Unit {0}) × S × Bytes)
    handle [] s = some (ok tt, s, [])
    handle (first ∷ rest) s =
        if is_resp first
        then all_written (handle_resp (first ∷ rest) s)
        else serve_loop (suc (length (first ∷ rest))) (first ∷ rest) [] s
