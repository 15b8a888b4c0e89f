-- ===== src/Server/Returns.antt =====
-- A connection comes to an end when its peer has closed its side.
use bitcask.Prelude.{
  ℕ, zero, suc, ◌<◌, ◌≡◌, refl, Option, none, some, Bool, inl, inr, [], ◌∷◌, arith, length, ltb,
  Bool-cases,
}
use bitcask.Prelude.Bytes.{Bytes}
use bitcask.Error.{KvsError, Result, ok, ok-bind, refuse-ok, Result-cases}
use bitcask.Wire.{from_le_bytes}
use bitcask.KvStore.{KvStore}
use bitcask.Network.Protocol.{read_exact, read_frame, write_response, max_payload}
use bitcask.Network.Resp.{is_resp}
use bitcask.Network.Resp.Frames.{read_exact-shrinks, read_frame_resp-returns}
use bitcask.Server.{
  BufWriter, respond, serve_loop, reply_resp, flush_if_drained, resp_loop, handle_resp, handle,
}

read_frame-shrinks :
    (reader : Bytes) (f : ℕ × Bytes) (rest : Bytes)
    → read_frame reader ≡ ok (some f, rest)
    → length rest < length reader
unfolding read_frame
read_frame-shrinks [] f rest e = absurd (cc e)
read_frame-shrinks (b ∷ bs) f rest e = ok-bind (read_exact 4 bs) _ e λ (len_bytes, reader) exact g.
    let h = read_exact-shrinks 4 bs exact in
    let (small, k) = refuse-ok (ltb max_payload (from_le_bytes len_bytes)) _ g in
    ok-bind (read_exact (from_le_bytes len_bytes) reader) _ k λ (payload, left) last l.
      let m = read_exact-shrinks (from_le_bytes len_bytes) reader last in ground (arith, l, m, h)

abbrev Returns : {A : Type 0} → Option A → Type 0
Returns {A} o = (r : A) × (o ≡ some r)

module _ {S : Type 0} (store : KvStore S) where
  serve_loop-Returns :
      (fuel : ℕ) (reader writer : Bytes) (s : S)
      → length reader < fuel
      → Returns (serve_loop store fuel reader writer s)
  unfolding serve_loop
  serve_loop-Returns zero reader writer s less = absurd (omega arith)
  serve_loop-Returns (suc fuel) reader writer s less = elim (Result-cases (read_frame reader)) [
    | inl ((some (msg_type, payload), rest), e) ↦
        let (resp, t) = respond store msg_type payload s in
        let shrinks = read_frame-shrinks reader (msg_type, payload) rest e in
        elim (Result-cases (write_response writer resp)) [
          | inl (written, w) ↦
              rw (serve_loop, e, w) (serve_loop-Returns fuel rest written t (omega arith))
          | inr (x, w) ↦ rw (serve_loop, e, w) (_, refl)
        ]
    | inl ((none, rest), e) ↦ rw (serve_loop, e) (_, refl)
    | inr (x, e) ↦ rw (serve_loop, e) (_, refl)
  ]

  module _ (lossy : Bytes → Bytes) (to_string : KvsError → Bytes) (drained : Bytes → Bool) where
    resp_loop-Returns :
        (fuel : ℕ) (reader : Bytes) (w : BufWriter) (s : S)
        → length reader < fuel
        → Returns (resp_loop store lossy to_string drained fuel reader w s)
    unfolding resp_loop
    resp_loop-Returns zero reader w s less = absurd (omega arith)
    resp_loop-Returns (suc fuel) reader w s less =
        let (result, e, shrinks) = read_frame_resp-returns reader in
        elim (Result-cases result) [
          | inl ((none, rest), same) ↦ rw (resp_loop, e, same) (_, refl)
          | inl ((some frame, rest), same) ↦
              let h = shrinks frame rest same in
              let (v, t) = reply_resp store lossy to_string drained frame w s in
              rw (resp_loop, e, same)
                (resp_loop-Returns fuel rest (flush_if_drained store lossy to_string drained rest v)
                  t (omega arith))
          | inr (x, same) ↦ rw (resp_loop, e, same) (_, refl)
        ]

    -- Whatever bytes the peer sent before it closed its side, in whichever protocol, and with a store
    -- whose calls always return: the handling of its connection comes to an end, and the fuel of its
    -- loops is enough.
    pub handle-returns :
        (reader : Bytes) (s : S)
        → (r : Result (Unit {0}) × S × Bytes) × (handle store lossy to_string drained reader s
            ≡ some r)
    unfolding handle handle_resp
    handle-returns [] s = (_, refl)
    handle-returns (first ∷ rest) s = elim (Bool-cases (is_resp first)) [
      | inl resp ↦
          let (r, e) =
            resp_loop-Returns (suc (length (first ∷ rest))) (first ∷ rest)
              (record { sent = []; held = [] }) s (omega arith) in
          rw (resp, e) (_, refl)
      | inr plain ↦
          rw plain
            (serve_loop-Returns (suc (length (first ∷ rest))) (first ∷ rest) [] s (omega arith))
    ]
