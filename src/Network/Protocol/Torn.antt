-- ===== src/Network/Protocol/Torn.antt =====
-- A connection that closes inside a frame.
use bitcask.Prelude.{
  ℕ, zero, suc, ◌+◌, ◌-◌, ◌≤◌, ◌<◌, ◌≡◌, inl, inr, Bool-cases, ◌∷◌, ◌++◌, arith, length, take,
  length-append, length-take, take-append_ge, le→ltb, lt→ltb, ltb→lt, ltb→le, ltb,
}
use bitcask.Prelude.Bytes.{Bytes}
use bitcask.Error.{err, io, unexpected_eof}
use bitcask.Wire.{to_le_bytes}
use bitcask.Wire.Laws.{length-to_le_bytes, from_le_bytes-to_le_bytes}
use bitcask.Network.Protocol.{max_payload, read_exact, read_frame}
use bitcask.Network.Protocol.RoundTrip.{frame, read_exact-u32}

read_exact_short :
    (n : ℕ) (reader : Bytes) → length reader < n → read_exact n reader ≡ err (io unexpected_eof)
unfolding read_exact
read_exact_short n reader h = rw (lt→ltb (length reader) n h)

module _ (msg_type : ℕ) (payload : Bytes) (small : length payload ≤ max_payload) (m : ℕ) where
  abbrev behind : Bytes
  behind = to_le_bytes 4 (length payload) ++ payload

  cut_len : m < 4 → read_frame (msg_type ∷ take m behind) ≡ err (io unexpected_eof)
  unfolding read_frame
  cut_len h = rw (read_exact_short 4 (take m behind) (omega (arith, length-take m behind)))

  cut_payload :
      4 ≤ m
      → m < 4 + length payload
      → read_frame (msg_type ∷ take m behind) ≡ err (io unexpected_eof)
  unfolding read_frame
  cut_payload long h =
      let e : take m behind
          ≡ to_le_bytes 4 (length payload)
            ++ take (m - length (to_le_bytes 4 (length payload))) payload =
        take-append_ge m (to_le_bytes 4 (length payload)) payload
          (omega (arith, length-to_le_bytes 4 (length payload))) in
      rw (
        e,
        read_exact-u32,
        from_le_bytes-to_le_bytes 4 (length payload) (omega arith),
        le→ltb max_payload (length payload) small,
        read_exact_short (length payload)
            (take (m - length (to_le_bytes 4 (length payload))) payload)
            (omega (
              arith,
              length-take (m - length (to_le_bytes 4 (length payload))) payload,
              length-to_le_bytes 4 (length payload),
            )),
      )

-- A frame that ends early, anywhere behind its first byte, is an error and not a clean close.
pub read_frame_torn :
    (msg_type : ℕ) (payload : Bytes) (n : ℕ)
    → length payload ≤ max_payload
    → 0 < n
    → n < length (frame msg_type payload)
    → read_frame (take n (frame msg_type payload)) ≡ err (io unexpected_eof)
read_frame_torn msg_type payload zero small some_bytes h = absurd (omega arith)
read_frame_torn msg_type payload (suc m) small some_bytes h = elim (Bool-cases (ltb m 4)) [
  | inl short ↦ cut_len msg_type payload small m (ltb→lt _ _ short)
  | inr long ↦ cut_payload msg_type payload small m (ltb→le _ _ long) (
      omega (
        arith,
        length-append (to_le_bytes 4 (length payload)) payload,
        length-to_le_bytes 4 (length payload),
      ))
]
