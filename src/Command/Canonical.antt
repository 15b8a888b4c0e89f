-- ===== src/Command/Canonical.antt =====
-- `deserialize` accepts nothing but what `serialize` writes.
use bitcask.Prelude.{
  ℕ, ◌+◌, ◌^◌, ◌<◌, ◌≡◌, refl, ◌++◌, arith, length, drop, All, append_assoc, ==_iff, ltb, ◌==◌,
}
use bitcask.Prelude.Bytes.{Bytes, IsByte}
use bitcask.Error.{ok, ok-bind, if-ok, require-ok, refuse-ok}
use bitcask.Wire.{as_u32}
use bitcask.Wire.Laws.{length-to_le_bytes}
use bitcask.Crc32.{Crc32}
use bitcask.BytesUtil.{slice, read_u8, read_u32, read_u64, read_bytes}
use bitcask.BytesUtil.Taken.{
  Taken, Taken-append, slice-of_Taken, read_u8-Taken, read_u32-Taken, read_u64-Taken, field_Taken,
}
use bitcask.Command.{
  Command, CommandType, get_timestamp, header_len, crc_len, type_byte, encoded_body_len, write_body,
  serialize, try_from, read_command, read_body, deserialize,
}
use bitcask.Command.RoundTrip.{
  Fits, command_type, fields, write_body-fields, length-write_body, serialize-covered, covered,
}

module _ (buf : Bytes) (all : All IsByte buf) where
  read_command-Taken :
      (ts : ℕ) (t : CommandType) (cursor : ℕ) {c : Command} {cursor' : ℕ}
      → read_command buf ts t cursor ≡ ok (c, cursor')
      → Taken buf cursor (fields c) cursor' × (get_timestamp c ≡ ts) × (command_type c ≡ t)
  unfolding read_command
  read_command-Taken ts CommandType.set cursor {c} {cursor'} e =
      ok-bind (read_u32 buf cursor) _ e λ (n, c₁) e₁ r₁.
        ok-bind (read_bytes buf c₁ n) _ r₁ λ (key, c₂) e₂ r₂.
          ok-bind (read_u32 buf c₂) _ r₂ λ (m, c₃) e₃ r₃.
            ok-bind (read_bytes buf c₃ m) _ r₃ λ (value, c₄) e₄ r₄.
              let whole : Command.set ts key value ≡ c = cc r₄ in
              let end : c₄ ≡ cursor' = cc r₄ in
              let (t₁, _) = field_Taken buf all cursor e₁ e₂ in
              let (t₂, _) = field_Taken buf all c₂ e₃ e₄ in
              let t = Taken-append t₁ t₂ in rw (← whole, ← end) (simp append_assoc at t, refl, refl)
  read_command-Taken ts CommandType.rm cursor {c} {cursor'} e =
      ok-bind (read_u32 buf cursor) _ e λ (n, c₁) e₁ r₁.
        ok-bind (read_bytes buf c₁ n) _ r₁ λ (key, c₂) e₂ r₂.
          let whole : Command.rm ts key ≡ c = cc r₂ in
          let end : c₂ ≡ cursor' = cc r₂ in
          let (t, _) = field_Taken buf all cursor e₁ e₂ in rw (← whole, ← end) (t, refl, refl)

try_from-type : (b : ℕ) (t : CommandType) → try_from b ≡ ok t → b ≡ type_byte t
unfolding try_from
try_from-type b CommandType.set e = ground arith
try_from-type b CommandType.rm e = ground arith

module _ (buf : Bytes) (all : All IsByte buf) where
  read_body-Taken :
      (cursor end : ℕ) {c : Command} {n : ℕ}
      → read_body buf cursor end ≡ ok (c, n)
      → Taken buf cursor (write_body c) n × (n ≡ end) × (get_timestamp c < 2 ^ 64)
  unfolding read_body
  read_body-Taken cursor end {c} {n} e = ok-bind (read_u64 buf cursor) _ e λ (ts, c₁) e₁ r₁.
      ok-bind (read_u8 buf c₁) _ r₁ λ (b, c₂) e₂ r₂. ok-bind (try_from b) _ r₂ λ t e₃ r₃.
        ok-bind (read_command buf ts t c₂) _ r₃ λ (c', c₃) e₄ r₄.
          let (same_end, same) = if-ok (c₃ == end) _ r₄ in
          let at_end : c₃ ≡ end = (==_iff c₃ end).0 same_end in
          let whole : c' ≡ c = cc same in
          let n_end : end ≡ n = cc same in
          let (t₁, lt) = read_u64-Taken buf all cursor e₁ in
          let t₂ = read_u8-Taken buf c₁ e₂ in
          let (t₃, ts_eq, t_eq) = read_command-Taken buf all ts t c₂ e₄ in
          let t = Taken-append t₁ (Taken-append t₂ t₃) in
          rw (← whole, ← n_end)
            (
              rw (write_body-fields c', ts_eq, t_eq) (rw (at_end, try_from-type b _ e₃) at t),
              refl,
              rw ts_eq lt,
            )

module _ ⦃crc32 : Crc32⦄ (buf : Bytes) (all : All IsByte buf) where
  deserialize-Taken :
      {c : Command} {n : ℕ} → deserialize buf ≡ ok (c, n) → Taken buf 0 (serialize c) n × Fits c
  unfolding deserialize
  deserialize-Taken {c} {n} e = ok-bind (read_u32 buf 0) _ e λ (crc, c₁) e₁ r₁.
      ok-bind (read_u32 buf c₁) _ r₁ λ (len, c₂) e₂ r₂.
        let (_, r₃) = refuse-ok (ltb (length buf) (header_len + len)) _ r₂ in
        let (crc_ok, r₄) =
          require-ok (crc32.hash (slice buf crc_len (header_len + len)) == crc) _ r₃ in
        let (t₁, _) = read_u32-Taken buf all 0 e₁ in
        let (t₂, len_lt) = read_u32-Taken buf all c₁ e₂ in
        let (t₃, n_end, ts_lt) = read_body-Taken buf all c₂ (header_len + len) r₄ in
        let at_4 : c₁ ≡ 4 = omega (arith, t₁.moved, length-to_le_bytes 4 crc) in
        let len_eq : encoded_body_len c ≡ len =
          omega (arith, t₂.moved, t₃.moved, length-to_le_bytes 4 len, length-write_body c) in
        let len_u32 : as_u32 (encoded_body_len c) ≡ len = omega arith in
        let t₄ : Taken buf c₁ (covered c) n = rw len_u32 (Taken-append t₂ t₃) in
        let t₅ : Taken buf crc_len (covered c) (header_len + len) = rw (at_4, n_end) at t₄ in
        let sum : crc32.hash (covered c) ≡ crc =
          rw (slice-of_Taken t₅) at ((==_iff _ crc).0 crc_ok) in
        (
          rw (serialize-covered c, sum) (Taken-append t₁ t₄),
          record { ts = ts_lt; body = omega arith },
        )

  -- What is accepted is the encoding of the command that is returned: the buffer starts with it, its
  -- length is what is reported as used, and the command's fields fit their widths.
  pub serialize-deserialize :
      {c : Command} {n : ℕ}
      → deserialize buf ≡ ok (c, n)
      → (n ≡ length (serialize c)) × (buf ≡ serialize c ++ drop n buf) × Fits c
  serialize-deserialize {c} {n} e =
      let (t, fits) = deserialize-Taken e in (omega (arith, t.moved), t.split, fits)
