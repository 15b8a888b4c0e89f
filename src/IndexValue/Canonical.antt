-- ===== src/IndexValue/Canonical.antt =====
-- `deserialize` accepts no hint record but what `serialize` writes.
use bitcask.Prelude.{
  ℕ, ◌+◌, ◌^◌, ◌<◌, ◌≡◌, refl, ◌++◌, arith, length, drop, All, append_assoc, ==_iff, ltb, ◌==◌,
}
use bitcask.Prelude.Bytes.{Bytes, IsByte}
use bitcask.Error.{ok, ok-bind, if-ok, require-ok, refuse-ok}
use bitcask.Wire.{as_u32}
use bitcask.Wire.Laws.{length-to_le_bytes}
use bitcask.Crc32.{Crc32}
use bitcask.BytesUtil.{slice, read_u32, read_u64, read_bytes}
use bitcask.BytesUtil.Taken.{
  Taken, Taken-append, slice-of_Taken, read_u32-Taken, read_u64-Taken, field_Taken,
}
use bitcask.IndexValue.{
  IndexValue, crc_len, header_len, key_len_len, index_value_len, covered, serialize, read_body,
  deserialize, usize_try_from,
}
use bitcask.IndexValue.RoundTrip.{Fits, body, length-body, covered-body, serialize-covered}

module _ (buf : Bytes) (all : All IsByte buf) where
  read_body-Taken :
      (file_id cursor end : ℕ) {key : Bytes} {e : IndexValue} {n : ℕ}
      → read_body buf file_id cursor end ≡ ok (key, e, n)
      → Taken buf cursor (body e key) n
        × (n ≡ end)
        × (e.file_id ≡ file_id)
        × (e.ts < 2 ^ 64)
        × (e.offset < 2 ^ 64)
        × (e.len < 2 ^ 64)
  unfolding read_body
  read_body-Taken file_id cursor end {key} {e} {n} h =
      ok-bind (read_u32 buf cursor) _ h λ (k, c₁) e₁ r₁.
        ok-bind (read_bytes buf c₁ k) _ r₁ λ (key', c₂) e₂ r₂.
          ok-bind (read_u64 buf c₂) _ r₂ λ (ts, c₃) e₃ r₃.
            ok-bind (read_u64 buf c₃) _ r₃ λ (offset, c₄) e₄ r₄.
              ok-bind (read_u64 buf c₄) _ r₄ λ (len, c₅) e₅ r₅.
                ok-bind (usize_try_from len) _ r₅ λ len' e₆ r₆.
                  let (same_end, same) = if-ok (c₅ == end) _ r₆ in
                  let at_end : c₅ ≡ end = (==_iff c₅ end).0 same_end in
                  let found : IndexValue = record {
                    file_id = file_id;
                    ts = ts;
                    offset = offset;
                    len = len';
                  } in
                  let key_eq : key' ≡ key = cc same in
                  let e_eq : found ≡ e = cc same in
                  let n_end : end ≡ n = cc same in
                  let len_eq : len ≡ len' = ground arith in
                  let (t₁, _) = field_Taken buf all cursor e₁ e₂ in
                  let (t₂, lt₂) = read_u64-Taken buf all c₂ e₃ in
                  let (t₃, lt₃) = read_u64-Taken buf all c₃ e₄ in
                  let (t₄, lt₄) = read_u64-Taken buf all c₄ e₅ in
                  let t = Taken-append t₁ (Taken-append t₂ (Taken-append t₃ t₄)) in
                  rw (← key_eq, ← e_eq, ← n_end, ← at_end, ← len_eq)
                    (simp append_assoc at t, refl, refl, lt₂, lt₃, lt₄)

module _ ⦃crc32 : Crc32⦄ (buf : Bytes) (all : All IsByte buf) where
  -- What is accepted is the encoding of the entry that is returned, under the caller's file id.
  pub serialize-deserialize_hint :
      (file_id : ℕ) {key : Bytes} {e : IndexValue} {n : ℕ}
      → deserialize buf file_id ≡ ok (key, e, n)
      → (n ≡ length (serialize e key))
        × (buf ≡ serialize e key ++ drop n buf)
        × (e.file_id ≡ file_id)
        × Fits e key
  unfolding deserialize
  serialize-deserialize_hint file_id {key} {e} {n} h =
      ok-bind (read_u32 buf 0) _ h λ (crc, c₁) e₁ r₁.
        ok-bind (read_u32 buf c₁) _ r₁ λ (len, c₂) e₂ r₂.
          let (_, r₃) = refuse-ok (ltb (length buf) (header_len + len)) _ r₂ in
          let (crc_ok, r₄) =
            require-ok (crc32.hash (slice buf crc_len (header_len + len)) == crc) _ r₃ in
          let (t₁, _) = read_u32-Taken buf all 0 e₁ in
          let (t₂, len_lt) = read_u32-Taken buf all c₁ e₂ in
          let (t₃, n_end, id, ts, offset, l) =
            read_body-Taken buf all file_id c₂ (header_len + len) r₄ in
          let at_4 : c₁ ≡ 4 = omega (arith, t₁.moved, length-to_le_bytes 4 crc) in
          let len_eq : key_len_len + length key + index_value_len ≡ len =
            omega (arith, t₂.moved, t₃.moved, length-to_le_bytes 4 len, length-body e key) in
          let len_u32 : as_u32 (key_len_len + length key + index_value_len) ≡ len = omega arith in
          let t₄ : Taken buf c₁ (covered e key) n =
            rw (covered-body e key, len_u32) (Taken-append t₂ t₃) in
          let t₅ : Taken buf crc_len (covered e key) (header_len + len) = rw (at_4, n_end) at t₄ in
          let sum : crc32.hash (covered e key) ≡ crc =
            rw (slice-of_Taken t₅) at ((==_iff _ crc).0 crc_ok) in
          let t : Taken buf 0 (serialize e key) n =
            rw (serialize-covered e key, sum) (Taken-append t₁ t₄) in
          (
            omega (arith, t.moved),
            t.split,
            id,
            record { ts = ts; offset = offset; len = l; body = omega arith },
          )
