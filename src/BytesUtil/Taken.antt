-- ===== src/BytesUtil/Taken.antt =====
-- What a read that succeeded says of the buffer: the bytes that it went over, written back as the
-- encoding of the value that it returned.
use bitcask.Prelude.{
  ℕ, zero, suc, ◌+◌, ◌-◌, ◌^◌, ◌≤◌, ◌<◌, ◌≡◌, refl, sym, ap, ◌∙◌, ◌++◌, [], ◌∷◌, arith, length,
  take, drop, All, length-append, length-drop, drop-drop, take-append, take-append-drop,
  append_assoc, All-take, All-drop, length-take,
}
use bitcask.Prelude.Bytes.{Bytes, IsByte}
use bitcask.Error.{ok, ◌>>=◌, ok-bind}
use bitcask.Wire.{to_le_bytes, from_le_bytes, as_u32}
use bitcask.Wire.Laws.{to_le_bytes-from_le_bytes, from_le_bytes-lt}
use bitcask.BytesUtil.{slice, byte_at, read_end, read_u8, read_u32, read_u64, read_bytes}

-- The cursor went from `cursor` over the bytes `xs` to `cursor'`, inside the buffer.
pub record Taken (buf : Bytes) (cursor : ℕ) (xs : Bytes) (cursor' : ℕ) : Type 0 where
  pub moved : cursor' ≡ cursor + length xs
  pub inside : cursor' ≤ length buf
  pub split : drop cursor buf ≡ xs ++ drop cursor' buf

pub Taken-append :
    {buf : Bytes} {a b c : ℕ} {xs ys : Bytes}
    → Taken buf a xs b
    → Taken buf b ys c
    → Taken buf a (xs ++ ys) c
Taken-append {xs = xs} {ys = ys} s t = record {
  moved = omega (arith, s.moved, t.moved, length-append xs ys);
  inside = t.inside;
  split = rw append_assoc (s.split ∙ ap (λ r. xs ++ r) t.split);
}

read_end-ok :
    (buf : Bytes) (cursor len end : ℕ)
    → read_end buf cursor len ≡ ok end
    → (end ≡ cursor + len) × (end ≤ length buf)
unfolding read_end
read_end-ok buf cursor len end e = ground arith

slice-Taken :
    (buf : Bytes) (cursor len : ℕ)
    → cursor + len ≤ length buf
    → Taken buf cursor (slice buf cursor (cursor + len)) (cursor + len)
slice-Taken buf cursor len h =
    let e : cursor + len - cursor ≡ len = omega arith in
    rw e (record {
      moved = omega (arith, length-take len (drop cursor buf), length-drop cursor buf);
      inside = h;
      split =
          sym (take-append-drop len (drop cursor buf))
          ∙ ap (λ r. take len (drop cursor buf) ++ r) (drop-drop len cursor buf);
    })

length-slice :
    (buf : Bytes) (cursor len : ℕ)
    → cursor + len ≤ length buf
    → length (slice buf cursor (cursor + len)) ≡ len
length-slice buf cursor len h =
    omega (arith, length-take (cursor + len - cursor) (drop cursor buf), length-drop cursor buf)

-- A read that went through: its value and its cursor.
ok-read {ℓ} :
    {A : Type ℓ} (buf : Bytes) (cursor len : ℕ) (f : ℕ → A) {a : A} {cursor' : ℕ}
    → (◌>>=◌ {B = A × ℕ} (read_end buf cursor len) (λ end. ok (f end, end))) ≡ ok (a, cursor')
    → (a ≡ f (cursor + len)) × (cursor' ≡ cursor + len) × (cursor + len ≤ length buf)
ok-read buf cursor len f {a} {cursor'} e =
    ok-bind (read_end buf cursor len) (λ end. ok (f end, end)) e
      λ end got r.
        let (at, inside) = read_end-ok buf cursor len end got in
        let same : end ≡ cursor' = cc r in
        let value : f end ≡ a = cc r in (cc (at, value), cc (at, same), omega arith)

pub read_bytes-Taken :
    (buf : Bytes) (cursor len : ℕ) {xs : Bytes} {cursor' : ℕ}
    → read_bytes buf cursor len ≡ ok (xs, cursor')
    → Taken buf cursor xs cursor' × (length xs ≡ len)
unfolding read_bytes
read_bytes-Taken buf cursor len e =
    let (value, moved, h) = ok-read buf cursor len (slice buf cursor) e in
    rw (value, moved) (slice-Taken buf cursor len h, length-slice buf cursor len h)

module _ (buf : Bytes) (all : All IsByte buf) (cursor : ℕ) where
  -- The slice under an integer of `w` bytes is the encoding of that integer.
  slice-le_bytes :
      (w : ℕ)
      → cursor + w ≤ length buf
      → Taken buf cursor
          (to_le_bytes w (from_le_bytes (slice buf cursor (cursor + w))))
          (cursor + w)
        × (from_le_bytes (slice buf cursor (cursor + w)) < 256 ^ w)
  slice-le_bytes w h =
      let bytes : All IsByte (slice buf cursor (cursor + w)) =
        All-take IsByte _ (drop cursor buf) (All-drop IsByte cursor buf all) in
      let len : length (slice buf cursor (cursor + w)) ≡ w = length-slice buf cursor w h in
      let same : to_le_bytes w (from_le_bytes (slice buf cursor (cursor + w)))
          ≡ slice buf cursor (cursor + w) =
        rw len at (to_le_bytes-from_le_bytes (slice buf cursor (cursor + w)) bytes) in
      (
        rw same (slice-Taken buf cursor w h),
        rw len at (from_le_bytes-lt (slice buf cursor (cursor + w)) bytes),
      )

  pub read_u32-Taken :
      {v cursor' : ℕ}
      → read_u32 buf cursor ≡ ok (v, cursor')
      → Taken buf cursor (to_le_bytes 4 v) cursor' × (v < 2 ^ 32)
  unfolding read_u32
  read_u32-Taken e =
      let (value, moved, h) =
        ok-read buf cursor 4 (λ end. from_le_bytes (slice buf cursor end)) e in
      rw (value, moved) (slice-le_bytes 4 h)

  pub read_u64-Taken :
      {v cursor' : ℕ}
      → read_u64 buf cursor ≡ ok (v, cursor')
      → Taken buf cursor (to_le_bytes 8 v) cursor' × (v < 2 ^ 64)
  unfolding read_u64
  read_u64-Taken e =
      let (value, moved, h) =
        ok-read buf cursor 8 (λ end. from_le_bytes (slice buf cursor end)) e in
      rw (value, moved) (slice-le_bytes 8 h)

drop-byte_at : (bs : Bytes) (i : ℕ) → i < length bs → drop i bs ≡ byte_at bs i ∷ drop (i + 1) bs
drop-byte_at [] i h = absurd (omega arith)
drop-byte_at (b ∷ bs) zero h = refl
drop-byte_at (b ∷ bs) (suc i) h =
    let e : suc i + 1 ≡ suc (i + 1) = omega arith in rw e (drop-byte_at bs i (omega arith))

pub read_u8-Taken :
    (buf : Bytes) (cursor : ℕ) {v cursor' : ℕ}
    → read_u8 buf cursor ≡ ok (v, cursor')
    → Taken buf cursor (v ∷ []) cursor'
unfolding read_u8
read_u8-Taken buf cursor {v} {cursor'} e =
    let h : (cursor < length buf) × (cursor' ≡ cursor + 1) × (v ≡ byte_at buf cursor) =
      ground arith in
    rw (h.1, h.2)
      (record { moved = refl; inside = omega arith; split = drop-byte_at buf cursor h.0 })

pub slice-of_Taken : {buf : Bytes} {a b : ℕ} {xs : Bytes} → Taken buf a xs b → slice buf a b ≡ xs
slice-of_Taken {buf} {a} {b} {xs} t =
    let e : b - a ≡ length xs = omega (arith, t.moved) in
    rw (e, t.split) (take-append xs (drop b buf))

module _ (buf : Bytes) (all : All IsByte buf) where
  -- A field with its length before it.
  pub field_Taken :
      (cursor : ℕ) {n a b : ℕ} {xs : Bytes}
      → read_u32 buf cursor ≡ ok (n, a)
      → read_bytes buf a n ≡ ok (xs, b)
      → Taken buf cursor (to_le_bytes 4 (as_u32 (length xs)) ++ xs) b × (length xs < 2 ^ 32)
  field_Taken cursor {n} {a} {b} {xs} e₁ e₂ =
      let (t₁, lt) = read_u32-Taken buf all cursor e₁ in
      let (t₂, len) = read_bytes-Taken buf a n e₂ in
      let same : as_u32 (length xs) ≡ n = omega arith in (rw same (Taken-append t₁ t₂), omega arith)
