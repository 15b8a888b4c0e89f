-- ===== src/Whitespace/Trim.antt =====
-- White space in front of a word.
use bitcask.Prelude.{ℕ, zero, suc, ◌≤◌, ◌<◌, ◌≡◌, refl, ◌⊎◌, inl, inr, [], ◌∷◌, ◌++◌, arith, length}
use bitcask.Prelude.Bytes.{Bytes}
use bitcask.Whitespace.{white_len, trim_start, all_white, trim_end, trim}

-- A White_Space character stays one when more follows, and is inside the text.
white_len-append :
    (bs rest : Bytes) (n : ℕ)
    → white_len bs ≡ suc n
    → (white_len (bs ++ rest) ≡ suc n) × (n < length bs)
unfolding white_len
white_len-append [] rest n h = absurd (cc h)
white_len-append (b ∷ []) rest n h = ground (arith, h)
white_len-append (b ∷ c ∷ []) [] n h = ground (arith, h)
white_len-append (b ∷ c ∷ []) (r ∷ rest) n h = ground (arith, h)
white_len-append (b ∷ c ∷ d ∷ bs) rest n h = (h, ground (arith, h))

white_len-cases : (bs : Bytes) → (white_len bs ≡ 0) ⊎ ((n : ℕ) × (white_len bs ≡ suc n))
white_len-cases bs = go (white_len bs) refl
  where
    go : (w : ℕ) → white_len bs ≡ w → (white_len bs ≡ 0) ⊎ ((n : ℕ) × (white_len bs ≡ suc n))
    go zero e = inl e
    go (suc n) e = inr (n, e)

-- A text of which nothing is left is white space.
trim_start-append :
    (skip : ℕ) (bs rest : Bytes)
    → skip ≤ length bs
    → trim_start skip bs ≡ []
    → trim_start skip (bs ++ rest) ≡ trim_start 0 rest
unfolding trim_start
trim_start-append zero [] rest less h = refl
trim_start-append (suc skip) [] rest less h = absurd (omega arith)
trim_start-append (suc skip) (b ∷ bs) rest less h = trim_start-append skip bs rest (omega arith) h
trim_start-append zero (b ∷ bs) rest less h = elim (white_len-cases (b ∷ bs)) [
  | inl dark ↦ absurd (cc (rw (trim_start, dark) at h))
  | inr (n, white) ↦
      let (same, inside) = white_len-append (b ∷ bs) rest n white in
      rw (trim_start, same)
        (trim_start-append n bs rest (omega arith) (rw (trim_start, white) at h))
]

trim_start-head :
    (skip : ℕ) (bs : Bytes) (c : ℕ) (cs : Bytes)
    → trim_start skip bs ≡ c ∷ cs
    → white_len (c ∷ cs) ≡ 0
unfolding trim_start
trim_start-head skip [] c cs h = absurd (cc h)
trim_start-head (suc skip) (b ∷ bs) c cs h = trim_start-head skip bs c cs h
trim_start-head zero (b ∷ bs) c cs h = elim (white_len-cases (b ∷ bs)) [
  | inl dark ↦ let same : b ∷ bs ≡ c ∷ cs = rw (trim_start, dark) at h in rw (← same) dark
  | inr (n, white) ↦ trim_start-head n bs c cs (rw (trim_start, white) at h)
]

trim_end-dark : (c : ℕ) (cs : Bytes) → white_len (c ∷ cs) ≡ 0 → trim_end (c ∷ cs) ≡ c ∷ trim_end cs
unfolding trim_end all_white
trim_end-dark c cs dark = rw (trim_end, all_white, dark) refl

no_start : (start : Bytes) (bs : Bytes) → trim_start 0 bs ≡ start → trim_end start ≡ [] → start ≡ []
no_start [] bs e h = refl
no_start (c ∷ cs) bs e h = absurd (cc (trim_end-dark c cs (trim_start-head 0 bs c cs e), h))

-- White space in front changes nothing.
pub trim-append : (bs rest : Bytes) → trim bs ≡ [] → trim (bs ++ rest) ≡ trim rest
trim-append bs rest h =
    rw (trim_start-append 0 bs rest (omega arith) (no_start (trim_start 0 bs) bs refl h)) refl
