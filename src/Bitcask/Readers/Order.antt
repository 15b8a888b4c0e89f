-- ===== src/Bitcask/Readers/Order.antt =====
-- The map of open files is in the order of the ids, and is determined by what it leads to.
use bitcask.Prelude.{
  ℕ, ◌≤◌, ◌<◌, ◌≡◌, refl, ◌∙◌, sym, none, some, [], ◌∷◌, ◌++◌, All, arith, ◌==◌, ==_iff, le→ltb,
  false, ==_refl, Bool-cases, inl, inr, ltb,
}
use bitcask.Prelude.Map
use bitcask.Prelude.Map.{Map, id_key}
use bitcask.Bitcask.State.{insert}

-- All ids are above this one.
abbrev pub Above : ℕ → Map ℕ ℕ → Type 0
Above i m = All (λ file. i < file.0) m

abbrev pub Ascending : Map ℕ ℕ → Type 0
Ascending [] = Unit
Ascending ((i, f) ∷ m) = Above i m × Ascending m

Above-insert : (i : ℕ) (m : Map ℕ ℕ) (k v : ℕ) → i < k → Above i m → Above i (insert m k v)
unfolding insert
Above-insert i [] k v less h = (less, tt)
Above-insert i ((j, f) ∷ m) k v less h = elim (Bool-cases (ltb k j)) [
  | inl before ↦ rw (insert, before) (less, h)
  | inr after ↦ elim (Bool-cases (j == k)) [
    | inl same ↦ rw (insert, after, same) (less, h.1)
    | inr apart ↦ rw (insert, after, apart) (h.0, Above-insert i m k v less h.1)
  ]
]

Above-trans : (i j : ℕ) (m : Map ℕ ℕ) → i < j → Above j m → Above i m
Above-trans i j [] less h = tt
Above-trans i j ((k, f) ∷ m) less h = (omega (arith, h.0), Above-trans i j m less h.1)

pub Ascending-insert : (m : Map ℕ ℕ) (k v : ℕ) → Ascending m → Ascending (insert m k v)
unfolding insert
Ascending-insert [] k v h = (tt, tt)
Ascending-insert ((j, f) ∷ m) k v h = elim (Bool-cases (ltb k j)) [
  | inl before ↦
      let less : k < j = ground (arith, before) in
      rw (insert, before) ((less, Above-trans k j m less h.0), h)
  | inr after ↦ elim (Bool-cases (j == k)) [
    | inl same ↦ let e = (==_iff j k).0 same in rw (insert, after, same) (rw (← e) h)
    | inr apart ↦
        rw (insert, after, apart)
          (Above-insert j m k v (ground (arith, after, apart)) h.0, Ascending-insert m k v h.1)
  ]
]

pub get-Above : (i j : ℕ) (m : Map ℕ ℕ) → Above i m → j ≤ i → Map.get m j ≡ none
unfolding Map.get
get-Above i j [] h le = refl
get-Above i j ((k, f) ∷ m) h le = ground (arith, h.0, get-Above i j m h.1 le)

-- Two of them that lead from the same ids to the same files are the same.
pub Ascending-same :
    (m n : Map ℕ ℕ) → Ascending m → Ascending n → ((id : ℕ) → Map.get m id ≡ Map.get n id) → m ≡ n
unfolding Map.get
Ascending-same [] [] hm hn e = refl
Ascending-same [] ((j, g) ∷ n) hm hn e = absurd (ground (arith, e j))
Ascending-same ((i, f) ∷ m) [] hm hn e = absurd (ground (arith, e i))
Ascending-same ((i, f) ∷ m) ((j, g) ∷ n) hm hn e =
    let same : i ≡ j = ground (arith, e i, e j, get-Above j i n hn.0, get-Above i j m hm.0) in
    let value : f ≡ g = ground (arith, e i, same) in
    let rest : m ≡ n = Ascending-same m n hm.1 hn.1 (λ id. elim (Bool-cases (i == id)) [
      | inl here ↦
          let at_i : i ≡ id = (==_iff i id).0 here in
          get-Above i id m hm.0 (omega arith) ∙ sym (get-Above j id n hn.0 (omega (arith, same)))
      | inr apart ↦ ground (arith, e id, same, apart)
    ]) in
    rw (same, value, rest) refl

below_last : (m : Map ℕ ℕ) (i id inode : ℕ) → Above i (m ++ ((id, inode) ∷ [])) → i < id
below_last [] i id inode h = h.0
below_last ((j, f) ∷ m) i id inode h = below_last m i id inode h.1

-- The last file of an ascending map, which has the greatest id.
pub get_last :
    (m : Map ℕ ℕ) (id inode : ℕ)
    → Ascending (m ++ ((id, inode) ∷ []))
    → Map.get (m ++ ((id, inode) ∷ [])) id ≡ some inode
unfolding Map.get
get_last [] id inode h = rw (==_refl id) refl
get_last ((i, f) ∷ m) id inode h =
    ground (arith, get_last m id inode h.1, below_last m i id inode h.0)

pub last_greatest :
    (m : Map ℕ ℕ) (id inode : ℕ)
    → Ascending (m ++ ((id, inode) ∷ []))
    → (j f : ℕ) → Map.get (m ++ ((id, inode) ∷ [])) j ≡ some f
    → j ≤ id
unfolding Map.get
last_greatest [] id inode h j f e = ground (arith, e)
last_greatest ((i, g) ∷ m) id inode h j f e =
    ground (arith, e, last_greatest m id inode h.1 j f, below_last m i id inode h.0)

-- All ids are below this one.
abbrev pub Below : ℕ → Map ℕ ℕ → Type 0
Below k m = All (λ file. file.0 < k) m

pub Below-last :
    (m : Map ℕ ℕ) (id inode k : ℕ)
    → Ascending (m ++ ((id, inode) ∷ []))
    → id < k
    → Below k (m ++ ((id, inode) ∷ []))
Below-last [] id inode k h less = (less, tt)
Below-last ((i, f) ∷ m) id inode k h less =
    let under = below_last m i id inode h.0 in (omega arith, Below-last m id inode k h.1 less)

pub Below-front : (m : Map ℕ ℕ) (id inode : ℕ) → Ascending (m ++ ((id, inode) ∷ [])) → Below id m
Below-front [] id inode h = tt
Below-front ((i, f) ∷ m) id inode h = (below_last m i id inode h.0, Below-front m id inode h.1)

-- A file with the greatest id goes to the end.
pub insert_last : (m : Map ℕ ℕ) (k v : ℕ) → Below k m → insert m k v ≡ m ++ ((k, v) ∷ [])
unfolding insert
insert_last [] k v h = refl
insert_last ((i, f) ∷ m) k v h =
    let later : ltb k i ≡ false = le→ltb k i (omega (arith, h.0)) in
    let apart : (i == k) ≡ false = ground (arith, h.0) in
    rw (insert, later, apart, insert_last m k v h.1) refl

-- Every file of an ascending map is found.
All-both {ℓ κ μ} :
    {P : ℕ × ℕ → Type ℓ} {Q : ℕ × ℕ → Type κ} {R : ℕ × ℕ → Type μ} (m : Map ℕ ℕ)
    → ((file : ℕ × ℕ) → P file → Q file → R file)
    → All P m
    → All Q m
    → All R m
All-both [] f p q = tt
All-both (file ∷ m) f p q = (f file p.0 q.0, All-both m f p.1 q.1)

Above-front : (i : ℕ) (m n : Map ℕ ℕ) → Above i (m ++ n) → Above i m
Above-front i [] n h = tt
Above-front i ((j, f) ∷ m) n h = (h.0, Above-front i m n h.1)

pub listed :
    (m n : Map ℕ ℕ) → Ascending (m ++ n) → All (λ file. Map.get (m ++ n) file.0 ≡ some file.1) m
unfolding Map.get
listed [] n h = tt
listed ((i, f) ∷ m) n h = (
  rw (==_refl i) refl,
  All-both m (λ file later there. ground (arith, later, there)) (Above-front i m n h.0)
      (listed m n h.1),
)
