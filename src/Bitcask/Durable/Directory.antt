-- ===== src/Bitcask/Durable/Directory.antt =====
-- A directory with one name more: the ids fit a u64, and no name stands twice.
use bitcask.Prelude.{ℕ, ◌^◌, ◌<◌, refl, ◌∙◌, [], ◌∷◌, All, arith, Bool-cases, inl, inr}
use bitcask.Prelude.Map
use bitcask.Prelude.Map.{Map, id_key}
use bitcask.Files.Names.{FileName, name_eq, name_eq_iff, file_name_key}
use bitcask.Files.Text.{name_id}
use bitcask.Bitcask.Open.Clean.{Unique}

abbrev pub HasIds : Map FileName ℕ → Type 0
HasIds m = All (λ entry. name_id entry.0 < 2 ^ 64) m

HasIds-remove : (m : Map FileName ℕ) (name : FileName) → HasIds m → HasIds (Map.remove m name)
unfolding Map.remove
HasIds-remove [] name p = tt
HasIds-remove ((j, v) ∷ m) name p = elim (Bool-cases (name_eq j name)) [
  | inl same ↦ rw (Map.remove, same) (HasIds-remove m name p.1)
  | inr apart ↦ rw (Map.remove, apart) (p.0, HasIds-remove m name p.1)
]

pub HasIds-insert :
    (m : Map FileName ℕ) (name : FileName) (v : ℕ)
    → name_id name < 2 ^ 64
    → HasIds m
    → HasIds (Map.insert m name v)
unfolding Map.insert
HasIds-insert m name v fits p = (fits, HasIds-remove m name p)

Unique-remove : (m : Map FileName ℕ) (name : FileName) → Unique m → Unique (Map.remove m name)
unfolding Map.remove
Unique-remove [] name u = tt
Unique-remove ((j, v) ∷ m) name u = elim (Bool-cases (name_eq j name)) [
  | inl same ↦ rw (Map.remove, same) (Unique-remove m name u.1)
  | inr apart ↦
      rw (Map.remove, apart)
        (Map.get-remove m name j ∙ ground (arith, u.0), Unique-remove m name u.1)
]

pub Unique-insert :
    (m : Map FileName ℕ) (name : FileName) (v : ℕ) → Unique m → Unique (Map.insert m name v)
unfolding Map.insert
Unique-insert m name v u =
    (Map.get-remove m name name ∙ rw ((name_eq_iff name name).1 refl) refl, Unique-remove m name u)
