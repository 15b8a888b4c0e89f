-- ===== src/Prelude/Map.antt =====
-- Maps as association lists, over any key type with a Boolean equality. `HashMap` and `BTreeMap`
-- of the source stand on it; the order of entries is kept by `insert` of `Bitcask.State` alone.
use mathlib.Core.Path.{◌≡◌}
use mathlib.Core.Logic.{◌↔◌}
use mathlib.Core.Bool.{Bool, true}
use mathlib.Core.Option.{Option, none, some}
use mathlib.Core.List.{List, [], ◌∷◌}
use native.Mathlib.Omega.{arith}
use Prim.Native.Nat.{ℕ}
use bitcask.Prelude.Tests.{if◌then◌else◌, ◌==◌, ==_iff}
use bitcask.Prelude.Bytes.{Bytes, bytes_eq, bytes_eq_iff}

pub record Key {ℓ} (K : Type ℓ) : Type ℓ where
  pub beq : K → K → Bool
  pub beq_iff : (a b : K) → (beq a b ≡ true) ↔ (a ≡ b)

instance abbrev pub id_key : Key ℕ
id_key = record { beq = λ a b. a == b; beq_iff = ==_iff }

instance abbrev pub bytes_key : Key Bytes
bytes_key = record { beq = bytes_eq; beq_iff = bytes_eq_iff }

abbrev pub Map {ℓ κ} : Type ℓ → Type κ → Type (ℓ ⊔ κ)
Map K V = List (K × V)

module _ {ℓ κ} {K : Type ℓ} {V : Type κ} ⦃key : Key K⦄ where
  unfoldable pub get : Map K V → K → Option V
  get [] k = none
  get ((j, v) ∷ m) k = if key.beq j k then some v else get m k

  unfoldable pub remove : Map K V → K → Map K V
  remove [] k = []
  remove ((j, v) ∷ m) k = let rest = remove m k in if key.beq j k then rest else (j, v) ∷ rest

  unfoldable pub insert : Map K V → K → V → Map K V
  unfolding remove
  insert m k v = (k, v) ∷ remove m k

  pub get-remove :
      (m : Map K V) (k j : K) → get (remove m k) j ≡ (if key.beq k j then none else get m j)
  unfolding get remove
  get-remove [] k j = ground arith
  get-remove ((i, v) ∷ m) k j =
      ground (arith, get-remove m k j, key.beq_iff i k, key.beq_iff i j, key.beq_iff k j)

  pub get-insert :
      (m : Map K V) (k j : K) (v : V)
      → get (insert m k v) j ≡ (if key.beq k j then some v else get m j)
  unfolding get insert
  get-insert m k j v = rw get-remove (ground arith)

pub ruleset map_laws = (get-remove, get-insert)
