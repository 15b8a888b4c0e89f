-- ===== src/Bitcask/Loader/Among.antt =====
-- The members of a list, and what holds of them.
use bitcask.Prelude.{List, [], ◌∷◌, All}

-- The command is one of the list.
pub data Among {ℓ} {A : Type ℓ} (x : A) : List A → Type ℓ where
  first : (xs : List A) → Among x (x ∷ xs)
  later : (y : A) (xs : List A) → Among x xs → Among x (y ∷ xs)

pub All-at {ℓ κ} : {A : Type ℓ} (P : A → Type κ) {x : A} (xs : List A) → All P xs → Among x xs → P x
All-at P _ h (first xs) = h.0
All-at P _ h (later y xs among) = All-at P xs h.1 among

pub All-map {ℓ κ μ} :
    {A : Type ℓ} {P : A → Type κ} {Q : A → Type μ} (xs : List A)
    → ((x : A) → P x → Q x)
    → All P xs
    → All Q xs
All-map [] f h = tt
All-map (x ∷ xs) f h = (f x h.0, All-map xs f h.1)

pub All-Among {ℓ} : {A : Type ℓ} (xs : List A) → All (λ x. Among x xs) xs
All-Among [] = tt
All-Among (x ∷ xs) = (first xs, All-map xs (λ y among. later x xs among) (All-Among xs))
