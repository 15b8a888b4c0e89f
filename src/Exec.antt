-- ===== src/Exec.antt =====
-- Methods that change a shared state and may fail. What was done before an error stays done, so the
-- state comes back beside the error too.
pub mod Ends
use bitcask.Prelude.{◌≡◌, refl, Bool, if◌then◌else◌}
use bitcask.Error.{KvsError, Result, ok, err}

abbrev pub Exec {ℓ} : Type 0 → Type ℓ → Type ℓ
Exec S A = S → Result A × S

module _ {ℓ κ} {S : Type 0} {A : Type ℓ} {B : Type κ} where
  abbrev pub resume : Result A → (A → Exec S B) → Exec S B
  resume (ok a) f s = f a s
  resume (err e) f s = (err e, s)

module _ {ℓ κ} {S : Type 0} {A : Type ℓ} {B : Type κ} where
  infixl 5 ◌>>=◌
  abbrev pub ◌>>=◌ : Exec S A → (A → Exec S B) → Exec S B
  ◌>>=◌ m f s = resume (m s).0 f (m s).1

module _ {ℓ} {S : Type 0} {B : Type ℓ} where
  infixl 5 ◌>>◌
  abbrev pub ◌>>◌ : Exec S (Unit {0}) → Exec S B → Exec S B
  m >> k = m >>= λ _. k

module _ {ℓ} {S : Type 0} {A : Type ℓ} where
  abbrev pub pure : A → Exec S A
  pure a s = (ok a, s)

  abbrev pub raise : KvsError → Exec S A
  raise e s = (err e, s)

  abbrev pub lift : Result A → Exec S A
  lift r s = (r, s)

  abbrev pub gets : (S → A) → Exec S A
  gets f s = (ok (f s), s)

abbrev pub modify : {S : Type 0} → (S → S) → Exec S (Unit {0})
modify f s = (ok tt, f s)

abbrev pub when : {S : Type 0} → Bool → Exec S (Unit {0}) → Exec S (Unit {0})
when b m = if b then m else pure tt

module _ {ℓ κ μ} {S : Type 0} {A : Type ℓ} {B : Type κ} {P : Type μ} where
  -- A sequence that went through: its first part did, and left the state in which the rest ran.
  pub ok-seq :
      (m : Exec S A) (f : A → Exec S B) (s : S) {b : B}
      → ((m >>= f) s).0 ≡ ok b
      → ((a : A) → (m s).0 ≡ ok a → (f a (m s).1).0 ≡ ok b → P)
      → P
  ok-seq m f s {b} e k = go (m s).0 refl e
    where
      go : (r : Result A) → (m s).0 ≡ r → (resume r f (m s).1).0 ≡ ok b → P
      go (ok a) h e = k a h e
      go (err x) h e = absurd (cc e)
