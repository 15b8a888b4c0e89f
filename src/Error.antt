-- ===== src/Error.antt =====
-- storage/error.rs: the errors, and `Result`.
use bitcask.Prelude.{ℕ, ◌≡◌, refl, ◌⊎◌, inl, inr, Bool, true, false, if◌then◌else◌}
use bitcask.Prelude.Bytes.{Bytes}

-- The kinds of `io::Error` that the code makes or tells apart.
pub data IoErrorKind : Type 0 where
  unexpected_eof invalid_data not_found other : IoErrorKind

pub data KvsError : Type 0 where
  io : IoErrorKind → KvsError
  serde : KvsError
  key_not_found : KvsError
  unexpected_command_type : KvsError
  corruption : KvsError
  clock : KvsError
  utf8 : KvsError
  missing_data_file : ℕ → KvsError
  lock_poisoned : KvsError
  store_locked : KvsError
  invalid_data : Bytes → KvsError
  server_internal : KvsError
  engine_mismatch : Bytes → Bytes → KvsError

pub data Result {ℓ} (A : Type ℓ) : Type ℓ where
  ok : A → Result A
  err : KvsError → Result A

-- The `?` operator.
infixl 5 ◌>>=◌
abbrev pub ◌>>=◌ {ℓ κ} : {A : Type ℓ} {B : Type κ} → Result A → (A → Result B) → Result B
ok a >>= f = f a
err e >>= f = err e

-- What a `?` that went through says of its operand, whose value is a variable in what follows.
pub ok-bind {ℓ κ μ} :
    {A : Type ℓ} {B : Type κ} {P : Type μ} (m : Result A) (f : A → Result B) {b : B}
    → (m >>= f) ≡ ok b
    → ((a : A) → m ≡ ok a → f a ≡ ok b → P)
    → P
ok-bind (ok a) f h k = k a refl h
ok-bind (err e) f h k = absurd (cc h)

-- The two guards of the source: fail unless the test holds, and fail if it does.
pub if-ok :
    (b : Bool) (x : KvsError) {A : Type 0} {a r : A}
    → (if b then ok a else err x) ≡ ok r
    → (b ≡ true) × (a ≡ r)
if-ok true x e = (refl, cc e)
if-ok false x e = cc e

pub require-ok :
    (b : Bool) (x : KvsError) {A : Type 0} {m : Result A} {r : A}
    → (if b then m else err x) ≡ ok r
    → (b ≡ true) × (m ≡ ok r)
require-ok true x e = (refl, e)
require-ok false x e = cc e

pub refuse-ok :
    (b : Bool) (x : KvsError) {A : Type 0} {m : Result A} {r : A}
    → (if b then err x else m) ≡ ok r
    → (b ≡ false) × (m ≡ ok r)
refuse-ok true x e = cc e
refuse-ok false x e = (refl, e)

pub Result-cases {ℓ} :
    {A : Type ℓ} (r : Result A) → ((a : A) × (r ≡ ok a)) ⊎ ((e : KvsError) × (r ≡ err e))
Result-cases (ok a) = inl (a, refl)
Result-cases (err e) = inr (e, refl)
