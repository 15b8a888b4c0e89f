-- ===== src/Exec/Ends.antt =====
-- How a run of a method ends: with a value and a state in which `Q` holds of both, or with an error
-- and a state in which `E` holds.
use bitcask.Prelude.{◌≡◌}
use bitcask.Error.{KvsError, Result, ok, err}
use bitcask.Exec.{Exec, resume, ◌>>=◌}

pub data Ends {S A : Type 0} (Q : A → S → Type 0) (E : S → Type 0) : Result A × S → Type 0 where
  went : (a : A) (t : S) → Q a t → Ends Q E (ok a, t)
  failed : (x : KvsError) (t : S) → E t → Ends Q E (err x, t)

module _ {S A : Type 0} {Q : A → S → Type 0} {E : S → Type 0} where
  -- What holds of the state however the run ended.
  pub Ends-state :
      {r : Result A × S}
      → Ends Q E r
      → (P : S → Type 0) → ((a : A) (t : S) → Q a t → P t)
      → ((t : S) → E t → P t)
      → P r.1
  Ends-state (went a t q) P f g = f a t q
  Ends-state (failed x t e) P f g = g t e

  pub Ends-ok : {r : Result A × S} {a : A} → Ends Q E r → r.0 ≡ ok a → Q a r.1
  Ends-ok {r} {a} (went b t q) e = let same : b ≡ a = cc e in rw (← same) q
  Ends-ok (failed x t f) e = absurd (cc e)

  pub Ends-weaken :
      {R : A → S → Type 0} {F : S → Type 0} {r : Result A × S}
      → Ends Q E r
      → ((a : A) (t : S) → Q a t → R a t)
      → ((t : S) → E t → F t)
      → Ends R F r
  Ends-weaken (went a t q) f g = went a t (f a t q)
  Ends-weaken (failed x t e) f g = failed x t (g t e)

module _ {S A B : Type 0} {Q : A → S → Type 0} {R : B → S → Type 0} {E : S → Type 0} where
  Ends-resume :
      {r : Result A × S} (f : A → Exec S B)
      → Ends Q E r
      → ((a : A) (t : S) → Q a t → Ends R E (f a t))
      → Ends R E (resume r.0 f r.1)
  Ends-resume f (went a t q) k = k a t q
  Ends-resume f (failed x t e) k = failed x t e

  -- The rule for a sequence.
  pub Ends-bind :
      (m : Exec S A) (f : A → Exec S B) (s : S)
      → Ends Q E (m s)
      → ((a : A) (t : S) → Q a t → Ends R E (f a t))
      → Ends R E ((m >>= f) s)
  Ends-bind m f s h k = Ends-resume f h k
