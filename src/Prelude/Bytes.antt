-- ===== src/Prelude/Bytes.antt =====
-- Bytes, ASCII literals as bytes, and equality of byte strings.
use Prim.Native.Nat.{ℕ, ◌<◌, ◌≤◌, ◌+◌, ◌-◌}
use Prim.Native.Char.{code}
use Prim.Native.String.{String}
use mathlib.Core.Path.{◌≡◌, refl}
use mathlib.Core.Logic.{◌↔◌}
use mathlib.Core.Bool.{Bool, true, false, ◌&&◌}
use mathlib.Core.List.{List, [], ◌∷◌, ◌++◌}
use native.Mathlib.Omega.{arith}
use bitcask.Prelude.Tests.{◌==◌, leb, if◌then◌else◌}
use bitcask.Prelude.Lists.{length, take, drop, length-append, drop-drop, drop-append, take-append}
use mathlib.Core.Option.{Option, none, some}

abbrev pub Bytes : Type 0
Bytes = List ℕ

abbrev pub IsByte : ℕ → Type 0
IsByte b = b < 256

-- The bytes of an ASCII literal.
abbrev pub codes : String → Bytes
codes String.[] = []
codes (String.◌∷◌ c s) = code c ∷ codes s

unfoldable pub bytes_eq : Bytes → Bytes → Bool
bytes_eq [] [] = true
bytes_eq [] (y ∷ ys) = false
bytes_eq (x ∷ xs) [] = false
bytes_eq (x ∷ xs) (y ∷ ys) = x == y && bytes_eq xs ys

pub bytes_eq_iff : (xs ys : Bytes) → (bytes_eq xs ys ≡ true) ↔ (xs ≡ ys)
unfolding bytes_eq
bytes_eq_iff [] [] = (λ _. refl, λ _. refl)
bytes_eq_iff [] (y ∷ ys) = (λ h. cc, λ h. cc)
bytes_eq_iff (x ∷ xs) [] = (λ h. cc, λ h. cc)
bytes_eq_iff (x ∷ xs) (y ∷ ys) =
    (λ h. ground (arith, bytes_eq_iff xs ys), λ h. ground (arith, bytes_eq_iff xs ys))

pub bytes_eq_refl : (xs : Bytes) → bytes_eq xs xs ≡ true
bytes_eq_refl xs = (bytes_eq_iff xs xs).1 refl

-- `xs.ends_with(ys)`
abbrev pub ends_with : Bytes → Bytes → Bool
ends_with xs ys = leb (length ys) (length xs) && bytes_eq (drop (length xs - length ys) xs) ys

-- `xs.strip_suffix(ys)`
abbrev pub strip_suffix : Bytes → Bytes → Option Bytes
strip_suffix xs ys = if ends_with xs ys then some (take (length xs - length ys) xs) else none

-- Only the last bytes count.
pub ends_with-append :
    (xs ys suffix : Bytes)
    → length suffix ≤ length ys
    → ends_with (xs ++ ys) suffix ≡ ends_with ys suffix
ends_with-append xs ys suffix h =
    let size = length-append xs ys in
    let cut : length (xs ++ ys) - length suffix ≡ length xs + (length ys - length suffix) =
      omega arith in
    let long : leb (length suffix) (length (xs ++ ys)) ≡ leb (length suffix) (length ys) =
      ground (arith, size, h) in
    rw
      (cut, long, ← drop-drop (length ys - length suffix) (length xs) (xs ++ ys), drop-append xs ys)
      refl

pub strip_suffix-append : (xs suffix : Bytes) → strip_suffix (xs ++ suffix) suffix ≡ some xs
strip_suffix-append xs suffix =
    let size = length-append xs suffix in
    let cut : length (xs ++ suffix) - length suffix ≡ length xs = omega arith in
    let long : leb (length suffix) (length (xs ++ suffix)) ≡ true = ground (arith, size) in
    rw (cut, long, drop-append xs suffix, bytes_eq_refl suffix, take-append xs suffix) refl

-- The end of what a text ends with.
pub ends_with-tail :
    (xs front tail : Bytes) → ends_with xs (front ++ tail) ≡ true → ends_with xs tail ≡ true
ends_with-tail xs front tail e =
    let size = length-append front tail in
    let long : length (front ++ tail) ≤ length xs = ground (arith, e) in
    let same : drop (length xs - length (front ++ tail)) xs ≡ front ++ tail =
      (bytes_eq_iff (drop (length xs - length (front ++ tail)) xs) (front ++ tail)).0
        (ground (arith, e)) in
    let cut : length xs - length tail ≡ (length xs - length (front ++ tail)) + length front =
      omega arith in
    let fits : leb (length tail) (length xs) ≡ true = ground (arith, size, long) in
    rw
      (
        cut,
        fits,
        ← drop-drop (length front) (length xs - length (front ++ tail)) xs,
        same,
        drop-append front tail,
      )
      (bytes_eq_refl tail)
