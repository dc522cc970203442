-- ===== src/Common/Lists.antt =====
-- Lists measured by native numbers.
use Prim.Native.Nat.{ℕ, suc, ◌+◌, ◌-◌, ◌≤◌}
use mathlib.Core.Path.{◌≡◌}
use mathlib.Core.List.{List, [], ◌∷◌, ◌++◌}
use native.Mathlib.Omega.{arith}
use sdp_project_c.Common.Tests.{◌==◌, if◌then◌else◌}

abbrev pub length {ℓ} : {A : Type ℓ} → List A → ℕ
length [] = 0
length (x ∷ xs) = suc (length xs)

-- How often `t` is on a list, and the list without its first `t`.
unfoldable pub occurrences : ℕ → List ℕ → ℕ
occurrences t [] = 0
occurrences t (x ∷ xs) = (if x == t then 1 else 0) + occurrences t xs

unfoldable pub without : ℕ → List ℕ → List ℕ
without t [] = []
without t (x ∷ xs) = let rest = without t xs in if x == t then xs else (x ∷ rest)

pub occurrences-append :
    (t : ℕ) (xs ys : List ℕ) → occurrences t (xs ++ ys) ≡ occurrences t xs + occurrences t ys
unfolding occurrences
occurrences-append t [] ys = omega arith
occurrences-append t (x ∷ xs) ys = omega (arith, occurrences-append t xs ys)

pub length-append {ℓ} : {A : Type ℓ} (xs ys : List A) → length (xs ++ ys) ≡ length xs + length ys
length-append [] ys = omega arith
length-append (x ∷ xs) ys = omega (arith, length-append xs ys)

pub occurrences-without :
    (t c : ℕ) (xs : List ℕ)
    → occurrences t (without c xs) ≡ occurrences t xs - (if c == t then 1 else 0)
unfolding occurrences without
occurrences-without t c [] = omega arith
occurrences-without t c (x ∷ xs) = ground (arith, occurrences-without t c xs)

pub length-without : (c : ℕ) (xs : List ℕ) → length xs ≤ length (without c xs) + 1
unfolding without
length-without c [] = omega arith
length-without c (x ∷ xs) = ground (arith, length-without c xs)
