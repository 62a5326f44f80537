-- ===== src/Prelude/Sets.antt =====
-- Laws of the string sets of `Text`, and of lists of distinct strings.
use mathlib.Core.Path.{◌≡◌, refl}
use mathlib.Core.Bool.{true, false, ◌||◌}
use mathlib.Core.List.{List, [], ◌∷◌, ◌++◌}
use Prim.Native.Nat.{ℕ, zero, suc, ◌+◌}
use native.Mathlib.Omega.{arith}
use sentinel_fs.Prelude.Tests.{if◌then◌else◌}
use sentinel_fs.Prelude.Lists.{length, take}
use sentinel_fs.Prelude.Text.{Str, ◌==◌, eq_iff, mem, insert, erase}

pub mem-append : (s : Str) (xs ys : List Str) → mem s (xs ++ ys) ≡ (mem s xs || mem s ys)
unfolding mem
mem-append s [] ys = refl
mem-append s (x ∷ xs) ys = ground (arith, mem-append s xs ys)

pub mem-insert : (s t : Str) (xs : List Str) → mem s (insert t xs) ≡ (t == s || mem s xs)
unfolding mem insert
mem-insert s t xs = ground (arith, mem-append s xs (t ∷ []), eq_iff t s)

-- No string occurs twice.
abbrev pub Distinct : List Str → Type 0
Distinct [] = Unit
Distinct (x ∷ xs) = (mem x xs ≡ false) × Distinct xs

pub mem-erase_ne : (s t : Str) (xs : List Str) → (t == s) ≡ false → mem s (erase t xs) ≡ mem s xs
unfolding mem erase
mem-erase_ne s t [] h = refl
mem-erase_ne s t (x ∷ xs) h =
    ground (arith, mem-erase_ne s t xs h, eq_iff x t, eq_iff x s, eq_iff t s)

-- On distinct strings `erase` removes exactly the one it names.
pub mem-erase :
    (s t : Str) (xs : List Str)
    → Distinct xs
    → mem s (erase t xs) ≡ (if t == s then false else mem s xs)
unfolding mem erase
mem-erase s t [] d = ground arith
mem-erase s t (x ∷ xs) d = ground (arith, mem-erase s t xs d.1, eq_iff x t, eq_iff x s, eq_iff t s)

pub erase-mem-false : (s t : Str) (xs : List Str) → mem s xs ≡ false → mem s (erase t xs) ≡ false
unfolding mem erase
erase-mem-false s t [] h = refl
erase-mem-false s t (x ∷ xs) h = ground (arith, erase-mem-false s t xs)

pub erase-Distinct : (t : Str) (xs : List Str) → Distinct xs → Distinct (erase t xs)
unfolding erase
erase-Distinct t [] d = tt
erase-Distinct t (x ∷ xs) d = ground (arith, erase-Distinct t xs d.1, erase-mem-false x t xs d.0)

pub append-Distinct :
    (xs : List Str) (s : Str) → Distinct xs → mem s xs ≡ false → Distinct (xs ++ s ∷ [])
unfolding mem
append-Distinct [] s d h = (refl, tt)
append-Distinct (x ∷ xs) s d h =
    ground (arith, append-Distinct xs s d.1, mem-append x xs (s ∷ []), eq_iff s x, eq_iff x s)

pub insert-Distinct : (xs : List Str) (s : Str) → Distinct xs → Distinct (insert s xs)
unfolding insert
insert-Distinct xs s d = ground (arith, append-Distinct xs s d)

pub length-erase : (s : Str) (xs : List Str) → mem s xs ≡ true → length (erase s xs) + 1 ≡ length xs
unfolding mem erase
length-erase s [] h = cc
length-erase s (x ∷ xs) h = ground (arith, length-erase s xs)

mem-take-false : (s : Str) (n : ℕ) (xs : List Str) → mem s xs ≡ false → mem s (take n xs) ≡ false
unfolding mem
mem-take-false s zero xs h = refl
mem-take-false s (suc n) [] h = refl
mem-take-false s (suc n) (x ∷ xs) h = ground (arith, mem-take-false s n xs)

pub take-Distinct : (n : ℕ) (xs : List Str) → Distinct xs → Distinct (take n xs)
take-Distinct zero xs d = tt
take-Distinct (suc n) [] d = tt
take-Distinct (suc n) (x ∷ xs) d = (mem-take-false x n xs d.0, take-Distinct n xs d.1)
