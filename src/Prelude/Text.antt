-- ===== src/Prelude/Text.antt =====
-- Go strings as lists of bytes, with their equality test and sets of them.
use Prim.Native.Nat.{ℕ}
use Prim.Native.Char.{code}
use Prim.Native.String.{String}
use mathlib.Core.Path.{◌≡◌, refl}
use mathlib.Core.Logic.{◌↔◌}
use mathlib.Core.Bool.{Bool, true, false, ◌&&◌, ◌||◌}
use mathlib.Core.List.{List, [], ◌∷◌, ◌++◌}
use native.Mathlib.Omega.{arith}
use sentinel_fs.Prelude.Tests.{eqb, if◌then◌else◌}

abbrev pub Str : Type 0
Str = List ℕ

-- The bytes of an ASCII literal.
abbrev pub bytes : String → Str
bytes String.[] = []
bytes (String.◌∷◌ c s) = code c ∷ bytes s

infix 50 ◌==◌
unfoldable pub ◌==◌ : Str → Str → Bool
[] == [] = true
[] == (b ∷ t) = false
(a ∷ s) == [] = false
(a ∷ s) == (b ∷ t) = eqb a b && s == t

pub eq_iff : (s t : Str) → ((s == t) ≡ true) ↔ (s ≡ t)
unfolding ◌==◌
eq_iff [] [] = (λ h. refl, λ h. refl)
eq_iff [] (b ∷ t) = (λ h. cc, λ h. cc)
eq_iff (a ∷ s) [] = (λ h. cc, λ h. cc)
eq_iff (a ∷ s) (b ∷ t) = (λ h. ground (arith, eq_iff s t), λ h. ground (arith, eq_iff s t))

pub eq_refl : (s : Str) → (s == s) ≡ true
eq_refl s = (eq_iff s s).1 refl

-- A `map[string]bool` whose values are all true: the list of its keys.
unfoldable pub mem : Str → List Str → Bool
mem s [] = false
mem s (t ∷ ts) = t == s || mem s ts

-- set[s] = true
unfoldable pub insert : Str → List Str → List Str
unfolding mem
insert s ts = if mem s ts then ts else ts ++ s ∷ []

-- delete(set, s), and the removal of the first occurrence in a slice
unfoldable pub erase : Str → List Str → List Str
erase s [] = []
erase s (t ∷ ts) = if t == s then ts else t ∷ erase s ts
