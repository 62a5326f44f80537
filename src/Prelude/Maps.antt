-- ===== src/Prelude/Maps.antt =====
-- A Go `map[string]V`: its entries in the order in which the next `range` visits them. Go leaves
-- that order open, so nothing may rest on it: two maps with the same lookups are one map.
use Prim.Native.Nat.{◌+◌}
use mathlib.Core.Path.{◌≡◌, refl}
use mathlib.Core.Bool.{true, false, ◌||◌}
use mathlib.Core.Option.{Option, none, some}
use mathlib.Core.List.{List, [], ◌∷◌}
use native.Mathlib.Omega.{arith}
use mathlib.Core.Logic.{◌⊎◌, inl, inr}
use sentinel_fs.Prelude.Tests.{if◌then◌else◌, Bool-cases}
use sentinel_fs.Prelude.Lists.{length}
use sentinel_fs.Prelude.Text.{Str, ◌==◌, eq_iff, mem}
use sentinel_fs.Prelude.Sets.{Distinct}

abbrev pub Map : Type 0 → Type 0
Map V = List (Str × V)

module _ {V : Type 0} where
  abbrev pub keys : Map V → List Str
  keys [] = []
  keys ((k, v) ∷ m) = k ∷ keys m

  abbrev pub values : Map V → List V
  values [] = []
  values ((k, v) ∷ m) = v ∷ values m

  -- v, ok := m[k]
  unfoldable pub lookup : Str → Map V → Option V
  lookup k [] = none
  lookup k ((j, v) ∷ m) = if j == k then some v else lookup k m

  -- m[k] = v
  unfoldable pub put : Str → V → Map V → Map V
  put k v [] = (k, v) ∷ []
  put k v ((j, w) ∷ m) = if j == k then (j, v) ∷ m else (j, w) ∷ put k v m

  -- delete(m, k)
  unfoldable pub delete : Str → Map V → Map V
  delete k [] = []
  delete k ((j, v) ∷ m) = if j == k then m else (j, v) ∷ delete k m

  -- A write through the pointer that m[k] holds, if there is one.
  unfoldable pub modify : Str → (V → V) → Map V → Map V
  modify k f [] = []
  modify k f ((j, v) ∷ m) = if j == k then (j, f v) ∷ m else (j, v) ∷ modify k f m

  abbrev pub map_option : (V → V) → Option V → Option V
  map_option f none = none
  map_option f (some v) = some (f v)

  pub lookup-put :
      (k j : Str) (v : V) (m : Map V)
      → lookup j (put k v m) ≡ (if k == j then some v else lookup j m)
  unfolding lookup put
  lookup-put k j v [] = refl
  lookup-put k j v ((i, w) ∷ m) =
      ground (arith, eq_iff k j, eq_iff i k, eq_iff i j, lookup-put k j v m)

  pub lookup-modify :
      (k j : Str) (f : V → V) (m : Map V)
      → lookup j (modify k f m) ≡ (if k == j then map_option f (lookup j m) else lookup j m)
  unfolding lookup modify
  lookup-modify k j f [] = ground arith
  lookup-modify k j f ((i, w) ∷ m) =
      ground (arith, eq_iff k j, eq_iff i k, eq_iff i j, lookup-modify k j f m)

  pub keys-modify : (k : Str) (f : V → V) (m : Map V) → keys (modify k f m) ≡ keys m
  unfolding modify
  keys-modify k f [] = refl
  keys-modify k f ((j, v) ∷ m) = ground (arith, keys-modify k f m)

  pub mem-keys-put :
      (k j : Str) (v : V) (m : Map V) → mem j (keys (put k v m)) ≡ (k == j || mem j (keys m))
  unfolding put mem
  mem-keys-put k j v [] = refl
  mem-keys-put k j v ((i, w) ∷ m) = ground (arith, eq_iff i k, eq_iff k j, mem-keys-put k j v m)

  pub keys-put-Distinct :
      (k : Str) (v : V) (m : Map V) → Distinct (keys m) → Distinct (keys (put k v m))
  unfolding put mem
  keys-put-Distinct k v [] d = (refl, tt)
  keys-put-Distinct k v ((i, w) ∷ m) d =
      ground (arith, keys-put-Distinct k v m d.1, mem-keys-put k i v m, eq_iff k i, eq_iff i k)

  pub mem-keys-delete-false :
      (k j : Str) (m : Map V) → mem j (keys m) ≡ false → mem j (keys (delete k m)) ≡ false
  unfolding delete mem
  mem-keys-delete-false k j [] h = refl
  mem-keys-delete-false k j ((i, w) ∷ m) h = ground (arith, mem-keys-delete-false k j m)

  pub keys-delete-Distinct :
      (k : Str) (m : Map V) → Distinct (keys m) → Distinct (keys (delete k m))
  unfolding delete
  keys-delete-Distinct k [] d = tt
  keys-delete-Distinct k ((i, w) ∷ m) d =
      ground (arith, keys-delete-Distinct k m d.1, mem-keys-delete-false k i m d.0)

  pub lookup-mem-false : (k : Str) (m : Map V) → mem k (keys m) ≡ false → lookup k m ≡ none
  unfolding lookup mem
  lookup-mem-false k [] h = refl
  lookup-mem-false k ((i, w) ∷ m) h = ground (arith, lookup-mem-false k m)

  pub lookup-mem-true : (k : Str) (m : Map V) {v : V} → lookup k m ≡ some v → mem k (keys m) ≡ true
  unfolding lookup mem
  lookup-mem-true k [] h = cc
  lookup-mem-true k ((i, w) ∷ m) {v} h = ground (arith, lookup-mem-true k m {v = v})

  -- On distinct keys `delete` removes exactly the key it names.
  pub lookup-delete :
      (k j : Str) (m : Map V)
      → Distinct (keys m)
      → lookup j (delete k m) ≡ (if k == j then none else lookup j m)
  unfolding lookup delete
  lookup-delete k j [] d = ground arith
  lookup-delete k j ((i, w) ∷ m) d =
      ground
        (arith, eq_iff k j, eq_iff i k, eq_iff i j, lookup-delete k j m d.1, lookup-mem-false i m)

  pub length-put_new :
      (k : Str) (v : V) (m : Map V) → lookup k m ≡ none → length (put k v m) ≡ length m + 1
  unfolding lookup put
  length-put_new k v [] h = omega arith
  length-put_new k v ((i, w) ∷ m) h = ground (arith, length-put_new k v m)

  pub length-modify : (k : Str) (f : V → V) (m : Map V) → length (modify k f m) ≡ length m
  unfolding modify
  length-modify k f [] = refl
  length-modify k f ((i, w) ∷ m) = ground (arith, length-modify k f m)

  pub lookup_of_mem-keys :
      (k : Str) (m : Map V) → mem k (keys m) ≡ true → (v : V) × (lookup k m ≡ some v)
  unfolding lookup mem
  lookup_of_mem-keys k [] h = cc
  lookup_of_mem-keys k ((i, w) ∷ m) h = elim (Bool-cases (i == k)) [
    | inl e ↦ (w, rw e)
    | inr e ↦ let (v, found) = lookup_of_mem-keys k m (ground arith) in (v, rw e found)
  ]

  -- What a lookup finds after a write.
  pub lookup-put_cases :
      (k : Str) (v : V) (m : Map V) (j : Str) (w : V)
      → lookup j (put k v m) ≡ some w
      → ((k ≡ j) × (v ≡ w)) ⊎ (((k == j) ≡ false) × (lookup j m ≡ some w))
  lookup-put_cases k v m j w h = elim (Bool-cases (k == j)) [
    | inl hit ↦ inl ((eq_iff k j).0 hit, ground (arith, lookup-put k j v m))
    | inr miss ↦ inr (miss, ground (arith, lookup-put k j v m))
  ]
