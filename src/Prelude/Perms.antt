-- ===== src/Prelude/Perms.antt =====
-- The string sets of `Text` against the library's membership and permutations.
use mathlib.Core.Logic.Or
use mathlib.Core.Logic.{◌↔◌}
use mathlib.Core.Path.{◌≡◌, refl, sym}
use mathlib.Core.Bool.{true, false}
use mathlib.Core.List.{
  List, [], ◌∷◌, Mem, Nodup, Perm, mem-cons, not-mem-nil, mem-cons_of_mem, Nodup-cons, Nodup-nil,
}
use mathlib.Core.List.Perm
use mathlib.Core.HLevel.{hedberg}
use native.Mathlib.Omega.{arith}
use sentinel_fs.Prelude.Tests.{Bool-cases}
use Prim.Native.Nat.{suc}
use native.Mathlib.Nat.{ℕ_set}
use mathlib.Core.Logic.{∥∥₁_elim}
use mathlib.Core.List.{Permᴰ}
use mathlib.Core.Path.{ap, ◌∙◌}
use sentinel_fs.Prelude.Lists.{length}
use sentinel_fs.Prelude.Text.{Str, ◌==◌, eq_iff, mem}
use sentinel_fs.Prelude.Sets.{Distinct}
use mathlib.Core.Logic.{inl, inr}
use mathlib.Core.Bool.{Bool}

Bool-discrete : Discrete Bool
Bool-discrete = hlevel

pub Bool-set : IsSet Bool
Bool-set = hedberg Bool-discrete

mem-true-or : (s x : Str) (xs : List Str) → mem s xs ≡ true → mem s (x ∷ xs) ≡ true
unfolding mem
mem-true-or s x xs h = ground arith

mem-head : (s x : Str) (xs : List Str) → s ≡ x → mem s (x ∷ xs) ≡ true
unfolding mem
mem-head s x xs e = ground (arith, eq_iff x s)

pub mem_iff : (s : Str) (xs : List Str) → (mem s xs ≡ true) ↔ Mem s xs
unfolding mem
mem_iff s [] = (λ h. cc, λ h. absurd (not-mem-nil h))
mem_iff s (x ∷ xs) = (
  λ h. elim (Bool-cases (x == s)) [
    | inl e ↦ mem-cons.1 (Or.inl (sym ((eq_iff x s).0 e)))
    | inr e ↦ mem-cons_of_mem x ((mem_iff s xs).0 (ground arith))
  ],
  λ m.
      Or.elim (Bool-set _ _) (mem-cons.0 m) (mem-head s x xs)
        (λ t. mem-true-or s x xs ((mem_iff s xs).1 t)),
)

mem-false : (s : Str) (xs : List Str) → ¬ Mem s xs → mem s xs ≡ false
mem-false s xs n = elim (Bool-cases (mem s xs)) [
  | inl e ↦ absurd (n ((mem_iff s xs).0 e))
  | inr e ↦ e
]

pub Distinct→Nodup : (xs : List Str) → Distinct xs → Nodup xs
Distinct→Nodup [] d = Nodup-nil
Distinct→Nodup (x ∷ xs) d =
    Nodup-cons.1 (λ m. (cc (d.0, (mem_iff x xs).1 m)), Distinct→Nodup xs d.1)

pub Nodup→Distinct : (xs : List Str) → Nodup xs → Distinct xs
Nodup→Distinct [] d = tt
Nodup→Distinct (x ∷ xs) d =
    (mem-false x xs (Nodup-cons.0 d).0, Nodup→Distinct xs (Nodup-cons.0 d).1)

pub Distinct-perm : {xs ys : List Str} → Perm xs ys → Distinct xs → Distinct ys
Distinct-perm {xs} {ys} p d = Nodup→Distinct ys (Perm.nodup p (Distinct→Nodup xs d))

pub mem-perm : (s : Str) {xs ys : List Str} → Perm xs ys → mem s xs ≡ true → mem s ys ≡ true
mem-perm s {xs} {ys} p h = (mem_iff s ys).1 ((Perm.mem_iff p).0 ((mem_iff s xs).0 h))

length-permᴰ {ℓ} : {A : Type ℓ} {xs ys : List A} → Permᴰ xs ys → length xs ≡ length ys
length-permᴰ Permᴰ.nil = refl
length-permᴰ (Permᴰ.cons e p) = ap suc (length-permᴰ p)
length-permᴰ (Permᴰ.swap e f) = refl
length-permᴰ (Permᴰ.trans p q) = length-permᴰ p ∙ length-permᴰ q

pub length-perm {ℓ} : {A : Type ℓ} {xs ys : List A} → Perm xs ys → length xs ≡ length ys
length-perm p = ∥∥₁_elim p (ℕ_set _ _) length-permᴰ
