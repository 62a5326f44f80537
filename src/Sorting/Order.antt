-- ===== src/Sorting/Order.antt =====
-- What `sort.Slice` promises: the result has the same elements, in an order that `less` allows.
use mathlib.Core.List.{reverse, reverse-cons, reverse_perm, Perm, perm_middle}
use mathlib.Core.List.Perm
use sentinel_fs.Prelude.{
  ℕ, zero, suc, ◌≡◌, inl, inr, List, [], ◌∷◌, ◌++◌, Bool, true, false, All, take, drop, Bool-cases,
}
use sentinel_fs.Sorting.{insert_last, insert_all, sort_slice}

module _ {A : Type 0} (less : A → A → Bool) where
  insert_last-perm : (x : A) (ys : List A) → Perm (insert_last less x ys) (x ∷ ys)
  unfolding insert_last
  insert_last-perm x [] = Perm.rfl
  insert_last-perm x (y ∷ ys) = elim (Bool-cases (less x y)) [
    | inl e ↦ rw e (Perm.trans (Perm.cons y (insert_last-perm x ys)) (Perm.swap x y ys))
    | inr e ↦ rw e Perm.rfl
  ]

  insert_all-perm : (done xs : List A) → Perm (insert_all less done xs) (done ++ xs)
  unfolding insert_all
  insert_all-perm done [] = rw mathlib.Core.List.append-nil Perm.rfl
  insert_all-perm done (x ∷ xs) = Perm.trans (insert_all-perm (insert_last less x done) xs) (
      Perm.trans (Perm.append_right xs (insert_last-perm x done)) (Perm.symm (perm_middle done xs)))

  -- The result of the sort has the elements of the input, each as often.
  pub sort_slice-perm : (xs : List A) → Perm (sort_slice less xs) xs
  unfolding sort_slice
  sort_slice-perm xs = Perm.trans (reverse_perm _) (insert_all-perm [] xs)

  -- No element is less than one that stands before it.
  abbrev pub Rises : List A → Type 0
  Rises [] = Unit
  Rises (x ∷ xs) = All (λ y. less y x ≡ false) xs × Rises xs

  abbrev Falls : List A → Type 0
  Falls [] = Unit
  Falls (x ∷ xs) = All (λ y. less x y ≡ false) xs × Falls xs

module _ {A : Type 0} (P : A → Type 0) where
  All-append : (xs ys : List A) → All P xs → All P ys → All P (xs ++ ys)
  All-append [] ys hx hy = hy
  All-append (x ∷ xs) ys hx hy = (hx.0, All-append xs ys hx.1 hy)

  All-reverse : (xs : List A) → All P xs → All P (reverse xs)
  All-reverse [] h = h
  All-reverse (x ∷ xs) h =
      rw (reverse-cons x xs) (All-append (reverse xs) (x ∷ []) (All-reverse xs h.1) (h.0, tt))

  All-drop : (n : ℕ) (xs : List A) → All P xs → All P (drop n xs)
  All-drop zero xs h = h
  All-drop (suc n) [] h = tt
  All-drop (suc n) (x ∷ xs) h = All-drop n xs h.1

module _ {A : Type 0} (less : A → A → Bool) (Q : A → Type 0) where
  insert_last-All : (x : A) (ys : List A) → Q x → All Q ys → All Q (insert_last less x ys)
  unfolding insert_last
  insert_last-All x [] q h = (q, tt)
  insert_last-All x (y ∷ ys) q h = elim (Bool-cases (less x y)) [
    | inl e ↦ rw e (h.0, insert_last-All x ys q h.1)
    | inr e ↦ rw e (q, h)
  ]

  insert_all-All : (done xs : List A) → All Q done → All Q xs → All Q (insert_all less done xs)
  unfolding insert_all
  insert_all-All done [] d h = d
  insert_all-All done (x ∷ xs) d h =
      insert_all-All (insert_last less x done) xs (insert_last-All x done h.0 d) h.1

  -- What holds of every element holds of every element of the result.
  pub sort_slice-All : (xs : List A) → All Q xs → All Q (sort_slice less xs)
  unfolding sort_slice
  sort_slice-All xs h = All-reverse Q _ (insert_all-All [] xs tt h)

-- `less` orders the elements that satisfy `P`, as `sort.Slice` asks.
pub record Orders {A : Type 0} (less : A → A → Bool) (P : A → Type 0) : Type 0 where
  pub asym : (a b : A) → P a → P b → less a b ≡ true → less b a ≡ false
  pub through :
      (a b c : A) → P a → P b → P c → less a b ≡ false → less b c ≡ false → less a c ≡ false

module _ {A : Type 0} (less : A → A → Bool) (P : A → Type 0) (o : Orders less P) where
  below_rest :
      (x y : A) (ys : List A)
      → P x
      → P y
      → All P ys
      → less x y ≡ false
      → All (λ z. less y z ≡ false) ys
      → All (λ z. less x z ≡ false) ys
  below_rest x y [] px py ps e h = tt
  below_rest x y (z ∷ ys) px py ps e h =
      (o.through x y z px py ps.0 e h.0, below_rest x y ys px py ps.1 e h.1)

  insert_last-Falls :
      (x : A) (ys : List A) → P x → All P ys → Falls less ys → Falls less (insert_last less x ys)
  unfolding insert_last
  insert_last-Falls x [] px ps f = (tt, tt)
  insert_last-Falls x (y ∷ ys) px ps f = elim (Bool-cases (less x y)) [
    | inl e ↦ rw e (
      insert_last-All less (λ z. less y z ≡ false) x ys (o.asym x y px ps.0 e) f.0,
      insert_last-Falls x ys px ps.1 f.1,
    )
    | inr e ↦ rw e ((e, below_rest x y ys px ps.0 ps.1 e f.0), f)
  ]

  insert_all-Falls :
      (done xs : List A)
      → All P done
      → All P xs
      → Falls less done
      → Falls less (insert_all less done xs)
  unfolding insert_all
  insert_all-Falls done [] pd px f = f
  insert_all-Falls done (x ∷ xs) pd px f =
      insert_all-Falls (insert_last less x done) xs (insert_last-All less P x done px.0 pd) px.1
        (insert_last-Falls x done px.0 pd f)

  Rises-append :
      (xs : List A) (x : A)
      → Rises less xs
      → All (λ y. less x y ≡ false) xs
      → Rises less (xs ++ x ∷ [])
  Rises-append [] x r h = (tt, tt)
  Rises-append (y ∷ ys) x r h =
      (All-append (λ z. less z y ≡ false) ys (x ∷ []) r.0 (h.0, tt), Rises-append ys x r.1 h.1)

  reverse-Rises : (xs : List A) → Falls less xs → Rises less (reverse xs)
  reverse-Rises [] f = tt
  reverse-Rises (x ∷ xs) f = rw (reverse-cons x xs) (
      Rises-append (reverse xs) x (reverse-Rises xs f.1)
        (All-reverse (λ y. less x y ≡ false) xs f.0))

  -- The result of the sort is in order.
  pub sort_slice-Rises : (xs : List A) → All P xs → Rises less (sort_slice less xs)
  unfolding sort_slice
  sort_slice-Rises xs ps = reverse-Rises _ (insert_all-Falls [] xs tt ps tt)

  -- Cut anywhere: nothing behind the cut is less than anything before it.
  pub Rises-take :
      (n : ℕ) (xs : List A)
      → Rises less xs
      → All (λ c. All (λ u. less u c ≡ false) (drop n xs)) (take n xs)
  Rises-take zero xs r = tt
  Rises-take (suc n) [] r = tt
  Rises-take (suc n) (x ∷ xs) r = (All-drop (λ u. less u x ≡ false) n xs r.0, Rises-take n xs r.1)
