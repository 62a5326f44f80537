-- ===== src/Sorting.antt =====
-- sort.Slice: Go sorts up to twelve elements by this insertion sort. What is proved of it, that it
-- permutes and that it orders, holds of every sort that Go may use instead.
pub mod Order
use sentinel_fs.Prelude.{List, [], ◌∷◌, Bool, if◌then◌else◌}
use mathlib.Core.List.{reverse}

module _ {A : Type 0} (less : A → A → Bool) where
  -- One element into a sorted part whose last element stands first.
  unfoldable pub insert_last : A → List A → List A
  insert_last x [] = x ∷ []
  insert_last x (y ∷ ys) = if less x y then y ∷ insert_last x ys else x ∷ y ∷ ys

  unfoldable pub insert_all : List A → List A → List A
  insert_all done [] = done
  insert_all done (x ∷ xs) = insert_all (insert_last x done) xs

  unfoldable pub sort_slice : List A → List A
  unfolding insert_last insert_all
  sort_slice xs = reverse (insert_all [] xs)
