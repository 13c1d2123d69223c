-- ===== src/Common/Sort.antt =====
-- Go's `sort.Strings` and `sort.Ints`: the ascending list of the same elements. The algorithm of
-- the standard library is not fixed; an insertion sort stands for it, and its result is the only
-- ascending one.
use Prim.Native.String.{String, compare}
use mathlib.Core.Path.{◌≡◌, refl}
use mathlib.Core.Bool.{Bool, false, ◌||◌}
use mathlib.Core.List.{List, [], ◌∷◌}
use native.Mathlib.Omega.{arith}
use text.Mathlib.Text.{is_le}
use roborock_mqtt_loxone.Common.Lists.{any_of, is_empty}
use roborock_mqtt_loxone.Common.Tests.{if◌then◌else◌}

module _ {ℓ} {A : Type ℓ} where
  unfoldable pub insert : (A → A → Bool) → A → List A → List A
  insert le x [] = x ∷ []
  insert le x (y ∷ ys) = let rest = insert le x ys in if le x y then x ∷ y ∷ ys else y ∷ rest

  unfoldable pub sort_by : (A → A → Bool) → List A → List A
  unfolding insert
  sort_by le [] = []
  sort_by le (x ∷ xs) = insert le x (sort_by le xs)

  pub any_of-insert :
      (le : A → A → Bool) (p : A → Bool) (x : A) (xs : List A)
      → any_of p (insert le x xs) ≡ p x || any_of p xs
  unfolding insert
  any_of-insert le p x [] = refl
  any_of-insert le p x (y ∷ ys) = ground (arith, any_of-insert le p x ys)

  pub any_of-sort_by :
      (le : A → A → Bool) (p : A → Bool) (xs : List A) → any_of p (sort_by le xs) ≡ any_of p xs
  unfolding sort_by
  any_of-sort_by le p [] = refl
  any_of-sort_by le p (x ∷ xs) =
      ground (arith, any_of-insert le p x (sort_by le xs), any_of-sort_by le p xs)

module _ {ℓ} {A : Type ℓ} where
  is_empty-insert : (le : A → A → Bool) (x : A) (xs : List A) → is_empty (insert le x xs) ≡ false
  unfolding insert
  is_empty-insert le x [] = refl
  is_empty-insert le x (y ∷ ys) = ground arith

  pub is_empty-sort_by : (le : A → A → Bool) (xs : List A) → is_empty (sort_by le xs) ≡ is_empty xs
  unfolding sort_by
  is_empty-sort_by le [] = refl
  is_empty-sort_by le (x ∷ xs) = is_empty-insert le x (sort_by le xs)

abbrev pub str_le : String → String → Bool
str_le a b = is_le (compare a b)

-- sort.Strings
unfoldable pub sort_strings : List String → List String
unfolding sort_by
sort_strings = sort_by str_le
