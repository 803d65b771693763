-- ===== src/Base/Sort.antt =====
-- Python's `sorted`, which is stable, and `dict.fromkeys`, which keeps the first of equal items.
pub mod Sorted
use Prim.Native.String.{String, compare}
use mathlib.Core.Bool.{Bool, true, false, ◌||◌}
use mathlib.Core.List.{List, [], ◌∷◌}
use text.Mathlib.Text.{is_le}
use carcharoth.Base.Tests.{if◌then◌else◌}
use carcharoth.Base.Eq.{Eq, ◌==◌}

-- `s <= t`, by code points
abbrev pub string_le : String → String → Bool
string_le s t = is_le (compare s t)

module _ {ℓ} {A : Type ℓ} where
  unfoldable pub insert_by : (A → A → Bool) → A → List A → List A
  insert_by le x [] = x ∷ []
  insert_by le x (y ∷ ys) = let rest = y ∷ insert_by le x ys in if le x y then x ∷ y ∷ ys else rest

  -- `sorted(xs, key=...)`, where `le` compares the keys
  unfoldable pub sort_by : (A → A → Bool) → List A → List A
  unfolding insert_by
  sort_by le [] = []
  sort_by le (x ∷ xs) = insert_by le x (sort_by le xs)

module _ {ℓ} {A : Type ℓ} ⦃e : Eq A⦄ where
  unfoldable pub elem : A → List A → Bool
  elem a [] = false
  elem a (x ∷ xs) = a == x || elem a xs

  -- the items that are not in `seen` yet, each once
  unfoldable pub fresh_items : List A → List A → List A
  unfolding elem
  fresh_items seen [] = []
  fresh_items seen (x ∷ xs) = elim (elem x seen) [
    | true ↦ fresh_items seen xs
    | false ↦ x ∷ fresh_items (x ∷ seen) xs
  ]

  -- `list(dict.fromkeys(xs))`
  unfoldable pub dedupe : List A → List A
  unfolding fresh_items
  dedupe = fresh_items []
