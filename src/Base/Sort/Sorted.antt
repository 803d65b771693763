-- ===== src/Base/Sort/Sorted.antt =====
-- The order of the lists that `sorted` gives.
use mathlib.Core.Path.{◌≡◌}
use mathlib.Core.Logic.{inl, inr}
use mathlib.Core.Bool.{Bool, true, false}
use mathlib.Core.List.{List, [], ◌∷◌}
use carcharoth.Base.Tests.{Bool-cases}
use carcharoth.Base.Lists.{All, All-map}
use carcharoth.Base.Sort.{insert_by, sort_by}

module _ {ℓ} {A : Type ℓ} where
  -- each item stands in the relation to all the later ones
  abbrev pub IsSorted {κ} : (A → A → Type κ) → List A → Type κ
  IsSorted R [] = Unit
  IsSorted R (x ∷ xs) = All (R x) xs × IsSorted R xs

  -- a test that decides which of two items can stand first
  pub record Decides {κ} (le : A → A → Bool) (R : A → A → Type κ) : Type (ℓ ⊔ κ) where
    pub first : (x y : A) → le x y ≡ true → R x y
    pub second : (x y : A) → le x y ≡ false → R y x
    pub trans : (x y z : A) → R x y → R y z → R x z

  pub All-insert_by {κ} :
      (P : A → Type κ) (le : A → A → Bool) (x : A) (xs : List A)
      → P x
      → All P xs
      → All P (insert_by le x xs)
  unfolding insert_by
  All-insert_by P le x [] h k = (h, tt)
  All-insert_by P le x (y ∷ ys) h k = elim (Bool-cases (le x y)) [
    | inl before ↦ rw before (h, k)
    | inr after ↦ rw after (k.0, All-insert_by P le x ys h k.1)
  ]

  pub All-sort_by {κ} :
      (P : A → Type κ) (le : A → A → Bool) (xs : List A) → All P xs → All P (sort_by le xs)
  unfolding sort_by
  All-sort_by P le [] h = tt
  All-sort_by P le (x ∷ xs) h = All-insert_by P le x (sort_by le xs) h.0 (All-sort_by P le xs h.1)

  insert_by-IsSorted {κ} :
      {le : A → A → Bool} {R : A → A → Type κ}
      → Decides le R
      → (x : A) (xs : List A) → IsSorted R xs
      → IsSorted R (insert_by le x xs)
  unfolding insert_by
  insert_by-IsSorted order x [] h = (tt, tt)
  insert_by-IsSorted {le} {R} order x (y ∷ ys) h = elim (Bool-cases (le x y)) [
    | inl before ↦
        let here = order.first x y before in
        rw before ((here, All-map (λ z. order.trans x y z here) ys h.0), h)
    | inr after ↦ rw after (
      All-insert_by (R y) le x ys (order.second x y after) h.0,
      insert_by-IsSorted order x ys h.1,
    )
  ]

  pub sort_by-IsSorted {κ} :
      {le : A → A → Bool} {R : A → A → Type κ}
      → Decides le R
      → (xs : List A) → IsSorted R (sort_by le xs)
  unfolding sort_by
  sort_by-IsSorted order [] = tt
  sort_by-IsSorted {le} order (x ∷ xs) =
      insert_by-IsSorted order x (sort_by le xs) (sort_by-IsSorted order xs)
