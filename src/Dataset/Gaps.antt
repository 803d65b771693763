-- ===== src/Dataset/Gaps.antt =====
-- modeling/dataset.py: the prefix sums by which the target path is tested for gaps.
use carcharoth.Base.{
  ℕ, zero, suc, ◌+◌, ◌≤◌, ◌<◌, List, [], ◌∷◌, Bool, true, false, ◌&&◌, length, drop, get_elem?,
  or_else, arith, ◌≡◌, refl, if◌then◌else◌,
}
use carcharoth.Base.Eq.{◌==◌, nat_eq}
use carcharoth.Domain.{Bar}

abbrev pub sum_at : List ℕ → ℕ → ℕ
sum_at sums i = or_else (get_elem? sums i) 0

module _ {F : Type 0} where
  -- `b.timestamp - a.timestamp != step`
  abbrev pub gap : ℕ → Bar F → Bar F → ℕ
  gap step a b = if b.timestamp == a.timestamp + step then 0 else 1

  -- `np.cumsum([0, *gaps])`, from a sum on
  unfoldable pub gap_sums : ℕ → ℕ → List (Bar F) → List ℕ
  gap_sums step sum [] = []
  gap_sums step sum (a ∷ []) = sum ∷ []
  gap_sums step sum (a ∷ b ∷ bars) = sum ∷ gap_sums step (sum + gap step a b) (b ∷ bars)

  -- the next `n` bars follow one another by a step each
  abbrev pub is_contiguous : ℕ → ℕ → List (Bar F) → Bool
  is_contiguous step zero bars = true
  is_contiguous step (suc n) [] = false
  is_contiguous step (suc n) (a ∷ []) = false
  is_contiguous step (suc n) (a ∷ b ∷ bars) =
      b.timestamp == a.timestamp + step && is_contiguous step n (b ∷ bars)

  gap_sums-ge :
      (step sum n : ℕ) (bars : List (Bar F))
      → n < length bars
      → sum ≤ sum_at (gap_sums step sum bars) n
  unfolding gap_sums
  gap_sums-ge step sum n [] h = absurd (omega arith)
  gap_sums-ge step sum zero (a ∷ []) h = omega arith
  gap_sums-ge step sum (suc n) (a ∷ []) h = absurd (omega arith)
  gap_sums-ge step sum zero (a ∷ b ∷ bars) h = omega arith
  gap_sums-ge step sum (suc n) (a ∷ b ∷ bars) h =
      omega (arith, gap_sums-ge step (sum + gap step a b) n (b ∷ bars) (omega arith))

  gap_sums-zero :
      (step sum : ℕ) (a : Bar F) (bars : List (Bar F))
      → sum_at (gap_sums step sum (a ∷ bars)) 0 ≡ sum
  unfolding gap_sums
  gap_sums-zero step sum a [] = refl
  gap_sums-zero step sum a (b ∷ bars) = refl

  -- a sum that has not grown has met no gap
  gap_sums-contiguous :
      (step sum n : ℕ) (bars : List (Bar F))
      → n < length bars
      → (sum_at (gap_sums step sum bars) n == sum) ≡ is_contiguous step n bars
  unfolding gap_sums
  gap_sums-contiguous step sum n [] h = absurd (omega arith)
  gap_sums-contiguous step sum zero (a ∷ bars) h = ground (arith, gap_sums-zero step sum a bars)
  gap_sums-contiguous step sum (suc n) (a ∷ []) h = absurd (omega arith)
  gap_sums-contiguous step sum (suc n) (a ∷ b ∷ bars) h =
      ground
        (arith, gap_sums-contiguous step sum n (b ∷ bars), gap_sums-ge step (sum + 1) n (b ∷ bars))

  gap_sums-drop :
      (step sum i n j : ℕ) (bars : List (Bar F))
      → j ≡ i + n
      → j < length bars
      → (sum_at (gap_sums step sum bars) j == sum_at (gap_sums step sum bars) i)
        ≡ is_contiguous step n (drop i bars)
  unfolding gap_sums
  gap_sums-drop step sum i n j [] e h = absurd (omega arith)
  gap_sums-drop step sum zero n j (a ∷ bars) e h =
      let same : j ≡ n = omega (arith, e) in
      rw (same, gap_sums-zero step sum a bars)
        (gap_sums-contiguous step sum n (a ∷ bars) (omega (arith, h, same)))
  gap_sums-drop step sum (suc i) n zero (a ∷ bars) e h = absurd (omega (arith, e))
  gap_sums-drop step sum (suc i) n (suc j) (a ∷ []) e h = absurd (omega (arith, h))
  gap_sums-drop step sum (suc i) n (suc j) (a ∷ b ∷ bars) e h =
      gap_sums-drop step (sum + gap step a b) i n j (b ∷ bars) (omega (arith, e)) (omega (arith, h))

  -- The test by prefix sums is the test of each step: for positions within the bars, the sums at two
  -- of them are equal exactly when every bar from the first on to the second follows the one before
  -- it by the step.
  pub gap_sums-eq-contiguous :
      (step i n : ℕ) (bars : List (Bar F))
      → i + n < length bars
      → (sum_at (gap_sums step 0 bars) (i + n) == sum_at (gap_sums step 0 bars) i)
        ≡ is_contiguous step n (drop i bars)
  gap_sums-eq-contiguous step i n bars h = gap_sums-drop step 0 i n (i + n) bars refl h
