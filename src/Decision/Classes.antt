-- ===== src/Decision/Classes.antt =====
-- modeling/decision.py: the classification policy.
use carcharoth.Base.{
  [], ◌∷◌, true, false, All, arith, ◌≡◌, ◌⊎◌, Bool-cases, inl, inr, refl, subst, sym,
}
use carcharoth.Base.Float.{Float, IsFloat, ◌≺◌}
use carcharoth.Base.Dict.{Dict}
use carcharoth.Base.Result.{ok}
use carcharoth.Domain.{TargetExposure}
use carcharoth.Decision.{DecisionPolicyConfig, largest, classification}

-- the pair stands among the items
abbrev pub IsItem : {F : Type 0} → TargetExposure × F → Dict TargetExposure F → Type 0
IsItem x [] = ⊥
IsItem x (item ∷ rest) = (x ≡ item) ⊎ IsItem x rest

module _ {F : Type 0} ⦃num : Float F⦄ where
  -- no item is strictly above `p`
  abbrev pub IsLargest : F → Dict TargetExposure F → Type 0
  IsLargest p items = All (λ item. p ≺ item.1 ≡ false) items

IsItem-skip :
    {F : Type 0} {x : TargetExposure × F} (best item : TargetExposure × F)
    (rest : Dict TargetExposure F)
    → IsItem x (best ∷ rest)
    → IsItem x (best ∷ item ∷ rest)
IsItem-skip best item rest (inl e) = inl e
IsItem-skip best item rest (inr m) = inr (inr m)

module _ {F : Type 0} ⦃num : Float F⦄ where
  largest_up :
      (best item : TargetExposure × F) (rest : Dict TargetExposure F)
      → best.1 ≺ item.1 ≡ true
      → largest best (item ∷ rest) ≡ largest item rest
  unfolding largest
  largest_up best item rest h = rw (h, largest)

  largest_stay :
      (best item : TargetExposure × F) (rest : Dict TargetExposure F)
      → best.1 ≺ item.1 ≡ false
      → largest best (item ∷ rest) ≡ largest best rest
  unfolding largest
  largest_stay best item rest h = rw (h, largest)

  largest-IsItem :
      (best : TargetExposure × F) (items : Dict TargetExposure F)
      → IsItem (largest best items) (best ∷ items)
  largest-IsItem best [] = inl (unfold largest in refl)
  largest-IsItem best (item ∷ rest) =
      let P = λ (x : TargetExposure × F). IsItem x (best ∷ item ∷ rest) in
      elim (Bool-cases (best.1 ≺ item.1)) [
        | inl up ↦ subst P (sym (largest_up best item rest up)) (inr (largest-IsItem item rest))
        | inr stay ↦
            subst P (sym (largest_stay best item rest stay))
              (IsItem-skip best item rest (largest-IsItem best rest))
      ]

module _ {F : Type 0} ⦃num : Float F⦄ (laws : IsFloat F) where
  largest-over :
      (p : F) (best : TargetExposure × F) (items : Dict TargetExposure F)
      → best.1 ≺ p ≡ false
      → (largest best items).1 ≺ p ≡ false
  largest-over p best [] h = unfold largest in h
  largest-over p best (item ∷ rest) h = elim (Bool-cases (best.1 ≺ item.1)) [
    | inl up ↦
        rw (largest_up best item rest up)
          (largest-over p item rest (ground (arith, laws.lt_trans best.1 item.1 p, up, h)))
    | inr stay ↦ rw (largest_stay best item rest stay) (largest-over p best rest h)
  ]

  largest-IsLargest :
      (best : TargetExposure × F) (items : Dict TargetExposure F)
      → IsLargest (largest best items).1 items
  largest-IsLargest best [] = tt
  largest-IsLargest best (item ∷ rest) =
      let P = λ (x : TargetExposure × F). IsLargest x.1 (item ∷ rest) in
      elim (Bool-cases (best.1 ≺ item.1)) [
        | inl up ↦
            subst P (sym (largest_up best item rest up))
              (largest-over item.1 item rest (laws.lt_irrefl item.1), largest-IsLargest item rest)
        | inr stay ↦
            subst P (sym (largest_stay best item rest stay))
              (largest-over item.1 best rest stay, largest-IsLargest best rest)
      ]

  -- The classification policy answers FLAT, or a class of the prediction whose probability is not
  -- below the threshold and to which no class of the prediction is strictly preferred.
  pub classification-IsLargest :
      (config : DecisionPolicyConfig F) (items : Dict TargetExposure F) (target : TargetExposure)
      → classification config items ≡ ok target
      → (target ≡ TargetExposure.flat)
        ⊎ ((p : F) × IsItem (target, p) items
            × IsLargest p items
            × (p ≺ config.class_probability_threshold ≡ false))
  unfolding classification
  classification-IsLargest config [] target h = cc
  classification-IsLargest config (item ∷ rest) target h =
      let best = largest item rest in
      elim (Bool-cases (best.1 ≺ config.class_probability_threshold)) [
        | inl below ↦ inl (ground (arith, below))
        | inr above ↦ inr (
          best.1,
          subst (λ t. IsItem (t, best.1) (item ∷ rest)) (ground (arith, above, h))
              (largest-IsItem item rest),
          (largest-over item.1 item rest (laws.lt_irrefl item.1), largest-IsLargest item rest),
          above,
        )
      ]
