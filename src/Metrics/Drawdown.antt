-- ===== src/Metrics/Drawdown.antt =====
-- analysis/metrics.py: `_max_drawdown` along an equity curve.
use mathlib.Core.List.{append-nil, append_assoc}
use carcharoth.Base.{
  List, [], ◌∷◌, ◌++◌, All, All-append, true, false, arith, ◌≡◌, ◌⊎◌, inl, inr, refl, sym, ap,
  subst, ◌∙◌, Bool-cases,
}
use carcharoth.Base.Float.{Float, IsFloat, ◌⊖◌, ◌≺◌, nought, one, divide, fmax}
use carcharoth.Base.Result.{ok, >>=-eq-ok, ok-inj}
use carcharoth.Metrics.Summary.{drawdown_from, max_drawdown}

module _ {F : Type 0} where
  abbrev pub IsIn : F → List F → Type 0
  IsIn x [] = ⊥
  IsIn x (y ∷ ys) = (x ≡ y) ⊎ IsIn x ys

  IsIn-first : (x : F) (xs ys : List F) → IsIn x xs → IsIn x (xs ++ ys)
  IsIn-first x (y ∷ xs) ys (inl e) = inl e
  IsIn-first x (y ∷ xs) ys (inr there) = inr (IsIn-first x xs ys there)
  IsIn-first x [] ys h = absurd h

  IsIn-last : (x : F) (xs : List F) → IsIn x (xs ++ (x ∷ []))
  IsIn-last x [] = inl refl
  IsIn-last x (y ∷ xs) = inr (IsIn-last x xs)

module _ {F : Type 0} ⦃num : Float F⦄ where
  -- the fall to `value` from the highest of the values up to it, as a share of that one
  pub record IsFall (before : List F) (value fall : F) : Type 0 where
    pub peak : F
    pub reached : IsIn peak (before ++ (value ∷ []))
    pub highest : All (λ x. peak ≺ x ≡ false) (before ++ (value ∷ []))
    pub share : F
    pub shares : divide value peak ≡ ok share
    pub falls : fall ≡ one ⊖ share

  -- a fall of the curve, after the values that are seen
  abbrev pub Falls : List F → List F → F → Type 0
  Falls seen values d =
      (before : List F) × (value : F) × (after : List F) × (values ≡ before ++ (value ∷ after))
      × IsFall (seen ++ before) value d

  fmax-cases : (a b : F) → ((a ≺ b ≡ true) × (fmax a b ≡ b)) ⊎ ((a ≺ b ≡ false) × (fmax a b ≡ a))
  fmax-cases a b = elim (Bool-cases (a ≺ b)) [
    | inl up ↦ inl (up, rw up refl)
    | inr same ↦ inr (same, rw same refl)
  ]

  -- the highest value so far, or the first of the curve, which the loop meets again
  abbrev IsReady : List F → List F → F → Type 0
  IsReady seen [] peak = Unit {0}
  IsReady seen (value ∷ values) peak = IsIn peak (seen ++ (value ∷ []))

  IsReady-later :
      (seen values : List F) (value peak : F)
      → IsIn peak (seen ++ (value ∷ []))
      → IsReady (seen ++ (value ∷ [])) values peak
  IsReady-later seen [] value peak h = tt
  IsReady-later seen (next ∷ values) value peak h = IsIn-first peak _ (next ∷ []) h

module _ {F : Type 0} ⦃num : Float F⦄ (laws : IsFloat F) where
  not_below : (a b x : F) → a ≺ b ≡ true → a ≺ x ≡ false → b ≺ x ≡ false
  not_below a b x up low = elim (Bool-cases (b ≺ x)) [
    | inl more ↦ absurd (ground (arith, laws.lt_trans a b x up more, low))
    | inr fine ↦ fine
  ]

  fmax-not_below_first : (a b x : F) → a ≺ x ≡ false → fmax a b ≺ x ≡ false
  fmax-not_below_first a b x low = elim (fmax-cases a b) [
    | inl (up, e) ↦ ap (λ m. m ≺ x) e ∙ not_below a b x up low
    | inr (_, e) ↦ ap (λ m. m ≺ x) e ∙ low
  ]

  fmax-not_below_second : (a b : F) → fmax a b ≺ b ≡ false
  fmax-not_below_second a b = elim (fmax-cases a b) [
    | inl (_, e) ↦ ap (λ m. m ≺ b) e ∙ laws.lt_irrefl b
    | inr (low, e) ↦ ap (λ m. m ≺ b) e ∙ low
  ]

  All-fmax :
      (a b : F) (xs : List F) → All (λ x. a ≺ x ≡ false) xs → All (λ x. fmax a b ≺ x ≡ false) xs
  All-fmax a b [] h = tt
  All-fmax a b (x ∷ xs) h = (fmax-not_below_first a b x h.0, All-fmax a b xs h.1)

  -- the highest value once `value` is seen
  highest_after :
      (seen : List F) (peak value : F)
      → All (λ x. peak ≺ x ≡ false) seen
      → All (λ x. fmax peak value ≺ x ≡ false) (seen ++ (value ∷ []))
  highest_after seen peak value h =
      All-append (λ x. fmax peak value ≺ x ≡ false) seen (value ∷ []) (All-fmax peak value seen h)
        (fmax-not_below_second peak value, tt)

  reached_after :
      (seen : List F) (peak value : F)
      → IsIn peak (seen ++ (value ∷ []))
      → IsIn (fmax peak value) (seen ++ (value ∷ []))
  reached_after seen peak value h = elim (fmax-cases peak value) [
    | inl (_, e) ↦ subst (λ m. IsIn m (seen ++ (value ∷ []))) (sym e) (IsIn-last value seen)
    | inr (_, e) ↦ subst (λ m. IsIn m (seen ++ (value ∷ []))) (sym e) h
  ]

  IsFall-at :
      (seen : List F) (peak value share : F)
      → IsIn peak (seen ++ (value ∷ []))
      → All (λ x. peak ≺ x ≡ false) seen
      → divide value (fmax peak value) ≡ ok share
      → IsFall seen value (one ⊖ share)
  IsFall-at seen peak value share ready high e = record {
    peak = fmax peak value;
    reached = reached_after seen peak value ready;
    highest = highest_after seen peak value high;
    share = share;
    shares = e;
    falls = refl;
  }

  -- the result is below nothing that the worst one so far is not below
  drawdown_from-not_below :
      (peak worst : F) (values : List F) (d x : F)
      → drawdown_from peak worst values ≡ ok d
      → worst ≺ x ≡ false
      → d ≺ x ≡ false
  unfolding drawdown_from
  drawdown_from-not_below peak worst [] d x e low = subst (λ m. m ≺ x ≡ false) (ok-inj e) low
  drawdown_from-not_below peak worst (value ∷ values) d x e low =
      let (share, es, rest) = >>=-eq-ok (divide value (fmax peak value)) _ e in
      drawdown_from-not_below (fmax peak value) (fmax worst (one ⊖ share)) values d x rest
        (fmax-not_below_first worst (one ⊖ share) x low)

  -- no fall is deeper than the result
  drawdown_from-deepest :
      (seen before after : List F) (value peak worst d : F)
      → IsReady seen (before ++ (value ∷ after)) peak
      → All (λ x. peak ≺ x ≡ false) seen
      → drawdown_from peak worst (before ++ (value ∷ after)) ≡ ok d
      → (fall : F) × IsFall (seen ++ before) value fall × (d ≺ fall ≡ false)
  unfolding drawdown_from
  drawdown_from-deepest seen [] after value peak worst d ready high e =
      let (share, es, rest) = >>=-eq-ok (divide value (fmax peak value)) _ e in
      (
        one ⊖ share,
        subst (λ l. IsFall l value (one ⊖ share)) (sym (append-nil seen))
            (IsFall-at seen peak value share ready high es),
        drawdown_from-not_below (fmax peak value) (fmax worst (one ⊖ share)) after d (one ⊖ share)
            rest (fmax-not_below_second worst (one ⊖ share)),
      )
  drawdown_from-deepest seen (x ∷ before) after value peak worst d ready high e =
      let (share, es, rest) = >>=-eq-ok (divide x (fmax peak x)) _ e in
      let (fall, is_fall, low) =
        drawdown_from-deepest (seen ++ (x ∷ [])) before after value (fmax peak x)
          (fmax worst (one ⊖ share)) d
          (IsReady-later seen (before ++ (value ∷ after)) x (fmax peak x)
            (reached_after seen peak x ready))
          (highest_after seen peak x high) rest in
      (fall, subst (λ l. IsFall l value fall) (append_assoc seen (x ∷ []) before) is_fall, low)

  -- the result is a fall, or the worst one so far
  drawdown_from-Falls :
      (seen values : List F) (peak worst d : F)
      → IsReady seen values peak
      → All (λ x. peak ≺ x ≡ false) seen
      → drawdown_from peak worst values ≡ ok d
      → (d ≡ worst) ⊎ Falls seen values d
  unfolding drawdown_from
  drawdown_from-Falls seen [] peak worst d ready high e = inl (sym (ok-inj e))
  drawdown_from-Falls seen (x ∷ values) peak worst d ready high e =
      let (share, es, rest) = >>=-eq-ok (divide x (fmax peak x)) _ e in
      let here = IsFall-at seen peak x share ready high es in
      elim (drawdown_from-Falls (seen ++ (x ∷ [])) values (fmax peak x) (fmax worst (one ⊖ share)) d
        (IsReady-later seen values x (fmax peak x) (reached_after seen peak x ready))
        (highest_after seen peak x high) rest) [
          | inr (before, value, after, split, is_fall) ↦ inr (
            x ∷ before,
            value,
            after,
            ap (λ l. x ∷ l) split,
            subst (λ l. IsFall l value d) (append_assoc seen (x ∷ []) before) is_fall,
          )
          | inl same ↦ elim (fmax-cases worst (one ⊖ share)) [
            | inr (_, kept) ↦ inl (same ∙ kept)
            | inl (_, deeper) ↦ inr (
              [],
              x,
              values,
              refl,
              subst (λ l. IsFall l x d) (sym (append-nil seen))
                  (subst (IsFall seen x) (sym (same ∙ deeper)) here),
            )
          ]
        ]

  -- The drawdown of a curve that has one is the deepest of its falls, each of them from the highest
  -- value up to a point to the value at that point, as a share of the former: it is not below the
  -- fall to any point, nor below zero, and it is zero or one of the falls.
  pub max_drawdown-Falls :
      (before after : List F) (value d : F)
      → max_drawdown (before ++ (value ∷ after)) ≡ ok d
      → ((fall : F) × IsFall before value fall × (d ≺ fall ≡ false))
        × (d ≺ nought ≡ false)
        × ((d ≡ nought) ⊎ Falls [] (before ++ (value ∷ after)) d)
  unfolding max_drawdown
  max_drawdown-Falls [] after value d e = (
    drawdown_from-deepest [] [] after value value nought d (inl refl) tt e,
    drawdown_from-not_below value nought (value ∷ after) d nought e (laws.lt_irrefl nought),
    drawdown_from-Falls [] (value ∷ after) value nought d (inl refl) tt e,
  )
  max_drawdown-Falls (first ∷ before) after value d e = (
    drawdown_from-deepest [] (first ∷ before) after value first nought d (inl refl) tt e,
    drawdown_from-not_below first nought (first ∷ (before ++ (value ∷ after))) d nought e
        (laws.lt_irrefl nought),
    drawdown_from-Falls [] (first ∷ (before ++ (value ∷ after))) first nought d (inl refl) tt e,
  )
