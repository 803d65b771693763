-- ===== src/Metrics/Matching/Loop.antt =====
-- analysis/metrics.py: the `while` loop of `match_round_trips`.
use carcharoth.Base.{
  ℕ, zero, suc, ◌+◌, ◌≤◌, List, [], ◌∷◌, true, false, Option, some, All, length, arith, ◌≡◌, inl,
  inr, refl, sym, ◌∙◌, false≢true, subst, Bool-cases,
}
use carcharoth.Base.Eq.{string_eq}
use carcharoth.Base.Float.{Float, ◌⊖◌, ◌≺◌, nought, fmin}
use carcharoth.Domain.{TradeRecord, DecisionRecord}
use carcharoth.Metrics.Matching.{OpenLot, Matched, use_lot, match_lots, round_trip, add_trip}

-- Facts of IEEE 754 subtraction, which hold of every double, the NaNs and the infinities included.
pub record IsSubtraction (F : Type 0) ⦃num : Float F⦄ : Type 0 where
  pub sub-self : (x : F) → nought ≺ (x ⊖ x) ≡ false
  pub sub-used : (x r : F) → nought ≺ x ≡ true → x ≺ r ≡ true → num.eq (x ⊖ x) nought ≡ true
  pub sub-left :
      (x y r : F)
      → nought ≺ y ≡ true
      → x ≺ y ≡ false
      → (x ⊖ y) ≺ r ≡ true
      → num.eq ((x ⊖ y) ⊖ (x ⊖ y)) nought ≡ true

module _ {F : Type 0} ⦃num : Float F⦄ where
  fmin-second : {a b : F} → b ≺ a ≡ true → fmin a b ≡ b
  fmin-second h = rw h refl

  fmin-first : {a b : F} → b ≺ a ≡ false → fmin a b ≡ a
  fmin-first h = rw h refl

  use_lot-all :
      (lot : OpenLot F) (rest : List (OpenLot F))
      → num.eq (lot.qty ⊖ lot.qty) nought ≡ true
      → use_lot lot lot.qty rest ≡ rest
  unfolding use_lot
  use_lot-all lot rest h = rw h refl

  -- a quantity below another one is used up by itself: it is no negative infinity
  abbrev pub IsUsable : OpenLot F → Type 0
  IsUsable lot = (r : F) → lot.qty ≺ r ≡ true → num.eq (lot.qty ⊖ lot.qty) nought ≡ true

  -- what the loop leaves: usable lots, and none of them where a quantity remains
  pub record IsSettled (m : Matched F) : Type 0 where
    pub usable : All IsUsable m.closing
    pub emptied : nought ≺ m.remaining ≡ true → m.closing ≡ []

  abbrev pub Ends : TradeRecord F → Option (DecisionRecord F) → ℕ → F → List (OpenLot F) → Type 0
  Ends trade decision fuel remaining closing =
      (m : Matched F) × (match_lots fuel trade decision remaining closing ≡ some m) × IsSettled m

module _ {F : Type 0} ⦃num : Float F⦄ (laws : IsSubtraction F) where
  -- nothing remains: the loop ends at once
  match_lots-exhausted :
      (trade : TradeRecord F) (decision : Option (DecisionRecord F)) (fuel : ℕ) (remaining : F)
      (closing : List (OpenLot F))
      → 1 ≤ fuel
      → nought ≺ remaining ≡ false
      → All IsUsable closing
      → Ends trade decision fuel remaining closing
  unfolding match_lots
  match_lots-exhausted trade decision zero remaining closing enough over usable =
      absurd (omega arith)
  match_lots-exhausted trade decision (suc fuel) remaining [] enough over usable =
      (_, refl, record { usable = tt; emptied = λ h. refl })
  match_lots-exhausted trade decision (suc fuel) remaining (lot ∷ rest) enough over usable = (
    record { remaining = remaining; closing = lot ∷ rest; trips = [] },
    rw over refl,
    record { usable = usable; emptied = λ h. absurd (false≢true (sym over ∙ h)) },
  )

  use_lot-IsUsable :
      (lot : OpenLot F) (remaining : F) (rest : List (OpenLot F))
      → nought ≺ remaining ≡ true
      → lot.qty ≺ remaining ≡ false
      → All IsUsable rest
      → All IsUsable (use_lot lot remaining rest)
  unfolding use_lot
  use_lot-IsUsable lot remaining rest some_left enough others =
      elim (Bool-cases (num.eq (lot.qty ⊖ remaining) nought)) [
        | inl gone ↦ rw gone others
        | inr left ↦
            rw left ((λ r below. laws.sub-left lot.qty remaining r some_left enough below), others)
      ]

  -- one turn of the loop
  match_lots-turn :
      (trade : TradeRecord F) (decision : Option (DecisionRecord F)) (fuel : ℕ) (remaining : F)
      (lot : OpenLot F) (rest : List (OpenLot F))
      → nought ≺ remaining ≡ true
      → Ends trade decision fuel
          (remaining ⊖ fmin remaining lot.qty)
          (use_lot lot (fmin remaining lot.qty) rest)
      → Ends trade decision (suc fuel) remaining (lot ∷ rest)
  unfolding match_lots
  match_lots-turn trade decision fuel remaining lot rest more (m, e, settled) = (
    add_trip (round_trip trade decision lot (fmin remaining lot.qty)) m,
    rw (more, e) refl,
    record { usable = settled.usable; emptied = settled.emptied },
  )

  pub match_lots-Ends :
      (trade : TradeRecord F) (decision : Option (DecisionRecord F)) (fuel : ℕ) (remaining : F)
      (closing : List (OpenLot F))
      → length closing + 2 ≤ fuel
      → All IsUsable closing
      → Ends trade decision fuel remaining closing
  match_lots-Ends trade decision zero remaining closing enough usable = absurd (omega arith)
  match_lots-Ends trade decision (suc fuel) remaining [] enough usable = (
    record { remaining = remaining; closing = []; trips = [] },
    unfold match_lots in refl,
    record { usable = tt; emptied = λ h. refl },
  )
  match_lots-Ends trade decision (suc fuel) remaining (lot ∷ rest) enough (first, others) =
      elim (Bool-cases (nought ≺ remaining)) [
        | inr over ↦
            match_lots-exhausted trade decision (suc fuel) remaining (lot ∷ rest) (omega arith) over
              (first, others)
        | inl more ↦ elim (Bool-cases (lot.qty ≺ remaining)) [
          | inl used ↦
              let later =
                match_lots-Ends trade decision fuel (remaining ⊖ lot.qty) rest (omega arith)
                  others in
              let next : Ends trade decision fuel (remaining ⊖ lot.qty) (use_lot lot lot.qty rest) =
                subst (Ends trade decision fuel (remaining ⊖ lot.qty))
                  (sym (use_lot-all lot rest (first remaining used))) later in
              match_lots-turn trade decision fuel remaining lot rest more (
                subst (λ q. Ends trade decision fuel (remaining ⊖ q) (use_lot lot q rest))
                  (sym (fmin-second used)) next)
          | inr left ↦ match_lots-turn trade decision fuel remaining lot rest more (
              subst (λ q. Ends trade decision fuel (remaining ⊖ q) (use_lot lot q rest))
                (sym (fmin-first left))
                (match_lots-exhausted trade decision fuel (remaining ⊖ remaining)
                  (use_lot lot remaining rest) (omega arith) (laws.sub-self remaining)
                  (use_lot-IsUsable lot remaining rest more left others)))
        ]
      ]
