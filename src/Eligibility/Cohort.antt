-- ===== src/Eligibility/Cohort.antt =====
-- modeling/eligibility.py: the cohort of a training.
use mathlib.Core.List.{Mem, mem-cons_self, mem-cons_of_mem}
use carcharoth.Base.{
  String, List, [], ◌∷◌, ◌++◌, Bool, true, false, length, keep, map, All, arith, ◌≡◌, ◌≢◌, refl,
  sym, ap, subst, ◌⊎◌, inl, inr, Bool-cases,
}
use carcharoth.Base.Eq.{nat_eq, eq_of_beq}
use carcharoth.Base.Int.{ℤ, pos, ltb_ℤ}
use carcharoth.Base.Float.{Float}
use carcharoth.Base.Result.{ok, >>=-eq-ok, ok-inj}
use carcharoth.Config.{EligibilityMode}
use carcharoth.Eligibility.{
  Reason, Scope, Status, SymbolAssessment, EligibilityReport, is_empty, all_reasons, assess_symbol,
  gather_reasons, reject_all, required_symbols, select_cohort, conclude, assess, symbols_of,
  is_effective, is_dropped,
}

-- a symbol of the cohort: one of the symbols that are assessed, without a reason in any window
pub record IsChosen {F : Type 0} ⦃num : Float F⦄ (report : EligibilityReport F)
    (symbols : List (SymbolAssessment F)) (symbol : String) : Type 0 where
  pub assessment : SymbolAssessment F
  pub given : Mem assessment symbols
  pub named : assessment.symbol ≡ symbol
  pub sound : all_reasons report.policy assessment.windows ≡ []

-- what an assessment for a training that does not reject the report has found
pub record IsCohort {F : Type 0} ⦃num : Float F⦄ (report : EligibilityReport F)
    (symbols : List (SymbolAssessment F)) (out : EligibilityReport F) : Type 0 where
  pub chosen : All (IsChosen report symbols) out.effective_symbols
  pub required : ℤ
  pub required_is : required_symbols out ≡ ok required
  pub enough : ltb_ℤ (pos (length out.effective_symbols)) required ≡ false
  pub whole :
      (out.status ≡ Status.passed) ⊎ (report.policy.mode ≡ EligibilityMode.strict)
      → length out.effective_symbols ≡ length report.requested_symbols

module _ {F : Type 0} ⦃num : Float F⦄ where
  pub is_empty-eq : (xs : List (Reason F)) → is_empty xs ≡ true → xs ≡ []
  is_empty-eq [] h = refl
  is_empty-eq (x ∷ xs) h = cc

  -- the symbols that are kept
  effective-IsChosen :
      (report : EligibilityReport F) (symbols xs : List (SymbolAssessment F))
      → ((a : SymbolAssessment F) → Mem a xs → Mem a symbols)
      → All (IsChosen report symbols) (
          symbols_of (
            keep
              (is_effective Scope.training)
              (map (assess_symbol Scope.training report.policy) xs)))
  unfolding keep assess_symbol
  effective-IsChosen report symbols [] into = tt
  effective-IsChosen report symbols (a ∷ xs) into =
      let rest = effective-IsChosen report symbols xs (λ b m. into b (mem-cons_of_mem a m)) in
      elim (Bool-cases (is_empty (all_reasons report.policy a.windows))) [
        | inl none_found ↦
            let here : IsChosen report symbols a.symbol = record {
              assessment = a;
              given = into a mem-cons_self;
              named = refl;
              sound = is_empty-eq _ none_found;
            } in
            rw none_found (here, rest)
        | inr some_found ↦ rw some_found rest
      ]

  conclude-training_lem :
      (sound : Bool) (report : EligibilityReport F) {out : EligibilityReport F}
      → conclude Scope.training sound report ≡ ok out
      → out.status ≢ Status.rejected
      → (required : ℤ) × (required_symbols report ≡ ok required)
        × (out ≡ select_cohort required report)
  unfolding conclude reject_all
  conclude-training_lem false report h accepted =
      absurd (accepted (sym (ap (λ o. o.status) (ok-inj h))))
  conclude-training_lem true report h accepted =
      let (required, found, gives) = >>=-eq-ok (required_symbols report) _ h in
      (required, found, sym (ok-inj gives))

  is_empty-snoc : (xs : List (Reason F)) (x : Reason F) → is_empty (xs ++ (x ∷ [])) ≡ false
  is_empty-snoc [] x = refl
  is_empty-snoc (y ∷ xs) x = refl

  -- there are enough symbols, where they are not rejected
  select_cohort-enough :
      (required : ℤ) (report : EligibilityReport F)
      → (select_cohort required report).status ≢ Status.rejected
      → ltb_ℤ (pos (length report.effective_symbols)) required ≡ false
  unfolding select_cohort
  select_cohort-enough required report accepted =
      elim (Bool-cases (ltb_ℤ (pos (length report.effective_symbols)) required)) [
        | inr enough ↦ enough
        | inl few ↦ absurd (accepted (rw (few, is_empty-snoc report.global_reasons _) refl))
      ]

  select_cohort-whole :
      (required : ℤ) (report : EligibilityReport F)
      → (select_cohort required report).status ≢ Status.rejected
      → ((select_cohort required report).status ≡ Status.passed)
        ⊎ (report.policy.mode ≡ EligibilityMode.strict)
      → length report.effective_symbols ≡ length report.requested_symbols
  unfolding select_cohort
  select_cohort-whole required report accepted cause = elim (Bool-cases (is_dropped report)) [
    | inr kept ↦ eq_of_beq _ _ (ground arith)
    | inl dropped ↦ absurd (elim cause [
      | inl passed ↦ ground (arith, dropped, passed)
      | inr strict ↦ accepted (ground (arith, dropped, strict))
    ])
  ]

  -- What a training takes its cohort from: where an assessment in the scope of a training succeeds
  -- and does not reject the report, every effective symbol is that of an assessed one without a
  -- reason in any of its windows, there are as many of them as are required, and none of the
  -- requested ones is missing by count if the report is passed without exclusions or the mode is
  -- strict.
  pub assess-IsCohort :
      (report : EligibilityReport F) (symbols : List (SymbolAssessment F))
      {out : EligibilityReport F}
      → report.scope ≡ Scope.training
      → assess report symbols ≡ ok out
      → out.status ≢ Status.rejected
      → IsCohort report symbols out
  unfolding assess gather_reasons select_cohort required_symbols
  assess-IsCohort report symbols {out} training h accepted =
      let gathered = gather_reasons report symbols in
      let gives : conclude Scope.training (is_empty gathered.global_reasons) gathered ≡ ok out =
        subst (λ s. conclude s (is_empty gathered.global_reasons) gathered ≡ ok out) training h in
      let (required, found, same) = conclude-training_lem _ gathered gives accepted in
      let kept : (select_cohort required gathered).status ≢ Status.rejected =
        subst (λ o. o.status ≢ Status.rejected) same accepted in
      subst (IsCohort report symbols) (sym same) (record {
        chosen =
            subst
              (λ s.
                All (IsChosen report symbols) (
                  symbols_of (keep (is_effective s) (map (assess_symbol s report.policy) symbols))))
              (sym training) (effective-IsChosen report symbols symbols (λ a m. m));
        required = required;
        required_is = found;
        enough = select_cohort-enough required gathered kept;
        whole = select_cohort-whole required gathered kept;
      })
