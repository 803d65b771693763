-- ===== src/Eligibility/Annotated.antt =====
-- modeling/eligibility.py: the report of a backtest.
use carcharoth.Base.{
  List, [], ◌∷◌, true, not, ◌||◌, keep, map, All, arith, ◌≡◌, refl, sym, ap, subst, ◌⊎◌, inl, inr,
  Bool-cases,
}
use carcharoth.Base.Eq.{nat_eq}
use carcharoth.Base.Float.{Float}
use carcharoth.Base.Result.{ok}
use carcharoth.Config.{EligibilityConfig}
use carcharoth.Eligibility.{
  Scope, Choice, Status, SymbolAssessment, EligibilityReport, is_empty, all_reasons, assess_symbol,
  gather_reasons, annotate, conclude, assess, symbols_of, is_effective,
}
use carcharoth.Eligibility.Cohort.{is_empty-eq}

-- every symbol that is named stays, with a remark at most
pub record IsAnnotated {F : Type 0} (symbols : List (SymbolAssessment F))
    (out : EligibilityReport F) : Type 0 where
  pub all_kept : out.effective_symbols ≡ symbols_of symbols
  pub remarked :
      All
        (λ (a : SymbolAssessment F). (a.decision ≡ Choice.retained) ⊎ (a.decision ≡ Choice.warning))
        out.symbols
  pub graded : (out.status ≡ Status.passed) ⊎ (out.status ≡ Status.warning)
  pub clear :
      out.status ≡ Status.passed → All (λ (a : SymbolAssessment F). a.reasons ≡ []) out.symbols

module _ {F : Type 0} ⦃num : Float F⦄ where
  effective_backtest :
      (policy : EligibilityConfig F) (xs : List (SymbolAssessment F))
      → symbols_of
          (keep (is_effective Scope.backtest) (map (assess_symbol Scope.backtest policy) xs))
        ≡ symbols_of xs
  unfolding keep assess_symbol
  effective_backtest policy [] = refl
  effective_backtest policy (a ∷ xs) = elim (Bool-cases (is_empty (all_reasons policy a.windows))) [
    | inl none_found ↦ rw none_found (ap (λ ys. a.symbol ∷ ys) (effective_backtest policy xs))
    | inr some_found ↦ rw some_found (ap (λ ys. a.symbol ∷ ys) (effective_backtest policy xs))
  ]

  remarks_given :
      (policy : EligibilityConfig F) (xs : List (SymbolAssessment F))
      → All
          (λ (a : SymbolAssessment F).
            (a.decision ≡ Choice.retained) ⊎ (a.decision ≡ Choice.warning))
          (map (assess_symbol Scope.backtest policy) xs)
  unfolding assess_symbol
  remarks_given policy [] = tt
  remarks_given policy (a ∷ xs) = elim (Bool-cases (is_empty (all_reasons policy a.windows))) [
    | inl none_found ↦ (inl (rw none_found refl), remarks_given policy xs)
    | inr some_found ↦ (inr (rw some_found refl), remarks_given policy xs)
  ]

  -- nothing is left of what has a reason
  unreasoned :
      (xs : List (SymbolAssessment F))
      → is_empty (keep (λ (a : SymbolAssessment F). not (is_empty a.reasons)) xs) ≡ true
      → All (λ (a : SymbolAssessment F). a.reasons ≡ []) xs
  unfolding keep
  unreasoned [] h = tt
  unreasoned (a ∷ xs) h = elim (Bool-cases (is_empty a.reasons)) [
    | inl none_found ↦
        (is_empty-eq a.reasons none_found, unreasoned xs (ground (arith, none_found)))
    | inr some_found ↦ absurd (ground (arith, some_found))
  ]

  annotate-graded :
      (report : EligibilityReport F)
      → ((annotate report).status ≡ Status.passed) ⊎ ((annotate report).status ≡ Status.warning)
  unfolding annotate
  annotate-graded report =
      elim (Bool-cases (
        not (is_empty report.global_reasons)
        || not (
            is_empty
              (keep (λ (a : SymbolAssessment F). not (is_empty a.reasons)) report.symbols)))) [
                | inl warned ↦ inr (rw warned refl)
                | inr fine ↦ inl (rw fine refl)
              ]

  annotate-clear :
      (report : EligibilityReport F)
      → (annotate report).status ≡ Status.passed
      → All (λ (a : SymbolAssessment F). a.reasons ≡ []) report.symbols
  unfolding annotate
  annotate-clear report passed = unreasoned report.symbols (ground (arith, passed))

  -- A backtest only annotates: in its scope an assessment always succeeds, leaves every symbol
  -- effective, in the order given, and marks each as retained or with a warning; the report is passed
  -- or a warning, and no symbol has a reason if it is passed.
  pub assess-IsAnnotated :
      (report : EligibilityReport F) (symbols : List (SymbolAssessment F))
      → report.scope ≡ Scope.backtest
      → (out : EligibilityReport F) × (assess report symbols ≡ ok out) × IsAnnotated symbols out
  unfolding assess conclude gather_reasons annotate
  assess-IsAnnotated report symbols backtest =
      let gathered = gather_reasons report symbols in
      let effective =
        subst
          (λ s.
            symbols_of (keep (is_effective s) (map (assess_symbol s report.policy) symbols))
            ≡ symbols_of symbols)
          (sym backtest) (effective_backtest report.policy symbols) in
      let remarked =
        subst
          (λ s.
            All
              (λ (a : SymbolAssessment F).
                (a.decision ≡ Choice.retained) ⊎ (a.decision ≡ Choice.warning))
              (map (assess_symbol s report.policy) symbols))
          (sym backtest) (remarks_given report.policy symbols) in
      (
        annotate gathered,
        ap (λ s. conclude s (is_empty gathered.global_reasons) gathered) backtest,
        record {
          all_kept = effective;
          remarked = remarked;
          graded = annotate-graded gathered;
          clear = annotate-clear gathered;
        },
      )
