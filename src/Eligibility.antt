-- ===== src/Eligibility.antt =====
-- modeling/eligibility.py: the evidence on symbols, and the cohort that is chosen from it.
pub mod Cohort
pub mod Annotated
use Prim.Native.String.{◌++◌ as join}
use carcharoth.Base.{
  ℕ, String, List, [], ◌∷◌, ◌++◌, Bool, true, false, Option, none, some, ◌&&◌, ◌||◌, not, length,
  keep, map, if◌then◌else◌,
}
use carcharoth.Base.Eq.{◌==◌, nat_eq, string_eq}
use carcharoth.Base.Int.{ℤ, pos, ltb_ℤ, negate}
use carcharoth.Base.Float.{Float, ◌≺◌, ◌⊗◌, nought, one, floor_or_raise}
use carcharoth.Base.Dict.{Dict}
use carcharoth.Base.Result.{Error, Result, ok, err, ◌>>=◌}
use carcharoth.Base.Sort.{sort_by, string_le}
use carcharoth.Config.{EligibilityConfig, EligibilityMode}
use carcharoth.Dataset.Evidence.{WindowEvidence, Counter, usable_coverage}

pub record Reason (F : Type 0) : Type 0 where
  pub code : String
  pub split : String
  pub observed : Option F
  pub required : Option F

pub data Scope : Type 0 where
  training backtest : Scope

-- the values of `SymbolAssessment.decision`
pub data Choice : Type 0 where
  retained excluded warning not_assessed : Choice

-- the values of `EligibilityReport.status`
pub data Status : Type 0 where
  passed passed_with_exclusions rejected error warning : Status

pub record SymbolAssessment (F : Type 0) : Type 0 where
  pub symbol : String
  pub decision : Choice
  pub windows : Dict String WindowEvidence
  pub reasons : List (Reason F)
  pub trained : Option Bool

-- the fields that `assess` reads or sets; it passes the others on
pub record EligibilityReport (F : Type 0) : Type 0 where
  pub scope : Scope
  pub status : Status
  pub policy : EligibilityConfig F
  pub requested_symbols : List String
  pub effective_symbols : List String
  pub symbols : List (SymbolAssessment F)
  pub context : Dict String (Dict String WindowEvidence)
  pub global_reasons : List (Reason F)

abbrev pub is_empty {ℓ} : {A : Type ℓ} → List A → Bool
is_empty [] = true
is_empty (x ∷ xs) = false

abbrev pub is_backtest : Scope → Bool
is_backtest Scope.training = false
is_backtest Scope.backtest = true

abbrev pub is_strict : EligibilityMode → Bool
is_strict EligibilityMode.drop = false
is_strict EligibilityMode.strict = true

abbrev decision_of : Scope → Bool → Choice
decision_of scope true = Choice.retained
decision_of Scope.backtest false = Choice.warning
decision_of Scope.training false = Choice.excluded

abbrev max_ℤ : ℤ → ℤ → ℤ
max_ℤ a b = if ltb_ℤ a b then b else a

module _ {F : Type 0} where
  abbrev pub symbols_of : List (SymbolAssessment F) → List String
  symbols_of = map (λ (a : SymbolAssessment F). a.symbol)

module _ {F : Type 0} ⦃num : Float F⦄ where
  -- the reasons that the input errors give
  unfoldable pub error_reasons : String → Counter → List (Reason F)
  unfolding sort_by keep
  error_reasons split errors =
      map
        (λ (e : String × ℕ). record {
          code = e.0;
          split = split;
          observed = some (num.of_int (pos e.1));
          required = some nought;
        })
        (keep (λ (e : String × ℕ). not (e.1 == 0))
          (sort_by (λ (a b : String × ℕ). string_le a.0 b.0) errors))

  -- a reason, if there is cause for it
  abbrev reason_if : Bool → String → String → F → F → List (Reason F)
  reason_if cause code split observed required =
      if cause
      then record { code = code; split = split; observed = some observed; required = some required }
        ∷ []
      else []

  -- `window_reasons`
  unfoldable pub window_reasons : String → WindowEvidence → EligibilityConfig F → List (Reason F)
  unfolding error_reasons usable_coverage
  window_reasons split evidence policy =
      let minimum =
        if split == "train" then policy.min_train_rows else policy.min_validation_rows in
      error_reasons split evidence.input_errors
      ++ (reason_if (evidence.raw_bars == 0) "no_bars" split nought one
          ++ (reason_if (not (split == "backtest") && ltb_ℤ (pos evidence.usable_rows) minimum)
                (join "insufficient_" (join split "_rows")) split
                (num.of_int (pos evidence.usable_rows)) (num.of_int minimum)
              ++ reason_if (usable_coverage evidence ≺ policy.min_usable_coverage)
                  "insufficient_usable_coverage" split (usable_coverage evidence)
                  policy.min_usable_coverage))

  -- the reasons of all windows
  unfoldable pub all_reasons : EligibilityConfig F → Dict String WindowEvidence → List (Reason F)
  unfolding window_reasons
  all_reasons policy [] = []
  all_reasons policy ((split, evidence) ∷ windows) =
      window_reasons split evidence policy ++ all_reasons policy windows

  -- the reasons and the decision of a symbol
  unfoldable pub assess_symbol :
      Scope → EligibilityConfig F → SymbolAssessment F → SymbolAssessment F
  unfolding all_reasons
  assess_symbol scope policy a =
      let reasons = all_reasons policy a.windows in
      record a { reasons = reasons; decision = decision_of scope (is_empty reasons) }

  -- `not symbol.reasons or report.scope == "backtest"`
  abbrev is_effective : Scope → SymbolAssessment F → Bool
  is_effective scope a = is_empty a.reasons || is_backtest scope

  unfoldable pub context_window_reasons :
      EligibilityConfig F → String → Dict String WindowEvidence → List (Reason F)
  unfolding usable_coverage
  context_window_reasons policy symbol [] = []
  context_window_reasons policy symbol ((split, evidence) ∷ windows) =
      reason_if
        (not (is_empty evidence.input_errors)
          || usable_coverage evidence ≺ policy.min_usable_coverage)
        (join "unusable_benchmark:" symbol) split (usable_coverage evidence)
        policy.min_usable_coverage
      ++ context_window_reasons policy symbol windows

  -- the loop over the context
  unfoldable pub context_reasons :
      EligibilityConfig F → Dict String (Dict String WindowEvidence) → List (Reason F)
  unfolding context_window_reasons
  context_reasons policy [] = []
  context_reasons policy ((symbol, windows) ∷ context) =
      context_window_reasons policy symbol windows ++ context_reasons policy context

  -- the report after the loops over the symbols and the context
  unfoldable pub gather_reasons :
      EligibilityReport F → List (SymbolAssessment F) → EligibilityReport F
  unfolding assess_symbol context_reasons keep
  gather_reasons report symbols =
      let assessed = map (assess_symbol report.scope report.policy) symbols in
      record report {
        symbols = assessed;
        effective_symbols = symbols_of (keep (is_effective report.scope) assessed);
        global_reasons = report.global_reasons ++ context_reasons report.policy report.context;
      }

  -- the end of an assessment in the scope of a backtest
  unfoldable pub annotate : EligibilityReport F → EligibilityReport F
  unfolding keep
  annotate report =
      let reasoned = keep (λ (a : SymbolAssessment F). not (is_empty a.reasons)) report.symbols in
      record report {
        status =
            if not (is_empty report.global_reasons) || not (is_empty reasoned)
            then Status.warning
            else Status.passed;
      }

  -- a failure of the shared context
  unfoldable pub reject_all : EligibilityReport F → EligibilityReport F
  reject_all report = record report {
    status = Status.rejected;
    effective_symbols = [];
    symbols =
        map (λ (a : SymbolAssessment F). record a { decision = Choice.not_assessed; reasons = [] })
          report.symbols;
  }

  -- `math.ceil(x)`
  abbrev ceil_or_raise : F → Result ℤ
  ceil_or_raise x = floor_or_raise (num.neg x) >>= λ n. ok (negate n)

  -- `required`
  unfoldable pub required_symbols : EligibilityReport F → Result ℤ
  required_symbols report =
      ceil_or_raise
        (num.of_int (pos (length report.requested_symbols)) ⊗ report.policy.min_retained_fraction)
      >>= λ share. ok (max_ℤ report.policy.min_symbols share)

  -- `dropped`
  abbrev is_dropped : EligibilityReport F → Bool
  is_dropped report = not (length report.effective_symbols == length report.requested_symbols)

  -- the end of an assessment in the scope of a training, where the context is sound
  unfoldable pub select_cohort : ℤ → EligibilityReport F → EligibilityReport F
  select_cohort required report =
      let chosen = pos (length report.effective_symbols) in
      let global_reasons =
        report.global_reasons
        ++ reason_if (ltb_ℤ chosen required) "insufficient_retained_symbols" "all"
            (num.of_int chosen) (num.of_int required) in
      record report {
        global_reasons = global_reasons;
        status =
            if not (is_empty global_reasons) || is_dropped report && is_strict report.policy.mode
            then Status.rejected
            else if is_dropped report
            then Status.passed_with_exclusions
            else Status.passed;
      }

  -- the report by its scope and its global reasons
  unfoldable pub conclude : Scope → Bool → EligibilityReport F → Result (EligibilityReport F)
  unfolding annotate reject_all required_symbols select_cohort
  conclude Scope.backtest sound report = ok (annotate report)
  conclude Scope.training false report = ok (reject_all report)
  conclude Scope.training true report =
      required_symbols report >>= λ required. ok (select_cohort required report)

  -- `assess`, whose copies are the values of this model
  unfoldable pub assess :
      EligibilityReport F → List (SymbolAssessment F) → Result (EligibilityReport F)
  unfolding gather_reasons conclude
  assess report symbols =
      let gathered = gather_reasons report symbols in
      conclude report.scope (is_empty gathered.global_reasons) gathered
