-- ===== src/Domain/Reports.antt =====
-- The descriptions of runs and of their performance in domain/models.py. An UUID is its text, and
-- `P` stands for the values of plain data.
use carcharoth.Base.{String, List, Bool, Option}
use carcharoth.Base.Int.{ℤ}
use carcharoth.Base.Dict.{Dict}
use carcharoth.Domain.Enums.{RunType}
use carcharoth.Domain.Market.{Time}
use carcharoth.Domain.Records.{MetricValue}

pub record PerformanceStage (F : Type 0) : Type 0 where
  pub path : String
  pub calls : ℤ
  pub inclusive_seconds : F
  pub exclusive_seconds : F
  pub max_seconds : F

pub record PerformanceSnapshot (F P : Type 0) : Type 0 where
  pub execution_id : String
  pub run_id : Option String
  pub status : String
  pub started_at : Time
  pub updated_at : Time
  pub finished_at : Option Time
  pub wall_seconds : F
  pub cpu_seconds : F
  pub simulation_cpu_seconds : F
  pub telemetry_seconds : F
  pub periodic_enabled : Bool
  pub publication_errors : ℤ
  pub counters : Dict String ℤ
  pub metadata : Dict String P
  pub stages : List (PerformanceStage F)
  pub recent_ticks_per_second : Option F

pub record RunInfo (P : Type 0) : Type 0 where
  pub run_id : String
  pub run_type : RunType
  pub started_at : Time
  pub finished_at : Option Time
  pub symbols : List String
  pub backtest_start : Option Time
  pub backtest_end : Option Time
  pub config : Dict String P
  pub loop_context : Option (Dict String P)

pub record BacktestResult (F : Type 0) : Type 0 where
  pub run_id : String
  pub metrics : List (MetricValue F)

pub record OptimizationResult (F P : Type 0) : Type 0 where
  pub study_name : String
  pub best_trial_number : Option ℤ
  pub best_score : Option F
  pub best_params : Dict String P
  pub best_run_id : Option String
  pub n_complete : ℤ
  pub n_failed : ℤ
  pub n_infeasible : ℤ
