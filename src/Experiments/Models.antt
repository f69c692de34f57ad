-- ===== src/Experiments/Models.antt =====
-- Experiments, their runs and approvals: backend/app/domains/experiments/models.py, schemas.py.
use cau_sium.Prelude.{ℕ, String, Bool, Option, List, [], ◌∷◌}
use cau_sium.Prelude.Floats.{Float}
use cau_sium.Audit.{AuditCall, Payload}
use cau_sium.Policy.Service.{PolicyTables}

pub data ExperimentStatus : Type 0 where
  draft hypothesis simulating approved running measuring concluded cancelled : ExperimentStatus

pub data ExperimentOutcome : Type 0 where
  improved regressed inconclusive outcome_cancelled : ExperimentOutcome

pub data RunType : Type 0 where
  dry_run canary full : RunType

pub data RunStatus : Type 0 where
  run_pending run_running run_completed run_rolled_back : RunStatus

-- `GuardrailsConfig`
pub record Guardrails : Type 0 where
  pub max_blast_radius_pct : Float
  pub rollback_on_error_rate : Float
  pub max_cost_increase_pct : Float
  pub require_approval : Bool

-- `OptimizationExperiment`
pub record Experiment : Type 0 where
  pub id : ℕ
  pub org_id : ℕ
  pub owner_id : Option ℕ
  pub title : String
  pub hypothesis : Option String
  pub description : Option String
  pub target_environment : String
  pub target_criticality : String
  pub opportunity_id : Option ℕ
  pub risk_budget_id : Option ℕ
  pub guardrails : Option Guardrails
  pub causal_change_event_ids : Option (List String)
  pub causal_summary : Option String
  pub status : ExperimentStatus
  pub outcome : Option ExperimentOutcome
  pub simulated_savings_usd : Option Float
  pub simulated_confidence : Option Float
  pub simulation_notes : Option String
  pub approved_by_id : Option ℕ
  pub estimated_risk_score : Option Float
  pub actual_savings_usd : Option Float
  pub actual_confidence : Option Float
  pub started_at : Option ℕ
  pub concluded_at : Option ℕ

pub record ExperimentRun : Type 0 where
  pub id : ℕ
  pub experiment_id : ℕ
  pub org_id : ℕ
  pub run_type : RunType
  pub status : RunStatus
  pub metrics_before : Option Payload
  pub metrics_after : Option Payload
  pub impact_usd : Option Float
  pub error_rate_before : Option Float
  pub error_rate_after : Option Float
  pub rollback_triggered : Bool
  pub rollback_reason : Option String
  pub notes : Option String
  pub started_at : Option ℕ
  pub completed_at : Option ℕ

pub record ExperimentApproval : Type 0 where
  pub id : ℕ
  pub org_id : ℕ
  pub experiment_id : ℕ
  pub approver_user_id : ℕ
  pub note : Option String

pub record ExperimentCreate : Type 0 where
  pub title : String
  pub hypothesis : Option String
  pub description : Option String
  pub opportunity_id : Option ℕ
  pub risk_budget_id : Option ℕ
  pub guardrails : Option Guardrails
  pub causal_change_event_ids : Option (List String)
  pub target_environment : String
  pub target_criticality : String

pub record ExperimentUpdate : Type 0 where
  pub title : Option String
  pub hypothesis : Option String
  pub description : Option String
  pub simulation_notes : Option String
  pub simulated_savings_usd : Option Float
  pub simulated_confidence : Option Float
  pub causal_summary : Option String
  pub guardrails : Option Guardrails
  pub target_environment : Option String
  pub target_criticality : Option String
  pub actual_savings_usd : Option Float
  pub actual_confidence : Option Float
  pub outcome : Option ExperimentOutcome

pub record RunCreate : Type 0 where
  pub run_type : RunType
  pub notes : Option String
  pub metrics_before : Option Payload

pub record RunUpdate : Type 0 where
  pub status : Option RunStatus
  pub metrics_after : Option Payload
  pub impact_usd : Option Float
  pub error_rate_before : Option Float
  pub error_rate_after : Option Float
  pub rollback_triggered : Option Bool
  pub rollback_reason : Option String
  pub notes : Option String

-- The tables that the experiment endpoints write, and the calls of the audit chain in their order.
pub record Store : Type 0 where
  pub experiments : List Experiment
  pub approvals : List ExperimentApproval
  pub runs : List ExperimentRun
  pub policy : PolicyTables
  pub audit : List AuditCall

-- `VALID_EXPERIMENT_TRANSITIONS`
unfoldable pub valid_experiment_transitions : ExperimentStatus → List ExperimentStatus
valid_experiment_transitions draft = hypothesis ∷ cancelled ∷ []
valid_experiment_transitions hypothesis = simulating ∷ cancelled ∷ []
valid_experiment_transitions simulating = approved ∷ draft ∷ cancelled ∷ []
valid_experiment_transitions approved = running ∷ cancelled ∷ []
valid_experiment_transitions running = measuring ∷ cancelled ∷ []
valid_experiment_transitions measuring = concluded ∷ running ∷ []
valid_experiment_transitions concluded = []
valid_experiment_transitions cancelled = []
