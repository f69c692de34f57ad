-- ===== src/Experiments/Payloads.antt =====
-- The calls of `append_event` that the experiment service makes, with their payloads
-- (backend/app/domains/experiments/service.py).
use cau_sium.Prelude.{ℕ, String, Option, none, some, ◌+◌}
use cau_sium.Prelude.Floats.{Float, nan, minus, plus}
use cau_sium.Audit.{
  AuditCall, Payload, Fields, null, flag, float, str, uuid, enum_value, dict, field, end,
}
use cau_sium.Experiments.Models.{
  Experiment, ExperimentStatus, ExperimentOutcome, ExperimentUpdate, ExperimentRun,
  ExperimentApproval, RunType, RunStatus, RunUpdate, Guardrails, draft, hypothesis, simulating,
  approved, running, measuring, concluded, cancelled, improved, regressed, inconclusive,
  outcome_cancelled, dry_run, canary, full, run_pending, run_running, run_completed,
  run_rolled_back,
}

float_bits : Float → ℕ
float_bits nan = 0x7ff8000000000000
float_bits (plus bits) = bits
float_bits (minus bits) = 0x8000000000000000 + bits

status_value : ExperimentStatus → String
status_value draft = "draft"
status_value hypothesis = "hypothesis"
status_value simulating = "simulating"
status_value approved = "approved"
status_value running = "running"
status_value measuring = "measuring"
status_value concluded = "concluded"
status_value cancelled = "cancelled"

outcome_value : ExperimentOutcome → String
outcome_value improved = "improved"
outcome_value regressed = "regressed"
outcome_value inconclusive = "inconclusive"
outcome_value outcome_cancelled = "cancelled"

run_type_value : RunType → String
run_type_value dry_run = "dry_run"
run_type_value canary = "canary"
run_type_value full = "full"

run_status_value : RunStatus → String
run_status_value run_pending = "pending"
run_status_value run_running = "running"
run_status_value run_completed = "completed"
run_status_value run_rolled_back = "rolled_back"

-- `value if value else None`
abbrev optional {ℓ} : {A : Type ℓ} → (A → Payload) → Option A → Payload
optional f none = null
optional f (some a) = f a

-- A field that `model_dump(exclude_none=True)` leaves out where it is None.
abbrev present {ℓ} : {A : Type ℓ} → String → (A → Payload) → Option A → Fields → Fields
present k f none rest = rest
present k f (some a) rest = field k (f a) rest

guardrails_payload : Guardrails → Payload
guardrails_payload g = dict (
    field "max_blast_radius_pct" (float (float_bits g.max_blast_radius_pct)) (
      field "rollback_on_error_rate" (float (float_bits g.rollback_on_error_rate)) (
        field "max_cost_increase_pct" (float (float_bits g.max_cost_increase_pct))
          (field "require_approval" (flag g.require_approval) end))))

-- `exp.guardrails or {}`
abbrev guardrails_or_empty : Option Guardrails → Payload
guardrails_or_empty none = dict end
guardrails_or_empty (some g) = guardrails_payload g

module _ (str_uuid : ℕ → String) where
  abbrev experiment_call : Experiment → Option ℕ → String → Fields → AuditCall
  experiment_call exp actor event_type fields = record {
    org_id = exp.org_id;
    actor_user_id = actor;
    event_type = event_type;
    entity_type = "optimization_experiment";
    entity_id = str_uuid exp.id;
    payload = dict fields;
  }

  pub created_call : ℕ → Experiment → AuditCall
  created_call owner_id exp = experiment_call exp (some owner_id) "experiment.created" (
      field "title" (str exp.title) (
        field "opportunity_id" (optional uuid exp.opportunity_id) (
          field "risk_budget_id" (optional uuid exp.risk_budget_id) (
            field "target_environment" (str exp.target_environment) (
              field "target_criticality" (str exp.target_criticality)
                (field "guardrails" (guardrails_or_empty exp.guardrails) end))))))

  pub updated_call : Experiment → ExperimentUpdate → AuditCall
  updated_call exp req = experiment_call exp exp.owner_id "experiment.updated" (
      present "title" str req.title (
        present "hypothesis" str req.hypothesis (
          present "description" str req.description (
            present "simulation_notes" str req.simulation_notes (
              present "simulated_savings_usd" (λ x. float (float_bits x)) req.simulated_savings_usd
                (present "simulated_confidence" (λ x. float (float_bits x)) req.simulated_confidence
                  (present "causal_summary" str req.causal_summary (
                    present "guardrails" guardrails_payload req.guardrails (
                      present "target_environment" str req.target_environment (
                        present "target_criticality" str req.target_criticality (
                          present "actual_savings_usd" (λ x. float (float_bits x))
                            req.actual_savings_usd
                            (present "actual_confidence" (λ x. float (float_bits x))
                              req.actual_confidence
                              (present "outcome" (λ o. enum_value (outcome_value o)) req.outcome
                                end)))))))))))))

  pub transitioned_call : ℕ → Option ℕ → Option String → Experiment → AuditCall
  transitioned_call org_id approver notes exp = record {
    org_id = org_id;
    actor_user_id = approver;
    event_type = "experiment.transitioned";
    entity_type = "optimization_experiment";
    entity_id = str_uuid exp.id;
    payload = dict (
        field "status" (str (status_value exp.status)) (
          field "outcome" (optional (λ o. str (outcome_value o)) exp.outcome)
            (field "notes" (optional str notes) end)));
  }

  pub approved_call : ExperimentApproval → AuditCall
  approved_call approval = record {
    org_id = approval.org_id;
    actor_user_id = some approval.approver_user_id;
    event_type = "experiment.approved";
    entity_type = "optimization_experiment";
    entity_id = str_uuid approval.experiment_id;
    payload =
        dict
          (field "approval_id" (uuid approval.id) (field "note" (optional str approval.note) end));
  }

  pub run_created_call : Option ℕ → ExperimentRun → AuditCall
  run_created_call actor run = record {
    org_id = run.org_id;
    actor_user_id = actor;
    event_type = "experiment.run.created";
    entity_type = "experiment_run";
    entity_id = str_uuid run.id;
    payload = dict (
        field "experiment_id" (uuid run.experiment_id) (
          field "run_type" (str (run_type_value run.run_type))
            (field "notes" (optional str run.notes) end)));
  }

  pub run_updated_call : Option ℕ → ExperimentRun → RunUpdate → AuditCall
  run_updated_call actor run req = record {
    org_id = run.org_id;
    actor_user_id = actor;
    event_type = "experiment.run.updated";
    entity_type = "experiment_run";
    entity_id = str_uuid run.id;
    payload = dict (
        present "status" (λ s. enum_value (run_status_value s)) req.status
          (present "metrics_after" (λ m. m) req.metrics_after
            (present "impact_usd" (λ x. float (float_bits x)) req.impact_usd
              (present "error_rate_before" (λ x. float (float_bits x)) req.error_rate_before
                (present "error_rate_after" (λ x. float (float_bits x)) req.error_rate_after
                  (present "rollback_triggered" flag req.rollback_triggered (
                    present "rollback_reason" str req.rollback_reason
                      (present "notes" str req.notes end))))))));
  }
