-- ===== src/Experiments.antt =====
-- The experiment service: backend/app/domains/experiments/service.py. A method is an action on the
-- store of its request; `str_uuid` is `str(UUID)`. In a payload a UUID or an enum stands for the
-- string that normalisation makes of it.
mod Models
mod Payloads
pub mod Endpoints
pub mod Gate
pub mod Diagram
pub mod Lifecycle
pub mod Approvals
mod Tests
unfoldable pub use Models.*
unfoldable pub use Payloads.*
use cau_sium.Prelude.{
  ℕ, suc, String, Bool, true, false, ◌&&◌, ◌||◌, not, Option, none, some, List, [], ◌∷◌, ◌++◌,
  select, find_row, update_rows, any_row, ◌==◌, opt_eq, if◌then◌else◌, value_error,
}
use cau_sium.Prelude.Actions.{Action, pure, gets, modify, raise_if, or_raise, ◌>>=◌, ◌>>◌}
use cau_sium.Prelude.Floats.{Float, geb, float_0, float_0_1, float_0_2, float_0_7}
use cau_sium.Audit.{Stamp, AuditCall}

-- `append_event`: the call is made.
abbrev pub append_audit : AuditCall → Store → Store
append_audit call s = record s { audit = s.audit ++ call ∷ [] }

abbrev pub is_experiment : ℕ → ℕ → Experiment → Bool
is_experiment org_id experiment_id e = e.id == experiment_id && e.org_id == org_id

unfoldable pub get : ℕ → ℕ → Store → Option Experiment
get org_id experiment_id s = find_row (is_experiment org_id experiment_id) s.experiments

-- The row of an object of the session is written back.
abbrev pub write_experiment : Experiment → Store → Store
write_experiment exp s = record s {
  experiments = update_rows (λ e. e.id == exp.id) (λ _. exp) s.experiments;
}

abbrev pub status_code : ExperimentStatus → ℕ
status_code draft = 0
status_code hypothesis = 1
status_code simulating = 2
status_code approved = 3
status_code running = 4
status_code measuring = 5
status_code concluded = 6
status_code cancelled = 7

abbrev pub status_eq : ExperimentStatus → ExperimentStatus → Bool
status_eq a b = status_code a == status_code b

abbrev pub status_in : ExperimentStatus → List ExperimentStatus → Bool
status_in a [] = false
status_in a (b ∷ bs) = status_eq a b || status_in a bs

-- The assignments of `transition`, by the target.
unfoldable pub move_to : ExperimentStatus → ℕ → Option ℕ → Experiment → Experiment
move_to running now approver exp = record exp { status = running; started_at = some now }
move_to approved now none exp = record exp { status = approved }
move_to approved now (some user) exp = record exp { status = approved; approved_by_id = some user }
move_to concluded now approver exp = record exp { status = concluded; concluded_at = some now }
move_to cancelled now approver exp = record exp {
  status = cancelled;
  concluded_at = some now;
  outcome = some outcome_cancelled;
}
move_to status now approver exp = record exp { status = status }

-- `guardrails.get(key, 0.0) or 0.0`, with the key's field.
abbrev guardrail : (Guardrails → Float) → Option Guardrails → Float
guardrail f none = float_0
guardrail f (some g) = f g

abbrev or_zero : Option Float → Float
or_zero none = float_0
or_zero (some x) = x

unfoldable pub is_high_risk : Experiment → Bool
unfolding geb
is_high_risk exp =
    geb (or_zero exp.estimated_risk_score) float_0_7
    || geb (guardrail (λ g. g.max_blast_radius_pct) exp.guardrails) float_0_2
    || geb (guardrail (λ g. g.max_cost_increase_pct) exp.guardrails) float_0_1

abbrev is_approval_of : ℕ → ℕ → ExperimentApproval → Bool
is_approval_of org_id experiment_id a = a.org_id == org_id && a.experiment_id == experiment_id

unfoldable pub list_approvals : ℕ → ℕ → Store → List ExperimentApproval
list_approvals org_id experiment_id s = select (is_approval_of org_id experiment_id) s.approvals

-- `len({a.approver_user_id for a in approvals})`: an approver counts where no later row has it.
unfoldable pub count_approvers : List ExperimentApproval → ℕ
count_approvers [] = 0
count_approvers (a ∷ rest) =
    let n = count_approvers rest in
    if any_row (λ b. b.approver_user_id == a.approver_user_id) rest then n else suc n

unfoldable pub approval_count : ℕ → ℕ → Store → ℕ
unfolding list_approvals count_approvers
approval_count org_id experiment_id s = count_approvers (list_approvals org_id experiment_id s)

-- The unique constraint on (experiment_id, approver_user_id).
abbrev pub approved_by : ℕ → ℕ → ExperimentApproval → Bool
approved_by experiment_id user a = a.experiment_id == experiment_id && a.approver_user_id == user

unfoldable pub new_experiment : Stamp → ℕ → ℕ → ExperimentCreate → Experiment
new_experiment stamp org_id owner_id req = record {
  id = stamp.id;
  org_id = org_id;
  owner_id = some owner_id;
  title = req.title;
  hypothesis = req.hypothesis;
  description = req.description;
  target_environment = req.target_environment;
  target_criticality = req.target_criticality;
  opportunity_id = req.opportunity_id;
  risk_budget_id = req.risk_budget_id;
  guardrails = req.guardrails;
  causal_change_event_ids = req.causal_change_event_ids;
  causal_summary = none;
  status = draft;
  outcome = none;
  simulated_savings_usd = none;
  simulated_confidence = none;
  simulation_notes = none;
  approved_by_id = none;
  estimated_risk_score = none;
  actual_savings_usd = none;
  actual_confidence = none;
  started_at = none;
  concluded_at = none;
}

abbrev given {ℓ} : {A : Type ℓ} → Option A → A → A
given none old = old
given (some new) old = new

abbrev given_too {ℓ} : {A : Type ℓ} → Option A → Option A → Option A
given_too none old = old
given_too (some new) old = some new

-- `setattr` for each field that the request sets.
unfoldable pub updated : ExperimentUpdate → Experiment → Experiment
updated req exp = record exp {
  title = given req.title exp.title;
  hypothesis = given_too req.hypothesis exp.hypothesis;
  description = given_too req.description exp.description;
  simulation_notes = given_too req.simulation_notes exp.simulation_notes;
  simulated_savings_usd = given_too req.simulated_savings_usd exp.simulated_savings_usd;
  simulated_confidence = given_too req.simulated_confidence exp.simulated_confidence;
  causal_summary = given_too req.causal_summary exp.causal_summary;
  guardrails = given_too req.guardrails exp.guardrails;
  target_environment = given req.target_environment exp.target_environment;
  target_criticality = given req.target_criticality exp.target_criticality;
  actual_savings_usd = given_too req.actual_savings_usd exp.actual_savings_usd;
  actual_confidence = given_too req.actual_confidence exp.actual_confidence;
  outcome = given_too req.outcome exp.outcome;
}

abbrev is_run : ℕ → ℕ → ℕ → ExperimentRun → Bool
is_run org_id experiment_id run_id r =
    r.id == run_id && r.experiment_id == experiment_id && r.org_id == org_id

abbrev pub write_run : ExperimentRun → Store → Store
write_run run s = record s { runs = update_rows (λ r. r.id == run.id) (λ _. run) s.runs }

-- `req.status in (COMPLETED, ROLLED_BACK)`
abbrev run_ends : Option RunStatus → Bool
run_ends (some run_completed) = true
run_ends (some run_rolled_back) = true
run_ends _ = false

unfoldable pub updated_run : RunUpdate → ℕ → ExperimentRun → ExperimentRun
updated_run req now run = record run {
  status = given req.status run.status;
  metrics_after = given_too req.metrics_after run.metrics_after;
  impact_usd = given_too req.impact_usd run.impact_usd;
  error_rate_before = given_too req.error_rate_before run.error_rate_before;
  error_rate_after = given_too req.error_rate_after run.error_rate_after;
  rollback_triggered = given req.rollback_triggered run.rollback_triggered;
  rollback_reason = given_too req.rollback_reason run.rollback_reason;
  notes = given_too req.notes run.notes;
  completed_at = if run_ends req.status then some now else run.completed_at;
}

module _ (str_uuid : ℕ → String) where
  unfoldable pub create : Stamp → ℕ → ℕ → ExperimentCreate → Action Store Experiment
  unfolding new_experiment
  create stamp org_id owner_id req = do
    let exp = new_experiment stamp org_id owner_id req
    modify (λ s. record s { experiments = s.experiments ++ exp ∷ [] })
    modify (append_audit (created_call str_uuid owner_id exp))
    pure exp

  unfoldable pub update : ℕ → ℕ → ExperimentUpdate → Action Store (Option Experiment)
  unfolding get
  update org_id experiment_id req s = elim (get org_id experiment_id s) [
    | none ↦ pure none s
    | some exp ↦
        pure (some (updated req exp))
          (append_audit (updated_call str_uuid exp req) (write_experiment (updated req exp) s))
  ]

  unfoldable pub transition :
      Stamp → ℕ → ℕ → ExperimentStatus → Option String → Option ℕ → Action Store Experiment
  unfolding get
  transition stamp org_id experiment_id status notes approver = do
    exp ← or_raise (← gets (get org_id experiment_id)) (value_error "Experiment not found")
    raise_if (not (status_in status (valid_experiment_transitions exp.status)))
        (value_error "Cannot transition")
    let moved = move_to status stamp.now approver exp
    modify (write_experiment moved)
    modify (append_audit (transitioned_call str_uuid org_id approver notes moved))
    pure moved

  unfoldable pub create_approval :
      Stamp → ℕ → ℕ → ℕ → Option String → Action Store ExperimentApproval
  unfolding get
  create_approval stamp org_id experiment_id approver note = do
    exp ← or_raise (← gets (get org_id experiment_id)) (value_error "Experiment not found")
    raise_if (opt_eq exp.owner_id (some approver))
        (value_error "Experiment owner cannot self-approve")
    taken ← gets (λ s. any_row (approved_by experiment_id approver) s.approvals)
    raise_if taken (value_error "User already approved this experiment")
    let approval : ExperimentApproval = record {
      id = stamp.id;
      org_id = org_id;
      experiment_id = experiment_id;
      approver_user_id = approver;
      note = note;
    }
    modify (λ s. record s { approvals = s.approvals ++ approval ∷ [] })
    modify (append_audit (approved_call str_uuid approval))
    pure approval

  unfoldable pub create_run : Stamp → ℕ → ℕ → RunCreate → Option ℕ → Action Store ExperimentRun
  unfolding get
  create_run stamp org_id experiment_id req actor = do
    exp ← or_raise (← gets (get org_id experiment_id)) (value_error "Experiment not found")
    raise_if (not (status_eq exp.status running))
        (value_error "Experiment must be in RUNNING state to create a run")
    let run : ExperimentRun = record {
      id = stamp.id;
      experiment_id = experiment_id;
      org_id = org_id;
      run_type = req.run_type;
      status = run_pending;
      metrics_before = req.metrics_before;
      metrics_after = none;
      impact_usd = none;
      error_rate_before = none;
      error_rate_after = none;
      rollback_triggered = false;
      rollback_reason = none;
      notes = req.notes;
      started_at = some stamp.now;
      completed_at = none;
    }
    modify (λ s. record s { runs = s.runs ++ run ∷ [] })
    modify (append_audit (run_created_call str_uuid actor run))
    pure run

  unfoldable pub update_run :
      Stamp → ℕ → ℕ → ℕ → RunUpdate → Option ℕ → Action Store (Option ExperimentRun)
  update_run stamp org_id experiment_id run_id req actor s =
      elim (find_row (is_run org_id experiment_id run_id) s.runs) [
        | none ↦ pure none s
        | some run ↦ pure (some (updated_run req stamp.now run)) (
            append_audit (run_updated_call str_uuid actor run req)
              (write_run (updated_run req stamp.now run) s))
      ]
