-- ===== src/Experiments/Endpoints.antt =====
-- The endpoints that change an experiment, each behind the policy:
-- backend/app/domains/experiments/router.py. A request runs in one transaction of `get_db`.
use cau_sium.Prelude.{ℕ, String, not, Option, some, codes, Result, err, value_error, http}
use cau_sium.Prelude.Actions.{Action, gets, raise_if, or_raise, ◌>>=◌, ◌>>◌}
use cau_sium.Audit.{Stamp}
use cau_sium.Policy.{UserRole, SessionContext, ActionRequest, authorize_experiment_action}
use cau_sium.Policy.Service.{record_decision}
use cau_sium.Experiments.{
  Store, Experiment, ExperimentStatus, ExperimentRun, ExperimentApproval, RunCreate, RunUpdate,
  approved, running, get, is_high_risk, approval_count, append_audit, transition, create_run,
  update_run, create_approval,
}

pub record CurrentUser : Type 0 where
  pub id : ℕ
  pub org_id : ℕ
  pub role : UserRole

-- What a request takes from the clock and from `uuid4`: for a new bundle, for the evidence, for
-- the row that it writes, and the id of the decision.
pub record Ticket : Type 0 where
  pub bundle : Stamp
  pub evidence : Stamp
  pub row : Stamp
  pub decision_id : ℕ

-- `except ValueError as e: raise HTTPException(400, str(e))`
abbrev pub as_bad_request : {A : Type 0} → Result A × Store → Result A × Store
as_bad_request (err (value_error message), s) = (err (http 400 message), s)
as_bad_request r = r

abbrev pub action_request : CurrentUser → SessionContext → String → Experiment → ℕ → ActionRequest
action_request user session action exp count = record {
  action = action;
  role = user.role;
  environment = codes exp.target_environment;
  criticality = codes exp.target_criticality;
  session = session;
  requires_dual_approval = is_high_risk exp;
  approval_count = count;
}

-- `action_map.get(req.status, "experiment.transition.generic")`
abbrev pub transition_action : ExperimentStatus → String
transition_action approved = "experiment.transition.approved"
transition_action running = "experiment.transition.running"
transition_action _ = "experiment.transition.generic"

module _ (str_uuid : ℕ → String) (user : CurrentUser) (session : SessionContext) (t : Ticket) where
  -- The decision's row and audit event are written first; then a denial is raised.
  unfoldable pub evaluate_and_record_policy : String → Experiment → ℕ → Action Store (Unit {0})
  evaluate_and_record_policy action exp count s =
      let decision =
        authorize_experiment_action (action_request user session action exp count) t.decision_id
          t.row.now in
      let (policy, call) =
        record_decision s.policy t.bundle t.evidence user.org_id (some user.id) decision session
          action "optimization_experiment" (str_uuid exp.id) in
      raise_if (not decision.allowed) (http 403 "denied")
        (append_audit call (record s { policy = policy }))

  unfoldable pub transition_experiment :
      ℕ → ExperimentStatus → Option String → Action Store Experiment
  transition_experiment experiment_id status notes = do
    exp ← or_raise (← gets (get user.org_id experiment_id)) (http 404 "Experiment not found")
    count ← gets (approval_count user.org_id experiment_id)
    evaluate_and_record_policy (transition_action status) exp count
    λ s.
        as_bad_request
          (transition str_uuid t.row user.org_id experiment_id status notes (some user.id) s)

  unfoldable pub create_run_endpoint : ℕ → RunCreate → Action Store ExperimentRun
  create_run_endpoint experiment_id req = do
    exp ← or_raise (← gets (get user.org_id experiment_id)) (http 404 "Experiment not found")
    count ← gets (approval_count user.org_id experiment_id)
    evaluate_and_record_policy "experiment.run.create" exp count
    λ s. as_bad_request (create_run str_uuid t.row user.org_id experiment_id req (some user.id) s)

  unfoldable pub update_run_endpoint : ℕ → ℕ → RunUpdate → Action Store ExperimentRun
  update_run_endpoint experiment_id run_id req = do
    exp ← or_raise (← gets (get user.org_id experiment_id)) (http 404 "Experiment not found")
    count ← gets (approval_count user.org_id experiment_id)
    evaluate_and_record_policy "experiment.run.update" exp count
    run ← update_run str_uuid t.row user.org_id experiment_id run_id req (some user.id)
    or_raise run (http 404 "Run not found")

  -- Without an Idempotency-Key.
  unfoldable pub approve_experiment : ℕ → Option String → Action Store ExperimentApproval
  approve_experiment experiment_id note = do
    exp ← or_raise (← gets (get user.org_id experiment_id)) (http 404 "Experiment not found")
    count ← gets (approval_count user.org_id experiment_id)
    evaluate_and_record_policy "experiment.transition.approved" exp count
    λ s. as_bad_request (create_approval str_uuid t.row user.org_id experiment_id user.id note s)
