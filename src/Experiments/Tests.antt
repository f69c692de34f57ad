-- ===== src/Experiments/Tests.antt =====
-- Experiments at work, and the theorems about them at concrete stores.
use cau_sium.Prelude.{
  ℕ, ◌≤◌, String, ◌≡◌, ◌⊎◌, refl, true, false, none, some, List, [], ◌∷◌, ok, err, http,
  value_error, codes,
}
use cau_sium.Prelude.Actions.{in_transaction}
use cau_sium.Prelude.Floats.{plus}
use cau_sium.Audit.{Stamp}
use cau_sium.Policy.{
  SessionContext, admin, viewer, is_operator, is_high_session, authorize_experiment_action,
  is_runtime_action, is_approval_or_execution, is_run_action, is_production, is_critical_asset,
  is_low_session,
}
use cau_sium.Experiments.{
  Store, Experiment, ExperimentCreate, ExperimentApproval, ExperimentStatus, draft, hypothesis,
  approved, running, cancelled, get, approval_count, append_audit, write_experiment, move_to,
  transition, create, transitioned_call, is_high_risk, valid_experiment_transitions,
}
use cau_sium.Experiments.Endpoints.{
  CurrentUser, Ticket, transition_experiment, evaluate_and_record_policy,
}
use cau_sium.Experiments.Gate.{denied_leaves_no_evidence, running_needs_two_approvals}
use cau_sium.Experiments.Diagram.{◌⟶◌, transition_follows_diagram}
use cau_sium.Experiments.Lifecycle.{
  AllConsistent, Op, create_op, transition_op, run, run-AllConsistent,
}

abbrev names : ℕ → String
names n = "u"

abbrev request : ExperimentCreate
request = record {
  title = "smaller nodes";
  hypothesis = none;
  description = none;
  opportunity_id = none;
  risk_budget_id = none;
  guardrails = some (record {
    max_blast_radius_pct = plus 0x3fc999999999999a;
    rollback_on_error_rate = plus 0;
    max_cost_increase_pct = plus 0;
    require_approval = true;
  });
  causal_change_event_ids = none;
  target_environment = "staging";
  target_criticality = "medium";
}

abbrev at : ℕ → ℕ → Stamp
at now id = record { now = now; id = id }

abbrev nothing : Store
nothing = record {
  experiments = [];
  approvals = [];
  runs = [];
  policy = record { bundles = []; evidences = [] };
  audit = [];
}

abbrev seven : Experiment
seven = record {
  id = 7;
  org_id = 0;
  owner_id = some 3;
  title = request.title;
  hypothesis = none;
  description = none;
  target_environment = request.target_environment;
  target_criticality = request.target_criticality;
  opportunity_id = none;
  risk_budget_id = none;
  guardrails = request.guardrails;
  causal_change_event_ids = none;
  causal_summary = none;
  status = draft;
  outcome = none;
  simulated_savings_usd = none;
  simulated_confidence = none;
  simulation_notes = none;
  approved_by_id = none;
  estimated_risk_score = none;
  actual_savings_usd = none;
  actual_confidence = none;
  started_at = none;
  concluded_at = none;
}

created_is_seven : (create names (at 1 7) 0 3 request nothing).0 ≡ ok seven
unfolding create
created_is_seven = refl

abbrev seven_as : ExperimentStatus → Experiment
seven_as status = record seven { status = status }

abbrev holding : Experiment → Store
holding exp = record nothing { experiments = exp ∷ [] }

abbrev approval : ℕ → ℕ → ExperimentApproval
approval id user = record {
  id = id;
  org_id = 0;
  experiment_id = 7;
  approver_user_id = user;
  note = none;
}

abbrev twice_approved : Store
twice_approved = record (holding (seven_as approved)) {
  approvals = approval 20 4 ∷ approval 21 5 ∷ [];
}

abbrev boss : CurrentUser
boss = record { id = 3; org_id = 0; role = admin }

abbrev watcher : CurrentUser
watcher = record { id = 9; org_id = 0; role = viewer }

abbrev calm : SessionContext
calm = record {
  session_risk = codes "low";
  maintenance_window = false;
  geo_velocity_high = false;
  device_trusted = true;
}

abbrev ticket : Ticket
ticket = record { bundle = at 5 30; evidence = at 5 31; row = at 5 32; decision_id = 33 }

denied_leaves_no_evidence_example :
    in_transaction
      (transition_experiment names watcher calm ticket 7 hypothesis none)
      (holding seven)
    ≡ (err (http 403 "denied"), holding seven)
unfolding get authorize_experiment_action
denied_leaves_no_evidence_example =
    denied_leaves_no_evidence names watcher calm ticket 7 hypothesis none (holding seven) seven refl
      refl

launched :
    (transition_experiment names boss calm ticket 7 running none twice_approved).0
    ≡ ok (record (seven_as approved) { status = running; started_at = some 5 })
unfolding transition_experiment evaluate_and_record_policy transition get move_to
    authorize_experiment_action is_high_session is_runtime_action is_approval_or_execution
    is_run_action is_production is_critical_asset is_low_session is_high_risk approval_count
    valid_experiment_transitions
launched = refl

running_needs_two_approvals_example :
    (2 ≤ approval_count 0 7 twice_approved)
    × (is_operator admin ≡ true)
    × (is_high_session calm ≡ false)
    × (true ≡ true)
unfolding get is_high_risk
running_needs_two_approvals_example =
    running_needs_two_approvals names boss calm ticket 7 none twice_approved (seven_as approved)
      refl refl launched

transition_follows_diagram_example :
    let moved = move_to hypothesis 2 (some 3) seven in
    let result = transition names (at 2 40) 0 7 hypothesis none (some 3) (holding seven) in
    ((draft ⟶ hypothesis)
      × (moved.status ≡ hypothesis)
      × (result ≡ (
        ok moved,
        append_audit
            (transitioned_call names 0 (some 3) none moved)
            (write_experiment moved (holding seven)),
      )))
    ⊎ (¬ (draft ⟶ hypothesis) × (result ≡ (err (value_error "Cannot transition"), holding seven)))
unfolding get
transition_follows_diagram_example =
    transition_follows_diagram names (at 2 40) 0 7 hypothesis none (some 3) (holding seven) seven
      refl

abbrev ops : List Op
ops =
    create_op (at 1 7) 0 3 request
    ∷ transition_op (at 2 8) 0 7 running none (some 3)
    ∷ transition_op (at 3 9) 0 7 cancelled none (some 3)
    ∷ []

run-AllConsistent_example : AllConsistent (run names ops nothing)
run-AllConsistent_example = run-AllConsistent names ops nothing tt
