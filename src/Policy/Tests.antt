-- ===== src/Policy/Tests.antt =====
-- Requests that the policy allows and denies, and its theorems at concrete requests.
use cau_sium.Prelude.{◌≡◌, ◌↔◌, refl, true, false, some, none, codes}
use cau_sium.Policy.{
  ActionRequest, engineer, authorize_experiment_action, build_session_context, is_critical_asset,
  is_high_session, is_runtime_action, is_approval_or_execution, is_run_action, is_production,
  is_low_session,
}
use cau_sium.Policy.Safety.{Permits, authorize_iff}

abbrev start_run : ActionRequest
start_run = record {
  action = "experiment.transition.running";
  role = engineer;
  environment = codes "Production";
  criticality = codes "tier-0";
  session = record {
    session_risk = codes "low";
    maintenance_window = true;
    geo_velocity_high = false;
    device_trusted = true;
  };
  requires_dual_approval = true;
  approval_count = 2;
}

start_run_allowed : (authorize_experiment_action start_run 1 2).allowed ≡ true
unfolding authorize_experiment_action is_high_session is_runtime_action is_approval_or_execution
    is_run_action is_production is_critical_asset is_low_session
start_run_allowed = refl

one_approval_denied :
    (authorize_experiment_action (record start_run { approval_count = 1 }) 1 2).allowed ≡ false
unfolding authorize_experiment_action is_high_session is_runtime_action is_approval_or_execution
    is_run_action is_production is_critical_asset is_low_session
one_approval_denied = refl

authorize_iff_example :
    ((authorize_experiment_action start_run 1 2).allowed ≡ true) ↔ Permits start_run
authorize_iff_example = authorize_iff start_run 1 2

abbrev headers_run : ActionRequest
headers_run = record start_run {
  session = build_session_context (some (codes " Low")) (some (codes "yes")) none none;
}
