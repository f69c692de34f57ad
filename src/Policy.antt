-- ===== src/Policy.antt =====
-- Session context and authorisation of experiment actions: backend/app/core/policy.py.
pub mod Safety
pub mod Service
mod Tests
use cau_sium.Prelude.{
  ℕ, String, Bool, true, false, ◌&&◌, ◌||◌, not, Option, none, some, List, [], ◌∷◌, Text, codes,
  strip, lower, text_eq, text_in, str_eq, ltb, if◌then◌else◌,
}

-- `UserRole` (backend/app/domains/auth/models.py)
pub data UserRole : Type 0 where
  platform_admin admin engineer finops executive viewer : UserRole

pub record SessionContext : Type 0 where
  pub session_risk : Text
  pub maintenance_window : Bool
  pub geo_velocity_high : Bool
  pub device_trusted : Bool

-- The message of a decision; an authorisation names the action, the environment, the criticality
-- and the time.
pub data Reason : Type 0 where
  denied : String → Reason
  authorized : String → Text → Text → ℕ → Reason

pub record PolicyDecision : Type 0 where
  pub allowed : Bool
  pub reason : Reason
  pub policy_decision_id : ℕ

-- `value or default`, for an optional text.
abbrev pub or_default : Option Text → Text → Text
or_default none d = d
or_default (some []) d = d
or_default (some (c ∷ s)) d = c ∷ s

pub normalized : Option Text → Text → Text
unfolding strip lower
normalized header d = lower (strip (or_default header d))

is_yes : Text → Bool
is_yes s = text_in s (codes "1" ∷ codes "true" ∷ codes "yes" ∷ codes "y" ∷ codes "on" ∷ [])

abbrev known_risks : List Text
known_risks = codes "low" ∷ codes "medium" ∷ codes "high" ∷ []

known_or_medium : Text → Text
known_or_medium risk = if text_in risk known_risks then risk else codes "medium"

unfoldable pub build_session_context :
    Option Text → Option Text → Option Text → Option Text → SessionContext
unfolding normalized is_yes known_or_medium
build_session_context session_risk maintenance_window geo_velocity_high device_trusted = record {
  session_risk = known_or_medium (normalized session_risk (codes "medium"));
  maintenance_window = is_yes (normalized maintenance_window []);
  geo_velocity_high = is_yes (normalized geo_velocity_high []);
  device_trusted = is_yes (normalized device_trusted (codes "true"));
}

abbrev pub is_viewer : UserRole → Bool
is_viewer viewer = true
is_viewer _ = false

-- `role_value in {ADMIN, ENGINEER}`
abbrev pub is_operator : UserRole → Bool
is_operator admin = true
is_operator engineer = true
is_operator _ = false

unfoldable pub is_runtime_action : String → Bool
is_runtime_action action =
    str_eq action "experiment.transition.running" || str_eq action "experiment.run.create"

unfoldable pub is_approval_or_execution : String → Bool
is_approval_or_execution action =
    str_eq action "experiment.transition.approved" || str_eq action "experiment.transition.running"

unfoldable pub is_run_action : String → Bool
is_run_action action =
    str_eq action "experiment.run.create" || str_eq action "experiment.run.update"

-- `(environment or "unknown").lower()` and the like
unfoldable pub lowered : Text → Text → Text
unfolding lower
lowered s d = lower (or_default (some s) d)

unfoldable pub is_high_session : SessionContext → Bool
is_high_session session = text_eq session.session_risk (codes "high")

unfoldable pub is_low_session : SessionContext → Bool
is_low_session session = text_eq session.session_risk (codes "low")

unfoldable pub is_production : Text → Bool
unfolding lowered
is_production environment = text_eq (lowered environment (codes "unknown")) (codes "production")

unfoldable pub is_critical_asset : Text → Bool
unfolding lowered
is_critical_asset criticality =
    text_in (lowered criticality (codes "medium"))
      (codes "critical" ∷ codes "tier0" ∷ codes "tier-0" ∷ [])

-- What a request for an action consists of.
pub record ActionRequest : Type 0 where
  pub action : String
  pub role : UserRole
  pub environment : Text
  pub criticality : Text
  pub session : SessionContext
  pub requires_dual_approval : Bool
  pub approval_count : ℕ

abbrev deny : ℕ → String → PolicyDecision
deny decision_id message = record {
  allowed = false;
  reason = denied message;
  policy_decision_id = decision_id;
}

-- The tests in their order; `decision_id` is the new UUID and `now` the clock.
unfoldable pub authorize_experiment_action : ActionRequest → ℕ → ℕ → PolicyDecision
unfolding lowered
authorize_experiment_action r decision_id now =
    if is_viewer r.role
    then deny decision_id "viewer role cannot execute critical actions"
    else if is_high_session r.session
    then deny decision_id "session risk is high"
    else if r.session.geo_velocity_high && is_runtime_action r.action
    then deny decision_id "geo-velocity risk is high for this action"
    else if not r.session.device_trusted && is_runtime_action r.action
    then deny decision_id "untrusted device for runtime action"
    else if is_approval_or_execution r.action && not (is_operator r.role)
    then deny decision_id "role not allowed for approval or execution transition"
    else if is_run_action r.action && not (is_operator r.role)
    then deny decision_id "role not allowed for run execution"
    else if is_production r.environment
        && is_runtime_action r.action
        && not r.session.maintenance_window
    then deny decision_id "production execution requires maintenance window"
    else if is_critical_asset r.criticality && not (is_low_session r.session)
    then deny decision_id "critical assets require low session risk"
    else if r.requires_dual_approval
        && str_eq r.action "experiment.transition.running"
        && ltb r.approval_count 2
    then deny decision_id "high-risk experiment requires at least two approvals"
    else record {
      allowed = true;
      reason =
          authorized r.action (lowered r.environment (codes "unknown"))
            (lowered r.criticality (codes "medium")) now;
      policy_decision_id = decision_id;
    }
