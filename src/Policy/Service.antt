-- ===== src/Policy/Service.antt =====
-- Policy bundles and the evidence of decisions: backend/app/domains/policy/service.py, models.py.
use cau_sium.Prelude.{
  ℕ, String, Bool, true, ◌&&◌, Option, none, some, List, [], ◌∷◌, ◌++◌, ltb, ◌==◌, if◌then◌else◌,
}
use cau_sium.Audit.{AuditCall, Stamp, dict, field, end, str, flag, uuid}
use cau_sium.Policy.{PolicyDecision, Reason, SessionContext}

pub record PolicyBundle : Type 0 where
  pub id : ℕ
  pub org_id : ℕ
  pub name : String
  pub version : String
  pub engine : String
  pub rules : List (String × Bool)
  pub is_active : Bool
  pub created_at : ℕ

pub record DecisionEvidence : Type 0 where
  pub id : ℕ
  pub org_id : ℕ
  pub policy_bundle_id : ℕ
  pub actor_user_id : Option ℕ
  pub action : String
  pub resource_type : String
  pub resource_id : String
  pub allowed : Bool
  pub reason : Reason
  pub session_context : SessionContext
  pub policy_decision_id : ℕ

pub record PolicyTables : Type 0 where
  pub bundles : List PolicyBundle
  pub evidences : List DecisionEvidence

abbrev is_active_of : ℕ → PolicyBundle → Bool
is_active_of org_id b = b.org_id == org_id && b.is_active

-- Of two candidates the one created later; the first on a tie.
newer : PolicyBundle → Option PolicyBundle → PolicyBundle
newer b none = b
newer b (some c) = if ltb b.created_at c.created_at then c else b

newest_active : ℕ → List PolicyBundle → Option PolicyBundle
unfolding newer
newest_active org_id [] = none
newest_active org_id (b ∷ bs) =
    let rest = newest_active org_id bs in
    if is_active_of org_id b then some (newer b rest) else rest

unfoldable pub get_active_bundle : PolicyTables → ℕ → Option PolicyBundle
unfolding newest_active
get_active_bundle db org_id = newest_active org_id db.bundles

abbrev default_rules : List (String × Bool)
default_rules =
    ("session_risk_block_high", true)
    ∷ ("production_requires_maintenance_window", true)
    ∷ ("critical_requires_low_session_risk", true)
    ∷ ("high_risk_requires_dual_approval", true)
    ∷ []

abbrev default_bundle : Stamp → ℕ → PolicyBundle
default_bundle stamp org_id = record {
  id = stamp.id;
  org_id = org_id;
  name = "default-runtime-guardrails";
  version = "1.0.0";
  engine = "internal-pbac-abac";
  rules = default_rules;
  is_active = true;
  created_at = stamp.now;
}

unfoldable pub ensure_default_bundle : PolicyTables → Stamp → ℕ → PolicyTables × PolicyBundle
ensure_default_bundle db stamp org_id = elim (get_active_bundle db org_id) [
  | some bundle ↦ (db, bundle)
  | none ↦ (
    record db { bundles = db.bundles ++ default_bundle stamp org_id ∷ [] },
    default_bundle stamp org_id,
  )
]

-- The tables afterwards and the call of `append_event`; the first stamp is for a new bundle, the
-- second for the evidence.
unfoldable pub record_decision :
    PolicyTables
    → Stamp
    → Stamp
    → ℕ
    → Option ℕ
    → PolicyDecision
    → SessionContext
    → String
    → String
    → String
    → PolicyTables × AuditCall
unfolding ensure_default_bundle
record_decision db stamp evidence_stamp org_id actor decision session action resource_type
      resource_id =
    let (db', bundle) = ensure_default_bundle db stamp org_id in
    let evidence : DecisionEvidence = record {
      id = evidence_stamp.id;
      org_id = org_id;
      policy_bundle_id = bundle.id;
      actor_user_id = actor;
      action = action;
      resource_type = resource_type;
      resource_id = resource_id;
      allowed = decision.allowed;
      reason = decision.reason;
      session_context = session;
      policy_decision_id = decision.policy_decision_id;
    } in
    (
      record db' { evidences = db'.evidences ++ evidence ∷ [] },
      record {
        org_id = org_id;
        actor_user_id = actor;
        event_type = "policy.decision.recorded";
        entity_type = resource_type;
        entity_id = resource_id;
        payload = dict (
            field "policy_decision_id" (uuid decision.policy_decision_id) (
              field "action" (str action) (
                field "allowed" (flag decision.allowed)
                  (field "policy_bundle_id" (uuid bundle.id) end))));
      },
    )
