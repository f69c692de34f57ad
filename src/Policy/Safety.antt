-- ===== src/Policy/Safety.antt =====
-- What the policy guarantees: exactly which requests it allows, and that headers fail safe.
use cau_sium.Prelude.{
  ap, sym, ◌∙◌, ℕ, ◌≤◌, ◌≡◌, ◌⊎◌, inl, inr, ◌↔◌, refl, true, false, Option, codes, Text, text_in,
  text_eq, text_eq→eq, arith, Bool-cases, str_eq,
}
use cau_sium.Policy.{
  ActionRequest, authorize_experiment_action, build_session_context, is_viewer, is_operator,
  is_runtime_action, is_approval_or_execution, is_run_action, is_high_session, is_low_session,
  is_production, is_critical_asset, known_or_medium, normalized, known_risks,
}

-- What an allowed request satisfies, rule by rule.
pub record Permits (r : ActionRequest) : Type 0 where
  pub no_viewer : is_viewer r.role ≡ false
  pub calm_session : is_high_session r.session ≡ false
  pub safe_place :
      is_runtime_action r.action ≡ true
      → (r.session.geo_velocity_high ≡ false) × (r.session.device_trusted ≡ true)
  pub operator_only :
      (is_approval_or_execution r.action ≡ true) ⊎ (is_run_action r.action ≡ true)
      → is_operator r.role ≡ true
  pub in_window :
      is_production r.environment ≡ true
      → is_runtime_action r.action ≡ true
      → r.session.maintenance_window ≡ true
  pub low_risk_for_critical :
      is_critical_asset r.criticality ≡ true → is_low_session r.session ≡ true
  pub two_approvals :
      r.requires_dual_approval ≡ true
      → str_eq r.action "experiment.transition.running" ≡ true
      → 2 ≤ r.approval_count

-- A request is allowed exactly when it satisfies every rule.
pub authorize_iff :
    (r : ActionRequest) (decision_id now : ℕ)
    → ((authorize_experiment_action r decision_id now).allowed ≡ true) ↔ Permits r
unfolding authorize_experiment_action
authorize_iff r decision_id now = (λ h. ground arith, λ p. ground arith)

abbrev IsKnown : Text → Type 0
IsKnown risk = (risk ≡ codes "low") ⊎ ((risk ≡ codes "medium") ⊎ (risk ≡ codes "high"))

known_or_medium-IsKnown : (risk : Text) → IsKnown (known_or_medium risk)
unfolding known_or_medium
known_or_medium-IsKnown risk = elim (Bool-cases (text_eq risk (codes "low"))) [
  | inl low ↦ rw (text_eq, text_eq→eq risk (codes "low") low) (inl refl)
  | inr other ↦ elim (Bool-cases (text_eq risk (codes "medium"))) [
    | inl medium ↦ rw (text_eq, text_eq→eq risk (codes "medium") medium) (inr (inl refl))
    | inr extreme ↦ elim (Bool-cases (text_eq risk (codes "high"))) [
      | inl high ↦ rw (text_eq, text_eq→eq risk (codes "high") high) (inr (inr refl))
      | inr unknown ↦ rw (other, extreme, unknown) (inr (inl refl))
    ]
  ]
]

-- Whatever the headers hold, the session risk is one of low, medium and high.
build_session_context_known :
    (risk window velocity device : Option Text)
    → let s = build_session_context risk window velocity device in
      (s.session_risk ≡ codes "low")
      ⊎ ((s.session_risk ≡ codes "medium") ⊎ (s.session_risk ≡ codes "high"))
unfolding build_session_context
build_session_context_known risk window velocity device =
    known_or_medium-IsKnown (normalized risk (codes "medium"))

known_or_medium_low : (risk : Text) → known_or_medium risk ≡ codes "low" → risk ≡ codes "low"
unfolding known_or_medium
known_or_medium_low risk h = elim (Bool-cases (text_in risk known_risks)) [
  | inl known ↦ rw known at h
  | inr unknown ↦ absurd (ground (arith, rw unknown at h))
]

-- A request on a critical asset with a session built from the headers is allowed only if the risk
-- header, stripped and lowered, reads `low`; a missing or unknown value counts as medium.
pub critical_needs_known_low_risk :
    (r : ActionRequest) (risk window velocity device : Option Text) (decision_id now : ℕ)
    → is_critical_asset r.criticality ≡ true
    → r.session ≡ build_session_context risk window velocity device
    → (authorize_experiment_action r decision_id now).allowed ≡ true
    → normalized risk (codes "medium") ≡ codes "low"
unfolding build_session_context is_low_session
critical_needs_known_low_risk r risk window velocity device decision_id now critical session
      allowed =
    let low = (authorize_iff r decision_id now).0 allowed in
    let risk_is_low =
      text_eq→eq r.session.session_risk (codes "low") (low.low_risk_for_critical critical) in
    known_or_medium_low (normalized risk (codes "medium"))
      (ap (λ s. s.session_risk) (sym session) ∙ risk_is_low)
