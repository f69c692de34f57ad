-- ===== src/Experiments/Gate.antt =====
-- What the policy gate means for the endpoints.
use cau_sium.Prelude.{
  ℕ, ◌≤◌, String, ◌≡◌, refl, Bool, true, false, Option, some, arith, ok, err, http, Option-cases,
  Bool-cases, inl, inr, ap, find_row, sym, ◌∙◌,
}
use cau_sium.Prelude.Actions.{in_transaction}
use cau_sium.Policy.{
  SessionContext, authorize_experiment_action, is_operator, is_high_session, is_runtime_action,
  is_approval_or_execution,
}
use cau_sium.Policy.Safety.{Permits, authorize_iff}
use cau_sium.Experiments.{
  Store, Experiment, ExperimentStatus, running, approved, simulating, move_to, get, is_experiment,
  valid_experiment_transitions, is_high_risk, approval_count,
}
use cau_sium.Experiments.Diagram.{transition_ok}
use cau_sium.Experiments.Endpoints.{
  CurrentUser, Ticket, action_request, transition_action, evaluate_and_record_policy,
  transition_experiment,
}

get_same :
    (org_id experiment_id : ℕ) (s' s : Store)
    → s'.experiments ≡ s.experiments
    → get org_id experiment_id s' ≡ get org_id experiment_id s
unfolding get
get_same org_id experiment_id s' s e = ap (find_row (is_experiment org_id experiment_id)) e

module _ (str_uuid : ℕ → String) (user : CurrentUser) (session : SessionContext) (t : Ticket) where
  -- The decision that the endpoint takes on an experiment.
  abbrev pub decision_allowed : ExperimentStatus → Experiment → ℕ → Bool
  decision_allowed status exp count =
      (authorize_experiment_action
        (action_request user session (transition_action status) exp count) t.decision_id
        t.row.now).allowed

  denied_raises :
      (action : String) (exp : Experiment) (count : ℕ) (s : Store)
      → (authorize_experiment_action
          (action_request user session action exp count)
          t.decision_id
          t.row.now).allowed
        ≡ false
      → (evaluate_and_record_policy str_uuid user session t action exp count s).0
        ≡ err (http 403 "denied")
  unfolding evaluate_and_record_policy
  denied_raises action exp count s h = rw h

  -- A denied transition answers 403 and leaves the committed store as it was: the evidence of the
  -- decision and its audit event are rolled back with it.
  pub denied_leaves_no_evidence :
      (experiment_id : ℕ) (status : ExperimentStatus) (notes : Option String) (s : Store)
      (exp : Experiment)
      → get user.org_id experiment_id s ≡ some exp
      → decision_allowed status exp (approval_count user.org_id experiment_id s) ≡ false
      → in_transaction (transition_experiment str_uuid user session t experiment_id status notes) s
        ≡ (err (http 403 "denied"), s)
  unfolding transition_experiment in_transaction
  denied_leaves_no_evidence experiment_id status notes s exp found denied = rw found (
      ground (
        arith,
        denied_raises (transition_action status) exp (approval_count user.org_id experiment_id s) s
            denied,
      ))

  -- A transition endpoint that answers with success has found the experiment, and the policy
  -- permits the request.
  pub transition_permitted :
      (experiment_id : ℕ) (status : ExperimentStatus) (notes : Option String) (s : Store)
      {after : Experiment}
      → (transition_experiment str_uuid user session t experiment_id status notes s).0 ≡ ok after
      → (exp : Experiment) × (get user.org_id experiment_id s ≡ some exp)
        × Permits (
            action_request user session
              (transition_action status)
              exp
              (approval_count user.org_id experiment_id s))
  unfolding transition_experiment
  transition_permitted experiment_id status notes s h =
      elim (Option-cases (get user.org_id experiment_id s)) [
        | inl missing ↦ cc (rw missing at h)
        | inr (exp, found) ↦
            let count = approval_count user.org_id experiment_id s in
            let action = transition_action status in
            (
              exp,
              found,
              elim (Bool-cases (decision_allowed status exp count)) [
                | inl allowed ↦
                    (authorize_iff (action_request user session action exp count) t.decision_id
                        t.row.now).0
                      allowed
                | inr denied ↦ absurd (ground (arith, denied_raises action exp count s denied))
              ],
            )
      ]

  -- A high-risk experiment reaches RUNNING through the endpoint only for an administrator or an
  -- engineer, in a session that is not of high risk and on a trusted device, and when at least two
  -- different users have approved it.
  pub running_needs_two_approvals :
      (experiment_id : ℕ) (notes : Option String) (s : Store) (exp : Experiment)
      {after : Experiment}
      → get user.org_id experiment_id s ≡ some exp
      → is_high_risk exp ≡ true
      → (transition_experiment str_uuid user session t experiment_id running notes s).0 ≡ ok after
      → (2 ≤ approval_count user.org_id experiment_id s)
        × (is_operator user.role ≡ true)
        × (is_high_session session ≡ false)
        × (session.device_trusted ≡ true)
  unfolding is_approval_or_execution is_runtime_action
  running_needs_two_approvals experiment_id notes s exp found risky h =
      let (other, found', p) = transition_permitted experiment_id running notes s h in
      let same : other ≡ exp = cc (found', found) in
      (
        p.two_approvals (rw same risky) refl,
        p.operator_only (inl refl),
        p.calm_session,
        (p.safe_place refl).1,
      )

  -- A permitted request goes on with the same experiments.
  permitted_goes_on :
      (action : String) (exp : Experiment) (count : ℕ) (s : Store)
      → Permits (action_request user session action exp count)
      → (s' : Store) × (evaluate_and_record_policy str_uuid user session t action exp count s
          ≡ (ok tt, s'))
        × (s'.experiments ≡ s.experiments)
  unfolding evaluate_and_record_policy
  permitted_goes_on action exp count s p =
      let allowed =
        (authorize_iff (action_request user session action exp count) t.decision_id t.row.now).1
          p in
      (
        (evaluate_and_record_policy str_uuid user session t action exp count s).1,
        rw allowed,
        rw allowed,
      )

  -- The owner of a simulated experiment may approve it through the transition endpoint, where the
  -- policy permits the request: only `create_approval` refuses the owner.
  pub owner_may_move_to_approved :
      (experiment_id : ℕ) (notes : Option String) (s : Store) (exp : Experiment)
      → get user.org_id experiment_id s ≡ some exp
      → exp.owner_id ≡ some user.id
      → exp.status ≡ simulating
      → Permits (
          action_request user session
            (transition_action approved)
            exp
            (approval_count user.org_id experiment_id s))
      → (after : Experiment) × ((transition_experiment str_uuid user session t experiment_id
            approved notes s).0
          ≡ ok after)
        × (after.status ≡ approved)
        × (after.approved_by_id ≡ exp.owner_id)
  unfolding transition_experiment move_to valid_experiment_transitions
  owner_may_move_to_approved experiment_id notes s exp found own simulated p =
      let count = approval_count user.org_id experiment_id s in
      let (s', gone_on, same) = permitted_goes_on (transition_action approved) exp count s p in
      let moved = move_to approved t.row.now (some user.id) exp in
      let found' : get user.org_id experiment_id s' ≡ some exp =
        get_same user.org_id experiment_id s' s same ∙ found in
      let done =
        transition_ok str_uuid t.row user.org_id experiment_id approved notes (some user.id) s' exp
          found' (rw simulated) in
      (moved, rw (found, gone_on) (rw done), refl, sym own)
