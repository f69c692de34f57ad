-- ===== src/Experiments/Diagram.antt =====
-- The life of an experiment as a diagram, and what `transition` does along its edges.
use cau_sium.Prelude.{
  ℕ, String, ◌≡◌, ◌⊎◌, inl, inr, refl, true, false, Option, none, some, arith, ok, err, value_error,
  Bool-cases,
}
use cau_sium.Audit.{Stamp}
use cau_sium.Experiments.{
  Store, Experiment, ExperimentStatus, draft, hypothesis, simulating, approved, running, measuring,
  concluded, cancelled, valid_experiment_transitions, status_in, get, move_to, transition,
  write_experiment, append_audit, transitioned_call,
}

infix 40 ◌⟶◌
pub data ◌⟶◌ : ExperimentStatus → ExperimentStatus → Type 0 where
  state_hypothesis : draft ⟶ hypothesis
  simulate : hypothesis ⟶ simulating
  approve : simulating ⟶ approved
  redraft : simulating ⟶ draft
  launch : approved ⟶ running
  measure : running ⟶ measuring
  rerun : measuring ⟶ running
  conclude : measuring ⟶ concluded
  cancel_draft : draft ⟶ cancelled
  cancel_hypothesis : hypothesis ⟶ cancelled
  cancel_simulating : simulating ⟶ cancelled
  cancel_approved : approved ⟶ cancelled
  cancel_running : running ⟶ cancelled

ruleset edges = (
  state_hypothesis, simulate, approve, redraft, launch, measure, rerun, conclude, cancel_draft,
  cancel_hypothesis, cancel_simulating, cancel_approved, cancel_running,
)

-- The table allows exactly the edges of the diagram.
pub edge_of_valid :
    (s t : ExperimentStatus) → status_in t (valid_experiment_transitions s) ≡ true → s ⟶ t
unfolding valid_experiment_transitions
edge_of_valid s t h = grind (arith, edges)

valid_of_edge :
    {s t : ExperimentStatus} → s ⟶ t → status_in t (valid_experiment_transitions s) ≡ true
unfolding valid_experiment_transitions
valid_of_edge state_hypothesis = refl
valid_of_edge simulate = refl
valid_of_edge approve = refl
valid_of_edge redraft = refl
valid_of_edge launch = refl
valid_of_edge measure = refl
valid_of_edge rerun = refl
valid_of_edge conclude = refl
valid_of_edge cancel_draft = refl
valid_of_edge cancel_hypothesis = refl
valid_of_edge cancel_simulating = refl
valid_of_edge cancel_approved = refl
valid_of_edge cancel_running = refl

status-move_to :
    (status : ExperimentStatus) (now : ℕ) (approver : Option ℕ) (exp : Experiment)
    → (move_to status now approver exp).status ≡ status
unfolding move_to
status-move_to approved now none exp = refl
status-move_to approved now (some user) exp = refl
status-move_to running now approver exp = refl
status-move_to _ now approver exp = refl

module _ (str_uuid : ℕ → String) (stamp : Stamp) (org_id experiment_id : ℕ)
    (status : ExperimentStatus) (notes : Option String) (approver : Option ℕ) (s : Store) where
  pub transition_ok :
      (exp : Experiment)
      → get org_id experiment_id s ≡ some exp
      → status_in status (valid_experiment_transitions exp.status) ≡ true
      → let moved = move_to status stamp.now approver exp in
        transition str_uuid stamp org_id experiment_id status notes approver s ≡ (
          ok moved,
          append_audit
              (transitioned_call str_uuid org_id approver notes moved)
              (write_experiment moved s),
        )
  unfolding transition
  transition_ok exp found allowed = rw (found, allowed)

  transition_refused :
      (exp : Experiment)
      → get org_id experiment_id s ≡ some exp
      → status_in status (valid_experiment_transitions exp.status) ≡ false
      → transition str_uuid stamp org_id experiment_id status notes approver s
        ≡ (err (value_error "Cannot transition"), s)
  unfolding transition
  transition_refused exp found refused = rw (found, refused)

  -- Of an experiment that is found, `transition` makes the requested move, with one audit event, if
  -- an edge of the diagram leads from its status to the requested one; otherwise it raises and
  -- changes nothing.
  pub transition_follows_diagram :
      (exp : Experiment)
      → get org_id experiment_id s ≡ some exp
      → let moved = move_to status stamp.now approver exp in
        let result = transition str_uuid stamp org_id experiment_id status notes approver s in
        ((exp.status ⟶ status)
          × (moved.status ≡ status)
          × (result ≡ (
            ok moved,
            append_audit
                (transitioned_call str_uuid org_id approver notes moved)
                (write_experiment moved s),
          )))
        ⊎ (¬ (exp.status ⟶ status) × (result ≡ (err (value_error "Cannot transition"), s)))
  transition_follows_diagram exp found =
      elim (Bool-cases (status_in status (valid_experiment_transitions exp.status))) [
        | inl allowed ↦ inl (
          edge_of_valid exp.status status allowed,
          status-move_to status stamp.now approver exp,
          transition_ok exp found allowed,
        )
        | inr refused ↦ inr (
          (λ edge. let allowed = valid_of_edge edge in cc (allowed, refused)),
          transition_refused exp found refused,
        )
      ]
