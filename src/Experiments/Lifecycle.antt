-- ===== src/Experiments/Lifecycle.antt =====
-- What the timestamps of an experiment say, kept by every operation on experiments.
use cau_sium.Prelude.{
  ℕ, String, ◌≡◌, ◌⊎◌, true, Option, none, some, is_some, List, [], ◌∷◌, arith, All, ◌==◌,
  All-append, All-update_rows, All-find_row, Option-cases, Bool-cases, inl, inr,
}
use cau_sium.Prelude.Actions.{in_transaction, in_transaction_keeps}
use cau_sium.Audit.{Stamp}
use cau_sium.Experiments.{
  Store, Experiment, ExperimentStatus, ExperimentCreate, ExperimentUpdate, approved, running,
  measuring, concluded, cancelled, valid_experiment_transitions, status_in, get, move_to,
  new_experiment, updated, create, update, transition, write_experiment, is_experiment, RunCreate,
  RunUpdate, create_approval, create_run, update_run,
}

-- An experiment that runs, is measured or is concluded has been started; one that is concluded or
-- cancelled has an end.
pub record IsConsistent (e : Experiment) : Type 0 where
  pub started :
      (e.status ≡ running) ⊎ ((e.status ≡ measuring) ⊎ (e.status ≡ concluded))
      → is_some e.started_at ≡ true
  pub ended : (e.status ≡ concluded) ⊎ (e.status ≡ cancelled) → is_some e.concluded_at ≡ true

new_experiment-IsConsistent :
    (stamp : Stamp) (org_id owner_id : ℕ) (req : ExperimentCreate)
    → IsConsistent (new_experiment stamp org_id owner_id req)
unfolding new_experiment
new_experiment-IsConsistent stamp org_id owner_id req = ground arith

updated-IsConsistent :
    (req : ExperimentUpdate) (exp : Experiment) → IsConsistent exp → IsConsistent (updated req exp)
unfolding updated
updated-IsConsistent req exp h = record { started = h.started; ended = h.ended }

move_to-IsConsistent :
    (status : ExperimentStatus) (now : ℕ) (approver : Option ℕ) (exp : Experiment)
    → status_in status (valid_experiment_transitions exp.status) ≡ true
    → IsConsistent exp
    → IsConsistent (move_to status now approver exp)
unfolding move_to valid_experiment_transitions
move_to-IsConsistent approved now none exp edge h = ground arith
move_to-IsConsistent approved now (some user) exp edge h = ground arith
move_to-IsConsistent running now approver exp edge h = ground arith
move_to-IsConsistent _ now approver exp edge h = ground arith

-- The operations of the service, with their arguments.
pub data Op : Type 0 where
  create_op : Stamp → ℕ → ℕ → ExperimentCreate → Op
  update_op : ℕ → ℕ → ExperimentUpdate → Op
  transition_op : Stamp → ℕ → ℕ → ExperimentStatus → Option String → Option ℕ → Op
  approve_op : Stamp → ℕ → ℕ → ℕ → Option String → Op
  create_run_op : Stamp → ℕ → ℕ → RunCreate → Option ℕ → Op
  update_run_op : Stamp → ℕ → ℕ → ℕ → RunUpdate → Option ℕ → Op

abbrev pub AllConsistent : Store → Type 0
AllConsistent s = All IsConsistent s.experiments

module _ (str_uuid : ℕ → String) where
  -- The store that a request with one operation commits.
  pub step : Op → Store → Store
  step (create_op stamp org owner req) s =
      (in_transaction (create str_uuid stamp org owner req) s).1
  step (update_op org exp req) s = (in_transaction (update str_uuid org exp req) s).1
  step (transition_op stamp org exp status notes user) s =
      (in_transaction (transition str_uuid stamp org exp status notes user) s).1
  step (approve_op stamp org exp user note) s =
      (in_transaction (create_approval str_uuid stamp org exp user note) s).1
  step (create_run_op stamp org exp req user) s =
      (in_transaction (create_run str_uuid stamp org exp req user) s).1
  step (update_run_op stamp org exp run req user) s =
      (in_transaction (update_run str_uuid stamp org exp run req user) s).1

  pub run : List Op → Store → Store
  run [] s = s
  run (op ∷ ops) s = run ops (step op s)

  write-AllConsistent :
      (exp : Experiment) (s : Store)
      → IsConsistent exp
      → AllConsistent s
      → AllConsistent (write_experiment exp s)
  write-AllConsistent exp s h all =
      All-update_rows IsConsistent (λ e. e.id == exp.id) (λ _. exp) s.experiments (λ _ _. h) all

  create-AllConsistent :
      (stamp : Stamp) (org owner : ℕ) (req : ExperimentCreate) (s : Store)
      → AllConsistent s
      → AllConsistent (create str_uuid stamp org owner req s).1
  unfolding create
  create-AllConsistent stamp org owner req s h =
      All-append IsConsistent s.experiments (new_experiment stamp org owner req ∷ []) h
        (new_experiment-IsConsistent stamp org owner req, tt)

  get-IsConsistent :
      (org id : ℕ) (s : Store) (exp : Experiment)
      → AllConsistent s
      → get org id s ≡ some exp
      → IsConsistent exp
  unfolding get
  get-IsConsistent org id s exp h found =
      All-find_row IsConsistent (is_experiment org id) s.experiments exp h found

  update-AllConsistent :
      (org id : ℕ) (req : ExperimentUpdate) (s : Store)
      → AllConsistent s
      → AllConsistent (update str_uuid org id req s).1
  unfolding update
  update-AllConsistent org id req s h = elim (Option-cases (get org id s)) [
    | inl missing ↦ rw (missing, update) h
    | inr (exp, found) ↦
        rw (found, update)
          (write-AllConsistent (updated req exp) s
            (updated-IsConsistent req exp (get-IsConsistent org id s exp h found)) h)
  ]

  transition-AllConsistent :
      (stamp : Stamp) (org id : ℕ) (status : ExperimentStatus) (notes : Option String)
      (user : Option ℕ) (s : Store)
      → AllConsistent s
      → AllConsistent (transition str_uuid stamp org id status notes user s).1
  unfolding transition
  transition-AllConsistent stamp org id status notes user s h = elim (Option-cases (get org id s)) [
    | inl missing ↦ rw missing h
    | inr (exp, found) ↦
        elim (Bool-cases (status_in status (valid_experiment_transitions exp.status))) [
          | inl allowed ↦
              rw (found, allowed)
                (write-AllConsistent (move_to status stamp.now user exp) s
                  (move_to-IsConsistent status stamp.now user exp allowed
                    (get-IsConsistent org id s exp h found))
                  h)
          | inr refused ↦ rw (found, refused) h
        ]
  ]

  -- The other operations write no experiment.
  experiments-create_approval :
      (stamp : Stamp) (org id user : ℕ) (note : Option String) (s : Store)
      → (create_approval str_uuid stamp org id user note s).1.experiments ≡ s.experiments
  unfolding create_approval
  experiments-create_approval stamp org id user said s = ground arith

  experiments-create_run :
      (stamp : Stamp) (org id : ℕ) (req : RunCreate) (user : Option ℕ) (s : Store)
      → (create_run str_uuid stamp org id req user s).1.experiments ≡ s.experiments
  unfolding create_run
  experiments-create_run stamp org id req user s = ground arith

  experiments-update_run :
      (stamp : Stamp) (org id run_id : ℕ) (req : RunUpdate) (user : Option ℕ) (s : Store)
      → (update_run str_uuid stamp org id run_id req user s).1.experiments ≡ s.experiments
  unfolding update_run
  experiments-update_run stamp org id run_id req user s = ground arith

  step-AllConsistent : (op : Op) (s : Store) → AllConsistent s → AllConsistent (step op s)
  unfolding step
  step-AllConsistent (create_op stamp org owner req) s h =
      in_transaction_keeps AllConsistent (create str_uuid stamp org owner req) s h
        (create-AllConsistent stamp org owner req s h)
  step-AllConsistent (update_op org id req) s h =
      in_transaction_keeps AllConsistent (update str_uuid org id req) s h
        (update-AllConsistent org id req s h)
  step-AllConsistent (transition_op stamp org id status notes user) s h =
      in_transaction_keeps AllConsistent (transition str_uuid stamp org id status notes user) s h
        (transition-AllConsistent stamp org id status notes user s h)
  step-AllConsistent (approve_op stamp org id user note) s h =
      in_transaction_keeps AllConsistent (create_approval str_uuid stamp org id user note) s h
        (rw (experiments-create_approval stamp org id user note s) h)
  step-AllConsistent (create_run_op stamp org id req user) s h =
      in_transaction_keeps AllConsistent (create_run str_uuid stamp org id req user) s h
        (rw (experiments-create_run stamp org id req user s) h)
  step-AllConsistent (update_run_op stamp org id run_id req user) s h =
      in_transaction_keeps AllConsistent (update_run str_uuid stamp org id run_id req user) s h
        (rw (experiments-update_run stamp org id run_id req user s) h)

  -- From a store of consistent experiments, whatever operations are requested in whatever order,
  -- failing ones included, every experiment stays consistent: what runs, is measured or is
  -- concluded has a start, and what is concluded or cancelled has an end.
  pub run-AllConsistent : (ops : List Op) (s : Store) → AllConsistent s → AllConsistent (run ops s)
  unfolding run
  run-AllConsistent [] s h = h
  run-AllConsistent (op ∷ ops) s h = run-AllConsistent ops (step op s) (step-AllConsistent op s h)
