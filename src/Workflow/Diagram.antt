-- ===== src/Workflow/Diagram.antt =====
-- The stages of an initiative as a diagram, and what `transition_status` does along its edges.
use cau_sium.Prelude.{
  ℕ, String, ◌≡◌, ◌⊎◌, inl, inr, refl, true, Option, some, arith, ok, err, value_error, Bool-cases,
}
use cau_sium.Workflow.{
  WorkflowStore, Initiative, InitiativeStatus, backlog, planned, in_progress, review, done,
  cancelled, valid_transitions, status_in, get_initiative, moved, transition_status,
  write_initiative, resolve_if_done, change_opportunities, audit_by, transitioned_call,
}

infix 40 ◌⟶◌
pub data ◌⟶◌ : InitiativeStatus → InitiativeStatus → Type 0 where
  plan : backlog ⟶ planned
  start : planned ⟶ in_progress
  submit : in_progress ⟶ review
  complete : review ⟶ done
  unplan : planned ⟶ backlog
  stop : in_progress ⟶ planned
  reject : review ⟶ in_progress
  drop_backlog : backlog ⟶ cancelled
  drop_planned : planned ⟶ cancelled
  drop_in_progress : in_progress ⟶ cancelled
  reopen : cancelled ⟶ backlog

ruleset edges = (
  plan, start, submit, complete, unplan, stop, reject, drop_backlog, drop_planned, drop_in_progress,
  reopen,
)

edge_of_valid : (s t : InitiativeStatus) → status_in t (valid_transitions s) ≡ true → s ⟶ t
unfolding valid_transitions
edge_of_valid s t h = grind (arith, edges)

valid_of_edge : {s t : InitiativeStatus} → s ⟶ t → status_in t (valid_transitions s) ≡ true
unfolding valid_transitions
valid_of_edge plan = refl
valid_of_edge start = refl
valid_of_edge submit = refl
valid_of_edge complete = refl
valid_of_edge unplan = refl
valid_of_edge stop = refl
valid_of_edge reject = refl
valid_of_edge drop_backlog = refl
valid_of_edge drop_planned = refl
valid_of_edge drop_in_progress = refl
valid_of_edge reopen = refl

status-moved :
    (status : InitiativeStatus) (now : ℕ) (i : Initiative) → (moved status now i).status ≡ status
unfolding moved
status-moved done now i = refl
status-moved _ now i = refl

module _ (str_uuid : ℕ → String) (now org_id id : ℕ) (status : InitiativeStatus) (actor : Option ℕ)
    (s : WorkflowStore) where
  -- Of an initiative that is found, `transition_status` makes the requested move, resolves the
  -- opportunity if the initiative is done, and records one audit event for a known actor, if an edge
  -- of the diagram leads from its status to the requested one; otherwise it raises and changes
  -- nothing.
  pub transition_status_follows_diagram :
      (i : Initiative)
      → get_initiative org_id id s ≡ some i
      → let next = moved status now i in
        let result = transition_status str_uuid now org_id id status actor s in
        ((i.status ⟶ status)
          × (next.status ≡ status)
          × (result ≡ (
            ok next,
            audit_by actor (transitioned_call str_uuid org_id id i.status status) (
                change_opportunities
                  (resolve_if_done status i)
                  (write_initiative org_id id next s)),
          )))
        ⊎ (¬ (i.status ⟶ status) × (result ≡ (err (value_error "Cannot transition"), s)))
  unfolding transition_status
  transition_status_follows_diagram i found =
      elim (Bool-cases (status_in status (valid_transitions i.status))) [
        | inl allowed ↦ inl (
          edge_of_valid i.status status allowed,
          status-moved status now i,
          rw (found, allowed) refl,
        )
        | inr refused ↦ inr (
          (λ edge. let allowed = valid_of_edge edge in cc (allowed, refused)),
          rw (found, refused) refl,
        )
      ]
