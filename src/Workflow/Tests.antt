-- ===== src/Workflow/Tests.antt =====
-- Initiatives at work, and the theorems about them at concrete stores.
use cau_sium.Prelude.{
  ℕ, String, ◌≡◌, ◌⊎◌, arith, refl, none, some, List, [], ◌∷◌, ok, err, find_row, value_error,
}
use cau_sium.Audit.{Stamp}
use cau_sium.Workflow.{
  WorkflowStore, Initiative, InitiativeCreate, InitiativeUpdate, Opportunity, backlog, planned,
  in_progress, review, done, opp_open, opp_in_progress, opp_resolved, new_initiative, moved,
  get_initiative, transition_status, create_initiative, is_opportunity, resolve_if_done,
  change_opportunities, write_initiative, audit_by, transitioned_call,
}
use cau_sium.Workflow.Endpoints.{CurrentUser}
use cau_sium.Workflow.Changes.{Op, create_op, transition_op, update_op, comment_op, run}
use cau_sium.Workflow.Diagram.{◌⟶◌, transition_status_follows_diagram}
use cau_sium.Workflow.Lifecycle.{Advances, run-Advances}
use cau_sium.Workflow.Resolved.{AllResolved, run-AllResolved, create_initiative_crosses_workspaces}

abbrev names : ℕ → String
names n = "id"

abbrev at : ℕ → ℕ → Stamp
at now id = record { now = now; id = id }

abbrev user : CurrentUser
user = record { id = 3; org_id = 1 }

abbrev request : InitiativeCreate
request = record {
  title = "smaller nodes";
  description = none;
  opportunity_id = some 50;
  owner_id = none;
  sla_date = some 100;
  external_ref = none;
  external_url = none;
}

abbrev rename : InitiativeUpdate
rename = record {
  title = some "fewer nodes";
  description = none;
  owner_id = none;
  sla_date = none;
  external_ref = none;
  external_url = none;
  realized_savings_usd = none;
}

abbrev chance : Opportunity
chance = record { id = 50; org_id = 2; status = opp_open }

abbrev start : WorkflowStore
start = record { initiatives = []; comments = []; opportunities = chance ∷ []; audit = [] }

abbrev seven : Initiative
seven = new_initiative (at 5 7) 1 request

abbrev in_review : WorkflowStore
in_review = record start { initiatives = record seven { status = review } ∷ [] }

abbrev to_done : List Op
to_done =
    create_op user (at 5 7) request
    ∷ transition_op user 6 7 planned
    ∷ update_op user 7 7 rename
    ∷ transition_op user 8 7 done
    ∷ transition_op user 9 7 in_progress
    ∷ comment_op user (at 10 70) 7 "on its way"
    ∷ transition_op user 11 7 review
    ∷ transition_op user 12 7 done
    ∷ transition_op user 13 7 backlog
    ∷ []

-- The step from PLANNED to DONE and the one from DONE are refused.
done_at_last :
    (run names to_done start).initiatives
    ≡ record seven { title = "fewer nodes"; status = done; completed_at = some 12; updated_at = 12 }
      ∷ []
unfolding run
done_at_last = refl

chance_taken :
    (run names to_done start).opportunities ≡ record chance { status = opp_resolved } ∷ []
unfolding run
chance_taken = refl

transition_status_follows_diagram_example :
    let i = record seven { status = review } in
    let next = moved done 9 i in
    let result = transition_status names 9 1 7 done (some 3) in_review in
    ((review ⟶ done)
      × (next.status ≡ done)
      × (result ≡ (
        ok next,
        audit_by
            (some 3)
            (transitioned_call names 1 7 review done)
            (change_opportunities (resolve_if_done done i) (write_initiative 1 7 next in_review)),
      )))
    ⊎ (¬ (review ⟶ done) × (result ≡ (err (value_error "Cannot transition"), in_review)))
unfolding get_initiative new_initiative
transition_status_follows_diagram_example =
    transition_status_follows_diagram names 9 1 7 done (some 3) in_review
      (record seven { status = review }) refl

run-Advances_example : Advances in_review.initiatives (run names to_done in_review).initiatives
run-Advances_example = run-Advances names to_done in_review

run-AllResolved_example :
    AllResolved
      (run names to_done in_review).initiatives
      (run names to_done in_review).opportunities
run-AllResolved_example = run-AllResolved names to_done in_review ((λ e. absurd (cc e)), tt)

create_initiative_crosses_workspaces_example :
    find_row
      (is_opportunity 50)
      (create_initiative names (at 5 7) 1 request (some 3) start).1.opportunities
    ≡ some (record chance { status = opp_in_progress })
create_initiative_crosses_workspaces_example =
    create_initiative_crosses_workspaces names (at 5 7) 1 50 request (some 3) start chance refl refl
      (omega arith) refl
