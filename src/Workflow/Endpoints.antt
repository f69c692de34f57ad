-- ===== src/Workflow/Endpoints.antt =====
-- The handlers that change state, of backend/app/domains/workflow/router.py: each runs in the
-- transaction of its request, and an exception of the service becomes an HTTP answer.
use cau_sium.Prelude.{ℕ, String, some, Result, ok, err, Failure, value_error, http, raised}
use cau_sium.Prelude.Actions.{Action, or_raise, in_transaction, ◌>>=◌}
use cau_sium.Audit.{Stamp}
use cau_sium.Workflow.{
  WorkflowStore, Initiative, InitiativeStatus, InitiativeCreate, InitiativeUpdate,
  InitiativeComment, create_initiative, update_initiative, transition_status, add_comment,
}

-- The caller, as `get_current_user` gives it.
pub record CurrentUser : Type 0 where
  pub id : ℕ
  pub org_id : ℕ

abbrev answer : ℕ → Failure → Failure
answer code (value_error message) = http code message
answer code (http status detail) = http status detail
answer code (raised name) = raised name

-- `except ValueError as e: raise HTTPException(status_code=code, detail=str(e))`
abbrev pub or_answer : {S A : Type 0} → ℕ → Result A × S → Result A × S
or_answer code (ok a, s) = (ok a, s)
or_answer code (err e, s) = (err (answer code e), s)

module _ (str_uuid : ℕ → String) (user : CurrentUser) where
  unfoldable pub create_endpoint : Stamp → InitiativeCreate → Action WorkflowStore Initiative
  unfolding create_initiative in_transaction
  create_endpoint stamp req =
      in_transaction (create_initiative str_uuid stamp user.org_id req (some user.id))

  unfoldable pub transition_endpoint : ℕ → ℕ → InitiativeStatus → Action WorkflowStore Initiative
  unfolding transition_status in_transaction
  transition_endpoint now initiative_id status = in_transaction (λ s.
      or_answer 400
        (transition_status str_uuid now user.org_id initiative_id status (some user.id) s))

  unfoldable pub update_endpoint : ℕ → ℕ → InitiativeUpdate → Action WorkflowStore Initiative
  unfolding update_initiative in_transaction
  update_endpoint now initiative_id req = in_transaction (do
    initiative ← update_initiative now user.org_id initiative_id req
    or_raise initiative (http 404 "Initiative not found"))

  unfoldable pub comment_endpoint : Stamp → ℕ → String → Action WorkflowStore InitiativeComment
  unfolding add_comment in_transaction
  comment_endpoint stamp initiative_id body =
      in_transaction
        (λ s. or_answer 404 (add_comment stamp user.org_id initiative_id user.id body s))
