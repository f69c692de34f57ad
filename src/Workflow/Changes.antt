-- ===== src/Workflow/Changes.antt =====
-- What one request can do to the table of initiatives.
use cau_sium.Prelude.{
  ℕ, String, ◌≡◌, inl, inr, true, some, List, [], ◌∷◌, ◌++◌, Bool-cases, Option-cases, find_row,
  update_first,
}
use cau_sium.Prelude.Actions.{in_transaction}
use cau_sium.Audit.{Stamp}
use cau_sium.Workflow.{
  WorkflowStore, Initiative, Opportunity, linked, start_opportunity, InitiativeStatus,
  InitiativeCreate, InitiativeUpdate, new_initiative, updated, moved, valid_transitions, status_in,
  is_initiative, get_initiative, create_initiative, update_initiative, transition_status,
  add_comment, resolve_if_done,
}
use cau_sium.Workflow.Endpoints.{
  CurrentUser, create_endpoint, transition_endpoint, update_endpoint, comment_endpoint,
}

-- The tables of initiatives and of opportunities before and after.
pub data Changes
    : List Initiative → List Opportunity → List Initiative → List Opportunity → Type 0 where
  unchanged : {is : List Initiative} {os : List Opportunity} → Changes is os is os
  added :
      {is : List Initiative} {os : List Opportunity} (stamp : Stamp) (org_id : ℕ)
      (req : InitiativeCreate)
      → Changes is os
          (is ++ new_initiative stamp org_id req ∷ [])
          (linked req.opportunity_id start_opportunity os)
  edited :
      {is : List Initiative} {os : List Opportunity} (org_id id : ℕ) (i : Initiative)
      (req : InitiativeUpdate) (now : ℕ)
      → find_row (is_initiative org_id id) is ≡ some i
      → Changes is os (update_first (is_initiative org_id id) (λ _. updated req now i) is) os
  advanced :
      {is : List Initiative} {os : List Opportunity} (org_id id : ℕ) (i : Initiative)
      (status : InitiativeStatus) (now : ℕ)
      → find_row (is_initiative org_id id) is ≡ some i
      → status_in status (valid_transitions i.status) ≡ true
      → Changes is os
          (update_first (is_initiative org_id id) (λ _. moved status now i) is)
          (resolve_if_done status i os)

abbrev ChangesStore : WorkflowStore → WorkflowStore → Type 0
ChangesStore s t = Changes s.initiatives s.opportunities t.initiatives t.opportunities

-- The requests that change state, with their callers and arguments.
pub data Op : Type 0 where
  create_op : CurrentUser → Stamp → InitiativeCreate → Op
  transition_op : CurrentUser → ℕ → ℕ → InitiativeStatus → Op
  update_op : CurrentUser → ℕ → ℕ → InitiativeUpdate → Op
  comment_op : CurrentUser → Stamp → ℕ → String → Op

module _ (str_uuid : ℕ → String) where
  unfoldable pub step : Op → WorkflowStore → WorkflowStore
  unfolding create_endpoint transition_endpoint update_endpoint comment_endpoint
  step (create_op user stamp req) s = (create_endpoint str_uuid user stamp req s).1
  step (transition_op user now id status) s = (transition_endpoint str_uuid user now id status s).1
  step (update_op user now id req) s = (update_endpoint str_uuid user now id req s).1
  step (comment_op user stamp id body) s = (comment_endpoint str_uuid user stamp id body s).1

  unfoldable pub run : List Op → WorkflowStore → WorkflowStore
  unfolding step
  run [] s = s
  run (o ∷ os) s = run os (step o s)

  transition-Changes :
      (user : CurrentUser) (now id : ℕ) (status : InitiativeStatus) (s : WorkflowStore)
      → ChangesStore s (transition_endpoint str_uuid user now id status s).1
  unfolding transition_endpoint transition_status get_initiative in_transaction
  transition-Changes user now id status s =
      elim (Option-cases (find_row (is_initiative user.org_id id) s.initiatives)) [
        | inl missing ↦ rw missing unchanged
        | inr (i, found) ↦ elim (Bool-cases (status_in status (valid_transitions i.status))) [
          | inl allowed ↦ rw (found, allowed) (advanced user.org_id id i status now found allowed)
          | inr refused ↦ rw (found, refused) unchanged
        ]
      ]

  update-Changes :
      (user : CurrentUser) (now id : ℕ) (req : InitiativeUpdate) (s : WorkflowStore)
      → ChangesStore s (update_endpoint str_uuid user now id req s).1
  unfolding update_endpoint update_initiative get_initiative in_transaction
  update-Changes user now id req s =
      elim (Option-cases (find_row (is_initiative user.org_id id) s.initiatives)) [
        | inl missing ↦ rw (missing, update_initiative) unchanged
        | inr (i, found) ↦ rw (found, update_initiative) (edited user.org_id id i req now found)
      ]

  comment-Changes :
      (user : CurrentUser) (stamp : Stamp) (id : ℕ) (body : String) (s : WorkflowStore)
      → ChangesStore s (comment_endpoint str_uuid user stamp id body s).1
  unfolding comment_endpoint add_comment get_initiative in_transaction
  comment-Changes user stamp id body s =
      elim (Option-cases (find_row (is_initiative user.org_id id) s.initiatives)) [
        | inl missing ↦ rw missing unchanged
        | inr (i, found) ↦ rw found unchanged
      ]

  pub step-Changes : (o : Op) (s : WorkflowStore) → ChangesStore s (step o s)
  unfolding step create_endpoint create_initiative in_transaction
  step-Changes (create_op user stamp req) s = added stamp user.org_id req
  step-Changes (transition_op user now id status) s = transition-Changes user now id status s
  step-Changes (update_op user now id req) s = update-Changes user now id req s
  step-Changes (comment_op user stamp id body) s = comment-Changes user stamp id body s

  -- What every change keeps, sequences of requests keep.
  pub run_keeps {κ} :
      (P : List Initiative → List Opportunity → Type κ)
      → ((s t : WorkflowStore)
          → ChangesStore s t
          → P s.initiatives s.opportunities
          → P t.initiatives t.opportunities)
      → (os : List Op) (s : WorkflowStore) → P s.initiatives s.opportunities
      → P (run os s).initiatives (run os s).opportunities
  unfolding run
  run_keeps P keep [] s h = h
  run_keeps P keep (o ∷ os) s h =
      run_keeps P keep os (step o s) (keep s (step o s) (step-Changes o s) h)
