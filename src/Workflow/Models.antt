-- ===== src/Workflow/Models.antt =====
-- The rows and requests of backend/app/domains/workflow (models.py, schemas.py), and what the
-- service reads and writes of an opportunity (backend/app/domains/decision_engine/models.py).
use cau_sium.Prelude.{ℕ, String, Bool, Option, List}
use cau_sium.Prelude.Floats.{Float}
use cau_sium.Audit.{AuditCall}

pub data InitiativeStatus : Type 0 where
  backlog planned in_progress review done cancelled : InitiativeStatus

pub data OpportunityStatus : Type 0 where
  opp_open opp_in_progress opp_resolved opp_dismissed opp_validated : OpportunityStatus

pub record Opportunity : Type 0 where
  pub id : ℕ
  pub org_id : ℕ
  pub status : OpportunityStatus

-- Dates are day numbers.
pub record Initiative : Type 0 where
  pub id : ℕ
  pub org_id : ℕ
  pub opportunity_id : Option ℕ
  pub owner_id : Option ℕ
  pub title : String
  pub description : Option String
  pub status : InitiativeStatus
  pub sla_date : Option ℕ
  pub completed_at : Option ℕ
  pub external_ref : Option String
  pub external_url : Option String
  pub realized_savings_usd : Option Float
  pub created_at : ℕ
  pub updated_at : ℕ

pub record InitiativeComment : Type 0 where
  pub id : ℕ
  pub initiative_id : ℕ
  pub user_id : ℕ
  pub body : String
  pub created_at : ℕ

pub record InitiativeCreate : Type 0 where
  pub title : String
  pub description : Option String
  pub opportunity_id : Option ℕ
  pub owner_id : Option ℕ
  pub sla_date : Option ℕ
  pub external_ref : Option String
  pub external_url : Option String

pub record InitiativeUpdate : Type 0 where
  pub title : Option String
  pub description : Option String
  pub owner_id : Option ℕ
  pub sla_date : Option ℕ
  pub external_ref : Option String
  pub external_url : Option String
  pub realized_savings_usd : Option Float

-- The tables, and the calls of the audit chain in their order.
pub record WorkflowStore : Type 0 where
  pub initiatives : List Initiative
  pub comments : List InitiativeComment
  pub opportunities : List Opportunity
  pub audit : List AuditCall

-- `InitiativeOut`: the initiative's own fields, and the one that `from_model` computes.
pub record InitiativeOut : Type 0 where
  pub initiative : Initiative
  pub is_overdue : Bool

pub record InitiativeBoard : Type 0 where
  pub backlog_cards : List InitiativeOut
  pub planned_cards : List InitiativeOut
  pub in_progress_cards : List InitiativeOut
  pub review_cards : List InitiativeOut
  pub done_cards : List InitiativeOut
  pub cancelled_cards : List InitiativeOut
