-- ===== src/Invites/Models.antt =====
-- The rows and requests of backend/app/domains/invites (models.py, schemas.py), and what the
-- service reads of users and organizations (backend/app/domains/auth/models.py).
use cau_sium.Prelude.{ℕ, String, Bool, Option, List}
use cau_sium.Audit.{AuditCall}
use cau_sium.Policy.{UserRole}

pub data InviteStatus : Type 0 where
  pending accepted expired revoked : InviteStatus

pub record WorkspaceInvite : Type 0 where
  pub id : ℕ
  pub org_id : ℕ
  pub invited_email : String
  pub invited_by_user_id : ℕ
  pub role : UserRole
  pub token : String
  pub expires_at : ℕ
  pub accepted_at : Option ℕ
  pub status : InviteStatus
  pub created_at : ℕ

pub record Organization : Type 0 where
  pub id : ℕ
  pub member_quota : ℕ

pub record User : Type 0 where
  pub id : ℕ
  pub org_id : Option ℕ
  pub email : String
  pub full_name : String
  pub hashed_password : String
  pub role : UserRole
  pub is_active : Bool
  pub terms_accepted_at : Option ℕ
  pub terms_version : Option String

pub record InviteCreate : Type 0 where
  pub email : String
  pub role : UserRole
  pub expires_in_days : ℕ

pub record InviteAccept : Type 0 where
  pub full_name : String
  pub password : String
  pub terms_accepted : Bool

-- An argument of `send_email`.
pub record Mail : Type 0 where
  pub to_email : String
  pub subject : String
  pub text_body : String

-- The tables, the calls of the audit chain and the mails, in their order.
pub record InviteStore : Type 0 where
  pub organizations : List Organization
  pub users : List User
  pub invites : List WorkspaceInvite
  pub audit : List AuditCall
  pub mails : List Mail

-- What the service calls of other code: `str(UUID)`, `isoformat()`, the settings' frontend address,
-- `hash_password`, and the database's `lower(email) LIKE '%q%'`.
pub record Context : Type 0 where
  pub str_uuid : ℕ → String
  pub isoformat : ℕ → String
  pub frontend_url : String
  pub hash_password : String → String
  pub lower_contains : String → List ℕ → Bool
