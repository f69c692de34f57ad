-- ===== src/Accounts/Models.antt =====
-- The rows of backend/app/domains/auth (models.py, token_blacklist.py) as far as the accounts'
-- operations read or write them, and the body of a request for a change (schemas.py).
use cau_sium.Prelude.{ℕ, String, Bool, Option, List, Text}
use cau_sium.Policy.{UserRole}
use cau_sium.Audit.{AuditCall}
use cau_sium.BackupCodes.{BackupCodes}
use cau_sium.Invites.{Mail}
use cau_sium.Keyrings.{Keyrings}

pub data WorkspaceLifecycleState : Type 0 where
  active suspended archived : WorkspaceLifecycleState

pub record Organization : Type 0 where
  pub id : ℕ
  pub lifecycle_state : WorkspaceLifecycleState
  pub passwordless_only : Bool

pub record User : Type 0 where
  pub id : ℕ
  pub org_id : Option ℕ
  pub email : String
  pub full_name : String
  pub hashed_password : String
  pub role : UserRole
  pub is_active : Bool
  pub passkey_enabled : Bool
  pub totp_enabled : Bool
  pub totp_secret_encrypted : Option Text
  pub totp_verified_at : Option ℕ
  pub must_change_password : Bool
  pub password_changed_at : Option ℕ
  pub last_login : Option ℕ
  pub deleted_at : Option ℕ

pub record AuthChallenge : Type 0 where
  pub id : ℕ
  pub org_id : ℕ
  pub user_id : ℕ
  pub challenge : String
  pub purpose : String
  pub expires_at : ℕ
  pub consumed_at : Option ℕ

pub record PasskeyCredential : Type 0 where
  pub id : ℕ
  pub user_id : ℕ

-- Its primary key is `jti`.
pub record RevokedToken : Type 0 where
  pub jti : String
  pub user_id : ℕ
  pub revoked_at : ℕ
  pub expires_at : ℕ

pub record UserUpdate : Type 0 where
  pub full_name : Option String
  pub email : Option String
  pub role : Option UserRole

-- The tables, the calls of the audit chain and the mails, in their order.
pub record AuthStore : Type 0 where
  pub organizations : List Organization
  pub users : List User
  pub challenges : List AuthChallenge
  pub passkeys : List PasskeyCredential
  pub backup_codes : BackupCodes
  pub revoked_tokens : List RevokedToken
  pub keyrings : Keyrings
  pub audit : List AuditCall
  pub mails : List Mail

-- What the service calls of other code: `str(UUID)`, SHA-256 in hexadecimal, the password hash
-- with its salt and its verification, and the settings' secret and frontend address.
pub record Services : Type 0 where
  pub str_uuid : ℕ → String
  pub sha256_hexdigest : String → String
  pub hash_password : ℕ → String → String
  pub verify_password : String → String → Bool
  pub secret_key : String
  pub frontend_url : String
