-- ===== src/Audit/Store.antt =====
-- The rows of the audit tables, the calls that other services make, and what the service takes
-- from the standard library (backend/app/domains/audit_chain/models.py, schemas.py, service.py).
use cau_sium.Prelude.{ℕ, String, Bool, Option, List}
use cau_sium.Audit.Values.{Payload}

-- `str(UUID)`, `datetime.isoformat`, `json.dumps` with sorted keys, `hashlib.sha256` and
-- `hmac.new` in hexadecimal, and the configured secret.
pub record Runtime : Type 0 where
  pub str_uuid : ℕ → String
  pub isoformat : ℕ → String
  pub dumps : Payload → String
  pub sha256_hex : String → String
  pub hmac_sha256_hex : String → String → String
  pub secret_key : String

-- What one insertion takes from outside: `datetime.now(timezone.utc)` and `uuid4()`.
pub record Stamp : Type 0 where
  pub now : ℕ
  pub id : ℕ

pub record AuditEvent : Type 0 where
  pub id : ℕ
  pub org_id : ℕ
  pub actor_user_id : Option ℕ
  pub event_type : String
  pub entity_type : String
  pub entity_id : String
  pub payload : Payload
  pub prev_hash : String
  pub event_hash : String
  pub created_at : ℕ

-- The keyword arguments of `append_event`.
pub record AuditCall : Type 0 where
  pub org_id : ℕ
  pub actor_user_id : Option ℕ
  pub event_type : String
  pub entity_type : String
  pub entity_id : String
  pub payload : Payload

pub record Checkpoint : Type 0 where
  pub id : ℕ
  pub org_id : ℕ
  pub generated_by_user_id : Option ℕ
  pub latest_event_hash : String
  pub checked_events : ℕ
  pub snapshot_payload : Payload
  pub snapshot_signature : String
  pub created_at : ℕ

pub data Severity : Type 0 where
  info warning critical : Severity

-- A call of `NotificationsService.create_realtime_alert`, in the category ACTIVITY.
pub record AlertRequest : Type 0 where
  pub org_id : ℕ
  pub severity : Severity
  pub event_type : String
  pub title : String
  pub body : String
  pub source_id : String
  pub entity_type : String
  pub entity_id : String
  pub actor_user_id : Option String

pub record AuditStore : Type 0 where
  pub events : List AuditEvent
  pub checkpoints : List Checkpoint
  pub alerts : List AlertRequest

-- `AuditVerificationOut`
pub record Verification : Type 0 where
  pub is_valid : Bool
  pub checked_events : ℕ
  pub broken_event_id : Option ℕ
  pub expected_prev_hash : Option String
  pub found_prev_hash : Option String

-- `AuditCheckpointVerificationOut`
pub record CheckpointVerification : Type 0 where
  pub checkpoint_id : ℕ
  pub is_signature_valid : Bool
  pub is_chain_valid : Bool
  pub checked_events : ℕ
  pub latest_event_hash : String
  pub checkpoint_created_at : ℕ
