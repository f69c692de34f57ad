-- ===== src/Audit.antt =====
-- The hash-linked audit chain: backend/app/domains/audit_chain/service.py.
mod Values
mod Store
mod Alerts
unfoldable pub use Values.*
unfoldable pub use Store.*
unfoldable pub use Alerts.*
pub mod Order
pub mod Links
pub mod Append
pub mod Race
pub mod Tamper
pub mod Checkpoints
mod Tests
use Prim.Native.String.{◌++◌ as str_append}
use cau_sium.Prelude.{
  ℕ, suc, ◌+◌, String, Bool, true, false, not, ◌||◌, ◌&&◌, Option, none, some, List, [], ◌∷◌, ◌++◌,
  length, select, find_row, last_row, ltb, leb, ◌==◌, str_eq, if◌then◌else◌, Result, ok, err,
  value_error,
}

abbrev pub genesis_hash : String
genesis_hash = "GENESIS"

-- `"|".join(parts)`
unfoldable pub join_bar : List String → String
join_bar [] = ""
join_bar (s ∷ []) = s
join_bar (s ∷ t ∷ ts) = str_append s (str_append "|" (join_bar (t ∷ ts)))

-- Rows in the order `created_at ASC, id ASC`; ids are compared byte by byte, that is as numbers.
abbrev pub before : AuditEvent → AuditEvent → Bool
before a b = ltb a.created_at b.created_at || (a.created_at == b.created_at && leb a.id b.id)

insert_event : AuditEvent → List AuditEvent → List AuditEvent
insert_event e [] = e ∷ []
insert_event e (x ∷ xs) = if before e x then e ∷ x ∷ xs else x ∷ insert_event e xs

order_by_created : List AuditEvent → List AuditEvent
unfolding insert_event
order_by_created [] = []
order_by_created (e ∷ es) = insert_event e (order_by_created es)

abbrev of_org : ℕ → AuditEvent → Bool
of_org org_id e = e.org_id == org_id

-- The events of an organisation in ascending order, as `verify_chain` reads them.
unfoldable pub chain_of : ℕ → AuditStore → List AuditEvent
unfolding order_by_created
chain_of org_id db = order_by_created (select (of_org org_id) db.events)

-- `_latest_for_org`: the first row of the descending order, which is the last of the ascending
-- one, as ids are unique.
unfoldable pub latest_for_org : ℕ → AuditStore → Option AuditEvent
unfolding chain_of
latest_for_org org_id db = last_row (chain_of org_id db)

abbrev pub latest_hash : Option AuditEvent → String
latest_hash none = genesis_hash
latest_hash (some e) = e.event_hash

abbrev pub insert_checkpoint : Checkpoint → AuditStore → AuditStore
insert_checkpoint c db = record db { checkpoints = db.checkpoints ++ c ∷ [] }

abbrev is_checkpoint : ℕ → ℕ → Checkpoint → Bool
is_checkpoint org_id checkpoint_id c = c.org_id == org_id && c.id == checkpoint_id

unfoldable pub get_checkpoint : AuditStore → ℕ → ℕ → Option Checkpoint
get_checkpoint db org_id checkpoint_id =
    find_row (is_checkpoint org_id checkpoint_id) db.checkpoints

module _ (R : Runtime) where
  abbrev normalize : Payload → Payload
  normalize p = normalize_payload R.str_uuid R.isoformat p

  unfoldable pub canonical_payload : Payload → String
  canonical_payload p = R.dumps (normalize p)

  abbrev actor_value : Option ℕ → String
  actor_value none = "system"
  actor_value (some user) = R.str_uuid user

  -- The text that is hashed.
  unfoldable pub hash_base : String → ℕ → Option ℕ → String → String → String → Payload → ℕ → String
  unfolding canonical_payload join_bar
  hash_base prev_hash org_id actor event_type entity_type entity_id payload created_at = join_bar (
      prev_hash
      ∷ R.str_uuid org_id
      ∷ actor_value actor
      ∷ event_type
      ∷ entity_type
      ∷ entity_id
      ∷ canonical_payload payload
      ∷ R.isoformat created_at
      ∷ [])

  unfoldable pub build_hash :
      String → ℕ → Option ℕ → String → String → String → Payload → ℕ → String
  build_hash prev_hash org_id actor event_type entity_type entity_id payload created_at =
      R.sha256_hex
        (hash_base prev_hash org_id actor event_type entity_type entity_id payload created_at)

  -- The row that `append_event` inserts, given what it has read.
  unfoldable pub new_event : AuditStore → Stamp → AuditCall → AuditEvent
  new_event db stamp call =
      let normalized_payload = normalize call.payload in
      let prev = latest_hash (latest_for_org call.org_id db) in
      record {
        id = stamp.id;
        org_id = call.org_id;
        actor_user_id = call.actor_user_id;
        event_type = call.event_type;
        entity_type = call.entity_type;
        entity_id = call.entity_id;
        payload = normalized_payload;
        prev_hash = prev;
        event_hash =
            build_hash prev call.org_id call.actor_user_id call.event_type call.entity_type
              call.entity_id normalized_payload stamp.now;
        created_at = stamp.now;
      }

  abbrev actor_text : Option ℕ → Option String
  actor_text none = none
  actor_text (some user) = some (R.str_uuid user)

  alert_for : AuditEvent → AlertRequest
  alert_for e = record {
    org_id = e.org_id;
    severity = alert_severity e.event_type;
    event_type = e.event_type;
    title = str_append "Activity: " e.event_type;
    body =
        str_append e.entity_type
          (str_append " " (str_append e.entity_id " updated by workspace action."));
    source_id = R.str_uuid e.id;
    entity_type = e.entity_type;
    entity_id = e.entity_id;
    actor_user_id = actor_text e.actor_user_id;
  }

  -- The insertion and, for an event type on the list, the notification.
  unfoldable pub insert_row : AuditEvent → AuditStore → AuditStore
  unfolding alert_for
  insert_row e db = record db {
    events = db.events ++ e ∷ [];
    alerts =
        if should_emit_notification e.event_type then db.alerts ++ alert_for e ∷ [] else db.alerts;
  }

  unfoldable pub append_event : AuditStore → Stamp → AuditCall → AuditStore × AuditEvent
  unfolding new_event insert_row
  append_event db stamp call = let e = new_event db stamp call in (insert_row e db, e)

  abbrev expected_hash : String → AuditEvent → String
  expected_hash prev e =
      build_hash prev e.org_id e.actor_user_id e.event_type e.entity_type e.entity_id e.payload
        e.created_at

  broken : ℕ → AuditEvent → String → String → Verification
  broken checked e expected found = record {
    is_valid = false;
    checked_events = checked;
    broken_event_id = some e.id;
    expected_prev_hash = some expected;
    found_prev_hash = some found;
  }

  -- The loop of `verify_chain`, from the hash before and the number of events checked.
  unfoldable pub verify_from : String → ℕ → List AuditEvent → Verification
  unfolding broken
  verify_from prev checked [] = record {
    is_valid = true;
    checked_events = checked;
    broken_event_id = none;
    expected_prev_hash = none;
    found_prev_hash = none;
  }
  verify_from prev checked (e ∷ es) =
      let rest = verify_from e.event_hash (checked + 1) es in
      if not (str_eq e.prev_hash prev)
      then broken (checked + 1) e prev e.prev_hash
      else if not (str_eq e.event_hash (expected_hash prev e))
      then broken (checked + 1) e (expected_hash prev e) e.event_hash
      else rest

  unfoldable pub verify_chain : ℕ → AuditStore → Verification
  unfolding verify_from
  verify_chain org_id db = verify_from genesis_hash 0 (chain_of org_id db)

  -- What is signed: the organisation, the count, the last hash and the time.
  unfoldable pub snapshot : ℕ → ℕ → String → ℕ → Payload
  snapshot org_id checked_events latest_event_hash now = dict (
      field "org_id" (str (R.str_uuid org_id)) (
        field "checked_events" (number checked_events) (
          field "latest_event_hash" (str latest_event_hash)
            (field "verified_at" (str (R.isoformat now)) end))))

  unfoldable pub sign_snapshot : Payload → String
  unfolding canonical_payload
  sign_snapshot snapshot_payload =
      R.hmac_sha256_hex R.secret_key (canonical_payload snapshot_payload)

  unfoldable pub new_checkpoint : AuditStore → Stamp → ℕ → Option ℕ → Checkpoint
  unfolding snapshot
  new_checkpoint db stamp org_id generated_by =
      let latest_event_hash = latest_hash (latest_for_org org_id db) in
      let checked_events = length (select (of_org org_id) db.events) in
      let snapshot_payload = snapshot org_id checked_events latest_event_hash stamp.now in
      record {
        id = stamp.id;
        org_id = org_id;
        generated_by_user_id = generated_by;
        latest_event_hash = latest_event_hash;
        checked_events = checked_events;
        snapshot_payload = snapshot_payload;
        snapshot_signature = sign_snapshot snapshot_payload;
        created_at = stamp.now;
      }

  unfoldable pub create_checkpoint :
      AuditStore → Stamp → ℕ → Option ℕ → Result (AuditStore × Checkpoint)
  create_checkpoint db stamp org_id generated_by =
      if (verify_chain org_id db).is_valid
      then ok (
        insert_checkpoint (new_checkpoint db stamp org_id generated_by) db,
        new_checkpoint db stamp org_id generated_by,
      )
      else err (value_error "Cannot checkpoint invalid audit chain")

  verification_of : AuditStore → ℕ → Checkpoint → CheckpointVerification
  verification_of db org_id c = record {
    checkpoint_id = c.id;
    is_signature_valid = str_eq (sign_snapshot c.snapshot_payload) c.snapshot_signature;
    is_chain_valid = (verify_chain org_id db).is_valid;
    checked_events = c.checked_events;
    latest_event_hash = c.latest_event_hash;
    checkpoint_created_at = c.created_at;
  }

  unfoldable pub verify_checkpoint : AuditStore → ℕ → ℕ → Result CheckpointVerification
  unfolding verification_of
  verify_checkpoint db org_id checkpoint_id = elim (get_checkpoint db org_id checkpoint_id) [
    | none ↦ err (value_error "Checkpoint not found")
    | some c ↦ ok (verification_of db org_id c)
  ]
