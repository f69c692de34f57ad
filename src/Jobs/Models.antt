-- ===== src/Jobs/Models.antt =====
-- The state that the workers of backend/app/workers share: Redis, and the tables that they touch.
use cau_sium.Prelude.{
  ℕ, Bool, true, false, Option, List, [], ◌∷◌, ◌++◌, String, Text, codes, text_eq, if◌then◌else◌,
}

-- The queues of ingestion_worker.py, scoring_worker.py and carbon_sync_worker.py.
pub data Queue : Type 0 where
  ingestion scoring carbon : Queue

abbrev pub queue_name : Queue → Text
queue_name ingestion = codes "ingestion:queue"
queue_name scoring = codes "scoring:queue"
queue_name carbon = codes "carbon:queue"

abbrev pub same_queue : Queue → Queue → Bool
same_queue ingestion ingestion = true
same_queue scoring scoring = true
same_queue carbon carbon = true
same_queue _ _ = false

pub data ConnectorStatus : Type 0 where
  active inactive error pending : ConnectorStatus

-- What the workers read of `CloudAccount`.
pub record CloudAccount : Type 0 where
  pub id : ℕ
  pub org_id : ℕ
  pub status : ConnectorStatus
  pub last_sync_at : Option ℕ

pub data DlqStatus : Type 0 where
  open_message requeued resolved : DlqStatus

pub record DlqMessage : Type 0 where
  pub id : ℕ
  pub queue : Queue
  pub org_id : Option ℕ
  pub account_id : Option ℕ
  pub original_payload : Text
  pub error_message : String
  pub retry_count : ℕ
  pub status : DlqStatus

-- What goes out: an alert of a workspace by its event type, a mail and a message by their subject.
pub data Notice : Type 0 where
  alert : (org_id : ℕ) → (event_type : String) → Notice
  mail : (subject : String) → Notice
  slack : (org_id : Option ℕ) → (subject : String) → Notice
  operations : (subject : String) → (queue : Queue) → Notice

-- A call of `ingest_account`: the account, and the days that are asked for.
pub record Pull : Type 0 where
  pub account_id : ℕ
  pub days : ℕ

-- A list of Redis begins at its right end, where `brpop` takes; `lpush` adds at the other one. A
-- counter that Redis does not hold is 0.
pub record JobStore : Type 0 where
  pub queues : Queue → List Text
  pub counters : Text → ℕ
  pub locks : Text → Bool
  pub accounts : List CloudAccount
  pub dlq : List DlqMessage
  pub notices : List Notice
  pub pulls : List Pull

unfoldable pub lpush : Queue → Text → JobStore → JobStore
lpush q raw s = record s {
  queues = λ p. if same_queue p q then s.queues p ++ raw ∷ [] else s.queues p;
}

unfoldable pub set_queue : Queue → List Text → JobStore → JobStore
set_queue q raws s = record s { queues = λ p. if same_queue p q then raws else s.queues p }

abbrev pub set_at : Text → ℕ → (Text → ℕ) → Text → ℕ
set_at key n counters k = if text_eq k key then n else counters k

-- `set` of a counter, and `delete` for 0.
unfoldable pub set_counter : Text → ℕ → JobStore → JobStore
set_counter key n s = record s { counters = set_at key n s.counters }

unfoldable pub set_lock : Text → Bool → JobStore → JobStore
set_lock key held s = record s { locks = λ k. if text_eq k key then held else s.locks k }

unfoldable pub add_notice : Notice → JobStore → JobStore
add_notice n s = record s { notices = s.notices ++ n ∷ [] }

unfoldable pub add_pull : ℕ → ℕ → JobStore → JobStore
add_pull account_id days s = record s {
  pulls = s.pulls ++ (record { account_id = account_id; days = days }) ∷ [];
}
