-- ===== src/Jobs.antt =====
-- Background jobs: the workers of backend/app/workers that take accounts from queues, their retries
-- and dead letters (job_runtime.py), the scheduler of ingestion_worker.py, and `requeue_dlq` of
-- backend/app/domains/admin/service.py. Redis and the database answer. A lock is held until it is
-- deleted: its expiry is left out. Instants are in microseconds, days in whole numbers.
mod Models
pub mod Parsing
pub mod Settling
pub mod Counting
pub mod Draining
pub mod Burying
pub mod Scheduling
mod Tests
unfoldable pub use Models.*
use cau_sium.Prelude.{
  ℕ, zero, suc, ◌+◌, ◌-◌, ◌*◌, ◌/◌, min, max, Bool, true, false, ◌&&◌, not, Option, none, some,
  List, [], ◌∷◌, ◌++◌, String, Text, codes, find_row, select, update_first, ◌==◌, ltb,
  if◌then◌else◌, opt_eq, Result, ok, err, http, is_some,
}
use cau_sium.Prelude.Actions.{Action, pure, gets, modify, or_raise, ◌>>=◌, ◌>>◌}
use cau_sium.Prelude.Decimals.{Signed, positive, negative, decimal}
use cau_sium.Jobs.Parsing.{
  Formats, QueueJob, JsonValue, number, text, object, parse_job, next_payload,
}

abbrev pub max_retries : ℕ
max_retries = 3

-- f"retry:{queue_name}:{payload}"
unfoldable pub retry_key : Queue → Text → Text
retry_key q raw = codes "retry:" ++ (queue_name q ++ b':' ∷ raw)

abbrev pub new_message : ℕ → Queue → Text → QueueJob → String → ℕ → DlqMessage
new_message id q raw job error_message attempts = record {
  id = id;
  queue = q;
  org_id = job.org_id;
  account_id = job.account_id;
  original_payload = raw;
  error_message = error_message;
  retry_count = attempts;
  status = open_message;
}

-- The row, and the alert to the operators.
unfoldable pub push_to_dlq : DlqMessage → JobStore → JobStore
unfolding add_notice
push_to_dlq message s =
    add_notice (operations "Job moved to DLQ" message.queue)
      (record s { dlq = s.dlq ++ message ∷ [] })

abbrev pub alert_of : Option ℕ → String → JobStore → JobStore
alert_of none event_type s = s
alert_of (some org_id) event_type s = add_notice (alert org_id event_type) s

abbrev pub slack_of : Option ℕ → String → JobStore → JobStore
slack_of none subject s = s
slack_of (some org_id) subject s = add_notice (slack (some org_id) subject) s

-- What each worker sends when a job has gone to the dead letters.
unfoldable pub failure_notices : Queue → QueueJob → JobStore → JobStore
unfolding add_notice
failure_notices ingestion job s =
    let subject : String = "[CauSium][Critical] Ingestion worker failure" in
    slack_of job.org_id subject
      (add_notice (mail subject) (alert_of job.org_id "worker.ingestion.dlq_failure" s))
failure_notices scoring job s =
    let subject : String = "[CauSium][Critical] Scoring worker failure" in
    add_notice (slack job.org_id subject) (add_notice (mail subject) s)
failure_notices carbon job s =
    let subject : String = "[CauSium][Critical] Carbon sync worker failure" in
    add_notice (slack job.org_id subject)
      (alert_of job.org_id "worker.carbon_sync.dlq_failure" (add_notice (mail subject) s))

-- The `except` block that the workers share.
unfoldable pub retry_or_bury : Queue → ℕ → Text → QueueJob → String → JobStore → JobStore
unfolding push_to_dlq failure_notices lpush set_counter
retry_or_bury q dlq_id raw job error_message s =
    let key = retry_key q raw in
    let attempts = suc (s.counters key) in
    if ltb attempts max_retries
    then lpush q raw (set_counter key attempts s)
    else failure_notices q job
        (set_counter key 0 (push_to_dlq (new_message dlq_id q raw job error_message attempts) s))

-- How the work on an account ends: it is committed, or it raises.
pub data Outcome : Type 0 where
  completed : Outcome
  raises : String → Outcome

abbrev pub mismatch : QueueJob → CloudAccount → Bool
mismatch job account = is_some job.org_id && not (opt_eq (some account.org_id) job.org_id)

abbrev pub find_account : ℕ → JobStore → Option CloudAccount
find_account account_id s = find_row (λ a. a.id == account_id) s.accounts

-- The days of `min(x, 90)` and `max(7, …)`.
abbrev pub lookback_days : Option Signed → ℕ
lookback_days none = 30
lookback_days (some (positive n)) = max 7 (min n 90)
lookback_days (some (negative n)) = 7

module _ (F : Formats) where
  -- What the workers do with the account that is found. The alert that ends an ingestion is added
  -- after the commit and not committed.
  unfoldable pub work : Queue → ℕ → Outcome → Text → QueueJob → CloudAccount → JobStore → JobStore
  unfolding retry_or_bury add_pull lpush set_counter
  work ingestion dlq_id completed raw job account s =
      lpush carbon (next_payload F account.org_id account.id) (
        lpush scoring (next_payload F account.org_id account.id) (
          set_counter (retry_key ingestion raw) 0
            (add_pull account.id (lookback_days job.lookback_days) s)))
  work ingestion dlq_id (raises e) raw job account s =
      retry_or_bury ingestion dlq_id raw job e
        (add_pull account.id (lookback_days job.lookback_days) s)
  work q dlq_id completed raw job account s = set_counter (retry_key q raw) 0 s
  work q dlq_id (raises e) raw job account s = retry_or_bury q dlq_id raw job e s

  abbrev pub checked :
      Queue → ℕ → Outcome → Text → QueueJob → Option CloudAccount → JobStore → JobStore
  checked q dlq_id outcome raw job none s = s
  checked q dlq_id outcome raw job (some account) s =
      if mismatch job account then s else work q dlq_id outcome raw job account s

  abbrev pub str_org : Option ℕ → Text
  str_org none = codes "None"
  str_org (some org_id) = F.str_uuid org_id

  abbrev pub lock_key : Option ℕ → ℕ → Text
  lock_key org_id account_id =
      codes "ingestion:lock:" ++ (str_org org_id ++ b':' ∷ F.str_uuid account_id)

  -- `process_account`, under its lock; `process_scoring` and `process_carbon_sync` take none.
  unfoldable pub process_known : Queue → ℕ → Outcome → Text → QueueJob → ℕ → JobStore → JobStore
  unfolding work set_lock
  process_known ingestion dlq_id outcome raw job account_id s =
      let key = lock_key job.org_id account_id in
      if s.locks key
      then s
      else set_lock key false (
          checked ingestion dlq_id outcome raw job (find_account account_id s)
            (set_lock key true s))
  process_known q dlq_id outcome raw job account_id s =
      checked q dlq_id outcome raw job (find_account account_id s) s

  abbrev pub process_parsed : Queue → ℕ → Outcome → Text → QueueJob → Option ℕ → JobStore → JobStore
  process_parsed q dlq_id outcome raw job none s = s
  process_parsed q dlq_id outcome raw job (some account_id) s =
      process_known q dlq_id outcome raw job account_id s

  unfoldable pub process : Queue → ℕ → Outcome → Text → JobStore → JobStore
  unfolding process_known
  process q dlq_id outcome raw s =
      process_parsed q dlq_id outcome raw (parse_job F raw) (parse_job F raw).account_id s

  abbrev pub process_next : Queue → ℕ → Outcome → List Text → JobStore → JobStore
  process_next q dlq_id outcome [] s = s
  process_next q dlq_id outcome (raw ∷ raws) s = process q dlq_id outcome raw (set_queue q raws s)

  -- One round of a worker's loop: `brpop`, and the job that it gives, if any.
  unfoldable pub tick : Queue → ℕ → Outcome → JobStore → JobStore
  unfolding process set_queue
  tick q dlq_id outcome s = process_next q dlq_id outcome (s.queues q) s

  -- What becomes of the jobs that are taken in a run, with the ids of their dead letters.
  unfoldable pub run_worker : Queue → List (ℕ × Outcome) → JobStore → JobStore
  unfolding tick
  run_worker q [] s = s
  run_worker q ((dlq_id, outcome) ∷ rounds) s = run_worker q rounds (tick q dlq_id outcome s)
