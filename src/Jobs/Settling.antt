-- ===== src/Jobs/Settling.antt =====
-- What the processing of one job leaves in its queue and of its counter: backend/app/workers.
use cau_sium.Prelude.{
  ℕ, suc, ◌<◌, ◌≡◌, refl, ap, inl, inr, true, Option, none, some, List, [], ◌∷◌, ◌++◌, Text, String,
  Bool-cases, ltb, ltb→lt,
}
use cau_sium.Jobs.Parsing.{Formats, QueueJob, parse_job}
use cau_sium.Jobs.{
  Queue, ingestion, scoring, carbon, same_queue, CloudAccount, JobStore, Outcome, completed, raises,
  lpush, set_at, set_counter, set_lock, add_notice, add_pull, push_to_dlq, alert_of, slack_of, mail,
  new_message, failure_notices, retry_key, retry_or_bury, max_retries, lookback_days, mismatch,
  find_account, work, checked, lock_key, process_known, process_parsed, process,
}

-- From a queue and counters to those after: the job is gone with its counter untouched; gone with
-- its counter deleted; or queued again with one more attempt counted.
pub data Settled (key raw : Text) (queue : List Text) (counters : Text → ℕ) (later : List Text)
    (after : Text → ℕ) : Type 0 where
  dropped : later ≡ queue → after ≡ counters → Settled key raw queue counters later after
  finished :
      later ≡ queue → after ≡ set_at key 0 counters → Settled key raw queue counters later after
  retried :
      later ≡ queue ++ raw ∷ []
      → after ≡ set_at key (suc (counters key)) counters
      → suc (counters key) < max_retries
      → Settled key raw queue counters later after

abbrev pub Settles : Queue → Text → JobStore → JobStore → Type 0
Settles q raw s t = Settled (retry_key q raw) raw (s.queues q) s.counters (t.queues q) t.counters

-- Nothing but the notices has changed.
abbrev pub Quiet : JobStore → JobStore → Type 0
Quiet s t = record t { notices = s.notices } ≡ s

ingestion_notices-Quiet :
    (org_id : Option ℕ) (event_type subject mailed : String) (s : JobStore)
    → Quiet s (slack_of org_id subject (add_notice (mail mailed) (alert_of org_id event_type s)))
unfolding add_notice
ingestion_notices-Quiet none event_type subject mailed s = refl
ingestion_notices-Quiet (some org_id) event_type subject mailed s = refl

alert_of-Quiet :
    (org_id : Option ℕ) (event_type : String) (s : JobStore)
    → Quiet s (alert_of org_id event_type s)
unfolding add_notice
alert_of-Quiet none event_type s = refl
alert_of-Quiet (some org_id) event_type s = refl

pub failure_notices-Quiet :
    (q : Queue) (job : QueueJob) (s : JobStore) → Quiet s (failure_notices q job s)
unfolding failure_notices add_notice
failure_notices-Quiet ingestion job s =
    ingestion_notices-Quiet job.org_id "worker.ingestion.dlq_failure"
      "[CauSium][Critical] Ingestion worker failure" "[CauSium][Critical] Ingestion worker failure"
      s
failure_notices-Quiet scoring job s = refl
failure_notices-Quiet carbon job s =
    ap (λ (t : JobStore). record t { notices = s.notices })
      (alert_of-Quiet job.org_id "worker.carbon_sync.dlq_failure"
        (add_notice (mail "[CauSium][Critical] Carbon sync worker failure") s))

pub same_queue_self : (q : Queue) → same_queue q q ≡ true
same_queue_self ingestion = refl
same_queue_self scoring = refl
same_queue_self carbon = refl

pub lpush-queue :
    (q : Queue) (raw : Text) (s : JobStore) → (lpush q raw s).queues q ≡ s.queues q ++ raw ∷ []
unfolding lpush
lpush-queue q raw s = rw (same_queue_self q) refl

retry_or_bury-Settled :
    (q : Queue) (id : ℕ) (raw : Text) (job : QueueJob) (e : String) (s : JobStore)
    → Settles q raw s (retry_or_bury q id raw job e s)
unfolding retry_or_bury
retry_or_bury-Settled q id raw job e s =
    elim (Bool-cases (ltb (suc (s.counters (retry_key q raw))) max_retries)) [
      | inl again ↦ rw again (
          retried
            (lpush-queue q raw
              (set_counter (retry_key q raw) (suc (s.counters (retry_key q raw))) s))
            refl (ltb→lt (suc (s.counters (retry_key q raw))) max_retries again))
      | inr over ↦
          let buried =
            set_counter (retry_key q raw) 0
              (push_to_dlq (new_message id q raw job e (suc (s.counters (retry_key q raw)))) s) in
          let quiet = failure_notices-Quiet q job buried in
          rw over (finished (ap (λ t. t.queues q) quiet) (ap (λ t. t.counters) quiet))
    ]

work-Settled :
    (F : Formats) (q : Queue) (id : ℕ) (outcome : Outcome) (raw : Text) (job : QueueJob)
    (account : CloudAccount) (s : JobStore)
    → Settles q raw s (work F q id outcome raw job account s)
unfolding work add_pull set_counter lpush
work-Settled F ingestion id completed raw job account s = finished refl refl
work-Settled F ingestion id (raises e) raw job account s =
    retry_or_bury-Settled ingestion id raw job e
      (add_pull account.id (lookback_days job.lookback_days) s)
work-Settled F scoring id completed raw job account s = finished refl refl
work-Settled F scoring id (raises e) raw job account s =
    retry_or_bury-Settled scoring id raw job e s
work-Settled F carbon id completed raw job account s = finished refl refl
work-Settled F carbon id (raises e) raw job account s = retry_or_bury-Settled carbon id raw job e s

checked-Settled :
    (F : Formats) (q : Queue) (id : ℕ) (outcome : Outcome) (raw : Text) (job : QueueJob)
    (account : Option CloudAccount) (s : JobStore)
    → Settles q raw s (checked F q id outcome raw job account s)
checked-Settled F q id outcome raw job none s = dropped refl refl
checked-Settled F q id outcome raw job (some account) s = elim (Bool-cases (mismatch job account)) [
  | inl other ↦ rw other (dropped refl refl)
  | inr same ↦ rw same (work-Settled F q id outcome raw job account s)
]

process_known-Settled :
    (F : Formats) (q : Queue) (id : ℕ) (outcome : Outcome) (raw : Text) (job : QueueJob)
    (account_id : ℕ) (s : JobStore)
    → Settles q raw s (process_known F q id outcome raw job account_id s)
unfolding process_known set_lock
process_known-Settled F ingestion id outcome raw job account_id s =
    let key = lock_key F job.org_id account_id in
    elim (Bool-cases (s.locks key)) [
      | inl held ↦ rw held (dropped refl refl)
      | inr free ↦ rw free (
          checked-Settled F ingestion id outcome raw job (find_account account_id s)
            (set_lock key true s))
    ]
process_known-Settled F scoring id outcome raw job account_id s =
    checked-Settled F scoring id outcome raw job (find_account account_id s) s
process_known-Settled F carbon id outcome raw job account_id s =
    checked-Settled F carbon id outcome raw job (find_account account_id s) s

process_parsed-Settled :
    (F : Formats) (q : Queue) (id : ℕ) (outcome : Outcome) (raw : Text) (job : QueueJob)
    (account_id : Option ℕ) (s : JobStore)
    → Settles q raw s (process_parsed F q id outcome raw job account_id s)
process_parsed-Settled F q id outcome raw job none s = dropped refl refl
process_parsed-Settled F q id outcome raw job (some account_id) s =
    process_known-Settled F q id outcome raw job account_id s

-- Every job settles, whatever it is and however its work ends.
pub process-Settled :
    (F : Formats) (q : Queue) (id : ℕ) (outcome : Outcome) (raw : Text) (s : JobStore)
    → Settles q raw s (process F q id outcome raw s)
unfolding process
process-Settled F q id outcome raw s =
    process_parsed-Settled F q id outcome raw (parse_job F raw) (parse_job F raw).account_id s
