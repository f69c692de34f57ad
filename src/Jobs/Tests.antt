-- ===== src/Jobs/Tests.antt =====
-- Runs of the workers, with ids of one character.
use cau_sium.Prelude.{
  ℕ, ◌≡◌, refl, false, Option, none, some, List, [], ◌∷◌, Text, String, codes, arith, All, length,
  map,
}
use cau_sium.Prelude.Decimals.{decimal}
use cau_sium.Jobs.Parsing.{
  Formats, IsFormats, Document, object, value, JsonValue, text, parse_job, next_payload,
  parse_job-next_payload,
}
use cau_sium.Jobs.{
  ingestion, scoring, carbon, CloudAccount, active, JobStore, completed, retry_key, run_worker,
}
use cau_sium.Jobs.Scheduling.{
  requeue_dlq, enqueue_periodic_sync_jobs, enqueue_periodic_sync_jobs_once,
}
use cau_sium.Jobs.Draining.{run_worker_drains}
use cau_sium.Jobs.Burying.{Workable, failing, failing_jobs_are_buried}

abbrev ids_of : List (Text × JsonValue) → Text
ids_of ((k, text (a ∷ [])) ∷ (l, text (b ∷ [])) ∷ []) = a ∷ b ∷ []
ids_of _ = []

abbrev toy_dumps : Document → Text
toy_dumps (object fields) = ids_of fields
toy_dumps (value v) = []

abbrev toy_loads : Text → Option Document
toy_loads (a ∷ b ∷ []) =
    some (object ((codes "org_id", text (a ∷ [])) ∷ (codes "account_id", text (b ∷ [])) ∷ []))
toy_loads _ = none

abbrev toy_uuid : Text → Option ℕ
toy_uuid (a ∷ []) = some a
toy_uuid _ = none

abbrev toy : Formats
toy = record { loads = toy_loads; dumps = toy_dumps; uuid = toy_uuid; str_uuid = λ n. n ∷ [] }

toy-IsFormats : IsFormats toy
toy-IsFormats = record {
  loads-dumps = λ org_id account_id. refl;
  uuid-str_uuid = λ n. refl;
  str_uuid_filled = λ n. λ e. cc;
}

parse_job-next_payload_example :
    parse_job toy (next_payload toy 1 2)
    ≡ record { org_id = some 1; account_id = some 2; lookback_days = none }
parse_job-next_payload_example = parse_job-next_payload toy toy-IsFormats 1 2

abbrev account_2 : CloudAccount
account_2 = record { id = 2; org_id = 1; status = active; last_sync_at = none }

-- Two copies of one job, of the current and of the legacy format.
abbrev two_jobs : JobStore
two_jobs = record {
  queues = λ q. elim q [ ingestion ↦ (1 ∷ 2 ∷ []) ∷ (2 ∷ []) ∷ [] | scoring ↦ [] | carbon ↦ [] ];
  counters = λ key. 0;
  locks = λ key. false;
  accounts = account_2 ∷ [];
  dlq = [];
  notices = [];
  pulls = [];
}

abbrev ten_failures : List (ℕ × String)
ten_failures =
    (1, "a")
    ∷ (2, "b")
    ∷ (3, "c")
    ∷ (4, "d")
    ∷ (5, "e")
    ∷ (6, "f")
    ∷ (7, "g")
    ∷ (8, "h")
    ∷ (9, "i")
    ∷ (10, "j")
    ∷ []

two_jobs-Workable : All (Workable toy two_jobs) (two_jobs.queues ingestion)
unfolding parse_job
two_jobs-Workable = (
  record {
    account_id = 2;
    account = account_2;
    named = refl;
    found = refl;
    allowed = refl;
    unlocked = refl;
  },
  (
    record {
      account_id = 2;
      account = account_2;
      named = refl;
      found = refl;
      allowed = refl;
      unlocked = refl;
    },
    tt,
  ),
)

failing_jobs_are_buried_example :
    let t = run_worker toy ingestion (failing ten_failures) two_jobs in
    (t.queues ingestion ≡ []) × (length t.dlq ≡ 2)
failing_jobs_are_buried_example =
    failing_jobs_are_buried toy ingestion ten_failures two_jobs (λ key. omega arith)
      two_jobs-Workable (omega arith)

run_worker_drains_example :
    (run_worker toy ingestion (failing ten_failures) two_jobs).queues ingestion ≡ []
run_worker_drains_example =
    run_worker_drains toy ingestion (failing ten_failures) two_jobs (λ key. omega arith)
      (omega arith)

-- A finished job feeds the other two queues, and each dead letter has had three attempts.
feeds_the_others :
    let t = run_worker toy ingestion ((1, completed) ∷ []) two_jobs in
    (t.queues scoring ≡ (1 ∷ 2 ∷ []) ∷ []) × (t.queues carbon ≡ (1 ∷ 2 ∷ []) ∷ [])
unfolding run_worker parse_job
feeds_the_others = (refl, refl)

-- Five seconds after a run of the scheduler: the queues are empty and the account is synchronised.
abbrev five_seconds_on : JobStore
five_seconds_on = record ((enqueue_periodic_sync_jobs toy 8000000 7 two_jobs).1) {
  queues = λ q. [];
  accounts = record account_2 { last_sync_at = some 9000000 } ∷ [];
}

enqueue_periodic_sync_jobs_once_example :
    enqueue_periodic_sync_jobs toy 13000000 7 five_seconds_on ≡ (0, five_seconds_on)
enqueue_periodic_sync_jobs_once_example =
    enqueue_periodic_sync_jobs_once toy 8000000 13000000 7 two_jobs five_seconds_on refl
      (λ a held. held) (refl, tt)

-- In the next bucket the account is queued again.
queued_in_next_bucket : (enqueue_periodic_sync_jobs toy 14000000 7 five_seconds_on).0 ≡ 1
unfolding enqueue_periodic_sync_jobs decimal
queued_in_next_bucket = refl

-- Three failures make a dead letter, which can be queued again.
one_job : JobStore
one_job = record two_jobs {
  queues = λ q. elim q [ ingestion ↦ [] | scoring ↦ (1 ∷ 2 ∷ []) ∷ [] | carbon ↦ [] ];
}

abbrev buried : JobStore
buried = run_worker toy scoring (failing ((1, "a") ∷ (2, "b") ∷ (3, "c") ∷ [])) one_job

buried_after_three : map (λ m. m.retry_count) buried.dlq ≡ 3 ∷ []
unfolding run_worker parse_job one_job retry_key
buried_after_three = refl

requeued_once_more : (requeue_dlq 3 buried).1.queues scoring ≡ (1 ∷ 2 ∷ []) ∷ []
unfolding requeue_dlq run_worker parse_job one_job retry_key
requeued_once_more = refl
