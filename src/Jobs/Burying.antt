-- ===== src/Jobs/Burying.antt =====
-- Jobs whose work always fails end as dead letters: `push_to_dlq` of
-- backend/app/workers/job_runtime.py, and the workers' `except` blocks.
use cau_sium.Prelude.{
  ℕ, suc, ◌+◌, ◌*◌, ◌≤◌, ◌≡◌, ◌∙◌, refl, ap, subst, subst⁻¹, ◌⊎◌, inl, inr, true, false, Bool, some,
  List, [], ◌∷◌, Text, String, arith, Bool-cases, All, All-map, length, length-append, ltb, text_eq,
  if◌then◌else◌,
}
use cau_sium.Jobs.Parsing.{Formats, QueueJob, parse_job}
use cau_sium.Jobs.{
  Queue, ingestion, scoring, carbon, CloudAccount, JobStore, Outcome, raises, set_queue,
  set_counter, set_lock, add_pull, lpush, push_to_dlq, new_message, retry_key, retry_or_bury,
  max_retries, lookback_days, mismatch, find_account, work, lock_key, process_known, process_parsed,
  process, process_next, tick, run_worker,
}
use cau_sium.Jobs.Settling.{failure_notices-Quiet, same_queue_self, lpush-queue}
use cau_sium.Jobs.Draining.{
  Below, run_worker_drains, List-cases, tick_empty, tick-Settled, Settled-All,
}

-- Accounts stay, and free locks stay free.
record Stays (s t : JobStore) : Type 0 where
  accounts_same : t.accounts ≡ s.accounts
  free_stays : (key : Text) → s.locks key ≡ false → t.locks key ≡ false

Stays-trans : (s t u : JobStore) → Stays s t → Stays t u → Stays s u
Stays-trans s t u h h' = record {
  accounts_same = h'.accounts_same ∙ h.accounts_same;
  free_stays = λ key free. h'.free_stays key (h.free_stays key free);
}

-- One job more stands in the queue or among the dead letters.
record Kept (q : Queue) (s t : JobStore) : Type 0 where
  stays : Stays s t
  one_more : length (t.queues q) + length t.dlq ≡ suc (length (s.queues q) + length s.dlq)

retry_or_bury-Kept :
    (q : Queue) (id : ℕ) (raw : Text) (job : QueueJob) (e : String) (s : JobStore)
    → Kept q s (retry_or_bury q id raw job e s)
unfolding retry_or_bury push_to_dlq set_counter lpush
retry_or_bury-Kept q id raw job e s =
    let attempts = suc (s.counters (retry_key q raw)) in
    elim (Bool-cases (ltb attempts max_retries)) [
      | inl again ↦ rw again (record {
        stays = record { accounts_same = refl; free_stays = λ key free. free };
        one_more = omega (
          arith,
          ap length (lpush-queue q raw (set_counter (retry_key q raw) attempts s)),
          length-append (s.queues q) (raw ∷ []),
        );
      })
      | inr over ↦
          let buried =
            set_counter (retry_key q raw) 0 (push_to_dlq (new_message id q raw job e attempts) s) in
          let quiet = failure_notices-Quiet q job buried in
          rw over (record {
            stays = record {
              accounts_same = ap (λ (t : JobStore). t.accounts) quiet;
              free_stays = λ key free. ap (λ (t : JobStore). t.locks key) quiet ∙ free;
            };
            one_more =
                ap (λ (t : JobStore). length (t.queues q) + length t.dlq) quiet
                ∙ omega (arith, length-append s.dlq (new_message id q raw job e attempts ∷ []));
          })
    ]

given_back :
    {held : Bool} (k key : Text) → held ≡ false → (if text_eq k key then false else held) ≡ false
given_back k key free = ground (arith, free)

taken :
    (k key : Text) (held : Bool)
    → held ≡ false
    → (text_eq k key ≡ true) ⊎ ((if text_eq k key then true else held) ≡ false)
taken k key held free = elim (Bool-cases (text_eq k key)) [
  | inl mine ↦ inl mine
  | inr other ↦ inr (rw other free)
]

-- The worker finds the account that the job names, and may work on it.
pub record Workable (F : Formats) (s : JobStore) (raw : Text) : Type 0 where
  pub account_id : ℕ
  pub account : CloudAccount
  pub named : (parse_job F raw).account_id ≡ some account_id
  pub found : find_account account_id s ≡ some account
  pub allowed : mismatch (parse_job F raw) account ≡ false
  pub unlocked : s.locks (lock_key F (parse_job F raw).org_id account_id) ≡ false

Workable-Stays :
    (F : Formats) (s t : JobStore) (raw : Text) → Stays s t → Workable F s raw → Workable F t raw
Workable-Stays F s t raw h w = record {
  account_id = w.account_id;
  account = w.account;
  named = w.named;
  found = rw h.accounts_same w.found;
  allowed = w.allowed;
  unlocked = h.free_stays (lock_key F (parse_job F raw).org_id w.account_id) w.unlocked;
}

-- Rounds that all fail, with their errors and the ids of their dead letters.
abbrev pub failing : List (ℕ × String) → List (ℕ × Outcome)
failing [] = []
failing ((id, e) ∷ rounds) = (id, raises e) ∷ failing rounds

length-failing : (rounds : List (ℕ × String)) → length (failing rounds) ≡ length rounds
length-failing [] = refl
length-failing (r ∷ rounds) = ap suc (length-failing rounds)

module _ (F : Formats) where
  -- Around the work: the lock is taken and given back.
  locked-Kept :
      (key : Text) (s begun t : JobStore)
      → begun.queues ≡ s.queues
      → begun.dlq ≡ s.dlq
      → begun.accounts ≡ s.accounts
      → ((k : Text) → s.locks k ≡ false → (text_eq k key ≡ true) ⊎ (begun.locks k ≡ false))
      → Kept ingestion begun t
      → Kept ingestion s (set_lock key false t)
  unfolding set_lock
  locked-Kept key s begun t queues dlq accounts locks h = record {
    stays = record {
      accounts_same = h.stays.accounts_same ∙ accounts;
      free_stays = λ k free. elim (locks k free) [
        | inl mine ↦ rw mine refl
        | inr other ↦ given_back k key (h.stays.free_stays k other)
      ];
    };
    one_more = omega (
      arith,
      h.one_more,
      ap (λ (l : Queue → List Text). length (l ingestion)) queues,
      ap length dlq,
    );
  }

  work_fails :
      (q : Queue) (id : ℕ) (e : String) (raw : Text) (job : QueueJob) (account_id : ℕ)
      (account : CloudAccount) (s : JobStore)
      → find_account account_id s ≡ some account
      → mismatch job account ≡ false
      → s.locks (lock_key F job.org_id account_id) ≡ false
      → Kept q s (process_known F q id (raises e) raw job account_id s)
  unfolding process_known work set_lock add_pull
  work_fails ingestion id e raw job account_id account s found allowed unlocked =
      let key = lock_key F job.org_id account_id in
      let begun = add_pull account.id (lookback_days job.lookback_days) (set_lock key true s) in
      rw (unlocked, found, allowed)
        (locked-Kept key s begun (retry_or_bury ingestion id raw job e begun) refl refl refl
          (λ k free. taken k key (s.locks k) free)
          (retry_or_bury-Kept ingestion id raw job e begun))
  work_fails scoring id e raw job account_id account s found allowed unlocked =
      rw (found, allowed) (retry_or_bury-Kept scoring id raw job e s)
  work_fails carbon id e raw job account_id account s found allowed unlocked =
      rw (found, allowed) (retry_or_bury-Kept carbon id raw job e s)

  process_fails :
      (q : Queue) (id : ℕ) (e : String) (raw : Text) (s : JobStore)
      → Workable F s raw
      → Kept q s (process F q id (raises e) raw s)
  unfolding process
  process_fails q id e raw s w =
      subst⁻¹
        (λ account_id.
          Kept q s (process_parsed F q id (raises e) raw (parse_job F raw) account_id s))
        w.named
        (work_fails q id e raw (parse_job F raw) w.account_id w.account s w.found w.allowed
          w.unlocked)

  tick_fails :
      (q : Queue) (id : ℕ) (e : String) (s : JobStore) {raw : Text} {raws : List Text}
      → s.queues q ≡ raw ∷ raws
      → Workable F s raw
      → Stays s (tick F q id (raises e) s)
        × (length ((tick F q id (raises e) s).queues q) + length (tick F q id (raises e) s).dlq
            ≡ length (s.queues q) + length s.dlq)
  unfolding tick set_queue
  tick_fails q id e s {raw} {raws} some_job w =
      let taken = set_queue q raws s in
      let kept = process_fails q id e raw taken (
        Workable-Stays F s taken raw
          (record { accounts_same = refl; free_stays = λ key free. free }) w) in
      let next : tick F q id (raises e) s ≡ process F q id (raises e) raw taken =
        ap (λ l. process_next F q id (raises e) l s) some_job in
      let rest : taken.queues q ≡ raws = rw (same_queue_self q) refl in
      rw next (
        record { accounts_same = kept.stays.accounts_same; free_stays = kept.stays.free_stays },
        omega (arith, kept.one_more, ap length rest, ap length some_job),
      )

  run_fails :
      (q : Queue) (rounds : List (ℕ × String)) (s : JobStore)
      → All (Workable F s) (s.queues q)
      → let t = run_worker F q (failing rounds) s in
        length (t.queues q) + length t.dlq ≡ length (s.queues q) + length s.dlq
  unfolding run_worker
  run_fails q [] s all = refl
  run_fails q ((id, e) ∷ rounds) s all = elim (List-cases (s.queues q)) [
    | inl empty ↦
        let idle = tick_empty F q id (raises e) s empty in
        run_fails q rounds (tick F q id (raises e) s) (rw idle all)
        ∙ ap (λ (t : JobStore). length (t.queues q) + length t.dlq) idle
    | inr (raw, raws, some_job) ↦
        let here : All (Workable F s) (raw ∷ raws) = subst (All (Workable F s)) some_job all in
        let t = tick F q id (raises e) s in
        let failed = tick_fails q id e s {raw = raw} {raws = raws} some_job here.0 in
        let settled = tick-Settled F q id (raises e) s {raw = raw} {raws = raws} some_job in
        run_fails q rounds t (
          All-map (Workable F s) (Workable F t) (t.queues q)
            (λ r w. Workable-Stays F s t r failed.0 w) (Settled-All (Workable F s) settled here))
        ∙ failed.1
  ]

  -- If the work on every job of a queue fails every time, each for an account that the worker finds
  -- and may work on, and no counter has reached three, then after five rounds for each job the
  -- queue is empty, and as many dead letters have been added as jobs were queued: none is lost, and
  -- none is tried for ever.
  pub failing_jobs_are_buried :
      (q : Queue) (rounds : List (ℕ × String)) (s : JobStore)
      → Below s.counters
      → All (Workable F s) (s.queues q)
      → 5 * length (s.queues q) ≤ length rounds
      → let t = run_worker F q (failing rounds) s in
        (t.queues q ≡ []) × (length t.dlq ≡ length s.dlq + length (s.queues q))
  failing_jobs_are_buried q rounds s below all enough =
      let t = run_worker F q (failing rounds) s in
      let empty =
        run_worker_drains F q (failing rounds) s below
          (omega (arith, enough, length-failing rounds)) in
      (empty, omega (arith, run_fails q rounds s all, ap length empty))
