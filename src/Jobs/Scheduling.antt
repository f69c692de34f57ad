-- ===== src/Jobs/Scheduling.antt =====
-- What fills the queues: `enqueue_periodic_sync_jobs` of backend/app/workers/ingestion_worker.py, and
-- `requeue_dlq` of backend/app/domains/admin/service.py.
use cau_sium.Prelude.{
  ℕ, suc, ◌+◌, ◌-◌, ◌/◌, min, max, ◌≡◌, ◌∙◌, refl, ap, subst, inl, inr, true, false, Bool, Option,
  none, some, List, [], ◌∷◌, ◌++◌, Text, codes, arith, All, All-map, any_row, sym, ◌&&◌, Bool-cases,
  find_row, select, update_first, text_eq, text_eq_refl, ◌==◌, if◌then◌else◌, http,
}
use cau_sium.Prelude.Actions.{Action, pure, gets, modify, or_raise, ◌>>=◌, ◌>>◌}
use cau_sium.Prelude.Decimals.{decimal, positive}
use cau_sium.Jobs.Parsing.{Formats, object, text, number}
use cau_sium.Jobs.{
  ingestion, active, inactive, error, pending, CloudAccount, DlqMessage, requeued, JobStore, lpush,
  set_lock,
}

-- The message goes back to its queue, whatever its status is.
unfoldable pub requeue_dlq : ℕ → Action JobStore DlqMessage
unfolding lpush
requeue_dlq dlq_id = do
  msg ←
      or_raise (← gets (λ s. find_row (λ m. m.id == dlq_id) s.dlq))
        (http 404 "DLQ message not found")
  modify (lpush msg.queue msg.original_payload)
  modify (λ s. record s {
    dlq = update_first (λ m. m.id == dlq_id) (λ m. record m { status = requeued }) s.dlq;
  })
  pure (record msg { status = requeued })

abbrev pub is_eligible : CloudAccount → Bool
is_eligible a = elim a.status [ inactive ↦ false | active ↦ true | error ↦ true | pending ↦ true ]

abbrev microseconds_of_day : ℕ
microseconds_of_day = 86400000000

-- The days since the last synchronisation and two more, from 2 to 90; an instant that lies ahead
-- counts as now.
abbrev pub smart_lookback : ℕ → Option ℕ → ℕ
smart_lookback now none = 90
smart_lookback now (some at) = max 2 (min ((now - at) / microseconds_of_day + 2) 90)

still : (k key : Text) (held : Bool) → held ≡ true → (if text_eq k key then true else held) ≡ true
still k key held h = ground (arith, h)

-- `int(time.time() // max(interval_seconds, 1))`
abbrev pub bucket_of : ℕ → ℕ → ℕ
bucket_of now interval_seconds = now / 1000000 / max interval_seconds 1

module _ (F : Formats) where
  abbrev pub schedule_lock_key : ℕ → CloudAccount → Text
  schedule_lock_key bucket a =
      codes "ingestion:scheduled:"
      ++ (F.str_uuid a.org_id ++ b':' ∷ (F.str_uuid a.id ++ b':' ∷ decimal bucket))

  abbrev pub sync_payload : ℕ → CloudAccount → Text
  sync_payload now a = F.dumps (
      object (
        (codes "org_id", text (F.str_uuid a.org_id))
        ∷ (codes "account_id", text (F.str_uuid a.id))
        ∷ (codes "lookback_days", number (positive (smart_lookback now a.last_sync_at)))
        ∷ []))

  -- The loop, and the number of jobs that it has queued.
  unfoldable pub enqueue_accounts : ℕ → ℕ → List CloudAccount → ℕ → JobStore → ℕ × JobStore
  unfolding lpush set_lock
  enqueue_accounts now bucket [] queued s = (queued, s)
  enqueue_accounts now bucket (a ∷ accounts) queued s =
      let key = schedule_lock_key bucket a in
      let skipped = enqueue_accounts now bucket accounts queued s in
      let added =
        enqueue_accounts now bucket accounts (suc queued)
          (lpush ingestion (sync_payload now a) (set_lock key true s)) in
      if s.locks key then skipped else added

  unfoldable pub enqueue_periodic_sync_jobs : ℕ → ℕ → JobStore → ℕ × JobStore
  unfolding enqueue_accounts
  enqueue_periodic_sync_jobs now interval_seconds s =
      enqueue_accounts now (bucket_of now interval_seconds) (select is_eligible s.accounts) 0 s

  -- Every account of the list has its lock for the bucket.
  abbrev Locked : ℕ → JobStore → List CloudAccount → Type 0
  Locked bucket s accounts = All (λ a. s.locks (schedule_lock_key bucket a) ≡ true) accounts

  nothing_queued :
      (now bucket : ℕ) (accounts : List CloudAccount) (queued : ℕ) (s : JobStore)
      → Locked bucket s accounts
      → enqueue_accounts now bucket accounts queued s ≡ (queued, s)
  unfolding enqueue_accounts
  nothing_queued now bucket [] queued s h = refl
  nothing_queued now bucket (a ∷ accounts) queued s h =
      rw h.0 (nothing_queued now bucket accounts queued s h.1)

  enqueue_accounts-keeps :
      (now bucket : ℕ) (accounts : List CloudAccount) (queued : ℕ) (s : JobStore) (key : Text)
      → s.locks key ≡ true
      → (enqueue_accounts now bucket accounts queued s).1.locks key ≡ true
  unfolding enqueue_accounts
  enqueue_accounts-keeps now bucket [] queued s key h = h
  enqueue_accounts-keeps now bucket (a ∷ accounts) queued s key h =
      let mine = schedule_lock_key bucket a in
      let next = lpush ingestion (sync_payload now a) (set_lock mine true s) in
      elim (Bool-cases (s.locks mine)) [
        | inl held ↦ rw held (enqueue_accounts-keeps now bucket accounts queued s key h)
        | inr free ↦ rw free (
            enqueue_accounts-keeps now bucket accounts (suc queued) next key
              (still key mine (s.locks key) h))
      ]

  enqueue_accounts-Locked :
      (now bucket : ℕ) (accounts : List CloudAccount) (queued : ℕ) (s : JobStore)
      → Locked bucket (enqueue_accounts now bucket accounts queued s).1 accounts
  unfolding enqueue_accounts
  enqueue_accounts-Locked now bucket [] queued s = tt
  enqueue_accounts-Locked now bucket (a ∷ accounts) queued s =
      let mine = schedule_lock_key bucket a in
      let next = lpush ingestion (sync_payload now a) (set_lock mine true s) in
      elim (Bool-cases (s.locks mine)) [
        | inl held ↦
            let step : enqueue_accounts now bucket accounts queued s
                ≡ enqueue_accounts now bucket (a ∷ accounts) queued s =
              rw held refl in
            subst (λ (r : ℕ × JobStore). Locked bucket r.1 (a ∷ accounts)) step
              (
                enqueue_accounts-keeps now bucket accounts queued s mine held,
                enqueue_accounts-Locked now bucket accounts queued s,
              )
        | inr free ↦
            let step : enqueue_accounts now bucket accounts (suc queued) next
                ≡ enqueue_accounts now bucket (a ∷ accounts) queued s =
              rw free refl in
            subst (λ (r : ℕ × JobStore). Locked bucket r.1 (a ∷ accounts)) step
              (
                enqueue_accounts-keeps now bucket accounts (suc queued) next mine
                    (rw (text_eq_refl mine) refl),
                enqueue_accounts-Locked now bucket accounts (suc queued) next,
              )
      ]

  -- The same account, as far as the lock names it.
  abbrev pub same_account : CloudAccount → CloudAccount → Bool
  same_account a b = b.id == a.id && b.org_id == a.org_id

  same_lock :
      (bucket : ℕ) (a b : CloudAccount)
      → same_account a b ≡ true
      → schedule_lock_key bucket b ≡ schedule_lock_key bucket a
  same_lock bucket a b same =
      let id : b.id ≡ a.id = ground (arith, same) in
      let org : b.org_id ≡ a.org_id = ground (arith, same) in rw (id, org) refl

  lock_of_listed :
      (bucket : ℕ) (s : JobStore) (a : CloudAccount) (accounts : List CloudAccount)
      → Locked bucket s accounts
      → any_row (same_account a) accounts ≡ true
      → s.locks (schedule_lock_key bucket a) ≡ true
  lock_of_listed bucket s a [] locked h = absurd (cc h)
  lock_of_listed bucket s a (b ∷ accounts) locked h = elim (Bool-cases (same_account a b)) [
    | inl same ↦ ap s.locks (sym (same_lock bucket a b same)) ∙ locked.0
    | inr other ↦ lock_of_listed bucket s a accounts locked.1 (rw other at h)
  ]

  -- The scheduler has run, and runs again, at any time of the same bucket and in any store in
  -- which the locks of the bucket that were held after the first run are still held (Redis keeps
  -- them for longer than a bucket lasts), and every eligible account was already eligible at the
  -- first run, whatever else has changed in the queues or in the accounts: then it queues nothing
  -- and changes nothing.
  pub enqueue_periodic_sync_jobs_once :
      (now later interval_seconds : ℕ) (s t : JobStore)
      → bucket_of later interval_seconds ≡ bucket_of now interval_seconds
      → ((a : CloudAccount)
          → let key = schedule_lock_key (bucket_of now interval_seconds) a in
            (enqueue_periodic_sync_jobs now interval_seconds s).1.locks key ≡ true
            → t.locks key ≡ true)
      → All
          (λ a. any_row (same_account a) (select is_eligible s.accounts) ≡ true)
          (select is_eligible t.accounts)
      → enqueue_periodic_sync_jobs later interval_seconds t ≡ (0, t)
  unfolding enqueue_periodic_sync_jobs
  enqueue_periodic_sync_jobs_once now later interval_seconds s t same_bucket held known =
      let bucket = bucket_of now interval_seconds in
      let before = select is_eligible s.accounts in
      let first = (enqueue_accounts now bucket before 0 s).1 in
      let locked =
        All-map (λ a. any_row (same_account a) before ≡ true)
          (λ a. t.locks (schedule_lock_key bucket a) ≡ true) (select is_eligible t.accounts)
          (λ a listed. held a (
            lock_of_listed bucket first a before (enqueue_accounts-Locked now bucket before 0 s)
              listed))
          known in
      ap (λ b. enqueue_accounts later b (select is_eligible t.accounts) 0 t) same_bucket
      ∙ nothing_queued later bucket (select is_eligible t.accounts) 0 t locked
