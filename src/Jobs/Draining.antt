-- ===== src/Jobs/Draining.antt =====
-- Every queue runs empty if nothing is added from outside: the loops of backend/app/workers.
use cau_sium.Prelude.{
  ℕ, suc, ◌+◌, ◌*◌, ◌<◌, ◌≤◌, ◌≡◌, ◌∙◌, ◌⊎◌, refl, ap, subst, inl, inr, true, List, [], ◌∷◌, Text,
  arith, All, All-append, length, length-append, text_in,
}
use cau_sium.Jobs.Parsing.{Formats}
use cau_sium.Jobs.{
  Queue, JobStore, Outcome, set_at, set_queue, retry_key, max_retries, process, process_next, tick,
  run_worker,
}
use cau_sium.Jobs.Settling.{Settled, dropped, finished, retried, process-Settled, same_queue_self}
use cau_sium.Jobs.Counting.{
  Distinct, slack, slack-set_listed, slack_bound, once, once-Distinct, once-Listed, length-once,
  Listed,
}

pub List-cases : (l : List Text) → (l ≡ []) ⊎ ((x : Text) × (xs : List Text) × (l ≡ x ∷ xs))
List-cases [] = inl refl
List-cases (x ∷ xs) = inr (x, xs, refl)

-- No counter has reached the limit of attempts.
abbrev pub Below : (Text → ℕ) → Type 0
Below counters = (key : Text) → counters key < max_retries

Below-set :
    (key : Text) (n : ℕ) (counters : Text → ℕ)
    → n < max_retries
    → Below counters
    → Below (set_at key n counters)
Below-set key n counters small below k = ground (arith, below k)

pub Settled-Below :
    {key raw : Text} {queue later : List Text} {counters after : Text → ℕ}
    → Settled key raw queue counters later after
    → Below counters
    → Below after
Settled-Below {key} {counters} (dropped e e') below = rw e' below
Settled-Below {key} {counters} (finished e e') below =
    rw e' (Below-set key 0 counters (omega arith) below)
Settled-Below {key} {counters} (retried e e' small) below =
    rw e' (Below-set key (suc (counters key)) counters small below)

-- What bounds the rounds that a queue takes.
abbrev potential : Queue → List Text → List Text → (Text → ℕ) → ℕ
potential q ps queue counters = 3 * length queue + slack q ps counters

Settled-shrinks :
    (q : Queue) (ps : List Text) (raw : Text) (queue later : List Text) (counters after : Text → ℕ)
    → Settled (retry_key q raw) raw queue counters later after
    → Below counters
    → Distinct ps
    → Listed ps (raw ∷ queue)
    → potential q ps later after < potential q ps (raw ∷ queue) counters
Settled-shrinks q ps raw queue later counters after (dropped e e') below distinct listed =
    rw (e, e') (omega arith)
Settled-shrinks q ps raw queue later counters after (finished e e') below distinct listed =
    rw (e, e')
      (omega
        (arith, slack-set_listed q raw 0 ps counters distinct listed.0, below (retry_key q raw)))
Settled-shrinks q ps raw queue later counters after (retried e e' small) below distinct listed =
    rw (e, e')
      (omega (
        arith,
        slack-set_listed q raw (suc (counters (retry_key q raw))) ps counters distinct listed.0,
        length-append queue (raw ∷ []),
        small,
      ))

-- What holds of the job and of the rest of the queue holds of the queue afterwards.
pub Settled-All {κ} :
    (P : Text → Type κ) {key raw : Text} {queue later : List Text} {counters after : Text → ℕ}
    → Settled key raw queue counters later after
    → All P (raw ∷ queue)
    → All P later
Settled-All P (dropped e e') all = rw e all.1
Settled-All P (finished e e') all = rw e all.1
Settled-All P {raw} {queue} (retried e e' small) all =
    rw e (All-append P queue (raw ∷ []) all.1 (all.0, tt))

module _ (F : Formats) where
  pub tick_empty :
      (q : Queue) (id : ℕ) (outcome : Outcome) (s : JobStore)
      → s.queues q ≡ []
      → tick F q id outcome s ≡ s
  unfolding tick
  tick_empty q id outcome s e = ap (λ l. process_next F q id outcome l s) e

  -- What a round does with the job that it takes.
  pub tick-Settled :
      (q : Queue) (id : ℕ) (outcome : Outcome) (s : JobStore) {raw : Text} {raws : List Text}
      → s.queues q ≡ raw ∷ raws
      → Settled
          (retry_key q raw)
          raw
          raws
          s.counters
          ((tick F q id outcome s).queues q)
          (tick F q id outcome s).counters
  unfolding tick set_queue
  tick-Settled q id outcome s {raw} {raws} e =
      let taken = set_queue q raws s in
      let done = process F q id outcome raw taken in
      let next : tick F q id outcome s ≡ done = ap (λ l. process_next F q id outcome l s) e in
      let rest : taken.queues q ≡ raws = rw (same_queue_self q) refl in
      rw next (
        subst
          (λ queue. Settled (retry_key q raw) raw queue s.counters (done.queues q) done.counters)
          rest (process-Settled F q id outcome raw taken))

  run_empty :
      (q : Queue) (rounds : List (ℕ × Outcome)) (s : JobStore)
      → s.queues q ≡ []
      → (run_worker F q rounds s).queues q ≡ []
  unfolding run_worker
  run_empty q [] s e = e
  run_empty q ((id, outcome) ∷ rounds) s e =
      ap (λ t. (run_worker F q rounds t).queues q) (tick_empty q id outcome s e)
      ∙ run_empty q rounds s e

  run_drains :
      (q : Queue) (ps : List Text) (rounds : List (ℕ × Outcome)) (s : JobStore)
      → Below s.counters
      → Distinct ps
      → Listed ps (s.queues q)
      → potential q ps (s.queues q) s.counters ≤ length rounds
      → (run_worker F q rounds s).queues q ≡ []
  unfolding run_worker
  run_drains q ps [] s below distinct listed enough = elim (List-cases (s.queues q)) [
    | inl empty ↦ empty
    | inr (raw, raws, e) ↦ absurd (omega (arith, enough, ap length e))
  ]
  run_drains q ps ((id, outcome) ∷ rounds) s below distinct listed enough =
      elim (List-cases (s.queues q)) [
        | inl empty ↦ run_empty q ((id, outcome) ∷ rounds) s empty
        | inr (raw, raws, e) ↦
            let settled = tick-Settled q id outcome s {raw = raw} {raws = raws} e in
            let t = tick F q id outcome s in
            let here : Listed ps (raw ∷ raws) = subst (Listed ps) e listed in
            let less =
              Settled-shrinks q ps raw raws (t.queues q) s.counters t.counters settled below
                distinct here in
            run_drains q ps rounds t (Settled-Below settled below) distinct
              (Settled-All (λ r. text_in r ps ≡ true) settled here)
              (omega (arith, less, enough, ap length e, ap (λ l. potential q ps l s.counters) e))
      ]

  -- If no counter has reached three, a worker empties its queue in at most five rounds for each
  -- job, however its jobs end, as long as nothing is added from outside.
  pub run_worker_drains :
      (q : Queue) (rounds : List (ℕ × Outcome)) (s : JobStore)
      → Below s.counters
      → 5 * length (s.queues q) ≤ length rounds
      → (run_worker F q rounds s).queues q ≡ []
  run_worker_drains q rounds s below enough =
      let ps = once (s.queues q) in
      run_drains q ps rounds s below (once-Distinct (s.queues q)) (once-Listed (s.queues q))
        (omega (arith, enough, slack_bound q ps s.counters, length-once (s.queues q)))
