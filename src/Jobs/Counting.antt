-- ===== src/Jobs/Counting.antt =====
-- The attempts that are left to the payloads of a queue: `retry_key` and the counters of
-- backend/app/workers/job_runtime.py.
use cau_sium.Prelude.{
  ℕ, ◌+◌, ◌-◌, ◌*◌, ◌≤◌, ◌≡◌, refl, ap, subst, inl, inr, true, false, Bool, List, [], ◌∷◌, Text,
  arith, Bool-cases, All, length, text_eq, text_eq_refl, text_eq→eq, text_in, if◌then◌else◌, ◌||◌,
}
use cau_sium.Jobs.{Queue, ingestion, scoring, carbon, set_at, retry_key}

later : (a : Bool) {b : Bool} → b ≡ true → (a || b) ≡ true
later true h = refl
later false h = h

-- The keys of two payloads of a queue are the same just if the payloads are.
retry_key-same : (q : Queue) (a b : Text) → text_eq (retry_key q a) (retry_key q b) ≡ text_eq a b
unfolding retry_key
retry_key-same ingestion a b = refl
retry_key-same scoring a b = refl
retry_key-same carbon a b = refl

text_eq_comm : (a b : Text) → text_eq a b ≡ text_eq b a
text_eq_comm [] [] = refl
text_eq_comm [] (d ∷ b) = refl
text_eq_comm (c ∷ a) [] = refl
text_eq_comm (c ∷ a) (d ∷ b) = ground (arith, text_eq_comm a b)

-- No text is listed twice.
abbrev pub Distinct : List Text → Type 0
Distinct [] = Unit
Distinct (p ∷ ps) = (text_in p ps ≡ false) × Distinct ps

-- The failures that the listed payloads can still have without going to the dead letters.
abbrev pub slack : Queue → List Text → (Text → ℕ) → ℕ
slack q [] counters = 0
slack q (p ∷ ps) counters = (2 - counters (retry_key q p)) + slack q ps counters

set_at-key :
    (q : Queue) (p x : Text) (n : ℕ) (counters : Text → ℕ)
    → set_at (retry_key q p) n counters (retry_key q x)
      ≡ (if text_eq p x then n else counters (retry_key q x))
set_at-key q p x n counters = rw (retry_key-same q x p, text_eq_comm x p) refl

pub slack-set_other :
    (q : Queue) (p : Text) (n : ℕ) (ps : List Text) (counters : Text → ℕ)
    → text_in p ps ≡ false
    → slack q ps (set_at (retry_key q p) n counters) ≡ slack q ps counters
slack-set_other q p n [] counters absent = refl
slack-set_other q p n (x ∷ ps) counters absent =
    ground (arith, set_at-key q p x n counters, slack-set_other q p n ps counters)

same_count :
    (q : Queue) (p x : Text) (counters : Text → ℕ)
    → text_eq p x ≡ true
    → counters (retry_key q p) ≡ counters (retry_key q x)
same_count q p x counters same = ap (λ y. counters (retry_key q y)) (text_eq→eq p x same)

pub slack-set_listed :
    (q : Queue) (p : Text) (n : ℕ) (ps : List Text) (counters : Text → ℕ)
    → Distinct ps
    → text_in p ps ≡ true
    → slack q ps (set_at (retry_key q p) n counters) + (2 - counters (retry_key q p))
      ≡ slack q ps counters + (2 - n)
slack-set_listed q p n [] counters distinct listed = absurd (cc listed)
slack-set_listed q p n (x ∷ ps) counters distinct listed = elim (Bool-cases (text_eq p x)) [
  | inl same ↦
      let here : set_at (retry_key q p) n counters (retry_key q x) ≡ n =
        rw (set_at-key q p x n counters, same) refl in
      let absent : text_in p ps ≡ false = rw (text_eq→eq p x same) distinct.0 in
      rw (here, slack-set_other q p n ps counters absent, same_count q p x counters same)
        (omega arith)
  | inr other ↦
      let there : set_at (retry_key q p) n counters (retry_key q x) ≡ counters (retry_key q x) =
        rw (set_at-key q p x n counters, other) refl in
      rw there (omega (arith, slack-set_listed q p n ps counters distinct.1 (rw other at listed)))
]

pub slack_bound :
    (q : Queue) (ps : List Text) (counters : Text → ℕ) → slack q ps counters ≤ 2 * length ps
slack_bound q [] counters = omega arith
slack_bound q (p ∷ ps) counters = omega (arith, slack_bound q ps counters)

-- The texts of a list, each once.
abbrev pub once : List Text → List Text
once [] = []
once (p ∷ ps) = let rest = once ps in if text_in p rest then rest else p ∷ rest

pub once-Distinct : (ps : List Text) → Distinct (once ps)
once-Distinct [] = tt
once-Distinct (p ∷ ps) = elim (Bool-cases (text_in p (once ps))) [
  | inl known ↦ rw known (once-Distinct ps)
  | inr new ↦ rw new (new, once-Distinct ps)
]

pub length-once : (ps : List Text) → length (once ps) ≤ length ps
length-once [] = omega arith
length-once (p ∷ ps) = ground (arith, length-once ps)

abbrev pub Listed : List Text → List Text → Type 0
Listed ps queue = All (λ raw. text_in raw ps ≡ true) queue

Listed-∷ : (p : Text) (ps queue : List Text) → Listed ps queue → Listed (p ∷ ps) queue
Listed-∷ p ps [] h = tt
Listed-∷ p ps (raw ∷ queue) h = (later (text_eq raw p) h.0, Listed-∷ p ps queue h.1)

pub once-Listed : (ps : List Text) → Listed (once ps) ps
once-Listed [] = tt
once-Listed (p ∷ ps) = elim (Bool-cases (text_in p (once ps))) [
  | inl known ↦
      let same : once ps ≡ once (p ∷ ps) = rw known refl in
      subst (λ qs. Listed qs (p ∷ ps)) same (known, once-Listed ps)
  | inr new ↦
      let longer : p ∷ once ps ≡ once (p ∷ ps) = rw new refl in
      subst (λ qs. Listed qs (p ∷ ps)) longer
        (rw (text_eq_refl p) refl, Listed-∷ p (once ps) ps (once-Listed ps))
]
