-- ===== src/Idempotency/Tests.antt =====
-- Idempotent requests at work, against a Redis that is a list of its writes, and the theorems about
-- them at concrete requests.
use cau_sium.Prelude.{
  ℕ, suc, zero, String, ◌≡◌, ◌≢◌, refl, sym, ap, true, false, Bool, Option, none, some, List, [],
  ◌∷◌, Text, codes, text_eq, text_eq_refl, text_eq→eq, err, http, All, arith, not_true,
  if◌then◌else◌,
}
use cau_sium.Prelude.Actions.{in_transaction}
use cau_sium.Audit.{Stamp, null}
use cau_sium.Policy.{SessionContext, viewer}
use cau_sium.Experiments.{Store, ExperimentCreate, get}
use cau_sium.Experiments.Endpoints.{CurrentUser, Ticket, approve_experiment}
use cau_sium.Idempotency.{Redis, Json, Envelope}
use cau_sium.Idempotency.Keys.{UuidText, build_scope_key_injective}
use cau_sium.Idempotency.Endpoints.{create_experiment, approve_with_key}
use cau_sium.Idempotency.Replay.{
  Works, RoundTrips, create_experiment_replayed, failed_approval_blocks_retry,
}

read : Text → List (Text × Text) → Option Text
read k [] = none
read k ((j, v) ∷ db) = if text_eq j k then some v else read k db

abbrev is_free : Option Text → Bool
is_free none = true
is_free (some v) = false

abbrev memory : Redis
memory = record {
  Db = List (Text × Text);
  get = λ k db. some (read k db);
  set = λ k v seconds db. (some true, (k, v) ∷ db);
  set_nx =
      λ k v seconds db. if is_free (read k db) then (some true, (k, v) ∷ db) else (some false, db);
}

memory-Works : Works memory
unfolding read
memory-Works = record {
  get-set = λ k v seconds db. rw (text_eq_refl k) refl;
  get-set_other = λ j k v seconds db differs.
      rw (not_true (text_eq k j) (λ e. differs (sym (text_eq→eq k j e)))) refl;
  set_nx_free = λ k v seconds db free. let empty : read k db ≡ none = cc in rw empty refl;
}

abbrev answer : Envelope
answer = record { status_code = 201; payload = null }

-- Every answer of these runs is the same.
abbrev json : Json
json = record { dumps = λ e. b'!' ∷ []; loads = λ text. some answer }

json-RoundTrips : RoundTrips json answer
json-RoundTrips = record { loads-dumps = refl; dumps_nonempty = λ e. cc e }

-- The id in the unary system.
unary : ℕ → Text
unary zero = b'a' ∷ []
unary (suc n) = b'a' ∷ unary n

unary-injective : (a b : ℕ) → unary a ≡ unary b → a ≡ b
unfolding unary
unary-injective zero zero e = refl
unary-injective zero (suc zero) e = absurd (cc e)
unary-injective zero (suc (suc b)) e = absurd (cc e)
unary-injective (suc zero) zero e = absurd (cc e)
unary-injective (suc (suc a)) zero e = absurd (cc e)
unary-injective (suc a) (suc b) e = ap suc (unary-injective a b (cc))

unary_no_colon : (a : ℕ) → All (λ c. c ≢ b':') (unary a)
unfolding unary
unary_no_colon zero = omega arith
unary_no_colon (suc n) = (omega arith, unary_no_colon n)

first_char : Text → ℕ
first_char [] = 0
first_char (c ∷ s) = c

unary_not_dash : (a : ℕ) → unary a ≢ codes "-"
unfolding unary first_char
unary_not_dash zero e = let heads = ap first_char e in absurd (omega (arith, heads))
unary_not_dash (suc n) e = let heads = ap first_char e in absurd (omega (arith, heads))

abbrev uuids : UuidText
uuids = record {
  str_uuid = unary;
  injective = unary-injective;
  no_colon = unary_no_colon;
  not_dash = unary_not_dash;
}

abbrev names : ℕ → String
names n = "id"

abbrev at : ℕ → ℕ → Stamp
at now id = record { now = now; id = id }

abbrev boss : CurrentUser
boss = record { id = 3; org_id = 0; role = viewer }

abbrev calm : SessionContext
calm = record {
  session_risk = codes "low";
  maintenance_window = false;
  geo_velocity_high = false;
  device_trusted = true;
}

abbrev ticket : Ticket
ticket = record { bundle = at 5 30; evidence = at 5 31; row = at 5 32; decision_id = 33 }

abbrev request : ExperimentCreate
request = record {
  title = "smaller nodes";
  hypothesis = none;
  description = none;
  opportunity_id = none;
  risk_budget_id = none;
  guardrails = none;
  causal_change_event_ids = none;
  target_environment = "staging";
  target_criticality = "medium";
}

abbrev nothing : Store
nothing = record {
  experiments = [];
  approvals = [];
  runs = [];
  policy = record { bundles = []; evidences = [] };
  audit = [];
}

create_experiment_replayed_example :
    let first =
      create_experiment memory json uuids names boss
        (λ e. null)
        (at 1 7)
        (some (codes "k"))
        (codes "fp")
        request
        nothing
        [] in
    create_experiment memory json uuids names boss
      (λ e. null)
      (at 2 8)
      (some (codes "k"))
      (codes "fp")
      request
      first.1
      first.2
    ≡ first
unfolding read
create_experiment_replayed_example =
    create_experiment_replayed memory json uuids names boss b'k' [] (codes "fp") (λ e. null)
      (at 1 7) (at 2 8) request request nothing [] memory-Works json-RoundTrips refl

approval_fails :
    (in_transaction (approve_experiment names boss calm ticket 7 none) nothing).0
    ≡ err (http 404 "Experiment not found")
unfolding in_transaction approve_experiment get
approval_fails = refl

failed_approval_blocks_retry_example :
    let first =
      approve_with_key memory json uuids names boss
        (λ e. null)
        calm
        ticket
        (some (codes "k"))
        (codes "fp")
        7
        none
        nothing
        [] in
    approve_with_key memory json uuids names boss
      (λ e. null)
      calm
      ticket
      (some (codes "k"))
      (codes "fp")
      7
      none
      nothing
      first.2
    ≡ (
      err (http 409 "Request with this Idempotency-Key is still being processed"),
      nothing,
      first.2,
    )
unfolding read
failed_approval_blocks_retry_example =
    failed_approval_blocks_retry memory json uuids names boss b'k' [] (codes "fp") (λ e. null) calm
      calm ticket ticket 7 none none nothing nothing [] (http 404 "Experiment not found")
      memory-Works refl refl approval_fails

-- Every command raises.
abbrev broken : Redis
broken = record {
  Db = Unit;
  get = λ k db. none;
  set = λ k v seconds db. (none, db);
  set_nx = λ k v seconds db. (none, db);
}

build_scope_key_injective_example :
    (◌≡◌ {A = ℕ} 0 0)
    × (◌≡◌ {A = ℕ} 3 3)
    × (codes "experiments.create" ≡ codes "experiments.create")
    × (◌≡◌ {A = Option ℕ} none none)
    × (codes "a:b" ≡ codes "a:b")
build_scope_key_injective_example =
    build_scope_key_injective uuids 0 0 3 3 (codes "experiments.create")
      (codes "experiments.create") none none (codes "a:b") (codes "a:b") (omega arith) (omega arith)
      refl
