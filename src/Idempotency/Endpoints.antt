-- ===== src/Idempotency/Endpoints.antt =====
-- The handlers of backend/app/domains/experiments/router.py that take an Idempotency-Key. A request
-- works on the database, in a transaction, and on Redis, of which nothing is rolled back.
use cau_sium.Prelude.{ℕ, String, Option, none, some, [], ◌∷◌, Text, codes, Result, ok, err, http}
use cau_sium.Prelude.Actions.{Action, in_transaction}
use cau_sium.Audit.{Stamp, Payload}
use cau_sium.Policy.{SessionContext}
use cau_sium.Experiments.{Store, Experiment, ExperimentApproval, ExperimentCreate, create}
use cau_sium.Experiments.Endpoints.{CurrentUser, Ticket, approve_experiment}
use cau_sium.Idempotency.{
  Redis, Json, Envelope, Prepared, fresh, conflict, in_progress, replay, prepare_request,
  store_response,
}
use cau_sium.Idempotency.Keys.{UuidText, build_scope_key}

-- `if idempotency_key: scope_key = build_scope_key(…)`
abbrev pub scope_of : Option Text → (Text → Text) → Option Text
scope_of none f = none
scope_of (some []) f = none
scope_of (some (c ∷ key)) f = some (f (c ∷ key))

-- An answer with its status, or an exception; the database, and Redis.
abbrev pub Reply : Redis → Type 0
Reply R = Result Envelope × Store × R.Db

abbrev pub created_answer : Payload → Envelope
created_answer payload = record { status_code = 201; payload = payload }

module _ (R : Redis) (J : Json) {A : Type 0} (out : A → Payload) where
  -- The answer of the handler, which is stored under the scope key.
  unfoldable pub finish : Option Text → R.Db → Result A × Store → Reply R
  unfolding store_response
  finish none db (ok a, s) = (ok (created_answer (out a)), s, db)
  finish (some scope) db (ok a, s) =
      (ok (created_answer (out a)), s, store_response R J scope 201 (out a) db)
  finish scope db (err e, s) = (err e, s, db)

  unfoldable pub proceed : Text → Action Store A → Store → Prepared × R.Db → Reply R
  unfolding finish
  proceed scope handler s (replay e, db) = (ok e, s, db)
  proceed scope handler s (conflict, db) =
      (err (http 409 "Idempotency-Key already used with a different request payload"), s, db)
  proceed scope handler s (in_progress, db) =
      (err (http 409 "Request with this Idempotency-Key is still being processed"), s, db)
  proceed scope handler s (fresh, db) = finish (some scope) db (handler s)

  unfoldable pub keyed : Option Text → Text → Action Store A → Store → R.Db → Reply R
  unfolding proceed prepare_request in_transaction
  keyed none fingerprint handler s db = finish none db (in_transaction handler s)
  keyed (some scope) fingerprint handler s db =
      proceed scope (in_transaction handler) s (prepare_request R J scope fingerprint db)

module _ (R : Redis) (J : Json) (U : UuidText) (str_uuid : ℕ → String) (user : CurrentUser) where
  abbrev pub create_scope : Text → Text
  create_scope key = build_scope_key U user.org_id user.id (codes "experiments.create") none key

  abbrev pub approve_scope : ℕ → Text → Text
  approve_scope experiment_id key =
      build_scope_key U user.org_id user.id (codes "experiments.approve") (some experiment_id) key

  -- `out` is `ExperimentOut.model_validate(exp).model_dump(mode="json")`.
  unfoldable pub create_experiment :
      (Experiment → Payload)
      → Stamp
      → Option Text
      → Text
      → ExperimentCreate
      → Store
      → R.Db
      → Reply R
  unfolding keyed
  create_experiment out stamp key fingerprint req =
      keyed R J out (scope_of key create_scope) fingerprint
        (create str_uuid stamp user.org_id user.id req)

  unfoldable pub approve_with_key :
      (ExperimentApproval → Payload)
      → SessionContext
      → Ticket
      → Option Text
      → Text
      → ℕ
      → Option String
      → Store
      → R.Db
      → Reply R
  unfolding keyed
  approve_with_key out session t key fingerprint experiment_id note =
      keyed R J out (scope_of key (approve_scope experiment_id)) fingerprint
        (approve_experiment str_uuid user session t experiment_id note)
