-- ===== src/Idempotency/Replay.antt =====
-- What repeated requests come to: a success is replayed, a failure is not forgotten, and what
-- happens without a working Redis.
use cau_sium.Prelude.{
  ℕ, String, ◌≡◌, ◌≢◌, refl, sym, ap, ◌∙◌, true, Option, none, some, [], ◌∷◌, Text, codes, text_eq,
  text_eq_refl, text_eq→eq, ok, err, http, Failure, not_true,
}
use mathlib.Core.List.{append_cancel_left}
use cau_sium.Prelude.Actions.{Action, in_transaction}
use cau_sium.Audit.{Stamp, Payload}
use cau_sium.Policy.{SessionContext}
use cau_sium.Experiments.{
  Store, Experiment, ExperimentApproval, ExperimentCreate, create, new_experiment,
}
use cau_sium.Experiments.Endpoints.{CurrentUser, Ticket, approve_experiment}
use cau_sium.Idempotency.{
  Redis, Json, Envelope, fresh, conflict, replay, prepare_request, store_response, req_key,
  resp_key, ttl, disabled_redis, cached_answer,
}
use cau_sium.Idempotency.Keys.{UuidText}
use cau_sium.Idempotency.Endpoints.{
  Reply, created_answer, keyed, create_experiment, approve_with_key, create_scope, approve_scope,
}

-- A Redis that answers, and where no key expires between the requests.
pub record Works (R : Redis) : Type 0 where
  pub get-set :
      (k v : Text) (seconds : ℕ) (db : R.Db) → R.get k (R.set k v seconds db).1 ≡ some (some v)
  pub get-set_other :
      (j k v : Text) (seconds : ℕ) (db : R.Db)
      → j ≢ k
      → R.get j (R.set k v seconds db).1 ≡ R.get j db
  pub set_nx_free :
      (k v : Text) (seconds : ℕ) (db : R.Db)
      → R.get k db ≡ some none
      → R.set_nx k v seconds db ≡ (some true, (R.set k v seconds db).1)

-- `json.loads` reads the answer from what `json.dumps` wrote of it, which is not empty.
pub record RoundTrips (J : Json) (e : Envelope) : Type 0 where
  pub loads-dumps : J.loads (J.dumps e) ≡ some e
  pub dumps_nonempty : J.dumps e ≢ []

keys_differ : (scope : Text) → req_key scope ≢ resp_key scope
keys_differ scope e = let tails = append_cancel_left scope (codes ":req") (codes ":resp") e in cc

module _ (R : Redis) (J : Json) (scope fp : Text) where
  prepare_request_known :
      (db : R.Db)
      → R.get (req_key scope) db ≡ some (some fp)
      → prepare_request R J scope fp db ≡ (cached_answer J (R.get (resp_key scope) db), db)
  unfolding prepare_request
  prepare_request_known db known = rw (known, text_eq_refl fp) refl

  prepare_request_conflict :
      (db : R.Db) (other : Text)
      → R.get (req_key scope) db ≡ some (some other)
      → other ≢ fp
      → prepare_request R J scope fp db ≡ (conflict, db)
  unfolding prepare_request
  prepare_request_conflict db other known differs =
      let no_match = not_true (text_eq other fp) (λ e. differs (text_eq→eq other fp e)) in
      rw (known, no_match) refl

  prepare_request_fresh :
      (works : Works R) (db : R.Db)
      → R.get (req_key scope) db ≡ some none
      → prepare_request R J scope fp db ≡ (fresh, (R.set (req_key scope) fp ttl db).1)
  unfolding prepare_request
  prepare_request_fresh works db free =
      rw (free, works.set_nx_free (req_key scope) fp ttl db free) refl

module _ (R : Redis) (J : Json) (scope fp : Text) where
  prepare_request_down :
      (db : R.Db) → R.get (req_key scope) db ≡ none → prepare_request R J scope fp db ≡ (fresh, db)
  unfolding prepare_request
  prepare_request_down db down = rw down refl

cached_answer_text :
    (J : Json) (e : Envelope) (text : Text)
    → text ≢ []
    → J.loads text ≡ some e
    → cached_answer J (some (some text)) ≡ replay e
unfolding cached_answer
cached_answer_text J e [] filled loads = absurd (filled refl)
cached_answer_text J e (c ∷ text) filled loads = rw (loads, cached_answer) refl

module _ (R : Redis) (J : Json) (works : Works R) {A : Type 0} (out : A → Payload) (scope fp : Text)
    (handler : Action Store A) (s : Store) (db : R.Db)
    (free : R.get (req_key scope) db ≡ some none) where
  first_success :
      (a : A) (t : Store)
      → in_transaction handler s ≡ (ok a, t)
      → keyed R J out (some scope) fp handler s db ≡ (
        ok (created_answer (out a)),
        t,
        store_response R J scope 201 (out a) (R.set (req_key scope) fp ttl db).1,
      )
  unfolding keyed
  first_success a t done = rw (prepare_request_fresh R J scope fp works db free, done) refl

  first_failure :
      (e : Failure) (t : Store)
      → in_transaction handler s ≡ (err e, t)
      → keyed R J out (some scope) fp handler s db ≡ (err e, t, (R.set (req_key scope) fp ttl db).1)
  unfolding keyed
  first_failure e t failed = rw (prepare_request_fresh R J scope fp works db free, failed) refl

  -- After a success, the same request is answered from Redis, whatever its handler would do.
  second_replays :
      (a : A) (round : RoundTrips J (created_answer (out a))) (t : Store) (again : Action Store A)
      (u : Store)
      → in_transaction handler s ≡ (ok a, t)
      → let after = (keyed R J out (some scope) fp handler s db).2 in
        keyed R J out (some scope) fp again u after ≡ (ok (created_answer (out a)), u, after)
  unfolding keyed store_response
  second_replays a round t again u done =
      let claim = (R.set (req_key scope) fp ttl db).1 in
      let answer = created_answer (out a) in
      let after = (R.set (resp_key scope) (J.dumps answer) ttl claim).1 in
      let known : R.get (req_key scope) after ≡ some (some fp) =
        works.get-set_other (req_key scope) (resp_key scope) (J.dumps answer) ttl claim
          (keys_differ scope)
        ∙ works.get-set (req_key scope) fp ttl db in
      let stored : R.get (resp_key scope) after ≡ some (some (J.dumps answer)) =
        works.get-set (resp_key scope) (J.dumps answer) ttl claim in
      let cached =
        cached_answer_text J answer (J.dumps answer) round.dumps_nonempty round.loads-dumps in
      rw (first_success a t done, prepare_request_known R J scope fp after known, stored, cached)
        refl

  -- After a failure, the same request is refused, whatever its handler would do.
  second_refused :
      (e : Failure) (t : Store) (again : Action Store A) (u : Store)
      → R.get (resp_key scope) db ≡ some none
      → in_transaction handler s ≡ (err e, t)
      → let after = (keyed R J out (some scope) fp handler s db).2 in
        keyed R J out (some scope) fp again u after
        ≡ (err (http 409 "Request with this Idempotency-Key is still being processed"), u, after)
  unfolding keyed
  second_refused e t again u unanswered failed =
      let after = (R.set (req_key scope) fp ttl db).1 in
      let known = works.get-set (req_key scope) fp ttl db in
      let no_answer : R.get (resp_key scope) after ≡ some none =
        works.get-set_other (resp_key scope) (req_key scope) fp ttl db
          (λ e. keys_differ scope (sym e))
        ∙ unanswered in
      rw (first_failure e t failed, prepare_request_known R J scope fp after known, no_answer) refl

  -- After a success, another request under the same key is a conflict.
  other_conflicts :
      (a : A) (t : Store) (other : Text) (again : Action Store A) (u : Store)
      → fp ≢ other
      → in_transaction handler s ≡ (ok a, t)
      → let after = (keyed R J out (some scope) fp handler s db).2 in
        keyed R J out (some scope) other again u after
        ≡ (err (http 409 "Idempotency-Key already used with a different request payload"), u, after)
  unfolding keyed store_response
  other_conflicts a t other again u differs done =
      let claim = (R.set (req_key scope) fp ttl db).1 in
      let text = J.dumps (created_answer (out a)) in
      let after = (R.set (resp_key scope) text ttl claim).1 in
      let known : R.get (req_key scope) after ≡ some (some fp) =
        works.get-set_other (req_key scope) (resp_key scope) text ttl claim (keys_differ scope)
        ∙ works.get-set (req_key scope) fp ttl db in
      rw (first_success a t done, prepare_request_conflict R J scope other after fp known differs)
        refl

create_succeeds :
    (str_uuid : ℕ → String) (stamp : Stamp) (org_id owner_id : ℕ) (req : ExperimentCreate)
    (s : Store)
    → in_transaction (create str_uuid stamp org_id owner_id req) s ≡ (
      ok (new_experiment stamp org_id owner_id req),
      (create str_uuid stamp org_id owner_id req s).1,
    )
unfolding create in_transaction
create_succeeds str_uuid stamp org_id owner_id req s = refl

module _ (R : Redis) (J : Json) (U : UuidText) (str_uuid : ℕ → String) (user : CurrentUser) (c : ℕ)
    (key fp : Text) where
  -- With a Redis that works, a creation under an Idempotency-Key that is not in use, repeated with
  -- the same fingerprint, gets the same answer, and neither the database nor Redis changes again.
  pub create_experiment_replayed :
      (out : Experiment → Payload) (stamp stamp' : Stamp) (req req' : ExperimentCreate) (s : Store)
      (db : R.Db)
      → Works R
      → RoundTrips J (created_answer (out (new_experiment stamp user.org_id user.id req)))
      → R.get (req_key (create_scope R J U str_uuid user (c ∷ key))) db ≡ some none
      → let first = create_experiment R J U str_uuid user out stamp (some (c ∷ key)) fp req s db in
        create_experiment R J U str_uuid user out stamp' (some (c ∷ key)) fp req' first.1 first.2
        ≡ first
  unfolding create_experiment
  create_experiment_replayed out stamp stamp' req req' s db works round free =
      let scope = create_scope R J U str_uuid user (c ∷ key) in
      let first = create str_uuid stamp user.org_id user.id req in
      let again = create str_uuid stamp' user.org_id user.id req' in
      let done = create_succeeds str_uuid stamp user.org_id user.id req s in
      let answer = first_success R J works out scope fp first s db free _ _ done in
      let after = keyed R J out (some scope) fp first s db in
      second_replays R J works out scope fp first s db free _ round _ again after.1 done
      ∙ (λ i. (sym (ap (λ (r : Reply R). r.0) answer) i, after.1, after.2))

  -- With a Redis that works, a second creation under the key of a first one, but with another
  -- fingerprint, is refused with 409 and changes nothing.
  pub create_experiment_conflicts :
      (out : Experiment → Payload) (stamp stamp' : Stamp) (req req' : ExperimentCreate) (s : Store)
      (db : R.Db) (other : Text)
      → Works R
      → R.get (req_key (create_scope R J U str_uuid user (c ∷ key))) db ≡ some none
      → fp ≢ other
      → let first = create_experiment R J U str_uuid user out stamp (some (c ∷ key)) fp req s db in
        create_experiment R J U str_uuid user out stamp' (some (c ∷ key)) other req' first.1 first.2
        ≡ (
          err (http 409 "Idempotency-Key already used with a different request payload"),
          first.1,
          first.2,
        )
  unfolding create_experiment
  create_experiment_conflicts out stamp stamp' req req' s db other works free differs =
      let scope = create_scope R J U str_uuid user (c ∷ key) in
      let first = create str_uuid stamp user.org_id user.id req in
      let again = create str_uuid stamp' user.org_id user.id req' in
      let done = create_succeeds str_uuid stamp user.org_id user.id req s in
      other_conflicts R J works out scope fp first s db free _ _ other again
        (keyed R J out (some scope) fp first s db).1 differs done

  -- With a Redis that works, if an approval under an Idempotency-Key that is not in use raises, then
  -- the same request is refused with 409 as still being processed, whatever has changed in the
  -- database and in the session in the meantime: a failure keeps the key, and stores no answer.
  pub failed_approval_blocks_retry :
      (out : ExperimentApproval → Payload) (session session' : SessionContext) (t t' : Ticket)
      (id : ℕ) (note note' : Option String) (s u : Store) (db : R.Db) (e : Failure)
      → Works R
      → R.get (req_key (approve_scope R J U str_uuid user id (c ∷ key))) db ≡ some none
      → R.get (resp_key (approve_scope R J U str_uuid user id (c ∷ key))) db ≡ some none
      → (in_transaction (approve_experiment str_uuid user session t id note) s).0 ≡ err e
      → let first =
          approve_with_key R J U str_uuid user out session t (some (c ∷ key)) fp id note s db in
        approve_with_key R J U str_uuid user out session' t' (some (c ∷ key)) fp id note' u first.2
        ≡ (err (http 409 "Request with this Idempotency-Key is still being processed"), u, first.2)
  unfolding approve_with_key
  failed_approval_blocks_retry out session session' t t' id note note' s u db e works free
        unanswered failed =
      let scope = approve_scope R J U str_uuid user id (c ∷ key) in
      let first = approve_experiment str_uuid user session t id note in
      let again = approve_experiment str_uuid user session' t' id note' in
      let result = in_transaction first s in
      second_refused R J works out scope fp first s db free e result.1 again u unanswered
        (λ i. (failed i, result.1))

  -- If Redis raises on the first read, a creation under an Idempotency-Key has the answer and the
  -- database of the same creation without a key.
  pub create_experiment_fails_open :
      (out : Experiment → Payload) (stamp : Stamp) (req : ExperimentCreate) (s : Store) (db : R.Db)
      → R.get (req_key (create_scope R J U str_uuid user (c ∷ key))) db ≡ none
      → let with_key =
          create_experiment R J U str_uuid user out stamp (some (c ∷ key)) fp req s db in
        let without = create_experiment R J U str_uuid user out stamp none fp req s db in
        (with_key.0 ≡ without.0) × (with_key.1 ≡ without.1)
  unfolding create_experiment
  create_experiment_fails_open out stamp req s db down =
      let scope = create_scope R J U str_uuid user (c ∷ key) in
      rw
        (
          prepare_request_down R J scope fp db down,
          create_succeeds str_uuid stamp user.org_id user.id req s,
        )
        (refl, refl)

-- Where no Redis is configured, every creation under an Idempotency-Key is refused with 409 as a
-- conflict, and changes nothing.
pub create_experiment_without_redis :
    (J : Json) (U : UuidText) (str_uuid : ℕ → String) (user : CurrentUser)
    (out : Experiment → Payload) (stamp : Stamp) (c : ℕ) (key fp : Text) (req : ExperimentCreate)
    (s : Store)
    → create_experiment disabled_redis J U str_uuid user out stamp (some (c ∷ key)) fp req s tt
      ≡ (err (http 409 "Idempotency-Key already used with a different request payload"), s, tt)
unfolding create_experiment
create_experiment_without_redis J U str_uuid user out stamp c key fp req s = refl
