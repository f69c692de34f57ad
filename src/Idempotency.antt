-- ===== src/Idempotency.antt =====
-- Idempotent requests: backend/app/core/idempotency.py, and the client that stands in for Redis
-- where none is configured (backend/app/core/redis.py). Keys and fingerprints are texts.
pub mod Keys
pub mod Endpoints
pub mod Replay
mod Tests
use cau_sium.Prelude.{
  ℕ, ◌*◌, Bool, true, false, Option, none, some, List, [], ◌∷◌, ◌++◌, leb, Text, codes, text_eq,
  if◌then◌else◌, map, ◌&&◌, ◌-◌,
}
use cau_sium.Audit.{Payload}

-- The commands of a Redis client that the code uses. A reply `none` is an exception, which a write
-- may raise before or after its effect.
pub record Redis : Type 1 where
  pub Db : Type 0
  pub get : Text → Db → Option (Option Text)
  -- `set(key, value, ex=seconds)`
  pub set : Text → Text → ℕ → Db → Option Bool × Db
  -- `set(key, value, nx=True, ex=seconds)`
  pub set_nx : Text → Text → ℕ → Db → Option Bool × Db

-- `DisabledRedis`
abbrev pub disabled_redis : Redis
disabled_redis = record {
  Db = Unit;
  get = λ k db. some none;
  set = λ k v seconds db. (some false, db);
  set_nx = λ k v seconds db. (some false, db);
}

-- What is stored of an answer.
pub record Envelope : Type 0 where
  pub status_code : ℕ
  pub payload : Payload

-- `json.dumps(envelope, sort_keys=True)`, and `json.loads` with the access to its two keys.
pub record Json : Type 0 where
  pub dumps : Envelope → Text
  pub loads : Text → Option Envelope

pub data Prepared : Type 0 where
  fresh : Prepared
  conflict : Prepared
  in_progress : Prepared
  replay : Envelope → Prepared

abbrev pub ttl : ℕ
ttl = 24 * 60 * 60

abbrev pub req_key : Text → Text
req_key scope = scope ++ codes ":req"

abbrev pub resp_key : Text → Text
resp_key scope = scope ++ codes ":resp"

upper_char : ℕ → ℕ
upper_char c = if leb b'a' c && leb c b'z' then c - 32 else c

-- `sha256_hex` is `hashlib.sha256(raw).hexdigest()`.
unfoldable pub build_fingerprint : (Text → Text) → Text → Text → Text → Text
unfolding upper_char
build_fingerprint sha256_hex method path body =
    sha256_hex (map upper_char method ++ b'|' ∷ (path ++ b'|' ∷ body))

-- `if cached: return "replay", json.loads(cached)`; an exception of `loads` fails open.
unfoldable pub cached_answer : Json → Option (Option Text) → Prepared
cached_answer J none = fresh
cached_answer J (some none) = in_progress
cached_answer J (some (some [])) = in_progress
cached_answer J (some (some text)) = elim (J.loads text) [ none ↦ fresh | some e ↦ replay e ]

abbrev same_fingerprint : Option Text → Text → Bool
same_fingerprint none fp = false
same_fingerprint (some text) fp = text_eq text fp

module _ (R : Redis) (J : Json) where
  -- The tests that follow once the key's fingerprint has been read.
  unfoldable pub known_request : Text → Text → Option (Option Text) → R.Db → Prepared
  unfolding cached_answer
  known_request scope fp none db = fresh
  known_request scope fp (some existing) db =
      if same_fingerprint existing fp then cached_answer J (R.get (resp_key scope) db) else conflict

  -- What follows the claim of the key.
  unfoldable pub claimed : Text → Text → Option Bool × R.Db → Prepared × R.Db
  unfolding known_request
  claimed scope fp (none, db) = (fresh, db)
  claimed scope fp (some true, db) = (fresh, db)
  claimed scope fp (some false, db) = (known_request scope fp (R.get (req_key scope) db) db, db)

  unfoldable pub looked_up : Text → Text → Option (Option Text) → R.Db → Prepared × R.Db
  unfolding claimed
  looked_up scope fp none db = (fresh, db)
  looked_up scope fp (some none) db = claimed scope fp (R.set_nx (req_key scope) fp ttl db)
  looked_up scope fp (some (some existing)) db =
      (known_request scope fp (some (some existing)) db, db)

  unfoldable pub prepare_request : Text → Text → R.Db → Prepared × R.Db
  unfolding looked_up
  prepare_request scope fp db = looked_up scope fp (R.get (req_key scope) db) db

  -- An exception of the write is swallowed.
  unfoldable pub store_response : Text → ℕ → Payload → R.Db → R.Db
  store_response scope status_code payload db =
      if leb 500 status_code
      then db
      else (R.set (resp_key scope)
          (J.dumps (record { status_code = status_code; payload = payload })) ttl db).1
