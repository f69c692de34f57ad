-- ===== src/Jobs/Parsing.antt =====
-- The payloads of the queues: `parse_job` and `retry_key` of backend/app/workers/job_runtime.py.
use cau_sium.Prelude.{
  ◌≡◌, ◌≢◌, ◌∙◌, ap, refl, ℕ, Bool, true, false, ◌&&◌, ◌||◌, not, Option, none, some, List, [], ◌∷◌,
  ◌++◌, Text, codes, text_eq, take, ◌==◌, leb, if◌then◌else◌,
}
use cau_sium.Prelude.Decimals.{Signed, positive, negative, int_of, is_digit}

-- A value of JSON. A float is given by what `int` makes of it (`none` where that raises) and by its
-- truth, an array or an object by its truth.
pub data JsonValue : Type 0 where
  null : JsonValue
  flag : Bool → JsonValue
  number : Signed → JsonValue
  real : Option Signed → Bool → JsonValue
  text : Text → JsonValue
  container : Bool → JsonValue

pub data Document : Type 0 where
  object : List (Text × JsonValue) → Document
  value : JsonValue → Document

-- `json.loads`, `json.dumps`, `UUID(text)` and `str(uuid)`; `none` is a ValueError.
pub record Formats : Type 0 where
  pub loads : Text → Option Document
  pub dumps : Document → Text
  pub uuid : Text → Option ℕ
  pub str_uuid : ℕ → Text

module _ (F : Formats) where
  -- The ids of a workspace and of an account.
  abbrev pub id_fields : ℕ → ℕ → List (Text × JsonValue)
  id_fields org_id account_id =
      (codes "org_id", text (F.str_uuid org_id))
      ∷ (codes "account_id", text (F.str_uuid account_id))
      ∷ []

-- What is documented of them: `json.loads` undoes `json.dumps` on these fields, `UUID` undoes
-- `str`, and no UUID is an empty text.
pub record IsFormats (F : Formats) : Type 0 where
  pub loads-dumps :
      (org_id account_id : ℕ)
      → F.loads (F.dumps (object (id_fields F org_id account_id)))
        ≡ some (object (id_fields F org_id account_id))
  pub uuid-str_uuid : (n : ℕ) → F.uuid (F.str_uuid n) ≡ some n
  pub str_uuid_filled : (n : ℕ) → F.str_uuid n ≢ []

pub record QueueJob : Type 0 where
  pub org_id : Option ℕ
  pub account_id : Option ℕ
  pub lookback_days : Option Signed

-- `data.get(key)`; of two equal keys the last one counts.
unfoldable pub get : Text → List (Text × JsonValue) → Option JsonValue
get key [] = none
get key ((k, v) ∷ fields) = elim (get key fields) [
  | some w ↦ some w
  | none ↦ if text_eq k key then some v else none
]

abbrev nonzero : Signed → Bool
nonzero (positive n) = not (n == 0)
nonzero (negative n) = not (n == 0)

abbrev pub truthy : JsonValue → Bool
truthy null = false
truthy (flag b) = b
truthy (number n) = nonzero n
truthy (real n b) = b
truthy (text []) = false
truthy (text (c ∷ s)) = true
truthy (container b) = b

-- `int(v)`
abbrev pub to_int : JsonValue → Option Signed
to_int (flag b) = some (positive (if b then 1 else 0))
to_int (number n) = some n
to_int (real n b) = n
to_int (text s) = int_of s
to_int _ = none

abbrev present : {A : Type 0} → Option A → Option (Option A)
present none = none
present (some a) = some (some a)

abbrev pub lookback_of : Option JsonValue → Option (Option Signed)
lookback_of none = some none
lookback_of (some null) = some none
lookback_of (some v) = present (to_int v)

-- `[0-9a-fA-F]`
abbrev is_hex_digit : ℕ → Bool
is_hex_digit c = is_digit c || (leb b'a' c && leb c b'f') || (leb b'A' c && leb c b'F')

-- The characters of a UUID: true is a hexadecimal digit, false is a dash.
abbrev uuid_pattern : List Bool
uuid_pattern =
    let four = true ∷ true ∷ true ∷ true ∷ [] in
    four
    ++ (four
        ++ (false ∷ four ++ (false ∷ four ++ (false ∷ four ++ (false ∷ four ++ (four ++ four))))))

matches_pattern : List Bool → Text → Bool
matches_pattern [] s = true
matches_pattern (hex ∷ pattern) [] = false
matches_pattern (hex ∷ pattern) (c ∷ s) =
    (if hex then is_hex_digit c else c == b'-') && matches_pattern pattern s

-- `UUID_PATTERN.search(text)`, and `match.group(0)`
unfoldable pub search_uuid : Text → Option Text
unfolding matches_pattern
search_uuid [] = none
search_uuid (c ∷ s) =
    let later = search_uuid s in
    if matches_pattern uuid_pattern (c ∷ s) then some (take 36 (c ∷ s)) else later

module _ (F : Formats) where
  abbrev to_uuid : JsonValue → Option (Option ℕ)
  to_uuid (text s) = present (F.uuid s)
  to_uuid _ = none

  -- `UUID(data[key]) if data.get(key) else None`; the outer `none` is an exception.
  abbrev pub optional_uuid : Option JsonValue → Option (Option ℕ)
  optional_uuid none = some none
  optional_uuid (some v) = if truthy v then to_uuid v else some none

  abbrev job_of : Option (Option ℕ) → Option (Option ℕ) → Option (Option Signed) → Option QueueJob
  job_of (some org_id) (some account_id) (some lookback_days) =
      some record { org_id = org_id; account_id = account_id; lookback_days = lookback_days }
  job_of _ _ _ = none

  -- The `try` block; `none` is any exception.
  abbrev pub parse_document : Option Document → Option QueueJob
  parse_document none = none
  parse_document (some (value v)) = none
  parse_document (some (object fields)) =
      job_of (optional_uuid (get (codes "org_id") fields))
        (optional_uuid (get (codes "account_id") fields))
        (lookback_of (get (codes "lookback_days") fields))

  abbrev account_only : Option ℕ → QueueJob
  account_only account_id = record { org_id = none; account_id = account_id; lookback_days = none }

  abbrev found_uuid : Option Text → Option ℕ
  found_uuid none = none
  found_uuid (some s) = F.uuid s

  -- The `except` block.
  abbrev pub parse_legacy : Text → Option ℕ → QueueJob
  parse_legacy raw (some account_id) = account_only (some account_id)
  parse_legacy raw none = account_only (found_uuid (search_uuid raw))

  abbrev parsed_or_legacy : Text → Option QueueJob → QueueJob
  parsed_or_legacy raw (some job) = job
  parsed_or_legacy raw none = parse_legacy raw (F.uuid raw)

  unfoldable pub parse_job : Text → QueueJob
  unfolding get search_uuid
  parse_job raw = parsed_or_legacy raw (parse_document (F.loads raw))

  -- The payload that a finished ingestion queues: the ids of the workspace and of the account.
  abbrev pub next_payload : ℕ → ℕ → Text
  next_payload org_id account_id = F.dumps (object (id_fields F org_id account_id))

  uuid_text :
      (s : Text) (n : ℕ)
      → s ≢ []
      → F.uuid s ≡ some n
      → optional_uuid (some (text s)) ≡ some (some n)
  uuid_text [] n filled e = absurd (filled refl)
  uuid_text (c ∷ s) n filled e = rw e refl

  -- The job that a finished ingestion queues is read back, by the other workers, as a job for the
  -- same workspace and the same account. Of the formats it is assumed that `json.loads` undoes
  -- `json.dumps`, and `UUID` undoes `str`.
  pub parse_job-next_payload :
      (law : IsFormats F) (org_id account_id : ℕ)
      → parse_job (next_payload org_id account_id)
        ≡ record { org_id = some org_id; account_id = some account_id; lookback_days = none }
  unfolding parse_job
  parse_job-next_payload law org_id account_id =
      let read =
        λ (n : ℕ). uuid_text (F.str_uuid n) n (law.str_uuid_filled n) (law.uuid-str_uuid n) in
      ap (λ d. parsed_or_legacy (next_payload org_id account_id) (parse_document d))
        (law.loads-dumps org_id account_id)
      ∙ rw (read org_id, read account_id) refl
