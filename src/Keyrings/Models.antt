-- ===== src/Keyrings/Models.antt =====
-- The rows of workspace keyrings (`WorkspaceKeyring` of backend/app/domains/auth/models.py), and what
-- backend/app/core/security.py asks of them.
use cau_sium.Prelude.{
  ℕ, ◌+◌, ◌*◌, Bool, true, false, ◌&&◌, Option, none, some, List, [], ◌∷◌, ◌++◌, Text, codes,
  select, any_row, ◌==◌, ltb, leb, max, if◌then◌else◌, raised,
}
use cau_sium.Prelude.Actions.{Action, gets, modify, raise_if, ◌>>=◌, ◌>>◌}
use cau_sium.Prelude.Decimals.{decimal}

-- `WorkspaceKeyring`
pub record WorkspaceKeyring : Type 0 where
  pub id : ℕ
  pub org_id : ℕ
  pub key_version : ℕ
  pub key_material_encrypted : Text
  pub is_active : Bool
  pub rotated_at : Option ℕ

-- What the creation of one key takes from outside: the row's id, `Fernet.generate_key()`, and what
-- Fernet takes for one encryption from the clock and the random source.
pub record NewKey : Type 0 where
  pub id : ℕ
  pub key : Text
  pub nonce : ℕ

abbrev pub Keyrings : Type 0
Keyrings = List WorkspaceKeyring

abbrev pub has_version : ℕ → ℕ → WorkspaceKeyring → Bool
has_version org_id version k = k.org_id == org_id && k.key_version == version

abbrev pub is_current : ℕ → WorkspaceKeyring → Bool
is_current org_id k = k.org_id == org_id && k.is_active

-- The first row of the greatest version: `order_by(key_version.desc()).limit(1)`.
unfoldable pub latest_version : List WorkspaceKeyring → Option WorkspaceKeyring
latest_version [] = none
latest_version (k ∷ ks) = elim (latest_version ks) [
  | none ↦ some k
  | some l ↦ if ltb k.key_version l.key_version then some l else some k
]

unfoldable pub current_keyring : ℕ → Keyrings → Option WorkspaceKeyring
current_keyring org_id s = latest_version (select (is_current org_id) s)

-- An insertion under the unique constraint on (org_id, key_version).
unfoldable pub insert_keyring : WorkspaceKeyring → Action Keyrings (Unit {0})
insert_keyring k = do
  taken ← gets (λ s. any_row (has_version k.org_id k.key_version) s)
  raise_if taken (raised "IntegrityError")
  modify (λ s. s ++ k ∷ [])

abbrev pub prefix : Text
prefix = codes "wk1:"

abbrev after_char : ℕ → Option (Text × Text) → Option (Text × Text)
after_char c none = none
after_char c (some (a, b)) = some (c ∷ a, b)

-- What stands before the first colon, and after it.
unfoldable pub cut_colon : Text → Option (Text × Text)
cut_colon [] = none
cut_colon (c ∷ s) = let rest = cut_colon s in if c == b':' then some ([], s) else after_char c rest

unfoldable pub ciphertext : ℕ → Text → Text
ciphertext version token = prefix ++ (decimal version ++ b':' ∷ token)

abbrev pub microseconds_per_day : ℕ
microseconds_per_day = 86400000000

-- `rotated_at IS NULL OR rotated_at <= now - max_age_days`
abbrev pub is_due : ℕ → ℕ → Option ℕ → Bool
is_due now max_age_days none = true
is_due now max_age_days (some at) = leb (at + max_age_days * microseconds_per_day) now

abbrev pub is_overdue : ℕ → ℕ → WorkspaceKeyring → Bool
is_overdue now max_age_days k = k.is_active && is_due now max_age_days k.rotated_at

abbrev rotated_before : Option ℕ → Option ℕ → Bool
rotated_before none b = true
rotated_before (some a) none = false
rotated_before (some a) (some b) = leb a b

unfoldable pub insert_oldest : WorkspaceKeyring → List WorkspaceKeyring → List WorkspaceKeyring
insert_oldest k [] = k ∷ []
insert_oldest k (l ∷ ls) =
    let rest = insert_oldest k ls in
    if rotated_before k.rotated_at l.rotated_at then k ∷ l ∷ ls else l ∷ rest

-- `order_by(rotated_at.asc().nullsfirst())`
unfoldable pub oldest_first : List WorkspaceKeyring → List WorkspaceKeyring
unfolding insert_oldest
oldest_first [] = []
oldest_first (k ∷ ks) = insert_oldest k (oldest_first ks)

-- `func.max(key_version)` of the workspace, `or 0`.
unfoldable pub max_version : ℕ → Keyrings → ℕ
max_version org_id [] = 0
max_version org_id (k ∷ ks) =
    if k.org_id == org_id then max k.key_version (max_version org_id ks) else max_version org_id ks

abbrev pub deactivated : WorkspaceKeyring → WorkspaceKeyring
deactivated k = record k { is_active = false }
