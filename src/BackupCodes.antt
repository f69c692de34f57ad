-- ===== src/BackupCodes.antt =====
-- The backup codes of two-factor authentication: backend/app/domains/auth/service.py
-- (`generate_backup_codes`, `use_backup_code`, `backup_codes_remaining`). Codes are ASCII.
pub mod Spending
pub mod Renewal
pub mod Accepting
mod Tests
use cau_sium.Prelude.{
  ℕ, zero, suc, Bool, true, false, ◌&&◌, not, Option, none, some, List, [], ◌∷◌, ◌++◌, Text, length,
  take, drop, select, update_first, ◌==◌, text_eq, strip, lower, Result, ok, err, raised,
}
use cau_sium.Prelude.Actions.{Action, pure, gets, modify, from_result, ◌>>=◌, ◌>>◌}

-- `TotpBackupCode`
pub record TotpBackupCode : Type 0 where
  pub id : ℕ
  pub user_id : ℕ
  pub org_id : ℕ
  pub code_hash : Text
  pub used_at : Option ℕ

abbrev pub BackupCodes : Type 0
BackupCodes = List TotpBackupCode

-- What one code takes from outside: the row's id, and `secrets.token_hex(5)`.
pub record Draw : Type 0 where
  pub id : ℕ
  pub raw : Text

abbrev pub is_unused : Option ℕ → Bool
is_unused none = true
is_unused (some at) = false

-- `scalar_one_or_none`
abbrev pub one_or_none {ℓ} : {A : Type ℓ} → List A → Result (Option A)
one_or_none [] = ok none
one_or_none (a ∷ []) = ok (some a)
one_or_none (a ∷ b ∷ rest) = err (raised "MultipleResultsFound")

abbrev pub backup_code_count : ℕ
backup_code_count = 8

-- `code.replace("-", "").strip().lower()`
unfoldable pub normalized : Text → Text
normalized code = lower (strip (select (λ c. not (c == b'-')) code))

-- `f"{raw[:5]}-{raw[5:]}"`
abbrev pub formatted : Text → Text
formatted raw = take 5 raw ++ b'-' ∷ drop 5 raw

abbrev pub is_unused_of : ℕ → TotpBackupCode → Bool
is_unused_of user_id c = c.user_id == user_id && is_unused c.used_at

abbrev pub matches : ℕ → Text → TotpBackupCode → Bool
matches user_id code_hash c =
    c.user_id == user_id && (text_eq c.code_hash code_hash && is_unused c.used_at)

abbrev pub used : ℕ → TotpBackupCode → TotpBackupCode
used now c = record c { used_at = some now }

unfoldable pub backup_codes_remaining : ℕ → BackupCodes → ℕ
backup_codes_remaining user_id s = length (select (is_unused_of user_id) s)

-- `_hash_backup_code` is `hashlib.sha256(code.encode()).hexdigest()`.
module _ (sha256_hexdigest : Text → Text) where
  abbrev pub new_code : ℕ → ℕ → Draw → TotpBackupCode
  new_code user_id org_id draw = record {
    id = draw.id;
    user_id = user_id;
    org_id = org_id;
    code_hash = sha256_hexdigest draw.raw;
    used_at = none;
  }

  -- `count` codes, from the n-th draw on.
  unfoldable pub add_codes : ℕ → ℕ → (ℕ → Draw) → ℕ → ℕ → Action BackupCodes (List Text)
  add_codes user_id org_id draws zero n = pure []
  add_codes user_id org_id draws (suc count) n = do
    modify (λ s. s ++ new_code user_id org_id (draws n) ∷ [])
    codes ← add_codes user_id org_id draws count (suc n)
    pure (formatted (draws n).raw ∷ codes)

  unfoldable pub generate_backup_codes : ℕ → ℕ → (ℕ → Draw) → Action BackupCodes (List Text)
  unfolding add_codes
  generate_backup_codes user_id org_id draws = do
    modify (select (λ c. not (c.user_id == user_id)))
    add_codes user_id org_id draws backup_code_count 0

  abbrev pub spend : ℕ → (TotpBackupCode → Bool) → Option TotpBackupCode → Action BackupCodes Bool
  spend now found none = pure false
  spend now found (some backup) = do modify (update_first found (used now)); pure true

  unfoldable pub use_backup_code : ℕ → ℕ → Text → Action BackupCodes Bool
  unfolding normalized
  use_backup_code now user_id code = do
    let found = matches user_id (sha256_hexdigest (normalized code))
    backup ← λ s. (one_or_none (select found s), s)
    spend now found backup
