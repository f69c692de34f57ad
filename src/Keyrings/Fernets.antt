-- ===== src/Keyrings/Fernets.antt =====
-- The cryptography that the code calls: `cryptography.fernet.Fernet`, `base64` and `hashlib`; and
-- the global key of the settings (backend/app/core/security.py, `_fernet_from_settings`).
use cau_sium.Prelude.{
  ℕ, ◌≡◌, Bool, true, Option, none, some, Text, length, ◌==◌, if◌then◌else◌, ◌&&◌,
}

pub record Fernet : Type 0 where
  -- `Fernet(key)` does not raise.
  pub accepts : Text → Bool
  -- `Fernet(key).encrypt(value)`, with what it takes from outside.
  pub encrypt : Text → ℕ → Text → Text
  -- `Fernet(key).decrypt(token)`; `none` is an InvalidToken.
  pub decrypt : Text → Text → Option Text
  pub urlsafe_b64decode : Text → Option Text
  pub urlsafe_b64encode : Text → Text
  pub sha256 : Text → Text

-- What is documented of it.
pub record IsFernet (F : Fernet) : Type 0 where
  pub decrypt-encrypt :
      (key : Text) (nonce : ℕ) (value : Text)
      → F.accepts key ≡ true
      → F.decrypt key (F.encrypt key nonce value) ≡ some value

module _ (F : Fernet) where
  abbrev derived_key : Text → Text
  derived_key raw = F.urlsafe_b64encode (F.sha256 raw)

  -- The key of `_fernet_from_settings`, from the setting ENCRYPTION_KEY.
  unfoldable pub global_key : Text → Text
  global_key raw = elim (F.urlsafe_b64decode raw) [
    | none ↦ derived_key raw
    | some decoded ↦ if length decoded == 32 && F.accepts raw then raw else derived_key raw
  ]
