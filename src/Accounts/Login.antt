-- ===== src/Accounts/Login.antt =====
-- Passwords and second factors: `login`, `change_password`, `enable_totp` and `disable_totp` of
-- backend/app/domains/auth/service.py, on the codes, the keyrings and the backup codes of their
-- modules.
use cau_sium.Prelude.{
  ℕ, ◌/◌, String, Bool, true, false, not, Option, none, some, List, [], ◌∷◌, Text, value_error,
  raised,
}
use cau_sium.Prelude.Actions.{
  Action, pure, gets, modify, raise, raise_if, or_raise, from_result, ◌>>=◌, ◌>>◌,
}
use cau_sium.Audit.{Payload, str, flag, dict, field, end}
use cau_sium.BackupCodes.{BackupCodes, Draw, use_backup_code, generate_backup_codes}
use cau_sium.Keyrings.{Keyrings, decrypt_secret_for_org}
use cau_sium.Keyrings.Fernets.{Fernet}
use cau_sium.Accounts.{
  User, Organization, AuthStore, Services, get_user_by_email, write_user, record_event,
}
use cau_sium.Accounts.Administration.{is_filled}
use cau_sium.Accounts.Totp.{verify_totp_secret}
use cau_sium.Accounts.Sessions.{Tokens, second, org_of, create_access_token, create_refresh_token}

-- HMAC-SHA1 of a step, SHA-256 of a backup code in hexadecimal, and Fernet with the setting
-- ENCRYPTION_KEY.
pub record Factors : Type 0 where
  pub hmac_sha1 : Text → ℕ → List ℕ
  pub sha256_hexdigest : Text → Text
  pub fernet : Fernet
  pub encryption_key : Text

abbrev pub on_codes : {A : Type 0} → Action BackupCodes A → Action AuthStore A
on_codes m s = let r = m s.backup_codes in (r.0, record s { backup_codes = r.1 })

abbrev on_keyrings : {A : Type 0} → Action Keyrings A → Action AuthStore A
on_keyrings m s = let r = m s.keyrings in (r.0, record s { keyrings = r.1 })

-- `if not user.totp_secret_encrypted`
abbrev pub filled : Option Text → Option Text
filled (some (c ∷ s)) = some (c ∷ s)
filled _ = none

abbrev pub passwordless : Option Organization → Bool
passwordless none = false
passwordless (some o) = o.passwordless_only

module _ (C : Services) (X : Factors) where
  -- No keyring is without a workspace.
  abbrev decrypt_for : Option ℕ → Text → Action AuthStore Text
  decrypt_for none token s = ((decrypt_secret_for_org X.fernet X.encryption_key 0 token []).0, s)
  decrypt_for (some org_id) token s =
      on_keyrings (decrypt_secret_for_org X.fernet X.encryption_key org_id token) s

  abbrev verify_encrypted : ℕ → Option ℕ → Text → Option Text → Action AuthStore Bool
  verify_encrypted now org_id code none = pure false
  verify_encrypted now org_id code (some token) = do
    secret ← decrypt_for org_id token
    from_result (verify_totp_secret X.hmac_sha1 (now / second) secret code)

  unfoldable pub verify_totp_code_for_user : ℕ → User → Text → Action AuthStore Bool
  unfolding verify_totp_secret decrypt_secret_for_org
  verify_totp_code_for_user now user code =
      verify_encrypted now user.org_id code (filled user.totp_secret_encrypted)

  abbrev pub second_chance : ℕ → User → Text → Bool → Action AuthStore (Unit {0})
  second_chance now user code true = pure tt
  second_chance now user code false = do
    spent ← on_codes (use_backup_code X.sha256_hexdigest now user.id code)
    raise_if (not spent) (value_error "Invalid MFA code")

  abbrev pub with_code : ℕ → User → Option Text → Action AuthStore (Unit {0})
  with_code now user none = raise_if true (value_error "MFA code required")
  with_code now user (some code) = do
    verified ← verify_totp_code_for_user now user code
    second_chance now user code verified

  abbrev pub if_enabled : ℕ → User → Option Text → Bool → Action AuthStore (Unit {0})
  if_enabled now user totp_code true = with_code now user (filled totp_code)
  if_enabled now user totp_code false = pure tt

  -- A code of the authenticator, or else a backup code, where one is wanted.
  unfoldable pub check_mfa : ℕ → User → Option Text → Action AuthStore (Unit {0})
  unfolding verify_totp_code_for_user use_backup_code
  check_mfa now user totp_code = if_enabled now user totp_code user.totp_enabled

  abbrev event_if_member : User → Action AuthStore (Unit {0})
  event_if_member user = elim user.org_id [
    | none ↦ pure tt
    | some org_id ↦
        record_event C user user "auth.password.login" (dict (field "email" (str user.email) end))
  ]

  abbrev pub logged_in : ℕ → User → User
  logged_in now u = record u { last_login = some now }

  abbrev pub finish_login :
      (jwt : Tokens) → ℕ → User → Action AuthStore (User × (jwt.Token × jwt.Token))
  finish_login jwt now user = do
    modify (write_user user)
    event_if_member user
    pure (user, (create_access_token jwt now user, create_refresh_token jwt now user.id))

  -- The user, the access token and the refresh token.
  unfoldable pub login :
      (jwt : Tokens)
      → ℕ
      → String
      → String
      → Option Text
      → Action AuthStore (User × (jwt.Token × jwt.Token))
  unfolding check_mfa write_user record_event
  login jwt now email password totp_code = do
    user ← or_raise (← gets (get_user_by_email email)) (value_error "Invalid credentials")
    raise_if (not (C.verify_password password user.hashed_password))
        (value_error "Invalid credentials")
    raise_if (not user.is_active) (value_error "Account inactive")
    org ← gets (org_of user.org_id)
    raise_if (passwordless org)
        (value_error "Password login disabled by organization policy (passwordless-only)")
    check_mfa now user totp_code
    finish_login jwt now (logged_in now user)

  abbrev pub new_password_of : ℕ → ℕ → String → User → User
  new_password_of now salt password u = record u {
    hashed_password = C.hash_password salt password;
    must_change_password = false;
    password_changed_at = some now;
  }

  unfoldable pub change_password : ℕ → ℕ → User → String → String → Action AuthStore User
  unfolding write_user record_event
  change_password now salt user current_password new_password = do
    raise_if (not (C.verify_password current_password user.hashed_password))
        (value_error "Current password is incorrect")
    raise_if (C.verify_password new_password user.hashed_password)
        (value_error "New password must differ from the current password")
    modify (write_user (new_password_of now salt new_password user))
    record_event C user user "auth.password.changed" (dict (field "forced" (flag false) end))
    pure (new_password_of now salt new_password user)

  abbrev enabled_at : ℕ → User → User
  enabled_at now u = record u { totp_enabled = true; totp_verified_at = some now }

  -- The user, and the backup codes in plain text; a backup code belongs to a workspace.
  abbrev backup_codes_for : Option ℕ → ℕ → (ℕ → Draw) → Action AuthStore (List Text)
  backup_codes_for none user_id draws = raise (raised "IntegrityError")
  backup_codes_for (some org_id) user_id draws =
      on_codes (generate_backup_codes X.sha256_hexdigest user_id org_id draws)

  abbrev email_payload : User → Payload
  email_payload u = dict (field "email" (str u.email) end)

  unfoldable pub enable_totp : ℕ → User → Text → (ℕ → Draw) → Action AuthStore (User × List Text)
  unfolding verify_totp_code_for_user generate_backup_codes write_user record_event
  enable_totp now user code draws = do
    raise_if (not (is_filled user.totp_secret_encrypted)) (value_error "TOTP setup not initialized")
    verified ← verify_totp_code_for_user now user code
    raise_if (not verified) (value_error "Invalid MFA code")
    modify (write_user (enabled_at now user))
    backup_codes ← backup_codes_for user.org_id user.id draws
    record_event C user user "auth.mfa.totp.enabled" (email_payload user)
    pure (enabled_at now user, backup_codes)

  abbrev disabled_totp : User → User
  disabled_totp u = record u {
    totp_enabled = false;
    totp_secret_encrypted = none;
    totp_verified_at = none;
  }

  unfoldable pub disable_totp : ℕ → User → Text → Action AuthStore User
  unfolding verify_totp_code_for_user write_user record_event
  disable_totp now user code = do
    raise_if (not user.totp_enabled) (value_error "TOTP is not enabled")
    verified ← verify_totp_code_for_user now user code
    raise_if (not verified) (value_error "Invalid MFA code")
    modify (write_user (disabled_totp user))
    record_event C user user "auth.mfa.totp.disabled" (email_payload user)
    pure (disabled_totp user)
