-- ===== src/Accounts/Administration.antt =====
-- What administrators do to the credentials and the access of other users: `admin_reset_password`,
-- `admin_reset_mfa` and `admin_deactivate_user` of backend/app/domains/auth/service.py.
use cau_sium.Prelude.{
  ℕ, String, Bool, true, false, ◌&&◌, ◌||◌, not, Option, none, some, ◌∷◌, length, select, ◌==◌,
  Text, value_error, raised,
}
use cau_sium.Prelude.Actions.{Action, pure, gets, modify, raise_if, ◌>>=◌, ◌>>◌}
use cau_sium.Audit.{Payload, Fields, str, number, flag, dict, field, end}
use cau_sium.Invites.{Mail}
use cau_sium.Accounts.{
  User, AuthStore, Services, send_mail, role_value, can_manage, write_user, record_event,
  scoped_target,
}
use Prim.Native.String.{◌++◌ as str_append}

abbrev pub with_temporary : String → User → User
with_temporary hashed u = record u { hashed_password = hashed; must_change_password = true }

-- The passkeys and the backup codes of a user are deleted.
abbrev pub drop_factors : ℕ → AuthStore → AuthStore
drop_factors user_id s = record s {
  passkeys = select (λ p. not (p.user_id == user_id)) s.passkeys;
  backup_codes = select (λ c. not (c.user_id == user_id)) s.backup_codes;
}

abbrev pub without_factors : User → User
without_factors u = record u {
  passkey_enabled = false;
  totp_enabled = false;
  totp_secret_encrypted = none;
  totp_verified_at = none;
}

abbrev pub is_filled : Option Text → Bool
is_filled (some (c ∷ s)) = true
is_filled _ = false

abbrev pub deactivated_user : ℕ → User → User
deactivated_user now u = record u {
  is_active = false;
  passkey_enabled = false;
  deleted_at = elim u.deleted_at [ none ↦ some now | some at ↦ some at ];
}

module _ (C : Services) where
  abbrev pub role_fields : User → User → Fields → Fields
  role_fields actor target rest = field "target_user_id" (str (C.str_uuid target.id)) (
      field "actor_role" (str (role_value actor.role))
        (field "target_role" (str (role_value target.role)) rest))

  abbrev pub reset_mail : User → String → Mail
  reset_mail target temp_password = record {
    to_email = target.email;
    subject = "[CauSium] Sua senha foi redefinida pelo administrador";
    text_body =
        str_append
          "Sua senha foi redefinida por um administrador do workspace.\n\nSenha temporaria: "
          (str_append temp_password (
            str_append "\nVoce devera trocar essa senha no primeiro acesso.\n\nLogin: "
              (str_append C.frontend_url "/login\n")));
  }

  abbrev pub reset_target : User → User → String → Action AuthStore (User × String)
  reset_target actor target temp_password = do
    modify (write_user target)
    record_event C actor target "auth.password.admin_reset" (dict (role_fields actor target end))
    modify (send_mail (reset_mail target temp_password))
    pure (target, temp_password)

  -- `temp_password` is `secrets.token_urlsafe(12)`.
  unfoldable pub admin_reset_password : User → ℕ → String → ℕ → Action AuthStore (User × String)
  unfolding scoped_target write_user record_event
  admin_reset_password actor target_user_id temp_password salt = do
    target ← scoped_target actor target_user_id
    raise_if (not (can_manage actor target)) (raised "PermissionError")
    reset_target actor (with_temporary (C.hash_password salt temp_password) target) temp_password

  abbrev pub mfa_payload : User → User → ℕ → Payload
  mfa_payload actor target revoked_count = dict (
      role_fields actor target (
        field "revoked_passkeys" (number revoked_count) (
          field "totp_disabled"
            (flag (target.totp_enabled || is_filled target.totp_secret_encrypted)) end)))

  abbrev pub strip_target : User → User → ℕ → Action AuthStore (User × (ℕ × Bool))
  strip_target actor target revoked_count = do
    modify (drop_factors target.id)
    modify (write_user (without_factors target))
    record_event C actor target "auth.mfa.admin_reset" (mfa_payload actor target revoked_count)
    pure (
      without_factors target,
      (revoked_count, target.totp_enabled || is_filled target.totp_secret_encrypted),
    )

  -- The user, the number of passkeys that are revoked, and whether there was a one-time code.
  unfoldable pub admin_reset_mfa : User → ℕ → Action AuthStore (User × (ℕ × Bool))
  unfolding scoped_target write_user record_event
  admin_reset_mfa actor target_user_id = do
    target ← scoped_target actor target_user_id
    raise_if (not (actor.id == target.id) && not (can_manage actor target))
        (raised "PermissionError")
    revoked_count ← gets (λ s. length (select (λ p. p.user_id == target.id) s.passkeys))
    strip_target actor target revoked_count

  abbrev pub deactivate_target : User → User → String → ℕ → Action AuthStore User
  deactivate_target actor target reason now = do
    modify (write_user (deactivated_user now target))
    record_event C actor target "auth.user.deactivated"
        (dict (role_fields actor target (field "reason" (str reason) end)))
    pure (deactivated_user now target)

  unfoldable pub admin_deactivate_user : User → ℕ → String → ℕ → Action AuthStore User
  unfolding scoped_target write_user record_event
  admin_deactivate_user actor target_user_id reason now = do
    target ← scoped_target actor target_user_id
    raise_if (actor.id == target.id) (raised "PermissionError")
    raise_if (not (can_manage actor target)) (raised "PermissionError")
    raise_if (not target.is_active) (value_error "User is already inactive")
    deactivate_target actor target reason now
