-- ===== src/Accounts.antt =====
-- Users and who may manage them: AuthService of backend/app/domains/auth/service.py, with
-- `anonymize_user_identity` of anonymization.py. A method is an action on the store of its request.
-- The children model its passwords, its one-time codes and the sessions. Instants are in
-- microseconds; a request reads the clock once.
mod Models
pub mod Administration
pub mod Totp
pub mod Sessions
pub mod Revocation
pub mod Challenges
pub mod Redeeming
pub mod Requests
pub mod Writing
pub mod Managing
pub mod Handling
pub mod Escalation
pub mod Purging
pub mod Login
pub mod Entering
mod Tests
unfoldable pub use Models.*
use cau_sium.Prelude.{
  ℕ, zero, suc, ◌-◌, String, Bool, true, false, ◌&&◌, ◌||◌, not, Option, none, some, List, [], ◌∷◌,
  ◌++◌, length, select, find_row, update_first, any_row, ◌==◌, opt_eq, ltb, leb, str_eq,
  if◌then◌else◌, is_some, codes, text_eq, drop, value_error, raised,
}
use cau_sium.Prelude.Actions.{Action, pure, gets, modify, raise, raise_if, or_raise, ◌>>=◌, ◌>>◌}
use cau_sium.Audit.{AuditCall, Payload, str, number, flag, dict, Fields, field, end}
use cau_sium.Policy.{UserRole, platform_admin, admin, engineer, finops, executive, viewer}
use cau_sium.Invites.{Mail}
use Prim.Native.String.{◌++◌ as str_append}

abbrev pub role_value : UserRole → String
role_value platform_admin = "platform_admin"
role_value admin = "admin"
role_value engineer = "engineer"
role_value finops = "finops"
role_value executive = "executive"
role_value viewer = "viewer"

-- `_ROLE_RANK`
abbrev pub role_rank : UserRole → ℕ
role_rank viewer = 0
role_rank executive = 1
role_rank engineer = 1
role_rank finops = 1
role_rank admin = 2
role_rank platform_admin = 3

abbrev pub can_manage : User → User → Bool
can_manage actor target = ltb (role_rank target.role) (role_rank actor.role)

abbrev pub is_platform_admin : UserRole → Bool
is_platform_admin platform_admin = true
is_platform_admin _ = false

abbrev pub get_user_by_id : ℕ → AuthStore → Option User
get_user_by_id user_id s = find_row (λ u. u.id == user_id) s.users

abbrev pub get_user_by_email : String → AuthStore → Option User
get_user_by_email email s = find_row (λ u. str_eq u.email email) s.users

abbrev pub send_mail : Mail → AuthStore → AuthStore
send_mail mail s = record s { mails = s.mails ++ mail ∷ [] }

-- The row of a user is written back.
unfoldable pub write_user : User → AuthStore → AuthStore
write_user user s = record s { users = update_first (λ u. u.id == user.id) (λ _. user) s.users }

-- The addresses are unique.
abbrev pub is_taken : User → AuthStore → Bool
is_taken user s = any_row (λ u. str_eq u.email user.email && not (u.id == user.id)) s.users

unfoldable pub save_user : User → Action AuthStore (Unit {0})
unfolding write_user
save_user user = do
  taken ← gets (is_taken user)
  raise_if taken (raised "IntegrityError")
  modify (write_user user)

-- Every event belongs to a workspace: the column is not nullable.
unfoldable pub append_audit : Option ℕ → (ℕ → AuditCall) → Action AuthStore (Unit {0})
append_audit none call = raise (raised "IntegrityError")
append_audit (some org_id) call = modify (λ s. record s { audit = s.audit ++ call org_id ∷ [] })

-- `s.endswith(t)`
abbrev pub ends_with : String → String → Bool
ends_with s t =
    let long = length (codes s) in
    let short = length (codes t) in
    leb short long && text_eq (drop (long - short) (codes s)) (codes t)

-- `s[:n]`
abbrev pub first_chars : ℕ → String → String
first_chars zero s = ""
first_chars (suc n) String.[] = ""
first_chars (suc n) (String.◌∷◌ c s) = String.◌∷◌ c (first_chars n s)

-- `a and a != b`: the field is given, not empty, and new.
abbrev pub new_text : Option String → String → Bool
new_text none old = false
new_text (some s) old = not (str_eq s "") && not (str_eq s old)

abbrev pub new_role : Option UserRole → UserRole → Bool
new_role none old = false
new_role (some role) old = not (str_eq (role_value role) (role_value old))

abbrev pub or_old {ℓ} : {A : Type ℓ} → Option A → A → A
or_old none old = old
or_old (some a) old = a

abbrev pub promotes : Option UserRole → Bool
promotes (some admin) = true
promotes (some platform_admin) = true
promotes _ = false

abbrev change_field : Bool → String → String → String → Fields → Fields
change_field false key old new rest = rest
change_field true key old new rest =
    field key (dict (field "from" (str old) (field "to" (str new) end))) rest

abbrev pub is_changed : UserUpdate → User → Bool
is_changed req u =
    new_text req.full_name u.full_name || new_text req.email u.email || new_role req.role u.role

-- The payload of the event, in the order of the changes.
abbrev change_payload : UserUpdate → User → Payload
change_payload req u = dict (
    change_field (new_text req.full_name u.full_name) "full_name" u.full_name
      (or_old req.full_name "")
      (change_field (new_text req.email u.email) "email" u.email (or_old req.email "") (
        change_field (new_role req.role u.role) "role" (role_value u.role)
          (role_value (or_old req.role u.role)) end)))

abbrev pub updated : UserUpdate → User → User
updated req u = record u {
  full_name =
      if new_text req.full_name u.full_name then or_old req.full_name u.full_name else u.full_name;
  email = if new_text req.email u.email then or_old req.email u.email else u.email;
  role = or_old req.role u.role;
}

-- The target of an administrator: of the own workspace, unless a platform administrator acts.
unfoldable pub scoped_target : User → ℕ → Action AuthStore User
scoped_target actor target_user_id = do
  target ← or_raise (← gets (get_user_by_id target_user_id)) (value_error "User not found")
  raise_if (not (is_platform_admin actor.role) && not (opt_eq target.org_id actor.org_id))
      (value_error "User not found")
  pure target

module _ (C : Services) where
  user_call : User → User → String → Payload → ℕ → AuditCall
  user_call actor target event_type payload org_id = record {
    org_id = org_id;
    actor_user_id = some actor.id;
    event_type = event_type;
    entity_type = "user";
    entity_id = C.str_uuid target.id;
    payload = payload;
  }

  -- An event about the target, in the target's workspace.
  unfoldable pub record_event : User → User → String → Payload → Action AuthStore (Unit {0})
  unfolding append_audit user_call
  record_event actor target event_type payload =
      append_audit target.org_id (user_call actor target event_type payload)

  -- `f"{email}|{id}|{secret_key}"`
  abbrev identity_text : User → String
  identity_text u =
      str_append u.email
        (str_append "|" (str_append (C.str_uuid u.id) (str_append "|" C.secret_key)))

  abbrev anonymous_email : User → String
  anonymous_email u =
      str_append "deleted_"
        (str_append (first_chars 40 (C.sha256_hexdigest (identity_text u))) "@deleted.invalid")

  abbrev pub anonymize_user_identity : User → User
  anonymize_user_identity u = record u {
    email = if ends_with u.email "@deleted.invalid" then u.email else anonymous_email u;
    full_name = "Deleted User";
  }

  -- Nothing is written if nothing changes.
  abbrev pub save_changes : User → User → UserUpdate → Bool → Action AuthStore (Unit {0})
  save_changes actor target req false = pure tt
  save_changes actor target req true = do
    save_user (updated req target)
    record_event actor target "auth.user.updated" (change_payload req target)

  unfoldable pub admin_update_user : User → ℕ → UserUpdate → Action AuthStore User
  unfolding scoped_target save_user record_event
  admin_update_user actor target_user_id req = do
    target ← scoped_target actor target_user_id
    raise_if (not (can_manage actor target)) (raised "PermissionError")
    raise_if (promotes req.role && not (is_platform_admin actor.role)) (raised "PermissionError")
    save_changes actor target req (is_changed req target)
    pure (updated req target)

  abbrev pub deleted : ℕ → User → User
  deleted now u = record (anonymize_user_identity u) {
    is_active = false;
    passkey_enabled = false;
    deleted_at = some now;
  }

  abbrev pub deleted_payload : User → User → String → Payload
  deleted_payload actor target reason = dict (
      field "target_user_id" (str (C.str_uuid target.id))
        (field "actor_role" (str (role_value actor.role)) (field "reason" (str reason) end)))

  abbrev pub delete_target : User → User → String → ℕ → Action AuthStore User
  delete_target actor target reason now = do
    save_user (deleted now target)
    record_event actor target "auth.user.deleted" (deleted_payload actor target reason)
    pure (deleted now target)

  unfoldable pub admin_delete_user : User → ℕ → String → ℕ → Action AuthStore User
  unfolding scoped_target save_user record_event
  admin_delete_user actor target_user_id reason now = do
    target ← scoped_target actor target_user_id
    raise_if (not (can_manage actor target)) (raised "PermissionError")
    raise_if (not target.is_active) (value_error "User is already inactive")
    delete_target actor target reason now

  abbrev pub purged : ℕ → String → User → User
  purged now hashed u = record (anonymize_user_identity u) {
    hashed_password = hashed;
    totp_secret_encrypted = none;
    totp_enabled = false;
    totp_verified_at = none;
    passkey_enabled = false;
    is_active = false;
    deleted_at = some now;
  }

  -- The passkeys and the revocations of a user are deleted.
  abbrev pub drop_credentials : ℕ → AuthStore → AuthStore
  drop_credentials user_id s = record s {
    passkeys = select (λ p. not (p.user_id == user_id)) s.passkeys;
    revoked_tokens = select (λ t. not (t.user_id == user_id)) s.revoked_tokens;
  }

  abbrev pub purged_payload : User → Bool → Payload
  purged_payload actor is_self =
      dict (
        field "actor_role" (str (role_value actor.role))
          (field "self_requested" (flag is_self) end))

  abbrev pub purge_target : User → User → String → ℕ → Action AuthStore (Unit {0})
  purge_target actor target hashed now = do
    save_user (purged now hashed target)
    modify (drop_credentials target.id)
    record_event actor target "auth.user.lgpd_purge" (purged_payload actor (actor.id == target.id))

  -- `draw` is `secrets.token_urlsafe(32)`.
  unfoldable pub lgpd_purge_user : User → ℕ → ℕ → String → ℕ → Action AuthStore (Unit {0})
  unfolding save_user record_event
  lgpd_purge_user actor target_user_id salt draw now = do
    target ← or_raise (← gets (get_user_by_id target_user_id)) (value_error "User not found")
    raise_if (not (actor.id == target.id) && not (can_manage actor target))
        (raised "PermissionError")
    purge_target actor target (C.hash_password salt draw) now
