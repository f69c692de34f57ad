-- ===== src/Invites.antt =====
-- Workspace invites: backend/app/domains/invites/service.py. A method is an action on the store of
-- its request. Instants are in microseconds; a request reads the clock once.
mod Models
pub mod Joining
pub mod Machine
pub mod Histories
pub mod Quota
pub mod Pending
pub mod Once
mod Tests
unfoldable pub use Models.*
use cau_sium.Prelude.{
  ℕ, suc, ◌+◌, ◌*◌, ◌≡◌, String, Bool, true, false, ◌&&◌, not, Option, none, some, List, [], ◌∷◌,
  ◌++◌, length, select, find_row, update_first, update_rows, any_row, ◌==◌, opt_eq, ltb, leb,
  str_eq, if◌then◌else◌, http, is_some, codes, strip, lower, take, drop,
}
use cau_sium.Prelude.Actions.{Action, pure, gets, modify, raise_if, or_raise, ◌>>=◌, ◌>>◌}
use cau_sium.Audit.{Stamp, AuditCall, Payload, str, number, dict, field, end}
use cau_sium.Policy.{UserRole, platform_admin, admin, engineer, finops, executive, viewer}
use Prim.Native.String.{◌++◌ as str_append}

abbrev pub is_pending : InviteStatus → Bool
is_pending pending = true
is_pending _ = false

abbrev role_value : UserRole → String
role_value platform_admin = "platform_admin"
role_value admin = "admin"
role_value engineer = "engineer"
role_value finops = "finops"
role_value executive = "executive"
role_value viewer = "viewer"

abbrev day : ℕ
day = 86400000000

unfoldable pub get_org : ℕ → InviteStore → Option Organization
get_org org_id s = find_row (λ o. o.id == org_id) s.organizations

abbrev pub is_member : ℕ → User → Bool
is_member org_id u = opt_eq u.org_id (some org_id) && u.is_active

unfoldable pub count_active_members : ℕ → InviteStore → ℕ
count_active_members org_id s = length (select (is_member org_id) s.users)

abbrev pub is_pending_for : ℕ → String → WorkspaceInvite → Bool
is_pending_for org_id email i =
    i.org_id == org_id && (str_eq i.invited_email email && is_pending i.status)

unfoldable pub get_pending_by_email : ℕ → String → InviteStore → Option WorkspaceInvite
get_pending_by_email org_id email s = find_row (is_pending_for org_id email) s.invites

abbrev pub has_token : String → WorkspaceInvite → Bool
has_token token i = str_eq i.token token

abbrev pub has_id : ℕ → ℕ → WorkspaceInvite → Bool
has_id org_id invite_id i = i.id == invite_id && i.org_id == org_id

abbrev pub with_status : InviteStatus → WorkspaceInvite → WorkspaceInvite
with_status status i = record i { status = status }

abbrev pub accepted_at_now : ℕ → WorkspaceInvite → WorkspaceInvite
accepted_at_now now i = record i { status = accepted; accepted_at = some now }

abbrev pub change_invites :
    (List WorkspaceInvite → List WorkspaceInvite) → InviteStore → InviteStore
change_invites f s = record s { invites = f s.invites }

abbrev pub append_audit : AuditCall → InviteStore → InviteStore
append_audit call s = record s { audit = s.audit ++ call ∷ [] }

-- A pending invite whose time is over.
abbrev pub is_overdue : ℕ → WorkspaceInvite → Bool
is_overdue now i = is_pending i.status && ltb i.expires_at now

-- The expiry that `get_by_token` writes, and the invite it returns.
abbrev pub refreshed : ℕ → WorkspaceInvite → WorkspaceInvite
refreshed now i = if is_overdue now i then with_status expired i else i

unfoldable pub get_by_token : String → ℕ → Action InviteStore WorkspaceInvite
get_by_token token now = do
  invite ←
      or_raise (← gets (λ s. find_row (has_token token) s.invites)) (http 404 "Invite not found")
  modify (change_invites (update_first (has_token token) (refreshed now)))
  pure (refreshed now invite)

abbrev status_number : InviteStatus → ℕ
status_number pending = 0
status_number accepted = 1
status_number expired = 2
status_number revoked = 3

abbrev status_is : Option InviteStatus → InviteStatus → Bool
status_is none status = true
status_is (some wanted) status = status_number wanted == status_number status

abbrev normalized_query : Option String → List ℕ
normalized_query none = []
normalized_query (some q) = lower (strip (codes q))

insert_invite : WorkspaceInvite → List WorkspaceInvite → List WorkspaceInvite
insert_invite i [] = i ∷ []
insert_invite i (j ∷ js) =
    let rest = insert_invite i js in if ltb i.created_at j.created_at then j ∷ rest else i ∷ j ∷ js

-- `order_by(created_at.desc())`
newest_first : List WorkspaceInvite → List WorkspaceInvite
unfolding insert_invite
newest_first [] = []
newest_first (i ∷ is) = insert_invite i (newest_first is)

module _ (C : Context) where
  invite_call : WorkspaceInvite → ℕ → String → Payload → AuditCall
  invite_call i actor event_type payload = record {
    org_id = i.org_id;
    actor_user_id = some actor;
    event_type = event_type;
    entity_type = "workspace_invite";
    entity_id = C.str_uuid i.id;
    payload = payload;
  }

  pub created_call : WorkspaceInvite → ℕ → InviteCreate → AuditCall
  unfolding invite_call
  created_call i actor req = invite_call i actor "invite.created" (
      dict (
        field "invited_email" (str req.email) (
          field "role" (str (role_value req.role))
            (field "expires_in_days" (number req.expires_in_days) end))))

  pub accepted_call : WorkspaceInvite → ℕ → ℕ → AuditCall
  unfolding invite_call
  accepted_call i actor now = invite_call i actor "invite.accepted" (
      dict (
        field "invited_email" (str i.invited_email) (
          field "role" (str (role_value i.role)) (
            field "terms_version" (str "1.0")
              (field "terms_accepted_at" (str (C.isoformat now)) end)))))

  pub revoked_call : WorkspaceInvite → ℕ → AuditCall
  unfolding invite_call
  revoked_call i actor =
      invite_call i actor "invite.revoked" (dict (field "invited_email" (str i.invited_email) end))

  pub invite_mail : WorkspaceInvite → Mail
  invite_mail i = record {
    to_email = i.invited_email;
    subject = "[CauSium] Voce foi convidado para um workspace";
    text_body = str_append "Voce recebeu um convite para entrar em um workspace no CauSium.\n\n" (
        str_append (str_append "Funcao: " (str_append (role_value i.role) "\n")) (
          str_append
            (str_append "Aceitar convite: "
              (str_append C.frontend_url (str_append "/activate?token=" (str_append i.token "\n"))))
            (str_append "Expira em: " (str_append (C.isoformat i.expires_at) "\n"))));
  }

  unfoldable pub new_invite : Stamp → String → ℕ → ℕ → InviteCreate → WorkspaceInvite
  new_invite stamp token org_id actor req = record {
    id = stamp.id;
    org_id = org_id;
    invited_email = req.email;
    invited_by_user_id = actor;
    role = req.role;
    token = token;
    expires_at = stamp.now + day * req.expires_in_days;
    accepted_at = none;
    status = pending;
    created_at = stamp.now;
  }

  -- `token` is what `secrets.token_urlsafe` returns.
  unfoldable pub create_invite :
      Stamp → String → ℕ → ℕ → InviteCreate → Action InviteStore WorkspaceInvite
  unfolding get_org count_active_members get_pending_by_email
  create_invite stamp token org_id actor req = do
    org ← or_raise (← gets (get_org org_id)) (http 404 "Organization not found")
    active_count ← gets (count_active_members org_id)
    raise_if (leb org.member_quota active_count) (http 422 "Member quota reached")
    existing ← gets (get_pending_by_email org_id req.email)
    raise_if (is_some existing) (http 409 "A pending invite already exists.")
    let invite = new_invite stamp token org_id actor req
    modify (change_invites (λ xs. xs ++ invite ∷ []))
    modify (append_audit (created_call invite actor req))
    modify (λ s. record s { mails = s.mails ++ invite_mail invite ∷ [] })
    pure invite

  unfoldable pub new_member : Stamp → WorkspaceInvite → InviteAccept → User
  new_member stamp i req = record {
    id = stamp.id;
    org_id = some i.org_id;
    email = i.invited_email;
    full_name = req.full_name;
    hashed_password = C.hash_password req.password;
    role = i.role;
    is_active = true;
    terms_accepted_at = some stamp.now;
    terms_version = some "1.0";
  }

  unfoldable pub accept_invite : Stamp → String → InviteAccept → Action InviteStore User
  unfolding get_by_token get_org count_active_members
  accept_invite stamp token req = do
    invite ← get_by_token token stamp.now
    raise_if (not (is_pending invite.status)) (http 409 "Invite cannot be accepted.")
    org ← or_raise (← gets (get_org invite.org_id)) (http 404 "Organization not found")
    active_count ← gets (count_active_members invite.org_id)
    raise_if (leb org.member_quota active_count) (http 422 "Member quota reached.")
    taken ← gets (λ s. any_row (λ u. str_eq u.email invite.invited_email) s.users)
    raise_if taken (http 409 "An account with this email already exists.")
    raise_if (not req.terms_accepted) (http 422 "Você precisa aceitar os Termos de Uso.")
    let user = new_member stamp invite req
    modify (λ s. record s { users = s.users ++ user ∷ [] })
    modify (change_invites (update_first (has_token token) (accepted_at_now stamp.now)))
    modify (append_audit (accepted_call invite user.id stamp.now))
    pure user

  unfoldable pub revoke_invite : ℕ → ℕ → ℕ → Action InviteStore WorkspaceInvite
  revoke_invite org_id invite_id actor = do
    invite ←
        or_raise (← gets (λ s. find_row (has_id org_id invite_id) s.invites))
          (http 404 "Invite not found")
    raise_if (not (is_pending invite.status)) (http 409 "Only pending invites can be revoked.")
    modify (change_invites (update_first (has_id org_id invite_id) (with_status revoked)))
    modify (append_audit (revoked_call invite actor))
    pure (with_status revoked invite)

  matches : Option InviteStatus → List ℕ → WorkspaceInvite → Bool
  matches wanted [] i = status_is wanted i.status
  matches wanted q i = status_is wanted i.status && C.lower_contains i.invited_email q

  unfoldable pub list_invites :
      ℕ
      → ℕ
      → ℕ
      → ℕ
      → Option InviteStatus
      → Option String
      → Action InviteStore (List WorkspaceInvite × ℕ)
  unfolding matches newest_first
  list_invites now org_id limit offset wanted q = do
    modify (
        change_invites
          (update_rows (λ i. i.org_id == org_id && is_overdue now i) (with_status expired)))
    found ← gets (λ s.
        select (matches wanted (normalized_query q)) (select (λ i. i.org_id == org_id) s.invites))
    pure (take limit (drop offset (newest_first found)), length found)
