-- ===== src/Invites/Tests.antt =====
-- Invites at work, and the theorems about them at concrete stores.
use cau_sium.Prelude.{ℕ, ◌+◌, ◌*◌, ◌≡◌, arith, refl, true, none, some, List, [], ◌∷◌, ok, err, http}
use cau_sium.Audit.{Stamp}
use cau_sium.Policy.{engineer}
use cau_sium.Invites.{
  WorkspaceInvite, InviteStore, InviteCreate, InviteAccept, Organization, User, Context, get_org,
  count_active_members, create_invite, accept_invite, new_invite, new_member,
}
use cau_sium.Invites.Histories.{Op, preview_op, create_op, accept_op, revoke_op, run, run-Grows}
use cau_sium.Invites.Machine.{Grows}
use cau_sium.Invites.Quota.{WithinQuota, run-WithinQuota}
use cau_sium.Invites.Pending.{UniquePending, run-UniquePending}
use cau_sium.Invites.Once.{accept_invite_once}

abbrev C : Context
C = record {
  str_uuid = λ n. "id";
  isoformat = λ n. "t";
  frontend_url = "https://app";
  hash_password = λ p. p;
  lower_contains = λ s q. true;
}

abbrev at : ℕ → ℕ → Stamp
at now id = record { now = now; id = id }

abbrev org : Organization
org = record { id = 1; member_quota = 2 }

abbrev ana : User
ana = record {
  id = 10;
  org_id = some 1;
  email = "ana@x";
  full_name = "Ana";
  hashed_password = "h";
  role = engineer;
  is_active = true;
  terms_accepted_at = none;
  terms_version = none;
}

abbrev for_bob : InviteCreate
for_bob = record { email = "bob@x"; role = engineer; expires_in_days = 7 }

abbrev bob_accepts : InviteAccept
bob_accepts = record { full_name = "Bob"; password = "secret42"; terms_accepted = true }

abbrev start : InviteStore
start = record { organizations = org ∷ []; users = ana ∷ []; invites = []; audit = []; mails = [] }

abbrev bobs_invite : WorkspaceInvite
bobs_invite = new_invite C (at 5 100) "tok" 1 10 for_bob

abbrev invited : InviteStore
invited = record start { invites = bobs_invite ∷ [] }

created : (create_invite C (at 5 100) "tok" 1 10 for_bob start).0 ≡ ok bobs_invite
unfolding create_invite
created = refl

again :
    (create_invite C (at 6 101) "tok2" 1 10 for_bob invited).0
    ≡ err (http 409 "A pending invite already exists.")
unfolding create_invite new_invite
again = refl

abbrev bob : User
bob = new_member C (at 9 11) bobs_invite bob_accepts

joined_bob : (accept_invite C (at 9 11) "tok" bob_accepts invited).0 ≡ ok bob
unfolding accept_invite new_invite new_member
joined_bob = refl

too_late :
    (accept_invite C (at (6 + 7 * 86400000000) 11) "tok" bob_accepts invited).0
    ≡ err (http 409 "Invite cannot be accepted.")
unfolding accept_invite new_invite
too_late = refl

abbrev requests : List Op
requests =
    create_op (at 5 100) "tok" 1 10 for_bob
    ∷ create_op (at 6 101) "tok2" 1 10 for_bob
    ∷ accept_op (at 9 11) "tok" bob_accepts
    ∷ revoke_op 1 100 10
    ∷ preview_op "tok" 20
    ∷ []

accept_invite_once_example :
    (accept_invite C
      (at 12 13)
      "tok"
      bob_accepts
      (accept_invite C (at 9 11) "tok" bob_accepts invited).1).0
    ≡ err (http 409 "Invite cannot be accepted.")
accept_invite_once_example =
    accept_invite_once C "tok" (at 9 11) (at 12 13) bob_accepts bob_accepts invited bob joined_bob

run-Grows_example : Grows invited.invites (run C requests invited).invites
run-Grows_example = run-Grows C requests invited

start-WithinQuota : WithinQuota start
unfolding WithinQuota get_org count_active_members
start-WithinQuota org_id o found = ground arith

run-WithinQuota_example : WithinQuota (run C requests start)
run-WithinQuota_example = run-WithinQuota C requests start start-WithinQuota

run-UniquePending_example : UniquePending (run C requests invited).invites
run-UniquePending_example = run-UniquePending C requests invited (λ _. refl, tt)
