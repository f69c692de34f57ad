-- ===== src/Invites/Quota.antt =====
-- The quota of active members, over sequences of invite requests.
use cau_sium.Prelude.{
  ℕ, ◌+◌, if◌then◌else◌, String, ◌≤◌, ◌<◌, ◌≡◌, ◌∙◌, ap, inl, inr, refl, Option, some, List, [],
  ◌∷◌, ◌++◌, ◌==◌, Bool-cases, arith, length, select, select-append, length-append, ==_iff,
}
use cau_sium.Audit.{Stamp}
use cau_sium.Invites.{
  WorkspaceInvite, InviteStore, InviteAccept, InviteCreate, InviteStatus, Context, Organization,
  User, get_org, count_active_members, get_by_token, create_invite, accept_invite, revoke_invite,
  list_invites, new_member, refreshed, is_member,
}
use cau_sium.Invites.Joining.{Joins, accept_cases}
use cau_sium.Invites.Histories.{Op, run, step_keeps, run_keeps}

-- No organization has more active users than its quota.
unfoldable pub WithinQuota : InviteStore → Type 0
WithinQuota s =
    (org_id : ℕ) (org : Organization)
    → get_org org_id s ≡ some org
    → count_active_members org_id s ≤ org.member_quota

-- Only the tables of organizations and users matter.
WithinQuota-same :
    (s t : InviteStore)
    → t.organizations ≡ s.organizations
    → t.users ≡ s.users
    → WithinQuota s
    → WithinQuota t
unfolding WithinQuota get_org count_active_members
WithinQuota-same s t orgs users h org_id org found = rw users (h org_id org (rw orgs at found))

-- The room that was found is that of the organization looked up.
room_of_found :
    (s : InviteStore) (here there : ℕ) (o org : Organization)
    → here ≡ there
    → get_org here s ≡ some o
    → get_org there s ≡ some org
    → count_active_members here s < o.member_quota
    → count_active_members there s < org.member_quota
room_of_found s here there o org e found found' room =
    let same : o ≡ org = cc in ground (arith, ap Organization.member_quota same)

-- The new member of an organization counts once, and nowhere else.
count_active_members-join :
    (C : Context) (stamp : Stamp) (i : WorkspaceInvite) (req : InviteAccept) (org_id : ℕ)
    (us : List User)
    → length (select (is_member org_id) (us ++ new_member C stamp i req ∷ []))
      ≡ length (select (is_member org_id) us) + (if i.org_id == org_id then 1 else 0)
unfolding new_member
count_active_members-join C stamp i req org_id us =
    rw (select-append (is_member org_id) us (new_member C stamp i req ∷ [])) (
      length-append (select (is_member org_id) us)
        (select (is_member org_id) (new_member C stamp i req ∷ []))
      ∙ ground arith)

module _ (C : Context) (s : InviteStore) (h : WithinQuota s) where
  WithinQuota-get_by_token : (token : String) (now : ℕ) → WithinQuota (get_by_token token now s).1
  unfolding get_by_token
  WithinQuota-get_by_token token now =
      WithinQuota-same s (get_by_token token now s).1 (ground arith) (ground arith) h

  WithinQuota-create_invite :
      (stamp : Stamp) (token : String) (org actor : ℕ) (req : InviteCreate)
      → WithinQuota (create_invite C stamp token org actor req s).1
  unfolding create_invite
  WithinQuota-create_invite stamp token org actor req =
      WithinQuota-same s (create_invite C stamp token org actor req s).1 (ground arith)
        (ground arith) h

  WithinQuota-revoke_invite : (org id actor : ℕ) → WithinQuota (revoke_invite C org id actor s).1
  unfolding revoke_invite
  WithinQuota-revoke_invite org id actor =
      WithinQuota-same s (revoke_invite C org id actor s).1 (ground arith) (ground arith) h

  WithinQuota-list_invites :
      (now org limit offset : ℕ) (wanted : Option InviteStatus) (q : Option String)
      → WithinQuota (list_invites C now org limit offset wanted q s).1
  unfolding list_invites
  WithinQuota-list_invites now org limit offset wanted q =
      WithinQuota-same s (list_invites C now org limit offset wanted q s).1 refl refl h

  -- The member that an acceptance adds still fits.
  one_more_fits :
      (stamp : Stamp) (req : InviteAccept) (i : WorkspaceInvite)
      → Joins s req stamp.now i
      → (t : InviteStore) → t.organizations ≡ s.organizations
      → t.users ≡ s.users ++ new_member C stamp (refreshed stamp.now i) req ∷ []
      → WithinQuota t
  unfolding WithinQuota get_org count_active_members
  one_more_fits stamp req i joins t orgs users org_id org found =
      let r = refreshed stamp.now i in
      let here = rw orgs at found in
      let fits = h org_id org here in
      rw (users, count_active_members-join C stamp r req org_id s.users)
        (elim (Bool-cases (r.org_id == org_id)) [
          | inl same ↦ rw same (
              omega (
                arith,
                room_of_found s r.org_id org_id joins.org org ((==_iff r.org_id org_id).0 same)
                    joins.org_found here joins.has_room,
              ))
          | inr other ↦ rw other (omega (arith, fits))
        ])

  WithinQuota-accept_invite :
      (stamp : Stamp) (token : String) (req : InviteAccept)
      → WithinQuota (accept_invite C stamp token req s).1
  WithinQuota-accept_invite stamp token req = elim (accept_cases C stamp token req s) [
    | inl missing ↦ rw missing h
    | inr (i, found, inl (e, refused)) ↦ rw refused (WithinQuota-same s _ refl refl h)
    | inr (i, found, inr (joins, done)) ↦ rw done (one_more_fits stamp req i joins _ refl refl)
  ]

-- If no organization has more active users than its quota, none has after any requests about
-- invites.
pub run-WithinQuota :
    (C : Context) (os : List Op) (s : InviteStore) → WithinQuota s → WithinQuota (run C os s)
run-WithinQuota C os s h =
    run_keeps C WithinQuota
      (λ o t h'.
        step_keeps C WithinQuota t h' (WithinQuota-get_by_token C t h')
          (WithinQuota-create_invite C t h') (WithinQuota-accept_invite C t h')
          (WithinQuota-revoke_invite C t h') (WithinQuota-list_invites C t h') o)
      os s h
