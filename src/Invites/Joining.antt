-- ===== src/Invites/Joining.antt =====
-- What `accept_invite` comes to, and what its success means.
use cau_sium.Prelude.{
  ℕ, String, ◌<◌, ◌≡◌, ◌⊎◌, inl, inr, refl, true, false, some, [], ◌∷◌, ◌++◌, ok, err, http,
  Failure, Bool-cases, Option-cases, find_row, update_first, arith, any_row, leb, str_eq, ◌==◌,
  length, select,
}
use cau_sium.Audit.{Stamp}
use cau_sium.Invites.{
  WorkspaceInvite, Organization, InviteStore, InviteAccept, Context, accepted_at_now, refreshed,
  is_pending, get_by_token, accept_invite, has_token, get_org, count_active_members, change_invites,
  new_member, accepted_call, append_audit, is_member,
}

-- The conditions of an acceptance, of the invite `i` and at the clock `now`.
pub record Joins (s : InviteStore) (req : InviteAccept) (now : ℕ) (i : WorkspaceInvite)
    : Type 0 where
  pub org : Organization
  pub is_open : is_pending (refreshed now i).status ≡ true
  pub org_found : get_org (refreshed now i).org_id s ≡ some org
  pub has_room : count_active_members (refreshed now i).org_id s < org.member_quota
  pub email_free : any_row (λ u. str_eq u.email (refreshed now i).invited_email) s.users ≡ false
  pub terms : req.terms_accepted ≡ true

-- The store after `get_by_token`.
abbrev pub seen : String → ℕ → InviteStore → InviteStore
seen token now s = change_invites (update_first (has_token token) (refreshed now)) s

-- The store after an acceptance.
abbrev pub joined :
    Context → Stamp → String → InviteAccept → WorkspaceInvite → InviteStore → InviteStore
joined C stamp token req i s =
    let user = new_member C stamp i req in
    append_audit (accepted_call C i user.id stamp.now) (
      change_invites (update_first (has_token token) (accepted_at_now stamp.now))
        (record s { users = s.users ++ user ∷ [] }))

module _ (C : Context) (stamp : Stamp) (token : String) (req : InviteAccept) (s : InviteStore) where
  pub accept_cases :
      (accept_invite C stamp token req s ≡ (err (http 404 "Invite not found"), s))
      ⊎ ((i : WorkspaceInvite) × (find_row (has_token token) s.invites ≡ some i)
          × (((e : Failure) × (accept_invite C stamp token req s ≡ (err e, seen token stamp.now s)))
              ⊎ (Joins s req stamp.now i
                  × (accept_invite C stamp token req s ≡ (
                    ok (new_member C stamp (refreshed stamp.now i) req),
                    joined C stamp token req (refreshed stamp.now i) (seen token stamp.now s),
                  )))))
  unfolding accept_invite get_by_token get_org count_active_members
  accept_cases = elim (Option-cases (find_row (has_token token) s.invites)) [
    | inl missing ↦ inl (rw missing refl)
    | inr (i, found) ↦ inr (
      i,
      found,
      let r = refreshed stamp.now i in
          elim (Bool-cases (is_pending r.status)) [
            | inr over ↦ inl (http 409 "Invite cannot be accepted.", rw (found, over) refl)
            | inl free ↦ elim (Option-cases (find_row (λ o. o.id == r.org_id) s.organizations)) [
              | inl missing ↦
                  inl (http 404 "Organization not found", rw (found, free, missing) refl)
              | inr (org, org_found) ↦
                  elim (Bool-cases
                    (leb org.member_quota (length (select (is_member r.org_id) s.users)))) [
                      | inl full ↦
                          inl (
                            http 422 "Member quota reached.",
                            rw (found, free, org_found, full) refl,
                          )
                      | inr room ↦
                          elim (Bool-cases
                            (any_row (λ u. str_eq u.email r.invited_email) s.users)) [
                              | inl taken ↦ inl (
                                http 409 "An account with this email already exists.",
                                rw (found, free, org_found, room, taken) refl,
                              )
                              | inr new ↦ elim (Bool-cases req.terms_accepted) [
                                | inr withheld ↦ inl (
                                  http 422 "Você precisa aceitar os Termos de Uso.",
                                  rw (found, free, org_found, room, new, withheld) refl,
                                )
                                | inl agreed ↦ inr (
                                  record {
                                    org = org;
                                    is_open = free;
                                    org_found = org_found;
                                    has_room = ground arith;
                                    email_free = new;
                                    terms = agreed;
                                  },
                                  rw (found, free, org_found, room, new, agreed) refl,
                                )
                              ]
                            ]
                    ]
            ]
          ],
    )
  ]
