-- ===== src/Invites/Machine.antt =====
-- What requests can do to an invite: it leaves the status pending at most once, and nothing else of
-- it but the time of acceptance changes.
use cau_sium.Prelude.{
  ℕ, String, ◌≡◌, ◌⊎◌, inl, inr, refl, true, Option, some, List, ◌∙◌, Bool-cases, Option-cases,
  find_row, find_row_sound, find_row-update_first, update_first, arith, leb, is_some,
}
use cau_sium.Prelude.Growth
use cau_sium.Audit.{Stamp}
use cau_sium.Invites.{
  WorkspaceInvite, InviteStatus, pending, InviteStore, InviteCreate, InviteAccept, Context,
  with_status, expired, revoked, accepted_at_now, refreshed, is_overdue, is_pending, get_by_token,
  create_invite, accept_invite, revoke_invite, list_invites, has_token, has_id, get_org,
  count_active_members, get_pending_by_email,
}
use cau_sium.Invites.Joining.{accept_cases}

-- The invite `j` is the invite `i` some requests later.
pub record IsLater (i j : WorkspaceInvite) : Type 0 where
  pub same_id : j.id ≡ i.id
  pub same_org : j.org_id ≡ i.org_id
  pub same_email : j.invited_email ≡ i.invited_email
  pub same_role : j.role ≡ i.role
  pub same_token : j.token ≡ i.token
  pub same_expiry : j.expires_at ≡ i.expires_at
  pub settled : (i.status ≡ pending) ⊎ ((j.status ≡ i.status) × (j.accepted_at ≡ i.accepted_at))

-- Each invite of the first list stands, later, at the same place of the second one, which may have
-- new invites at its end.
abbrev pub Grows : List WorkspaceInvite → List WorkspaceInvite → Type 0
Grows = Growth.Grows IsLater

pub IsLater-refl : (i : WorkspaceInvite) → IsLater i i
IsLater-refl i = record {
  same_id = refl;
  same_org = refl;
  same_email = refl;
  same_role = refl;
  same_token = refl;
  same_expiry = refl;
  settled = inr (refl, refl);
}

IsLater-trans : (i j k : WorkspaceInvite) → IsLater i j → IsLater j k → IsLater i k
IsLater-trans i j k h h' = record {
  same_id = h'.same_id ∙ h.same_id;
  same_org = h'.same_org ∙ h.same_org;
  same_email = h'.same_email ∙ h.same_email;
  same_role = h'.same_role ∙ h.same_role;
  same_token = h'.same_token ∙ h.same_token;
  same_expiry = h'.same_expiry ∙ h.same_expiry;
  settled = elim h.settled [
    | inl free ↦ inl free
    | inr same ↦ elim h'.settled [
      | inl free ↦ inl (rw same.0 at free)
      | inr same' ↦ inr (same'.0 ∙ same.0, same'.1 ∙ same.1)
    ]
  ];
}

pub Grows-refl : (is : List WorkspaceInvite) → Grows is is
Grows-refl = Growth.Grows-refl IsLater IsLater-refl

pub Grows-trans : (is js ks : List WorkspaceInvite) → Grows is js → Grows js ks → Grows is ks
Grows-trans = Growth.Grows-trans IsLater IsLater-trans

status_pending : (i : WorkspaceInvite) → is_pending i.status ≡ true → i.status ≡ pending
status_pending i h = ground arith

with_status-IsLater :
    (status : InviteStatus) (i : WorkspaceInvite)
    → is_pending i.status ≡ true
    → IsLater i (with_status status i)
with_status-IsLater status i h = record {
  same_id = refl;
  same_org = refl;
  same_email = refl;
  same_role = refl;
  same_token = refl;
  same_expiry = refl;
  settled = inl (status_pending i h);
}

accepted_at_now-IsLater :
    (now : ℕ) (i : WorkspaceInvite) → is_pending i.status ≡ true → IsLater i (accepted_at_now now i)
accepted_at_now-IsLater now i h = record {
  same_id = refl;
  same_org = refl;
  same_email = refl;
  same_role = refl;
  same_token = refl;
  same_expiry = refl;
  settled = inl (status_pending i h);
}

refreshed-IsLater : (now : ℕ) (i : WorkspaceInvite) → IsLater i (refreshed now i)
refreshed-IsLater now i = elim (Bool-cases (is_overdue now i)) [
  | inl over ↦ rw over (with_status-IsLater expired i (ground arith))
  | inr fine ↦ rw fine (IsLater-refl i)
]

module _ (token : String) (now : ℕ) (s : InviteStore) where
  pub Grows-get_by_token : Grows s.invites (get_by_token token now s).1.invites
  unfolding get_by_token
  Grows-get_by_token = elim (Option-cases (find_row (has_token token) s.invites)) [
    | inl missing ↦ rw missing (Grows-refl s.invites)
    | inr (i, found) ↦ rw found (
        Growth.Grows-update_first IsLater IsLater-refl (has_token token) (refreshed now) s.invites
          found (refreshed-IsLater now i))
  ]

  refreshed-has_token :
      (i : WorkspaceInvite) → has_token token i ≡ true → has_token token (refreshed now i) ≡ true
  refreshed-has_token i h = ground arith

  -- The acceptance of a token's invite that is still pending.
  pub Grows-accepted :
      (i : WorkspaceInvite)
      → find_row (has_token token) s.invites ≡ some i
      → is_pending (refreshed now i).status ≡ true
      → Grows s.invites (
          update_first
            (has_token token)
            (accepted_at_now now)
            (update_first (has_token token) (refreshed now) s.invites))
  Grows-accepted i found free =
      let fresh = update_first (has_token token) (refreshed now) s.invites in
      Grows-trans s.invites fresh (update_first (has_token token) (accepted_at_now now) fresh)
        (Growth.Grows-update_first IsLater IsLater-refl (has_token token) (refreshed now) s.invites
          found (refreshed-IsLater now i))
        (Growth.Grows-update_first IsLater IsLater-refl (has_token token) (accepted_at_now now)
          fresh
          (find_row-update_first (has_token token) (refreshed now) s.invites found
            (refreshed-has_token i (find_row_sound (has_token token) s.invites found)))
          (accepted_at_now-IsLater now (refreshed now i) free))

module _ (C : Context) (s : InviteStore) where
  pub Grows-create_invite :
      (stamp : Stamp) (token : String) (org_id actor : ℕ) (req : InviteCreate)
      → Grows s.invites (create_invite C stamp token org_id actor req s).1.invites
  unfolding create_invite
  Grows-create_invite stamp token org_id actor req = elim (Option-cases (get_org org_id s)) [
    | inl missing ↦ rw missing (Grows-refl s.invites)
    | inr (org, found) ↦ elim (Bool-cases (leb org.member_quota (count_active_members org_id s))) [
      | inl full ↦ rw (found, full) (Grows-refl s.invites)
      | inr space ↦ elim (Bool-cases (is_some (get_pending_by_email org_id req.email s))) [
        | inl waits ↦ rw (found, space, waits) (Grows-refl s.invites)
        | inr new ↦ rw (found, space, new) (Growth.Grows-append IsLater IsLater-refl s.invites _)
      ]
    ]
  ]

  pub Grows-accept_invite :
      (stamp : Stamp) (token : String) (req : InviteAccept)
      → Grows s.invites (accept_invite C stamp token req s).1.invites
  Grows-accept_invite stamp token req = elim (accept_cases C stamp token req s) [
    | inl missing ↦ rw missing (Grows-refl s.invites)
    | inr (i, found, inl (e, refused)) ↦ rw refused (
        Growth.Grows-update_first IsLater IsLater-refl (has_token token) (refreshed stamp.now)
          s.invites found (refreshed-IsLater stamp.now i))
    | inr (i, found, inr (joins, done)) ↦
        rw done (Grows-accepted token stamp.now s i found joins.is_open)
  ]

  pub Grows-revoke_invite :
      (org_id invite_id actor : ℕ)
      → Grows s.invites (revoke_invite C org_id invite_id actor s).1.invites
  unfolding revoke_invite
  Grows-revoke_invite org_id invite_id actor =
      elim (Option-cases (find_row (has_id org_id invite_id) s.invites)) [
        | inl missing ↦ rw missing (Grows-refl s.invites)
        | inr (i, found) ↦ elim (Bool-cases (is_pending i.status)) [
          | inl free ↦
              rw (found, free)
                (Growth.Grows-update_first IsLater IsLater-refl (has_id org_id invite_id)
                  (with_status revoked) s.invites found (with_status-IsLater revoked i free))
          | inr over ↦ rw (found, over) (Grows-refl s.invites)
        ]
      ]

  pub Grows-list_invites :
      (now org_id limit offset : ℕ) (wanted : Option InviteStatus) (q : Option String)
      → Grows s.invites (list_invites C now org_id limit offset wanted q s).1.invites
  unfolding list_invites
  Grows-list_invites now org_id limit offset wanted q =
      Growth.Grows-update_rows IsLater IsLater-refl _ _
        (λ i h. with_status-IsLater expired i (ground arith)) s.invites
