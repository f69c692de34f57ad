-- ===== src/Invites/Once.antt =====
-- An invite is accepted at most once.
use cau_sium.Prelude.{
  ℕ, String, ◌≡◌, inl, inr, refl, true, some, ok, err, http, find_row, find_row_sound, update_first,
  find_row-update_first, arith,
}
use cau_sium.Audit.{Stamp}
use cau_sium.Invites.{
  WorkspaceInvite, User, InviteStore, InviteAccept, Context, accepted_at_now, refreshed,
  get_by_token, accept_invite, has_token,
}
use cau_sium.Invites.Joining.{accept_cases, seen, joined}

module _ (C : Context) (token : String) where
  -- An invite that is found accepted is refused.
  refuses_accepted :
      (stamp : Stamp) (req : InviteAccept) (now : ℕ) (i : WorkspaceInvite) (s : InviteStore)
      → find_row (has_token token) s.invites ≡ some (accepted_at_now now i)
      → (accept_invite C stamp token req s).0 ≡ err (http 409 "Invite cannot be accepted.")
  unfolding accept_invite get_by_token
  refuses_accepted stamp req now i s found = rw found refl

  refreshed_token :
      (now : ℕ) (i : WorkspaceInvite)
      → has_token token i ≡ true
      → has_token token (refreshed now i) ≡ true
  refreshed_token now i h = ground arith

  accepted_has_token :
      (now : ℕ) (i : WorkspaceInvite)
      → has_token token i ≡ true
      → has_token token (accepted_at_now now (refreshed now i)) ≡ true
  accepted_has_token now i h = ground arith

  -- After an acceptance has succeeded, every further one by the same token, by whomever and
  -- whenever, is refused with 409.
  pub accept_invite_once :
      (stamp stamp' : Stamp) (req req' : InviteAccept) (s : InviteStore) (user : User)
      → (accept_invite C stamp token req s).0 ≡ ok user
      → (accept_invite C stamp' token req' (accept_invite C stamp token req s).1).0
        ≡ err (http 409 "Invite cannot be accepted.")
  accept_invite_once stamp stamp' req req' s user h = elim (accept_cases C stamp token req s) [
    | inl missing ↦ absurd (cc (rw missing at h))
    | inr (i, found, inl (e, refused)) ↦ absurd (cc (rw refused at h))
    | inr (i, found, inr (joins, done)) ↦
        let hit = find_row_sound (has_token token) s.invites found in
        let fresh = update_first (has_token token) (refreshed stamp.now) s.invites in
        rw done (
          refuses_accepted stamp' req' stamp.now (refreshed stamp.now i)
            (joined C stamp token req (refreshed stamp.now i) (seen token stamp.now s))
            (find_row-update_first (has_token token) (accepted_at_now stamp.now) fresh
              (find_row-update_first (has_token token) (refreshed stamp.now) s.invites found
                (refreshed_token stamp.now i hit))
              (accepted_has_token stamp.now i hit)))
  ]
