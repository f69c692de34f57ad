-- ===== src/Invites/Pending.antt =====
-- At most one pending invite for an address in a workspace, over sequences of requests.
use cau_sium.Prelude.{
  ◌&&◌, ℕ, String, ◌≡◌, ◌∙◌, sym, ap, inl, inr, refl, true, false, Option, List, [], ◌∷◌, ◌++◌,
  ◌==◌, leb, Bool-cases, Option-cases, arith, length, find_row, any_row, any_row-find_row,
  any_row-append, update_first, length-update_first, length-update_rows, str_eq_iff, is_some,
}
use cau_sium.Audit.{Stamp}
use cau_sium.Invites.{
  WorkspaceInvite, InviteStore, InviteAccept, InviteCreate, InviteStatus, pending, Context, get_org,
  count_active_members, get_by_token, get_pending_by_email, is_pending_for, new_invite,
  create_invite, accept_invite, revoke_invite, list_invites, has_token, has_id, refreshed,
  accepted_at_now, with_status, revoked, expired, is_overdue,
}
use cau_sium.Invites.Joining.{accept_cases}
use cau_sium.Invites.Machine.{
  IsLater, Grows, Grows-get_by_token, Grows-accept_invite, Grows-revoke_invite, Grows-list_invites,
}
use cau_sium.Invites.Histories.{Op, run, step_keeps, run_keeps}

-- No later invite of the list is a pending one of the same workspace and address.
abbrev pub UniquePending : List WorkspaceInvite → Type 0
UniquePending [] = Unit
UniquePending (i ∷ is) =
    (i.status ≡ pending → any_row (is_pending_for i.org_id i.invited_email) is ≡ false)
    × UniquePending is

is_pending_for_later :
    (org_id : ℕ) (email : String) (i j : WorkspaceInvite)
    → IsLater i j
    → is_pending_for org_id email i ≡ false
    → is_pending_for org_id email j ≡ false
is_pending_for_later org_id email i j h no_match =
    rw (h.same_org, h.same_email)
      (elim h.settled [ inl free ↦ ground arith | inr same ↦ rw same.0 no_match ])

any_row_later :
    (org_id : ℕ) (email : String) (is js : List WorkspaceInvite)
    → Grows is js
    → length js ≡ length is
    → any_row (is_pending_for org_id email) is ≡ false
    → any_row (is_pending_for org_id email) js ≡ false
any_row_later org_id email [] [] h n none_there = refl
any_row_later org_id email [] (j ∷ js) h n none_there = absurd (omega (arith, n))
any_row_later org_id email (i ∷ is) [] h n none_there = elim h [ ]
any_row_later org_id email (i ∷ is) (j ∷ js) h n none_there =
    rw (is_pending_for_later org_id email i j h.0 (ground arith))
      (any_row_later org_id email is js h.1 (omega (arith, n)) (ground arith))

-- Without new invites, the list stays unique.
UniquePending-later :
    (is js : List WorkspaceInvite)
    → Grows is js
    → length js ≡ length is
    → UniquePending is
    → UniquePending js
UniquePending-later [] [] h n u = tt
UniquePending-later [] (j ∷ js) h n u = absurd (omega (arith, n))
UniquePending-later (i ∷ is) [] h n u = elim h [ ]
UniquePending-later (i ∷ is) (j ∷ js) h n u = (
  λ free.
      rw (h.0.same_org, h.0.same_email)
        (any_row_later i.org_id i.invited_email is js h.1 (omega (arith, n))
          (u.0 (elim h.0.settled [ inl was ↦ was | inr same ↦ sym same.0 ∙ free ]))),
  UniquePending-later is js h.1 (omega (arith, n)) u.1,
)

-- No request but a creation adds a row.
module _ (C : Context) (s : InviteStore) where
  length-get_by_token :
      (token : String) (now : ℕ) → length (get_by_token token now s).1.invites ≡ length s.invites
  unfolding get_by_token
  length-get_by_token token now = elim (Option-cases (find_row (has_token token) s.invites)) [
    | inl missing ↦ rw missing refl
    | inr (i, found) ↦ rw found (length-update_first (has_token token) (refreshed now) s.invites)
  ]

  length-accept_invite :
      (stamp : Stamp) (token : String) (req : InviteAccept)
      → length (accept_invite C stamp token req s).1.invites ≡ length s.invites
  length-accept_invite stamp token req =
      let fresh = update_first (has_token token) (refreshed stamp.now) s.invites in
      let same = length-update_first (has_token token) (refreshed stamp.now) s.invites in
      elim (accept_cases C stamp token req s) [
        | inl missing ↦ rw missing refl
        | inr (i, found, inl (e, refused)) ↦ rw refused same
        | inr (i, found, inr (joins, done)) ↦
            rw done (length-update_first (has_token token) (accepted_at_now stamp.now) fresh ∙ same)
      ]

  length-revoke_invite :
      (org id actor : ℕ) → length (revoke_invite C org id actor s).1.invites ≡ length s.invites
  unfolding revoke_invite
  length-revoke_invite org id actor =
      ground (arith, length-update_first (has_id org id) (with_status revoked) s.invites)

  length-list_invites :
      (now org_id limit offset : ℕ) (wanted : Option InviteStatus) (q : Option String)
      → length (list_invites C now org_id limit offset wanted q s).1.invites ≡ length s.invites
  unfolding list_invites
  length-list_invites now org_id limit offset wanted q =
      length-update_rows (λ i. i.org_id == org_id && is_overdue now i) (with_status expired)
        s.invites

-- Two invites of one workspace and address are each a match of the other.
match_back :
    (i j : WorkspaceInvite)
    → i.status ≡ pending
    → is_pending_for i.org_id i.invited_email j ≡ true
    → is_pending_for j.org_id j.invited_email i ≡ true
match_back i j free h =
    ground (
      arith,
      str_eq_iff i.invited_email j.invited_email,
      str_eq_iff j.invited_email i.invited_email,
    )

-- A new invite is unique if no pending one matches its workspace and address.
UniquePending-append :
    (is : List WorkspaceInvite) (j : WorkspaceInvite)
    → any_row (is_pending_for j.org_id j.invited_email) is ≡ false
    → UniquePending is
    → UniquePending (is ++ j ∷ [])
UniquePending-append [] j none_there u = (λ _. refl, tt)
UniquePending-append (i ∷ is) j none_there u = (
  λ free.
      let p = is_pending_for i.org_id i.invited_email in
      rw (any_row-append p is (j ∷ []), u.0 free)
        (elim (Bool-cases (is_pending_for i.org_id i.invited_email j)) [
          | inl hit ↦ absurd (cc (ap (λ b. b) (match_back i j free hit)))
          | inr miss ↦ rw miss refl
        ]),
  UniquePending-append is j (ground arith) u.1,
)

module _ (C : Context) (s : InviteStore) (u : UniquePending s.invites) where
  UniquePending-create_invite :
      (stamp : Stamp) (token : String) (org_id actor : ℕ) (req : InviteCreate)
      → UniquePending (create_invite C stamp token org_id actor req s).1.invites
  unfolding create_invite get_pending_by_email new_invite
  UniquePending-create_invite stamp token org_id actor req =
      elim (Option-cases (get_org org_id s)) [
        | inl missing ↦ rw missing u
        | inr (org, found) ↦
            elim (Bool-cases (leb org.member_quota (count_active_members org_id s))) [
              | inl full ↦ rw (found, full) u
              | inr space ↦
                  let waiting = find_row (is_pending_for org_id req.email) s.invites in
                  elim (Bool-cases (is_some waiting)) [
                    | inl waits ↦ rw (found, space, waits) u
                    | inr new ↦
                        rw (found, space, new)
                          (UniquePending-append s.invites
                            (new_invite C stamp token org_id actor req)
                            (any_row-find_row (is_pending_for org_id req.email) s.invites ∙ new) u)
                  ]
            ]
      ]

  UniquePending-get_by_token :
      (token : String) (now : ℕ) → UniquePending (get_by_token token now s).1.invites
  unfolding get_by_token
  UniquePending-get_by_token token now =
      UniquePending-later s.invites (get_by_token token now s).1.invites
        (Grows-get_by_token token now s) (length-get_by_token C s token now) u

  UniquePending-accept_invite :
      (stamp : Stamp) (token : String) (req : InviteAccept)
      → UniquePending (accept_invite C stamp token req s).1.invites
  UniquePending-accept_invite stamp token req =
      UniquePending-later s.invites (accept_invite C stamp token req s).1.invites
        (Grows-accept_invite C s stamp token req) (length-accept_invite C s stamp token req) u

  UniquePending-revoke_invite :
      (org id actor : ℕ) → UniquePending (revoke_invite C org id actor s).1.invites
  UniquePending-revoke_invite org id actor =
      UniquePending-later s.invites (revoke_invite C org id actor s).1.invites
        (Grows-revoke_invite C s org id actor) (length-revoke_invite C s org id actor) u

  UniquePending-list_invites :
      (now org limit offset : ℕ) (wanted : Option InviteStatus) (q : Option String)
      → UniquePending (list_invites C now org limit offset wanted q s).1.invites
  UniquePending-list_invites now org limit offset wanted q =
      UniquePending-later s.invites (list_invites C now org limit offset wanted q s).1.invites
        (Grows-list_invites C s now org limit offset wanted q)
        (length-list_invites C s now org limit offset wanted q) u

-- If no address has two pending invites of one workspace, none has after any requests.
pub run-UniquePending :
    (C : Context) (os : List Op) (s : InviteStore)
    → UniquePending s.invites
    → UniquePending (run C os s).invites
run-UniquePending C os s u =
    run_keeps C (λ t. UniquePending t.invites)
      (λ o t h.
        step_keeps C (λ r. UniquePending r.invites) t h (UniquePending-get_by_token C t h)
          (UniquePending-create_invite C t h) (UniquePending-accept_invite C t h)
          (UniquePending-revoke_invite C t h) (UniquePending-list_invites C t h) o)
      os s u
