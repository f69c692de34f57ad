-- ===== src/Accounts/Handling.antt =====
-- What outlasts a request of backend/app/domains/auth/router.py: what outlasts the writes that the
-- user who asks may make.
use cau_sium.Prelude.{
  ℕ, ◌≡◌, refl, subst⁻¹, String, ◌⊎◌, inl, inr, Bool, true, false, ◌&&◌, not, Option, some, ◌*◌,
  select, Bool-cases, Option-cases, Result, ok, err, Failure, value_error, http, raised, is_some,
}
use cau_sium.Prelude.Actions.{Action, raise_if, in_transaction_keeps, ◌>>◌}
use cau_sium.BackupCodes.{one_or_none}
use cau_sium.Accounts.{User, AuthStore, Services, get_user_by_id, is_platform_admin, write_user}
use cau_sium.Accounts.Sessions.{
  user_of_claims, is_revocation, is_token_revoked, second, or_epoch, org_of, halted,
}
use cau_sium.Accounts.Requests.{
  Request, update, delete, purge, purge_me, reset_password, reset_mfa, deactivate, Outside,
  is_purge, answered, unanswered, perform, guard, endpoint, handle,
}
use cau_sium.Accounts.Writing.{Allowed}
use cau_sium.Accounts.Managing.{
  update_keeps, delete_keeps, purge_keeps, reset_password_keeps, reset_mfa_keeps, deactivate_keeps,
}

Result-cases : {A : Type 0} (r : Result A) → ((a : A) × (r ≡ ok a)) ⊎ ((e : Failure) × (r ≡ err e))
Result-cases (ok a) = inl (a, refl)
Result-cases (err e) = inr (e, refl)

-- Whoever is authenticated is found, and nothing changes.
user_of_claims_cases :
    (user_id : ℕ) (iat : Option ℕ) (s : AuthStore)
    → ((e : Failure) × (user_of_claims user_id iat s ≡ (err e, s)))
      ⊎ ((actor : User) × (get_user_by_id user_id s ≡ some actor)
          × (user_of_claims user_id iat s ≡ (ok actor, s)))
unfolding user_of_claims is_token_revoked
user_of_claims_cases user_id iat s =
    elim (Result-cases
      (one_or_none (select (is_revocation user_id (or_epoch iat * second)) s.revoked_tokens))) [
        | inr (e, ambiguous) ↦ inl (e, rw ambiguous refl)
        | inl (row, fine) ↦ elim (Bool-cases (is_some row)) [
          | inl revoked ↦ inl (http 401 "Session revoked", rw (fine, revoked) refl)
          | inr valid ↦ elim (Option-cases (get_user_by_id user_id s)) [
            | inl missing ↦
                inl (http 401 "User inactive or not found", rw (fine, valid, missing) refl)
            | inr (u, found) ↦ elim (Bool-cases u.is_active) [
              | inr gone ↦
                  inl (http 401 "User inactive or not found", rw (fine, valid, found, gone) refl)
              | inl here ↦
                  elim (Bool-cases (not (is_platform_admin u.role) && halted (org_of u.org_id s))) [
                    | inl stopped ↦ inl (
                      http 403 "Workspace is not active",
                      simp (fine, valid, found, here, stopped) refl,
                    )
                    | inr running ↦ inr (u, found, simp (fine, valid, found, here, running) refl)
                  ]
            ]
          ]
        ]
      ]

answered_state :
    {A : Type 0} (refused : String → Failure) (r : Result A × AuthStore)
    → (answered refused r).1 ≡ r.1
answered_state refused (ok a, s) = refl
answered_state refused (err (value_error message), s) = refl
answered_state refused (err (http status detail), s) = refl
answered_state refused (err (raised class), s) = refl

unanswered_state : {A : Type 0} (r : Result A × AuthStore) → (unanswered r).1 ≡ r.1
unanswered_state (ok a, s) = refl
unanswered_state (err e, s) = refl

module _ {κ} (P : AuthStore → Type κ)
    (users_only : (s t : AuthStore) → t.users ≡ s.users → P s → P t) (C : Services) where
  answered_keeps :
      {A : Type 0} (refused : String → Failure) (r : Result A × AuthStore)
      → P r.1
      → P (answered refused r).1
  answered_keeps refused r h = subst⁻¹ P (answered_state refused r) h

  unanswered_keeps : {A : Type 0} (r : Result A × AuthStore) → P r.1 → P (unanswered r).1
  unanswered_keeps r h = subst⁻¹ P (unanswered_state r) h

  perform_keeps :
      (actor : User) (request : Request) (o : Outside) (s : AuthStore)
      → P s
      → ((u u' : User) → Allowed (is_purge request) actor s u u' → P (write_user u' s))
      → P (perform C actor request o s).1
  perform_keeps actor (update target req) o s h written =
      unanswered_keeps _ (update_keeps P users_only C false actor s h written target req)
  perform_keeps actor (delete target reason) o s h written =
      unanswered_keeps _ (delete_keeps P users_only C false actor s h written target reason o.now)
  perform_keeps actor (purge target) o s h written =
      answered_keeps _ _
        (purge_keeps P users_only C true actor s h written refl target o.salt o.draw o.now)
  perform_keeps actor purge_me o s h written =
      unanswered_keeps _
        (purge_keeps P users_only C true actor s h written refl actor.id o.salt o.draw o.now)
  perform_keeps actor (reset_password target) o s h written =
      answered_keeps _ _
        (reset_password_keeps P users_only C false actor s h written target o.draw o.salt)
  perform_keeps actor (reset_mfa target) o s h written =
      answered_keeps _ _ (reset_mfa_keeps P users_only C false actor s h written target)
  perform_keeps actor (deactivate target reason) o s h written =
      answered_keeps _ _
        (deactivate_keeps P users_only C false actor s h written target reason o.now)

  required_keeps :
      {B : Type 0} (b : Bool) (e : Failure) (k : Action AuthStore B) (s : AuthStore)
      → P s
      → P (k s).1
      → P ((raise_if b e >> k) s).1
  required_keeps true e k s h later = h
  required_keeps false e k s h later = later

  guard_keeps :
      {B : Type 0} (request : Request) (actor : User) (k : Action AuthStore B) (s : AuthStore)
      → P s
      → P (k s).1
      → P ((guard C request actor >> k) s).1
  guard_keeps purge_me actor k s h later = later
  guard_keeps (update x y) actor k s h later = required_keeps _ _ k s h later
  guard_keeps (delete x y) actor k s h later = required_keeps _ _ k s h later
  guard_keeps (purge x) actor k s h later = required_keeps _ _ k s h later
  guard_keeps (reset_password x) actor k s h later = required_keeps _ _ k s h later
  guard_keeps (reset_mfa x) actor k s h later = required_keeps _ _ k s h later
  guard_keeps (deactivate x y) actor k s h later = required_keeps _ _ k s h later

  guarded_keeps :
      (actor : User) (request : Request) (o : Outside) (s : AuthStore)
      → P s
      → ((u u' : User) → Allowed (is_purge request) actor s u u' → P (write_user u' s))
      → P ((guard C request actor >> perform C actor request o) s).1
  guarded_keeps actor request o s h written =
      guard_keeps request actor (perform C actor request o) s h
        (perform_keeps actor request o s h written)

  pub handle_keeps :
      (actor_id : ℕ) (iat : Option ℕ) (request : Request) (o : Outside) (s : AuthStore)
      → P s
      → ((actor : User)
          → get_user_by_id actor_id s ≡ some actor
          → (u u' : User) → Allowed (is_purge request) actor s u u'
          → P (write_user u' s))
      → P (handle C actor_id iat request o s).1
  unfolding handle
  handle_keeps actor_id iat request o s h written =
      in_transaction_keeps P (endpoint C actor_id iat request o) s h
        (elim (user_of_claims_cases actor_id iat s) [
          | inl (e, refused) ↦ rw refused h
          | inr (actor, found, entered) ↦
              rw entered (guarded_keeps actor request o s h (written actor found))
        ])
