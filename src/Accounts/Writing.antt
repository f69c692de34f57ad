-- ===== src/Accounts/Writing.antt =====
-- Which rows of users the administrators' requests write: backend/app/domains/auth/service.py and
-- router.py. A property of the table that outlasts every write that is allowed outlasts a request.
use cau_sium.Prelude.{
  ℕ, ◌≡◌, refl, subst, String, ◌⊎◌, inl, inr, Bool, true, false, ◌&&◌, not, Option, none, some,
  find_row_sound, opt_eq, ◌==◌, Bool-cases, Option-cases, Result, ok, err, Failure, arith,
}
use cau_sium.Prelude.Actions.{Action, raise_if, or_raise, and_then, ◌>>=◌, ◌>>◌}
use cau_sium.Audit.{Payload, AuditCall}
use cau_sium.Accounts.{
  User, UserUpdate, AuthStore, Services, get_user_by_id, can_manage, is_platform_admin, promotes,
  is_taken, write_user, save_user, append_audit, record_event, scoped_target, updated,
}

-- The target is of another workspace than the actor, who is no platform administrator.
abbrev pub is_outside : User → User → Bool
is_outside actor target =
    not (is_platform_admin actor.role) && not (opt_eq target.org_id actor.org_id)

-- A row that an actor may write over another one, in a purge or in another request.
pub record Allowed (purging : Bool) (actor : User) (s : AuthStore) (target target' : User)
    : Type 0 where
  pub found : get_user_by_id target.id s ≡ some target
  pub same_id : target'.id ≡ target.id
  pub same_org : target'.org_id ≡ target.org_id
  pub inside : (purging ≡ true) ⊎ (is_outside actor target ≡ false)
  pub manages : (can_manage actor target ≡ true) ⊎ (actor.id ≡ target.id)
  pub role :
      (target'.role ≡ target.role)
      ⊎ ((can_manage actor target ≡ true)
          × ((is_platform_admin actor.role ≡ true)
              ⊎ ((req : UserUpdate) × (promotes req.role ≡ false)
                  × (target' ≡ updated req target))))

own_id :
    (user_id : ℕ) (s : AuthStore) {u : User} → get_user_by_id user_id s ≡ some u → user_id ≡ u.id
own_id user_id s {u} found =
    let hit = find_row_sound (λ v. v.id == user_id) s.users {x = u} found in ground (arith, hit)

pub affirmed : (b : Bool) → not b ≡ false → b ≡ true
affirmed true h = refl
affirmed false h = absurd (cc h)

module _ {κ} (P : AuthStore → Type κ)
    (users_only : (s t : AuthStore) → t.users ≡ s.users → P s → P t) where
  pub after_then :
      {A B : Type 0} (f : A → Action AuthStore B) (r : Result A × AuthStore)
      → P r.1
      → ((a : A) → P (f a r.1).1)
      → P (and_then f r).1
  after_then f (ok a, s) h later = later a
  after_then f (err e, s) h later = h

  pub guard_keeps :
      {B : Type 0} (b : Bool) (e : Failure) (k : Action AuthStore B) (s : AuthStore)
      → P s
      → (b ≡ false → P (k s).1)
      → P ((raise_if b e >> k) s).1
  guard_keeps true e k s h later = h
  guard_keeps false e k s h later = later refl

  pub save_keeps : (u : User) (s : AuthStore) → P s → P (write_user u s) → P (save_user u s).1
  unfolding save_user
  save_keeps u s h written = elim (Bool-cases (is_taken u s)) [
    | inl taken ↦ rw taken h
    | inr free ↦ rw free written
  ]

  audit_keeps :
      (org_id : Option ℕ) (call : ℕ → AuditCall) (s : AuthStore)
      → P s
      → P (append_audit org_id call s).1
  unfolding append_audit
  audit_keeps none call s h = h
  audit_keeps (some org_id) call s h = users_only s _ refl h

  pub event_keeps :
      (C : Services) (actor target : User) (event_type : String) (payload : Payload) (s : AuthStore)
      → P s
      → P (record_event C actor target event_type payload s).1
  unfolding record_event
  event_keeps C actor target event_type payload s h = audit_keeps target.org_id _ s h

  pub target_keeps :
      {B : Type 0} (user_id : ℕ) (e : Failure) (f : User → Action AuthStore B) (s : AuthStore)
      → P s
      → ((u : User) → get_user_by_id u.id s ≡ some u → P (f u s).1)
      → P (and_then f (or_raise (get_user_by_id user_id s) e s)).1
  target_keeps user_id e f s h later = elim (Option-cases (get_user_by_id user_id s)) [
    | inl missing ↦ rw missing h
    | inr (u, found) ↦
        rw found (
          later u (subst (λ n. get_user_by_id n s ≡ some u) (own_id user_id s {u = u} found) found))
  ]

  pub scoped_keeps :
      {B : Type 0} (actor : User) (user_id : ℕ) (f : User → Action AuthStore B) (s : AuthStore)
      → P s
      → ((u : User) → get_user_by_id u.id s ≡ some u → is_outside actor u ≡ false → P (f u s).1)
      → P ((scoped_target actor user_id >>= f) s).1
  unfolding scoped_target
  scoped_keeps actor user_id f s h later = elim (Option-cases (get_user_by_id user_id s)) [
    | inl missing ↦ rw missing h
    | inr (u, found) ↦ elim (Bool-cases (is_outside actor u)) [
      | inl outside ↦ rw (found, outside) h
      | inr inside ↦
          rw (found, inside)
            (later u
              (subst (λ n. get_user_by_id n s ≡ some u) (own_id user_id s {u = u} found) found)
              inside)
    ]
  ]
