-- ===== src/Accounts/Escalation.antt =====
-- Seven kinds of requests of backend/app/domains/auth/router.py, which change users that there are:
-- what they leave of the standing of users, and of the users that the actor may not manage.
use cau_sium.Prelude.{
  ℕ, ◌≤◌, ◌≡◌, ◌≢◌, ◌∙◌, refl, ap, sym, subst, ◌⊎◌, inl, inr, Bool, true, false, Option, none, some,
  List, [], ◌∷◌, All, All-map, find_row, find_row-update_first, update_first, ltb, ◌==◌, Bool-cases,
  arith,
}
use cau_sium.Policy.{UserRole, platform_admin, admin, engineer, finops, executive, viewer}
use cau_sium.Accounts.{
  User, AuthStore, Services, get_user_by_id, role_rank, can_manage, is_platform_admin, promotes,
  or_old, write_user,
}
use cau_sium.Accounts.Requests.{Call, is_purge, is_admin, handle, handle_all}
use cau_sium.Accounts.Writing.{Allowed, is_outside}
use cau_sium.Accounts.Handling.{handle_keeps}

-- The workspace of a user, and whether the role is that of an administrator or of a platform
-- administrator.
abbrev pub standing : Option User → Option (Option ℕ × (Bool × Bool))
standing none = none
standing (some u) = some (u.org_id, (is_admin u.role, is_platform_admin u.role))

abbrev pub standing_of : ℕ → AuthStore → Option (Option ℕ × (Bool × Bool))
standing_of user_id s = standing (get_user_by_id user_id s)

abbrev pub is_platform : Option (Option ℕ × (Bool × Bool)) → Bool
is_platform none = false
is_platform (some (org_id, (administers, over_all))) = over_all

find_row-update_other :
    {A : Type 0} (p q : A → Bool) (y : A) (xs : List A)
    → q y ≡ false
    → ((x : A) → p x ≡ true → q x ≡ false)
    → find_row q (update_first p (λ _. y) xs) ≡ find_row q xs
find_row-update_other p q y [] miss apart = refl
find_row-update_other p q y (x ∷ xs) miss apart = elim (Bool-cases (p x)) [
  | inl hit ↦ rw (hit, miss, apart x hit) refl
  | inr other ↦ rw other (ground (arith, find_row-update_other p q y xs miss apart))
]

-- After the row of a user is written: that user, and every other one.
pub written_same :
    (s : AuthStore) (u u' : User)
    → get_user_by_id u.id s ≡ some u
    → u'.id ≡ u.id
    → get_user_by_id u.id (write_user u' s) ≡ some u'
unfolding write_user
written_same s u u' found same = simp same (
    find_row-update_first (λ v. v.id == u.id) (λ _. u') s.users {x = u} found
      (ground (arith, same)))

written_other :
    (user_id : ℕ) (s : AuthStore) (u' : User)
    → user_id ≢ u'.id
    → get_user_by_id user_id (write_user u' s) ≡ get_user_by_id user_id s
unfolding write_user
written_other user_id s u' other =
    find_row-update_other (λ v. v.id == u'.id) (λ v. v.id == user_id) u' s.users
      (ground (arith, other)) (λ v hit. ground (arith, other, hit))

rank_bound : (a : UserRole) → is_platform_admin a ≡ false → role_rank a ≤ 2
rank_bound platform_admin other = absurd (cc other)
rank_bound admin other = omega arith
rank_bound engineer other = omega arith
rank_bound finops other = omega arith
rank_bound executive other = omega arith
rank_bound viewer other = omega arith

admin_rank : (t : UserRole) → is_admin t ≡ true → 2 ≤ role_rank t
admin_rank platform_admin h = omega arith
admin_rank admin h = omega arith
admin_rank engineer h = absurd (cc h)
admin_rank finops h = absurd (cc h)
admin_rank executive h = absurd (cc h)
admin_rank viewer h = absurd (cc h)

below_admin :
    (a t : UserRole)
    → is_platform_admin a ≡ false
    → ltb (role_rank t) (role_rank a) ≡ true
    → is_admin t ≡ false
below_admin a t other below = elim (Bool-cases (is_admin t)) [
  | inl high ↦ absurd (ground (arith, rank_bound a other, admin_rank t high, below))
  | inr low ↦ low
]

low_platform : (t : UserRole) → is_admin t ≡ false → is_platform_admin t ≡ false
low_platform platform_admin low = absurd (cc low)
low_platform admin low = refl
low_platform engineer low = refl
low_platform finops low = refl
low_platform executive low = refl
low_platform viewer low = refl

low_role : (r : UserRole) → promotes (some r) ≡ false → is_admin r ≡ false
low_role platform_admin safe = absurd (cc safe)
low_role admin safe = absurd (cc safe)
low_role engineer safe = refl
low_role finops safe = refl
low_role executive safe = refl
low_role viewer safe = refl

kept_role :
    (r : Option UserRole) (t : UserRole)
    → promotes r ≡ false
    → is_admin t ≡ false
    → (is_admin (or_old r t) ≡ is_admin t) × (is_platform_admin (or_old r t) ≡ is_platform_admin t)
kept_role none t safe low = (refl, refl)
kept_role (some r) t safe low =
    let lower = low_role r safe in
    (lower ∙ sym low, low_platform r lower ∙ sym (low_platform t low))

same_standing :
    (purging : Bool) (actor : User) (s : AuthStore) (u u' : User)
    → is_platform_admin actor.role ≡ false
    → Allowed purging actor s u u'
    → standing (some u') ≡ standing (some u)
same_standing purging actor s u u' other w = elim w.role [
  | inl same ↦ rw (same, w.same_org) refl
  | inr (manages, inl platform) ↦ absurd (cc (platform, other))
  | inr (manages, inr (req, safe, e)) ↦
      let kept = kept_role req.role u.role safe (below_admin actor.role u.role other manages) in
      rw e (rw (kept.0, kept.1) refl)
]

-- A write that is allowed to an actor who is no platform administrator.
written_standing :
    (purging : Bool) (actor : User) (s : AuthStore) (u u' : User) (user_id : ℕ)
    → is_platform_admin actor.role ≡ false
    → Allowed purging actor s u u'
    → standing_of user_id (write_user u' s) ≡ standing_of user_id s
written_standing purging actor s u u' user_id other w = elim (Bool-cases (user_id == u.id)) [
  | inl hit ↦
      let same : user_id ≡ u.id = ground (arith, hit) in
      ap (λ n. standing_of n (write_user u' s)) same
      ∙ ap standing (written_same s u u' w.found w.same_id)
      ∙ same_standing purging actor s u u' other w
      ∙ sym (ap standing w.found)
      ∙ sym (ap (λ n. standing_of n s) same)
  | inr miss ↦
      ap standing (written_other user_id s u' (λ e. absurd (ground (arith, miss, e, w.same_id))))
]

-- Neither managed nor the actor; or out of reach.
abbrev Spared : Bool → User → User → Type 0
Spared purging actor u =
    ((can_manage actor u ≡ false) × (actor.id ≢ u.id))
    ⊎ ((purging ≡ false) × (is_outside actor u ≡ true))

reach_excluded :
    (purging : Bool) (actor : User) (s : AuthStore) (u u' : User)
    → Allowed purging actor s u u'
    → ¬ Spared purging actor u
reach_excluded purging actor s u u' w (inl (below, other)) = elim w.manages [
  | inl manages ↦ cc (manages, below)
  | inr self ↦ other self
]
reach_excluded purging actor s u u' w (inr (no_purge, outside)) = elim w.inside [
  | inl purges ↦ cc (purges, no_purge)
  | inr inside ↦ cc (inside, outside)
]

written_elsewhere :
    (purging : Bool) (actor : User) (s : AuthStore) (u x x' : User)
    → get_user_by_id u.id s ≡ some u
    → Allowed purging actor s x x'
    → Spared purging actor u
    → get_user_by_id u.id (write_user x' s) ≡ some u
written_elsewhere purging actor s u x x' found w spared = elim (Bool-cases (u.id == x.id)) [
  | inl hit ↦
      let same_id : u.id ≡ x.id = ground (arith, hit) in
      let there : get_user_by_id u.id s ≡ some x = ap (λ n. get_user_by_id n s) same_id ∙ w.found in
      let same : u ≡ x = cc (there, found) in
      absurd (reach_excluded purging actor s x x' w (subst (Spared purging actor) same spared))
  | inr miss ↦ written_other u.id s x' (λ e. absurd (ground (arith, miss, e, w.same_id))) ∙ found
]

module _ (C : Services) where
  handle_standing :
      (c : Call) (s : AuthStore) (user_id : ℕ)
      → is_platform (standing_of c.actor_id s) ≡ false
      → standing_of user_id (handle C c.actor_id c.iat c.request c.outside s).1
        ≡ standing_of user_id s
  handle_standing c s user_id other =
      handle_keeps (λ t. standing_of user_id t ≡ standing_of user_id s)
        (λ t v same h. ap (λ users. standing (find_row (λ u. u.id == user_id) users)) same ∙ h) C
        c.actor_id c.iat c.request c.outside s refl
        (λ actor found u u' w.
          written_standing (is_purge c.request) actor s u u' user_id
            (sym (ap (λ u. is_platform (standing u)) found) ∙ other) w)

  -- Over any sequence of seven kinds of requests (update, deletion, purge, reset of the password,
  -- reset of MFA and deactivation of a user by an administrator, and the purge of oneself), by
  -- actors of whom none is a platform administrator at first, no user changes the workspace,
  -- becomes or ceases to be an administrator or a platform administrator, appears or disappears.
  -- The requests that create users (`POST /auth/users`, the acceptance of an invite) are not among
  -- these kinds.
  pub handle_all_keeps_standing :
      (calls : List Call) (s : AuthStore)
      → All (λ c. is_platform (standing_of c.actor_id s) ≡ false) calls
      → (user_id : ℕ) → standing_of user_id (handle_all C calls s) ≡ standing_of user_id s
  unfolding handle_all
  handle_all_keeps_standing [] s others user_id = refl
  handle_all_keeps_standing (c ∷ calls) s others user_id =
      let t = (handle C c.actor_id c.iat c.request c.outside s).1 in
      handle_all_keeps_standing calls t
        (All-map (λ d. is_platform (standing_of d.actor_id s) ≡ false)
          (λ d. is_platform (standing_of d.actor_id t) ≡ false) calls
          (λ d other. ap is_platform (handle_standing c s d.actor_id others.0) ∙ other) others.1)
        user_id
      ∙ handle_standing c s user_id others.0

  -- A request of the seven kinds of `Request` (update, deletion, purge of another or of oneself,
  -- reset of the password or of MFA, deactivation), answered or refused, leaves the row of every
  -- user as it is whom the actor neither is nor outranks; and if it is no purge, also of every
  -- user of another workspace than the actor's, unless the actor is a platform administrator.
  pub handle_spares :
      (c : Call) (s : AuthStore) (actor u : User)
      → get_user_by_id c.actor_id s ≡ some actor
      → get_user_by_id u.id s ≡ some u
      → ((can_manage actor u ≡ false) × (actor.id ≢ u.id))
        ⊎ ((is_purge c.request ≡ false) × (is_outside actor u ≡ true))
      → get_user_by_id u.id (handle C c.actor_id c.iat c.request c.outside s).1 ≡ some u
  handle_spares c s actor u acts found spared =
      handle_keeps (λ t. get_user_by_id u.id t ≡ some u)
        (λ t v same h. ap (λ users. find_row (λ x. x.id == u.id) users) same ∙ h) C c.actor_id c.iat
        c.request c.outside s found
        (λ actor' found' x x' w.
          let same : actor' ≡ actor = cc (acts, found') in
          written_elsewhere (is_purge c.request) actor s u x x' found
            (subst (λ a. Allowed (is_purge c.request) a s x x') same w) spared)
