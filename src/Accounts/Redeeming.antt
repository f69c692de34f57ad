-- ===== src/Accounts/Redeeming.antt =====
-- Challenges and tokens are good for once: `_consume_challenge` and `reset_password` of
-- backend/app/domains/auth/service.py.
use cau_sium.Prelude.{
  ℕ, ◌≡◌, ◌∙◌, refl, ap, sym, subst⁻¹, Option-cases, inl, inr, String, Bool, true, false, Option,
  none, some, List, [], ◌∷◌, select, update_first, ltb, if◌then◌else◌, Bool-cases, Result, ok, err,
  value_error, arith,
}
use cau_sium.Prelude.Actions.{Action, or_raise, and_then, ◌>>=◌}
use cau_sium.BackupCodes.{one_or_none}
use cau_sium.BackupCodes.Spending.{one_found}
use cau_sium.Accounts.{AuthChallenge, AuthStore, Services, get_user_by_id, write_user}
use cau_sium.Accounts.Challenges.{
  is_unconsumed, is_challenge, consumed, consume, the_challenge, consume_item, consume_challenge,
  is_open_reset, reset_with, reset_password,
}

-- The only row that passes a test, after it has been changed.
select-sole :
    {A : Type 0} (p : A → Bool) (f : A → A) (xs : List A) {x : A}
    → select p xs ≡ x ∷ []
    → select p (update_first p f xs) ≡ (if p (f x) then f x ∷ [] else [])
select-sole p f [] h = absurd (cc h)
select-sole p f (y ∷ xs) {x} h = elim (Bool-cases (p y)) [
  | inl hit ↦
      let both : y ∷ select p xs ≡ x ∷ [] = rw hit at h in
      let same : y ≡ x = cc both in
      let rest : select p xs ≡ [] = cc both in rw (hit, same, rest) refl
  | inr miss ↦ rw (miss, miss) (select-sole p f xs {x = x} (rw miss at h))
]

module _ {B : Type 0} (p : AuthChallenge → Bool) (message : String)
    (f : AuthChallenge → Action AuthStore B) where
  abbrev lookup_result : Result (Option AuthChallenge) → AuthStore → Result B × AuthStore
  lookup_result r s = ((λ t. and_then (λ item. or_raise item (value_error message)) (r, t)) >>= f) s

  lookup_result-ok :
      (r : Result (Option AuthChallenge)) (s : AuthStore) {b : B}
      → (lookup_result r s).0 ≡ ok b
      → (c : AuthChallenge) × (r ≡ ok (some c))
  lookup_result-ok (ok none) s h = absurd (cc h)
  lookup_result-ok (ok (some c)) s h = (c, refl)
  lookup_result-ok (err e) s h = absurd (cc h)

  -- A chain that comes to a value has found exactly one row.
  the_challenge-sole :
      (s : AuthStore) {b : B}
      → ((the_challenge p message >>= f) s).0 ≡ ok b
      → (c : AuthChallenge) × (select p s.challenges ≡ c ∷ [])
        × ((the_challenge p message >>= f) s ≡ f c s)
  the_challenge-sole s {b} h =
      let (c, e) = lookup_result-ok (one_or_none (select p s.challenges)) s {b = b} h in
      (c, one_found (select p s.challenges) {x = c} e, ap (λ r. lookup_result r s) e)

select_sound : {A : Type 0} (p : A → Bool) (xs : List A) {x : A} → select p xs ≡ x ∷ [] → p x ≡ true
select_sound p [] h = absurd (cc h)
select_sound p (y ∷ xs) {x} h = elim (Bool-cases (p y)) [
  | inl hit ↦ let same : y ≡ x = cc (rw hit at h) in rw (← same) hit
  | inr miss ↦ select_sound p xs {x = x} (rw miss at h)
]

consume_item-state :
    (p : AuthChallenge → Bool) (now : ℕ) (c : AuthChallenge) (s : AuthStore) {item : AuthChallenge}
    → (consume_item p now c s).0 ≡ ok item
    → (consume_item p now c s).1 ≡ consume p now s
consume_item-state p now c s h = elim (Bool-cases (is_unconsumed c)) [
  | inr already ↦ absurd (cc (rw already at h))
  | inl unused ↦ elim (Bool-cases (ltb c.expires_at now)) [
    | inl late ↦ absurd (cc (rw (unused, late) at h))
    | inr in_time ↦ rw (unused, in_time) refl
  ]
]

-- A challenge is consumed once: after it has been, every further attempt raises the ValueError that
-- says so, and changes nothing.
pub consume_challenge_once :
    (org_id user_id : ℕ) (challenge purpose : String) (now later : ℕ) (s : AuthStore)
    (item : AuthChallenge)
    → (consume_challenge org_id user_id challenge purpose now s).0 ≡ ok item
    → let t = (consume_challenge org_id user_id challenge purpose now s).1 in
      consume_challenge org_id user_id challenge purpose later t
      ≡ (err (value_error "Challenge already consumed"), t)
unfolding consume_challenge
consume_challenge_once org_id user_id challenge purpose now later s item done =
    let p = is_challenge org_id user_id challenge purpose in
    let (c, sole, run) =
      the_challenge-sole p "Invalid challenge" (consume_item p now) s {b = item} done in
    let used = consume p now s in
    let state =
      ap (λ (r : Result AuthChallenge × AuthStore). r.1) run
      ∙ consume_item-state p now c s {item = item}
          (sym (ap (λ (r : Result AuthChallenge × AuthStore). r.0) run) ∙ done) in
    let rows : select p used.challenges ≡ consumed now c ∷ [] =
      select-sole p (consumed now) s.challenges {x = c} sole
      ∙ rw (select_sound p s.challenges {x = c} sole) refl in
    subst⁻¹
      (λ t.
        consume_challenge org_id user_id challenge purpose later t
        ≡ (err (value_error "Challenge already consumed"), t))
      state (rw rows refl)

closed_reset :
    (token : String) (now : ℕ) (c : AuthChallenge) → is_open_reset token (consumed now c) ≡ false
closed_reset token now c = ground arith

reset_with-table :
    (C : Services) (token password : String) (salt now : ℕ) (c : AuthChallenge) (s : AuthStore)
    → (reset_with C token password salt now c s).0 ≡ ok tt
    → (reset_with C token password salt now c s).1.challenges
      ≡ update_first (is_open_reset token) (consumed now) s.challenges
unfolding write_user
reset_with-table C token password salt now c s h = elim (Bool-cases (ltb c.expires_at now)) [
  | inl late ↦ absurd (cc (rw late at h))
  | inr in_time ↦ elim (Option-cases (get_user_by_id c.user_id s)) [
    | inl missing ↦ absurd (cc (rw (in_time, missing) at h))
    | inr (user, found) ↦ rw (in_time, found) refl
  ]
]

-- The token of a password reset works once: after a reset has succeeded, every further one with the
-- same token is refused and changes nothing.
pub reset_password_once :
    (C : Services) (token password again : String) (salt salt' now later : ℕ) (s : AuthStore)
    → (reset_password C token password salt now s).0 ≡ ok tt
    → let t = (reset_password C token password salt now s).1 in
      reset_password C token again salt' later t
      ≡ (err (value_error "Invalid or expired reset token"), t)
unfolding reset_password write_user
reset_password_once C token password again salt salt' now later s done =
    let p = is_open_reset token in
    let (c, sole, run) =
      the_challenge-sole p "Invalid or expired reset token" (reset_with C token password salt now) s
        {b = tt} done in
    let rows : select p (update_first p (consumed now) s.challenges) ≡ [] =
      select-sole p (consumed now) s.challenges {x = c} sole ∙ rw (closed_reset token now c) refl in
    let r = reset_with C token password salt now c s in
    let table : r.1.challenges ≡ update_first p (consumed now) s.challenges =
      reset_with-table C token password salt now c s
        (sym (ap (λ (r : Result Unit × AuthStore). r.0) run) ∙ done) in
    subst⁻¹
      (λ t.
        reset_password C token again salt' later t
        ≡ (err (value_error "Invalid or expired reset token"), t))
      (ap (λ (r : Result Unit × AuthStore). r.1) run) (rw (table, rows) refl)
