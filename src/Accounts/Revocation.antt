-- ===== src/Accounts/Revocation.antt =====
-- What "logout everywhere" stops, and what it does not: `revoke_all_tokens_for_user` of
-- backend/app/domains/auth/token_blacklist.py against the tokens that are still around.
use cau_sium.Prelude.{
  ℕ, ◌+◌, ◌*◌, ◌/◌, ◌<◌, ◌≡◌, ◌≢◌, ◌∙◌, refl, ap, inl, inr, true, not, some, List, [], ◌∷◌, ◌++◌,
  Bool-cases, select, select-append, any_row, any_row-append, ◌==◌, str_eq, ok, err, http, raised,
  arith,
}
use cau_sium.Accounts.{User, RevokedToken, AuthStore, get_user_by_id}
use cau_sium.Accounts.Sessions.{
  Tokens, IsTokens, second, is_revocation, is_token_revoked, revocation, forget_revocations,
  add_revocation, revoke_all_tokens_for_user, access_claims, refresh_claims, create_access_token,
  create_refresh_token, refresh_tokens, user_of_claims, get_current_user,
}

none_forgotten :
    (user_id issued_at : ℕ) (rows : List RevokedToken)
    → select (is_revocation user_id issued_at) (select (λ t. not (t.user_id == user_id)) rows) ≡ []
none_forgotten user_id issued_at [] = refl
none_forgotten user_id issued_at (t ∷ rows) = ground (arith, none_forgotten user_id issued_at rows)

-- A revocation that succeeds leaves the user exactly one row.
revoked_after :
    (user_id now : ℕ) (s : AuthStore)
    → (revoke_all_tokens_for_user user_id now s).0 ≡ ok tt
    → (revoke_all_tokens_for_user user_id now s).1.revoked_tokens
      ≡ (forget_revocations user_id s).revoked_tokens ++ revocation user_id now ∷ []
unfolding revoke_all_tokens_for_user add_revocation
revoked_after user_id now s done =
    elim (Bool-cases
      (any_row (λ r. str_eq r.jti "*") (forget_revocations user_id s).revoked_tokens)) [
        | inl taken ↦ absurd (cc (rw taken at done))
        | inr free ↦ rw free refl
      ]

sole_revocation :
    (user_id issued_at now : ℕ) (rows : List RevokedToken)
    → issued_at < now
    → select
        (is_revocation user_id issued_at)
        (select (λ t. not (t.user_id == user_id)) rows ++ revocation user_id now ∷ [])
      ≡ revocation user_id now ∷ []
sole_revocation user_id issued_at now rows earlier =
    let kept = select (λ t. not (t.user_id == user_id)) rows in
    let mine : is_revocation user_id issued_at (revocation user_id now) ≡ true =
      ground (arith, earlier) in
    select-append (is_revocation user_id issued_at) kept (revocation user_id now ∷ [])
    ∙ rw (none_forgotten user_id issued_at rows, mine) refl

module _ (jwt : Tokens) (law : IsTokens jwt) where
  -- An access token that was issued before all of its user's tokens were revoked is refused with
  -- 401 afterwards, as long as it has not expired. Of the tokens it is assumed that one that has
  -- not expired is read back.
  pub revoked_access_refused :
      (u : User) (s : AuthStore) (issued now later : ℕ)
      → (revoke_all_tokens_for_user u.id now s).0 ≡ ok tt
      → issued / second * second < now
      → later / second < issued / second + jwt.access_token_lifetime
      → (get_current_user jwt later
          (create_access_token jwt issued u)
          (revoke_all_tokens_for_user u.id now s).1).0
        ≡ err (http 401 "Session revoked")
  unfolding get_current_user user_of_claims is_token_revoked
  revoked_access_refused u s issued now later done earlier fresh =
      let t = (revoke_all_tokens_for_user u.id now s).1 in
      let rows : select (is_revocation u.id (issued / second * second)) t.revoked_tokens
          ≡ revocation u.id now ∷ [] =
        ap (select (is_revocation u.id (issued / second * second))) (revoked_after u.id now s done)
        ∙ sole_revocation u.id (issued / second * second) now s.revoked_tokens earlier in
      rw (law.decode-encode (later / second) (access_claims jwt issued u) fresh, rows) refl

  -- A refresh token is accepted for as long as it has not expired, also after all tokens of its
  -- user have been revoked: it has no time of issue that could be compared.
  pub refresh_survives_revocation :
      (u : User) (s : AuthStore) (issued now later : ℕ)
      → get_user_by_id u.id s ≡ some u
      → u.is_active ≡ true
      → later / second < issued / second + jwt.refresh_token_lifetime
      → (refresh_tokens jwt later
          (create_refresh_token jwt issued u.id)
          (revoke_all_tokens_for_user u.id now s).1).0
        ≡ ok (create_access_token jwt later u, create_refresh_token jwt later u.id)
  unfolding refresh_tokens revoke_all_tokens_for_user add_revocation
  refresh_survives_revocation u s issued now later found usable fresh =
      elim (Bool-cases
        (any_row (λ r. str_eq r.jti "*") (forget_revocations u.id s).revoked_tokens)) [
          | inl taken ↦
              rw
                (
                  taken,
                  law.decode-encode (later / second) (refresh_claims jwt issued u.id) fresh,
                  found,
                  usable,
                )
                refl
          | inr free ↦
              rw
                (
                  free,
                  law.decode-encode (later / second) (refresh_claims jwt issued u.id) fresh,
                  found,
                  usable,
                )
                refl
        ]

-- Once one user has revoked all tokens, no other user can: the attempt raises IntegrityError, since
-- all revocations have the same primary key.
pub second_revocation_fails :
    (a b now later : ℕ) (s : AuthStore)
    → a ≢ b
    → (revoke_all_tokens_for_user a now s).0 ≡ ok tt
    → (revoke_all_tokens_for_user b later (revoke_all_tokens_for_user a now s).1).0
      ≡ err (raised "IntegrityError")
unfolding revoke_all_tokens_for_user add_revocation
second_revocation_fails a b now later s other done =
    let t = (revoke_all_tokens_for_user a now s).1 in
    let kept = (forget_revocations a s).revoked_tokens in
    let star = λ (r : RevokedToken). str_eq r.jti "*" in
    let others = λ (r : RevokedToken). not (r.user_id == b) in
    let stays : others (revocation a now) ≡ true = ground (arith, other) in
    let taken : any_row star (select others t.revoked_tokens) ≡ true =
      ap (λ rows. any_row star (select others rows)) (revoked_after a now s done)
      ∙ ap (any_row star) (select-append others kept (revocation a now ∷ []))
      ∙ any_row-append star (select others kept) (select others (revocation a now ∷ []))
      ∙ rw stays (ground arith) in
    rw taken refl
