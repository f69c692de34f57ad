-- ===== src/Accounts/Sessions.antt =====
-- Tokens and their revocation: backend/app/domains/auth/token_blacklist.py, the tokens of
-- backend/app/core/security.py, `refresh_tokens` of backend/app/domains/auth/service.py, and
-- `get_current_user` of backend/app/core/dependencies.py.
use cau_sium.Prelude.{
  ℕ, ◌+◌, ◌*◌, ◌/◌, ◌<◌, ◌≡◌, String, Bool, true, false, ◌&&◌, not, Option, none, some, [], ◌∷◌,
  ◌++◌, select, find_row, any_row, ltb, ◌==◌, if◌then◌else◌, str_eq, is_some, value_error, http,
  raised,
}
use cau_sium.Prelude.Actions.{Action, pure, gets, modify, raise_if, or_raise, ◌>>=◌, ◌>>◌}
use cau_sium.Policy.{UserRole}
use cau_sium.BackupCodes.{one_or_none}
use cau_sium.Accounts.{
  User, Organization, WorkspaceLifecycleState, active, RevokedToken, AuthStore, get_user_by_id,
  is_platform_admin,
}

-- The claims of a token; `sub` is the user's id, `iat` and `exp` are in seconds.
pub record TokenClaims : Type 0 where
  pub sub : ℕ
  pub exp : ℕ
  pub iat : Option ℕ
  pub kind : String
  pub extra : Option (Option ℕ × UserRole)

-- `jwt.encode` and `jwt.decode` with the settings' secret, and the settings' lifetimes in seconds.
pub record Tokens : Type 1 where
  pub Token : Type 0
  pub encode : TokenClaims → Token
  pub decode : (now : ℕ) → Token → Option TokenClaims
  pub access_token_lifetime : ℕ
  pub refresh_token_lifetime : ℕ

-- What is documented of it: a token that has not expired is read back.
pub record IsTokens (jwt : Tokens) : Type 0 where
  pub decode-encode :
      (now : ℕ) (c : TokenClaims) → now < c.exp → jwt.decode now (jwt.encode c) ≡ some c

abbrev pub second : ℕ
second = 1000000

abbrev pub is_revocation : ℕ → ℕ → RevokedToken → Bool
is_revocation user_id issued_at t = t.user_id == user_id && ltb issued_at t.revoked_at

-- Whether the user's tokens that were issued at an instant are revoked.
unfoldable pub is_token_revoked : ℕ → ℕ → Action AuthStore Bool
is_token_revoked user_id issued_at = do
  row ← λ s. (one_or_none (select (is_revocation user_id issued_at) s.revoked_tokens), s)
  pure (is_some row)

abbrev pub revocation : ℕ → ℕ → RevokedToken
revocation user_id now = record {
  jti = "*";
  user_id = user_id;
  revoked_at = now;
  expires_at = now + 30 * 86400 * second;
}

abbrev pub forget_revocations : ℕ → AuthStore → AuthStore
forget_revocations user_id s = record s {
  revoked_tokens = select (λ t. not (t.user_id == user_id)) s.revoked_tokens;
}

-- The primary key is unique.
unfoldable pub add_revocation : RevokedToken → Action AuthStore (Unit {0})
add_revocation t = do
  taken ← gets (λ s. any_row (λ r. str_eq r.jti t.jti) s.revoked_tokens)
  raise_if taken (raised "IntegrityError")
  modify (λ s. record s { revoked_tokens = s.revoked_tokens ++ t ∷ [] })

unfoldable pub revoke_all_tokens_for_user : ℕ → ℕ → Action AuthStore (Unit {0})
unfolding add_revocation
revoke_all_tokens_for_user user_id now = do
  modify (forget_revocations user_id)
  add_revocation (revocation user_id now)

abbrev pub active_user : Option User → Option User
active_user none = none
active_user (some u) = if u.is_active then some u else none

abbrev is_running : WorkspaceLifecycleState → Bool
is_running active = true
is_running _ = false

abbrev pub org_of : Option ℕ → AuthStore → Option Organization
org_of none s = none
org_of (some org_id) s = find_row (λ o. o.id == org_id) s.organizations

abbrev pub halted : Option Organization → Bool
halted none = false
halted (some o) = not (is_running o.lifecycle_state)

abbrev pub or_epoch : Option ℕ → ℕ
or_epoch none = 0
or_epoch (some iat) = iat

-- The user of an access token: its `sub` and its `iat`.
unfoldable pub user_of_claims : ℕ → Option ℕ → Action AuthStore User
unfolding is_token_revoked
user_of_claims user_id iat = do
  revoked ← is_token_revoked user_id (or_epoch iat * second)
  raise_if revoked (http 401 "Session revoked")
  user ←
      or_raise (active_user (← gets (get_user_by_id user_id)))
        (http 401 "User inactive or not found")
  org ← gets (org_of user.org_id)
  raise_if (not (is_platform_admin user.role) && halted org) (http 403 "Workspace is not active")
  pure user

module _ (jwt : Tokens) where
  abbrev pub access_claims : ℕ → User → TokenClaims
  access_claims now u = record {
    sub = u.id;
    exp = now / second + jwt.access_token_lifetime;
    iat = some (now / second);
    kind = "access";
    extra = some (u.org_id, u.role);
  }

  abbrev pub create_access_token : ℕ → User → jwt.Token
  create_access_token now u = jwt.encode (access_claims now u)

  abbrev pub refresh_claims : ℕ → ℕ → TokenClaims
  refresh_claims now user_id = record {
    sub = user_id;
    exp = now / second + jwt.refresh_token_lifetime;
    iat = none;
    kind = "refresh";
    extra = none;
  }

  abbrev pub create_refresh_token : ℕ → ℕ → jwt.Token
  create_refresh_token now user_id = jwt.encode (refresh_claims now user_id)

  -- A token without `iat` is not looked up among the revocations.
  abbrev pub refuse_revoked : ℕ → Option ℕ → Action AuthStore (Unit {0})
  refuse_revoked user_id none = pure tt
  refuse_revoked user_id (some iat) = do
    revoked ← is_token_revoked user_id (iat * second)
    raise_if revoked (value_error "Session revoked. Please login again.")

  -- The new access token and the new refresh token.
  unfoldable pub refresh_tokens : ℕ → jwt.Token → Action AuthStore (jwt.Token × jwt.Token)
  unfolding is_token_revoked
  refresh_tokens now refresh_token = do
    payload ← or_raise (jwt.decode (now / second) refresh_token) (value_error "Invalid token")
    raise_if (not (str_eq payload.kind "refresh")) (value_error "Invalid refresh token")
    user ←
        or_raise (active_user (← gets (get_user_by_id payload.sub)))
          (value_error "User not found or inactive")
    refuse_revoked user.id payload.iat
    pure (create_access_token now user, create_refresh_token now user.id)

  unfoldable pub get_current_user : ℕ → jwt.Token → Action AuthStore User
  unfolding user_of_claims
  get_current_user now token = do
    payload ← or_raise (jwt.decode (now / second) token) (http 401 "Invalid or expired token")
    raise_if (not (str_eq payload.kind "access")) (http 401 "Invalid or expired token")
    user_of_claims payload.sub payload.iat
