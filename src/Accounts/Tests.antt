-- ===== src/Accounts/Tests.antt =====
-- Runs of backend/app/domains/auth/service.py on two workspaces, with a hash that writes the text.
use cau_sium.Prelude.{
  ℕ, ◌≡◌, refl, String, true, false, Option, none, some, List, [], ◌∷◌, map, inl, inr, Text, codes,
  ok, err, http, raised, value_error, arith, str_eq, if◌then◌else◌, ltb, ◌⊎◌, is_space,
}
use cau_sium.Policy.{admin, viewer, UserRole}
use cau_sium.Keyrings.Fernets.{Fernet}
use cau_sium.Accounts.{
  User, UserUpdate, AuthStore, Services, active, get_user_by_id, get_user_by_email, purged,
  lgpd_purge_user,
}
use cau_sium.Accounts.Totp.{totp_code, verify_totp_secret, verify_totp_secret_iff}
use cau_sium.Accounts.Sessions.{
  Tokens, org_of, IsTokens, TokenClaims, create_access_token, create_refresh_token, refresh_tokens,
  get_current_user, revoke_all_tokens_for_user,
}
use cau_sium.Accounts.Revocation.{
  revoked_access_refused, refresh_survives_revocation, second_revocation_fails,
}
use cau_sium.Accounts.Challenges.{
  NewChallenge, create_challenge, consume_challenge, request_password_reset, reset_password,
}
use cau_sium.Accounts.Redeeming.{consume_challenge_once, reset_password_once}
use cau_sium.Accounts.Requests.{Request, update, delete, deactivate, Call, handle, handle_all}
use cau_sium.Accounts.Escalation.{standing_of, handle_all_keeps_standing, handle_spares}
use cau_sium.Accounts.Purging.{purge_crosses_workspaces}
use cau_sium.Accounts.Login.{Factors, passwordless, login}
use cau_sium.Accounts.Entering.{SecondFactor, login_sound}

abbrev services : Services
services = record {
  str_uuid = λ n. "u";
  sha256_hexdigest = λ s. s;
  hash_password = λ salt password. password;
  verify_password = λ plain hashed. str_eq plain hashed;
  secret_key = "k";
  frontend_url = "f";
}

abbrev member : ℕ → ℕ → String → UserRole → User
member id org_id email role = record {
  id = id;
  org_id = some org_id;
  email = email;
  full_name = "N";
  hashed_password = "old";
  role = role;
  is_active = true;
  passkey_enabled = false;
  totp_enabled = false;
  totp_secret_encrypted = none;
  totp_verified_at = none;
  must_change_password = false;
  password_changed_at = none;
  last_login = none;
  deleted_at = none;
}

abbrev boss : User
boss = member 1 1 "boss" admin

abbrev colleague : User
colleague = member 2 1 "colleague" viewer

abbrev stranger : User
stranger = member 3 2 "stranger" viewer

abbrev two_workspaces : AuthStore
two_workspaces = record {
  organizations =
      (record { id = 1; lifecycle_state = active; passwordless_only = false })
      ∷ (record { id = 2; lifecycle_state = active; passwordless_only = false })
      ∷ [];
  users = boss ∷ colleague ∷ stranger ∷ [];
  challenges = [];
  passkeys = [];
  backup_codes = [];
  revoked_tokens = [];
  keyrings = [];
  audit = [];
  mails = [];
}

abbrev ten_o_clock : ℕ
ten_o_clock = 36000000000

abbrev call : Request → Call
call request = record {
  actor_id = 1;
  iat = some 30000;
  request = request;
  outside = record { now = ten_o_clock; salt = 0; draw = "d" };
}

abbrev to_admin : UserUpdate
to_admin = record { full_name = none; email = none; role = some admin }

handle_all_keeps_standing_example :
    standing_of 2
      (handle_all services (call (update 2 to_admin) ∷ call (delete 2 "left") ∷ []) two_workspaces)
    ≡ some (some 1, (false, false))
handle_all_keeps_standing_example =
    handle_all_keeps_standing services (call (update 2 to_admin) ∷ call (delete 2 "left") ∷ [])
      two_workspaces (refl, (refl, tt)) 2

handle_spares_example :
    get_user_by_id 3
      (handle services 1
        (some 30000)
        (deactivate 3 "gone")
        (call (deactivate 3 "gone")).outside
        two_workspaces).1
    ≡ some stranger
handle_spares_example =
    handle_spares services (call (deactivate 3 "gone")) two_workspaces boss stranger refl refl
      (inr (refl, refl))

purge_crosses_workspaces_example :
    let r = lgpd_purge_user services boss 3 0 "d" ten_o_clock two_workspaces in
    (r.0 ≡ ok tt) × (get_user_by_id 3 r.1 ≡ some (purged services ten_o_clock "d" stranger))
purge_crosses_workspaces_example =
    purge_crosses_workspaces services boss stranger two_workspaces 2 0 ten_o_clock "d" refl refl
      refl refl

-- The colleague is deactivated, with its event; the administrator is not made to be one.
deactivation_recorded :
    let t =
      (handle services 1
        (some 30000)
        (deactivate 2 "gone")
        (call (deactivate 2 "gone")).outside
        two_workspaces).1 in
    map (λ e. e.event_type) t.audit ≡ "auth.user.deactivated" ∷ []
unfolding handle
deactivation_recorded = refl

deactivated_colleague :
    (handle services 1
      (some 30000)
      (deactivate 2 "gone")
      (call (deactivate 2 "gone")).outside
      two_workspaces).0
    ≡ ok tt
unfolding handle
deactivated_colleague = refl

promotion_forbidden :
    (handle services 1
      (some 30000)
      (update 2 to_admin)
      (call (update 2 to_admin)).outside
      two_workspaces).0
    ≡ err (raised "PermissionError")
unfolding handle
promotion_forbidden = refl

abbrev issued : NewChallenge
issued = record { id = 9; challenge = "t" }

abbrev with_challenge : AuthStore
unfolding create_challenge
with_challenge = (create_challenge issued (some 1) 2 "passkey_login" 5 two_workspaces).1

abbrev with_reset : AuthStore
unfolding request_password_reset
with_reset = (request_password_reset services issued "colleague" 5 two_workspaces).1

consume_challenge_once_example :
    let t = (consume_challenge 1 2 "t" "passkey_login" 6 with_challenge).1 in
    consume_challenge 1 2 "t" "passkey_login" 7 t
    ≡ (err (value_error "Challenge already consumed"), t)
unfolding consume_challenge with_challenge
consume_challenge_once_example =
    consume_challenge_once 1 2 "t" "passkey_login" 6 7 with_challenge
      (record {
        id = 9;
        org_id = 1;
        user_id = 2;
        challenge = "t";
        purpose = "passkey_login";
        expires_at = 300000005;
        consumed_at = some 6;
      })
      refl

reset_password_once_example :
    let t = (reset_password services "t" "new" 0 6 with_reset).1 in
    reset_password services "t" "again" 0 7 t
    ≡ (err (value_error "Invalid or expired reset token"), t)
unfolding reset_password with_reset
reset_password_once_example = reset_password_once services "t" "new" "again" 0 0 6 7 with_reset refl

abbrev unexpired : ℕ → TokenClaims → Option TokenClaims
unexpired now c = if ltb now c.exp then some c else none

-- A token is its claims.
abbrev plain : Tokens
plain = record {
  Token = TokenClaims;
  encode = λ c. c;
  decode = unexpired;
  access_token_lifetime = 900;
  refresh_token_lifetime = 604800;
}

plain-IsTokens : IsTokens plain
plain-IsTokens = record { decode-encode = λ now c fresh. ground (arith, fresh) }

revoked_access_refused_example :
    (get_current_user plain 30000000
      (create_access_token plain 10000000 colleague)
      (revoke_all_tokens_for_user 2 20000000 two_workspaces).1).0
    ≡ err (http 401 "Session revoked")
unfolding revoke_all_tokens_for_user
revoked_access_refused_example =
    revoked_access_refused plain plain-IsTokens colleague two_workspaces 10000000 20000000 30000000
      refl (omega arith) (omega arith)

refresh_survives_revocation_example :
    (refresh_tokens plain 30000000
      (create_refresh_token plain 10000000 2)
      (revoke_all_tokens_for_user 2 20000000 two_workspaces).1).0
    ≡ ok (create_access_token plain 30000000 colleague, create_refresh_token plain 30000000 2)
refresh_survives_revocation_example =
    refresh_survives_revocation plain plain-IsTokens colleague two_workspaces 10000000 20000000
      30000000 refl refl (omega arith)

second_revocation_fails_example :
    (revoke_all_tokens_for_user 3 6 (revoke_all_tokens_for_user 2 5 two_workspaces).1).0
    ≡ err (raised "IntegrityError")
unfolding revoke_all_tokens_for_user
second_revocation_fails_example =
    second_revocation_fails 2 3 5 6 two_workspaces (λ e. absurd (omega (arith, e))) refl

abbrev zeros : Text → ℕ → List ℕ
zeros secret counter =
    0 ∷ 0 ∷ 0 ∷ counter ∷ 0 ∷ 0 ∷ 0 ∷ 0 ∷ 0 ∷ 0 ∷ 0 ∷ 0 ∷ 0 ∷ 0 ∷ 0 ∷ 0 ∷ 0 ∷ 0 ∷ 0 ∷ 0 ∷ []

-- The code of the step before is accepted, with spaces in it, too.
verify_totp_secret_iff_example : verify_totp_secret zeros 65 [] (codes "000 001") ≡ ok true
unfolding totp_code is_space
verify_totp_secret_iff_example =
    (verify_totp_secret_iff zeros 65 [] (codes "000 001") (omega arith)).1 (inl refl)

abbrev no_fernet : Fernet
no_fernet = record {
  accepts = λ key. false;
  encrypt = λ key nonce value. value;
  decrypt = λ key token. none;
  urlsafe_b64decode = λ key. none;
  urlsafe_b64encode = λ text. text;
  sha256 = λ text. text;
}

abbrev factors : Factors
factors = record {
  hmac_sha1 = zeros;
  sha256_hexdigest = λ text. text;
  fernet = no_fernet;
  encryption_key = [];
}

login_sound_example :
    (u : User) × (get_user_by_email "colleague" two_workspaces ≡ some u)
    × (services.verify_password "old" u.hashed_password ≡ true)
    × (u.is_active ≡ true)
    × (passwordless (org_of u.org_id two_workspaces) ≡ false)
    × ((u.totp_enabled ≡ false)
        ⊎ ((code : Text) × (none ≡ some code)
            × SecondFactor services factors 5 u code two_workspaces))
unfolding login
login_sound_example =
    login_sound services factors plain 5 "colleague" "old" none two_workspaces
      (
        record colleague { last_login = some 5 },
        (create_access_token plain 5 colleague, create_refresh_token plain 5 2),
      )
      refl
