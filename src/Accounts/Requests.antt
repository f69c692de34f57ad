-- ===== src/Accounts/Requests.antt =====
-- Seven endpoints of backend/app/domains/auth/router.py that change a user who is there, for the
-- user who asks (`require_roles` of backend/app/core/dependencies.py), in the transaction of a
-- request. The endpoints that create users are not among them. The text of an answer is left out.
use cau_sium.Prelude.{
  ℕ, String, Bool, true, false, not, Option, List, [], ◌∷◌, str_eq, if◌then◌else◌, Result, ok, err,
  Failure, value_error, http, raised,
}
use cau_sium.Prelude.Actions.{Action, pure, raise_if, in_transaction, ◌>>=◌, ◌>>◌}
use cau_sium.Policy.{UserRole, platform_admin, admin}
use cau_sium.Accounts.{
  User, UserUpdate, AuthStore, Services, admin_update_user, admin_delete_user, lgpd_purge_user,
}
use cau_sium.Accounts.Sessions.{user_of_claims}
use cau_sium.Accounts.Administration.{admin_reset_password, admin_reset_mfa, admin_deactivate_user}

-- A request names its target; what the services take from outside comes with it.
pub data Request : Type 0 where
  update : (target : ℕ) → UserUpdate → Request
  delete : (target : ℕ) → (reason : String) → Request
  purge : (target : ℕ) → Request
  purge_me : Request
  reset_password : (target : ℕ) → Request
  reset_mfa : (target : ℕ) → Request
  deactivate : (target : ℕ) → (reason : String) → Request

pub record Outside : Type 0 where
  pub now : ℕ
  pub salt : ℕ
  pub draw : String

-- A request with the claims of its token.
pub record Call : Type 0 where
  pub actor_id : ℕ
  pub iat : Option ℕ
  pub request : Request
  pub outside : Outside

abbrev pub is_purge : Request → Bool
is_purge (purge target) = true
is_purge purge_me = true
is_purge _ = false

-- `require_roles(UserRole.ADMIN, UserRole.PLATFORM_ADMIN)`
abbrev pub is_admin : UserRole → Bool
is_admin admin = true
is_admin platform_admin = true
is_admin _ = false

abbrev pub require_admin : User → Action AuthStore (Unit {0})
require_admin actor = raise_if (not (is_admin actor.role)) (http 403 "Required role")

-- The `except` clauses: PermissionError, and ValueError by its text.
abbrev pub answered :
    (String → Failure) → {A : Type 0} → Result A × AuthStore → Result (Unit {0}) × AuthStore
answered refused (ok a, s) = (ok tt, s)
answered refused (err (value_error message), s) = (err (refused message), s)
answered refused (err (http status detail), s) = (err (http status detail), s)
answered refused (err (raised class), s) =
    (err (if str_eq class "PermissionError" then http 403 class else raised class), s)

-- No `except` clause.
abbrev pub unanswered : {A : Type 0} → Result A × AuthStore → Result (Unit {0}) × AuthStore
unanswered (ok a, s) = (ok tt, s)
unanswered (err e, s) = (err e, s)

abbrev pub not_found : String → Failure
not_found message = http 404 message

abbrev pub not_found_or_conflict : String → Failure
not_found_or_conflict message =
    if str_eq message "User is already inactive" then http 409 message else http 404 message

module _ (C : Services) where
  abbrev pub perform : User → Request → Outside → Action AuthStore (Unit {0})
  perform actor (update target req) o s = unanswered (admin_update_user C actor target req s)
  perform actor (delete target reason) o s =
      unanswered (admin_delete_user C actor target reason o.now s)
  perform actor (purge target) o s =
      answered not_found (lgpd_purge_user C actor target o.salt o.draw o.now s)
  perform actor purge_me o s = unanswered (lgpd_purge_user C actor actor.id o.salt o.draw o.now s)
  perform actor (reset_password target) o s =
      answered not_found (admin_reset_password C actor target o.draw o.salt s)
  perform actor (reset_mfa target) o s = answered not_found (admin_reset_mfa C actor target s)
  perform actor (deactivate target reason) o s =
      answered not_found_or_conflict (admin_deactivate_user C actor target reason o.now s)

  -- `DELETE /auth/me/data` asks for no role.
  abbrev pub guard : Request → User → Action AuthStore (Unit {0})
  guard purge_me actor = pure tt
  guard _ actor = require_admin actor

  -- The token of the user who asks is given by its `sub` and its `iat`.
  abbrev pub endpoint : ℕ → Option ℕ → Request → Outside → Action AuthStore (Unit {0})
  endpoint actor_id iat request o = do
    actor ← user_of_claims actor_id iat
    guard request actor
    perform actor request o

  -- What a request commits.
  unfoldable pub handle : ℕ → Option ℕ → Request → Outside → Action AuthStore (Unit {0})
  unfolding in_transaction user_of_claims admin_update_user admin_delete_user lgpd_purge_user
      admin_reset_password admin_reset_mfa admin_deactivate_user
  handle actor_id iat request o = in_transaction (endpoint actor_id iat request o)

  -- Any requests of any users, one after the other.
  unfoldable pub handle_all : List Call → AuthStore → AuthStore
  unfolding handle
  handle_all [] s = s
  handle_all (c ∷ calls) s = handle_all calls (handle c.actor_id c.iat c.request c.outside s).1
