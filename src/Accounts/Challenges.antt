-- ===== src/Accounts/Challenges.antt =====
-- Challenges and the tokens of password resets: `_create_challenge`, `_consume_challenge`,
-- `request_password_reset` and `reset_password` of backend/app/domains/auth/service.py.
use cau_sium.Prelude.{
  ℕ, ◌+◌, ◌*◌, String, Bool, true, false, ◌&&◌, not, Option, none, some, [], ◌∷◌, ◌++◌, select,
  find_row, update_first, ltb, ◌==◌, str_eq, is_some, value_error, raised,
}
use cau_sium.Prelude.Actions.{Action, pure, gets, modify, raise, raise_if, or_raise, ◌>>=◌, ◌>>◌}
use cau_sium.BackupCodes.{one_or_none}
use cau_sium.Invites.{Mail}
use cau_sium.Accounts.{
  User, AuthChallenge, AuthStore, Services, get_user_by_id, get_user_by_email, write_user,
  send_mail,
}
use Prim.Native.String.{◌++◌ as str_append}

-- What a challenge takes from outside: its row's id, and `secrets.token_urlsafe`.
pub record NewChallenge : Type 0 where
  pub id : ℕ
  pub challenge : String

abbrev pub minute : ℕ
minute = 60000000

abbrev pub challenge_row : NewChallenge → ℕ → ℕ → String → ℕ → AuthChallenge
challenge_row new org_id user_id purpose expires_at = record {
  id = new.id;
  org_id = org_id;
  user_id = user_id;
  challenge = new.challenge;
  purpose = purpose;
  expires_at = expires_at;
  consumed_at = none;
}

-- The texts of challenges are unique, and every challenge belongs to a workspace.
unfoldable pub add_challenge :
    NewChallenge → Option ℕ → ℕ → String → ℕ → Action AuthStore (Unit {0})
add_challenge new none user_id purpose expires_at = raise (raised "IntegrityError")
add_challenge new (some org_id) user_id purpose expires_at = do
  taken ← gets (λ s. find_row (λ c. str_eq c.challenge new.challenge) s.challenges)
  raise_if (is_some taken) (raised "IntegrityError")
  modify (λ s. record s {
    challenges = s.challenges ++ challenge_row new org_id user_id purpose expires_at ∷ [];
  })

unfoldable pub create_challenge : NewChallenge → Option ℕ → ℕ → String → ℕ → Action AuthStore String
unfolding add_challenge
create_challenge new org_id user_id purpose now = do
  add_challenge new org_id user_id purpose (now + 5 * minute)
  pure new.challenge

abbrev pub is_unconsumed : AuthChallenge → Bool
is_unconsumed c = elim c.consumed_at [ none ↦ true | some at ↦ false ]

abbrev pub is_challenge : ℕ → ℕ → String → String → AuthChallenge → Bool
is_challenge org_id user_id challenge purpose c =
    c.org_id == org_id
    && (c.user_id == user_id && (str_eq c.challenge challenge && str_eq c.purpose purpose))

abbrev pub consumed : ℕ → AuthChallenge → AuthChallenge
consumed now c = record c { consumed_at = some now }

-- The object that a query returned is marked.
abbrev pub consume : (AuthChallenge → Bool) → ℕ → AuthStore → AuthStore
consume p now s = record s { challenges = update_first p (consumed now) s.challenges }

-- `scalar_one_or_none`, and the exception for no row.
abbrev pub the_challenge : (AuthChallenge → Bool) → String → Action AuthStore AuthChallenge
the_challenge p message = do
  item ← λ s. (one_or_none (select p s.challenges), s)
  or_raise item (value_error message)

-- What is done with the row that is found.
abbrev pub consume_item :
    (AuthChallenge → Bool) → ℕ → AuthChallenge → Action AuthStore AuthChallenge
consume_item p now item = do
  raise_if (not (is_unconsumed item)) (value_error "Challenge already consumed")
  raise_if (ltb item.expires_at now) (value_error "Challenge expired")
  modify (consume p now)
  pure (consumed now item)

unfoldable pub consume_challenge : ℕ → ℕ → String → String → ℕ → Action AuthStore AuthChallenge
consume_challenge org_id user_id challenge purpose now = do
  let p = is_challenge org_id user_id challenge purpose
  item ← the_challenge p "Invalid challenge"
  consume_item p now item

-- An open token of a password reset.
abbrev pub is_open_reset : String → AuthChallenge → Bool
is_open_reset token c =
    str_eq c.challenge token && (str_eq c.purpose "password_reset" && is_unconsumed c)

module _ (C : Services) where
  abbrev reset_mail : User → String → Mail
  reset_mail user token = record {
    to_email = user.email;
    subject = "[CauSium] Password reset";
    text_body =
        str_append "You requested a password reset for your CauSium account.\n\nReset link: " (
          str_append C.frontend_url (
            str_append "/reset-password?token=" (
              str_append token
                "\nThis link expires in 1 hour.\nIf you did not request this, you can ignore this email.\n")));
  }

  abbrev reset_for : NewChallenge → ℕ → Option User → Action AuthStore String
  reset_for new now none = pure new.challenge
  reset_for new now (some user) = do
    add_challenge new user.org_id user.id "password_reset" (now + 60 * minute)
    modify (send_mail (reset_mail user new.challenge))
    pure new.challenge

  -- An unknown address gets a token, too.
  unfoldable pub request_password_reset : NewChallenge → String → ℕ → Action AuthStore String
  unfolding add_challenge
  request_password_reset new email now = do
    user ← gets (get_user_by_email email)
    reset_for new now user

  abbrev with_password : ℕ → String → User → User
  with_password salt password u = record u { hashed_password = C.hash_password salt password }

  -- What is done with the token that is found.
  abbrev pub reset_with : String → String → ℕ → ℕ → AuthChallenge → Action AuthStore (Unit {0})
  reset_with token new_password salt now challenge = do
    raise_if (ltb challenge.expires_at now) (value_error "Reset token has expired")
    user ← or_raise (← gets (get_user_by_id challenge.user_id)) (value_error "User not found")
    modify (write_user (with_password salt new_password user))
    modify (consume (is_open_reset token) now)

  unfoldable pub reset_password : String → String → ℕ → ℕ → Action AuthStore (Unit {0})
  unfolding write_user
  reset_password token new_password salt now = do
    challenge ← the_challenge (is_open_reset token) "Invalid or expired reset token"
    reset_with token new_password salt now challenge
