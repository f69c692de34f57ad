-- ===== src/Accounts/Entering.antt =====
-- Who gets in: `login` of backend/app/domains/auth/service.py.
use cau_sium.Prelude.{
  ℕ, ◌≡◌, ◌∙◌, ap, refl, Failure, String, Bool, true, false, not, Option, none, some, [], ◌∷◌, Text,
  Bool-cases, Option-cases, ◌⊎◌, inl, inr, ok, value_error,
}
use cau_sium.Prelude.Actions.{raise_if, then_ok, ◌>>◌}
use cau_sium.BackupCodes.{use_backup_code}
use cau_sium.Accounts.{User, AuthStore, Services, get_user_by_email}
use cau_sium.Accounts.Sessions.{Tokens, org_of}
use cau_sium.Accounts.Login.{
  Factors, on_codes, filled, passwordless, second_chance, with_code, if_enabled, check_mfa,
  finish_login, verify_totp_code_for_user, login,
}

module _ (C : Services) (X : Factors) where
  -- The code is one of the authenticator, or, where it is none, a backup code.
  abbrev pub SecondFactor : ℕ → User → Text → AuthStore → Type 0
  SecondFactor now user code s =
      let checked = verify_totp_code_for_user C X now user code s in
      (checked.0 ≡ ok true)
      ⊎ ((checked.0 ≡ ok false)
          × ((use_backup_code X.sha256_hexdigest now user.id code checked.1.backup_codes).0
              ≡ ok true))

  spent_true :
      (b : Bool) (e : Failure) (s : AuthStore) → (raise_if (not b) e s).0 ≡ ok tt → b ≡ true
  spent_true true e s h = refl
  spent_true false e s h = absurd (cc h)

  chance_factor :
      (now : ℕ) (user : User) (code : Text) (verified : Bool) (s : AuthStore)
      → (verify_totp_code_for_user C X now user code s).0 ≡ ok verified
      → (second_chance C X now user code verified
          (verify_totp_code_for_user C X now user code s).1).0
        ≡ ok tt
      → SecondFactor now user code s
  chance_factor now user code true s e h = inl e
  chance_factor now user code false s e h =
      let t = (verify_totp_code_for_user C X now user code s).1 in
      let (spent, used, left, state) =
        then_ok (λ b. raise_if (not b) (value_error "Invalid MFA code"))
          (on_codes (use_backup_code X.sha256_hexdigest now user.id code) t) {b = tt} h in
      inr (e, used ∙ ap ok (spent_true spent _ _ left))

  code_factor :
      (now : ℕ) (user : User) (code : Text) (s : AuthStore)
      → (with_code C X now user (some code) s).0 ≡ ok tt
      → SecondFactor now user code s
  code_factor now user code s h =
      let (verified, e, left, state) =
        then_ok (second_chance C X now user code) (verify_totp_code_for_user C X now user code s)
          {b = tt} h in
      chance_factor now user code verified s e left

  given_factor :
      (now : ℕ) (user : User) (totp_code : Option Text) (s : AuthStore)
      → (with_code C X now user (filled totp_code) s).0 ≡ ok tt
      → (code : Text) × (totp_code ≡ some code) × SecondFactor now user code s
  given_factor now user none s h = absurd (cc h)
  given_factor now user (some []) s h = absurd (cc h)
  given_factor now user (some (c ∷ cs)) s h = (c ∷ cs, refl, code_factor now user (c ∷ cs) s h)

  enabled_factor :
      (now : ℕ) (user : User) (totp_code : Option Text) (enabled : Bool) (s : AuthStore)
      → user.totp_enabled ≡ enabled
      → (if_enabled C X now user totp_code enabled s).0 ≡ ok tt
      → (user.totp_enabled ≡ false)
        ⊎ ((code : Text) × (totp_code ≡ some code) × SecondFactor now user code s)
  enabled_factor now user totp_code true s e h = inr (given_factor now user totp_code s h)
  enabled_factor now user totp_code false s e h = inl e

  check_mfa_factor :
      (now : ℕ) (user : User) (totp_code : Option Text) (s : AuthStore)
      → (check_mfa C X now user totp_code s).0 ≡ ok tt
      → (user.totp_enabled ≡ false)
        ⊎ ((code : Text) × (totp_code ≡ some code) × SecondFactor now user code s)
  unfolding check_mfa
  check_mfa_factor now user totp_code s h =
      enabled_factor now user totp_code user.totp_enabled s refl h

  -- A login that succeeds is that of a user who is found by the address and active, with the right
  -- password, not of a workspace that is without passwords, and, if the user has an authenticator,
  -- with a code of it or an unused backup code.
  pub login_sound :
      (jwt : Tokens) (now : ℕ) (email password : String) (totp_code : Option Text) (s : AuthStore)
      (result : User × (jwt.Token × jwt.Token))
      → (login C X jwt now email password totp_code s).0 ≡ ok result
      → (u : User) × (get_user_by_email email s ≡ some u)
        × (C.verify_password password u.hashed_password ≡ true)
        × (u.is_active ≡ true)
        × (passwordless (org_of u.org_id s) ≡ false)
        × ((u.totp_enabled ≡ false)
            ⊎ ((code : Text) × (totp_code ≡ some code) × SecondFactor now u code s))
  unfolding login
  login_sound jwt now email password totp_code s result h =
      elim (Option-cases (get_user_by_email email s)) [
        | inl missing ↦ absurd (cc (rw missing at h))
        | inr (u, found) ↦ elim (Bool-cases (C.verify_password password u.hashed_password)) [
          | inr wrong ↦ absurd (cc (simp (found, wrong) at h))
          | inl right ↦ elim (Bool-cases u.is_active) [
            | inr gone ↦ absurd (cc (simp (found, right, gone) at h))
            | inl here ↦ elim (Bool-cases (passwordless (org_of u.org_id s))) [
              | inl without ↦ absurd (cc (simp (found, right, here, without) at h))
              | inr with_passwords ↦
                  let active_u = record u { is_active = true; last_login = some now } in
                  let passed : ((check_mfa C X now u totp_code >> finish_login C X jwt now active_u)
                        s).0
                      ≡ ok result =
                    simp (found, right, here, with_passwords) at h in
                  let (done, checked, rest, state) =
                    then_ok (λ _. finish_login C X jwt now active_u)
                      (check_mfa C X now u totp_code s) {b = result} passed in
                  (
                    u,
                    found,
                    right,
                    here,
                    with_passwords,
                    check_mfa_factor now u totp_code s checked,
                  )
            ]
          ]
        ]
      ]
