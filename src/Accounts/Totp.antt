-- ===== src/Accounts/Totp.antt =====
-- One-time codes: `_totp_at` and `_verify_totp_secret` of backend/app/domains/auth/service.py. Codes are
-- ASCII; instants are in seconds.
use cau_sium.Prelude.{
  ℕ, zero, suc, ◌+◌, ◌-◌, ◌*◌, ◌/◌, ◌%◌, ◌≤◌, ◌≡◌, ◌∙◌, ◌↔◌, ◌⊎◌, inl, inr, refl, ap, sym, Bool,
  true, false, ◌&&◌, ◌||◌, not, List, [], ◌∷◌, Text, arith, length, take, drop, select, any_row,
  ltb, if◌then◌else◌, text_eq, text_eq_refl, text_eq→eq, is_space, Bool-cases, Result, ok, err,
  raised,
}
use cau_sium.Prelude.Decimals.{is_digit}

abbrev last_byte : List ℕ → ℕ
last_byte [] = 0
last_byte (b ∷ []) = b
last_byte (b ∷ c ∷ bs) = last_byte (c ∷ bs)

-- Bytes as a number, the first one highest.
abbrev big_endian : ℕ → List ℕ → ℕ
big_endian acc [] = acc
big_endian acc (b ∷ bs) = big_endian (256 * acc + b) bs

-- The last `digits` decimal digits of `n`, before `rest`.
unfoldable padded : ℕ → ℕ → Text → Text
padded zero n rest = rest
padded (suc digits) n rest = padded digits (n / 10) ((b'0' + n % 10) ∷ rest)

abbrev all_digits : Text → Bool
all_digits [] = true
all_digits (c ∷ s) = is_digit c && all_digits s

-- `re.sub(r"\s+", "", code)`
abbrev pub normalize_totp_code : Text → Text
normalize_totp_code code = select (λ c. not (is_space c)) code

-- `hmac_sha1 secret counter` is the digest, of twenty bytes, of the counter in eight bytes under the
-- key that the secret is the base32 of.
module _ (hmac_sha1 : Text → ℕ → List ℕ) where
  -- The code of a step of thirty seconds.
  unfoldable pub totp_code : Text → ℕ → Text
  unfolding padded
  totp_code secret counter =
      let digest = hmac_sha1 secret counter in
      let offset = last_byte digest % 16 in
      let dbc = big_endian 0 (take 4 (drop offset digest)) % 2147483648 in
      padded 6 (dbc % 1000000) []

  abbrev pub totp_at : Text → ℕ → Text
  totp_at secret ts = totp_code secret (ts / 30)

  -- A negative counter does not fit into eight bytes.
  unfoldable pub verify_totp_secret : ℕ → Text → Text → Result Bool
  verify_totp_secret now secret code =
      let normalized = normalize_totp_code code in
      if not (all_digits normalized) || ltb (length normalized) 6
      then ok false
      else if ltb now 30
      then err (raised "struct.error")
      else ok (
          any_row (λ ts. text_eq (totp_at secret ts) normalized)
            ((now - 30) ∷ now ∷ (now + 30) ∷ []))

digit_char : (n : ℕ) → is_digit (b'0' + n % 10) ≡ true
digit_char n = ground arith

padded-digits :
    (digits n : ℕ) (rest : Text) → all_digits rest ≡ true → all_digits (padded digits n rest) ≡ true
unfolding padded
padded-digits zero n rest h = h
padded-digits (suc digits) n rest h =
    padded-digits digits (n / 10) ((b'0' + n % 10) ∷ rest) (rw (digit_char n, h) refl)

length-padded : (digits n : ℕ) (rest : Text) → length (padded digits n rest) ≡ digits + length rest
unfolding padded
length-padded zero n rest = omega arith
length-padded (suc digits) n rest =
    omega (arith, length-padded digits (n / 10) ((b'0' + n % 10) ∷ rest))

module _ (hmac_sha1 : Text → ℕ → List ℕ) where
  well_formed :
      (secret : Text) (counter : ℕ)
      → (all_digits (totp_code hmac_sha1 secret counter) ≡ true)
        × (length (totp_code hmac_sha1 secret counter) ≡ 6)
  unfolding totp_code
  well_formed secret counter =
      let digest = hmac_sha1 secret counter in
      let n = big_endian 0 (take 4 (drop (last_byte digest % 16) digest)) % 2147483648 % 1000000 in
      (padded-digits 6 n [] refl, length-padded 6 n [])

  -- What is accepted is the code of one of the three steps.
  abbrev Near : ℕ → Text → Text → Type 0
  Near now secret code =
      (code ≡ totp_code hmac_sha1 secret (now / 30 - 1))
      ⊎ ((code ≡ totp_code hmac_sha1 secret (now / 30))
          ⊎ (code ≡ totp_code hmac_sha1 secret (now / 30 + 1)))

  -- The comparisons of the loop.
  abbrev matched : ℕ → Text → Text → Bool
  matched now secret code =
      text_eq (totp_code hmac_sha1 secret ((now - 30) / 30)) code
      || (text_eq (totp_code hmac_sha1 secret (now / 30)) code
          || (text_eq (totp_code hmac_sha1 secret ((now + 30) / 30)) code || false))

  step_before : (now : ℕ) → 30 ≤ now → (now - 30) / 30 ≡ now / 30 - 1
  step_before now later = omega (arith, later)

  step_after : (now : ℕ) → (now + 30) / 30 ≡ now / 30 + 1
  step_after now = omega arith

  matched-Near :
      (now : ℕ) (secret code : Text)
      → 30 ≤ now
      → matched now secret code ≡ true
      → Near now secret code
  matched-Near now secret code later h =
      let at = λ (counter : ℕ). totp_code hmac_sha1 secret counter in
      elim (Bool-cases (text_eq (at ((now - 30) / 30)) code)) [
        | inl before ↦ inl (sym (text_eq→eq _ _ before) ∙ ap at (step_before now later))
        | inr not_before ↦ elim (Bool-cases (text_eq (at (now / 30)) code)) [
          | inl present ↦ inr (inl (sym (text_eq→eq _ _ present)))
          | inr not_present ↦
              let after : text_eq (at ((now + 30) / 30)) code ≡ true =
                ground (arith, h, not_before, not_present) in
              inr (inr (sym (text_eq→eq _ _ after) ∙ ap at (step_after now)))
        ]
      ]

  verify_matched :
      (now : ℕ) (secret code : Text)
      → 30 ≤ now
      → all_digits (normalize_totp_code code) ≡ true
      → length (normalize_totp_code code) ≡ 6
      → matched now secret (normalize_totp_code code) ≡ true
      → verify_totp_secret hmac_sha1 now secret code ≡ ok true
  unfolding verify_totp_secret
  verify_matched now secret code later digits six h =
      let long : ltb 6 6 ≡ false = ground arith in
      let positive : ltb now 30 ≡ false = ground (arith, later) in
      rw (digits, six, long, positive, h) refl

  three_steps_pass :
      (now : ℕ) (secret code : Text)
      → 30 ≤ now
      → Near now secret (normalize_totp_code code)
      → verify_totp_secret hmac_sha1 now secret code ≡ ok true
  three_steps_pass now secret code later (inl e) =
      let w = well_formed secret (now / 30 - 1) in
      verify_matched now secret code later (rw e w.0) (rw e w.1) (
        rw (e, step_before now later, text_eq_refl (totp_code hmac_sha1 secret (now / 30 - 1)))
          refl)
  three_steps_pass now secret code later (inr (inl e)) =
      let w = well_formed secret (now / 30) in
      verify_matched now secret code later (rw e w.0) (rw e w.1)
        (rw (e, text_eq_refl (totp_code hmac_sha1 secret (now / 30))) (ground arith))
  three_steps_pass now secret code later (inr (inr e)) =
      let w = well_formed secret (now / 30 + 1) in
      verify_matched now secret code later (rw e w.0) (rw e w.1) (
        rw (e, step_after now, text_eq_refl (totp_code hmac_sha1 secret (now / 30 + 1)))
          (ground arith))

  verified-matched :
      (now : ℕ) (secret code : Text)
      → verify_totp_secret hmac_sha1 now secret code ≡ ok true
      → matched now secret (normalize_totp_code code) ≡ true
  unfolding verify_totp_secret
  verified-matched now secret code h =
      let normalized = normalize_totp_code code in
      elim (Bool-cases (not (all_digits normalized) || ltb (length normalized) 6)) [
        | inl malformed ↦ absurd (cc (rw malformed at h))
        | inr fine ↦ elim (Bool-cases (ltb now 30)) [
          | inl early ↦ absurd (cc (rw (fine, early) at h))
          | inr later ↦ cc (rw (fine, later) at h)
        ]
      ]

  -- From the thirtieth second of the epoch on, a code is accepted exactly when, without white
  -- space, it is the code of the present step of thirty seconds, of the one before or of the next.
  pub verify_totp_secret_iff :
      (now : ℕ) (secret code : Text)
      → 30 ≤ now
      → (verify_totp_secret hmac_sha1 now secret code ≡ ok true)
        ↔ Near now secret (normalize_totp_code code)
  verify_totp_secret_iff now secret code later = (
    λ h.
        matched-Near now secret (normalize_totp_code code) later
          (verified-matched now secret code h),
    three_steps_pass now secret code later,
  )
