-- ===== src/BackupCodes/Spending.antt =====
-- Backup codes are used once: `use_backup_code` of backend/app/domains/auth/service.py.
use cau_sium.Prelude.{
  ℕ, ◌+◌, ◌≡◌, ◌∙◌, ap, subst, refl, inl, inr, true, false, Bool, Option, none, some, List, [], ◌∷◌,
  Text, arith, ok, err, length, select, update_first, Bool-cases, Result,
}
use cau_sium.Prelude.Actions.{and_then}
use cau_sium.BackupCodes.{
  TotpBackupCode, BackupCodes, one_or_none, normalized, is_unused_of, matches, used,
  backup_codes_remaining, use_backup_code, spend,
}

-- Of the rows that pass `q`, which every row that passes `p` does, one is taken away if the first
-- row that passes `p` is changed so that it fails `q`.
select-update_first :
    (p q : TotpBackupCode → Bool) (f : TotpBackupCode → TotpBackupCode) (s : BackupCodes)
    {x : TotpBackupCode} {xs : BackupCodes}
    → ((c : TotpBackupCode) → p c ≡ true → q c ≡ true)
    → ((c : TotpBackupCode) → q (f c) ≡ false)
    → select p s ≡ x ∷ xs
    → length (select q (update_first p f s)) + 1 ≡ length (select q s)
select-update_first p q f [] within gone h = absurd (cc h)
select-update_first p q f (c ∷ s) {x} {xs} within gone h = elim (Bool-cases (p c)) [
  | inl hit ↦ rw (hit, gone c, within c hit) (omega arith)
  | inr miss ↦
      let rest = select-update_first p q f s {x = x} {xs = xs} within gone (rw miss at h) in
      elim (Bool-cases (q c)) [
        | inl counted ↦ rw (miss, counted) (omega (arith, rest))
        | inr not_counted ↦ rw (miss, not_counted) rest
      ]
]

-- What `scalar_one_or_none` finds is the only row.
pub one_found : {A : Type 0} (s : List A) {x : A} → one_or_none s ≡ ok (some x) → s ≡ x ∷ []
one_found [] h = absurd (cc h)
one_found (c ∷ []) {x} h = let same : c ≡ x = cc h in ap (λ d. d ∷ []) same
one_found (c ∷ d ∷ s) h = absurd (cc h)

none_left : (s : BackupCodes) → length s + 1 ≡ 1 → s ≡ []
none_left [] h = refl
none_left (c ∷ s) h = absurd (omega (arith, h))

module _ (sha256_hexdigest : Text → Text) where
  abbrev pub found_by : ℕ → Text → TotpBackupCode → Bool
  found_by user_id code = matches user_id (sha256_hexdigest (normalized code))

  abbrev pub after_lookup :
      ℕ → ℕ → Text → Result (Option TotpBackupCode) → BackupCodes → Result Bool × BackupCodes
  after_lookup now user_id code r s =
      and_then (spend sha256_hexdigest now (found_by user_id code)) (r, s)

  pub use_backup_code-lookup :
      (now user_id : ℕ) (code : Text) (s : BackupCodes)
      → use_backup_code sha256_hexdigest now user_id code s
        ≡ after_lookup now user_id code (one_or_none (select (found_by user_id code) s)) s
  unfolding use_backup_code
  use_backup_code-lookup now user_id code s = refl

  record Spent (now user_id : ℕ) (code : Text) (s : BackupCodes) : Type 0 where
    row : TotpBackupCode
    only : select (found_by user_id code) s ≡ row ∷ []
    table :
        (use_backup_code sha256_hexdigest now user_id code s).1
        ≡ update_first (found_by user_id code) (used now) s

  lookup-Spent :
      (now user_id : ℕ) (code : Text) (s : BackupCodes) (r : Result (Option TotpBackupCode))
      → one_or_none (select (found_by user_id code) s) ≡ r
      → (after_lookup now user_id code r s).0 ≡ ok true
      → Spent now user_id code s
  lookup-Spent now user_id code s (ok none) e h = absurd (cc h)
  lookup-Spent now user_id code s (ok (some c)) e h = record {
    row = c;
    only = one_found (select (found_by user_id code) s) {x = c} e;
    table = rw (use_backup_code-lookup now user_id code s, e) refl;
  }
  lookup-Spent now user_id code s (err f) e h = absurd (cc h)

  matches-counted :
      (user_id : ℕ) (code_hash : Text) (c : TotpBackupCode)
      → matches user_id code_hash c ≡ true
      → is_unused_of user_id c ≡ true
  matches-counted user_id code_hash c h = ground (arith, h)

  used-not_counted :
      (now user_id : ℕ) (c : TotpBackupCode) → is_unused_of user_id (used now c) ≡ false
  used-not_counted now user_id c = ground arith

  used-not_matched :
      (now user_id : ℕ) (code_hash : Text) (c : TotpBackupCode)
      → matches user_id code_hash (used now c) ≡ false
  used-not_matched now user_id code_hash c = ground arith

  abbrev use_of_normal : ℕ → ℕ → Text → BackupCodes → Result Bool × BackupCodes
  use_of_normal now user_id normal t =
      and_then (spend sha256_hexdigest now (matches user_id (sha256_hexdigest normal)))
        (one_or_none (select (matches user_id (sha256_hexdigest normal)) t), t)

  refused :
      (now user_id : ℕ) (code again : Text) (t : BackupCodes)
      → normalized again ≡ normalized code
      → select (found_by user_id code) t ≡ []
      → use_backup_code sha256_hexdigest now user_id again t ≡ (ok false, t)
  refused now user_id code again t same none_found =
      use_backup_code-lookup now user_id again t
      ∙ ap (λ n. use_of_normal now user_id n t) same
      ∙ ap
          (λ rows.
            and_then (spend sha256_hexdigest now (found_by user_id code)) (one_or_none rows, t))
          none_found

  -- A backup code that is accepted is spent: one less remains to the user, and neither it nor
  -- another spelling of it (with other dashes, spaces around it or capitals) is accepted again,
  -- whenever it comes next; such a second use changes nothing.
  pub use_backup_code_once :
      (now later user_id : ℕ) (code again : Text) (s : BackupCodes)
      → (use_backup_code sha256_hexdigest now user_id code s).0 ≡ ok true
      → normalized again ≡ normalized code
      → (backup_codes_remaining user_id (use_backup_code sha256_hexdigest now user_id code s).1 + 1
          ≡ backup_codes_remaining user_id s)
        × (use_backup_code sha256_hexdigest later user_id again
              (use_backup_code sha256_hexdigest now user_id code s).1
            ≡ (ok false, (use_backup_code sha256_hexdigest now user_id code s).1))
  unfolding backup_codes_remaining
  use_backup_code_once now later user_id code again s h same =
      let p = found_by user_id code in
      let spent =
        lookup-Spent now user_id code s (one_or_none (select p s)) refl
          (subst (λ r. r.0 ≡ ok true) (use_backup_code-lookup now user_id code s) h) in
      let left : length (select p (update_first p (used now) s)) + 1 ≡ 1 =
        select-update_first p p (used now) s {x = spent.row} {xs = []} (λ c hit. hit)
          (used-not_matched now user_id (sha256_hexdigest (normalized code))) spent.only
        ∙ ap length spent.only in
      let none_found : select p (update_first p (used now) s) ≡ [] =
        none_left (select p (update_first p (used now) s)) left in
      rw spent.table (
        select-update_first p (is_unused_of user_id) (used now) s {x = spent.row} {xs = []}
            (matches-counted user_id (sha256_hexdigest (normalized code)))
            (used-not_counted now user_id) spent.only,
        refused later user_id code again (update_first p (used now) s) same none_found,
      )
