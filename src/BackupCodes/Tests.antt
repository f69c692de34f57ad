-- ===== src/BackupCodes/Tests.antt =====
-- Runs of the backup codes of backend/app/domains/auth/service.py, with a hash that tells apart the
-- codes by their first digit.
use cau_sium.Prelude.{
  ℕ, ◌+◌, ◌<◌, ◌≡◌, ◌≢◌, refl, true, false, none, [], ◌∷◌, Text, codes, arith, ok, err, raised,
  strip, lower, is_space,
}
use cau_sium.BackupCodes.{
  TotpBackupCode, BackupCodes, Draw, normalized, backup_codes_remaining, use_backup_code,
  generate_backup_codes, backup_code_count,
}
use cau_sium.BackupCodes.Spending.{use_backup_code_once}
use cau_sium.BackupCodes.Accepting.{generated_code_accepted}

-- The hash is the text itself, and the n-th draw is a digit followed by nine letters.
abbrev same_text : Text → Text
same_text code = code

abbrev toy_draw : ℕ → Draw
toy_draw n = record { id = 100 + n; raw = (48 + n) ∷ codes "abcdefabc" }

abbrev foreign_code : TotpBackupCode
foreign_code = record {
  id = 1;
  user_id = 2;
  org_id = 1;
  code_hash = codes "0000000000";
  used_at = none;
}

abbrev old_code : TotpBackupCode
old_code = record foreign_code { id = 3; user_id = 1 }

abbrev two_codes : BackupCodes
two_codes = foreign_code ∷ old_code ∷ []

abbrev renewed : BackupCodes
renewed = (generate_backup_codes same_text 1 1 toy_draw two_codes).1

-- The old code is gone, and a doubled hash is not resolved.
old_code_refused : (use_backup_code same_text 9 1 (codes "00000-00000") renewed).0 ≡ ok false
unfolding use_backup_code generate_backup_codes strip lower is_space
old_code_refused = refl

doubled_code_raises :
    (use_backup_code same_text 9 1 (codes "0000000000") (old_code ∷ old_code ∷ [])).0
    ≡ err (raised "MultipleResultsFound")
unfolding use_backup_code strip lower is_space
doubled_code_raises = refl

accepted_old_code : (use_backup_code same_text 9 1 (codes "00000-00000") two_codes).0 ≡ ok true
unfolding use_backup_code strip lower is_space
accepted_old_code = refl

use_backup_code_once_example :
    (backup_codes_remaining 1 (use_backup_code same_text 9 1 (codes "00000-00000") two_codes).1 + 1
      ≡ backup_codes_remaining 1 two_codes)
    × (use_backup_code same_text 10 1
          (codes " 0000000000")
          (use_backup_code same_text 9 1 (codes "00000-00000") two_codes).1
        ≡ (ok false, (use_backup_code same_text 9 1 (codes "00000-00000") two_codes).1))
unfolding normalized strip lower is_space
use_backup_code_once_example =
    use_backup_code_once same_text 9 10 1 (codes "00000-00000") (codes " 0000000000") two_codes
      accepted_old_code refl

toy_distinct :
    (i j : ℕ)
    → i < backup_code_count
    → j < backup_code_count
    → i ≢ j
    → (toy_draw i).raw ≢ (toy_draw j).raw
toy_distinct i j hi hj differ e = let same : 48 + i ≡ 48 + j = cc e in differ (omega (arith, same))

generated_code_accepted_example :
    (use_backup_code same_text 9 1 (codes "3abcd-efabc") renewed).0 ≡ ok true
generated_code_accepted_example =
    generated_code_accepted same_text 1 1 toy_draw toy_distinct 9 3 two_codes (omega arith)
      (refl, (refl, (refl, (refl, (refl, (refl, (refl, (refl, (refl, (refl, tt))))))))))
