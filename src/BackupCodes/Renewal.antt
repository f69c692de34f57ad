-- ===== src/BackupCodes/Renewal.antt =====
-- New backup codes take the place of the old ones: `generate_backup_codes` of
-- backend/app/domains/auth/service.py.
use cau_sium.Prelude.{
  ℕ, zero, suc, ◌+◌, ◌≡◌, ◌∙◌, refl, not, List, [], ◌∷◌, ◌++◌, Text, arith, length, select, ◌==◌,
  if◌then◌else◌,
}
use cau_sium.Prelude.Actions.{then_pure-state}
use cau_sium.BackupCodes.{
  BackupCodes, Draw, is_unused_of, formatted, backup_codes_remaining, generate_backup_codes,
  add_codes, new_code, backup_code_count,
}

-- The codes that are added count for `user_id` only.
abbrev gained : ℕ → ℕ → ℕ → ℕ
gained user_id other count = if user_id == other then count else 0

select-cleared :
    (user_id other : ℕ) (s : BackupCodes)
    → length (select (is_unused_of other) (select (λ c. not (c.user_id == user_id)) s))
      ≡ (if user_id == other then 0 else length (select (is_unused_of other) s))
select-cleared user_id other [] = ground arith
select-cleared user_id other (c ∷ s) = ground (arith, select-cleared user_id other s)

module _ (sha256_hexdigest : Text → Text) where
  add_code-length :
      (user_id org_id other : ℕ) (draw : Draw) (s : BackupCodes)
      → length
          (select (is_unused_of other) (s ++ new_code sha256_hexdigest user_id org_id draw ∷ []))
        ≡ length (select (is_unused_of other) s) + gained user_id other 1
  add_code-length user_id org_id other draw [] = ground arith
  add_code-length user_id org_id other draw (c ∷ s) =
      ground (arith, add_code-length user_id org_id other draw s)

  add_codes-length :
      (user_id org_id other : ℕ) (draws : ℕ → Draw) (count n : ℕ) (s : BackupCodes)
      → length (
          select (is_unused_of other) (add_codes sha256_hexdigest user_id org_id draws count n s).1)
        ≡ length (select (is_unused_of other) s) + gained user_id other count
  unfolding add_codes
  add_codes-length user_id org_id other draws zero n s = ground arith
  add_codes-length user_id org_id other draws (suc count) n s =
      let t = s ++ new_code sha256_hexdigest user_id org_id (draws n) ∷ [] in
      let gained_once : length (select (is_unused_of other) t) + gained user_id other count
          ≡ length (select (is_unused_of other) s) + gained user_id other (suc count) =
        ground (arith, add_code-length user_id org_id other (draws n) s) in
      let added = add_codes sha256_hexdigest user_id org_id draws count (suc n) t in
      rw (then_pure-state {B = List Text} (λ codes. formatted (draws n).raw ∷ codes) added)
        (add_codes-length user_id org_id other draws count (suc n) t ∙ gained_once)

  pub generate_backup_codes-table :
      (user_id org_id : ℕ) (draws : ℕ → Draw) (s : BackupCodes)
      → (generate_backup_codes sha256_hexdigest user_id org_id draws s).1
        ≡ (add_codes sha256_hexdigest user_id org_id draws backup_code_count 0
            (select (λ c. not (c.user_id == user_id)) s)).1
  unfolding generate_backup_codes
  generate_backup_codes-table user_id org_id draws s = refl

  -- After new backup codes are generated for a user, eight unused codes remain to that user, however
  -- many there were before; to any other user as many remain as before.
  pub generate_backup_codes_replaces :
      (user_id org_id other : ℕ) (draws : ℕ → Draw) (s : BackupCodes)
      → backup_codes_remaining other
          (generate_backup_codes sha256_hexdigest user_id org_id draws s).1
        ≡ (if user_id == other then backup_code_count else backup_codes_remaining other s)
  unfolding backup_codes_remaining
  generate_backup_codes_replaces user_id org_id other draws s =
      let kept = select (λ c. not (c.user_id == user_id)) s in
      rw
        (
          generate_backup_codes-table user_id org_id draws s,
          add_codes-length user_id org_id other draws backup_code_count 0 kept,
          select-cleared user_id other s,
        )
        (ground arith)
