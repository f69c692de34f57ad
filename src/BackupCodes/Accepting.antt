-- ===== src/BackupCodes/Accepting.antt =====
-- Generated backup codes are accepted: `generate_backup_codes` and `use_backup_code` of
-- backend/app/domains/auth/service.py.
use cau_sium.Prelude.{
  ℕ, zero, suc, ◌+◌, ◌<◌, ◌≤◌, ◌≡◌, ◌≢◌, ◌∙◌, sym, ap, subst, refl, inl, inr, true, false, Bool,
  ◌&&◌, ◌||◌, not, List, [], ◌∷◌, ◌++◌, Text, arith, ok, All, select, take, drop, Bool-cases, ◌==◌,
  ==_refl, leb, select-append, NoSpace, is_space, strip-NoSpace, lower, text_eq, text_eq_refl,
  text_eq→eq, not_true,
}
use cau_sium.Prelude.Actions.{then_pure-state}
use cau_sium.BackupCodes.{
  TotpBackupCode, BackupCodes, Draw, one_or_none, matches, formatted, normalized, use_backup_code,
  generate_backup_codes, add_codes, new_code, backup_code_count,
}
use cau_sium.BackupCodes.Renewal.{generate_backup_codes-table}
use cau_sium.BackupCodes.Spending.{after_lookup, use_backup_code-lookup}

-- The characters of `secrets.token_hex`.
abbrev pub is_hex : ℕ → Bool
is_hex c = (leb b'0' c && leb c b'9') || (leb b'a' c && leb c b'f')

abbrev pub Hex : Text → Type 0
Hex s = All (λ c. is_hex c ≡ true) s

Hex-NoSpace : (s : Text) → Hex s → NoSpace s
unfolding is_space
Hex-NoSpace [] h = tt
Hex-NoSpace (c ∷ s) h = (ground (arith, h.0), Hex-NoSpace s h.1)

lower-Hex : (s : Text) → Hex s → lower s ≡ s
unfolding lower
lower-Hex [] h = refl
lower-Hex (c ∷ s) h =
    let small : (leb b'A' c && leb c b'Z') ≡ false = ground (arith, h.0) in
    rw small (ap (λ t. c ∷ t) (lower-Hex s h.1))

without_dashes : (s : Text) → Hex s → select (λ c. not (c == b'-')) s ≡ s
without_dashes [] h = refl
without_dashes (c ∷ s) h = ground (arith, h.0, without_dashes s h.1)

-- Without its dash, a formatted code is as it was drawn.
undashed :
    (n : ℕ) (s : Text) → Hex s → select (λ c. not (c == b'-')) (take n s ++ b'-' ∷ drop n s) ≡ s
undashed zero [] h = refl
undashed zero (c ∷ s) h = without_dashes (c ∷ s) h
undashed (suc n) [] h = refl
undashed (suc n) (c ∷ s) h = ground (arith, h.0, undashed n s h.1)

normalized-formatted : (raw : Text) → Hex raw → normalized (formatted raw) ≡ raw
unfolding normalized
normalized-formatted raw h =
    rw (undashed 5 raw h, strip-NoSpace raw (Hex-NoSpace raw h)) (lower-Hex raw h)

select-miss :
    (p : TotpBackupCode → Bool) (s : BackupCodes) (c : TotpBackupCode)
    → p c ≡ false
    → select p (s ++ c ∷ []) ≡ select p s
select-miss p [] c miss = rw miss refl
select-miss p (d ∷ s) c miss = ground (arith, select-miss p s c miss)

select-hit :
    (p : TotpBackupCode → Bool) (s : BackupCodes) (c : TotpBackupCode)
    → p c ≡ true
    → select p s ≡ []
    → select p (s ++ c ∷ []) ≡ c ∷ []
select-hit p s c hit none_yet =
    let last : select p (c ∷ []) ≡ c ∷ [] = rw hit refl in
    rw (select-append p s (c ∷ []), none_yet) last

cleared :
    (user_id : ℕ) (code_hash : Text) (s : BackupCodes)
    → select (matches user_id code_hash) (select (λ c. not (c.user_id == user_id)) s) ≡ []
cleared user_id code_hash [] = refl
cleared user_id code_hash (c ∷ s) = ground (arith, cleared user_id code_hash s)

module _ (sha256_hexdigest : Text → Text) (user_id org_id : ℕ) (draws : ℕ → Draw) where
  abbrev hash_of : ℕ → Text
  hash_of n = sha256_hexdigest (draws n).raw

  abbrev row_of : ℕ → TotpBackupCode
  row_of n = new_code sha256_hexdigest user_id org_id (draws n)

  add_codes-suc :
      (count n : ℕ) (s : BackupCodes)
      → (add_codes sha256_hexdigest user_id org_id draws (suc count) n s).1
        ≡ (add_codes sha256_hexdigest user_id org_id draws count (suc n) (s ++ row_of n ∷ [])).1
  unfolding add_codes
  add_codes-suc count n s =
      then_pure-state {B = List Text} (λ codes. formatted (draws n).raw ∷ codes)
        (add_codes sha256_hexdigest user_id org_id draws count (suc n) (s ++ row_of n ∷ []))

  -- The codes of the draws have different hashes.
  abbrev Distinct : Type 0
  Distinct =
      (i j : ℕ) → i < backup_code_count → j < backup_code_count → i ≢ j → hash_of i ≢ hash_of j

  row_of-same : (i : ℕ) → matches user_id (hash_of i) (row_of i) ≡ true
  row_of-same i = rw (==_refl user_id, text_eq_refl (hash_of i)) refl

  row_of-other : (i n : ℕ) → hash_of n ≢ hash_of i → matches user_id (hash_of i) (row_of n) ≡ false
  row_of-other i n other =
      let differ : text_eq (hash_of n) (hash_of i) ≡ false =
        not_true _ (λ e. other (text_eq→eq (hash_of n) (hash_of i) e)) in
      rw (==_refl user_id, differ) refl

  add_codes-others :
      (distinct : Distinct) (i count n : ℕ) (s : BackupCodes)
      → i < n
      → n + count ≤ backup_code_count
      → select
          (matches user_id (hash_of i))
          (add_codes sha256_hexdigest user_id org_id draws count n s).1
        ≡ select (matches user_id (hash_of i)) s
  unfolding add_codes
  add_codes-others distinct i zero n s before room = refl
  add_codes-others distinct i (suc count) n s before room =
      let other : matches user_id (hash_of i) (row_of n) ≡ false = row_of-other i n (
        distinct n i (omega (arith, room)) (omega (arith, before, room))
          (λ e. omega (arith, e, before))) in
      rw (add_codes-suc count n s) (
        add_codes-others distinct i count (suc n) (s ++ row_of n ∷ []) (omega (arith, before))
          (omega (arith, room))
        ∙ select-miss (matches user_id (hash_of i)) s (row_of n) other)

  add_codes-finds :
      (distinct : Distinct) (i count n : ℕ) (s : BackupCodes)
      → n ≤ i
      → i < n + count
      → n + count ≤ backup_code_count
      → select (matches user_id (hash_of i)) s ≡ []
      → select
          (matches user_id (hash_of i))
          (add_codes sha256_hexdigest user_id org_id draws count n s).1
        ≡ row_of i ∷ []
  add_codes-finds distinct i zero n s from below room none_yet = absurd (omega (arith, from, below))
  add_codes-finds distinct i (suc count) n s from below room none_yet = elim (Bool-cases (n == i)) [
    | inl now ↦
        let same : n ≡ i = ground (arith, now) in
        let hit : matches user_id (hash_of i) (row_of n) ≡ true =
          subst (λ m. matches user_id (hash_of i) (row_of m) ≡ true) (sym same) (row_of-same i) in
        rw (add_codes-suc count n s) (
          add_codes-others distinct i count (suc n) (s ++ row_of n ∷ []) (omega (arith, same))
            (omega (arith, room))
          ∙ select-hit (matches user_id (hash_of i)) s (row_of n) hit none_yet
          ∙ ap (λ m. row_of m ∷ []) same)
    | inr later ↦
        let not_here : n ≢ i = ground (arith, later) in
        let other : matches user_id (hash_of i) (row_of n) ≡ false =
          row_of-other i n
            (distinct n i (omega (arith, room)) (omega (arith, below, room)) not_here) in
        rw (add_codes-suc count n s) (
          add_codes-finds distinct i count (suc n) (s ++ row_of n ∷ [])
            (omega (arith, from, not_here)) (omega (arith, below)) (omega (arith, room))
            (select-miss (matches user_id (hash_of i)) s (row_of n) other ∙ none_yet))
  ]

  -- A code of the eight that are generated for a user is accepted, as it was shown with its dash, if
  -- its draw is hexadecimal and the eight draws have different hashes.
  pub generated_code_accepted :
      (distinct : Distinct) (now i : ℕ) (s : BackupCodes)
      → i < backup_code_count
      → Hex (draws i).raw
      → (use_backup_code sha256_hexdigest now user_id
          (formatted (draws i).raw)
          (generate_backup_codes sha256_hexdigest user_id org_id draws s).1).0
        ≡ ok true
  generated_code_accepted distinct now i s below hex =
      let kept = select (λ c. not (c.user_id == user_id)) s in
      let table = (generate_backup_codes sha256_hexdigest user_id org_id draws s).1 in
      let drawn = normalized-formatted (draws i).raw hex in
      let one : select (matches user_id (hash_of i)) table ≡ row_of i ∷ [] =
        rw (generate_backup_codes-table sha256_hexdigest user_id org_id draws s) (
          add_codes-finds distinct i backup_code_count 0 kept (omega arith) (omega (arith, below))
            (omega arith) (cleared user_id (hash_of i) s)) in
      let found =
        ap (λ r. one_or_none (select (matches user_id (sha256_hexdigest r)) table)) drawn
        ∙ ap one_or_none one in
      ap (λ r. r.0)
        (use_backup_code-lookup sha256_hexdigest now user_id (formatted (draws i).raw) table)
      ∙ ap (λ r. (after_lookup sha256_hexdigest now user_id (formatted (draws i).raw) r table).0)
          found
