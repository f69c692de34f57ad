-- ===== src/Keyrings/Versions.antt =====
-- The ciphertexts of workspaces and the lookup of keyrings by version (backend/app/core/security.py).
use cau_sium.Prelude.{
  ℕ, ◌≡◌, ◌∙◌, ap, refl, inl, inr, true, false, Bool, none, some, [], ◌∷◌, ◌++◌, Text, All, All-map,
  arith, ok, find_row, find_row-append, find_row-none, select, any_row, Bool-cases, ◌==◌,
  Option-cases, ltb, is_prefix, any_row-find_row, if◌then◌else◌, is_some,
}
use cau_sium.Prelude.Decimals.{decimal, decimal-Digits, int_of-decimal, is_digit, positive}
use cau_sium.Keyrings.{
  WorkspaceKeyring, Keyrings, has_version, is_current, latest_version, current_keyring,
  insert_keyring, cut_colon, ciphertext, parse_ciphertext, read_version, with_token, prefix,
}

-- The unique constraint on (org_id, key_version).
abbrev pub UniqueVersions : Keyrings → Type 0
UniqueVersions [] = Unit
UniqueVersions (k ∷ s) = (any_row (has_version k.org_id k.key_version) s ≡ false) × UniqueVersions s

cut_colon-digits :
    (digits token : Text)
    → All (λ c. is_digit c ≡ true) digits
    → cut_colon (digits ++ b':' ∷ token) ≡ some (digits, token)
unfolding cut_colon
cut_colon-digits [] token h = refl
cut_colon-digits (c ∷ digits) token h =
    let no_colon : (c == b':') ≡ false = ground (arith, h.0) in
    rw (cut_colon-digits digits token h.1, no_colon) refl

pub parse_ciphertext-ciphertext :
    (version : ℕ) (token : Text)
    → parse_ciphertext (ciphertext version token) ≡ some (positive version, token)
unfolding parse_ciphertext ciphertext
parse_ciphertext-ciphertext version token =
    ap read_version (cut_colon-digits (decimal version) token (decimal-Digits version))
    ∙ ap (with_token token) (int_of-decimal version)

pub is_prefix-ciphertext :
    (version : ℕ) (token : Text) → is_prefix prefix (ciphertext version token) ≡ true
unfolding is_prefix ciphertext
is_prefix-ciphertext version token = refl

has_version_self : (k : WorkspaceKeyring) → has_version k.org_id k.key_version k ≡ true
has_version_self k = ground arith

-- The rows of a table with unique versions are found by their versions.
abbrev FoundIn : Keyrings → WorkspaceKeyring → Type 0
FoundIn s k = find_row (has_version k.org_id k.key_version) s ≡ some k

FoundIn-∷ :
    (l : WorkspaceKeyring) (s : Keyrings) (k : WorkspaceKeyring)
    → any_row (has_version l.org_id l.key_version) s ≡ false
    → FoundIn s k
    → FoundIn (l ∷ s) k
FoundIn-∷ l s k new found = elim (Bool-cases (has_version k.org_id k.key_version l)) [
  | inl same ↦
      let same_org : k.org_id ≡ l.org_id = ground (arith, same) in
      let same_version : k.key_version ≡ l.key_version = ground (arith, same) in
      let there : any_row (has_version k.org_id k.key_version) s ≡ true =
        any_row-find_row (has_version k.org_id k.key_version) s ∙ ap is_some found in
      let absent : any_row (has_version k.org_id k.key_version) s ≡ false =
        rw (same_org, same_version) new in
      absurd (cc (there, absent))
  | inr other ↦ rw other found
]

All-FoundIn : (s : Keyrings) → UniqueVersions s → All (FoundIn s) s
All-FoundIn [] h = tt
All-FoundIn (k ∷ s) h = (
  rw (has_version_self k) refl,
  All-map (FoundIn s) (FoundIn (k ∷ s)) s (λ l. FoundIn-∷ k s l h.0) (All-FoundIn s h.1),
)

pub All-latest_version {κ} :
    (P : WorkspaceKeyring → Type κ) (s : Keyrings) {k : WorkspaceKeyring}
    → All P s
    → latest_version s ≡ some k
    → P k
unfolding latest_version
All-latest_version P [] h e = absurd (cc e)
All-latest_version P (l ∷ s) {k} h e = elim (Option-cases (latest_version s)) [
  | inl alone ↦ let here : l ≡ k = cc (rw alone at e) in rw (← here) h.0
  | inr (m, later) ↦ elim (Bool-cases (ltb l.key_version m.key_version)) [
    | inl newer ↦
        let here : m ≡ k = cc (rw (later, newer) at e) in
        rw (← here) (All-latest_version P s h.1 later)
    | inr older ↦ let here : l ≡ k = cc (rw (later, older) at e) in rw (← here) h.0
  ]
]

-- What is selected passes the test.
All-select_both {κ} :
    (P : WorkspaceKeyring → Type κ) (p : WorkspaceKeyring → Bool) (s : Keyrings)
    → All P s
    → All (λ l. P l × (p l ≡ true)) (select p s)
All-select_both P p [] h = tt
All-select_both P p (k ∷ s) h = elim (Bool-cases (p k)) [
  | inl keep ↦ rw keep ((h.0, keep), All-select_both P p s h.1)
  | inr skip ↦ rw skip (All-select_both P p s h.1)
]

-- What `is_current` finds, its version finds too.
pub current-FoundIn :
    (org_id : ℕ) (s : Keyrings) {k : WorkspaceKeyring}
    → UniqueVersions s
    → current_keyring org_id s ≡ some k
    → find_row (has_version org_id k.key_version) s ≡ some k
unfolding current_keyring
current-FoundIn org_id s {k} h e =
    let there =
      All-latest_version (λ l. FoundIn s l × (is_current org_id l ≡ true))
        (select (is_current org_id) s)
        (All-select_both (FoundIn s) (is_current org_id) s (All-FoundIn s h)) e in
    let same_org : k.org_id ≡ org_id = ground (arith, there.1) in rw (← same_org) there.0

pub insert_keyring-FoundIn :
    (k : WorkspaceKeyring) (s : Keyrings) {u : Unit {0}}
    → (insert_keyring k s).0 ≡ ok u
    → find_row (has_version k.org_id k.key_version) (insert_keyring k s).1 ≡ some k
unfolding insert_keyring
insert_keyring-FoundIn k s e = elim (Bool-cases (any_row (has_version k.org_id k.key_version) s)) [
  | inl taken ↦ absurd (cc (rw taken at e))
  | inr new ↦
      let absent : find_row (has_version k.org_id k.key_version) s ≡ none =
        find_row-none (has_version k.org_id k.key_version) s new in
      rw new (
        find_row-append (has_version k.org_id k.key_version) s k absent
        ∙ ap (λ b. if b then some k else none) (has_version_self k))
]
