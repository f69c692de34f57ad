-- ===== src/Keyrings/Keeping.antt =====
-- What the operations leave of the rows of workspace keyrings: backend/app/core/security.py.
use cau_sium.Prelude.{
  ℕ, suc, ◌≡◌, ◌∙◌, refl, inl, inr, List, [], ◌∷◌, Text, arith, any_row, update_rows, Bool-cases,
  ◌==◌, Option-cases, length,
}
use cau_sium.Prelude.Growth
use cau_sium.Prelude.Actions.{Action, related->>=, pure, ◌>>=◌, ◌>>◌}
use cau_sium.Keyrings.Fernets.{Fernet}
use cau_sium.Keyrings.{
  WorkspaceKeyring, NewKey, Keyrings, has_version, current_keyring, max_version, insert_keyring,
  ciphertext, deactivated, fernet_encrypt, fernet_decrypt, keyring_row, add_keyring,
  ensure_workspace_keyring, encrypt_secret_for_org, rotate_one, rotate_all,
  rotate_expired_workspace_keyrings, due_keyrings, master,
}

-- The keyring `l` is the keyring `k` some requests later.
pub record KeepsKey (k l : WorkspaceKeyring) : Type 0 where
  pub same_org : l.org_id ≡ k.org_id
  pub same_version : l.key_version ≡ k.key_version
  pub same_material : l.key_material_encrypted ≡ k.key_material_encrypted

KeepsKey-refl : (k : WorkspaceKeyring) → KeepsKey k k
KeepsKey-refl k = record { same_org = refl; same_version = refl; same_material = refl }

KeepsKey-trans : (k l m : WorkspaceKeyring) → KeepsKey k l → KeepsKey l m → KeepsKey k m
KeepsKey-trans k l m h h' = record {
  same_org = h'.same_org ∙ h.same_org;
  same_version = h'.same_version ∙ h.same_version;
  same_material = h'.same_material ∙ h.same_material;
}

abbrev pub Kept : Keyrings → Keyrings → Type 0
Kept = Growth.Grows KeepsKey

pub Kept-refl : (s : Keyrings) → Kept s s
Kept-refl = Growth.Grows-refl KeepsKey KeepsKey-refl

pub Kept-trans : (s t u : Keyrings) → Kept s t → Kept t u → Kept s u
Kept-trans = Growth.Grows-trans KeepsKey KeepsKey-trans

-- The rows of every version stand after the action as before it.
abbrev pub Keeps : {A : Type 0} → Action Keyrings A → Type 0
Keeps m = (s : Keyrings) → Kept s (m s).1

Keeps->>= :
    {A B : Type 0} (m : Action Keyrings A) (f : A → Action Keyrings B)
    → Keeps m
    → ((a : A) → Keeps (f a))
    → (s : Keyrings) → Kept s ((m >>= f) s).1
Keeps->>= = related->>= Kept Kept-trans

insert_keyring-Keeps : (k : WorkspaceKeyring) → Keeps (insert_keyring k)
unfolding insert_keyring
insert_keyring-Keeps k s = elim (Bool-cases (any_row (has_version k.org_id k.key_version) s)) [
  | inl taken ↦ rw taken (Kept-refl s)
  | inr new ↦ rw new (Growth.Grows-append KeepsKey KeepsKey-refl s (k ∷ []))
]

module _ (F : Fernet) (encryption_key : Text) where
  abbrev global : Text
  global = master F encryption_key

  pub fernet_encrypt-same :
      (key : Text) (nonce : ℕ) (value : Text) (s : Keyrings)
      → (fernet_encrypt F encryption_key key nonce value s).1 ≡ s
  unfolding fernet_encrypt
  fernet_encrypt-same key nonce value s = ground arith

  pub fernet_decrypt-same :
      (key token : Text) (s : Keyrings) → (fernet_decrypt F encryption_key key token s).1 ≡ s
  unfolding fernet_decrypt
  fernet_decrypt-same key token s = ground arith

  fernet_encrypt-Keeps :
      (key : Text) (nonce : ℕ) (value : Text)
      → Keeps (fernet_encrypt F encryption_key key nonce value)
  fernet_encrypt-Keeps key nonce value s = rw (fernet_encrypt-same key nonce value s) (Kept-refl s)

  fernet_decrypt-Keeps : (key token : Text) → Keeps (fernet_decrypt F encryption_key key token)
  fernet_decrypt-Keeps key token s = rw (fernet_decrypt-same key token s) (Kept-refl s)

  add_keyring-Keeps :
      (now : ℕ) (new : NewKey) (org_id version : ℕ)
      → Keeps (add_keyring F encryption_key now new org_id version)
  unfolding add_keyring
  add_keyring-Keeps now new org_id version =
      Keeps->>= (fernet_encrypt F encryption_key global new.nonce new.key)
        (λ material.
          insert_keyring (keyring_row F encryption_key now new org_id version material)
          >> pure (keyring_row F encryption_key now new org_id version material))
        (fernet_encrypt-Keeps global new.nonce new.key)
        (λ material.
          Keeps->>= (insert_keyring (keyring_row F encryption_key now new org_id version material))
            (λ _. pure (keyring_row F encryption_key now new org_id version material))
            (insert_keyring-Keeps (keyring_row F encryption_key now new org_id version material))
            (λ _ t. Kept-refl t))

  pub ensure-Keeps :
      (now : ℕ) (new : NewKey) (org_id : ℕ)
      → Keeps (ensure_workspace_keyring F encryption_key now new org_id)
  unfolding ensure_workspace_keyring
  ensure-Keeps now new org_id s = elim (Option-cases (current_keyring org_id s)) [
    | inl missing ↦ rw (missing, ensure_workspace_keyring) (add_keyring-Keeps now new org_id 1 s)
    | inr (k, found) ↦ rw (found, ensure_workspace_keyring) (Kept-refl s)
  ]

  -- What `encrypt_secret_for_org` does with the workspace's key, and with the keyring.
  abbrev pub under_key : ℕ → Text → WorkspaceKeyring → Text → Action Keyrings Text
  under_key nonce value keyring workspace_key =
      fernet_encrypt F encryption_key workspace_key nonce value >>= λ token.
      pure (ciphertext keyring.key_version token)

  abbrev pub under_keyring : ℕ → Text → WorkspaceKeyring → Action Keyrings Text
  under_keyring nonce value keyring =
      fernet_decrypt F encryption_key global keyring.key_material_encrypted
      >>= under_key nonce value keyring

  under_keyring-Keeps :
      (nonce : ℕ) (value : Text) (keyring : WorkspaceKeyring)
      → Keeps (under_keyring nonce value keyring)
  under_keyring-Keeps nonce value keyring =
      Keeps->>= (fernet_decrypt F encryption_key global keyring.key_material_encrypted)
        (under_key nonce value keyring) (fernet_decrypt-Keeps global keyring.key_material_encrypted)
        (λ workspace_key.
          Keeps->>= (fernet_encrypt F encryption_key workspace_key nonce value)
            (λ token. pure (ciphertext keyring.key_version token))
            (fernet_encrypt-Keeps workspace_key nonce value) (λ token s. Kept-refl s))

  pub encrypt-Keeps :
      (now : ℕ) (new : NewKey) (nonce org_id : ℕ) (value : Text)
      → Keeps (encrypt_secret_for_org F encryption_key now new nonce org_id value)
  unfolding encrypt_secret_for_org
  encrypt-Keeps now new nonce org_id value =
      Keeps->>= (ensure_workspace_keyring F encryption_key now new org_id)
        (under_keyring nonce value) (ensure-Keeps now new org_id)
        (λ keyring. under_keyring-Keeps nonce value keyring)

  rotate_one-Keeps :
      (now : ℕ) (new : NewKey) (k : WorkspaceKeyring)
      → Keeps (rotate_one F encryption_key now new k)
  unfolding rotate_one
  rotate_one-Keeps now new k s =
      Kept-trans s (update_rows (λ l. l.id == k.id) deactivated s) _
        (Growth.Grows-update_rows KeepsKey KeepsKey-refl (λ l. l.id == k.id) deactivated
          (λ l _. record { same_org = refl; same_version = refl; same_material = refl }) s)
        (add_keyring-Keeps now new k.org_id (suc (max_version k.org_id s))
          (update_rows (λ l. l.id == k.id) deactivated s))

  rotate_all-Keeps :
      (now : ℕ) (supply : ℕ → NewKey) (n : ℕ) (due : List WorkspaceKeyring)
      → Keeps (rotate_all F encryption_key now supply n due)
  unfolding rotate_all
  rotate_all-Keeps now supply n [] s = Kept-refl s
  rotate_all-Keeps now supply n (k ∷ due) s =
      Keeps->>= (rotate_one F encryption_key now (supply n) k)
        (λ _. rotate_all F encryption_key now supply (suc n) due)
        (rotate_one-Keeps now (supply n) k) (λ _. rotate_all-Keeps now supply (suc n) due) s

  pub rotate_expired-Keeps :
      (now : ℕ) (supply : ℕ → NewKey) (max_age_days batch_size : ℕ)
      → Keeps
          (rotate_expired_workspace_keyrings F encryption_key now supply max_age_days batch_size)
  unfolding rotate_expired_workspace_keyrings
  rotate_expired-Keeps now supply max_age_days batch_size s =
      elim (Bool-cases (max_age_days == 0)) [
        | inl refused ↦ rw refused (Kept-refl s)
        | inr some_days ↦ elim (Bool-cases (batch_size == 0)) [
          | inl refused ↦ rw (some_days, refused) (Kept-refl s)
          | inr some_rows ↦
              rw (some_days, some_rows)
                (Keeps->>=
                  (rotate_all F encryption_key now supply 0
                    (due_keyrings F encryption_key now max_age_days batch_size s))
                  (λ rotated.
                    pure (
                      length (due_keyrings F encryption_key now max_age_days batch_size s),
                      rotated,
                    ))
                  (rotate_all-Keeps now supply 0
                    (due_keyrings F encryption_key now max_age_days batch_size s))
                  (λ rotated t. Kept-refl t) s)
        ]
      ]
