-- ===== src/Keyrings/Decrypting.antt =====
-- A secret that was encrypted for a workspace is decrypted whatever the requests do meanwhile:
-- `encrypt_secret_for_org` and `decrypt_secret_for_org` of backend/app/core/security.py.
use cau_sium.Prelude.{
  ℕ, ◌≡◌, ◌∙◌, sym, ap, subst, refl, inl, inr, true, some, List, [], ◌∷◌, Text, ok, find_row,
  Bool-cases, Option-cases,
}
use cau_sium.Prelude.Growth.{find_row-Grows}
use cau_sium.Prelude.Actions.{in_transaction, in_transaction_keeps, then_ok, pure, ◌>>◌}
use cau_sium.Keyrings.Fernets.{Fernet, IsFernet}
use cau_sium.Keyrings.{
  WorkspaceKeyring, NewKey, Keyrings, has_version, current_keyring, insert_keyring, ciphertext,
  fernet_encrypt, fernet_decrypt, keyring_row, add_keyring, ensure_workspace_keyring,
  encrypt_secret_for_org, decrypt_secret_for_org, decrypt_workspace_secret,
  rotate_expired_workspace_keyrings, master,
}
use cau_sium.Keyrings.Keeping.{
  KeepsKey, Kept, Kept-refl, Kept-trans, fernet_encrypt-same, fernet_decrypt-same, ensure-Keeps,
  encrypt-Keeps, under_key, under_keyring, rotate_expired-Keeps,
}
use cau_sium.Keyrings.Versions.{
  UniqueVersions, parse_ciphertext-ciphertext, is_prefix-ciphertext, current-FoundIn,
  insert_keyring-FoundIn,
}

module _ (F : Fernet) (encryption_key : Text) where
  abbrev global : Text
  global = master F encryption_key

  fernet_decrypt-ok :
      (key token value : Text) (s : Keyrings)
      → (fernet_decrypt F encryption_key key token s).0 ≡ ok value
      → (F.accepts key ≡ true) × (F.decrypt key token ≡ some value)
  unfolding fernet_decrypt
  fernet_decrypt-ok key token value s h = elim (Bool-cases (F.accepts key)) [
    | inl fine ↦ elim (Option-cases (F.decrypt key token)) [
      | inl broken ↦ absurd (cc (rw (fine, broken) at h))
      | inr (plain, opened) ↦
          let same : plain ≡ value = cc (rw (fine, opened) at h) in (fine, opened ∙ ap some same)
    ]
    | inr bad ↦ absurd (cc (rw bad at h))
  ]

  fernet_encrypt-ok :
      (key value token : Text) (nonce : ℕ) (s : Keyrings)
      → (fernet_encrypt F encryption_key key nonce value s).0 ≡ ok token
      → (F.accepts key ≡ true) × (token ≡ F.encrypt key nonce value)
  unfolding fernet_encrypt
  fernet_encrypt-ok key value token nonce s h = elim (Bool-cases (F.accepts key)) [
    | inl fine ↦ (fine, cc (rw fine at h))
    | inr bad ↦ absurd (cc (rw bad at h))
  ]

  add_keyring-FoundIn :
      (now : ℕ) (new : NewKey) (org_id version : ℕ) (s : Keyrings) {k : WorkspaceKeyring}
      → (add_keyring F encryption_key now new org_id version s).0 ≡ ok k
      → find_row
          (has_version org_id k.key_version)
          (add_keyring F encryption_key now new org_id version s).1
        ≡ some k
  unfolding add_keyring
  add_keyring-FoundIn now new org_id version s {k} h =
      let row = keyring_row F encryption_key now new org_id version in
      let sealed =
        then_ok (λ material. insert_keyring (row material) >> pure (row material))
          (fernet_encrypt F encryption_key global new.nonce new.key s) {b = k} h in
      let inserted =
        then_ok (λ _. pure (row sealed.0))
          (insert_keyring (row sealed.0)
            (fernet_encrypt F encryption_key global new.nonce new.key s).1)
          {b = k} sealed.2 in
      let same : row sealed.0 ≡ k = cc inserted.2 in
      rw (sealed.3, inserted.3, ← same)
        (insert_keyring-FoundIn (row sealed.0)
          (fernet_encrypt F encryption_key global new.nonce new.key s).1 {u = tt} inserted.1)

  ensure-FoundIn :
      (now : ℕ) (new : NewKey) (org_id : ℕ) (s : Keyrings) {k : WorkspaceKeyring}
      → UniqueVersions s
      → (ensure_workspace_keyring F encryption_key now new org_id s).0 ≡ ok k
      → find_row
          (has_version org_id k.key_version)
          (ensure_workspace_keyring F encryption_key now new org_id s).1
        ≡ some k
  unfolding ensure_workspace_keyring
  ensure-FoundIn now new org_id s {k} unique h = elim (Option-cases (current_keyring org_id s)) [
    | inl missing ↦
        rw (missing, ensure_workspace_keyring)
          (add_keyring-FoundIn now new org_id 1 s {k = k}
            (rw (missing, ensure_workspace_keyring) at h))
    | inr (l, found) ↦
        let same : l ≡ k = cc (rw (found, ensure_workspace_keyring) at h) in
        rw (found, ensure_workspace_keyring)
          (current-FoundIn org_id s {k = k} unique (found ∙ ap some same))
  ]

  -- What a text is the ciphertext of, and the keyring that opens it in the table `s`.
  record Sealed (org_id : ℕ) (value c : Text) (s : Keyrings) : Type 0 where
    keyring : WorkspaceKeyring
    key : Text
    nonce : ℕ
    found : find_row (has_version org_id keyring.key_version) s ≡ some keyring
    opens : F.decrypt global keyring.key_material_encrypted ≡ some key
    good_global : F.accepts global ≡ true
    good_key : F.accepts key ≡ true
    written : c ≡ ciphertext keyring.key_version (F.encrypt key nonce value)

  encrypt-Sealed :
      (now : ℕ) (new : NewKey) (nonce org_id : ℕ) (value : Text) (s : Keyrings) {c : Text}
      → UniqueVersions s
      → (encrypt_secret_for_org F encryption_key now new nonce org_id value s).0 ≡ ok c
      → Sealed org_id value c
          (encrypt_secret_for_org F encryption_key now new nonce org_id value s).1
  unfolding encrypt_secret_for_org
  encrypt-Sealed now new nonce org_id value s {c} unique h =
      let ensured = ensure_workspace_keyring F encryption_key now new org_id s in
      let with_keyring = then_ok (under_keyring F encryption_key nonce value) ensured {b = c} h in
      let k = with_keyring.0 in
      let opened =
        then_ok (under_key F encryption_key nonce value k)
          (fernet_decrypt F encryption_key global k.key_material_encrypted ensured.1) {b = c}
          with_keyring.2 in
      let key = opened.0 in
      let used = fernet_decrypt-ok global k.key_material_encrypted key ensured.1 opened.1 in
      let after_open =
        (fernet_decrypt F encryption_key global k.key_material_encrypted ensured.1).1 in
      let wrote =
        then_ok (λ token. pure (ciphertext k.key_version token))
          (fernet_encrypt F encryption_key key nonce value after_open) {b = c} opened.2 in
      let sealed = fernet_encrypt-ok key value wrote.0 nonce after_open wrote.1 in
      let kept =
        with_keyring.3
        ∙ opened.3
        ∙ wrote.3
        ∙ fernet_encrypt-same F encryption_key key nonce value after_open
        ∙ fernet_decrypt-same F encryption_key global k.key_material_encrypted ensured.1 in
      let same : ciphertext k.key_version wrote.0 ≡ c = cc wrote.2 in
      record {
        keyring = k;
        key = key;
        nonce = nonce;
        found =
            subst (λ t. find_row (has_version org_id k.key_version) t ≡ some k) (sym kept)
              (ensure-FoundIn now new org_id s {k = k} unique with_keyring.1);
        opens = used.1;
        good_global = used.0;
        good_key = sealed.0;
        written = sym same ∙ ap (ciphertext k.key_version) sealed.1;
      }

  Sealed-Kept :
      (org_id : ℕ) (value c : Text) (s t : Keyrings)
      → Kept s t
      → Sealed org_id value c s
      → Sealed org_id value c t
  Sealed-Kept org_id value c s t later h =
      let l =
        find_row-Grows KeepsKey (has_version org_id h.keyring.key_version)
          (λ k l e. rw (e.same_org, e.same_version) refl) s t {x = h.keyring} later h.found in
      record {
        keyring = l.0;
        key = h.key;
        nonce = h.nonce;
        found = rw l.2.same_version l.1;
        opens = rw l.2.same_material h.opens;
        good_global = h.good_global;
        good_key = h.good_key;
        written = rw l.2.same_version h.written;
      }

  decrypt-Sealed :
      (law : IsFernet F) (org_id : ℕ) (value c : Text) (s : Keyrings)
      → Sealed org_id value c s
      → (decrypt_secret_for_org F encryption_key org_id c s).0 ≡ ok value
  unfolding decrypt_secret_for_org decrypt_workspace_secret fernet_decrypt
  decrypt-Sealed law org_id value c s h =
      rw
        (
          h.written,
          is_prefix-ciphertext h.keyring.key_version (F.encrypt h.key h.nonce value),
          parse_ciphertext-ciphertext h.keyring.key_version (F.encrypt h.key h.nonce value),
          h.found,
          h.good_global,
          h.opens,
          h.good_key,
          law.decrypt-encrypt h.key h.nonce value h.good_key,
        )
        refl

-- What changes the table, each in a transaction of its own.
pub data KeyRequest : Type 0 where
  ensuring : (now : ℕ) → (new : NewKey) → (org_id : ℕ) → KeyRequest
  encrypting : (now : ℕ) → (new : NewKey) → (nonce : ℕ) → (org_id : ℕ) → (value : Text) → KeyRequest
  rotating : (now : ℕ) → (supply : ℕ → NewKey) → (max_age_days : ℕ) → (batch_size : ℕ) → KeyRequest

module _ (F : Fernet) (encryption_key : Text) where
  abbrev pub key_request : KeyRequest → Keyrings → Keyrings
  key_request (ensuring now new org_id) s =
      (in_transaction (ensure_workspace_keyring F encryption_key now new org_id) s).1
  key_request (encrypting now new nonce org_id value) s =
      (in_transaction (encrypt_secret_for_org F encryption_key now new nonce org_id value) s).1
  key_request (rotating now supply max_age_days batch_size) s =
      (in_transaction
        (rotate_expired_workspace_keyrings F encryption_key now supply max_age_days batch_size) s).1

  abbrev pub key_requests : List KeyRequest → Keyrings → Keyrings
  key_requests [] s = s
  key_requests (r ∷ rs) s = key_requests rs (key_request r s)

  key_request-Kept : (r : KeyRequest) (s : Keyrings) → Kept s (key_request r s)
  key_request-Kept (ensuring now new org_id) s =
      in_transaction_keeps (Kept s) (ensure_workspace_keyring F encryption_key now new org_id) s
        (Kept-refl s) (ensure-Keeps F encryption_key now new org_id s)
  key_request-Kept (encrypting now new nonce org_id value) s =
      in_transaction_keeps (Kept s)
        (encrypt_secret_for_org F encryption_key now new nonce org_id value) s (Kept-refl s)
        (encrypt-Keeps F encryption_key now new nonce org_id value s)
  key_request-Kept (rotating now supply max_age_days batch_size) s =
      in_transaction_keeps (Kept s)
        (rotate_expired_workspace_keyrings F encryption_key now supply max_age_days batch_size) s
        (Kept-refl s) (rotate_expired-Keeps F encryption_key now supply max_age_days batch_size s)

  key_requests-Kept : (rs : List KeyRequest) (s : Keyrings) → Kept s (key_requests rs s)
  key_requests-Kept [] s = Kept-refl s
  key_requests-Kept (r ∷ rs) s =
      Kept-trans s (key_request r s) (key_requests rs (key_request r s)) (key_request-Kept r s)
        (key_requests-Kept rs (key_request r s))

  -- What `encrypt_secret_for_org` returns for a workspace, in a table where no two rows have the
  -- same workspace and version, is decrypted by `decrypt_secret_for_org` to the value that was
  -- encrypted, after any requests that create keyrings, encrypt secrets of any workspace, or rotate
  -- keyrings, whether they succeed or are rolled back. Of Fernet it is assumed that decryption
  -- under an accepted key undoes encryption under it.
  pub decrypt_after_requests :
      (law : IsFernet F) (now : ℕ) (new : NewKey) (nonce org_id : ℕ) (value c : Text) (s : Keyrings)
      → UniqueVersions s
      → (encrypt_secret_for_org F encryption_key now new nonce org_id value s).0 ≡ ok c
      → (rs : List KeyRequest)
      → (decrypt_secret_for_org F encryption_key org_id c (
          key_requests rs
            (encrypt_secret_for_org F encryption_key now new nonce org_id value s).1)).0
        ≡ ok value
  decrypt_after_requests law now new nonce org_id value c s unique h rs =
      let after = (encrypt_secret_for_org F encryption_key now new nonce org_id value s).1 in
      decrypt-Sealed F encryption_key law org_id value c (key_requests rs after) (
        Sealed-Kept F encryption_key org_id value c after (key_requests rs after)
          (key_requests-Kept rs after)
          (encrypt-Sealed F encryption_key now new nonce org_id value s {c = c} unique h))
