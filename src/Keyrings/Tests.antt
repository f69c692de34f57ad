-- ===== src/Keyrings/Tests.antt =====
-- Runs of backend/app/core/security.py on concrete keyrings, with a cipher that writes its key, a
-- separator and the text.
use cau_sium.Prelude.{
  ℕ, ◌+◌, ◌≡◌, refl, true, false, Option, none, some, List, [], ◌∷◌, Text, codes, ok, err, arith,
  All, if◌then◌else◌, ◌==◌, is_prefix, strip, value_error,
}
use cau_sium.Prelude.Decimals.{decimal, int_of}
use cau_sium.Keyrings.Fernets.{Fernet, IsFernet, global_key}
use cau_sium.Keyrings.{
  WorkspaceKeyring, NewKey, Keyrings, encrypt_secret_for_org, decrypt_secret_for_org,
  rotate_expired_workspace_keyrings, is_overdue, ciphertext,
}
use cau_sium.Keyrings.Decrypting.{
  KeyRequest, ensuring, encrypting, rotating, key_requests, decrypt_after_requests,
}
use cau_sium.Keyrings.Worker.{rotation_tick, rotation_tick_leaves_none_due}

-- Every key is accepted; a token begins with the first character of its key.
abbrev letter : Text → ℕ
letter [] = 0
letter (c ∷ s) = c

abbrev unlock : Text → Text → Option Text
unlock key [] = none
unlock key (c ∷ token) = if c == letter key then some token else none

abbrev toy : Fernet
toy = record {
  accepts = λ key. true;
  encrypt = λ key nonce value. letter key ∷ value;
  decrypt = unlock;
  urlsafe_b64decode = λ key. none;
  urlsafe_b64encode = λ text. text;
  sha256 = λ text. text;
}

toy-IsFernet : IsFernet toy
toy-IsFernet = record { decrypt-encrypt = λ key nonce value fine. ground arith }

abbrev global_setting : Text
global_setting = codes "g"

abbrev first_key : WorkspaceKeyring
first_key = record {
  id = 1;
  org_id = 1;
  key_version = 1;
  key_material_encrypted = codes "ga";
  is_active = true;
  rotated_at = some 5;
}

abbrev other_key : WorkspaceKeyring
other_key = record first_key {
  id = 2;
  org_id = 2;
  key_material_encrypted = codes "gb";
  rotated_at = none;
}

abbrev two_keys : Keyrings
two_keys = first_key ∷ other_key ∷ []

abbrev new_key : ℕ → NewKey
new_key n = record { id = 10 + n; key = codes "k"; nonce = n }

abbrev next_day : ℕ
next_day = 86400000010

abbrev secret : Text
secret = codes "token: 1"

abbrev later_requests : List KeyRequest
later_requests =
    rotating next_day new_key 1 10
    ∷ encrypting next_day (new_key 5) 0 1 secret
    ∷ ensuring next_day (new_key 6) 3
    ∷ rotating next_day new_key 0 10
    ∷ []

-- The ciphertext carries the version of the key.
encrypts_under_first_key :
    (encrypt_secret_for_org toy global_setting 10 (new_key 0) 7 1 secret two_keys).0
    ≡ ok (codes "wk1:1:atoken: 1")
unfolding encrypt_secret_for_org global_key ciphertext decimal
encrypts_under_first_key = refl

-- Both keyrings are old; the one of unknown age comes first.
rotates_both :
    (rotate_expired_workspace_keyrings toy global_setting next_day new_key 1 10 two_keys) ≡ (
      ok (2, 2),
      record first_key { is_active = false }
          ∷ record other_key { is_active = false }
          ∷ record {
            id = 10;
            org_id = 2;
            key_version = 2;
            key_material_encrypted = codes "gk";
            is_active = true;
            rotated_at = some next_day;
          }
          ∷ record {
            id = 11;
            org_id = 1;
            key_version = 2;
            key_material_encrypted = codes "gk";
            is_active = true;
            rotated_at = some next_day;
          }
          ∷ [],
    )
unfolding rotate_expired_workspace_keyrings global_key
rotates_both = refl

-- A text of the old format is opened under the global key; a version in the wrong format is refused.
decrypts_legacy :
    (decrypt_secret_for_org toy global_setting 1 (codes "gold") two_keys).0 ≡ ok (codes "old")
unfolding decrypt_secret_for_org is_prefix global_key
decrypts_legacy = refl

refuses_malformed :
    (decrypt_secret_for_org toy global_setting 1 (codes "wk1:one:atoken") two_keys).0
    ≡ err (value_error "Invalid workspace ciphertext format")
unfolding decrypt_secret_for_org is_prefix int_of strip
refuses_malformed = refl

refuses_unknown_version :
    (decrypt_secret_for_org toy global_setting 1 (codes "wk1:2:atoken") two_keys).0
    ≡ err (value_error "Workspace keyring not found")
unfolding decrypt_secret_for_org is_prefix int_of strip
refuses_unknown_version = refl

decrypt_after_requests_example :
    (decrypt_secret_for_org toy global_setting 1 (codes "wk1:1:atoken: 1") (
      key_requests toy global_setting later_requests
        (encrypt_secret_for_org toy global_setting 10 (new_key 0) 7 1 secret two_keys).1)).0
    ≡ ok secret
decrypt_after_requests_example =
    decrypt_after_requests toy global_setting toy-IsFernet 10 (new_key 0) 7 1 secret
      (codes "wk1:1:atoken: 1") two_keys (refl, (refl, tt)) encrypts_under_first_key later_requests

rotation_tick_leaves_none_due_example :
    All
      (λ k. is_overdue next_day 1 k ≡ false)
      (rotation_tick toy global_setting next_day new_key 0 10 two_keys).1
rotation_tick_leaves_none_due_example =
    rotation_tick_leaves_none_due toy global_setting next_day new_key 0 10 two_keys refl
      (omega arith)
