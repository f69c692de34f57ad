-- ===== src/Keyrings.antt =====
-- Workspace keyrings and the secrets that are encrypted under them: backend/app/core/security.py.
-- A text stands for its own UTF-8 encoding. Instants are in microseconds. Versions are those that
-- the column can hold.
mod Models
pub mod Fernets
pub mod Keeping
pub mod Versions
pub mod Decrypting
pub mod Ordering
pub mod Rotation
pub mod Worker
mod Tests
unfoldable pub use Models.*
use cau_sium.Prelude.{
  ℕ, suc, zero, ◌+◌, ◌*◌, ◌≡◌, Bool, true, false, ◌&&◌, ◌||◌, not, Option, none, some, List, [],
  ◌∷◌, ◌++◌, Text, codes, length, take, select, find_row, update_rows, any_row, ◌==◌, ltb, leb, max,
  if◌then◌else◌, Result, ok, err, value_error, raised, is_prefix, drop,
}
use cau_sium.Prelude.Actions.{Action, pure, raise, gets, modify, raise_if, or_raise, ◌>>=◌, ◌>>◌}
use cau_sium.Prelude.Decimals.{decimal, int_of, Signed, positive, negative}
use cau_sium.Keyrings.Fernets.{Fernet, global_key}

-- A version that `int` has read, as a number that a row can have.
abbrev version_of : Signed → Option ℕ
version_of (positive n) = some n
version_of (negative zero) = some zero
version_of (negative (suc n)) = none

abbrev pub keyring_of : ℕ → Option ℕ → Keyrings → Option WorkspaceKeyring
keyring_of org_id none s = none
keyring_of org_id (some version) s = find_row (has_version org_id version) s

abbrev pub with_token : Text → Option Signed → Option (Signed × Text)
with_token token none = none
with_token token (some version) = some (version, token)

abbrev pub read_version : Option (Text × Text) → Option (Signed × Text)
read_version none = none
read_version (some (version_str, token)) = with_token token (int_of version_str)

-- `_, version_str, token = encrypted.split(":", 2)`, of a text that begins with the prefix, and
-- `int(version_str)`.
unfoldable pub parse_ciphertext : Text → Option (Signed × Text)
unfolding cut_colon
parse_ciphertext encrypted = read_version (cut_colon (drop 4 encrypted))

-- The global key is that of `encryption_key` in the settings.
module _ (F : Fernet) (encryption_key : Text) where
  abbrev pub master : Text
  master = global_key F encryption_key

  -- `Fernet(key).encrypt(value)`
  unfoldable pub fernet_encrypt : Text → ℕ → Text → Action Keyrings Text
  fernet_encrypt key nonce value = do
    raise_if (not (F.accepts key)) (value_error "Fernet key must be 32 bytes")
    pure (F.encrypt key nonce value)

  -- `Fernet(key).decrypt(token)`
  unfoldable pub fernet_decrypt : Text → Text → Action Keyrings Text
  fernet_decrypt key token = do
    raise_if (not (F.accepts key)) (value_error "Fernet key must be 32 bytes")
    or_raise (F.decrypt key token) (raised "InvalidToken")

  abbrev pub keyring_row : ℕ → NewKey → ℕ → ℕ → Text → WorkspaceKeyring
  keyring_row now new org_id version material = record {
    id = new.id;
    org_id = org_id;
    key_version = version;
    key_material_encrypted = material;
    is_active = true;
    rotated_at = some now;
  }

  -- A key of the workspace is created, encrypted under the global key, and inserted.
  unfoldable pub add_keyring : ℕ → NewKey → ℕ → ℕ → Action Keyrings WorkspaceKeyring
  unfolding insert_keyring fernet_encrypt
  add_keyring now new org_id version = do
    material ← fernet_encrypt master new.nonce new.key
    insert_keyring (keyring_row now new org_id version material)
    pure (keyring_row now new org_id version material)

  unfoldable pub ensure_workspace_keyring : ℕ → NewKey → ℕ → Action Keyrings WorkspaceKeyring
  unfolding add_keyring current_keyring latest_version
  ensure_workspace_keyring now new org_id s = elim (current_keyring org_id s) [
    | some current ↦ pure current s
    | none ↦ add_keyring now new org_id 1 s
  ]

  unfoldable pub encrypt_secret_for_org : ℕ → NewKey → ℕ → ℕ → Text → Action Keyrings Text
  unfolding ensure_workspace_keyring fernet_decrypt fernet_encrypt
  encrypt_secret_for_org now new nonce org_id value = do
    keyring ← ensure_workspace_keyring now new org_id
    workspace_key ← fernet_decrypt master keyring.key_material_encrypted
    token ← fernet_encrypt workspace_key nonce value
    pure (ciphertext keyring.key_version token)

  -- `except Exception as exc: raise ValueError(…)`
  abbrev pub or_failed : Result Text × Keyrings → Result Text × Keyrings
  or_failed (ok value, s) = (ok value, s)
  or_failed (err e, s) = (err (value_error "Failed to decrypt workspace-scoped secret"), s)

  unfoldable pub decrypt_workspace_secret : ℕ → Option (Signed × Text) → Action Keyrings Text
  unfolding fernet_decrypt
  decrypt_workspace_secret org_id none = raise (value_error "Invalid workspace ciphertext format")
  decrypt_workspace_secret org_id (some (version, token)) = do
    keyring ←
        or_raise (← gets (keyring_of org_id (version_of version)))
          (value_error "Workspace keyring not found")
    workspace_key ← fernet_decrypt master keyring.key_material_encrypted
    λ s. or_failed (fernet_decrypt workspace_key token s)

  unfoldable pub decrypt_secret_for_org : ℕ → Text → Action Keyrings Text
  unfolding decrypt_workspace_secret parse_ciphertext fernet_decrypt
  decrypt_secret_for_org org_id encrypted =
      if is_prefix prefix encrypted
      then decrypt_workspace_secret org_id (parse_ciphertext encrypted)
      else fernet_decrypt master encrypted

  unfoldable pub rotate_one : ℕ → NewKey → WorkspaceKeyring → Action Keyrings WorkspaceKeyring
  unfolding add_keyring max_version
  rotate_one now new current = do
    version ← gets (max_version current.org_id)
    modify (update_rows (λ k. k.id == current.id) deactivated)
    add_keyring now new current.org_id (suc version)

  -- `supply n` is what the n-th key of the run is made of.
  unfoldable pub rotate_all : ℕ → (ℕ → NewKey) → ℕ → List WorkspaceKeyring → Action Keyrings ℕ
  unfolding rotate_one
  rotate_all now supply n [] = pure n
  rotate_all now supply n (current ∷ due) = do
    created ← rotate_one now (supply n) current
    rotate_all now supply (suc n) due

  unfoldable pub due_keyrings : ℕ → ℕ → ℕ → Keyrings → List WorkspaceKeyring
  unfolding oldest_first
  due_keyrings now max_age_days batch_size s =
      take batch_size (oldest_first (select (is_overdue now max_age_days) s))

  -- The numbers that are checked and rotated. A negative age or size is refused as 0 is.
  unfoldable pub rotate_expired_workspace_keyrings :
      ℕ → (ℕ → NewKey) → ℕ → ℕ → Action Keyrings (ℕ × ℕ)
  unfolding rotate_all due_keyrings
  rotate_expired_workspace_keyrings now supply max_age_days batch_size = do
    raise_if (max_age_days == 0) (value_error "max_age_days must be greater than zero")
    raise_if (batch_size == 0) (value_error "batch_size must be greater than zero")
    due ← gets (due_keyrings now max_age_days batch_size)
    rotated ← rotate_all now supply 0 due
    pure (length due, rotated)
