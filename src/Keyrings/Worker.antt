-- ===== src/Keyrings/Worker.antt =====
-- The worker that rotates keyrings: backend/app/workers/keyring_rotation_worker.py. A negative
-- setting counts as 0 does.
use cau_sium.Prelude.{ℕ, ◌≤◌, ◌≡◌, subst⁻¹, true, false, Text, All, arith, ok, length, select, max}
use cau_sium.Prelude.Actions.{Action, in_transaction, in_transaction_ok}
use cau_sium.Keyrings.Fernets.{Fernet}
use cau_sium.Keyrings.{
  NewKey, Keyrings, is_overdue, due_keyrings, rotate_expired_workspace_keyrings, master,
}
use cau_sium.Keyrings.Rotation.{rotate_expired_succeeds, rotate_expired_leaves_none_due}

module _ (F : Fernet) (encryption_key : Text) where
  -- One round of the worker's loop, with its two settings.
  unfoldable pub rotation_tick : ℕ → (ℕ → NewKey) → ℕ → ℕ → Action Keyrings (ℕ × ℕ)
  rotation_tick now supply key_max_age_days rotation_batch_size = in_transaction (
      rotate_expired_workspace_keyrings F encryption_key now supply (max 1 key_max_age_days)
        (max 1 rotation_batch_size))

  -- Under a global key that Fernet accepts, a round of the rotation worker does not fail, whatever
  -- its settings are: it reports that the due keyrings of the batch were checked and that all of
  -- them were rotated.
  pub rotation_tick_succeeds :
      (now : ℕ) (supply : ℕ → NewKey) (key_max_age_days rotation_batch_size : ℕ) (s : Keyrings)
      → F.accepts (master F encryption_key) ≡ true
      → (rotation_tick now supply key_max_age_days rotation_batch_size s).0
        ≡ ok (
          length (
              due_keyrings F encryption_key now
                (max 1 key_max_age_days)
                (max 1 rotation_batch_size)
                s),
          length (
              due_keyrings F encryption_key now
                (max 1 key_max_age_days)
                (max 1 rotation_batch_size)
                s),
        )
  unfolding rotation_tick
  rotation_tick_succeeds now supply key_max_age_days rotation_batch_size s good =
      (in_transaction_ok _ s (
        rotate_expired_succeeds F encryption_key now supply (max 1 key_max_age_days)
          (max 1 rotation_batch_size) s good (omega arith) (omega arith))).0

  -- Under a global key that Fernet accepts, if the batch size is enough for the keyrings that are
  -- due, a round of the rotation worker commits a table in which no active keyring is due: none was
  -- rotated at an instant unknown, or the maximal age or longer before.
  pub rotation_tick_leaves_none_due :
      (now : ℕ) (supply : ℕ → NewKey) (key_max_age_days rotation_batch_size : ℕ) (s : Keyrings)
      → F.accepts (master F encryption_key) ≡ true
      → length (select (is_overdue now (max 1 key_max_age_days)) s) ≤ max 1 rotation_batch_size
      → All
          (λ k. is_overdue now (max 1 key_max_age_days) k ≡ false)
          (rotation_tick now supply key_max_age_days rotation_batch_size s).1
  unfolding rotation_tick
  rotation_tick_leaves_none_due now supply key_max_age_days rotation_batch_size s good enough =
      let age = max 1 key_max_age_days in
      let size = max 1 rotation_batch_size in
      let work = rotate_expired_workspace_keyrings F encryption_key now supply age size in
      let done = in_transaction_ok work s (
        rotate_expired_succeeds F encryption_key now supply age size s good (omega arith)
          (omega arith)) in
      subst⁻¹ (λ t. All (λ k. is_overdue now age k ≡ false) t) done.1
        (rotate_expired_leaves_none_due F encryption_key now supply age size s good (omega arith)
          (omega arith) enough)
