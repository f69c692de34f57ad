-- ===== src/Keyrings/Ordering.antt =====
-- The greatest version of a workspace, and the order of the keyrings that are due
-- (`rotate_expired_workspace_keyrings` of backend/app/core/security.py).
use cau_sium.Prelude.{
  ℕ, suc, ◌<◌, ◌≡◌, ◌∙◌, ap, refl, inl, inr, false, Bool, ◌||◌, List, [], ◌∷◌, arith, length,
  any_row, update_rows, Bool-cases, ◌==◌, max,
}
use cau_sium.Keyrings.{
  WorkspaceKeyring, Keyrings, has_version, insert_oldest, oldest_first, max_version, deactivated,
}

-- No row of the workspace has a version above the greatest one.
pub above_max_version :
    (org_id version : ℕ) (s : Keyrings)
    → max_version org_id s < version
    → any_row (has_version org_id version) s ≡ false
unfolding max_version
above_max_version org_id version [] h = refl
above_max_version org_id version (k ∷ s) h = elim (Bool-cases (k.org_id == org_id)) [
  | inl same ↦
      let bound : max k.key_version (max_version org_id s) < version = rw same at h in
      let other : (k.key_version == version) ≡ false = ground (arith, bound) in
      rw (same, other) (above_max_version org_id version s (omega (arith, bound)))
  | inr other ↦ rw other (above_max_version org_id version s (rw other at h))
]

pub any_row-deactivated :
    (org_id version id : ℕ) (s : Keyrings)
    → any_row (has_version org_id version) (update_rows (λ k. k.id == id) deactivated s)
      ≡ any_row (has_version org_id version) s
any_row-deactivated org_id version id [] = refl
any_row-deactivated org_id version id (k ∷ s) = elim (Bool-cases (k.id == id)) [
  | inl hit ↦ rw (hit, any_row-deactivated org_id version id s) refl
  | inr miss ↦ rw (miss, any_row-deactivated org_id version id s) refl
]

any_row-insert_oldest :
    (p : WorkspaceKeyring → Bool) (k : WorkspaceKeyring) (s : List WorkspaceKeyring)
    → any_row p (insert_oldest k s) ≡ (p k || any_row p s)
unfolding insert_oldest
any_row-insert_oldest p k [] = refl
any_row-insert_oldest p k (l ∷ s) = ground (arith, any_row-insert_oldest p k s)

pub any_row-oldest_first :
    (p : WorkspaceKeyring → Bool) (s : List WorkspaceKeyring)
    → any_row p (oldest_first s) ≡ any_row p s
unfolding oldest_first
any_row-oldest_first p [] = refl
any_row-oldest_first p (k ∷ s) =
    any_row-insert_oldest p k (oldest_first s) ∙ ap (λ b. p k || b) (any_row-oldest_first p s)

length-insert_oldest :
    (k : WorkspaceKeyring) (s : List WorkspaceKeyring) → length (insert_oldest k s) ≡ suc (length s)
unfolding insert_oldest
length-insert_oldest k [] = refl
length-insert_oldest k (l ∷ s) = ground (arith, length-insert_oldest k s)

pub length-oldest_first : (s : List WorkspaceKeyring) → length (oldest_first s) ≡ length s
unfolding oldest_first
length-oldest_first [] = refl
length-oldest_first (k ∷ s) =
    length-insert_oldest k (oldest_first s) ∙ ap suc (length-oldest_first s)
