-- ===== src/Keyrings/Rotation.antt =====
-- The rotation of workspace keyrings: `rotate_expired_workspace_keyrings` of
-- backend/app/core/security.py.
use cau_sium.Prelude.{
  ℕ, suc, ◌+◌, ◌<◌, ◌≤◌, ◌≡◌, ◌∙◌, ap, subst, refl, inl, inr, true, false, Bool, ◌||◌, List, [],
  ◌∷◌, ◌++◌, Text, All, All-append, All-map, arith, ok, length, take_all, select, any_row,
  update_rows, Bool-cases, not_true, ◌==◌, ==_refl,
}
use cau_sium.Prelude.Actions.{pure, and_then, then_pure, then_pure-state}
use cau_sium.Keyrings.Fernets.{Fernet}
use cau_sium.Keyrings.{
  WorkspaceKeyring, NewKey, Keyrings, has_version, insert_keyring, is_overdue, oldest_first,
  max_version, deactivated, fernet_encrypt, keyring_row, add_keyring, rotate_one, rotate_all,
  due_keyrings, rotate_expired_workspace_keyrings, master,
}
use cau_sium.Keyrings.Ordering.{
  above_max_version, any_row-deactivated, any_row-oldest_first, length-oldest_first,
}

later : (a : Bool) {b : Bool} → b ≡ true → (a || b) ≡ true
later true h = refl
later false h = h

module _ (F : Fernet) (encryption_key : Text) where
  abbrev global : Text
  global = master F encryption_key

  -- The row that takes the place of a rotated one.
  abbrev successor : ℕ → NewKey → WorkspaceKeyring → Keyrings → WorkspaceKeyring
  successor now new current s =
      keyring_row F encryption_key now new current.org_id (suc (max_version current.org_id s))
        (F.encrypt global new.nonce new.key)

  abbrev rotated : ℕ → NewKey → WorkspaceKeyring → Keyrings → Keyrings
  rotated now new current s =
      update_rows (λ k. k.id == current.id) deactivated s ++ successor now new current s ∷ []

  rotate_one-succeeds :
      (now : ℕ) (new : NewKey) (current : WorkspaceKeyring) (s : Keyrings)
      → F.accepts global ≡ true
      → rotate_one F encryption_key now new current s
        ≡ (ok (successor now new current s), rotated now new current s)
  unfolding rotate_one add_keyring fernet_encrypt insert_keyring
  rotate_one-succeeds now new current s good =
      let free : any_row (has_version current.org_id (suc (max_version current.org_id s)))
            (update_rows (λ k. k.id == current.id) deactivated s)
          ≡ false =
        any_row-deactivated current.org_id (suc (max_version current.org_id s)) current.id s
        ∙ above_max_version current.org_id (suc (max_version current.org_id s)) s (omega arith) in
      rw (good, free) refl

  -- Every overdue row is the row, by its id, of one that is still to be rotated.
  abbrev Covered : ℕ → ℕ → List WorkspaceKeyring → Keyrings → Type 0
  Covered now max_age_days due s =
      All (λ k. is_overdue now max_age_days k ≡ true → any_row (λ d. k.id == d.id) due ≡ true) s

  Covered-update :
      (now max_age_days : ℕ) (current : WorkspaceKeyring) (due : List WorkspaceKeyring)
      (s : Keyrings)
      → Covered now max_age_days (current ∷ due) s
      → Covered now max_age_days due (update_rows (λ k. k.id == current.id) deactivated s)
  Covered-update now max_age_days current due [] h = tt
  Covered-update now max_age_days current due (k ∷ s) h = elim (Bool-cases (k.id == current.id)) [
    | inl hit ↦ rw hit (λ over. absurd (cc over), Covered-update now max_age_days current due s h.1)
    | inr miss ↦
        rw miss (λ over. rw miss at h.0 over, Covered-update now max_age_days current due s h.1)
  ]

  Covered-rotated :
      (now max_age_days : ℕ) (new : NewKey) (current : WorkspaceKeyring)
      (due : List WorkspaceKeyring) (s : Keyrings)
      → 0 < max_age_days
      → Covered now max_age_days (current ∷ due) s
      → Covered now max_age_days due (rotated now new current s)
  Covered-rotated now max_age_days new current due s young h =
      let fresh : is_overdue now max_age_days (successor now new current s) ≡ false =
        ground (arith, young) in
      All-append _ (update_rows (λ k. k.id == current.id) deactivated s)
        (successor now new current s ∷ []) (Covered-update now max_age_days current due s h)
        (λ over. absurd (cc (over, fresh)), tt)

  -- `n` rotations are done, and those of `due` are to come.
  rotate_all-succeeds :
      (now : ℕ) (supply : ℕ → NewKey) (n : ℕ) (due : List WorkspaceKeyring) (s : Keyrings)
      → F.accepts global ≡ true
      → (rotate_all F encryption_key now supply n due s).0 ≡ ok (n + length due)
  unfolding rotate_all
  rotate_all-succeeds now supply n [] s good = ap ok (omega arith)
  rotate_all-succeeds now supply n (current ∷ due) s good =
      rw (rotate_one-succeeds now (supply n) current s good) (
        rotate_all-succeeds now supply (suc n) due (rotated now (supply n) current s) good
        ∙ ap ok (omega arith))

  rotate_All-Covered :
      (now max_age_days : ℕ) (supply : ℕ → NewKey) (n : ℕ) (due : List WorkspaceKeyring)
      (s : Keyrings)
      → F.accepts global ≡ true
      → 0 < max_age_days
      → Covered now max_age_days due s
      → Covered now max_age_days [] (rotate_all F encryption_key now supply n due s).1
  unfolding rotate_all
  rotate_All-Covered now max_age_days supply n [] s good young h = h
  rotate_All-Covered now max_age_days supply n (current ∷ due) s good young h =
      rw (rotate_one-succeeds now (supply n) current s good) (
        rotate_All-Covered now max_age_days supply (suc n) due (rotated now (supply n) current s)
          good young (Covered-rotated now max_age_days (supply n) current due s young h))

  Covered-later :
      (now max_age_days : ℕ) (d : WorkspaceKeyring) (due : List WorkspaceKeyring) (s : Keyrings)
      → Covered now max_age_days due s
      → Covered now max_age_days (d ∷ due) s
  Covered-later now max_age_days d due [] h = tt
  Covered-later now max_age_days d due (k ∷ s) h =
      (λ over. later (k.id == d.id) (h.0 over), Covered-later now max_age_days d due s h.1)

  All-Covered :
      (now max_age_days : ℕ) (s : Keyrings)
      → Covered now max_age_days (select (is_overdue now max_age_days) s) s
  All-Covered now max_age_days [] = tt
  All-Covered now max_age_days (k ∷ s) = elim (Bool-cases (is_overdue now max_age_days k)) [
    | inl due ↦
        let overdue = select (is_overdue now max_age_days) s in
        let first : k ∷ overdue ≡ select (is_overdue now max_age_days) (k ∷ s) = rw due refl in
        subst (λ selected. Covered now max_age_days selected (k ∷ s)) first
          (
            λ _. rw (==_refl k.id) refl,
            Covered-later now max_age_days k overdue s (All-Covered now max_age_days s),
          )
    | inr not_due ↦
        let overdue = select (is_overdue now max_age_days) s in
        let same : overdue ≡ select (is_overdue now max_age_days) (k ∷ s) = rw not_due refl in
        subst (λ selected. Covered now max_age_days selected (k ∷ s)) same
          (λ over. absurd (cc (over, not_due)), All-Covered now max_age_days s)
  ]

  all_due :
      (now max_age_days batch_size : ℕ) (s : Keyrings)
      → length (select (is_overdue now max_age_days) s) ≤ batch_size
      → due_keyrings F encryption_key now max_age_days batch_size s
        ≡ oldest_first (select (is_overdue now max_age_days) s)
  unfolding due_keyrings
  all_due now max_age_days batch_size s enough =
      let due = select (is_overdue now max_age_days) s in
      take_all batch_size (oldest_first due) (rw (length-oldest_first due) enough)

  due-Covered :
      (now max_age_days batch_size : ℕ) (s : Keyrings)
      → length (select (is_overdue now max_age_days) s) ≤ batch_size
      → Covered now max_age_days (due_keyrings F encryption_key now max_age_days batch_size s) s
  due-Covered now max_age_days batch_size s enough =
      rw (all_due now max_age_days batch_size s enough) (
        All-map _ _ s
          (λ k h over.
            any_row-oldest_first (λ d. k.id == d.id) (select (is_overdue now max_age_days) s)
            ∙ h over)
          (All-Covered now max_age_days s))

  -- Past the checks of the two numbers, the rotation is that of the keyrings that are due.
  rotate_expired-runs :
      (now : ℕ) (supply : ℕ → NewKey) (max_age_days batch_size : ℕ) (s : Keyrings)
      → 0 < max_age_days
      → 0 < batch_size
      → rotate_expired_workspace_keyrings F encryption_key now supply max_age_days batch_size s
        ≡ and_then
            (λ n. pure (length (due_keyrings F encryption_key now max_age_days batch_size s), n))
            (rotate_all F encryption_key now supply 0
              (due_keyrings F encryption_key now max_age_days batch_size s)
              s)
  unfolding rotate_expired_workspace_keyrings
  rotate_expired-runs now supply max_age_days batch_size s young room =
      let some_days : (max_age_days == 0) ≡ false = ground (arith, young) in
      let some_rows : (batch_size == 0) ≡ false = ground (arith, room) in
      rw (some_days, some_rows) refl

  -- A rotation under an accepted global key, with a positive age and a positive batch size, does
  -- not raise: it reports that the due keyrings of the batch were checked and that all of them were
  -- rotated.
  pub rotate_expired_succeeds :
      (now : ℕ) (supply : ℕ → NewKey) (max_age_days batch_size : ℕ) (s : Keyrings)
      → F.accepts global ≡ true
      → 0 < max_age_days
      → 0 < batch_size
      → (rotate_expired_workspace_keyrings F encryption_key now supply max_age_days batch_size s).0
        ≡ ok (
          length (due_keyrings F encryption_key now max_age_days batch_size s),
          length (due_keyrings F encryption_key now max_age_days batch_size s),
        )
  rotate_expired_succeeds now supply max_age_days batch_size s good young room =
      let due = due_keyrings F encryption_key now max_age_days batch_size s in
      rw (rotate_expired-runs now supply max_age_days batch_size s young room) (
        then_pure (λ n. (length due, n)) (rotate_all F encryption_key now supply 0 due s)
          (rotate_all-succeeds now supply 0 due s good ∙ ap ok (omega arith)))

  -- After a rotation under an accepted global key, with a positive age and a positive batch size
  -- that is enough for the keyrings that are due, no active keyring has that age: none was rotated
  -- at an instant unknown, or that many days or more before.
  pub rotate_expired_leaves_none_due :
      (now : ℕ) (supply : ℕ → NewKey) (max_age_days batch_size : ℕ) (s : Keyrings)
      → F.accepts global ≡ true
      → 0 < max_age_days
      → 0 < batch_size
      → length (select (is_overdue now max_age_days) s) ≤ batch_size
      → All
          (λ k. is_overdue now max_age_days k ≡ false)
          (rotate_expired_workspace_keyrings F encryption_key now supply max_age_days batch_size
            s).1
  rotate_expired_leaves_none_due now supply max_age_days batch_size s good young room enough =
      let due = due_keyrings F encryption_key now max_age_days batch_size s in
      let rotation = rotate_all F encryption_key now supply 0 due s in
      rw
        (
          rotate_expired-runs now supply max_age_days batch_size s young room,
          then_pure-state {B = ℕ × ℕ} (λ n. (length due, n)) rotation,
        )
        (All-map _ _ rotation.1 (λ k none_left. not_true _ (λ over. cc (none_left over)))
          (rotate_All-Covered now max_age_days supply 0 due s good young
            (due-Covered now max_age_days batch_size s enough)))
