-- ===== src/Experiments/Approvals.antt =====
-- Approvals: who may approve, and how `approval_count` grows.
use cau_sium.Prelude.{
  ℕ, suc, String, ◌≡◌, ◌≢◌, refl, Bool, true, false, Option, some, List, [], ◌∷◌, ◌++◌, arith,
  select, select-append, any_row, ok, Option-cases, Bool-cases, inl, inr, ◌==◌, ==_refl, opt_eq,
}
use cau_sium.Audit.{Stamp}
use cau_sium.Experiments.{
  Store, Experiment, ExperimentApproval, get, is_approval_of, count_approvers, approval_count,
  approved_by, create_approval,
}

abbrev by_user : ℕ → ExperimentApproval → Bool
by_user user a = a.approver_user_id == user

any_row-append :
    (p : ExperimentApproval → Bool) (xs : List ExperimentApproval) (a : ExperimentApproval)
    → p a ≡ false
    → any_row p (xs ++ a ∷ []) ≡ any_row p xs
any_row-append p [] a h = rw h
any_row-append p (x ∷ xs) a h = ground (arith, any_row-append p xs a h)

-- Nobody among the approvers of the experiment, if nobody in the table.
none_selected :
    (org_id experiment_id user : ℕ) (xs : List ExperimentApproval)
    → any_row (approved_by experiment_id user) xs ≡ false
    → any_row (by_user user) (select (is_approval_of org_id experiment_id) xs) ≡ false
none_selected org_id experiment_id user [] h = refl
none_selected org_id experiment_id user (x ∷ xs) h =
    ground (arith, none_selected org_id experiment_id user xs)

-- An approval by somebody new counts once.
count_approvers-append :
    (xs : List ExperimentApproval) (a : ExperimentApproval)
    → any_row (by_user a.approver_user_id) xs ≡ false
    → count_approvers (xs ++ a ∷ []) ≡ suc (count_approvers xs)
unfolding count_approvers
count_approvers-append [] a h = refl
count_approvers-append (x ∷ xs) a h =
    ground (arith, any_row-append (by_user x.approver_user_id) xs a, count_approvers-append xs a)

count_selected :
    (org_id experiment_id : ℕ) (xs : List ExperimentApproval) (a : ExperimentApproval)
    → is_approval_of org_id experiment_id a ≡ true
    → any_row (approved_by experiment_id a.approver_user_id) xs ≡ false
    → count_approvers (select (is_approval_of org_id experiment_id) (xs ++ a ∷ []))
      ≡ suc (count_approvers (select (is_approval_of org_id experiment_id) xs))
count_selected org_id experiment_id xs a here new =
    rw (select-append (is_approval_of org_id experiment_id) xs (a ∷ []), here)
      (count_approvers-append (select (is_approval_of org_id experiment_id) xs) a
        (none_selected org_id experiment_id a.approver_user_id xs new))

module _ (str_uuid : ℕ → String) (stamp : Stamp) (org_id experiment_id user : ℕ)
    (note : Option String) (s : Store) where
  -- An approval that succeeds is by somebody other than the owner who had not approved before, and
  -- raises the number of approvers by exactly one.
  pub create_approval_counts :
      {made : ExperimentApproval}
      → (create_approval str_uuid stamp org_id experiment_id user note s).0 ≡ ok made
      → (exp : Experiment) × (get org_id experiment_id s ≡ some exp)
        × (exp.owner_id ≢ some user)
        × (any_row (approved_by experiment_id user) s.approvals ≡ false)
        × (approval_count org_id experiment_id
              (create_approval str_uuid stamp org_id experiment_id user note s).1
            ≡ suc (approval_count org_id experiment_id s))
  unfolding create_approval
  create_approval_counts h = elim (Option-cases (get org_id experiment_id s)) [
    | inl missing ↦ cc (rw missing at h)
    | inr (exp, found) ↦ elim (Bool-cases (opt_eq exp.owner_id (some user))) [
      | inl own ↦ cc (rw (found, own) at h)
      | inr other ↦ elim (Bool-cases (any_row (approved_by experiment_id user) s.approvals)) [
        | inl taken ↦ cc (rw (found, other, taken) at h)
        | inr new ↦ (
          exp,
          found,
          (λ e. cc (==_refl user, rw e at other)),
          new,
          rw (found, other, new)
              (unfold approval_count in
                count_selected org_id experiment_id s.approvals _
                  (rw (==_refl org_id, ==_refl experiment_id)) new),
        )
      ]
    ]
  ]
