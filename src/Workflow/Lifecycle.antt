-- ===== src/Workflow/Lifecycle.antt =====
-- What stays true of initiatives and of their opportunities over sequences of requests.
use cau_sium.Prelude.{
  ℕ, String, ◌≡◌, ◌∙◌, refl, true, List, [], ◌∷◌, arith, All, All-append, All-find_row,
  All-replace_first, is_some,
}
use cau_sium.Prelude.Growth
use cau_sium.Audit.{Stamp}
use cau_sium.Workflow.{
  WorkflowStore, Initiative, InitiativeStatus, InitiativeUpdate, InitiativeCreate, Opportunity,
  done, is_initiative, updated, moved, new_initiative, valid_transitions, status_in,
}
use cau_sium.Workflow.Changes.{Changes, unchanged, added, edited, advanced, Op, run, run_keeps}

-- The initiative `j` is the initiative `i` some requests later.
pub record IsLater (i j : Initiative) : Type 0 where
  pub same_id : j.id ≡ i.id
  pub same_org : j.org_id ≡ i.org_id
  pub same_opportunity : j.opportunity_id ≡ i.opportunity_id
  pub same_creation : j.created_at ≡ i.created_at
  pub stays_done : i.status ≡ done → (j.status ≡ done) × (j.completed_at ≡ i.completed_at)

-- An initiative has a time of completion exactly when it is done.
pub record IsTimed (i : Initiative) : Type 0 where
  pub timed : i.status ≡ done → is_some i.completed_at ≡ true
  pub only_done : is_some i.completed_at ≡ true → i.status ≡ done

abbrev pub Advances : List Initiative → List Initiative → Type 0
Advances = Growth.Grows IsLater

IsLater-refl : (i : Initiative) → IsLater i i
IsLater-refl i = ground arith

IsLater-trans : (i j k : Initiative) → IsLater i j → IsLater j k → IsLater i k
IsLater-trans i j k h h' = record {
  same_id = h'.same_id ∙ h.same_id;
  same_org = h'.same_org ∙ h.same_org;
  same_opportunity = h'.same_opportunity ∙ h.same_opportunity;
  same_creation = h'.same_creation ∙ h.same_creation;
  stays_done = λ e.
      let first = h.stays_done e in
      let second = h'.stays_done first.0 in (second.0, second.1 ∙ first.1);
}

updated-IsLater :
    (req : InitiativeUpdate) (now : ℕ) (i : Initiative) → IsLater i (updated req now i)
unfolding updated
updated-IsLater req now i = record {
  same_id = refl;
  same_org = refl;
  same_opportunity = refl;
  same_creation = refl;
  stays_done = λ e. (e, refl);
}

updated-IsTimed :
    (req : InitiativeUpdate) (now : ℕ) (i : Initiative) → IsTimed i → IsTimed (updated req now i)
unfolding updated
updated-IsTimed req now i h = record { timed = h.timed; only_done = h.only_done }

module _ (now : ℕ) (i : Initiative) where
  moved-IsLater :
      (status : InitiativeStatus)
      → status_in status (valid_transitions i.status) ≡ true
      → IsLater i (moved status now i)
  unfolding moved valid_transitions
  moved-IsLater done allowed = ground arith
  moved-IsLater _ allowed = ground arith

  moved-IsTimed :
      (status : InitiativeStatus)
      → status_in status (valid_transitions i.status) ≡ true
      → IsTimed i
      → IsTimed (moved status now i)
  unfolding moved valid_transitions
  moved-IsTimed done allowed h = ground arith
  moved-IsTimed _ allowed h = ground arith

new_initiative-IsTimed :
    (stamp : Stamp) (org_id : ℕ) (req : InitiativeCreate)
    → IsTimed (new_initiative stamp org_id req)
unfolding new_initiative
new_initiative-IsTimed stamp org_id req = ground arith

Changes-Advances :
    {is : List Initiative} {os : List Opportunity} {js : List Initiative} {ps : List Opportunity}
    → Changes is os js ps
    → Advances is js
Changes-Advances {is} unchanged = Growth.Grows-refl IsLater IsLater-refl is
Changes-Advances {is} (added stamp org_id req) = Growth.Grows-append IsLater IsLater-refl is _
Changes-Advances {is} (edited org_id id i req now found) =
    Growth.Grows-update_first IsLater IsLater-refl (is_initiative org_id id)
      (λ _. updated req now i) is found (updated-IsLater req now i)
Changes-Advances {is} (advanced org_id id i status now found allowed) =
    Growth.Grows-update_first IsLater IsLater-refl (is_initiative org_id id)
      (λ _. moved status now i) is found (moved-IsLater now i status allowed)

Changes-IsTimed :
    {is : List Initiative} {os : List Opportunity} {js : List Initiative} {ps : List Opportunity}
    → Changes is os js ps
    → All IsTimed is
    → All IsTimed js
Changes-IsTimed unchanged h = h
Changes-IsTimed {is} (added stamp org_id req) h =
    All-append IsTimed is (new_initiative stamp org_id req ∷ []) h
      (new_initiative-IsTimed stamp org_id req, tt)
Changes-IsTimed {is} (edited org_id id i req now found) h =
    let p = is_initiative org_id id in
    All-replace_first IsTimed p (updated req now i) is
      (updated-IsTimed req now i (All-find_row IsTimed p is i h found)) h
Changes-IsTimed {is} (advanced org_id id i status now found allowed) h =
    let p = is_initiative org_id id in
    All-replace_first IsTimed p (moved status now i) is
      (moved-IsTimed now i status allowed (All-find_row IsTimed p is i h found)) h

module _ (str_uuid : ℕ → String) where
  -- Over any requests, every initiative stays where it is and keeps its workspace, its opportunity
  -- and its creation; once it is done, it stays done and keeps its time of completion.
  pub run-Advances :
      (os : List Op) (s : WorkflowStore) → Advances s.initiatives (run str_uuid os s).initiatives
  run-Advances os s =
      run_keeps str_uuid (λ js _. Advances s.initiatives js)
        (λ t u c h.
          Growth.Grows-trans IsLater IsLater-trans s.initiatives t.initiatives u.initiatives h
            (Changes-Advances c))
        os s (Growth.Grows-refl IsLater IsLater-refl s.initiatives)

  -- If exactly the initiatives that are done have a time of completion, so it is after any
  -- requests.
  pub run-IsTimed :
      (os : List Op) (s : WorkflowStore)
      → All IsTimed s.initiatives
      → All IsTimed (run str_uuid os s).initiatives
  run-IsTimed os s h =
      run_keeps str_uuid (λ js _. All IsTimed js) (λ t u c all. Changes-IsTimed c all) os s h
