-- ===== src/Workflow/Resolved.antt =====
-- The opportunities behind initiatives, as far as the requests about initiatives
-- (backend/app/domains/workflow/service.py) write them: those of initiatives that are done are
-- resolved, and a creation reaches opportunities of other workspaces.
use cau_sium.Prelude.{
  ℕ, String, ◌≡◌, ◌≢◌, ◌∙◌, ap, inl, inr, refl, true, false, Option, none, some, List, [], ◌∷◌,
  Bool-cases, find_row, find_row-update_first, find_row_sound, update_first, arith, All, All-append,
  All-find_row, All-map, All-replace_first, ◌==◌,
}
use cau_sium.Audit.{Stamp, AuditCall}
use cau_sium.Workflow.{
  WorkflowStore, Initiative, InitiativeStatus, InitiativeCreate, Opportunity, opp_open,
  opp_in_progress, opp_resolved, done, is_initiative, updated, moved, new_initiative,
  resolve_if_done, resolve_opportunity, start_opportunity, is_opportunity, linked,
  create_initiative, audit_by,
}
use cau_sium.Workflow.Changes.{Changes, unchanged, added, edited, advanced, Op, run, run_keeps}

-- What is found under an id is resolved.
abbrev pub FoundResolved : List Opportunity → ℕ → Type 0
FoundResolved os id =
    (o : Opportunity) → find_row (is_opportunity id) os ≡ some o → o.status ≡ opp_resolved

-- If the initiative is done, its opportunity is resolved.
abbrev pub IsResolved : List Opportunity → Initiative → Type 0
IsResolved os i = i.status ≡ done → (id : ℕ) → i.opportunity_id ≡ some id → FoundResolved os id

-- A change that keeps ids and resolutions keeps what is found resolved.
module _ (f : Opportunity → Opportunity) (same_id : (o : Opportunity) → (f o).id ≡ o.id)
    (keeps : (o : Opportunity) → o.status ≡ opp_resolved → (f o).status ≡ opp_resolved) where
  FoundResolved-update_first :
      (id id' : ℕ) (os : List Opportunity)
      → FoundResolved os id
      → FoundResolved (update_first (is_opportunity id') f os) id
  FoundResolved-update_first id id' [] h o found = absurd (cc found)
  FoundResolved-update_first id id' (p ∷ os) h o found = elim (Bool-cases (p.id == id')) [
    | inl hit ↦ elim (Bool-cases (p.id == id)) [
      | inl same ↦
          let still : ((f p).id == id) ≡ true = rw (same_id p) same in
          let first : some (f p) ≡ some o = rw (hit, still) at found in
          let first : f p ≡ o = cc in rw (← first) (keeps p (h p (rw same refl)))
      | inr other ↦
          let still : ((f p).id == id) ≡ false = rw (same_id p) other in
          h o (rw other (rw (hit, still) at found))
    ]
    | inr miss ↦ elim (Bool-cases (p.id == id)) [
      | inl same ↦
          let first : p ≡ o = cc (rw (miss, same) at found) in rw (← first) (h p (rw same refl))
      | inr other ↦
          FoundResolved-update_first id id' os (λ q e. h q (rw other e)) o
            (rw (miss, other) at found)
    ]
  ]

  FoundResolved-linked :
      (id : ℕ) (link : Option ℕ) (os : List Opportunity)
      → FoundResolved os id
      → FoundResolved (linked link f os) id
  FoundResolved-linked id none os h = h
  FoundResolved-linked id (some id') os h = FoundResolved-update_first id id' os h

start_keeps :
    (o : Opportunity)
    → ((start_opportunity o).id ≡ o.id)
      × (o.status ≡ opp_resolved → (start_opportunity o).status ≡ opp_resolved)
unfolding start_opportunity
start_keeps o = ground arith

FoundResolved-start :
    (id : ℕ) (link : Option ℕ) (os : List Opportunity)
    → FoundResolved os id
    → FoundResolved (linked link start_opportunity os) id
FoundResolved-start =
    FoundResolved-linked start_opportunity (λ o. (start_keeps o).0) (λ o. (start_keeps o).1)

FoundResolved-resolve :
    (id : ℕ) (link : Option ℕ) (os : List Opportunity)
    → FoundResolved os id
    → FoundResolved (linked link resolve_opportunity os) id
FoundResolved-resolve = FoundResolved-linked resolve_opportunity (λ o. refl) (λ o e. refl)

-- What is resolved under an id is found resolved.
FoundResolved-resolved :
    (id : ℕ) (os : List Opportunity)
    → FoundResolved (update_first (is_opportunity id) resolve_opportunity os) id
FoundResolved-resolved id [] o found = absurd (cc found)
FoundResolved-resolved id (p ∷ os) o found = elim (Bool-cases (p.id == id)) [
  | inl hit ↦
      let first : some (resolve_opportunity p) ≡ some o = rw (hit, hit) at found in
      let first : resolve_opportunity p ≡ o = cc in rw (← first) refl
  | inr miss ↦ FoundResolved-resolved id os o (rw (miss, miss) at found)
]

abbrev pub AllResolved : List Initiative → List Opportunity → Type 0
AllResolved is os = All (IsResolved os) is

IsResolved-start :
    (link : Option ℕ) (os : List Opportunity) (i : Initiative)
    → IsResolved os i
    → IsResolved (linked link start_opportunity os) i
IsResolved-start link os i h e id l = FoundResolved-start id link os (h e id l)

IsResolved-resolve_if_done :
    (status : InitiativeStatus) (j : Initiative) (os : List Opportunity) (i : Initiative)
    → IsResolved os i
    → IsResolved (resolve_if_done status j os) i
unfolding resolve_if_done
IsResolved-resolve_if_done done j os i h e id l =
    FoundResolved-resolve id j.opportunity_id os (h e id l)
IsResolved-resolve_if_done _ j os i h e id l = h e id l

IsResolved-moved :
    (status : InitiativeStatus) (now : ℕ) (os : List Opportunity) (i : Initiative)
    → IsResolved (resolve_if_done status i os) (moved status now i)
unfolding resolve_if_done moved
IsResolved-moved done now os i e id l = rw l (FoundResolved-resolved id os)
IsResolved-moved _ now os i e id l = absurd (cc e)

Changes-AllResolved :
    {is : List Initiative} {os : List Opportunity} {js : List Initiative} {ps : List Opportunity}
    → Changes is os js ps
    → AllResolved is os
    → AllResolved js ps
unfolding new_initiative updated
Changes-AllResolved unchanged h = h
Changes-AllResolved {is} {os} (added stamp org_id req) h =
    let ps = linked req.opportunity_id start_opportunity os in
    All-append (IsResolved ps) is (new_initiative stamp org_id req ∷ [])
      (All-map (IsResolved os) (IsResolved ps) is (IsResolved-start req.opportunity_id os) h)
      ((λ e. absurd (cc e)), tt)
Changes-AllResolved {is} {os} (edited org_id id i req now found) h =
    let p = is_initiative org_id id in
    All-replace_first (IsResolved os) p (updated req now i) is
      (All-find_row (IsResolved os) p is i h found) h
Changes-AllResolved {is} {os} (advanced org_id id i status now found allowed) h =
    let p = is_initiative org_id id in
    let ps = resolve_if_done status i os in
    All-replace_first (IsResolved ps) p (moved status now i) is (IsResolved-moved status now os i)
      (All-map (IsResolved os) (IsResolved ps) is (IsResolved-resolve_if_done status i os) h)

start_open :
    (o : Opportunity)
    → o.status ≡ opp_open
    → start_opportunity o ≡ record o { status = opp_in_progress }
unfolding start_opportunity
start_open o is_open = ground arith

opportunities-audit_by :
    (actor : Option ℕ) (call : Option ℕ → AuditCall) (s : WorkflowStore)
    → (audit_by actor call s).opportunities ≡ s.opportunities
opportunities-audit_by none call s = refl
opportunities-audit_by (some user) call s = refl

module _ (str_uuid : ℕ → String) where
  -- If the opportunity of every initiative that is done is resolved, where it is found, then so it
  -- is after any sequence of the four requests about initiatives: creations, updates, transitions
  -- and comments, failing ones included. Other requests are not among them, and `update_status` of
  -- the decision engine may give the opportunity another status.
  pub run-AllResolved :
      (os : List Op) (s : WorkflowStore)
      → AllResolved s.initiatives s.opportunities
      → AllResolved (run str_uuid os s).initiatives (run str_uuid os s).opportunities
  run-AllResolved os s h =
      run_keeps str_uuid AllResolved (λ t u c all. Changes-AllResolved c all) os s h

  -- Creating an initiative of one workspace for an open opportunity of another one moves that
  -- opportunity to IN_PROGRESS: `create_initiative` looks it up by its id alone.
  pub create_initiative_crosses_workspaces :
      (stamp : Stamp) (org_id id : ℕ) (req : InitiativeCreate) (actor : Option ℕ)
      (s : WorkflowStore) (o : Opportunity)
      → req.opportunity_id ≡ some id
      → find_row (is_opportunity id) s.opportunities ≡ some o
      → o.org_id ≢ org_id
      → o.status ≡ opp_open
      → let after = (create_initiative str_uuid stamp org_id req actor s).1 in
        find_row (is_opportunity id) after.opportunities
        ≡ some (record o { status = opp_in_progress })
  unfolding create_initiative
  create_initiative_crosses_workspaces stamp org_id id req actor s o link found other is_open =
      let same_id = (start_keeps o).0 in
      let hit : (o.id == id) ≡ true = find_row_sound (is_opportunity id) s.opportunities found in
      rw (opportunities-audit_by actor, link)
        (find_row-update_first (is_opportunity id) start_opportunity s.opportunities found
            (rw same_id hit)
          ∙ ap some (start_open o is_open))
