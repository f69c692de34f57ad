-- ===== src/Audit/Append.antt =====
-- Appending to a chain that verifies: `AuditChainService.append_event` and `verify_chain`.
use cau_sium.Prelude.{
  ℕ, ◌+◌, ◌<◌, ◌≤◌, ◌≡◌, ◌≢◌, ap, true, List, [], ◌∷◌, ◌++◌, length, length-append, All, All-append,
  All-map, All-select, arith, Bool-cases, inl, inr, ◌==◌, ==_iff,
}
use cau_sium.Audit.{
  AuditStore, AuditCall, Stamp, Runtime, genesis_hash, of_org, latest_for_org, chain_of, new_event,
  insert_row, append_event, verify_from, verify_chain, build_hash, normalize,
}
use cau_sium.Audit.Order.{IsLatest, chain_of-insert_row, chain_of-insert_row_ne}
use cau_sium.Audit.Links.{
  head_hash, latest_hash-last_row, Linked, Linked-append, verify_chain_iff, verify_from_complete,
}

module _ (R : Runtime) (db : AuditStore) (stamp : Stamp) (call : AuditCall) where
  pub new_event-Linked :
      Linked R (head_hash genesis_hash (chain_of call.org_id db)) (new_event R db stamp call ∷ [])
  unfolding new_event latest_for_org
  new_event-Linked =
      let link = latest_hash-last_row (chain_of call.org_id db) in
      (
        link,
        ap
            (λ prev.
              build_hash R prev call.org_id call.actor_user_id call.event_type call.entity_type
                call.entity_id (normalize R call.payload) stamp.now)
            link,
        tt,
      )

  pub chain_of-append_event :
      IsLatest call.org_id stamp.now db
      → chain_of call.org_id (append_event R db stamp call).0
        ≡ chain_of call.org_id db ++ new_event R db stamp call ∷ []
  unfolding append_event new_event
  chain_of-append_event h = chain_of-insert_row R (new_event R db stamp call) db h

  pub chain_of-append_event_ne :
      (org_id : ℕ)
      → call.org_id ≢ org_id
      → chain_of org_id (append_event R db stamp call).0 ≡ chain_of org_id db
  unfolding append_event new_event
  chain_of-append_event_ne org_id h =
      chain_of-insert_row_ne R (new_event R db stamp call) db org_id h

  pub append_event-Linked :
      IsLatest call.org_id stamp.now db
      → Linked R genesis_hash (chain_of call.org_id db)
      → Linked R genesis_hash (chain_of call.org_id (append_event R db stamp call).0)
  append_event-Linked late h = rw (chain_of-append_event late) (
      (Linked-append R genesis_hash (chain_of call.org_id db) (new_event R db stamp call ∷ [])).1
        (h, new_event-Linked))

  -- If an organisation's chain verifies and the clock has passed all of its events, then after
  -- `append_event` it verifies again, and one more event is checked.
  pub append_event-verifies :
      IsLatest call.org_id stamp.now db
      → (verify_chain R call.org_id db).is_valid ≡ true
      → let after = verify_chain R call.org_id (append_event R db stamp call).0 in
        (after.is_valid ≡ true)
        × (after.checked_events ≡ (verify_chain R call.org_id db).checked_events + 1)
  unfolding verify_chain
  append_event-verifies late valid =
      let before = (verify_chain_iff R call.org_id db).0 valid in
      let whole =
        verify_from_complete R genesis_hash 0
          (chain_of call.org_id (append_event R db stamp call).0)
          (append_event-Linked late before) in
      let part = verify_from_complete R genesis_hash 0 (chain_of call.org_id db) before in
      (
        whole.0,
        omega (
          arith,
          whole.1,
          part.1,
          ap length (chain_of-append_event late),
          length-append (chain_of call.org_id db) (new_event R db stamp call ∷ []),
        ),
      )

  -- `append_event` changes nothing in what `verify_chain` answers for another organisation.
  pub append_event_isolated :
      (org_id : ℕ)
      → call.org_id ≢ org_id
      → verify_chain R org_id (append_event R db stamp call).0 ≡ verify_chain R org_id db
  unfolding verify_chain
  append_event_isolated org_id h =
      ap (verify_from R genesis_hash 0) (chain_of-append_event_ne org_id h)

-- The calls of a run, in the order in which they are made.
pub run_calls : Runtime → AuditStore → List (Stamp × AuditCall) → AuditStore
run_calls R db [] = db
run_calls R db ((stamp, call) ∷ calls) = run_calls R (append_event R db stamp call).0 calls

-- Each call comes later than `t` and than the calls before it.
abbrev pub IsIncreasing : ℕ → List (Stamp × AuditCall) → Type 0
IsIncreasing t [] = Unit
IsIncreasing t ((stamp, call) ∷ calls) = (t < stamp.now) × IsIncreasing stamp.now calls

abbrev pub IsBefore : ℕ → AuditStore → Type 0
IsBefore t db = All (λ e. e.created_at ≤ t) db.events

append_event-IsBefore :
    (R : Runtime) (db : AuditStore) (stamp : Stamp) (call : AuditCall) (t : ℕ)
    → t < stamp.now
    → IsBefore t db
    → IsBefore stamp.now (append_event R db stamp call).0
unfolding append_event insert_row new_event
append_event-IsBefore R db stamp call t later h =
    All-append (λ e. e.created_at ≤ stamp.now) db.events (new_event R db stamp call ∷ [])
      (All-map (λ e. e.created_at ≤ t) (λ e. e.created_at ≤ stamp.now) db.events
        (λ e le. omega arith) h)
      (omega arith, tt)

IsBefore-IsLatest :
    (db : AuditStore) (t now org_id : ℕ) → t < now → IsBefore t db → IsLatest org_id now db
IsBefore-IsLatest db t now org_id later h =
    All-select (λ e. e.created_at < now) (of_org org_id) db.events
      (All-map (λ e. e.created_at ≤ t) (λ e. e.created_at < now) db.events (λ e le. omega arith) h)

append_event-verifies_all :
    (R : Runtime) (db : AuditStore) (stamp : Stamp) (call : AuditCall)
    → IsLatest call.org_id stamp.now db
    → ((org_id : ℕ) → (verify_chain R org_id db).is_valid ≡ true)
    → (org_id : ℕ) → (verify_chain R org_id (append_event R db stamp call).0).is_valid ≡ true
append_event-verifies_all R db stamp call late valid org_id =
    elim (Bool-cases (call.org_id == org_id)) [
      | inl same ↦
          rw (← (==_iff call.org_id org_id).0 same)
            (append_event-verifies R db stamp call late (valid call.org_id)).0
      | inr other ↦
          rw (append_event_isolated R db stamp call org_id (λ e. ground arith)) (valid org_id)
    ]

-- From a store in which every organisation's chain verifies, any calls of `append_event`, for any
-- organisations in any order, at times that increase, leave every chain verifying.
pub run_calls-verifies :
    (R : Runtime) (db : AuditStore) (t : ℕ) (calls : List (Stamp × AuditCall))
    → IsBefore t db
    → IsIncreasing t calls
    → ((org_id : ℕ) → (verify_chain R org_id db).is_valid ≡ true)
    → (org_id : ℕ) → (verify_chain R org_id (run_calls R db calls)).is_valid ≡ true
unfolding run_calls
run_calls-verifies R db t [] old later valid = valid
run_calls-verifies R db t ((stamp, call) ∷ calls) old later valid =
    run_calls-verifies R (append_event R db stamp call).0 stamp.now calls
      (append_event-IsBefore R db stamp call t later.0 old) later.1
      (append_event-verifies_all R db stamp call
        (IsBefore-IsLatest db t stamp.now call.org_id later.0 old) valid)
