-- ===== src/Audit/Links.antt =====
-- What `verify_chain` decides: each event names the hash before it and has the hash of its fields.
use cau_sium.Prelude.{
  ℕ, ◌+◌, String, ◌≡◌, ◌↔◌, refl, true, List, [], ◌∷◌, ◌++◌, length, arith, str_eq_iff, last_row,
}
use cau_sium.Audit.{
  AuditEvent, AuditStore, Runtime, genesis_hash, latest_hash, expected_hash, verify_from,
  verify_chain, chain_of,
}

-- The hash that the next event has to name.
abbrev pub head_hash : String → List AuditEvent → String
head_hash prev [] = prev
head_hash prev (e ∷ es) = head_hash e.event_hash es

pub latest_hash-last_row :
    (es : List AuditEvent) → latest_hash (last_row es) ≡ head_hash genesis_hash es
latest_hash-last_row [] = refl
latest_hash-last_row (e ∷ []) = refl
latest_hash-last_row (e ∷ f ∷ es) = latest_hash-last_row (f ∷ es)

pub head_hash-append :
    (prev : String) (xs ys : List AuditEvent)
    → head_hash prev (xs ++ ys) ≡ head_hash (head_hash prev xs) ys
head_hash-append prev [] ys = refl
head_hash-append prev (x ∷ xs) ys = head_hash-append x.event_hash xs ys

module _ (R : Runtime) where
  -- A chain that hangs on `prev`, link by link.
  abbrev pub Linked : String → List AuditEvent → Type 0
  Linked prev [] = Unit
  Linked prev (e ∷ es) =
      (e.prev_hash ≡ prev) × (e.event_hash ≡ expected_hash R prev e) × Linked e.event_hash es

  pub Linked-append :
      (prev : String) (xs ys : List AuditEvent)
      → Linked prev (xs ++ ys) ↔ (Linked prev xs × Linked (head_hash prev xs) ys)
  Linked-append prev [] ys = (λ h. (tt, h), λ h. h.1)
  Linked-append prev (x ∷ xs) ys =
      let rest = Linked-append x.event_hash xs ys in
      (λ h. ((h.0, h.1, (rest.0 h.2).0), (rest.0 h.2).1), λ h. (h.0.0, h.0.1, rest.1 (h.0.2, h.1)))

  pub verify_from_complete :
      (prev : String) (n : ℕ) (es : List AuditEvent)
      → Linked prev es
      → ((verify_from R prev n es).is_valid ≡ true)
        × ((verify_from R prev n es).checked_events ≡ n + length es)
  unfolding verify_from
  verify_from_complete prev n [] h = (refl, omega arith)
  verify_from_complete prev n (e ∷ es) h = ground (
    arith,
    str_eq_iff e.prev_hash prev,
    str_eq_iff e.event_hash (expected_hash R prev e),
    verify_from_complete e.event_hash (n + 1) es h.2,
  )

  pub verify_from_sound :
      (prev : String) (n : ℕ) (es : List AuditEvent)
      → (verify_from R prev n es).is_valid ≡ true
      → Linked prev es
  unfolding verify_from
  verify_from_sound prev n [] h = tt
  verify_from_sound prev n (e ∷ es) h = (
    ground (arith, str_eq_iff e.prev_hash prev),
    ground (arith, str_eq_iff e.event_hash (expected_hash R prev e)),
    verify_from_sound e.event_hash (n + 1) es (ground arith),
  )

  -- `verify_chain` accepts exactly the chains that are linked from GENESIS.
  pub verify_chain_iff :
      (org_id : ℕ) (db : AuditStore)
      → ((verify_chain R org_id db).is_valid ≡ true) ↔ Linked genesis_hash (chain_of org_id db)
  unfolding verify_chain
  verify_chain_iff org_id db = (
    verify_from_sound genesis_hash 0 (chain_of org_id db),
    λ h. (verify_from_complete genesis_hash 0 (chain_of org_id db) h).0,
  )
