-- ===== src/Audit/Race.antt =====
-- Two transactions that both read the last event before either has inserted its own: nothing in
-- `append_event` (a read, then an insertion) keeps them apart.
use mathlib.Core.Path.{subst}
use mathlib.Core.List.{append_assoc}
use cau_sium.Prelude.{not_true, ◌≡◌, ◌≢◌, sym, ap, false, [], ◌∷◌, ◌++◌, ◌∙◌}
use cau_sium.Audit.{
  AuditEvent, AuditStore, AuditCall, Stamp, Runtime, genesis_hash, latest_for_org, chain_of,
  new_event, latest_hash, insert_row, verify_chain,
}
use cau_sium.Audit.Order.{IsLatest, chain_of-insert_row}
use cau_sium.Audit.Links.{Linked-append, verify_chain_iff}

-- Both rows are made from the same store and inserted one after the other.
pub append_both : Runtime → AuditStore → Stamp → AuditCall → Stamp → AuditCall → AuditStore
append_both R db first c second d =
    insert_row R (new_event R db second d) (insert_row R (new_event R db first c) db)

chain_of-insert_both :
    (R : Runtime) (e f : AuditEvent) (db : AuditStore)
    → f.org_id ≡ e.org_id
    → IsLatest e.org_id e.created_at db
    → IsLatest e.org_id f.created_at (insert_row R e db)
    → chain_of e.org_id (insert_row R f (insert_row R e db)) ≡ chain_of e.org_id db ++ e ∷ f ∷ []
chain_of-insert_both R e f db same fresh later =
    let one = insert_row R e db in
    subst
      (λ org_id.
        IsLatest org_id f.created_at one
        → chain_of org_id (insert_row R f one) ≡ chain_of org_id one ++ f ∷ [])
      same (chain_of-insert_row R f one) later
    ∙ rw (chain_of-insert_row R e db fresh) (append_assoc (chain_of e.org_id db) (e ∷ []) (f ∷ []))

module _ (R : Runtime) (db : AuditStore) (first second : Stamp) (c d : AuditCall)
    (same_org : d.org_id ≡ c.org_id) (fresh : IsLatest c.org_id first.now db)
    (later : IsLatest c.org_id second.now (insert_row R (new_event R db first c) db)) where
  chain_of-append_both :
      chain_of c.org_id (append_both R db first c second d)
      ≡ chain_of c.org_id db ++ new_event R db first c ∷ new_event R db second d ∷ []
  unfolding append_both new_event
  chain_of-append_both =
      chain_of-insert_both R (new_event R db first c) (new_event R db second d) db same_org fresh
        later

  both_name_same_hash : (new_event R db second d).prev_hash ≡ (new_event R db first c).prev_hash
  unfolding new_event
  both_name_same_hash = ap (λ org_id. latest_hash (latest_for_org org_id db)) same_org

  -- If two transactions of one organisation append concurrently, the second insertion later than
  -- the first and both later than all other events of the organisation, then the chain no longer
  -- verifies, unless the first event's hash is the very hash that it names as the previous one.
  pub append_both_breaks :
      (new_event R db first c).event_hash ≢ (new_event R db first c).prev_hash
      → (verify_chain R c.org_id (append_both R db first c second d)).is_valid ≡ false
  append_both_breaks moved = not_true _ λ valid.
      let linked = (verify_chain_iff R c.org_id (append_both R db first c second d)).0 valid in
      let links =
        (Linked-append R genesis_hash (chain_of c.org_id db)
            (new_event R db first c ∷ new_event R db second d ∷ [])).0
          (rw chain_of-append_both at linked) in
      moved (sym (links.1.2.0) ∙ both_name_same_hash)
