-- ===== src/Audit/Order.antt =====
-- The order in which a chain is read, and what one more row does to it.
use mathlib.Core.List.{append-nil}
use cau_sium.Prelude.{
  ℕ, ◌<◌, ◌≡◌, ◌≢◌, refl, true, List, [], ◌∷◌, ◌++◌, select, select-append, All, arith, ==_refl,
  ==_ne,
}
use cau_sium.Audit.{
  AuditEvent, AuditStore, Runtime, before, of_org, chain_of, insert_row, insert_event,
  order_by_created,
}

insert_event-append :
    (x e : AuditEvent) (xs : List AuditEvent)
    → before x e ≡ true
    → insert_event x (xs ++ e ∷ []) ≡ insert_event x xs ++ e ∷ []
unfolding insert_event
insert_event-append x e [] h = rw h
insert_event-append x e (y ∷ ys) h = ground (arith, insert_event-append x e ys h)

-- A row that is later than all others goes to the end.
order_by_created-append :
    (e : AuditEvent) (xs : List AuditEvent)
    → All (λ x. x.created_at < e.created_at) xs
    → order_by_created (xs ++ e ∷ []) ≡ order_by_created xs ++ e ∷ []
unfolding order_by_created
order_by_created-append e [] h = refl
order_by_created-append e (x ∷ xs) h =
    rw (order_by_created-append e xs h.1)
      (insert_event-append x e (order_by_created xs) (let earlier = h.0 in ground arith))

-- The clock has passed every event of the organisation.
abbrev pub IsLatest : ℕ → ℕ → AuditStore → Type 0
IsLatest org_id now db = All (λ e. e.created_at < now) (select (of_org org_id) db.events)

pub chain_of-insert_row :
    (R : Runtime) (e : AuditEvent) (db : AuditStore)
    → IsLatest e.org_id e.created_at db
    → chain_of e.org_id (insert_row R e db) ≡ chain_of e.org_id db ++ e ∷ []
unfolding chain_of insert_row
chain_of-insert_row R e db h =
    rw (select-append (of_org e.org_id) db.events (e ∷ []), ==_refl e.org_id)
      (order_by_created-append e (select (of_org e.org_id) db.events) h)

pub chain_of-insert_row_ne :
    (R : Runtime) (e : AuditEvent) (db : AuditStore) (org_id : ℕ)
    → e.org_id ≢ org_id
    → chain_of org_id (insert_row R e db) ≡ chain_of org_id db
unfolding chain_of insert_row
chain_of-insert_row_ne R e db org_id h =
    rw (select-append (of_org org_id) db.events (e ∷ []), ==_ne h, append-nil)
