-- ===== src/Workflow.antt =====
-- The initiatives of a workspace: backend/app/domains/workflow/service.py. A method is an action on
-- the store of its request, which reads the clock once.
mod Models
pub mod Endpoints
pub mod Diagram
pub mod Changes
pub mod Lifecycle
pub mod Resolved
pub mod Board
mod Tests
unfoldable pub use Models.*
use cau_sium.Prelude.{
  ℕ, suc, ◌≡◌, String, Bool, true, false, ◌&&◌, ◌||◌, not, Option, none, some, List, [], ◌∷◌, ◌++◌,
  map, length, select, find_row, update_first, ◌==◌, opt_eq, ltb, leb, str_eq, if◌then◌else◌,
  value_error, http, Result, ok, err, take, drop,
}
use cau_sium.Prelude.Actions.{Action, pure, gets, modify, raise_if, or_raise, ◌>>=◌, ◌>>◌}
use cau_sium.Prelude.Floats.{Float, geb}
use cau_sium.Audit.{Stamp, AuditCall, Payload, Fields, null, str, dict, field, end}

abbrev pub status_code : InitiativeStatus → ℕ
status_code backlog = 0
status_code planned = 1
status_code in_progress = 2
status_code review = 3
status_code done = 4
status_code cancelled = 5

abbrev pub status_eq : InitiativeStatus → InitiativeStatus → Bool
status_eq a b = status_code a == status_code b

abbrev pub status_in : InitiativeStatus → List InitiativeStatus → Bool
status_in a [] = false
status_in a (b ∷ bs) = status_eq a b || status_in a bs

abbrev status_value : InitiativeStatus → String
status_value backlog = "backlog"
status_value planned = "planned"
status_value in_progress = "in_progress"
status_value review = "review"
status_value done = "done"
status_value cancelled = "cancelled"

unfoldable pub valid_transitions : InitiativeStatus → List InitiativeStatus
valid_transitions backlog = planned ∷ cancelled ∷ []
valid_transitions planned = in_progress ∷ backlog ∷ cancelled ∷ []
valid_transitions in_progress = review ∷ planned ∷ cancelled ∷ []
valid_transitions review = done ∷ in_progress ∷ []
valid_transitions done = []
valid_transitions cancelled = backlog ∷ []

abbrev pub is_initiative : ℕ → ℕ → Initiative → Bool
is_initiative org_id initiative_id i = i.id == initiative_id && i.org_id == org_id

unfoldable pub get_initiative : ℕ → ℕ → WorkflowStore → Option Initiative
get_initiative org_id initiative_id s = find_row (is_initiative org_id initiative_id) s.initiatives

-- The row that the session holds as `initiative` is written back.
abbrev pub write_initiative : ℕ → ℕ → Initiative → WorkflowStore → WorkflowStore
write_initiative org_id initiative_id i s = record s {
  initiatives = update_first (is_initiative org_id initiative_id) (λ _. i) s.initiatives;
}

abbrev pub append_audit : AuditCall → WorkflowStore → WorkflowStore
append_audit call s = record s { audit = s.audit ++ call ∷ [] }

-- `if actor_user_id: await append_event(…)`
abbrev pub audit_by : Option ℕ → (Option ℕ → AuditCall) → WorkflowStore → WorkflowStore
audit_by none call s = s
audit_by (some user) call s = append_audit (call (some user)) s

abbrev pub is_opportunity : ℕ → Opportunity → Bool
is_opportunity id o = o.id == id

-- What is done to the opportunity of an initiative, where it has one and that is found.
abbrev pub linked : Option ℕ → (Opportunity → Opportunity) → List Opportunity → List Opportunity
linked none f os = os
linked (some id) f os = update_first (is_opportunity id) f os

abbrev pub change_opportunities :
    (List Opportunity → List Opportunity) → WorkflowStore → WorkflowStore
change_opportunities f s = record s { opportunities = f s.opportunities }

-- `if opp.status == OPEN: opp.status = IN_PROGRESS`
unfoldable pub start_opportunity : Opportunity → Opportunity
start_opportunity o = elim o.status [ opp_open ↦ record o { status = opp_in_progress } | _ ↦ o ]

abbrev pub resolve_opportunity : Opportunity → Opportunity
resolve_opportunity o = record o { status = opp_resolved }

unfoldable pub new_initiative : Stamp → ℕ → InitiativeCreate → Initiative
new_initiative stamp org_id req = record {
  id = stamp.id;
  org_id = org_id;
  opportunity_id = req.opportunity_id;
  owner_id = req.owner_id;
  title = req.title;
  description = req.description;
  status = backlog;
  sla_date = req.sla_date;
  completed_at = none;
  external_ref = req.external_ref;
  external_url = req.external_url;
  realized_savings_usd = none;
  created_at = stamp.now;
  updated_at = stamp.now;
}

abbrev given {ℓ} : {A : Type ℓ} → Option A → A → A
given none old = old
given (some new) old = new

abbrev given_too {ℓ} : {A : Type ℓ} → Option A → Option A → Option A
given_too none old = old
given_too (some new) old = some new

abbrev same_by {ℓ} : {A : Type ℓ} → (A → A → Bool) → Option A → Option A → Bool
same_by eq none none = true
same_by eq (some a) (some b) = eq a b
same_by eq _ _ = false

-- No attribute has a net change: the row is not updated then, and `onupdate` does not run.
same_values : Initiative → Initiative → Bool
unfolding geb
same_values i j =
    str_eq i.title j.title
    && same_by str_eq i.description j.description
    && opt_eq i.owner_id j.owner_id
    && opt_eq i.sla_date j.sla_date
    && same_by str_eq i.external_ref j.external_ref
    && same_by str_eq i.external_url j.external_url
    && same_by (λ a b. geb a b && geb b a) i.realized_savings_usd j.realized_savings_usd

-- `setattr` for each field that the request sets.
abbrev assigned : InitiativeUpdate → Initiative → Initiative
assigned req i = record i {
  title = given req.title i.title;
  description = given_too req.description i.description;
  owner_id = given_too req.owner_id i.owner_id;
  sla_date = given_too req.sla_date i.sla_date;
  external_ref = given_too req.external_ref i.external_ref;
  external_url = given_too req.external_url i.external_url;
  realized_savings_usd = given_too req.realized_savings_usd i.realized_savings_usd;
}

unfoldable pub updated : InitiativeUpdate → ℕ → Initiative → Initiative
unfolding same_values
updated req now i = record (assigned req i) {
  updated_at = if same_values i (assigned req i) then i.updated_at else now;
}

-- The assignments of `transition_status`, by the target.
unfoldable pub moved : InitiativeStatus → ℕ → Initiative → Initiative
moved done now i = record i { status = done; completed_at = some now; updated_at = now }
moved status now i = record i { status = status; updated_at = now }

-- The opportunity of an initiative that is done is resolved.
unfoldable pub resolve_if_done : InitiativeStatus → Initiative → List Opportunity → List Opportunity
resolve_if_done done i os = linked i.opportunity_id resolve_opportunity os
resolve_if_done _ i os = os

-- `value if value else None`
abbrev optional : (ℕ → String) → Option ℕ → Payload
optional f none = null
optional f (some id) = str (f id)

module _ (str_uuid : ℕ → String) where
  initiative_call : ℕ → Option ℕ → String → ℕ → Fields → AuditCall
  initiative_call org_id actor event_type id fields = record {
    org_id = org_id;
    actor_user_id = actor;
    event_type = event_type;
    entity_type = "initiative";
    entity_id = str_uuid id;
    payload = dict fields;
  }

  pub created_call : Initiative → Option ℕ → AuditCall
  unfolding initiative_call
  created_call i actor = initiative_call i.org_id actor "initiative.created" i.id (
      field "title" (str i.title) (
        field "opportunity_id" (optional str_uuid i.opportunity_id)
          (field "owner_id" (optional str_uuid i.owner_id) end)))

  pub transitioned_call : ℕ → ℕ → InitiativeStatus → InitiativeStatus → Option ℕ → AuditCall
  unfolding initiative_call
  transitioned_call org_id id before after actor =
      initiative_call org_id actor "initiative.transitioned" id
        (field "from" (str (status_value before)) (field "to" (str (status_value after)) end))

  unfoldable pub create_initiative :
      Stamp → ℕ → InitiativeCreate → Option ℕ → Action WorkflowStore Initiative
  unfolding new_initiative start_opportunity
  create_initiative stamp org_id req actor = do
    let initiative = new_initiative stamp org_id req
    modify (λ s. record s { initiatives = s.initiatives ++ initiative ∷ [] })
    modify (change_opportunities (linked req.opportunity_id start_opportunity))
    modify (audit_by actor (created_call initiative))
    pure initiative

  unfoldable pub transition_status :
      ℕ → ℕ → ℕ → InitiativeStatus → Option ℕ → Action WorkflowStore Initiative
  unfolding get_initiative valid_transitions moved resolve_if_done
  transition_status now org_id initiative_id status actor = do
    initiative ←
        or_raise (← gets (get_initiative org_id initiative_id)) (value_error "Initiative not found")
    raise_if (not (status_in status (valid_transitions initiative.status)))
        (value_error "Cannot transition")
    modify (write_initiative org_id initiative_id (moved status now initiative))
    modify (change_opportunities (resolve_if_done status initiative))
    modify (audit_by actor (transitioned_call org_id initiative_id initiative.status status))
    pure (moved status now initiative)

unfoldable pub update_initiative :
    ℕ → ℕ → ℕ → InitiativeUpdate → Action WorkflowStore (Option Initiative)
unfolding get_initiative updated
update_initiative now org_id initiative_id req s = elim (get_initiative org_id initiative_id s) [
  | none ↦ pure none s
  | some initiative ↦
      pure (some (updated req now initiative))
        (write_initiative org_id initiative_id (updated req now initiative) s)
]

unfoldable pub add_comment : Stamp → ℕ → ℕ → ℕ → String → Action WorkflowStore InitiativeComment
unfolding get_initiative
add_comment stamp org_id initiative_id user_id body = do
  initiative ←
      or_raise (← gets (get_initiative org_id initiative_id)) (value_error "Initiative not found")
  let comment : InitiativeComment = record {
    id = stamp.id;
    initiative_id = initiative_id;
    user_id = user_id;
    body = body;
    created_at = stamp.now;
  }
  modify (λ s. record s { comments = s.comments ++ comment ∷ [] })
  pure comment

abbrev status_filter : Option InitiativeStatus → Initiative → Bool
status_filter none i = true
status_filter (some status) i = status_eq i.status status

abbrev owner_filter : Option ℕ → Initiative → Bool
owner_filter none i = true
owner_filter (some owner) i = opt_eq i.owner_id (some owner)

abbrev pub listed : ℕ → Option InitiativeStatus → Option ℕ → Initiative → Bool
listed org_id status owner i = i.org_id == org_id && status_filter status i && owner_filter owner i

unfoldable pub insert_recent : Initiative → List Initiative → List Initiative
insert_recent i [] = i ∷ []
insert_recent i (j ∷ js) =
    let rest = insert_recent i js in if ltb i.updated_at j.updated_at then j ∷ rest else i ∷ j ∷ js

-- `order_by(Initiative.updated_at.desc())`
unfoldable pub recent_first : List Initiative → List Initiative
recent_first [] = []
recent_first (i ∷ is) = insert_recent i (recent_first is)

unfoldable pub list_initiatives :
    ℕ → Option InitiativeStatus → Option ℕ → ℕ → ℕ → WorkflowStore → List Initiative × ℕ
unfolding recent_first
list_initiatives org_id status owner limit offset s =
    let found = select (listed org_id status owner) s.initiatives in
    (take limit (drop offset (recent_first found)), length found)
