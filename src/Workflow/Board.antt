-- ===== src/Workflow/Board.antt =====
-- `get_board` of backend/app/domains/workflow/service.py: the initiatives of a workspace by status.
use cau_sium.Prelude.{
  ℕ, suc, ◌+◌, ◌≡◌, refl, ap, ◌∙◌, sym, Bool, false, Option, none, some, List, [], ◌∷◌, ◌++◌, map,
  length, length-append, length-take, select, take, ltb, arith, Bool-cases, inl, inr, min,
  if◌then◌else◌,
}
use mathlib.Core.List.{append-nil, append_assoc}
use cau_sium.Workflow.{
  WorkflowStore, Initiative, InitiativeStatus, InitiativeOut, InitiativeBoard, backlog, planned,
  in_progress, review, done, cancelled, status_eq, list_initiatives, recent_first, insert_recent,
  listed,
}

-- `sla_date < date.today()`, of an initiative that is neither done nor cancelled.
abbrev overdue_on : ℕ → InitiativeStatus → Option ℕ → Bool
overdue_on today done sla = false
overdue_on today cancelled sla = false
overdue_on today status none = false
overdue_on today status (some date) = ltb date today

unfoldable pub from_model : ℕ → Initiative → InitiativeOut
from_model today i = record { initiative = i; is_overdue = overdue_on today i.status i.sla_date }

abbrev empty_board : InitiativeBoard
empty_board = record {
  backlog_cards = [];
  planned_cards = [];
  in_progress_cards = [];
  review_cards = [];
  done_cards = [];
  cancelled_cards = [];
}

-- `by_status[status].append(card)`
unfoldable pub append_card : InitiativeStatus → InitiativeOut → InitiativeBoard → InitiativeBoard
append_card backlog c b = record b { backlog_cards = b.backlog_cards ++ c ∷ [] }
append_card planned c b = record b { planned_cards = b.planned_cards ++ c ∷ [] }
append_card in_progress c b = record b { in_progress_cards = b.in_progress_cards ++ c ∷ [] }
append_card review c b = record b { review_cards = b.review_cards ++ c ∷ [] }
append_card done c b = record b { done_cards = b.done_cards ++ c ∷ [] }
append_card cancelled c b = record b { cancelled_cards = b.cancelled_cards ++ c ∷ [] }

unfoldable pub fill_board : ℕ → List Initiative → InitiativeBoard → InitiativeBoard
unfolding append_card from_model
fill_board today [] b = b
fill_board today (i ∷ is) b = fill_board today is (append_card i.status (from_model today i) b)

unfoldable pub get_board : ℕ → ℕ → WorkflowStore → InitiativeBoard
unfolding fill_board list_initiatives
get_board today org_id s =
    fill_board today (list_initiatives org_id none none 500 0 s).0 empty_board

abbrev pub column : InitiativeStatus → InitiativeBoard → List InitiativeOut
column backlog b = b.backlog_cards
column planned b = b.planned_cards
column in_progress b = b.in_progress_cards
column review b = b.review_cards
column done b = b.done_cards
column cancelled b = b.cancelled_cards

column-empty_board : (status : InitiativeStatus) → column status empty_board ≡ []
column-empty_board backlog = refl
column-empty_board _ = refl

column-append_card :
    (status here : InitiativeStatus) (c : InitiativeOut) (b : InitiativeBoard)
    → column status (append_card here c b)
      ≡ column status b ++ (if status_eq here status then c ∷ [] else [])
unfolding append_card
column-append_card backlog backlog c b = refl
column-append_card planned planned c b = refl
column-append_card in_progress in_progress c b = refl
column-append_card review review c b = refl
column-append_card done done c b = refl
column-append_card cancelled cancelled c b = refl
column-append_card status here c b = sym (append-nil (column status b))

column-fill_board :
    (status : InitiativeStatus) (today : ℕ) (is : List Initiative) (b : InitiativeBoard)
    → column status (fill_board today is b)
      ≡ column status b ++ map (from_model today) (select (λ i. status_eq i.status status) is)
unfolding fill_board
column-fill_board status today [] b = sym (append-nil (column status b))
column-fill_board status today (i ∷ is) b =
    let card = from_model today i in
    elim (Bool-cases (status_eq i.status status)) [
      | inl hit ↦
          rw
            (
              column-fill_board status today is (append_card i.status card b),
              column-append_card,
              hit,
            )
            (append_assoc (column status b) (card ∷ []) _)
      | inr miss ↦
          rw
            (
              column-fill_board status today is (append_card i.status card b),
              column-append_card,
              miss,
            )
            (rw (append-nil (column status b)) refl)
    ]

-- Each column of the board holds exactly the cards of the initiatives of its status, in order, among
-- the 500 of the workspace that were updated last.
pub column-get_board :
    (status : InitiativeStatus) (today org_id : ℕ) (s : WorkflowStore)
    → column status (get_board today org_id s)
      ≡ map (from_model today) (
          select
            (λ i. status_eq i.status status)
            (take 500 (recent_first (select (listed org_id none none) s.initiatives))))
unfolding get_board
column-get_board status today org_id s =
    column-fill_board status today
      (take 500 (recent_first (select (listed org_id none none) s.initiatives))) empty_board
    ∙ rw (column-empty_board status) refl

abbrev pub cards : InitiativeBoard → ℕ
cards b =
    length b.backlog_cards
    + length b.planned_cards
    + length b.in_progress_cards
    + length b.review_cards
    + length b.done_cards
    + length b.cancelled_cards

cards-append_card :
    (status : InitiativeStatus) (c : InitiativeOut) (b : InitiativeBoard)
    → cards (append_card status c b) ≡ suc (cards b)
unfolding append_card
cards-append_card backlog c b = omega (arith, length-append b.backlog_cards (c ∷ []))
cards-append_card planned c b = omega (arith, length-append b.planned_cards (c ∷ []))
cards-append_card in_progress c b = omega (arith, length-append b.in_progress_cards (c ∷ []))
cards-append_card review c b = omega (arith, length-append b.review_cards (c ∷ []))
cards-append_card done c b = omega (arith, length-append b.done_cards (c ∷ []))
cards-append_card cancelled c b = omega (arith, length-append b.cancelled_cards (c ∷ []))

cards-fill_board :
    (today : ℕ) (is : List Initiative) (b : InitiativeBoard)
    → cards (fill_board today is b) ≡ cards b + length is
unfolding fill_board
cards-fill_board today [] b = omega arith
cards-fill_board today (i ∷ is) b = omega (
  arith,
  cards-fill_board today is (append_card i.status (from_model today i) b),
  cards-append_card i.status (from_model today i) b,
)

length-insert_recent :
    (i : Initiative) (is : List Initiative) → length (insert_recent i is) ≡ suc (length is)
unfolding insert_recent
length-insert_recent i [] = refl
length-insert_recent i (j ∷ js) = ground (arith, length-insert_recent i js)

length-recent_first : (is : List Initiative) → length (recent_first is) ≡ length is
unfolding recent_first
length-recent_first [] = refl
length-recent_first (i ∷ is) =
    length-insert_recent i (recent_first is) ∙ ap suc (length-recent_first is)

-- The board shows all initiatives of a workspace that has at most 500, and else 500 of them.
pub cards-get_board :
    (today org_id : ℕ) (s : WorkflowStore)
    → cards (get_board today org_id s)
      ≡ min 500 (length (select (listed org_id none none) s.initiatives))
unfolding get_board
cards-get_board today org_id s =
    let found = select (listed org_id none none) s.initiatives in
    cards-fill_board today (take 500 (recent_first found)) empty_board
    ∙ (omega (arith, length-take 500 (recent_first found), length-recent_first found))
