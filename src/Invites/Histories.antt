-- ===== src/Invites/Histories.antt =====
-- Sequences of requests, each in its transaction: what becomes of invites over all of them, and
-- that no address ever has two pending invites of one workspace.
use cau_sium.Prelude.{ℕ, String, Option, List, [], ◌∷◌}
use cau_sium.Prelude.Actions.{in_transaction, in_transaction_keeps}
use cau_sium.Audit.{Stamp}
use cau_sium.Invites.{
  InviteStatus, InviteStore, InviteCreate, InviteAccept, Context, get_by_token, create_invite,
  accept_invite, revoke_invite, list_invites,
}
use cau_sium.Invites.Machine.{
  Grows, Grows-refl, Grows-trans, Grows-get_by_token, Grows-create_invite, Grows-accept_invite,
  Grows-revoke_invite, Grows-list_invites,
}

-- The requests, with their arguments.
pub data Op : Type 0 where
  preview_op : String → ℕ → Op
  create_op : Stamp → String → ℕ → ℕ → InviteCreate → Op
  accept_op : Stamp → String → InviteAccept → Op
  revoke_op : ℕ → ℕ → ℕ → Op
  list_op : ℕ → ℕ → ℕ → ℕ → Option InviteStatus → Option String → Op

module _ (C : Context) where
  pub step : Op → InviteStore → InviteStore
  step (preview_op token now) s = (in_transaction (get_by_token token now) s).1
  step (create_op stamp token org actor req) s =
      (in_transaction (create_invite C stamp token org actor req) s).1
  step (accept_op stamp token req) s = (in_transaction (accept_invite C stamp token req) s).1
  step (revoke_op org id actor) s = (in_transaction (revoke_invite C org id actor) s).1
  step (list_op now org limit offset wanted q) s =
      (in_transaction (list_invites C now org limit offset wanted q) s).1

  pub run : List Op → InviteStore → InviteStore
  run [] s = s
  run (o ∷ os) s = run os (step o s)

  -- What holds before a request and after each method holds of what the request commits.
  pub step_keeps {κ} :
      (P : InviteStore → Type κ) (s : InviteStore)
      → P s
      → ((token : String) (now : ℕ) → P (get_by_token token now s).1)
      → ((stamp : Stamp) (token : String) (org actor : ℕ) (req : InviteCreate)
          → P (create_invite C stamp token org actor req s).1)
      → ((stamp : Stamp) (token : String) (req : InviteAccept)
          → P (accept_invite C stamp token req s).1)
      → ((org id actor : ℕ) → P (revoke_invite C org id actor s).1)
      → ((now org limit offset : ℕ) (wanted : Option InviteStatus) (q : Option String)
          → P (list_invites C now org limit offset wanted q s).1)
      → (o : Op) → P (step o s)
  unfolding step
  step_keeps P s h preview made taken revoked listed (preview_op token now) =
      in_transaction_keeps P _ s h (preview token now)
  step_keeps P s h preview made taken revoked listed (create_op stamp token org actor req) =
      in_transaction_keeps P _ s h (made stamp token org actor req)
  step_keeps P s h preview made taken revoked listed (accept_op stamp token req) =
      in_transaction_keeps P _ s h (taken stamp token req)
  step_keeps P s h preview made taken revoked listed (revoke_op org id actor) =
      in_transaction_keeps P _ s h (revoked org id actor)
  step_keeps P s h preview made taken revoked listed (list_op now org limit offset wanted q) =
      in_transaction_keeps P _ s h (listed now org limit offset wanted q)

  step-Grows : (o : Op) (s : InviteStore) → Grows s.invites (step o s).invites
  step-Grows o s =
      step_keeps (λ t. Grows s.invites t.invites) s (Grows-refl s.invites)
        (λ token now. Grows-get_by_token token now s) (Grows-create_invite C s)
        (Grows-accept_invite C s) (Grows-revoke_invite C s) (Grows-list_invites C s) o

  -- Over any requests, every invite stays where it is and keeps its address, role, token and
  -- expiry; once it is not pending, it keeps its status and its time of acceptance, too.
  pub run-Grows : (os : List Op) (s : InviteStore) → Grows s.invites (run os s).invites
  unfolding run
  run-Grows [] s = Grows-refl s.invites
  run-Grows (o ∷ os) s =
      Grows-trans s.invites (step o s).invites (run os (step o s)).invites (step-Grows o s)
        (run-Grows os (step o s))

  -- What every request keeps, sequences of requests keep.
  pub run_keeps {κ} :
      (P : InviteStore → Type κ)
      → ((o : Op) (s : InviteStore) → P s → P (step o s))
      → (os : List Op) (s : InviteStore) → P s
      → P (run os s)
  unfolding run
  run_keeps P keep [] s h = h
  run_keeps P keep (o ∷ os) s h = run_keeps P keep os (step o s) (keep o s h)
