-- ===== src/Prelude/Actions.antt =====
-- A handler's work on the store of a request: state and exceptions. The state comes back after a
-- raise too; `in_transaction` is what `get_db` (backend/app/core/database.py) makes of the two.
use cau_sium.Prelude.{
  ◌≡◌, refl, ap, Option, none, some, Bool, true, false, Result, ok, err, Failure,
}

abbrev pub Action : Type 0 → Type 0 → Type 0
Action S A = S → Result A × S

module _ {S A : Type 0} where
  abbrev pub pure : A → Action S A
  pure a s = (ok a, s)

  abbrev pub raise : Failure → Action S A
  raise e s = (err e, s)

  abbrev pub gets : (S → A) → Action S A
  gets f s = (ok (f s), s)

  -- `if row is None: raise e`
  abbrev pub or_raise : Option A → Failure → Action S A
  or_raise none e = raise e
  or_raise (some a) e = pure a

  abbrev pub from_result : Result A → Action S A
  from_result r s = (r, s)

  abbrev settle : S → Result A × S → Result A × S
  settle before (ok a, s) = (ok a, s)
  settle before (err e, s) = (err e, before)

  -- `yield session; commit()`, and `rollback(); raise` on an exception.
  unfoldable pub in_transaction : Action S A → Action S A
  in_transaction m s = settle s (m s)

  settle_keeps {κ} :
      (P : S → Type κ) (before : S) (r : Result A × S) → P before → P r.1 → P (settle before r).1
  settle_keeps P before (ok a, s) h h' = h'
  settle_keeps P before (err e, s) h h' = h

  -- What holds before, and after the work, holds of what is committed.
  pub in_transaction_keeps {κ} :
      (P : S → Type κ) (m : Action S A) (s : S) → P s → P (m s).1 → P (in_transaction m s).1
  unfolding in_transaction
  in_transaction_keeps P m s h h' = settle_keeps P s (m s) h h'

  settle_ok :
      (before : S) (r : Result A × S) {a : A}
      → r.0 ≡ ok a
      → ((settle before r).0 ≡ ok a) × ((settle before r).1 ≡ r.1)
  settle_ok before (ok b, s) h = (h, refl)
  settle_ok before (err e, s) h = absurd (cc h)

  -- Work that comes to a value is committed.
  pub in_transaction_ok :
      (m : Action S A) (s : S) {a : A}
      → (m s).0 ≡ ok a
      → ((in_transaction m s).0 ≡ ok a) × ((in_transaction m s).1 ≡ (m s).1)
  unfolding in_transaction
  in_transaction_ok m s {a} h = settle_ok s (m s) {a = a} h

module _ {S : Type 0} where
  abbrev pub modify : (S → S) → Action S (Unit {0})
  modify f s = (ok tt, f s)

  abbrev pub raise_if : Bool → Failure → Action S (Unit {0})
  raise_if true e = raise e
  raise_if false e = pure tt

module _ {S A B : Type 0} where
  abbrev pub and_then : (A → Action S B) → Result A × S → Result B × S
  and_then f (ok a, s) = f a s
  and_then f (err e, s) = (err e, s)

  infixl 5 ◌>>=◌ ◌>>◌
  abbrev pub ◌>>=◌ : Action S A → (A → Action S B) → Action S B
  ◌>>=◌ m f s = and_then f (m s)

  abbrev pub ◌>>◌ : Action S A → Action S B → Action S B
  ◌>>◌ m k s = and_then (λ _. k) (m s)

-- A chain that comes to a value has parts that do.
pub then_ok :
    {S A B : Type 0} (f : A → Action S B) (r : Result A × S) {b : B}
    → (and_then f r).0 ≡ ok b
    → (a : A) × (r.0 ≡ ok a) × ((f a r.1).0 ≡ ok b) × ((and_then f r).1 ≡ (f a r.1).1)
then_ok f (ok a, s) h = (a, refl, h, refl)
then_ok f (err e, s) h = absurd (cc h)

-- A chain that ends in the computation of a value.
module _ {S A B : Type 0} (f : A → B) where
  pub then_pure :
      (r : Result A × S) {a : A} → r.0 ≡ ok a → (and_then (λ b. pure (f b)) r).0 ≡ ok (f a)
  then_pure (ok b, s) {a} h = let same : b ≡ a = cc h in ap (λ c. ok (f c)) same
  then_pure (err e, s) {a} h = absurd (cc h)

  pub then_pure-state : (r : Result A × S) → (and_then (λ b. pure (f b)) r).1 ≡ r.1
  then_pure-state (ok b, s) = refl
  then_pure-state (err e, s) = refl

-- A transitive relation between the stores before and after holds of a chain if it holds of its
-- parts.
module _ {κ} {S A B : Type 0} (R : S → S → Type κ)
    (trans : (s t u : S) → R s t → R t u → R s u) where
  related_then :
      (f : A → Action S B) (s : S) (r : Result A × S)
      → ((a : A) (t : S) → R t (f a t).1)
      → R s r.1
      → R s (and_then f r).1
  related_then f s (ok a, t) later h = trans s t (f a t).1 h (later a t)
  related_then f s (err e, t) later h = h

  pub related->>= :
      (m : Action S A) (f : A → Action S B)
      → ((s : S) → R s (m s).1)
      → ((a : A) (t : S) → R t (f a t).1)
      → (s : S) → R s ((m >>= f) s).1
  related->>= m f first later s = related_then f s (m s) later (first s)
