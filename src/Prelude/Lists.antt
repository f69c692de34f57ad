-- ===== src/Prelude/Lists.antt =====
-- Lists measured by native numbers, and the rows of a table: what a query selects, and what an
-- update of the selected rows leaves.
use Prim.Native.Nat.{ℕ, zero, suc, ◌+◌, ◌-◌, ◌≤◌, min}
use mathlib.Core.Path.{◌≡◌, ◌∙◌, refl, ap}
use mathlib.Core.Bool.{Bool, true, false, ◌||◌}
use mathlib.Core.List.{List, [], ◌∷◌, ◌++◌}
use mathlib.Core.Option.{Option, none, some}
use native.Mathlib.Omega.{arith}
use mathlib.Core.Logic.{inl, inr}
use cau_sium.Prelude.Tests.{if◌then◌else◌, Bool-cases, Option-cases, is_some}

module _ {ℓ} {A : Type ℓ} where
  abbrev pub length : List A → ℕ
  length [] = 0
  length (x ∷ xs) = suc (length xs)

  abbrev pub take : ℕ → List A → List A
  take zero xs = []
  take (suc n) [] = []
  take (suc n) (x ∷ xs) = x ∷ take n xs

  abbrev pub drop : ℕ → List A → List A
  drop zero xs = xs
  drop (suc n) [] = []
  drop (suc n) (x ∷ xs) = drop n xs

  -- The rows that a test selects, in their order.
  abbrev pub select : (A → Bool) → List A → List A
  select p [] = []
  select p (x ∷ xs) = if p x then x ∷ select p xs else select p xs

  -- The first row that a test selects.
  abbrev pub find_row : (A → Bool) → List A → Option A
  find_row p [] = none
  find_row p (x ∷ xs) = if p x then some x else find_row p xs

  -- Every selected row is changed.
  abbrev pub update_rows : (A → Bool) → (A → A) → List A → List A
  update_rows p f [] = []
  update_rows p f (x ∷ xs) = (if p x then f x else x) ∷ update_rows p f xs

  -- The first selected row is changed: the object that a query returned.
  abbrev pub update_first : (A → Bool) → (A → A) → List A → List A
  update_first p f [] = []
  update_first p f (x ∷ xs) = if p x then f x ∷ xs else x ∷ update_first p f xs

  abbrev pub any_row : (A → Bool) → List A → Bool
  any_row p [] = false
  any_row p (x ∷ xs) = p x || any_row p xs

  pub length-append : (xs ys : List A) → length (xs ++ ys) ≡ length xs + length ys
  length-append [] ys = omega arith
  length-append (x ∷ xs) ys = omega (arith, length-append xs ys)

  pub length-take : (n : ℕ) (xs : List A) → length (take n xs) ≡ min n (length xs)
  length-take zero xs = omega arith
  length-take (suc n) [] = omega arith
  length-take (suc n) (x ∷ xs) = omega (arith, length-take n xs)

  pub take_all : (n : ℕ) (xs : List A) → length xs ≤ n → take n xs ≡ xs
  take_all zero [] h = refl
  take_all zero (x ∷ xs) h = absurd (omega (arith, h))
  take_all (suc n) [] h = refl
  take_all (suc n) (x ∷ xs) h = ap (λ t. x ∷ t) (take_all n xs (omega (arith, h)))

  pub length-drop : (n : ℕ) (xs : List A) → length (drop n xs) ≡ length xs - n
  length-drop zero xs = omega arith
  length-drop (suc n) [] = omega arith
  length-drop (suc n) (x ∷ xs) = omega (arith, length-drop n xs)

  pub select-append :
      (p : A → Bool) (xs ys : List A) → select p (xs ++ ys) ≡ select p xs ++ select p ys
  select-append p [] ys = refl
  select-append p (x ∷ xs) ys = ground (arith, select-append p xs ys)

  pub length-update_rows :
      (p : A → Bool) (f : A → A) (xs : List A) → length (update_rows p f xs) ≡ length xs
  length-update_rows p f [] = refl
  length-update_rows p f (x ∷ xs) = ap suc (length-update_rows p f xs)

  -- What a lookup returns passes its test.
  pub find_row_sound : (p : A → Bool) (xs : List A) {x : A} → find_row p xs ≡ some x → p x ≡ true
  find_row_sound p [] h = cc
  find_row_sound p (y ∷ xs) {x} h = ground (arith, find_row_sound p xs {x = x})

  -- Every element has the property; it computes to a tuple.
  abbrev pub All {κ} : (A → Type κ) → List A → Type κ
  All P [] = Unit
  All P (x ∷ xs) = P x × All P xs

  abbrev pub last_row : List A → Option A
  last_row [] = none
  last_row (x ∷ []) = some x
  last_row (x ∷ y ∷ ys) = last_row (y ∷ ys)

  pub All-append {κ} : (P : A → Type κ) (xs ys : List A) → All P xs → All P ys → All P (xs ++ ys)
  All-append P [] ys hx hy = hy
  All-append P (x ∷ xs) ys hx hy = (hx.0, All-append P xs ys hx.1 hy)

  pub All-select {κ} :
      (P : A → Type κ) (p : A → Bool) (xs : List A) → All P xs → All P (select p xs)
  All-select P p [] h = tt
  All-select P p (x ∷ xs) h = elim (Bool-cases (p x)) [
    | inl keep ↦ rw keep (h.0, All-select P p xs h.1)
    | inr skip ↦ rw skip (All-select P p xs h.1)
  ]

  pub All-map {κ μ} :
      (P : A → Type κ) (Q : A → Type μ) (xs : List A) → ((x : A) → P x → Q x) → All P xs → All Q xs
  All-map P Q [] f h = tt
  All-map P Q (x ∷ xs) f h = (f x h.0, All-map P Q xs f h.1)

  pub find_row-append :
      (p : A → Bool) (xs : List A) (x : A)
      → find_row p xs ≡ none
      → find_row p (xs ++ x ∷ []) ≡ (if p x then some x else none)
  find_row-append p [] x h = refl
  find_row-append p (y ∷ ys) x h = ground (arith, find_row-append p ys x)

  pub All-update_rows {κ} :
      (P : A → Type κ) (p : A → Bool) (f : A → A) (xs : List A)
      → ((x : A) → P x → P (f x))
      → All P xs
      → All P (update_rows p f xs)
  All-update_rows P p f [] keep h = tt
  All-update_rows P p f (x ∷ xs) keep h = (
    elim (p x) as (λ b. P (if b then f x else x)) [ true ↦ keep x h.0 | false ↦ h.0 ],
    All-update_rows P p f xs keep h.1,
  )

  pub All-find_row {κ} :
      (P : A → Type κ) (p : A → Bool) (xs : List A) (x : A)
      → All P xs
      → find_row p xs ≡ some x
      → P x
  All-find_row P p [] x h e = absurd (cc e)
  All-find_row P p (y ∷ ys) x h e = elim (Bool-cases (p y)) [
    | inl hit ↦ let same : y ≡ x = cc (rw hit at e) in rw (← same) h.0
    | inr miss ↦ All-find_row P p ys x h.1 (rw miss at e)
  ]

  -- The changed row is found again if it still passes the test.
  pub find_row-update_first :
      (p : A → Bool) (f : A → A) (xs : List A) {x : A}
      → find_row p xs ≡ some x
      → p (f x) ≡ true
      → find_row p (update_first p f xs) ≡ some (f x)
  find_row-update_first p f [] h still = absurd (cc h)
  find_row-update_first p f (y ∷ xs) {x} h still = elim (Bool-cases (p y)) [
    | inl hit ↦ let same : y ≡ x = cc (rw hit at h) in rw (hit, same, still) refl
    | inr miss ↦ rw (miss, miss, find_row-update_first p f xs (rw miss at h) still) refl
  ]

  pub length-update_first :
      (p : A → Bool) (f : A → A) (xs : List A) → length (update_first p f xs) ≡ length xs
  length-update_first p f [] = refl
  length-update_first p f (x ∷ xs) = ground (arith, length-update_first p f xs)

  pub any_row-append :
      (p : A → Bool) (xs ys : List A) → any_row p (xs ++ ys) ≡ (any_row p xs || any_row p ys)
  any_row-append p [] ys = refl
  any_row-append p (x ∷ xs) ys = ground (arith, any_row-append p xs ys)

  -- Some row passes the test exactly when a lookup finds one.
  pub any_row-find_row : (p : A → Bool) (xs : List A) → any_row p xs ≡ is_some (find_row p xs)
  any_row-find_row p [] = refl
  any_row-find_row p (x ∷ xs) = ground (arith, any_row-find_row p xs)

  pub find_row-none : (p : A → Bool) (xs : List A) → any_row p xs ≡ false → find_row p xs ≡ none
  find_row-none p xs h = elim (Option-cases (find_row p xs)) [
    | inl missing ↦ missing
    | inr (x, found) ↦
        let there : any_row p xs ≡ true = any_row-find_row p xs ∙ ap is_some found in
        absurd (cc (there, h))
  ]

  -- A first row that is replaced by one with the property.
  pub All-replace_first {κ} :
      (P : A → Type κ) (p : A → Bool) (y : A) (xs : List A)
      → P y
      → All P xs
      → All P (update_first p (λ _. y) xs)
  All-replace_first P p y [] h all = tt
  All-replace_first P p y (x ∷ xs) h all = elim (Bool-cases (p x)) [
    | inl hit ↦ rw hit (h, all.1)
    | inr miss ↦ rw miss (all.0, All-replace_first P p y xs h all.1)
  ]
