-- ===== src/Prelude/Growth.antt =====
-- Tables that only grow at their end: each row of the first list stands, in a later version, at
-- the same place of the second one.
use cau_sium.Prelude.{
  ◌≡◌, refl, true, Bool, some, List, [], ◌∷◌, ◌++◌, Bool-cases, find_row, update_first, update_rows,
  inl, inr,
}

module _ {ℓ} {A : Type ℓ} (Later : A → A → Type 0) where
  abbrev pub Grows : List A → List A → Type 0
  Grows [] ys = Unit
  Grows (x ∷ xs) [] = ⊥
  Grows (x ∷ xs) (y ∷ ys) = Later x y × Grows xs ys

  pub Grows-trans :
      ((x y z : A) → Later x y → Later y z → Later x z)
      → (xs ys zs : List A) → Grows xs ys
      → Grows ys zs
      → Grows xs zs
  Grows-trans trans [] ys zs h h' = tt
  Grows-trans trans (x ∷ xs) [] zs h h' = elim h [ ]
  Grows-trans trans (x ∷ xs) (y ∷ ys) [] h h' = elim h' [ ]
  Grows-trans trans (x ∷ xs) (y ∷ ys) (z ∷ zs) h h' =
      (trans x y z h.0 h'.0, Grows-trans trans xs ys zs h.1 h'.1)

module _ {ℓ} {A : Type ℓ} (Later : A → A → Type 0) (same : (x : A) → Later x x) where
  pub Grows-append : (xs ys : List A) → Grows Later xs (xs ++ ys)
  Grows-append [] ys = tt
  Grows-append (x ∷ xs) ys = (same x, Grows-append xs ys)

  pub Grows-refl : (xs : List A) → Grows Later xs xs
  Grows-refl [] = tt
  Grows-refl (x ∷ xs) = (same x, Grows-refl xs)

  pub Grows-update_first :
      (p : A → Bool) (f : A → A) (xs : List A) {x : A}
      → find_row p xs ≡ some x
      → Later x (f x)
      → Grows Later xs (update_first p f xs)
  Grows-update_first p f [] h later = tt
  Grows-update_first p f (y ∷ xs) {x} h later = elim (Bool-cases (p y)) [
    | inl hit ↦ let here : y ≡ x = cc (rw hit at h) in rw (hit, here) (later, Grows-refl xs)
    | inr miss ↦ rw miss (same y, Grows-update_first p f xs (rw miss at h) later)
  ]

  pub Grows-update_rows :
      (p : A → Bool) (f : A → A)
      → ((x : A) → p x ≡ true → Later x (f x))
      → (xs : List A) → Grows Later xs (update_rows p f xs)
  Grows-update_rows p f later [] = tt
  Grows-update_rows p f later (x ∷ xs) = elim (Bool-cases (p x)) [
    | inl hit ↦ rw hit (later x hit, Grows-update_rows p f later xs)
    | inr miss ↦ rw miss (same x, Grows-update_rows p f later xs)
  ]

-- What a lookup finds is found later, too, if its test does not change.
module _ {ℓ} {A : Type ℓ} (Later : A → A → Type 0) (p : A → Bool)
    (same_test : (x y : A) → Later x y → p y ≡ p x) where
  pub find_row-Grows :
      (xs ys : List A) {x : A}
      → Grows Later xs ys
      → find_row p xs ≡ some x
      → (y : A) × (find_row p ys ≡ some y) × Later x y
  find_row-Grows [] ys h found = absurd (cc found)
  find_row-Grows (z ∷ xs) [] h found = elim h [ ]
  find_row-Grows (z ∷ xs) (y ∷ ys) {x} h found = elim (Bool-cases (p z)) [
    | inl hit ↦
        let here : z ≡ x = cc (rw hit at found) in
        (y, rw (same_test z y h.0, hit) refl, rw (← here) h.0)
    | inr miss ↦
        let rest = find_row-Grows xs ys {x = x} h.1 (rw miss at found) in
        (rest.0, rw (same_test z y h.0, miss) rest.1, rest.2)
  ]
