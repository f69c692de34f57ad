-- ===== src/Prelude/Decimals.antt =====
-- Python's `str` and `int` between natural numbers and texts in decimal digits. Digits are those of
-- ASCII; `int` takes white space at the ends, a sign, and single underscores between digits.
use cau_sium.Prelude.{
  ℕ, zero, suc, ◌+◌, ◌-◌, ◌*◌, ◌/◌, ◌%◌, ◌<◌, ◌≡◌, ◌∙◌, refl, ap, Bool, true, false, ◌&&◌, Option,
  none, some, [], ◌∷◌, Text, leb, ltb, ◌==◌, if◌then◌else◌, All, arith, strip, strip-NoSpace,
  NoSpace, is_space, ◌≢◌, Bool-cases, inl, inr,
}

abbrev pub is_digit : ℕ → Bool
is_digit c = leb b'0' c && leb c b'9'

-- The digits of `n` before `rest`; `n + 1` rounds are enough.
digits_before : ℕ → ℕ → Text → Text
digits_before zero n rest = rest
digits_before (suc f) n rest =
    let more = digits_before f (n / 10) ((48 + n % 10) ∷ rest) in
    if ltb n 10 then (48 + n) ∷ rest else more

-- `str(n)`
unfoldable pub decimal : ℕ → Text
unfolding digits_before
decimal n = digits_before (suc n) n []

-- What follows in a numeral of value `acc`, the last character of which was a digit or not.
int_digits : Bool → ℕ → Text → Option ℕ
int_digits seen acc [] = if seen then some acc else none
int_digits seen acc (c ∷ s) =
    let more = int_digits true (10 * acc + (c - 48)) s in
    let skip = int_digits false acc s in
    if is_digit c then more else if c == b'_' && seen then skip else none

pub data Signed : Type 0 where
  positive : ℕ → Signed
  negative : ℕ → Signed

abbrev with_sign : (ℕ → Signed) → Option ℕ → Option Signed
with_sign f none = none
with_sign f (some n) = some (f n)

signed_int : Text → Option Signed
unfolding int_digits
signed_int [] = none
signed_int (c ∷ s) =
    if c == b'-'
    then with_sign negative (int_digits false 0 s)
    else if c == b'+'
    then with_sign positive (int_digits false 0 s)
    else with_sign positive (int_digits false 0 (c ∷ s))

-- `int(s)`, where `none` is a ValueError.
unfoldable pub int_of : Text → Option Signed
unfolding signed_int
int_of s = signed_int (strip s)

int_digits-digit :
    (d acc : ℕ) (seen : Bool) (s : Text)
    → d < 10
    → int_digits seen acc ((48 + d) ∷ s) ≡ int_digits true (10 * acc + d) s
unfolding int_digits
int_digits-digit d acc seen s h =
    let digit : is_digit (48 + d) ≡ true = ground arith in
    let value : 48 + d - 48 ≡ d = omega arith in rw (digit, value) refl

int_digits-digits_before :
    (f n : ℕ) (seen : Bool) (rest : Text)
    → n < f
    → int_digits seen 0 (digits_before f n rest) ≡ int_digits true n rest
unfolding digits_before
int_digits-digits_before zero n seen rest h = absurd (omega arith)
int_digits-digits_before (suc f) n seen rest h = elim (Bool-cases (ltb n 10)) [
  | inl small ↦
      let value : 10 * 0 + n ≡ n = omega arith in
      rw small
        (int_digits-digit n 0 seen rest (ground arith) ∙ ap (λ v. int_digits true v rest) value)
  | inr big ↦
      let value : 10 * (n / 10) + n % 10 ≡ n = omega arith in
      rw big (
        int_digits-digits_before f (n / 10) seen ((48 + n % 10) ∷ rest) (ground arith)
        ∙ int_digits-digit (n % 10) (n / 10) true rest (omega arith)
        ∙ ap (λ v. int_digits true v rest) value)
]

-- Every character is a digit, and there is one.
abbrev Digits : Text → Type 0
Digits s = All (λ c. is_digit c ≡ true) s

digits_before-Digits : (f n : ℕ) (rest : Text) → Digits rest → Digits (digits_before f n rest)
unfolding digits_before
digits_before-Digits zero n rest h = h
digits_before-Digits (suc f) n rest h = elim (Bool-cases (ltb n 10)) [
  | inl small ↦ rw small (ground arith, h)
  | inr big ↦ rw big (digits_before-Digits f (n / 10) ((48 + n % 10) ∷ rest) (ground arith, h))
]

Digits-NoSpace : (s : Text) → Digits s → NoSpace s
unfolding is_space
Digits-NoSpace [] h = tt
Digits-NoSpace (c ∷ s) h = (ground (arith, h.0), Digits-NoSpace s h.1)

signed_int-Digits :
    (s : Text) → Digits s → s ≢ [] → signed_int s ≡ with_sign positive (int_digits false 0 s)
unfolding signed_int
signed_int-Digits [] h filled = absurd (filled refl)
signed_int-Digits (c ∷ s) h filled =
    let no_minus : (c == b'-') ≡ false = ground (arith, h.0) in
    let no_plus : (c == b'+') ≡ false = ground (arith, h.0) in rw (no_minus, no_plus) refl

digits_before_filled : (f n c : ℕ) (rest : Text) → digits_before f n (c ∷ rest) ≢ []
unfolding digits_before
digits_before_filled zero n c rest = λ e. cc
digits_before_filled (suc f) n c rest = elim (Bool-cases (ltb n 10)) [
  | inl small ↦ rw small (λ e. cc)
  | inr big ↦ rw big (digits_before_filled f (n / 10) (48 + n % 10) (c ∷ rest))
]

decimal_filled : (n : ℕ) → decimal n ≢ []
unfolding decimal digits_before
decimal_filled n = elim (Bool-cases (ltb n 10)) [
  | inl small ↦ rw small (λ e. cc)
  | inr big ↦ rw big (digits_before_filled n (n / 10) (48 + n % 10) [])
]

pub decimal-Digits : (n : ℕ) → All (λ c. is_digit c ≡ true) (decimal n)
unfolding decimal
decimal-Digits n = digits_before-Digits (suc n) n [] tt

int_digits-decimal : (n : ℕ) → int_digits false 0 (decimal n) ≡ some n
unfolding decimal int_digits
int_digits-decimal n = int_digits-digits_before (suc n) n false [] (omega arith)

signed_int-decimal : (n : ℕ) → signed_int (decimal n) ≡ some (positive n)
signed_int-decimal n =
    signed_int-Digits (decimal n) (decimal-Digits n) (decimal_filled n)
    ∙ ap (with_sign positive) (int_digits-decimal n)

-- `int` reads what `str` writes.
pub int_of-decimal : (n : ℕ) → int_of (decimal n) ≡ some (positive n)
unfolding int_of
int_of-decimal n =
    ap signed_int (strip-NoSpace (decimal n) (Digits-NoSpace (decimal n) (decimal-Digits n)))
    ∙ signed_int-decimal n
