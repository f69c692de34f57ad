-- ===== src/Prelude/Texts.antt =====
-- Text as a list of code points, for what the program walks character by character. Case and
-- white space are those of ASCII.
use Prim.Native.Nat.{ℕ, ◌+◌}
use Prim.Native.Char.{code}
use Prim.Native.String.{String}
use mathlib.Core.Path.{◌≡◌, refl}
use mathlib.Core.Bool.{Bool, true, false, ◌&&◌, ◌||◌}
use mathlib.Core.List.{List, [], ◌∷◌, ◌++◌, map, reverse, reverse-cons, reverse-reverse}
use native.Mathlib.Omega.{arith}
use cau_sium.Prelude.Tests.{leb, ◌==◌, if◌then◌else◌}

abbrev pub Text : Type 0
Text = List ℕ

abbrev pub codes : String → Text
codes String.[] = []
codes (String.◌∷◌ c s) = code c ∷ codes s

abbrev pub text_eq : Text → Text → Bool
text_eq [] [] = true
text_eq (a ∷ s) (b ∷ t) = a == b && text_eq s t
text_eq _ _ = false

pub text_eq_refl : (s : Text) → text_eq s s ≡ true
text_eq_refl [] = refl
text_eq_refl (a ∷ s) = ground (arith, text_eq_refl s)

pub text_eq→eq : (s t : Text) → text_eq s t ≡ true → s ≡ t
text_eq→eq [] [] h = refl
text_eq→eq [] (b ∷ t) h = cc
text_eq→eq (a ∷ s) [] h = cc
text_eq→eq (a ∷ s) (b ∷ t) h = ground (arith, text_eq→eq s t)

-- `x in {…}` on texts.
abbrev pub text_in : Text → List Text → Bool
text_in s [] = false
text_in s (t ∷ ts) = text_eq s t || text_in s ts

lower_char : ℕ → ℕ
lower_char c = if leb b'A' c && leb c b'Z' then c + 32 else c

-- `str.lower`
unfoldable pub lower : Text → Text
unfolding lower_char
lower s = map lower_char s

-- Space, tab, line feed, vertical tab, form feed, carriage return, and the four separators.
unfoldable pub is_space : ℕ → Bool
is_space c = c == 32 || ((leb 9 c && leb c 13) || (leb 28 c && leb c 31))

lstrip : Text → Text
lstrip [] = []
lstrip (c ∷ s) = if is_space c then lstrip s else c ∷ s

-- `str.strip`
unfoldable pub strip : Text → Text
unfolding lstrip is_space
strip s = reverse (lstrip (reverse (lstrip s)))

-- Text without white space is its own strip.
abbrev pub NoSpace : Text → Type 0
NoSpace [] = Unit
NoSpace (c ∷ s) = (is_space c ≡ false) × NoSpace s

NoSpace-append : (s t : Text) → NoSpace s → NoSpace t → NoSpace (s ++ t)
NoSpace-append [] t h h' = h'
NoSpace-append (c ∷ s) t h h' = (h.0, NoSpace-append s t h.1 h')

NoSpace-reverse : (s : Text) → NoSpace s → NoSpace (reverse s)
NoSpace-reverse [] h = tt
NoSpace-reverse (c ∷ s) h =
    rw (reverse-cons c s) (NoSpace-append (reverse s) (c ∷ []) (NoSpace-reverse s h.1) (h.0, tt))

lstrip-NoSpace : (s : Text) → NoSpace s → lstrip s ≡ s
unfolding lstrip
lstrip-NoSpace [] h = refl
lstrip-NoSpace (c ∷ s) h = ground (arith, h.0)

pub strip-NoSpace : (s : Text) → NoSpace s → strip s ≡ s
unfolding strip
strip-NoSpace s h =
    rw (lstrip-NoSpace s h, lstrip-NoSpace (reverse s) (NoSpace-reverse s h)) (reverse-reverse s)

unfoldable pub is_prefix : Text → Text → Bool
is_prefix [] t = true
is_prefix (a ∷ s) [] = false
is_prefix (a ∷ s) (b ∷ t) = a == b && is_prefix s t

-- `needle in text`
unfoldable pub contains : Text → Text → Bool
unfolding is_prefix
contains [] s = true
contains (a ∷ s) [] = false
contains s (b ∷ t) = is_prefix s (b ∷ t) || contains s t

lower-strip : lower (strip (codes " High ")) ≡ codes "high"
unfolding lower strip
lower-strip = refl

contains_middle : contains (codes "deleted") (codes "cloud_account.deleted") ≡ true
unfolding contains
contains_middle = refl
