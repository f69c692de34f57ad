-- ===== src/Prelude/Floats.antt =====
-- IEEE 754 doubles by sign and bit pattern, with their exact order: among numbers of one sign the
-- patterns are ordered as the values are. There is no arithmetic here.
use cau_sium.Prelude.{ℕ, Bool, true, false, leb, ◌&&◌, ◌==◌, ◌≡◌, refl}

pub data Float : Type 0 where
  nan : Float
  minus : ℕ → Float
  plus : ℕ → Float

-- `a >= b`
unfoldable pub geb : Float → Float → Bool
geb (plus a) (plus b) = leb b a
geb (plus a) (minus b) = true
geb (minus a) (minus b) = leb a b
geb (minus a) (plus b) = a == 0 && b == 0
geb _ _ = false

-- The literals 0.0, 0.1, 0.2 and 0.7.
abbrev pub float_0 : Float
float_0 = plus 0

abbrev pub float_0_1 : Float
float_0_1 = plus 0x3fb999999999999a

abbrev pub float_0_2 : Float
float_0_2 = plus 0x3fc999999999999a

abbrev pub float_0_7 : Float
float_0_7 = plus 0x3fe6666666666666

zero_signs : geb (minus 0) (plus 0) ≡ true
unfolding geb
zero_signs = refl
