-- ===== src/Passkeys/Tests.antt =====
-- Runs of `_read_cbor` of backend/app/domains/auth/service.py on a few bytes.
use cau_sium.Prelude.{ℕ, ◌≡◌, refl, Option, some, List, [], ◌∷◌, Text, ok, err, raised, arith}
use cau_sium.Prelude.Decimals.{positive, negative}
use cau_sium.Passkeys.{
  integer, bytes, text, array, nil, cons, end, entry, read_cbor, parse_attestation_object,
}
use cau_sium.Passkeys.Depth.{Ends, read_cbor-Ends}

abbrev ascii : List ℕ → Option Text
ascii bs = some bs

-- {"a": [1, -2]}
abbrev small_object : List ℕ
small_object = 161 ∷ 97 ∷ 97 ∷ 130 ∷ 1 ∷ 33 ∷ []

small_object_read :
    parse_attestation_object ascii 10 small_object
    ≡ ok (
        entry
          (text (97 ∷ []))
          (array (cons (integer (positive 1)) (cons (integer (negative 2)) nil)))
          end)
unfolding parse_attestation_object
small_object_read = refl

-- A key True replaces the value of the key 1.
true_is_one :
    parse_attestation_object ascii 10 (162 ∷ 1 ∷ 2 ∷ 245 ∷ 3 ∷ [])
    ≡ ok (entry (integer (positive 1)) (integer (positive 3)) end)
unfolding parse_attestation_object
true_is_one = refl

-- A head that announces one more byte, at the end.
cut_off : read_cbor ascii 10 (24 ∷ []) 0 ≡ err (raised "IndexError")
unfolding read_cbor
cut_off = refl

list_as_key : read_cbor ascii 10 (161 ∷ 128 ∷ 1 ∷ []) 0 ≡ err (raised "TypeError")
unfolding read_cbor
list_as_key = refl

-- Two bytes are announced, none is there: the offset moves past the end.
short_bytes : read_cbor ascii 10 (66 ∷ []) 0 ≡ ok (bytes [], 3)
unfolding read_cbor
short_bytes = refl

too_deep : read_cbor ascii 2 (129 ∷ 129 ∷ 1 ∷ []) 0 ≡ err (raised "RecursionError")
unfolding read_cbor
too_deep = refl

read_cbor-Ends_example : Ends ascii 0 (read_cbor ascii 7 small_object 0)
read_cbor-Ends_example = read_cbor-Ends ascii 7 small_object 0 (omega arith)
