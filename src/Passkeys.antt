-- ===== src/Passkeys.antt =====
-- The attestation object of a passkey: `_read_cbor` and `_parse_attestation_object` of
-- backend/app/domains/auth/service.py. Bytes are numbers below 256. A slice that reaches past the end
-- is cut off there, and the offset moves on all the same. The fuel is Python's recursion limit.
pub mod Depth
mod Tests
use cau_sium.Prelude.{
  ℕ, zero, suc, ◌+◌, ◌*◌, ◌/◌, ◌%◌, Bool, true, false, ◌&&◌, ◌||◌, Option, none, some, List, [],
  ◌∷◌, Text, take, drop, length, ◌==◌, ltb, leb, text_eq, if◌then◌else◌, Result, ok, err,
  value_error, raised,
}
use cau_sium.Prelude.Decimals.{Signed, positive, negative}

mutual
  pub data Cbor : Type 0 where
    integer : Signed → Cbor
    bytes : List ℕ → Cbor
    text : Text → Cbor
    flag : Bool → Cbor
    null : Cbor
    array : Items → Cbor
    object : Entries → Cbor

  pub data Items : Type 0 where
    nil : Items
    cons : Cbor → Items → Items

  -- A dict, in the order of insertion.
  pub data Entries : Type 0 where
    end : Entries
    entry : Cbor → Cbor → Entries → Entries

-- What a call returns, with the offset behind it.
abbrev pub Read : Type 0 → Type 0
Read A = Result (A × ℕ)

abbrev pub next : {A B : Type 0} → Read A → (A → ℕ → Read B) → Read B
next (ok (a, offset)) k = k a offset
next (err e) k = err e

abbrev pub byte_at : ℕ → List ℕ → Option ℕ
byte_at n [] = none
byte_at zero (b ∷ bs) = some b
byte_at (suc n) (b ∷ bs) = byte_at n bs

-- `int.from_bytes(…, "big")`
abbrev pub from_bytes : ℕ → List ℕ → ℕ
from_bytes acc [] = acc
from_bytes acc (b ∷ bs) = from_bytes (256 * acc + b) bs

abbrev pub slice : List ℕ → ℕ → ℕ → List ℕ
slice raw offset n = take n (drop offset raw)

abbrev pub one_byte : ℕ → Option ℕ → Read ℕ
one_byte offset none = err (raised "IndexError")
one_byte offset (some v) = ok (v, offset + 1)

unfoldable pub read_len : List ℕ → ℕ → ℕ → Read ℕ
read_len raw offset additional =
    if ltb additional 24
    then ok (additional, offset)
    else if additional == 24
    then one_byte offset (byte_at offset raw)
    else if additional == 25
    then ok (from_bytes 0 (slice raw offset 2), offset + 2)
    else if additional == 26
    then ok (from_bytes 0 (slice raw offset 4), offset + 4)
    else if additional == 27
    then ok (from_bytes 0 (slice raw offset 8), offset + 8)
    else err (value_error "Unsupported CBOR additional info")

-- The number that a key is equal to: True is 1 and False is 0.
abbrev key_number : Cbor → Option Signed
key_number (integer n) = some n
key_number (flag b) = some (positive (if b then 1 else 0))
key_number _ = none

abbrev same_number : Option Signed → Option Signed → Bool
same_number (some (positive m)) (some (positive n)) = m == n
same_number (some (negative m)) (some (negative n)) = m == n
same_number _ _ = false

abbrev same_text : Cbor → Cbor → Bool
same_text (text s) (text t) = text_eq s t
same_text (bytes s) (bytes t) = text_eq s t
same_text null null = true
same_text _ _ = false

abbrev pub same_key : Cbor → Cbor → Bool
same_key k l = same_number (key_number k) (key_number l) || same_text k l

-- `obj[k] = v` for a key that has a hash.
abbrev pub put : Cbor → Cbor → Entries → Entries
put k v end = entry k v end
put k v (entry l w rest) = if same_key l k then entry l v rest else entry l w (put k v rest)

abbrev pub set_item : Cbor → Cbor → Entries → Result Entries
set_item (array xs) v obj = err (raised "TypeError")
set_item (object fs) v obj = err (raised "TypeError")
set_item k v obj = ok (put k v obj)

abbrev pub at_offset : ℕ → Result Entries → Read Entries
at_offset offset (ok obj) = ok (obj, offset)
at_offset offset (err e) = err e

-- The loops over the elements of a list and the entries of a dict.
unfoldable pub read_items : (ℕ → Read Cbor) → ℕ → ℕ → Read Items
read_items read zero offset = ok (nil, offset)
read_items read (suc n) offset =
    next (read offset) (λ item o. next (read_items read n o) (λ items o'. ok (cons item items, o')))

unfoldable pub read_entries : (ℕ → Read Cbor) → ℕ → Entries → ℕ → Read Entries
read_entries read zero obj offset = ok (obj, offset)
read_entries read (suc n) obj offset = next (read offset) (λ k o.
    next (read o)
      (λ v o'. next (at_offset o' (set_item k v obj)) (λ obj' o''. read_entries read n obj' o'')))

-- `bytes.decode("utf-8")`; a UnicodeDecodeError is a ValueError.
module _ (utf8 : List ℕ → Option Text) where
  abbrev pub decoded : ℕ → Option Text → Read Cbor
  decoded offset none = err (value_error "UnicodeDecodeError")
  decoded offset (some s) = ok (text s, offset)

  -- What stands behind a head of the major types 0 to 5.
  unfoldable pub read_payload : (ℕ → Read Cbor) → List ℕ → ℕ → ℕ → ℕ → Read Cbor
  unfolding read_items read_entries
  read_payload read raw major ln offset =
      if major == 0
      then ok (integer (positive ln), offset)
      else if major == 1
      then ok (integer (negative (suc ln)), offset)
      else if major == 2
      then ok (bytes (slice raw offset ln), offset + ln)
      else if major == 3
      then decoded (offset + ln) (utf8 (slice raw offset ln))
      else if major == 4
      then next (read_items read ln offset) (λ items o. ok (array items, o))
      else next (read_entries read ln end offset) (λ obj o. ok (object obj, o))

  abbrev pub read_simple : ℕ → ℕ → ℕ → Read Cbor
  read_simple major addl offset =
      if major == 7 && addl == 20
      then ok (flag false, offset)
      else if major == 7 && addl == 21
      then ok (flag true, offset)
      else if major == 7 && addl == 22
      then ok (null, offset)
      else err (value_error "Unsupported CBOR type in attestation object")

  abbrev pub read_initial : (ℕ → Read Cbor) → List ℕ → ℕ → Option ℕ → Read Cbor
  read_initial read raw offset none = err (value_error "Malformed CBOR attestation object")
  read_initial read raw offset (some initial) =
      if leb (initial / 32) 5
      then next (read_len raw offset (initial % 32))
          (λ ln o. read_payload read raw (initial / 32) ln o)
      else read_simple (initial / 32) (initial % 32) offset

  unfoldable pub read_cbor : ℕ → List ℕ → ℕ → Read Cbor
  unfolding read_len read_payload
  read_cbor zero raw offset = err (raised "RecursionError")
  read_cbor (suc limit) raw offset =
      read_initial (read_cbor limit raw) raw (offset + 1) (byte_at offset raw)

  abbrev pub whole : List ℕ → Read Cbor → Result Entries
  whole raw (err e) = err e
  whole raw (ok (v, offset)) =
      if offset == length raw
      then as_object v
      else err (value_error "Invalid trailing bytes in attestation object")
    where
      as_object : Cbor → Result Entries
      as_object (object obj) = ok obj
      as_object _ = err (value_error "Invalid attestation object payload")

  -- On the bytes that the text is decoded to.
  unfoldable pub parse_attestation_object : ℕ → List ℕ → Result Entries
  unfolding read_cbor
  parse_attestation_object limit raw = whole raw (read_cbor limit raw 0)
