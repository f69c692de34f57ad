-- ===== src/Passkeys/Depth.antt =====
-- The reader stays within Python's recursion limit: `_read_cbor` of
-- backend/app/domains/auth/service.py.
use cau_sium.Prelude.{
  ℕ, zero, suc, ◌+◌, ◌-◌, ◌/◌, ◌%◌, ◌≤◌, ◌<◌, ◌≡◌, ◌≢◌, refl, ◌⊎◌, inl, inr, Bool, true, false,
  Option, none, some, List, [], ◌∷◌, Text, String, length, ◌&&◌, ◌==◌, ltb, if◌then◌else◌,
  Bool-cases, ok, err, Failure, value_error, raised, arith,
}
use cau_sium.Passkeys.{
  Cbor, integer, bytes, text, flag, null, array, object, Entries, end, Read, next, byte_at,
  read_len, set_item, at_offset, read_items, read_entries, decoded, read_payload, read_simple,
  read_initial, read_cbor, slice, one_byte,
}

-- A call that returns has not moved back, and one that raises has not met the recursion limit.
abbrev Fine : {A : Type 0} → ℕ → Read A → Type 0
Fine offset (ok (a, behind)) = offset ≤ behind
Fine offset (err e) = e ≢ raised "RecursionError"

Fine-if :
    {A : Type 0} (offset : ℕ) (b : Bool) (r r' : Read A)
    → Fine offset r
    → Fine offset r'
    → Fine offset (if b then r else r')
Fine-if offset true r r' h h' = h
Fine-if offset false r r' h h' = h'

further : {B : Type 0} (offset o : ℕ) (r : Read B) → offset ≤ o → Fine o r → Fine offset r
further offset o (ok (b, behind)) h h' = omega (arith, h, h')
further offset o (err e) h h' = h'

Fine-next :
    {A B : Type 0} (offset : ℕ) (r : Read A) (k : A → ℕ → Read B)
    → Fine offset r
    → ((a : A) (o : ℕ) → offset ≤ o → Fine o (k a o))
    → Fine offset (next r k)
Fine-next offset (err e) k h later = h
Fine-next offset (ok (a, o)) k h later = further offset o (k a o) h (later a o h)

other_error : (message : String) → value_error message ≢ raised "RecursionError"
other_error message = λ e. cc e

Fine-byte : (offset : ℕ) (b : Option ℕ) → Fine offset (one_byte offset b)
Fine-byte offset none = λ e. cc e
Fine-byte offset (some v) = omega arith

Fine-len : (raw : List ℕ) (offset additional : ℕ) → Fine offset (read_len raw offset additional)
unfolding read_len
Fine-len raw offset additional = elim (Bool-cases (ltb additional 24)) [
  | inl y1 ↦ rw y1 (omega arith)
  | inr n1 ↦ elim (Bool-cases (additional == 24)) [
    | inl y2 ↦ rw (n1, y2) (Fine-byte offset (byte_at offset raw))
    | inr n2 ↦ elim (Bool-cases (additional == 25)) [
      | inl y3 ↦ rw (n1, n2, y3) (omega arith)
      | inr n3 ↦ elim (Bool-cases (additional == 26)) [
        | inl y4 ↦ rw (n1, n2, n3, y4) (omega arith)
        | inr n4 ↦ elim (Bool-cases (additional == 27)) [
          | inl y5 ↦ rw (n1, n2, n3, n4, y5) (omega arith)
          | inr n5 ↦ rw (n1, n2, n3, n4, n5) (other_error "Unsupported CBOR additional info")
        ]
      ]
    ]
  ]
]

-- Every read from an offset on is fine.
abbrev Reads : (ℕ → Read Cbor) → ℕ → Type 0
Reads read offset = (o : ℕ) → offset ≤ o → Fine o (read o)

Fine-items :
    (read : ℕ → Read Cbor) (n offset : ℕ)
    → Reads read offset
    → Fine offset (read_items read n offset)
unfolding read_items
Fine-items read zero offset h = omega arith
Fine-items read (suc n) offset h =
    Fine-next offset (read offset) _ (h offset (omega arith)) (λ item o later.
      Fine-next o (read_items read n o) _
        (Fine-items read n o (λ p behind. h p (omega (arith, later, behind))))
        (λ items o' further. omega arith))

Fine-set : (o : ℕ) (k v : Cbor) (obj : Entries) → Fine o (at_offset o (set_item k v obj))
Fine-set o (integer n) v obj = omega arith
Fine-set o (bytes s) v obj = omega arith
Fine-set o (text s) v obj = omega arith
Fine-set o (flag b) v obj = omega arith
Fine-set o null v obj = omega arith
Fine-set o (array xs) v obj = λ e. cc e
Fine-set o (object fs) v obj = λ e. cc e

Fine-entries :
    (read : ℕ → Read Cbor) (n : ℕ) (obj : Entries) (offset : ℕ)
    → Reads read offset
    → Fine offset (read_entries read n obj offset)
unfolding read_entries
Fine-entries read zero obj offset h = omega arith
Fine-entries read (suc n) obj offset h =
    Fine-next offset (read offset) _ (h offset (omega arith)) (λ k o later.
      Fine-next o (read o) _ (h o later) (λ v o' later'.
        Fine-next o' (at_offset o' (set_item k v obj)) _ (Fine-set o' k v obj) (λ obj' o'' later''.
          Fine-entries read n obj' o''
            (λ p behind. h p (omega (arith, later, later', later'', behind))))))

module _ (utf8 : List ℕ → Option Text) where
  Fine-text : (offset ln : ℕ) (s : Option Text) → Fine offset (decoded utf8 (offset + ln) s)
  Fine-text offset ln none = other_error _
  Fine-text offset ln (some s) = omega arith

  Fine-payload :
      (read : ℕ → Read Cbor) (raw : List ℕ) (major ln offset : ℕ)
      → Reads read offset
      → Fine offset (read_payload utf8 read raw major ln offset)
  unfolding read_payload
  Fine-payload read raw major ln offset h = elim (Bool-cases (major == 0)) [
    | inl y1 ↦ rw y1 (omega arith)
    | inr n1 ↦ elim (Bool-cases (major == 1)) [
      | inl y2 ↦ rw (n1, y2) (omega arith)
      | inr n2 ↦ elim (Bool-cases (major == 2)) [
        | inl y3 ↦ rw (n1, n2, y3) (omega arith)
        | inr n3 ↦ elim (Bool-cases (major == 3)) [
          | inl y4 ↦ rw (n1, n2, n3, y4) (Fine-text offset ln (utf8 (slice raw offset ln)))
          | inr n4 ↦ elim (Bool-cases (major == 4)) [
            | inl y5 ↦
                rw (n1, n2, n3, n4, y5)
                  (Fine-next offset (read_items read ln offset) (λ items o. ok (array items, o))
                    (Fine-items read ln offset h) (λ items o later. omega arith))
            | inr n5 ↦
                rw (n1, n2, n3, n4, n5)
                  (Fine-next offset (read_entries read ln end offset) (λ obj o. ok (object obj, o))
                    (Fine-entries read ln end offset h) (λ obj o later. omega arith))
          ]
        ]
      ]
    ]
  ]

  Fine-simple : (major addl offset : ℕ) → Fine offset (read_simple utf8 major addl offset)
  Fine-simple major addl offset = elim (Bool-cases (major == 7 && addl == 20)) [
    | inl y1 ↦ rw y1 (omega arith)
    | inr n1 ↦ elim (Bool-cases (major == 7 && addl == 21)) [
      | inl y2 ↦ rw (n1, y2) (omega arith)
      | inr n2 ↦ elim (Bool-cases (major == 7 && addl == 22)) [
        | inl y3 ↦ rw (n1, n2, y3) (omega arith)
        | inr n3 ↦ rw (n1, n2, n3) (other_error "Unsupported CBOR type in attestation object")
      ]
    ]
  ]

  Fine-initial :
      (read : ℕ → Read Cbor) (raw : List ℕ) (offset : ℕ) (b : Option ℕ)
      → ((initial : ℕ) → b ≡ some initial → Reads read offset)
      → Fine offset (read_initial utf8 read raw offset b)
  Fine-initial read raw offset none h = other_error _
  Fine-initial read raw offset (some initial) h =
      Fine-if offset _ _ _
        (Fine-next offset (read_len raw offset (initial % 32)) _
          (Fine-len raw offset (initial % 32))
          (λ ln o later.
            Fine-payload read raw (initial / 32) ln o
              (λ p behind. h initial refl p (omega (arith, later, behind)))))
        (Fine-simple (initial / 32) (initial % 32) offset)

  byte_within :
      (offset : ℕ) (raw : List ℕ) {b : ℕ} → byte_at offset raw ≡ some b → offset < length raw
  byte_within n [] h = absurd (cc h)
  byte_within zero (b ∷ bs) h = omega arith
  byte_within (suc n) (b ∷ bs) {b = c} h = omega (arith, byte_within n bs {b = c} h)

  Fine-read :
      (limit : ℕ) (raw : List ℕ) (offset : ℕ)
      → length raw - offset < limit
      → Fine (offset + 1) (read_cbor utf8 limit raw offset)
  unfolding read_cbor
  Fine-read zero raw offset enough = absurd (omega (arith, enough))
  Fine-read (suc limit) raw offset enough =
      Fine-initial (read_cbor utf8 limit raw) raw (offset + 1) (byte_at offset raw)
        (λ initial there p behind.
          let inside = byte_within offset raw {b = initial} there in
          further p (p + 1) (read_cbor utf8 limit raw p) (omega arith)
            (Fine-read limit raw p (omega (arith, enough, inside, behind))))

  -- What a fine call comes to.
  abbrev pub Ends : ℕ → Read Cbor → Type 0
  Ends offset r =
      ((v : Cbor) × ((behind : ℕ) × ((r ≡ ok (v, behind)) × (offset < behind))))
      ⊎ ((e : Failure) × ((r ≡ err e) × (e ≢ raised "RecursionError")))

  Fine-Ends : (offset : ℕ) (r : Read Cbor) → Fine (offset + 1) r → Ends offset r
  Fine-Ends offset (ok (v, behind)) h = inl (v, (behind, (refl, omega (arith, h))))
  Fine-Ends offset (err e) h = inr (e, (refl, h))

  -- Under a recursion limit that exceeds the number of bytes from the offset on, the reader returns
  -- with an offset that has moved on, or raises an exception other than RecursionError.
  pub read_cbor-Ends :
      (limit : ℕ) (raw : List ℕ) (offset : ℕ)
      → length raw - offset < limit
      → Ends offset (read_cbor utf8 limit raw offset)
  read_cbor-Ends limit raw offset enough =
      Fine-Ends offset (read_cbor utf8 limit raw offset) (Fine-read limit raw offset enough)
