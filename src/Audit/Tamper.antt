-- ===== src/Audit/Tamper.antt =====
-- What the last hash of a chain says about the whole chain, and what it does not.
use Prim.Native.Char.{code}
use Prim.Native.String.{◌++◌ as str_append}
use text.Mathlib.TextLemmas.{
  nil-append, cons-append, append_assoc, append_cancel_left, head-eq_of_cons-eq, tail-eq_of_cons-eq,
}
use mathlib.Core.Path.{subst}
use cau_sium.Prelude.{
  ℕ, String, ◌≡◌, ◌≢◌, refl, sym, ap, List, [], ◌∷◌, map, length, arith, ◌∙◌, Option,
}
use cau_sium.Audit.{
  AuditEvent, Runtime, Payload, genesis_hash, hash_base, build_hash, expected_hash,
}
use cau_sium.Audit.Links.{head_hash, Linked}

-- A text without the separator.
abbrev pub NoBar : String → Type 0
NoBar String.[] = Unit
NoBar (String.◌∷◌ c s) = (code c ≢ b'|') × NoBar s

-- The part before the first bar, and the rest, can be read off.
split_at_bar :
    (s t u v : String)
    → NoBar s
    → NoBar t
    → str_append s (str_append "|" u) ≡ str_append t (str_append "|" v)
    → (s ≡ t) × (u ≡ v)
split_at_bar String.[] String.[] u v hs ht e =
    (refl, append_cancel_left "|" u v (sym (nil-append _) ∙ e ∙ nil-append _))
split_at_bar String.[] (String.◌∷◌ c t) u v hs ht e =
    let first = sym (cons-append "|" "" u) ∙ sym (nil-append _) ∙ e ∙ cons-append c t _ in
    absurd (ht.0 (ap code (sym (head-eq_of_cons-eq first))))
split_at_bar (String.◌∷◌ c s) String.[] u v hs ht e =
    let first = sym (cons-append "|" "" v) ∙ sym (nil-append _) ∙ sym e ∙ cons-append c s _ in
    absurd (hs.0 (ap code (sym (head-eq_of_cons-eq first))))
split_at_bar (String.◌∷◌ c s) (String.◌∷◌ d t) u v hs ht e =
    let heads = sym (cons-append c s _) ∙ e ∙ cons-append d t _ in
    let rest = split_at_bar s t u v hs.1 ht.1 (tail-eq_of_cons-eq heads) in
    (λ i. String.◌∷◌ (head-eq_of_cons-eq heads i) (rest.0 i), rest.1)

-- The text that an event's hash is made of, by the fields of its own row.
abbrev pub hashed_text : Runtime → AuditEvent → String
hashed_text R e =
    hash_base R e.prev_hash e.org_id e.actor_user_id e.event_type e.entity_type e.entity_id
      e.payload e.created_at

module _ (R : Runtime) (hexadecimal : (s : String) → NoBar (R.sha256_hex s))
    (collision_free : (s t : String) → R.sha256_hex s ≡ R.sha256_hex t → s ≡ t) where
  same_text :
      (p q : String) (x y : AuditEvent)
      → NoBar p
      → NoBar q
      → x.prev_hash ≡ p
      → y.prev_hash ≡ q
      → expected_hash R p x ≡ expected_hash R q y
      → (p ≡ q) × (hashed_text R x ≡ hashed_text R y)
  unfolding build_hash hash_base
  same_text p q x y hp hq xp yq e =
      let texts = collision_free _ _ e in ((split_at_bar p q _ _ hp hq texts).0, rw (xp, yq) texts)

  pinned :
      (p q : String) (xs ys : List AuditEvent)
      → NoBar p
      → NoBar q
      → Linked R p xs
      → Linked R q ys
      → length xs ≡ length ys
      → head_hash p xs ≡ head_hash q ys
      → (p ≡ q) × (map (hashed_text R) xs ≡ map (hashed_text R) ys)
  unfolding build_hash
  pinned p q [] [] hp hq lx ly n h = (h, refl)
  pinned p q [] (y ∷ ys) hp hq lx ly n h = absurd (omega arith)
  pinned p q (x ∷ xs) [] hp hq lx ly n h = absurd (omega arith)
  pinned p q (x ∷ xs) (y ∷ ys) hp hq lx ly n h =
      let below =
        pinned x.event_hash y.event_hash xs ys (subst NoBar (sym lx.1) (hexadecimal _))
          (subst NoBar (sym ly.1) (hexadecimal _)) lx.2 ly.2 (omega arith) h in
      let here = same_text p q x y hp hq lx.0 ly.0 (sym lx.1 ∙ below.0 ∙ ly.1) in
      (here.0, λ i. here.1 i ∷ below.1 i)

  genesis_NoBar : NoBar genesis_hash
  genesis_NoBar = omega arith

  -- With a hash that holds no bar and is free of collisions, two chains that are linked from the
  -- genesis hash, of the same length and with the same last hash, have hashed the same texts from
  -- first to last, where the text of an event is its fields joined by bars. Their events may differ
  -- where these texts do not: in ids, which are not hashed, or in where a bar falls.
  pub last_hash_pins_chain :
      (xs ys : List AuditEvent)
      → Linked R genesis_hash xs
      → Linked R genesis_hash ys
      → length xs ≡ length ys
      → head_hash genesis_hash xs ≡ head_hash genesis_hash ys
      → map (hashed_text R) xs ≡ map (hashed_text R) ys
  last_hash_pins_chain xs ys lx ly n h =
      (pinned genesis_hash genesis_hash xs ys genesis_NoBar genesis_NoBar lx ly n h).1

-- The fields are joined by bars that the fields may hold themselves: text can be moved over the
-- bar between the event type and the entity type with the same hash.
pub build_hash_ambiguous :
    (R : Runtime) (prev : String) (org_id : ℕ) (actor : Option ℕ) (s t u entity_id : String)
    (payload : Payload) (created_at : ℕ)
    → build_hash R prev org_id actor
        (str_append s (str_append "|" t))
        u
        entity_id
        payload
        created_at
      ≡ build_hash R prev org_id actor s
          (str_append t (str_append "|" u))
          entity_id
          payload
          created_at
unfolding build_hash hash_base
build_hash_ambiguous R prev org_id actor s t u entity_id payload created_at =
    ap R.sha256_hex (simp append_assoc)
