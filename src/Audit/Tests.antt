-- ===== src/Audit/Tests.antt =====
-- Runs of the audit chain, and its theorems at concrete stores. The stand-in for SHA-256 doubles
-- every character and writes a bar as two different ones, so it is injective and free of bars.
use Prim.Native.Char.{Char, code}
use text.Mathlib.TextLemmas.{nil≢cons, head-eq_of_cons-eq, tail-eq_of_cons-eq}
use text.Mathlib.TextEquality.{Char-path}
use cau_sium.Prelude.{
  str_eq_iff, ℕ, ◌↔◌, String, ◌≡◌, ◌≢◌, refl, sym, ap, Bool, true, false, none, List, [], ◌∷◌, map,
  arith, if◌then◌else◌, ◌==◌, Bool-cases, inl, inr,
}
use cau_sium.Audit.{
  AuditStore, AuditCall, Stamp, Runtime, null, genesis_hash, chain_of, append_event, verify_chain,
  latest_for_org, build_hash, hash_base, new_event, insert_row,
}
use cau_sium.Audit.Links.{Linked, verify_chain_iff}
use cau_sium.Audit.Append.{run_calls, run_calls-verifies}
use cau_sium.Audit.Race.{append_both, append_both_breaks}
use cau_sium.Audit.Tamper.{NoBar, hashed_text, last_hash_pins_chain, build_hash_ambiguous}
use Prim.Native.String.{◌++◌ as str_append}

toy_hash : String → String
toy_hash String.[] = ""
toy_hash (String.◌∷◌ c s) =
    if code c == b'|'
    then String.◌∷◌ "a" (String.◌∷◌ "b" (toy_hash s))
    else String.◌∷◌ c (String.◌∷◌ c (toy_hash s))

toy_hash-NoBar : (s : String) → NoBar (toy_hash s)
unfolding toy_hash
toy_hash-NoBar String.[] = tt
toy_hash-NoBar (String.◌∷◌ c s) = elim (Bool-cases (code c == b'|')) [
  | inl bar ↦ rw bar (omega arith, (omega arith, toy_hash-NoBar s))
  | inr plain ↦ rw plain (ground arith, (ground arith, toy_hash-NoBar s))
]

abbrev env : Runtime
env = record {
  str_uuid = λ n. if n == 0 then "u0" else "u1";
  isoformat = λ n. "t";
  dumps = λ p. "{}";
  sha256_hex = toy_hash;
  hmac_sha256_hex = λ k s. s;
  secret_key = "k";
}

abbrev call : AuditCall
call = record {
  org_id = 0;
  actor_user_id = none;
  event_type = "invite.revoked";
  entity_type = "workspace_invite";
  entity_id = "7";
  payload = null;
}

abbrev no_rows : AuditStore
no_rows = record { events = []; checkpoints = []; alerts = [] }

abbrev at_1 : Stamp
at_1 = record { now = 1; id = 10 }

abbrev at_2 : Stamp
at_2 = record { now = 2; id = 11 }

abbrev pair : Bool → Char → String → String
pair bar c s = if bar then String.◌∷◌ "a" (String.◌∷◌ "b" s) else String.◌∷◌ c (String.◌∷◌ c s)

second :
    {c c' d d' : Char} {s t : String}
    → ◌≡◌ {A = String} (String.◌∷◌ c (String.◌∷◌ c' s)) (String.◌∷◌ d (String.◌∷◌ d' t))
    → (code c ≡ code d) × (code c' ≡ code d') × (s ≡ t)
second e =
    let rest = tail-eq_of_cons-eq e in
    (ap code (head-eq_of_cons-eq e), ap code (head-eq_of_cons-eq rest), tail-eq_of_cons-eq rest)

-- The pair of characters written for one character determines it.
pair_injective :
    (b b' : Bool) (c d : Char) (s t : String)
    → (code c == b'|') ≡ b
    → (code d == b'|') ≡ b'
    → pair b c s ≡ pair b' d t
    → (c ≡ d) × (s ≡ t)
pair_injective true true c d s t hc hd e = (Char-path c d (ground arith), (second e).2)
pair_injective true false c d s t hc hd e = absurd (let k = second e in omega (arith, k.0, k.1))
pair_injective false true c d s t hc hd e = absurd (let k = second e in omega (arith, k.0, k.1))
pair_injective false false c d s t hc hd e = (head-eq_of_cons-eq e, (second e).2)

pair_not_empty : (b : Bool) (c : Char) (s : String) → ◌≢◌ {A = String} "" (pair b c s)
pair_not_empty true c s e = nil≢cons e
pair_not_empty false c s e = nil≢cons e

toy_hash-injective : (s t : String) → toy_hash s ≡ toy_hash t → s ≡ t
unfolding toy_hash
toy_hash-injective String.[] String.[] e = refl
toy_hash-injective String.[] (String.◌∷◌ d t) e =
    absurd (pair_not_empty (code d == b'|') d (toy_hash t) e)
toy_hash-injective (String.◌∷◌ c s) String.[] e =
    absurd (pair_not_empty (code c == b'|') c (toy_hash s) (sym e))
toy_hash-injective (String.◌∷◌ c s) (String.◌∷◌ d t) e =
    let both =
      pair_injective (code c == b'|') (code d == b'|') c d (toy_hash s) (toy_hash t) refl refl e in
    λ i. String.◌∷◌ (both.0 i) (toy_hash-injective s t both.1 i)

abbrev first_or_empty : List String → String
first_or_empty [] = ""
first_or_empty (s ∷ texts) = s

one_row : AuditStore
unfolding append_event
one_row = (append_event env no_rows at_1 call).0

one_row_verifies : (verify_chain env 0 one_row).is_valid ≡ true
unfolding one_row verify_chain append_event chain_of toy_hash latest_for_org build_hash hash_base
one_row_verifies = refl

verifies_empty : (org_id : ℕ) → (verify_chain env org_id no_rows).is_valid ≡ true
unfolding verify_chain chain_of
verifies_empty org_id = refl

run_calls-verifies_example :
    (verify_chain env 0 (run_calls env no_rows ((at_1, call) ∷ (at_2, call) ∷ []))).is_valid ≡ true
run_calls-verifies_example =
    run_calls-verifies env no_rows 0 ((at_1, call) ∷ (at_2, call) ∷ []) tt (omega arith)
      verifies_empty 0

append_both_breaks_example :
    (verify_chain env 0 (append_both env no_rows at_1 call at_2 call)).is_valid ≡ false
unfolding new_event insert_row build_hash hash_base toy_hash latest_for_org
append_both_breaks_example =
    append_both_breaks env no_rows at_1 at_2 call call refl tt (omega arith)
      λ e. cc ((str_eq_iff _ _).1 e)

verify_chain_iff_example :
    ((verify_chain env 0 one_row).is_valid ≡ true) ↔ Linked env genesis_hash (chain_of 0 one_row)
verify_chain_iff_example = verify_chain_iff env 0 one_row

-- Two chains of two events whose first events differ, in their ids and by a bar that one holds in
-- its event type and the other in its entity type.
bar_early : AuditStore
unfolding append_event
bar_early =
    let s =
      (append_event env no_rows at_1 (record call { event_type = "a|b"; entity_type = "c" })).0 in
    (append_event env s at_2 call).0

bar_late : AuditStore
unfolding append_event
bar_late =
    let s =
      (append_event env no_rows (record at_1 { id = 20 })
        (record call { event_type = "a"; entity_type = "b|c" })).0 in
    (append_event env s at_2 call).0

bar_early_verifies : (verify_chain env 0 bar_early).is_valid ≡ true
unfolding bar_early verify_chain append_event chain_of toy_hash latest_for_org build_hash hash_base
bar_early_verifies = refl

bar_late_verifies : (verify_chain env 0 bar_late).is_valid ≡ true
unfolding bar_late verify_chain append_event chain_of toy_hash latest_for_org build_hash hash_base
bar_late_verifies = refl

bars_differ :
    map (λ e. e.entity_type) (chain_of 0 bar_early) ≢ map (λ e. e.entity_type) (chain_of 0 bar_late)
unfolding bar_early bar_late append_event chain_of
bars_differ e = cc ((str_eq_iff _ _).1 (ap first_or_empty e))

last_hash_pins_chain_example :
    map (hashed_text env) (chain_of 0 bar_early) ≡ map (hashed_text env) (chain_of 0 bar_late)
unfolding bar_early bar_late append_event chain_of toy_hash latest_for_org build_hash hash_base
last_hash_pins_chain_example =
    last_hash_pins_chain env toy_hash-NoBar toy_hash-injective (chain_of 0 bar_early)
      (chain_of 0 bar_late) ((verify_chain_iff env 0 bar_early).0 bar_early_verifies)
      ((verify_chain_iff env 0 bar_late).0 bar_late_verifies) refl refl

build_hash_ambiguous_example :
    build_hash env "p" 0 none (str_append "a" (str_append "|" "b")) "c" "7" null 1
    ≡ build_hash env "p" 0 none "a" (str_append "b" (str_append "|" "c")) "7" null 1
build_hash_ambiguous_example = build_hash_ambiguous env "p" 0 none "a" "b" "c" "7" null 1
