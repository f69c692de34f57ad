-- ===== src/Idempotency/Keys.antt =====
-- Scope keys: backend/app/core/idempotency.py, `build_scope_key`. The text of a UUID is a parameter.
use cau_sium.Prelude.{
  ℕ, ◌≡◌, ◌≢◌, refl, sym, ap, Option, none, some, [], ◌∷◌, ◌++◌, Text, codes, All, arith,
}
use mathlib.Core.List.{append_cancel_left}

-- `str(uuid)`: different for different UUIDs, without a colon, and longer than a dash.
pub record UuidText : Type 0 where
  pub str_uuid : ℕ → Text
  pub injective : (a b : ℕ) → str_uuid a ≡ str_uuid b → a ≡ b
  pub no_colon : (a : ℕ) → All (λ c. c ≢ b':') (str_uuid a)
  pub not_dash : (a : ℕ) → str_uuid a ≢ codes "-"

module _ (U : UuidText) where
  abbrev pub resource_part : Option ℕ → Text
  resource_part none = codes "-"
  resource_part (some id) = U.str_uuid id

  unfoldable pub build_scope_key : ℕ → ℕ → Text → Option ℕ → Text → Text
  build_scope_key org_id user_id operation resource_id key =
      codes "idemp:"
      ++ (U.str_uuid org_id
          ++ b':'
            ∷ (U.str_uuid user_id
                ++ b':' ∷ (operation ++ b':' ∷ (resource_part resource_id ++ b':' ∷ key))))

-- The part before the first colon, and the rest, can be read off.
split_at_colon :
    (s t u v : Text)
    → All (λ c. c ≢ b':') s
    → All (λ c. c ≢ b':') t
    → s ++ b':' ∷ u ≡ t ++ b':' ∷ v
    → (s ≡ t) × (u ≡ v)
split_at_colon [] [] u v hs ht e = (refl, cc)
split_at_colon [] (c ∷ t) u v hs ht e = absurd (ht.0 (cc))
split_at_colon (c ∷ s) [] u v hs ht e = absurd (hs.0 (cc))
split_at_colon (c ∷ s) (d ∷ t) u v hs ht e =
    let rest = split_at_colon s t u v hs.1 ht.1 (cc) in
    let heads : c ≡ d = cc in (λ i. heads i ∷ rest.0 i, rest.1)

module _ (U : UuidText) where
  resource_no_colon : (r : Option ℕ) → All (λ c. c ≢ b':') (resource_part U r)
  resource_no_colon none = omega arith
  resource_no_colon (some id) = U.no_colon id

  resource_part-injective : (r r' : Option ℕ) → resource_part U r ≡ resource_part U r' → r ≡ r'
  resource_part-injective none none e = refl
  resource_part-injective none (some b) e = absurd (U.not_dash b (sym e))
  resource_part-injective (some a) none e = absurd (U.not_dash a e)
  resource_part-injective (some a) (some b) e = ap some (U.injective a b e)

  -- Two requests, of operations whose names hold no colon, share a scope key only if they agree in
  -- workspace, user, operation, resource and Idempotency-Key, whatever characters the key holds.
  pub build_scope_key_injective :
      (org org' user user' : ℕ) (op op' : Text) (res res' : Option ℕ) (key key' : Text)
      → All (λ c. c ≢ b':') op
      → All (λ c. c ≢ b':') op'
      → build_scope_key U org user op res key ≡ build_scope_key U org' user' op' res' key'
      → (org ≡ org') × (user ≡ user') × (op ≡ op') × (res ≡ res') × (key ≡ key')
  unfolding build_scope_key
  build_scope_key_injective org org' user user' op op' res res' key key' h h' e =
      let a =
        split_at_colon (U.str_uuid org) (U.str_uuid org') _ _ (U.no_colon org) (U.no_colon org')
          (append_cancel_left (codes "idemp:") _ _ e) in
      let b =
        split_at_colon (U.str_uuid user) (U.str_uuid user') _ _ (U.no_colon user) (U.no_colon user')
          a.1 in
      let c = split_at_colon op op' _ _ h h' b.1 in
      let d =
        split_at_colon (resource_part U res) (resource_part U res') key key' (resource_no_colon res)
          (resource_no_colon res') c.1 in
      (
        U.injective org org' a.0,
        U.injective user user' b.0,
        c.0,
        resource_part-injective res res' d.0,
        d.1,
      )
