-- ===== src/Audit/Values.antt =====
-- The values that an audit payload is made of, and `AuditChainService._normalize_payload`
-- (backend/app/domains/audit_chain/service.py), which reduces them to what JSON has.
use cau_sium.Prelude.{ℕ, String, Bool, ◌≡◌, refl, ap}

-- A float is named by its bit pattern; the keys of a dict are the strings that all callers pass.
mutual
  pub data Payload : Type 0 where
    null : Payload
    flag : Bool → Payload
    number : ℕ → Payload
    float : ℕ → Payload
    str : String → Payload
    uuid : ℕ → Payload
    datetime : ℕ → Payload
    enum_value : String → Payload
    list : Items → Payload
    tuple : Items → Payload
    dict : Fields → Payload

  pub data Items : Type 0 where
    nil : Items
    cons : Payload → Items → Items

  pub data Fields : Type 0 where
    end : Fields
    field : String → Payload → Fields → Fields

module _ (str_uuid isoformat : ℕ → String) where
  unfoldable mutual
    pub normalize_payload : Payload → Payload
    normalize_payload null = null
    normalize_payload (flag b) = flag b
    normalize_payload (number n) = number n
    normalize_payload (float n) = float n
    normalize_payload (str s) = str s
    normalize_payload (uuid u) = str (str_uuid u)
    normalize_payload (datetime t) = str (isoformat t)
    normalize_payload (enum_value s) = str s
    normalize_payload (list xs) = list (normalize_items xs)
    normalize_payload (tuple xs) = list (normalize_items xs)
    normalize_payload (dict fs) = dict (normalize_fields fs)

    pub normalize_items : Items → Items
    normalize_items nil = nil
    normalize_items (cons x xs) = cons (normalize_payload x) (normalize_items xs)

    pub normalize_fields : Fields → Fields
    normalize_fields end = end
    normalize_fields (field k v fs) = field k (normalize_payload v) (normalize_fields fs)

  mutual
    unfolding normalize_payload normalize_items normalize_fields

    again : (p : Payload) → normalize_payload (normalize_payload p) ≡ normalize_payload p
    again null = refl
    again (flag b) = refl
    again (number n) = refl
    again (float n) = refl
    again (str s) = refl
    again (uuid u) = refl
    again (datetime t) = refl
    again (enum_value s) = refl
    again (list xs) = ap list (items_again xs)
    again (tuple xs) = ap list (items_again xs)
    again (dict fs) = ap dict (fields_again fs)

    items_again : (xs : Items) → normalize_items (normalize_items xs) ≡ normalize_items xs
    items_again nil = refl
    items_again (cons x xs) = λ i. cons (again x i) (items_again xs i)

    fields_again : (fs : Fields) → normalize_fields (normalize_fields fs) ≡ normalize_fields fs
    fields_again end = refl
    fields_again (field k v fs) = λ i. field k (again v i) (fields_again fs i)

  -- Normalising a payload a second time changes nothing.
  pub normalize_payload_idem :
      (p : Payload) → normalize_payload (normalize_payload p) ≡ normalize_payload p
  normalize_payload_idem p = again p
