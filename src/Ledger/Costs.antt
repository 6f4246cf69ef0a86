-- ===== src/Ledger/Costs.antt =====
-- `_broker_cost`: a fee or tax anywhere in a broker's answer (src/application/orders/repository.py).
use hanstock_svc.Base.{String, Option, none, some, List, [], ◌∷◌, str_eq, if◌then◌else◌, Float}
use hanstock_svc.Ledger.Records.{PyText}

-- An answer as a tree. A leaf keeps the number that `float` reads from
-- `str(value or "0").replace(",", "")`, if it reads one.
mutual
  pub data Raw (F : Type 0) : Type 0 where
    leaf : Option F → Raw F
    node : Fields F → Raw F

  pub data Fields (F : Type 0) : Type 0 where
    nil : Fields F
    field : String → Raw F → Fields F → Fields F

module _ {F : Type 0} ⦃fl : Float F⦄ ⦃tx : PyText⦄ where
  -- `normalized.get(key)`: of the keys that are alike in lower case the last one counts.
  unfoldable pub find_field : String → Fields F → Option (Raw F)
  find_field key nil = none
  find_field key (field k v rest) = elim (find_field key rest) [
    | some later ↦ some later
    | none ↦ if str_eq (tx.lower k) key then some v else none
  ]

  -- A dictionary reads as no number, but an empty one as "0".
  abbrev pub read_cost : Raw F → Option F
  read_cost (leaf x) = x
  read_cost (node nil) = some (fl.of_nat 0)
  read_cost (node (field _ _ _)) = none

  abbrev pub non_negative_cost : Option F → Option F
  non_negative_cost none = none
  non_negative_cost (some x) = if fl.le (fl.of_nat 0) x then some x else none

  abbrev pub field_cost : Option (Raw F) → Option F
  field_cost none = none
  field_cost (some v) = non_negative_cost (read_cost v)

  -- The loop over `keys`.
  unfoldable pub own_cost : List String → Fields F → Option F
  own_cost [] fs = none
  own_cost (key ∷ keys) fs = elim (field_cost (find_field key fs)) [
    | some x ↦ some x
    | none ↦ own_cost keys fs
  ]

  -- The dictionary's own keys before the dictionaries in it.
  unfoldable mutual
    pub broker_cost : List String → Raw F → Option F
    broker_cost keys (leaf x) = none
    broker_cost keys (node fs) = elim (own_cost keys fs) [
      | some x ↦ some x
      | none ↦ nested_cost keys fs
    ]

    pub nested_cost : List String → Fields F → Option F
    nested_cost keys nil = none
    nested_cost keys (field k v rest) = elim (broker_cost keys v) [
      | some x ↦ some x
      | none ↦ nested_cost keys rest
    ]

abbrev pub fee_keys : List String
fee_keys = "fee" ∷ "fees" ∷ "commission" ∷ "cmsn_amt" ∷ "tot_cmsn_amt" ∷ "수수료" ∷ []

abbrev pub tax_keys : List String
tax_keys = "tax" ∷ "tax_amt" ∷ "tot_tax_amt" ∷ "stt_tax" ∷ "제세금" ∷ []
