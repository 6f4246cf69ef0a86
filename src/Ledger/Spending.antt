-- ===== src/Ledger/Spending.antt =====
-- The cash that an allowed purchase takes (src/application/orders/preflight.py).
use hanstock_svc.Base.{
  ℕ, String, ◌≡◌, sym, ap, ◌∙◌, true, ◌<◌, Option, some, List, ℤ, pos_part, Float, ok, inl, inr,
  arith,
}
use hanstock_svc.Base.Results.{bind-run}
use hanstock_svc.Ledger.Records.{buy_side, LedgerDb}
use hanstock_svc.Ledger.Capacity.{
  BrokerView, PriceReader, OrderCapacityDecision, reserved_cash, reference_buy_price, at_least,
  affordable, buy_capacity, side_capacity, evaluate_order_capacity, Holding,
}
use hanstock_svc.Ledger.Snapshots.{not_below_zero}
use hanstock_svc.Ledger.Waiting.{HeldCash, reserved_cash-HeldCash}
use hanstock_svc.Ledger.Room.{evaluate-cases}
use hanstock_svc.Ledger.Grants.{not_below_zero-le, affordable-le}

module _ {F : Type 0} ⦃fl : Float F⦄ where
  module _ ⦃pr : PriceReader F⦄ where
    buy-at :
        (view : BrokerView F) (db : LedgerDb F) (account market symbol : String) (q : ℕ) (price : ℤ)
        (excluded : Option ℕ) (b : List Holding × F) (d : OrderCapacityDecision F) (reference : F)
        → reference_buy_price view price ≡ ok reference
        → side_capacity view db account market symbol buy_side q price excluded b ≡ ok d
        → d
          ≡ buy_capacity q b.1
              (reserved_cash account market excluded db.events db.orders.rows (fl.of_nat 0))
              reference
    buy-at view db account market symbol q price excluded b d reference r h =
        let held = reserved_cash account market excluded db.events db.orders.rows (fl.of_nat 0) in
        let e =
          sym (
            bind-run (reference_buy_price view price) (λ x. ok (buy_capacity q b.1 held x))
              reference r)
          ∙ h in
        ground arith

    module _
        -- IEEE 754: `<=` follows from `<` and holds of 0 and 0, and a positive number of shares,
        -- far below 2 ^ 53, that `int(a // b)` reaches is affordable, for `a` not negative and `b`
        -- positive.
        (le_of_lt : (x y : F) → fl.lt x y ≡ true → fl.le x y ≡ true)
        (zero_le : fl.le (fl.of_nat 0) (fl.of_nat 0) ≡ true)
        (quotient_fits : (a b : F) (n : ℕ)
          → 0 < n
          → n < 1125899906842624
          → fl.le (fl.of_nat 0) a ≡ true
          → fl.lt (fl.of_nat 0) b ≡ true
          → at_least (fl.int_div a b) n ≡ true
          → fl.le (fl.mul (fl.of_nat n) b) a ≡ true) where
      -- A purchase of less than 2 ^ 50 shares that the check allows, at a reference price that is
      -- positive, costs no more than the orderable cash of the broker less what the waiting
      -- purchases of the account hold, where neither the cash nor the difference counts below
      -- zero (for floats whose `<=` follows from `<` and holds of 0 and 0, and where a whole number
      -- of shares that the floor of a quotient reaches is affordable). The decision names the
      -- price, the value and what is held.
      pub evaluate_order_capacity-cash :
          (view : BrokerView F) (db : LedgerDb F) (account market symbol : String)
          (quantity price : ℤ) (excluded : Option ℕ) (d : OrderCapacityDecision F) (reference : F)
          → pos_part quantity < 1125899906842624
          → reference_buy_price view price ≡ ok reference
          → fl.lt (fl.of_nat 0) reference ≡ true
          → evaluate_order_capacity view db account market symbol
              (some buy_side)
              quantity
              price
              excluded
            ≡ ok d
          → d.allowed ≡ true
          → (b : List Holding × F) × (view.balance ≡ ok b)
            × (held : F) × HeldCash account market excluded db.events db.orders.rows
                (fl.of_nat 0)
                held
            × (fl.le
                  (fl.mul (fl.of_nat (pos_part quantity)) reference)
                  (not_below_zero (fl.sub (not_below_zero b.1) held))
                ≡ true)
            × (d.reference_price ≡ reference)
            × (d.estimated_order_value ≡ fl.mul (fl.of_nat (pos_part quantity)) reference)
            × (d.locally_reserved_cash ≡ held)
      evaluate_order_capacity-cash view db account market symbol quantity price excluded d reference
            small r above h t =
          elim (evaluate-cases view db account market symbol buy_side quantity price excluded d h) [
            | inl bad ↦ absurd (ground arith)
            | inr (q, b, e, s) ↦
                let held =
                  reserved_cash account market excluded db.events db.orders.rows (fl.of_nat 0) in
                let same =
                  buy-at view db account market symbol (pos_part quantity) price excluded b d
                    reference r s in
                let spare = not_below_zero (fl.sub (not_below_zero b.1) held) in
                let allowed : at_least (affordable (pos_part quantity) spare reference)
                      (pos_part quantity)
                    ≡ true =
                  ap (λ d. d.allowed) (sym same) ∙ t in
                (
                  b,
                  e,
                  held,
                  reserved_cash-HeldCash account market excluded db.events db.orders.rows
                      (fl.of_nat 0),
                  affordable-le quotient_fits (pos_part quantity) spare reference q small
                      (not_below_zero-le le_of_lt zero_le (fl.sub (not_below_zero b.1) held)) above
                      allowed,
                  ap (λ d. d.reference_price) same,
                  ap (λ d. d.estimated_order_value) same,
                  ap (λ d. d.locally_reserved_cash) same,
                )
          ]
