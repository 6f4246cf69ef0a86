-- ===== src/Tests/Capacities.antt =====
-- The capacity check on a sample account.
use Prim.Native.Nat.{◌/◌}
use native.Mathlib.Nat.{div-mul-le_self, mul-le-mul_right}
use hanstock_svc.Base.{
  ℕ, ◌≡◌, refl, true, none, some, [], ◌∷◌, ◌≤◌, ◌+◌, ◌-◌, ◌*◌, pos, leb, arith, Result, ok, err,
  List, ℤ, pos_part, ltb, ◌<◌,
}
use hanstock_svc.Ledger.{
  approved, buy_side, sell_side, LedgerOrder, LedgerDb, BrokerView, PriceReader, Holding,
  OrderCapacityDecision, reserved_sell, reserved_cash, confirmed_price, reference_buy_price,
  find_holding, evaluate_order_capacity, require_order_capacity, at_least, not_below_zero,
}
use hanstock_svc.Ledger.Room.{
  evaluate_order_capacity-IsExact, evaluate_order_capacity-room, require_order_capacity-closed,
}
use hanstock_svc.Ledger.Spending.{evaluate_order_capacity-cash}
use hanstock_svc.Ledger.Waiting.{SaysSellable, HeldShares, HeldCash}
use hanstock_svc.Ledger.Grants.{IsExact}
use hanstock_svc.Tests.Samples.{whole_won}
use hanstock_svc.Tests.OrderLedgers.{sample_order, empty_ledger}

instance abbrev no_prices : PriceReader ℕ
no_prices = record { reference_price = λ p. none }

-- Ten shares and a million won.
abbrev sample_view : BrokerView ℕ
sample_view = record {
  balance =
      ok
        (record { symbol = "005930"; quantity = pos 10; sellable_quantity = pos 10 } ∷ [], 1000000);
  sellable = none;
  quote = none;
  buffer_pct = 3;
}

-- An approved sale of ten shares, six of which were filled, and an approved purchase.
abbrev waiting_sale : LedgerOrder ℕ
waiting_sale = record (sample_order approved) { side = sell_side; filled_qty = 6 }

abbrev waiting_ledger : LedgerDb ℕ
waiting_ledger = record empty_ledger {
  orders = record { next_id = 3; rows = (1, waiting_sale) ∷ (2, sample_order approved) ∷ [] };
}

abbrev granted : Result (OrderCapacityDecision ℕ) → OrderCapacityDecision ℕ
granted (ok d) = d
granted (err _) = record {
  allowed = true;
  code = "";
  requested_quantity = 0;
  approved_quantity = pos 0;
  broker_sellable_quantity = 0;
  locally_reserved_quantity = 0;
  broker_orderable_cash = 0;
  locally_reserved_cash = 0;
  estimated_order_value = 0;
  reference_price = 0;
}

abbrev sale : Result (OrderCapacityDecision ℕ)
sale =
    evaluate_order_capacity sample_view waiting_ledger "acc" "KR" "005930" (some sell_side) (pos 6)
      (pos 0) none

abbrev purchase : Result (OrderCapacityDecision ℕ)
purchase =
    evaluate_order_capacity sample_view waiting_ledger "acc" "KR" "005930" (some buy_side) (pos 4)
      (pos 70000) none

-- Six shares fit beside the four that wait; four shares fit into 300,000 won.
judged : ((granted sale).allowed ≡ true) × ((granted purchase).allowed ≡ true)
unfolding evaluate_order_capacity reserved_sell reserved_cash confirmed_price reference_buy_price
    find_holding
judged = (refl, refl)

whole_division :
    (a b n : ℕ)
    → 0 < n
    → n < 1125899906842624
    → leb 0 a ≡ true
    → ltb 0 b ≡ true
    → at_least (pos (a / b)) n ≡ true
    → leb (n * b) a ≡ true
whole_division a b n _ _ _ _ h =
    let fits : n ≤ a / b = ground arith in
    let more = mul-le-mul_right b fits in let less = div-mul-le_self a b in ground arith

evaluate_order_capacity-IsExact_example : IsExact 6 (granted sale)
unfolding evaluate_order_capacity reserved_sell find_holding
evaluate_order_capacity-IsExact_example =
    evaluate_order_capacity-IsExact sample_view waiting_ledger "acc" "KR" "005930" (some sell_side)
      (pos 6) (pos 0) none (granted sale) refl

evaluate_order_capacity-room_example :
    (b : List Holding × ℕ) × (sample_view.balance ≡ ok b)
    × (n : ℤ) × SaysSellable sample_view b.0 "005930" n
    × (reserved : ℕ) × HeldShares "acc" "KR" "005930" none waiting_ledger.orders.rows reserved
    × (6 + reserved ≤ pos_part n)
    × ((granted sale).broker_sellable_quantity ≡ pos_part n)
    × ((granted sale).locally_reserved_quantity ≡ reserved)
unfolding evaluate_order_capacity reserved_sell find_holding
evaluate_order_capacity-room_example =
    evaluate_order_capacity-room sample_view waiting_ledger "acc" "KR" "005930" (pos 6) (pos 0) none
      (granted sale) refl refl

evaluate_order_capacity-cash_example :
    (b : List Holding × ℕ) × (sample_view.balance ≡ ok b)
    × (held : ℕ) × HeldCash "acc" "KR" none waiting_ledger.events waiting_ledger.orders.rows 0 held
    × (leb (4 * 70000) (not_below_zero (not_below_zero b.1 - held)) ≡ true)
    × ((granted purchase).reference_price ≡ 70000)
    × ((granted purchase).estimated_order_value ≡ 4 * 70000)
    × ((granted purchase).locally_reserved_cash ≡ held)
unfolding evaluate_order_capacity reserved_cash confirmed_price reference_buy_price
evaluate_order_capacity-cash_example =
    evaluate_order_capacity-cash (λ x y h. ground arith) refl whole_division sample_view
      waiting_ledger "acc" "KR" "005930" (pos 4) (pos 70000) none (granted purchase) 70000
      (omega arith) refl refl refl refl

require_order_capacity-closed_example :
    ((granted sale).allowed ≡ true)
    × ((b : List Holding × ℕ) × (sample_view.balance ≡ ok b))
    × (evaluate_order_capacity sample_view waiting_ledger "acc" "KR" "005930"
          (some sell_side)
          (pos 6)
          (pos 0)
          none
        ≡ ok (granted sale))
unfolding require_order_capacity evaluate_order_capacity reserved_sell find_holding
require_order_capacity-closed_example =
    require_order_capacity-closed sample_view waiting_ledger "acc" "KR" "005930" (some sell_side)
      (pos 6) (pos 0) none (granted sale) refl
