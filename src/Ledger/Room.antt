-- ===== src/Ledger/Room.antt =====
-- What the capacity check grants (src/application/orders/preflight.py).
use hanstock_svc.Base.{
  ℕ, String, ◌≡◌, sym, ap, subst, ◌∙◌, ◌⊎◌, true, ◌||◌, ◌+◌, ◌≤◌, ◌<◌, not, Option, none, some,
  List, ℤ, pos_part, positive, Float, str_eq, if◌then◌else◌, Result, ok, Bool-cases, inl, inr,
  arith,
}
use hanstock_svc.Base.Results.{◌>>=◌, bind-ok, guard-ok}
use hanstock_svc.Ledger.Records.{OrderSide, buy_side, sell_side, LedgerDb}
use hanstock_svc.Ledger.Capacity.{
  BrokerView, PriceReader, OrderCapacityDecision, reserved_sell, reserved_cash, reference_buy_price,
  invalid_order, sell_capacity, buy_capacity, side_capacity, evaluate_order_capacity,
  require_order_capacity, broker_sellable, find_holding, Holding,
}
use hanstock_svc.Ledger.Waiting.{
  SaysSellable, broker_sellable-SaysSellable, HeldShares, reserved_sell-HeldShares,
}
use hanstock_svc.Ledger.Grants.{
  positive-lt, granted_room, IsExact, sell_capacity-IsExact, buy_capacity-IsExact, invalid-IsExact,
}

module _ {F : Type 0} ⦃fl : Float F⦄ where
  module _ ⦃pr : PriceReader F⦄ where
    pub evaluate-cases :
        (view : BrokerView F) (db : LedgerDb F) (account market symbol : String) (side : OrderSide)
        (quantity price : ℤ) (excluded : Option ℕ) (d : OrderCapacityDecision F)
        → evaluate_order_capacity view db account market symbol (some side) quantity price excluded
          ≡ ok d
        → (d ≡ invalid_order (pos_part quantity))
          ⊎ ((0 < pos_part quantity)
              × (b : List Holding × F) × (view.balance ≡ ok b)
              × (side_capacity view db account market symbol side
                    (pos_part quantity)
                    price
                    excluded
                    b
                  ≡ ok d))
    unfolding evaluate_order_capacity
    evaluate-cases view db account market symbol side quantity price excluded d h =
        let judge : Result (OrderCapacityDecision F) =
          view.balance
          >>= side_capacity view db account market symbol side (pos_part quantity) price excluded in
        let no : Result (OrderCapacityDecision F) = ok (invalid_order (pos_part quantity)) in
        elim (Bool-cases (str_eq symbol "" || not (positive quantity))) [
          | inl bad ↦
              let e : no ≡ ok d = sym (ap (λ b. if b then no else judge) bad) ∙ h in
              inl (ground arith)
          | inr good ↦
              let e : judge ≡ ok d = sym (ap (λ b. if b then no else judge) good) ∙ h in
              let (b, e1, e2) = bind-ok view.balance _ d e in
              inr (positive-lt quantity (ground arith), b, e1, e2)
        ]

    invalid-ok :
        (view : BrokerView F) (db : LedgerDb F) (account market symbol : String)
        (quantity price : ℤ) (excluded : Option ℕ) (d : OrderCapacityDecision F)
        → evaluate_order_capacity view db account market symbol none quantity price excluded ≡ ok d
        → invalid_order (pos_part quantity) ≡ d
    unfolding evaluate_order_capacity
    invalid-ok view db account market symbol quantity price excluded d h = ground arith

    balance-ok :
        (view : BrokerView F) (db : LedgerDb F) (account market symbol : String)
        (side : Option OrderSide) (quantity price : ℤ) (excluded : Option ℕ)
        (d : OrderCapacityDecision F)
        → evaluate_order_capacity view db account market symbol side quantity price excluded ≡ ok d
        → d.allowed ≡ true
        → (b : List Holding × F) × (view.balance ≡ ok b)
    balance-ok view db account market symbol none quantity price excluded d h t =
        let e = invalid-ok view db account market symbol quantity price excluded d h in
        absurd (ground arith)
    balance-ok view db account market symbol (some side) quantity price excluded d h t =
        elim (evaluate-cases view db account market symbol side quantity price excluded d h) [
          | inl bad ↦ absurd (ground arith)
          | inr (q, b, e, s) ↦ (b, e)
        ]

    buy-ok :
        (view : BrokerView F) (db : LedgerDb F) (account market symbol : String) (q : ℕ) (price : ℤ)
        (excluded : Option ℕ) (b : List Holding × F) (d : OrderCapacityDecision F)
        → side_capacity view db account market symbol buy_side q price excluded b ≡ ok d
        → (reference : F) × (reference_buy_price view price ≡ ok reference)
          × (d
              ≡ buy_capacity q b.1
                  (reserved_cash account market excluded db.events db.orders.rows (fl.of_nat 0))
                  reference)
    buy-ok view db account market symbol q price excluded b d h =
        let (reference, e, h1) = bind-ok (reference_buy_price view price) _ d h in
        (reference, e, ground arith)

    side-IsExact :
        (view : BrokerView F) (db : LedgerDb F) (account market symbol : String) (side : OrderSide)
        (q : ℕ) (price : ℤ) (excluded : Option ℕ) (b : List Holding × F)
        (d : OrderCapacityDecision F)
        → 0 < q
        → side_capacity view db account market symbol side q price excluded b ≡ ok d
        → IsExact q d
    side-IsExact view db account market symbol sell_side q price excluded b d h s =
        let sellable = broker_sellable view.sellable (find_holding symbol b.0) in
        let reserved = reserved_sell account market symbol excluded db.orders.rows in
        let same : sell_capacity q sellable reserved ≡ d = ground arith in
        subst (IsExact q) same (sell_capacity-IsExact q sellable reserved h)
    side-IsExact view db account market symbol buy_side q price excluded b d h s =
        let (reference, _, same) = buy-ok view db account market symbol q price excluded b d s in
        subst (IsExact q) (sym same) (buy_capacity-IsExact q b.1 _ reference h)

    -- A decision of the capacity check, for any order and whatever the broker answers, is one on the
    -- quantity that was asked for (a quantity that is not positive counts as 0): it names this
    -- quantity, grants no more than it, and allows the order only if it grants all of it, at least
    -- one share.
    pub evaluate_order_capacity-IsExact :
        (view : BrokerView F) (db : LedgerDb F) (account market symbol : String)
        (side : Option OrderSide) (quantity price : ℤ) (excluded : Option ℕ)
        (d : OrderCapacityDecision F)
        → evaluate_order_capacity view db account market symbol side quantity price excluded ≡ ok d
        → IsExact (pos_part quantity) d
    evaluate_order_capacity-IsExact view db account market symbol none quantity price excluded d h =
        subst (IsExact (pos_part quantity))
          (invalid-ok view db account market symbol quantity price excluded d h)
          (invalid-IsExact (pos_part quantity))
    evaluate_order_capacity-IsExact view db account market symbol (some side) quantity price
          excluded d h =
        elim (evaluate-cases view db account market symbol side quantity price excluded d h) [
          | inl bad ↦
              subst (IsExact (pos_part quantity)) (sym bad) (invalid-IsExact (pos_part quantity))
          | inr (q, b, e, s) ↦
              side-IsExact view db account market symbol side (pos_part quantity) price excluded b d
                q s
        ]

    -- A sale that the check allows, together with the shares of the symbol that wait to be sold by
    -- the account's orders which the broker may not know, asks for no more shares than the broker
    -- says can be sold: by its own query, where the adapter has one, else by the first holding of
    -- the symbol in the balance. The decision names both numbers.
    pub evaluate_order_capacity-room :
        (view : BrokerView F) (db : LedgerDb F) (account market symbol : String)
        (quantity price : ℤ) (excluded : Option ℕ) (d : OrderCapacityDecision F)
        → evaluate_order_capacity view db account market symbol
            (some sell_side)
            quantity
            price
            excluded
          ≡ ok d
        → d.allowed ≡ true
        → (b : List Holding × F) × (view.balance ≡ ok b)
          × (n : ℤ) × SaysSellable view b.0 symbol n
          × (reserved : ℕ) × HeldShares account market symbol excluded db.orders.rows reserved
          × (pos_part quantity + reserved ≤ pos_part n)
          × (d.broker_sellable_quantity ≡ pos_part n)
          × (d.locally_reserved_quantity ≡ reserved)
    evaluate_order_capacity-room view db account market symbol quantity price excluded d h t =
        elim (evaluate-cases view db account market symbol sell_side quantity price excluded d h) [
          | inl bad ↦ absurd (ground arith)
          | inr (q, b, e, s) ↦
              let sellable = broker_sellable view.sellable (find_holding symbol b.0) in
              let reserved = reserved_sell account market symbol excluded db.orders.rows in
              let same : d ≡ sell_capacity (pos_part quantity) sellable reserved = ground arith in
              let allowed : (sell_capacity {F = F} (pos_part quantity) sellable reserved).allowed
                  ≡ true =
                ap (λ d. d.allowed) (sym same) ∙ t in
              let room = granted_room (pos_part quantity) sellable reserved q allowed in
              let (n, says, known) =
                broker_sellable-SaysSellable view b.0 symbol (omega (arith, q, room)) in
              (
                b,
                e,
                n,
                says,
                reserved,
                reserved_sell-HeldShares account market excluded symbol db.orders.rows,
                ground (arith, room, known),
                ap (λ d. d.broker_sellable_quantity) same ∙ known,
                ap (λ d. d.locally_reserved_quantity) same,
              )
        ]

    -- The check fails closed: what passes was allowed by the evaluation, and where the broker gives
    -- no balance no order passes.
    pub require_order_capacity-closed :
        (view : BrokerView F) (db : LedgerDb F) (account market symbol : String)
        (side : Option OrderSide) (quantity price : ℤ) (excluded : Option ℕ)
        (d : OrderCapacityDecision F)
        → require_order_capacity view db account market symbol side quantity price excluded ≡ ok d
        → (d.allowed ≡ true)
          × ((b : List Holding × F) × (view.balance ≡ ok b))
          × (evaluate_order_capacity view db account market symbol side quantity price excluded
              ≡ ok d)
    unfolding require_order_capacity
    require_order_capacity-closed view db account market symbol side quantity price excluded d h =
        let (x, e, h1) =
          bind-ok
            (evaluate_order_capacity view db account market symbol side quantity price excluded) _ d
            h in
        let (allowed, h2) = guard-ok x.allowed _ _ d h1 in
        let same : x ≡ d = ground arith in
        let passed : d.allowed ≡ true = ap (λ d. d.allowed) (sym same) ∙ allowed in
        let judged = e ∙ ap ok same in
        (
          passed,
          balance-ok view db account market symbol side quantity price excluded d judged passed,
          judged,
        )
