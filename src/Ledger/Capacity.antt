-- ===== src/Ledger/Capacity.antt =====
-- The capacity check right before a submission (src/application/orders/preflight.py).
use hanstock_svc.Base.{
  ℕ, ◌+◌, String, Bool, true, false, ◌&&◌, ◌||◌, ◌-◌, ◌==◌, Option, none, some, List, [], ◌∷◌, ℤ,
  pos, negsuc, pos_part, positive, not, str_eq, leb, if◌then◌else◌, Float, Rows, Result, ok, err,
  runtime_error, type_error,
}
use hanstock_svc.Base.Results.{guard, ◌>>=◌, ◌>>◌}
use hanstock_svc.Ledger.Records.{
  UnifiedOrderStatus, approval_pending, risk_approved, approved, submitting, broker_unknown,
  OrderSide, buy_side, sell_side, LedgerOrder, LedgerEvent, Payload, LedgerDb,
}
use hanstock_svc.Ledger.Snapshots.{not_below_zero}

pub record Holding : Type 0 where
  pub symbol : String
  pub quantity : ℤ
  pub sellable_quantity : ℤ

pub record Quote (F : Type 0) : Type 0 where
  pub ask_price : F
  pub current_price : F

-- What the broker's adapter answers: the holdings and the orderable cash of `_fetch_balance`, the
-- sellable quantity that is asked for without the cache and then, of an adapter that knows no such
-- argument, plainly, and a quote. What the adapter does not offer is none.
pub record BrokerView (F : Type 0) : Type 0 where
  pub balance : Result (List Holding × F)
  pub sellable : Option (Result ℤ × Result ℤ)
  pub quote : Option (Result (Quote F))
  -- HANSTOCK_MARKET_BUY_BUFFER_PCT
  pub buffer_pct : F

-- What `json.loads` makes of a payload's `reference_price`, if it reads one.
pub record PriceReader (F : Type 0) : Type 0 where
  pub reference_price : Payload → Option F

pub record OrderCapacityDecision (F : Type 0) : Type 0 where
  pub allowed : Bool
  pub code : String
  pub requested_quantity : ℕ
  pub approved_quantity : ℤ
  pub broker_sellable_quantity : ℕ
  pub locally_reserved_quantity : ℕ
  pub broker_orderable_cash : F
  pub locally_reserved_cash : F
  pub estimated_order_value : F
  pub reference_price : F

-- `_LOCAL_CAPACITY_STATUSES`
abbrev pub holds_capacity : UnifiedOrderStatus → Bool
holds_capacity approval_pending = true
holds_capacity risk_approved = true
holds_capacity approved = true
holds_capacity submitting = true
holds_capacity broker_unknown = true
holds_capacity _ = false

abbrev pub is_excluded : Option ℕ → ℕ → Bool
is_excluded none oid = false
is_excluded (some excluded) oid = oid == excluded

abbrev pub sells : OrderSide → Bool
sells sell_side = true
sells buy_side = false

unfoldable pub find_holding : String → List Holding → Option Holding
find_holding symbol [] = none
find_holding symbol (h ∷ hs) = if str_eq h.symbol symbol then some h else find_holding symbol hs

-- `_positive_int(getattr(holding, "sellable_quantity", 0))`
abbrev pub held_sellable : Option Holding → ℕ
held_sellable none = 0
held_sellable (some h) = pos_part h.sellable_quantity

abbrev pub is_type_error : Result ℤ → Bool
is_type_error (err (type_error _)) = true
is_type_error _ = false

-- A failed query is no quantity.
abbrev pub answered : Result ℤ → ℕ
answered (ok n) = pos_part n
answered (err _) = 0

-- The dedicated query decides, where the adapter has one.
abbrev pub broker_sellable : Option (Result ℤ × Result ℤ) → Option Holding → ℕ
broker_sellable none h = held_sellable h
broker_sellable (some (fresh, plain)) h =
    if is_type_error fresh then answered plain else answered fresh

-- `n >= quantity`, and the smaller of them.
abbrev pub at_least : ℤ → ℕ → Bool
at_least (pos n) quantity = leb quantity n
at_least (negsuc n) quantity = false

abbrev pub min_qty : ℕ → ℤ → ℤ
min_qty quantity n = if at_least n quantity then pos quantity else n

module _ {F : Type 0} ⦃fl : Float F⦄ where
  abbrev pub larger : F → F → F
  larger a b = if fl.lt a b then b else a

  -- An order whose capacity the broker may not have taken into account yet.
  abbrev pub is_local : String → String → Option ℕ → ℕ → LedgerOrder F → Bool
  is_local account market excluded oid o =
      str_eq o.account_key account
      && str_eq o.market market
      && holds_capacity o.status
      && not (is_excluded excluded oid)

  -- The shares of these orders that wait to be sold.
  unfoldable pub reserved_sell : String → String → String → Option ℕ → Rows (LedgerOrder F) → ℕ
  reserved_sell account market symbol excluded [] = 0
  reserved_sell account market symbol excluded ((oid, o) ∷ r) =
      let rest = reserved_sell account market symbol excluded r in
      if is_local account market excluded oid o && sells o.side && str_eq o.symbol symbol
      then (o.requested_qty - o.filled_qty) + rest
      else rest

  module _ ⦃pr : PriceReader F⦄ where
    -- The reference price of the newest `capacity_confirmed` event of an order.
    unfoldable pub confirmed_price : ℕ → List LedgerEvent → F
    confirmed_price oid [] = fl.of_nat 0
    confirmed_price oid (e ∷ es) =
        if (e.order_id == oid) && str_eq e.event_type "capacity_confirmed"
        then elim (pr.reference_price e.payload) [ none ↦ fl.of_nat 0 | some x ↦ not_below_zero x ]
        else confirmed_price oid es

    -- A market order has no price of its own.
    abbrev pub reserve_price : ℕ → LedgerOrder F → List LedgerEvent → F
    reserve_price oid o events =
        larger (larger (fl.of_nat 0) o.order_price)
          (if fl.lt (fl.of_nat 0) o.order_price then fl.of_nat 0 else confirmed_price oid events)

    -- The cash that these orders' purchases hold, added up in the order of the rows.
    unfoldable pub reserved_cash :
        String → String → Option ℕ → List LedgerEvent → Rows (LedgerOrder F) → F → F
    reserved_cash account market excluded events [] sum = sum
    reserved_cash account market excluded events ((oid, o) ∷ r) sum =
        reserved_cash account market excluded events r (
          if is_local account market excluded oid o && not (sells o.side)
          then fl.add sum
              (fl.mul (fl.of_nat (o.requested_qty - o.filled_qty)) (reserve_price oid o events))
          else sum)

  -- `ask or current`
  abbrev pub quoted : Quote F → F
  quoted q = if fl.eq q.ask_price (fl.of_nat 0) then q.current_price else q.ask_price

  abbrev pub require_quote : Option (Result (Quote F)) → Result (Quote F)
  require_quote none = err (runtime_error "market buy requires a fresh quote")
  require_quote (some answer) = answer

  -- The price that a purchase is judged by.
  unfoldable pub reference_buy_price : BrokerView F → ℤ → Result F
  reference_buy_price view price = if positive price then ok (fl.of_nat (pos_part price)) else do
    quote ← require_quote view.quote
    guard (fl.is_finite (quoted quote) && not (fl.le (quoted quote) (fl.of_nat 0)))
        (runtime_error "market buy reference price is unavailable")
    ok (
        fl.mul (quoted quote)
          (fl.add (fl.of_nat 1) (fl.div (not_below_zero view.buffer_pct) (fl.of_nat 100))))

  abbrev pub invalid_order : ℕ → OrderCapacityDecision F
  invalid_order quantity = record {
    allowed = false;
    code = "INVALID_ORDER";
    requested_quantity = quantity;
    approved_quantity = pos 0;
    broker_sellable_quantity = 0;
    locally_reserved_quantity = 0;
    broker_orderable_cash = fl.of_nat 0;
    locally_reserved_cash = fl.of_nat 0;
    estimated_order_value = fl.of_nat 0;
    reference_price = fl.of_nat 0;
  }

  abbrev pub sell_capacity : ℕ → ℕ → ℕ → OrderCapacityDecision F
  sell_capacity quantity sellable reserved =
      let available = sellable - reserved in
      let granted = if leb quantity available then quantity else available in
      record (invalid_order quantity) {
        allowed = granted == quantity;
        code = if granted == quantity then "OK" else "INSUFFICIENT_SELLABLE_QUANTITY";
        approved_quantity = pos granted;
        broker_sellable_quantity = sellable;
        locally_reserved_quantity = reserved;
      }

  abbrev pub available_cash : F → F → F
  available_cash orderable reserved = not_below_zero (fl.sub (not_below_zero orderable) reserved)

  abbrev pub affordable : ℕ → F → F → ℤ
  affordable quantity available price =
      if fl.le (fl.mul (fl.of_nat quantity) price) available
      then pos quantity
      else fl.int_div available price

  abbrev pub buy_capacity : ℕ → F → F → F → OrderCapacityDecision F
  buy_capacity quantity orderable reserved price =
      let granted = affordable quantity (available_cash orderable reserved) price in
      record (invalid_order quantity) {
        allowed = at_least granted quantity;
        code = if at_least granted quantity then "OK" else "INSUFFICIENT_ORDERABLE_CASH";
        approved_quantity = min_qty quantity granted;
        broker_orderable_cash = not_below_zero orderable;
        locally_reserved_cash = reserved;
        estimated_order_value = fl.mul (fl.of_nat quantity) price;
        reference_price = price;
      }

  module _ ⦃pr : PriceReader F⦄ where
    abbrev pub side_capacity :
        BrokerView F
        → LedgerDb F
        → String
        → String
        → String
        → OrderSide
        → ℕ
        → ℤ
        → Option ℕ
        → (List Holding × F)
        → Result (OrderCapacityDecision F)
    side_capacity view db account market symbol sell_side quantity price excluded (holdings, cash) =
        ok (
          sell_capacity quantity (broker_sellable view.sellable (find_holding symbol holdings))
            (reserved_sell account market symbol excluded db.orders.rows))
    side_capacity view db account market symbol buy_side quantity price excluded (holdings, cash) =
        do
          reference ← reference_buy_price view price
          ok (
              buy_capacity quantity cash
                (reserved_cash account market excluded db.events db.orders.rows (fl.of_nat 0))
                reference)

    -- `evaluate_order_capacity`, of a stripped symbol and a side in lower case.
    unfoldable pub evaluate_order_capacity :
        BrokerView F
        → LedgerDb F
        → String
        → String
        → String
        → Option OrderSide
        → ℤ
        → ℤ
        → Option ℕ
        → Result (OrderCapacityDecision F)
    evaluate_order_capacity view db account market symbol none quantity price excluded =
        ok (invalid_order (pos_part quantity))
    evaluate_order_capacity view db account market symbol (some side) quantity price excluded =
        if str_eq symbol "" || not (positive quantity)
        then ok (invalid_order (pos_part quantity))
        else view.balance
          >>= side_capacity view db account market symbol side (pos_part quantity) price excluded

    -- `require_order_capacity`
    unfoldable pub require_order_capacity :
        BrokerView F
        → LedgerDb F
        → String
        → String
        → String
        → Option OrderSide
        → ℤ
        → ℤ
        → Option ℕ
        → Result (OrderCapacityDecision F)
    require_order_capacity view db account market symbol side quantity price excluded = do
      d ← evaluate_order_capacity view db account market symbol side quantity price excluded
      guard d.allowed (runtime_error d.code)
      ok d
