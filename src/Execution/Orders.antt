-- ===== src/Execution/Orders.antt =====
-- Creating, reading and moving managed orders (src/db/ai_execution_repository.py). Each operation is
-- one transaction; `now` is what the clock says in it.
use hanstock_svc.Base.{
  ℕ, String, Bool, true, false, ◌&&◌, Option, none, some, ◌∷◌, not, str_eq, if◌then◌else◌, or_keep,
  ℤ, pos_part, positive, Float, get_row, set_row, insert_row, find_where, Result, ok, value_error,
  integrity_error,
}
use hanstock_svc.Base.Results.{guard, require, raise_if, ◌>>=◌, ◌>>◌}
use hanstock_svc.Schema.{
  Order, OrderAction, OrderEvent, OrderStatus, Db, same_status, intent_created, submitted, filled,
  rejected, expired, canceled,
}

-- `new_status IN ('filled', 'rejected', 'expired', 'canceled')`
abbrev pub completes : OrderStatus → Bool
completes filled = true
completes rejected = true
completes expired = true
completes canceled = true
completes _ = false

-- What `create_managed_order` is given: the required keys, and the position, price and expiry. The
-- text of `market` is stripped and in capitals. A caller that gives the status, the filled quantity,
-- the approval or a time itself is not modelled: these columns get their defaults.
pub record NewOrder (F : Type 0) : Type 0 where
  pub client_order_key : String
  pub decision_id : Option ℕ
  pub position_id : Option ℕ
  pub market : String
  pub symbol : String
  pub strategy_id : String
  pub action : OrderAction
  pub order_type : String
  pub requested_qty : ℤ
  pub requested_price : Option F
  pub expires_at : Option String

-- `require_storable_market` of src/ai_stock/markets.py, of a code that is already in capitals: the
-- service stores the domestic market alone.
unfoldable pub require_storable_market : String → Result (Unit {0})
require_storable_market market =
    raise_if (not (str_eq market "KR")) (value_error "storable market must be KR")

has_action : OrderAction → Bool
has_action (OrderAction.other text) = not (str_eq text "")
has_action _ = true

module _ {F : Type 0} ⦃fl : Float F⦄ where
  required_keys : NewOrder F → Bool
  unfolding has_action
  required_keys d =
      not (str_eq d.client_order_key "")
      && not (str_eq d.symbol "")
      && not (str_eq d.strategy_id "")
      && has_action d.action
      && not (str_eq d.order_type "")

  new_order_row : NewOrder F → ℕ → String → Order F
  new_order_row d decision_id now = record {
    client_order_key = d.client_order_key;
    decision_id = decision_id;
    position_id = d.position_id;
    market = d.market;
    symbol = d.symbol;
    strategy_id = d.strategy_id;
    action = d.action;
    order_type = d.order_type;
    requested_qty = pos_part d.requested_qty;
    requested_price = d.requested_price;
    filled_qty = 0;
    average_fill_price = fl.of_nat 0;
    status = intent_created;
    broker_order_id = none;
    approval_id = none;
    expires_at = d.expires_at;
    last_error = none;
    submitted_at = none;
    completed_at = none;
    created_at = now;
    updated_at = now;
  }

  -- `UNIQUE` on client_order_key makes the INSERT raise on a key that is taken.
  key_is_free : String → Db F → Bool
  key_is_free key db = elim (find_where (λ o. str_eq o.client_order_key key) db.orders.rows) [
    | none ↦ true
    | some _ ↦ false
  ]

  unfoldable pub create_managed_order : NewOrder F → String → Db F → Result (ℕ × Db F)
  unfolding require_storable_market required_keys new_order_row key_is_free
  create_managed_order d now db = do
    require_storable_market d.market
    guard (required_keys d) (value_error "a key is required")
    decision_id ← require d.decision_id (value_error "decision_id is required")
    guard (positive d.requested_qty) (value_error "requested_qty must be positive")
    guard (key_is_free d.client_order_key db)
        (integrity_error "UNIQUE constraint failed: ai_managed_orders.client_order_key")
    let order = new_order_row d decision_id now
    let event : OrderEvent F = record {
      order_id = db.orders.next_id;
      ts = now;
      from_status = none;
      to_status = intent_created;
      filled_qty = none;
      fill_price = none;
      broker_payload = none;
      reason = "managed order created";
    }
    ok (
      db.orders.next_id,
      record db { orders = insert_row order db.orders; order_events = event ∷ db.order_events },
    )

  abbrev pub get_managed_order : ℕ → Db F → Option (Order F)
  get_managed_order order_id db = get_row order_id db.orders

  -- The row that the UPDATE of `transition_managed_order` leaves.
  abbrev pub transitioned : OrderStatus → Option String → Option String → String → Order F → Order F
  transitioned new_status broker_order_id last_error now o = record o {
    status = new_status;
    broker_order_id = or_keep broker_order_id o.broker_order_id;
    last_error = or_keep last_error o.last_error;
    submitted_at =
        if same_status new_status submitted
        then or_keep o.submitted_at (some now)
        else o.submitted_at;
    completed_at =
        if completes new_status then or_keep o.completed_at (some now) else o.completed_at;
    updated_at = now;
  }

  abbrev transition_event : ℕ → OrderStatus → OrderStatus → String → String → String → OrderEvent F
  transition_event order_id expected new_status payload reason now = record {
    order_id = order_id;
    ts = now;
    from_status = some expected;
    to_status = new_status;
    filled_qty = none;
    fill_price = none;
    broker_payload = some payload;
    reason = reason;
  }

  -- `transition_managed_order`: the row changes only where it still has the expected status.
  unfoldable pub transition_managed_order :
      ℕ
      → OrderStatus
      → OrderStatus
      → String
      → String
      → Option String
      → Option String
      → String
      → Db F
      → Bool × Db F
  transition_managed_order order_id expected new_status reason payload broker_order_id last_error
        now db =
      elim (get_row order_id db.orders) [
        | none ↦ (false, db)
        | some o ↦
            if same_status o.status expected
            then (
              true,
              record db {
                orders =
                    set_row order_id (transitioned new_status broker_order_id last_error now)
                      db.orders;
                order_events =
                    transition_event order_id expected new_status payload reason now
                    ∷ db.order_events;
              },
            )
            else (false, db)
      ]

  -- `bind_managed_order_approval`
  unfoldable pub bind_managed_order_approval : ℕ → ℕ → OrderStatus → String → Db F → Bool × Db F
  bind_managed_order_approval order_id approval_id expected now db =
      elim (get_row order_id db.orders) [
        | none ↦ (false, db)
        | some o ↦ elim o.approval_id [
          | some _ ↦ (false, db)
          | none ↦
              if same_status o.status expected
              then (
                true,
                record db {
                  orders =
                      set_row order_id
                        (λ o. record o { approval_id = some approval_id; updated_at = now })
                        db.orders;
                },
              )
              else (false, db)
        ]
      ]
