-- ===== src/Execution/Fills.antt =====
-- `apply_managed_fill` of src/db/ai_execution_repository.py, one transaction: it books a broker fill
-- on its order and on the strategy position that owns it, and asks for hard-stop protection.
use hanstock_svc.Base.{
  ℕ, ◌+◌, String, Bool, true, false, ◌&&◌, Option, none, some, List, [], ◌∷◌, ◌==◌, ltb, not,
  str_eq, if◌then◌else◌, ℤ, pos_part, positive, Float, get_row, set_row, Result, ok, value_error,
  type_error,
}
use hanstock_svc.Base.Results.{guard, require, raise_if, ◌>>=◌, ◌>>◌}
use hanstock_svc.Execution.Sides.{book_side, weighted}
use hanstock_svc.Schema.{
  Order, OrderStatus, Db, Fill, Position, same_status, submitting, submitted, partially_filled,
  filled, broker_unknown, cancel_pending,
}

-- The statuses from which a fill is booked.
abbrev pub accepts_fill : OrderStatus → Bool
accepts_fill submitting = true
accepts_fill submitted = true
accepts_fill partially_filled = true
accepts_fill broker_unknown = true
accepts_fill cancel_pending = true
accepts_fill _ = false

pub record FillResult : Type 0 where
  pub order_id : ℕ
  pub position_id : ℕ
  pub filled_qty : ℕ
  pub order_status : OrderStatus
  pub position_remaining_qty : ℕ
  pub duplicate : Bool

abbrev pub status_after_fill : ℕ → ℕ → OrderStatus
status_after_fill new_filled requested =
    if new_filled == requested then filled else partially_filled

module _ {F : Type 0} ⦃fl : Float F⦄ where
  -- SELECT * FROM ai_managed_fills WHERE order_id=? AND fill_key=?
  unfoldable pub find_fill : ℕ → String → List (Fill F) → Option (Fill F)
  find_fill order_id key [] = none
  find_fill order_id key (f ∷ fs) =
      if (f.order_id == order_id) && str_eq f.fill_key key
      then some f
      else find_fill order_id key fs

  -- The branch for a fill key that is known.
  unfoldable pub replayed_fill : ℕ → Order F → Fill F → ℕ → F → Db F → Result (FillResult × Db F)
  replayed_fill order_id order prior qty price db = do
    guard ((prior.fill_qty == qty) && fl.eq prior.fill_price price)
        (value_error "fill_key already identifies a different fill")
    position_id ← require order.position_id (type_error "position_id")
    position ← require (get_row position_id db.positions) (type_error "remaining_qty")
    ok (
      record {
        order_id = order_id;
        position_id = position_id;
        filled_qty = order.filled_qty;
        order_status = order.status;
        position_remaining_qty = position.remaining_qty;
        duplicate = true;
      },
      db,
    )

  abbrev pub filled_order : ℕ → F → String → Order F → Order F
  filled_order qty average now o = record o {
    filled_qty = o.filled_qty + qty;
    average_fill_price = average;
    status = status_after_fill (o.filled_qty + qty) o.requested_qty;
    completed_at =
        if same_status (status_after_fill (o.filled_qty + qty) o.requested_qty) filled
        then some now
        else o.completed_at;
    updated_at = now;
  }

  -- The writes to ai_managed_orders, ai_managed_fills and ai_managed_order_events.
  unfoldable pub record_fill : ℕ → Order F → ℕ → F → String → String → String → Db F → Db F
  record_fill order_id order qty price payload fill_key now db = record db {
    orders =
        set_row order_id
          (filled_order qty (weighted order.average_fill_price order.filled_qty price qty) now)
          db.orders;
    fills =
        if str_eq fill_key ""
        then db.fills
        else record {
          order_id = order_id;
          fill_key = fill_key;
          fill_qty = qty;
          fill_price = price;
          broker_payload = payload;
          created_at = now;
        }
          ∷ db.fills;
    order_events =
        record {
          order_id = order_id;
          ts = now;
          from_status = some order.status;
          to_status = status_after_fill (order.filled_qty + qty) order.requested_qty;
          filled_qty = some qty;
          fill_price = some price;
          broker_payload = some payload;
          reason = "broker fill reconciled";
        }
        ∷ db.order_events;
  }

  -- The order and its position belong to one strategy, symbol and market.
  abbrev pub owns : Position F → Order F → Bool
  owns p o =
      str_eq p.strategy_id o.strategy_id && str_eq p.symbol o.symbol && str_eq p.market o.market

  -- The part of `apply_managed_fill` behind the look-up of the fill key.
  unfoldable pub new_fill :
      ℕ → Order F → ℕ → F → String → String → String → Db F → Result (FillResult × Db F)
  new_fill order_id order qty price payload fill_key now db = do
    guard (accepts_fill order.status) (value_error "fill is not allowed from status")
    raise_if (ltb order.requested_qty (order.filled_qty + qty))
        (value_error "fill exceeds remaining order quantity")
    position_id ←
        require order.position_id (value_error "managed order has no strategy position owner")
    position ←
        require (get_row position_id db.positions) (value_error "strategy position owner not found")
    guard (owns position order) (value_error "order does not match strategy position ownership")
    (db1, remaining) ← book_side order.action position_id position qty price now db
    ok (
      record {
        order_id = order_id;
        position_id = position_id;
        filled_qty = order.filled_qty + qty;
        order_status = status_after_fill (order.filled_qty + qty) order.requested_qty;
        position_remaining_qty = remaining;
        duplicate = false;
      },
      record_fill order_id order qty price payload fill_key now db1,
    )

  -- The fill that the key names already; the key is stripped, and empty where there is none.
  unfoldable pub prior_fill : ℕ → String → Db F → Option (Fill F)
  prior_fill order_id fill_key db =
      if str_eq fill_key "" then none else find_fill order_id fill_key db.fills

  abbrev pub replay_or_book :
      ℕ
      → Order F
      → ℕ
      → F
      → String
      → String
      → String
      → Db F
      → Option (Fill F)
      → Result (FillResult × Db F)
  replay_or_book order_id order qty price payload fill_key now db (some f) =
      replayed_fill order_id order f qty price db
  replay_or_book order_id order qty price payload fill_key now db none =
      new_fill order_id order qty price payload fill_key now db

  unfoldable pub apply_managed_fill :
      ℕ → ℤ → F → String → String → String → Db F → Result (FillResult × Db F)
  apply_managed_fill order_id fill_qty price payload fill_key now db = do
    guard (positive fill_qty && not (fl.le price (fl.of_nat 0)))
        (value_error "fill_qty and fill_price must be positive")
    order ← require (get_row order_id db.orders) (value_error "managed order not found")
    replay_or_book order_id order (pos_part fill_qty) price payload fill_key now db
        (prior_fill order_id fill_key db)
