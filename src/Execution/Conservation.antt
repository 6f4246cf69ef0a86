-- ===== src/Execution/Conservation.antt =====
-- The quantities of orders and positions agree, whatever fills are booked.
use hanstock_svc.Base.{
  ℕ, ◌+◌, String, ◌≡◌, Bool, true, false, ◌&&◌, none, some, ◌==◌, Bool-cases, inl, inr, ℤ, pos_part,
  Float, get_row, set_row, subst, sym, update_row, sum_where, sum_where-update_row,
  find_row-update_row_self, find_row-update_row_ne, set_row-IsTable, IsTable, ok, arith,
  if◌then◌else◌,
}
use hanstock_svc.Schema.{Order, OrderAction, Position, Db, buy, sell}
use hanstock_svc.Execution.Sides.{weighted}
use hanstock_svc.Execution.Fills.{FillResult, record_fill, filled_order, apply_managed_fill}
use hanstock_svc.Execution.Booking.{
  Passed, Booking, new_fill-Passed, book_side-Booking, apply_managed_fill-cases,
}

abbrev pub is_side : OrderAction → OrderAction → Bool
is_side buy buy = true
is_side sell sell = true
is_side _ _ = false

module _ {F : Type 0} where
  -- The order trades this position, on this side.
  abbrev pub trades : OrderAction → ℕ → Order F → Bool
  trades side pid o = elim o.position_id [
    | none ↦ false
    | some q ↦ (q == pid) && is_side side o.action
  ]

  -- What the orders of one side have filled of a position.
  abbrev pub filled_on : OrderAction → ℕ → Db F → ℕ
  filled_on side pid db = sum_where (trades side pid) (λ o. o.filled_qty) db.orders.rows

  -- Every position holds what its buy orders filled less what its sell orders filled.
  pub record IsConserved (db : Db F) : Type 0 where
    pub order_ids : IsTable db.orders
    pub entered :
        (pid : ℕ) (p : Position F)
        → get_row pid db.positions ≡ some p
        → p.filled_qty ≡ filled_on buy pid db
    pub held :
        (pid : ℕ) (p : Position F)
        → get_row pid db.positions ≡ some p
        → p.remaining_qty + filled_on sell pid db ≡ filled_on buy pid db

module _ {F : Type 0} ⦃fl : Float F⦄ where
  module _ (order_id : ℕ) (order : Order F) (qty : ℕ) (average : F) (now : String) (db : Db F) where
    -- One order's fill moves the sum of its own side of its own position, and no other.
    filled_on-fill :
        (side : OrderAction) (pid : ℕ)
        → IsTable db.orders
        → get_row order_id db.orders ≡ some order
        → sum_where
            (trades side pid)
            (λ o. o.filled_qty)
            (update_row order_id (filled_order qty average now) db.orders.rows)
          ≡ filled_on side pid db + (if trades side pid order then qty else 0)
    filled_on-fill side pid keyed here = ground (
      arith,
      sum_where-update_row (trades side pid) (λ o. o.filled_qty) order_id
          (filled_order qty average now) db.orders.rows order keyed.0 here,
    )

  module _ (order_id : ℕ) (order : Order F) (qty : ℕ) (price : F) (payload key now : String)
      (db : Db F) (res : FillResult) (db' : Db F) (here : get_row order_id db.orders ≡ some order)
      (c : IsConserved db) (f : Passed order_id order qty price payload key now db res db')
      (b : Booking order.action f.pid f.position qty db f.db1 f.remaining) where
    average : F
    average = weighted order.average_fill_price order.filled_qty price qty

    orders-fill : db'.orders ≡ set_row order_id (filled_order qty average now) db.orders
    unfolding record_fill average
    orders-fill = ground (arith, f.stored, b.orders)

    positions-fill : db'.positions.rows ≡ update_row f.pid b.change db.positions.rows
    unfolding record_fill
    positions-fill = ground (arith, f.stored, b.positions)

    filled_on-after :
        (side : OrderAction) (pid : ℕ)
        → filled_on side pid db'
          ≡ filled_on side pid db + (if trades side pid order then qty else 0)
    filled_on-after side pid =
        rw orders-fill (filled_on-fill order_id order qty average now db side pid c.order_ids here)

    held-fill :
        (pid : ℕ) (p : Position F)
        → get_row pid db'.positions ≡ some p
        → (p.filled_qty ≡ filled_on buy pid db')
          × (p.remaining_qty + filled_on sell pid db' ≡ filled_on buy pid db')
    held-fill pid p e = elim (Bool-cases (pid == f.pid)) [
      | inl same ↦ ground (
        arith,
        filled_on-after buy pid,
        filled_on-after sell pid,
        positions-fill,
        f.owned,
        f.found,
        b.by_side,
        b.left_open,
        c.entered pid f.position,
        c.held pid f.position,
        find_row-update_row_self pid b.change db.positions.rows f.position,
      )
      | inr other ↦ ground (
        arith,
        filled_on-after buy pid,
        filled_on-after sell pid,
        positions-fill,
        f.owned,
        c.entered pid p,
        c.held pid p,
        find_row-update_row_ne pid f.pid b.change db.positions.rows,
      )
    ]

    Passed-IsConserved : IsConserved db'
    Passed-IsConserved = record {
      order_ids =
          subst IsTable (sym orders-fill)
            (set_row-IsTable order_id (filled_order qty average now) db.orders c.order_ids);
      entered = λ pid p e. (held-fill pid p e).0;
      held = λ pid p e. (held-fill pid p e).1;
    }

  -- The invariant of the books: `apply_managed_fill`, whatever it is given, keeps that every
  -- position's entered quantity is what its buy orders filled, and that its open quantity is that
  -- less what its sell orders filled.
  pub apply_managed_fill-IsConserved :
      (order_id : ℕ) (fill_qty : ℤ) (price : F) (payload key now : String) (db : Db F)
      (res : FillResult) (db' : Db F)
      → IsConserved db
      → apply_managed_fill order_id fill_qty price payload key now db ≡ ok (res, db')
      → IsConserved db'
  apply_managed_fill-IsConserved order_id fill_qty price payload key now db res db' c h =
      elim (apply_managed_fill-cases order_id fill_qty price payload key now db res db' h) [
        | inl same ↦ subst IsConserved (sym same) c
        | inr (order, here, booked) ↦
            let f =
              new_fill-Passed order_id order (pos_part fill_qty) price payload key now db res db'
                booked in
            Passed-IsConserved order_id order (pos_part fill_qty) price payload key now db res db'
              here c f
              (book_side-Booking order.action f.pid f.position (pos_part fill_qty) price now db
                f.db1 f.remaining f.booked)
      ]
