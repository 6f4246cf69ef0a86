-- ===== src/Execution/Booking.antt =====
-- Inversion of `apply_managed_fill`: what a booked fill went through, and what it wrote.
use hanstock_svc.Base.{
  ℕ, ℤ, pos_part, ◌+◌, ◌≤◌, String, ◌≡◌, ◌⊎◌, true, false, some, Option-cases, inl, inr, Float,
  get_row, set_row, coalesce, ok, Result-cases, arith,
}
use hanstock_svc.Schema.{Order, OrderAction, Position, Db, buy, sell}
use hanstock_svc.Execution.Sides.{
  bought, sold, weighted, book_side, book_buy, book_sell, protect_bought, reduce_protection,
}
use hanstock_svc.Execution.Fills.{
  status_after_fill, FillResult, accepts_fill, owns, record_fill, new_fill, replayed_fill,
  prior_fill, apply_managed_fill,
}

module _ {F : Type 0} ⦃fl : Float F⦄ where
  -- What a fill that was booked went through.
  pub record Passed (order_id : ℕ) (order : Order F) (qty : ℕ) (price : F)
      (payload key now : String) (db : Db F) (res : FillResult) (db' : Db F) : Type 0 where
    pub pid : ℕ
    pub position : Position F
    pub db1 : Db F
    pub remaining : ℕ
    pub owned : order.position_id ≡ some pid
    pub found : get_row pid db.positions ≡ some position
    pub owner : owns position order ≡ true
    pub live : accepts_fill order.status ≡ true
    pub room : order.filled_qty + qty ≤ order.requested_qty
    pub booked : book_side order.action pid position qty price now db ≡ ok (db1, remaining)
    pub stored : db' ≡ record_fill order_id order qty price payload key now db1
    pub answer : res ≡ record {
      order_id = order_id;
      position_id = pid;
      filled_qty = order.filled_qty + qty;
      order_status = status_after_fill (order.filled_qty + qty) order.requested_qty;
      position_remaining_qty = remaining;
      duplicate = false;
    }

  module _ (order_id : ℕ) (order : Order F) (qty : ℕ) (price : F) (payload key now : String)
      (db : Db F) where
    pub new_fill-Passed :
        (res : FillResult) (db' : Db F)
        → new_fill order_id order qty price payload key now db ≡ ok (res, db')
        → Passed order_id order qty price payload key now db res db'
    unfolding new_fill
    new_fill-Passed res db' h = elim (Option-cases order.position_id) [
      | inl e ↦ absurd (ground arith)
      | inr (pid, e) ↦ elim (Option-cases (get_row pid db.positions)) [
        | inl e2 ↦ absurd (ground arith)
        | inr (p, e2) ↦ elim (Result-cases (book_side order.action pid p qty price now db)) [
          | inl (_, e3) ↦ absurd (ground arith)
          | inr ((db1, rem), e3) ↦ record {
            pid = pid;
            position = p;
            db1 = db1;
            remaining = rem;
            owned = e;
            found = e2;
            owner = ground arith;
            live = ground arith;
            room = ground arith;
            booked = e3;
            stored = ground arith;
            answer = ground arith;
          }
        ]
      ]
    ]

  -- What one side of a fill does to the quantities.
  pub record Booking (action : OrderAction) (pid : ℕ) (p : Position F) (qty : ℕ) (db db1 : Db F)
      (remaining : ℕ) : Type 0 where
    pub orders : db1.orders ≡ db.orders
    pub fills : db1.fills ≡ db.fills
    pub change : Position F → Position F
    pub positions : db1.positions ≡ set_row pid change db.positions
    pub left_open : (change p).remaining_qty ≡ remaining
    pub by_side :
        ((action ≡ buy)
          × (remaining ≡ p.remaining_qty + qty)
          × ((change p).filled_qty ≡ p.filled_qty + qty))
        ⊎ ((action ≡ sell)
            × (remaining + qty ≡ p.remaining_qty)
            × ((change p).filled_qty ≡ p.filled_qty))

  book_buy-Booking :
      (pid : ℕ) (p : Position F) (qty : ℕ) (price : F) (now : String) (db db1 : Db F)
      (remaining : ℕ)
      → book_buy pid p qty price now db ≡ ok (db1, remaining)
      → Booking buy pid p qty db db1 remaining
  unfolding book_buy protect_bought
  book_buy-Booking pid p qty price now db db1 remaining h = record {
    orders = ground arith;
    fills = ground arith;
    change =
        bought qty price
          (weighted (coalesce p.average_price (fl.of_nat 0)) p.remaining_qty price qty) now;
    positions = ground arith;
    left_open = ground arith;
    by_side = ground arith;
  }

  book_sell-Booking :
      (pid : ℕ) (p : Position F) (qty : ℕ) (price : F) (now : String) (db db1 : Db F)
      (remaining : ℕ)
      → book_sell pid p qty price now db ≡ ok (db1, remaining)
      → Booking sell pid p qty db db1 remaining
  unfolding book_sell reduce_protection
  book_sell-Booking pid p qty price now db db1 remaining h = record {
    orders = ground arith;
    fills = ground arith;
    change =
        sold qty (fl.mul (fl.sub price (coalesce p.average_price (fl.of_nat 0))) (fl.of_nat qty))
          now;
    positions = ground arith;
    left_open = ground arith;
    by_side = ground arith;
  }

  -- Either side of a fill changes the quantities of its position by the filled quantity.
  pub book_side-Booking :
      (action : OrderAction) (pid : ℕ) (p : Position F) (qty : ℕ) (price : F) (now : String)
      (db db1 : Db F) (remaining : ℕ)
      → book_side action pid p qty price now db ≡ ok (db1, remaining)
      → Booking action pid p qty db db1 remaining
  unfolding book_side
  book_side-Booking buy pid p qty price now db db1 remaining h =
      book_buy-Booking pid p qty price now db db1 remaining h
  book_side-Booking sell pid p qty price now db db1 remaining h =
      book_sell-Booking pid p qty price now db db1 remaining h
  book_side-Booking (OrderAction.other x) pid p qty price now db db1 remaining h = absurd (cc)

  -- A call that returns has replayed a known fill and changed nothing, or has booked a new one.
  pub apply_managed_fill-cases :
      (order_id : ℕ) (fill_qty : ℤ) (price : F) (payload key now : String) (db : Db F)
      (res : FillResult) (db' : Db F)
      → apply_managed_fill order_id fill_qty price payload key now db ≡ ok (res, db')
      → (db' ≡ db)
        ⊎ ((order : Order F) × (get_row order_id db.orders ≡ some order)
            × (new_fill order_id order (pos_part fill_qty) price payload key now db
                ≡ ok (res, db')))
  unfolding apply_managed_fill replayed_fill
  apply_managed_fill-cases order_id fill_qty price payload key now db res db' h =
      elim (Option-cases (get_row order_id db.orders)) [
        | inl e ↦ absurd (ground arith)
        | inr (order, e) ↦ elim (Option-cases (prior_fill order_id key db)) [
          | inl e2 ↦ inr (order, e, ground arith)
          | inr (f, e2) ↦ inl (ground arith)
        ]
      ]

  -- A call that returns and does not say `duplicate` has booked a new fill.
  pub apply_managed_fill-new :
      (order_id : ℕ) (fill_qty : ℤ) (price : F) (payload key now : String) (db : Db F)
      (res : FillResult) (db' : Db F)
      → apply_managed_fill order_id fill_qty price payload key now db ≡ ok (res, db')
      → res.duplicate ≡ false
      → (order : Order F) × (get_row order_id db.orders ≡ some order)
        × (new_fill order_id order (pos_part fill_qty) price payload key now db ≡ ok (res, db'))
  unfolding apply_managed_fill replayed_fill
  apply_managed_fill-new order_id fill_qty price payload key now db res db' h d =
      elim (Option-cases (get_row order_id db.orders)) [
        | inl e ↦ absurd (ground arith)
        | inr (order, e) ↦ elim (Option-cases (prior_fill order_id key db)) [
          | inl e2 ↦ (order, e, ground arith)
          | inr (f, e2) ↦ absurd (ground arith)
        ]
      ]
