-- ===== src/Execution/Replay.antt =====
-- A broker fill that is reported again under its key is not booked again.
use text.Mathlib.TextPositions.{eq_refl}
use hanstock_svc.Base.{
  ℕ, suc, String, ◌≡◌, refl, true, false, ◌&&◌, some, ◌==◌, ==_refl, ℤ, pos, pos_part, Float,
  get_row, find_row-update_row_self, ok, err, value_error, arith, str_eq, if◌then◌else◌,
}
use hanstock_svc.Schema.{Order, Db, Fill}
use hanstock_svc.Execution.Sides.{weighted}
use hanstock_svc.Execution.Fills.{
  FillResult, find_fill, record_fill, filled_order, replayed_fill, prior_fill, apply_managed_fill,
}
use hanstock_svc.Execution.Booking.{
  Passed, Booking, new_fill-Passed, book_side-Booking, apply_managed_fill-new,
}

module _ {F : Type 0} ⦃fl : Float F⦄ where
  module _ (order_id : ℕ) (order : Order F) (qty : ℕ) (price : F) (payload key now : String)
      (db : Db F) (res : FillResult) (db' : Db F) (here : get_row order_id db.orders ≡ some order)
      (f : Passed order_id order qty price payload key now db res db')
      (b : Booking order.action f.pid f.position qty db f.db1 f.remaining) where
    order-after :
        get_row order_id db'.orders
        ≡ some (
            filled_order qty
              (weighted order.average_fill_price order.filled_qty price qty)
              now
              order)
    unfolding record_fill
    order-after = ground (
      arith,
      f.stored,
      b.orders,
      find_row-update_row_self order_id
          (filled_order qty (weighted order.average_fill_price order.filled_qty price qty) now)
          db.orders.rows order here,
    )

    position-after : get_row f.pid db'.positions ≡ some (b.change f.position)
    unfolding record_fill
    position-after = ground (
      arith,
      f.stored,
      b.positions,
      find_row-update_row_self f.pid b.change db.positions.rows f.position f.found,
    )

    prior-after :
        str_eq key "" ≡ false
        → (g : Fill F) × (prior_fill order_id key db' ≡ some g)
          × (g.fill_qty ≡ qty)
          × (g.fill_price ≡ price)
    unfolding prior_fill find_fill record_fill
    prior-after k = (
      record {
        order_id = order_id;
        fill_key = key;
        fill_qty = qty;
        fill_price = price;
        broker_payload = payload;
        created_at = now;
      },
      ground (arith, f.stored, ==_refl order_id, eq_refl key),
      refl,
      refl,
    )

    replay :
        str_eq key "" ≡ false
        → (n : ℕ) (price2 : F) (payload2 now2 : String) → fl.le price2 (fl.of_nat 0) ≡ false
        → apply_managed_fill order_id (pos (suc n)) price2 payload2 key now2 db' ≡ (
            if (qty == suc n) && fl.eq price price2
            then ok (record res { duplicate = true }, db')
            else err (value_error "fill_key already identifies a different fill"))
    unfolding apply_managed_fill replayed_fill
    replay k n price2 payload2 now2 p =
        let (g, e, eq, ep) = prior-after k in
        ground (arith, f.owned, f.answer, b.left_open, order-after, position-after)

  -- After a fill with a key was booked, a report under that key is answered from the books: the
  -- same quantity and price give the same answer, marked as a duplicate, and change nothing; any
  -- other quantity or price is refused.
  pub apply_managed_fill-replay :
      (order_id : ℕ) (fill_qty : ℤ) (price : F) (payload key now : String) (db : Db F)
      (res : FillResult) (db' : Db F) (n : ℕ) (price2 : F) (payload2 now2 : String)
      → str_eq key "" ≡ false
      → apply_managed_fill order_id fill_qty price payload key now db ≡ ok (res, db')
      → res.duplicate ≡ false
      → fl.le price2 (fl.of_nat 0) ≡ false
      → apply_managed_fill order_id (pos (suc n)) price2 payload2 key now2 db' ≡ (
          if (pos_part fill_qty == suc n) && fl.eq price price2
          then ok (record res { duplicate = true }, db')
          else err (value_error "fill_key already identifies a different fill"))
  apply_managed_fill-replay order_id fill_qty price payload key now db res db' n price2 payload2
        now2 k h d p =
      let (order, here, booked) =
        apply_managed_fill-new order_id fill_qty price payload key now db res db' h d in
      let f =
        new_fill-Passed order_id order (pos_part fill_qty) price payload key now db res db'
          booked in
      replay order_id order (pos_part fill_qty) price payload key now db res db' here f
        (book_side-Booking order.action f.pid f.position (pos_part fill_qty) price now db f.db1
          f.remaining f.booked)
        k n price2 payload2 now2 p
