-- ===== src/OrderState/Methods.antt =====
-- Every method of the order service keeps a relation between the rows of an order that its legal
-- moves and its fills have.
use hanstock_svc.Base.{
  ℕ, String, ◌≡◌, Option, none, some, ℤ, pos_part, Float, Result, ok, err, inl, inr, arith,
}
use hanstock_svc.Base.Actions.{transaction}
use hanstock_svc.Base.Keeps.{Keeps, Keeps-read, Keeps-transaction, keeps_rules}
use hanstock_svc.Schema.{Db, Order, OrderStatus}
use hanstock_svc.Execution.{apply_managed_fill, FillResult, record_fill, weighted, filled_order}
use hanstock_svc.Execution.Booking.{new_fill-Passed, book_side-Booking, apply_managed_fill-cases}
use hanstock_svc.OrderState.Transitions.{Clock, parse_time, expire_if_due, approve}
use hanstock_svc.OrderState.Broker.{
  Service, BrokerGateway, BrokerSubmission, BrokerCancellation, Authorization, submit,
  claim_and_submit, settle_submission, cancel, cancel_at_broker, settle_cancellation,
}
use hanstock_svc.OrderState.Fills.{finalize_if_filled, apply_fill}
use hanstock_svc.OrderState.Protecting.{Keeps-protect_fill}
use hanstock_svc.OrderState.Rows.{
  RowLaw, RowsKept, RowsKept-IsPreorder, RowsKept-same, RowsKept-set, Keeps-SameBooks,
  Keeps-require_order, Keeps-finalize_reservation, Keeps-transition,
}

ruleset row_rules = (
  keeps_rules, RowsKept-IsPreorder, Keeps-require_order, Keeps-finalize_reservation,
  Keeps-transition,
)

module _ {F : Type 0} ⦃fl : Float F⦄ {E : Order F → Order F → Type 0} (law : RowLaw E) where
  pub Keeps-approve :
      (oid aid : ℕ) (expected : OrderStatus) (now : String)
      → Keeps (RowsKept E) (approve oid aid expected now)
  unfolding approve
  Keeps-approve oid aid expected now = search row_rules

  Keeps-parse_time :
      (c : Clock) (t : Option String) → Keeps (RowsKept E) (λ (db : Db F). (parse_time c t, db))
  Keeps-parse_time c t = Keeps-read (RowsKept-IsPreorder law) (λ db. parse_time c t)

  pub Keeps-expire_if_due :
      (oid : ℕ) (expected : OrderStatus) (c : Clock)
      → Keeps (RowsKept E) (expire_if_due oid expected c)
  unfolding expire_if_due
  Keeps-expire_if_due oid expected c = search (row_rules, Keeps-parse_time) depth 8

  Keeps-settle_submission :
      (oid : ℕ) (r : Result BrokerSubmission) (now : String)
      → Keeps (RowsKept E) (settle_submission oid r now)
  unfolding settle_submission
  Keeps-settle_submission oid (ok r) now = search row_rules
  Keeps-settle_submission oid (err e) now = search row_rules

  Keeps-claim_and_submit :
      (oid : ℕ) (broker : BrokerGateway F) (now : String)
      → Keeps (RowsKept E) (claim_and_submit oid broker now)
  unfolding claim_and_submit
  Keeps-claim_and_submit oid broker now = search (row_rules, Keeps-settle_submission)

  pub Keeps-submit :
      (s : Service F) (oid : ℕ) (broker : BrokerGateway F) (a : Option Authorization) (c : Clock)
      → Keeps (RowsKept E) (submit s oid broker a c)
  unfolding submit
  Keeps-submit s oid broker a c =
      search (row_rules, Keeps-expire_if_due, Keeps-claim_and_submit) depth 10

  Keeps-settle_cancellation :
      (oid : ℕ) (o : Order F) (r : Result BrokerCancellation) (now : String)
      → Keeps (RowsKept E) (settle_cancellation oid o r now)
  unfolding settle_cancellation
  Keeps-settle_cancellation oid o (ok r) now = search row_rules
  Keeps-settle_cancellation oid o (err e) now = search row_rules

  Keeps-cancel_at_broker :
      (oid : ℕ) (expected : OrderStatus) (broker : Option (BrokerGateway F)) (now : String)
      → Keeps (RowsKept E) (cancel_at_broker oid expected broker now)
  unfolding cancel_at_broker
  Keeps-cancel_at_broker oid expected none now = search row_rules
  Keeps-cancel_at_broker oid expected (some b) now = search (row_rules, Keeps-settle_cancellation)

  pub Keeps-cancel :
      (oid : ℕ) (expected : OrderStatus) (broker : Option (BrokerGateway F)) (now : String)
      → Keeps (RowsKept E) (cancel oid expected broker now)
  unfolding cancel
  Keeps-cancel oid expected broker now = search (row_rules, Keeps-cancel_at_broker)

  fill-RowsKept :
      (oid : ℕ) (qty : ℤ) (price : F) (payload key now : String) (db db' : Db F) (res : FillResult)
      → apply_managed_fill oid qty price payload key now db ≡ ok (res, db')
      → RowsKept E db db'
  unfolding record_fill
  fill-RowsKept oid qty price payload key now db db' res h =
      elim (apply_managed_fill-cases oid qty price payload key now db res db' h) [
        | inl same ↦ RowsKept-same law db db' (ground arith)
        | inr (order, here, booked) ↦
            let f =
              new_fill-Passed oid order (pos_part qty) price payload key now db res db' booked in
            let b =
              book_side-Booking order.action f.pid f.position (pos_part qty) price now db f.db1
                f.remaining f.booked in
            RowsKept-set law db db' oid order
              (filled_order (pos_part qty)
                (weighted order.average_fill_price order.filled_qty price (pos_part qty)) now)
              here
              (law.fill order (pos_part qty)
                (weighted order.average_fill_price order.filled_qty price (pos_part qty)) now
                f.live)
              (ground (arith, f.stored, b.orders))
      ]

  Keeps-fill :
      (oid : ℕ) (qty : ℤ) (price : F) (payload key now : String)
      → Keeps (RowsKept E) (transaction (apply_managed_fill oid qty price payload key now))
  Keeps-fill oid qty price payload key now =
      Keeps-transaction (RowsKept-IsPreorder law) _
        λ s r s' h. fill-RowsKept oid qty price payload key now s s' r h

  Keeps-finalize_if_filled :
      (oid : ℕ) (status : OrderStatus) (now : String)
      → Keeps (RowsKept E) (finalize_if_filled oid status now)
  unfolding finalize_if_filled
  Keeps-finalize_if_filled oid status now = search row_rules depth 8

  pub Keeps-apply_fill :
      (s : Service F) (oid : ℕ) (qty : ℤ) (price : F) (payload key now : String)
      → Keeps (RowsKept E) (apply_fill s oid qty price payload key now)
  unfolding apply_fill
  Keeps-apply_fill s oid qty price payload key now =
      search (row_rules, Keeps-fill, Keeps-SameBooks, Keeps-protect_fill, Keeps-finalize_if_filled)
        depth 10
