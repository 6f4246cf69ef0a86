-- ===== src/Ledger/Steps.antt =====
-- What an operation of the ledger that returned has checked and written.
use hanstock_svc.Base.{
  ℕ, String, ◌≡◌, refl, true, none, some, Float, ok, if_same, arith, get_row, set_row, insert_row,
  find_where, str_eq, Option-cases, Bool-cases, inl, inr, ◌⊎◌,
}
use hanstock_svc.Base.Results.{guard-ok, require-ok, bind-ok}
use hanstock_svc.Ledger.Records.{
  PyText, UnifiedOrderStatus, same_unified, OrderSide, LedgerOrder, text, LedgerDb,
}
use hanstock_svc.Ledger.Moves.{
  has_created, created_event, status_event, add_event, identity_is_free, new_order, log_created,
  insert_or_load, create_order, moved_order, transition_order, bound_order, bind_broker_result,
  record_event,
}
use hanstock_svc.Ledger.Intents.{OrderIntent, check_intent}
use hanstock_svc.Ledger.Statuses.{allows, status_text}

module _ {F : Type 0} ⦃fl : Float F⦄ where
  pub log_created-orders :
      (oid : ℕ) (status : UnifiedOrderStatus) (now : String) (db : LedgerDb F)
      → (log_created oid status now db).orders ≡ db.orders
  log_created-orders oid status now db =
      if_same (has_created oid db.events) (λ d. d.orders) db
        (add_event (created_event oid status now) db) refl

  module _ ⦃tx : PyText⦄ where
    -- A creation has found the row of the key, or has inserted it.
    pub create_order-ok :
        (i : OrderIntent F) (status : UnifiedOrderStatus) (now : String) (db : LedgerDb F)
        (x : ℕ × LedgerOrder F) (db' : LedgerDb F)
        → create_order i status now db ≡ ok (x, db')
        → (side : OrderSide) × (check_intent i ≡ ok side)
          × (((find_where (λ o. str_eq o.client_order_key i.client_order_key) db.orders.rows
                  ≡ some x)
                × (db' ≡ log_created x.0 status now db))
              ⊎ ((find_where (λ o. str_eq o.client_order_key i.client_order_key) db.orders.rows
                    ≡ none)
                  × (x ≡ (db.orders.next_id, new_order i side status now))
                  × (db'
                      ≡ log_created db.orders.next_id status now (record db {
                        orders = insert_row (new_order i side status now) db.orders;
                      }))))
    unfolding create_order insert_or_load
    create_order-ok i status now db x db' h =
        let (side, c, h1) = bind-ok (check_intent i) _ (x, db') h in
        elim (Option-cases
          (find_where (λ o. str_eq o.client_order_key i.client_order_key) db.orders.rows)) [
            | inr (found, e) ↦ (side, c, inl (ground arith, ground arith))
            | inl e ↦
                elim (Bool-cases (
                  identity_is_free db.orders.next_id (new_order i side status now)
                    db.orders.rows)) [
                      | inl free ↦ (side, c, inr (e, ground arith, ground arith))
                      | inr taken ↦ absurd (ground arith)
                    ]
          ]

  -- A transition has found the expected status, and moves the order.
  pub transition_order-ok :
      (oid : ℕ) (expected target : UnifiedOrderStatus) (actor reason payload now : String)
      (db : LedgerDb F) (o' : LedgerOrder F) (db' : LedgerDb F)
      → transition_order oid expected target actor reason payload now db ≡ ok (o', db')
      → (allows expected target ≡ true)
        × (o : LedgerOrder F) × (get_row oid db.orders ≡ some o)
        × (o.status ≡ expected)
        × (o' ≡ moved_order target now o)
        × (db'
            ≡ add_event
                (status_event oid
                  (status_text target)
                  expected
                  target
                  actor
                  reason
                  (text payload)
                  now)
                (record db { orders = set_row oid (λ p. moved_order target now o) db.orders }))
  unfolding transition_order
  transition_order-ok oid expected target actor reason payload now db o' db' h =
      let (legal, h1) = guard-ok (allows expected target) _ _ (o', db') h in
      let (o, e, h2) = require-ok (get_row oid db.orders) _ _ (o', db') h1 in
      let (same, h3) = guard-ok (same_unified o.status expected) _ _ (o', db') h2 in
      (legal, o, e, ground arith, ground arith, ground arith)

  pub record_event-ok :
      (oid : ℕ) (kind actor reason payload now : String) (db db' : LedgerDb F)
      → record_event oid kind actor reason payload now db ≡ ok (tt, db')
      → (o : LedgerOrder F) × (get_row oid db.orders ≡ some o)
        × (db'
            ≡ add_event
                (status_event oid kind o.status o.status actor reason (text payload) now)
                db)
  unfolding record_event
  record_event-ok oid kind actor reason payload now db db' h =
      let (o, e, h1) = require-ok (get_row oid db.orders) _ _ (tt, db') h in (o, e, ground arith)

  -- A binding names the order, or there is no such order.
  pub bind_broker_result-ok :
      (oid : ℕ) (number date message now : String) (db db' : LedgerDb F)
      → bind_broker_result oid number date message now db ≡ ok (tt, db')
      → (db' ≡ db)
        ⊎ ((o : LedgerOrder F) × (get_row oid db.orders ≡ some o)
            × (db' ≡ record db {
              orders = set_row oid (λ p. bound_order number date message now o) db.orders;
            }))
  unfolding bind_broker_result
  bind_broker_result-ok oid number date message now db db' h =
      elim (Option-cases (get_row oid db.orders)) [
        | inl e ↦ inl (ground arith)
        | inr (o, e) ↦
            elim (Bool-cases
              (identity_is_free oid (bound_order number date message now o) db.orders.rows)) [
                | inl free ↦ inr (o, e, ground arith)
                | inr taken ↦ absurd (ground arith)
              ]
      ]
