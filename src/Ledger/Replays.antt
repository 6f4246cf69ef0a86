-- ===== src/Ledger/Replays.antt =====
-- What a second call of an operation does (src/application/orders/repository.py).
use hanstock_svc.Base.{
  ℕ, String, ◌≡◌, refl, sym, ap, ◌∙◌, true, false, some, Float, Bool-cases, inl, inr, arith,
  get_row, insert_row, find_where, find_where-append_row, find_row-update_row_self, str_eq, eq_iff,
  ok, err, runtime_error,
}
use hanstock_svc.Ledger.Records.{
  PyText, UnifiedOrderStatus, same_unified, OrderSide, LedgerOrder, LedgerDb,
}
use hanstock_svc.Ledger.Moves.{
  new_order, insert_or_load, create_order, has_created, log_created, moved_order, transition_order,
}
use hanstock_svc.Ledger.Intents.{OrderIntent, check_intent}
use hanstock_svc.Ledger.Statuses.{allows}
use hanstock_svc.Ledger.Steps.{log_created-orders, create_order-ok, transition_order-ok}

module _ {F : Type 0} ⦃fl : Float F⦄ where
  created_there :
      (oid : ℕ) (status : UnifiedOrderStatus) (now : String) (db : LedgerDb F)
      → has_created oid (log_created oid status now db).events ≡ true
  unfolding has_created
  created_there oid status now db = elim (Bool-cases (has_created oid db.events)) [
    | inl known ↦ ground arith
    | inr new ↦ ground arith
  ]

  created_stays :
      (oid : ℕ) (status : UnifiedOrderStatus) (now : String) (db : LedgerDb F)
      → has_created oid db.events ≡ true
      → log_created oid status now db ≡ db
  created_stays oid status now db h = ground arith

  module _ ⦃tx : PyText⦄ where
    -- A second creation under a key, of a valid intent, answers with the first order, and writes nothing, whatever else
    -- the second intent says.
    pub create_order-replay :
        (i j : OrderIntent F) (status again : UnifiedOrderStatus) (now later : String)
        (db : LedgerDb F) (x : ℕ × LedgerOrder F) (db' : LedgerDb F) (side : OrderSide)
        → create_order i status now db ≡ ok (x, db')
        → j.client_order_key ≡ i.client_order_key
        → check_intent j ≡ ok side
        → create_order j again later db' ≡ ok (x, db')
    unfolding create_order insert_or_load
    create_order-replay i j status again now later db x db' side h key valid =
        let (first, _, found) = create_order-ok i status now db x db' h in
        let p = λ (o : LedgerOrder F). str_eq o.client_order_key i.client_order_key in
        let q = λ (o : LedgerOrder F). str_eq o.client_order_key j.client_order_key in
        let (there, known) : (find_where p db'.orders.rows ≡ some x)
            × (has_created x.0 db'.events ≡ true) =
          elim found [
            | inl (e, w) ↦ (
              ap (λ d. find_where p d.orders.rows) w
                  ∙ ap (λ t. find_where p t.rows) (log_created-orders x.0 status now db)
                  ∙ e,
              ap (λ d. has_created x.0 d.events) w ∙ created_there x.0 status now db,
            )
            | inr (e, xw, w) ↦
                let o = new_order i first status now in
                let db1 : LedgerDb F = record db { orders = insert_row o db.orders } in
                (
                  ap (λ d. find_where p d.orders.rows) w
                      ∙ ap (λ t. find_where p t.rows)
                          (log_created-orders db.orders.next_id status now db1)
                      ∙ find_where-append_row p db.orders.next_id o db.orders.rows e
                          ((eq_iff i.client_order_key i.client_order_key).1 refl)
                      ∙ ap some (sym xw),
                  ap (λ y. has_created y.0 db'.events) xw
                      ∙ ap (λ d. has_created db.orders.next_id d.events) w
                      ∙ created_there db.orders.next_id status now db1,
                )
          ] in
        let again_there : find_where q db'.orders.rows ≡ some x =
          ap (λ k. find_where (λ (o : LedgerOrder F). str_eq o.client_order_key k) db'.orders.rows)
            key
          ∙ there in
        let stays = created_stays x.0 again later db' known in ground arith

  -- Of two transitions of an order from the same status, where the first leads to another one, the
  -- second is refused.
  pub transition_order-once :
      (oid : ℕ) (expected target other : UnifiedOrderStatus)
      (actor reason payload now actor' reason' payload' later : String) (db : LedgerDb F)
      (x : LedgerOrder F) (db' : LedgerDb F)
      → transition_order oid expected target actor reason payload now db ≡ ok (x, db')
      → same_unified target expected ≡ false
      → allows expected other ≡ true
      → transition_order oid expected other actor' reason' payload' later db'
        ≡ err (runtime_error "order state changed concurrently")
  unfolding transition_order
  transition_order-once oid expected target other actor reason payload now actor' reason' payload'
        later db x db' h off legal =
      let (_, o, e, _, _, w) =
        transition_order-ok oid expected target actor reason payload now db x db' h in
      let there = find_row-update_row_self oid (λ p. moved_order target now o) db.orders.rows o e in
      let row : get_row oid db'.orders ≡ some (moved_order target now o) =
        ap (λ d. get_row oid d.orders) w ∙ there in
      ground arith
