-- ===== src/Ledger/SnapshotSteps.antt =====
-- What a report that was applied has checked and written
-- (src/application/orders/repository.py).
use hanstock_svc.Base.{
  ℕ, String, ◌≡◌, refl, true, false, ◌&&◌, ◌||◌, not, ◌≤◌, ◌==◌, some, List, ◌∷◌, ℤ, pos, negsuc,
  Float, ok, ◌-◌, ◌∙◌, if_same, sym, subst, arith, get_row, set_row, value_error,
}
use hanstock_svc.Base.Results.{◌>>◌, raise_if, guard-ok, raise_if-ok, require-ok, bind-ok}
use hanstock_svc.Ledger.Records.{
  PyText, UnifiedOrderStatus, same_unified, LedgerOrder, LedgerEvent, LedgerFill, LedgerPosition,
  fill_delta, LedgerDb,
}
use hanstock_svc.Ledger.Moves.{status_event, add_event, identity_is_free}
use hanstock_svc.Ledger.Statuses.{allows, is_completed}
use hanstock_svc.Ledger.Costs.{Raw}
use hanstock_svc.Ledger.Words.{parse_status}
use hanstock_svc.Ledger.Snapshots.{
  settled_status, snapshot_fill, insert_fill, has_fill, scope_of, check_quantity, check_status,
  synced_order, log_snapshot, book_delta, write_snapshot, reconcile_snapshot,
}
use hanstock_svc.Ledger.Projection.{project_position}

module _ {F : Type 0} ⦃fl : Float F⦄ where
  -- A status that a report may give: the same, or a legal move; and none but the same for an order
  -- that has ended, unless the report adds to its fills.
  pub record MaySettle (o : LedgerOrder F) (n : ℕ) (status : UnifiedOrderStatus) : Type 0 where
    pub legal : (same_unified o.status status || allows o.status status) ≡ true
    pub final :
        (is_completed o.status && (n == o.filled_qty) && not (same_unified status o.status)) ≡ false

  check_quantity-ok :
      (o : LedgerOrder F) (qty : ℤ) (n : ℕ)
      → check_quantity o qty ≡ ok n
      → (qty ≡ pos n) × (o.filled_qty ≤ n) × (n ≤ o.requested_qty)
  check_quantity-ok o (pos m) n h = ground arith
  check_quantity-ok o (negsuc m) n h = absurd (ground arith)

  check_status-ok :
      (o : LedgerOrder F) (n : ℕ) (reported status : UnifiedOrderStatus)
      → check_status o n reported ≡ ok status
      → (status ≡ settled_status n o.requested_qty reported) × MaySettle o n status
  check_status-ok o n reported status h =
      let s = settled_status n o.requested_qty reported in
      let regresses =
        is_completed o.status && (n == o.filled_qty) && not (same_unified s o.status) in
      let illegal = not (same_unified o.status s) && not (allows o.status s) in
      let (final, h1) =
        raise_if-ok regresses (value_error "broker snapshot cannot regress terminal order")
          (raise_if illegal (value_error "invalid broker order transition") >> ok s) status h in
      let (legal, h2) =
        raise_if-ok illegal (value_error "invalid broker order transition") (ok s) status h1 in
      let same : s ≡ status = (ground arith) in
      (sym same, subst (MaySettle o n) same (record { legal = ground arith; final = final }))

  pub log_snapshot-orders :
      (oid : ℕ) (o : LedgerOrder F) (status : UnifiedOrderStatus) (n : ℕ) (now : String)
      (db : LedgerDb F)
      → (log_snapshot oid o status n now db).orders ≡ db.orders
  log_snapshot-orders oid o status n now db = ground arith

  -- The event of a report changes no sum.
  pub log_snapshot-tables :
      {C : Type 0} (g : LedgerDb F → C)
      → ((es : List LedgerEvent) (db : LedgerDb F) → g (record db { events = es }) ≡ g db)
      → (oid : ℕ) (o : LedgerOrder F) (status : UnifiedOrderStatus) (n : ℕ) (now : String)
        (db : LedgerDb F)
      → g (log_snapshot oid o status n now db) ≡ g db
  log_snapshot-tables g h oid o status n now db =
      let e =
        status_event oid "broker_snapshot" o.status status "reconciliation"
          "broker order history synchronized" (fill_delta (n - o.filled_qty) n) now in
      if_same (not (same_unified o.status status) || not (n == o.filled_qty)) g (add_event e db) db
        (sym (h (e ∷ db.events) db))
      ∙ h (e ∷ db.events) db

  module _ ⦃tx : PyText⦄ where
    pub reconcile_snapshot-ok :
        (oid : ℕ) (word : String) (qty : ℤ) (average : F) (number date : String) (raw : Raw F)
        (now : String) (db : LedgerDb F) (o' : LedgerOrder F) (db' : LedgerDb F)
        → reconcile_snapshot oid word qty average number date raw now db ≡ ok (o', db')
        → (reported : UnifiedOrderStatus) × (o : LedgerOrder F) × (n : ℕ)
          × (status : UnifiedOrderStatus) × (parse_status (tx.lower word) ≡ some reported)
          × (get_row oid db.orders ≡ some o)
          × (qty ≡ pos n)
          × (o.filled_qty ≤ n)
          × (n ≤ o.requested_qty)
          × (status ≡ settled_status n o.requested_qty reported)
          × MaySettle o n status
          × (write_snapshot oid o status n average number date now
                (book_delta oid o n average number date raw now db)
              ≡ ok (o', db'))
    unfolding reconcile_snapshot
    reconcile_snapshot-ok oid word qty average number date raw now db o' db' h =
        let (reported, p, h1) = require-ok (parse_status (tx.lower word)) _ _ (o', db') h in
        let (o, e, h2) = require-ok (get_row oid db.orders) _ _ (o', db') h1 in
        let (n, c, h3) = bind-ok (check_quantity o qty) _ (o', db') h2 in
        let (status, d, h4) = bind-ok (check_status o n reported) _ (o', db') h3 in
        let (qn, low, high) = check_quantity-ok o qty n c in
        let (settled, may) = check_status-ok o n reported status d in
        (reported, o, n, status, p, e, qn, low, high, settled, may, h4)

    pub write_snapshot-ok :
        (oid : ℕ) (o : LedgerOrder F) (status : UnifiedOrderStatus) (n : ℕ) (average : F)
        (number date now : String) (db : LedgerDb F) (o' : LedgerOrder F) (db' : LedgerDb F)
        → write_snapshot oid o status n average number date now db ≡ ok (o', db')
        → (identity_is_free oid (synced_order status n average number date now o) db.orders.rows
            ≡ true)
          × (o' ≡ synced_order status n average number date now o)
          × (db'
              ≡ log_snapshot oid o status n now (record db {
                orders =
                    set_row oid (λ p. synced_order status n average number date now o) db.orders;
              }))
    write_snapshot-ok oid o status n average number date now db o' db' h =
        let (free, h1) =
          guard-ok
            (identity_is_free oid (synced_order status n average number date now o) db.orders.rows)
            _ _ (o', db') h in
        (free, ground arith, ground arith)

    book_delta-same :
        {C : Type 0} (g : LedgerDb F → C)
        → ((ps : List (LedgerPosition F)) (fs : List (LedgerFill F)) (db : LedgerDb F)
            → g (record db { positions = ps; fills = fs }) ≡ g db)
        → (oid : ℕ) (o : LedgerOrder F) (n : ℕ) (average : F) (number date : String) (raw : Raw F)
          (now : String) (db : LedgerDb F)
        → g (book_delta oid o n average number date raw now db) ≡ g db
    book_delta-same g h oid o n average number date raw now db =
        let f = snapshot_fill oid o n average number date raw now db.fills in
        let booked = insert_fill f db in
        if_same (n == o.filled_qty) g db (project_position (scope_of o) now booked) (
          h (project_position (scope_of o) now booked).positions booked.fills booked
          ∙ if_same (has_fill f.fill_key db.fills) g db (record db { fills = f ∷ db.fills })
              (h db.positions (f ∷ db.fills) db))

    -- The delta is booked in fills and positions only.
    pub book_delta-orders :
        (oid : ℕ) (o : LedgerOrder F) (n : ℕ) (average : F) (number date : String) (raw : Raw F)
        (now : String) (db : LedgerDb F)
        → (book_delta oid o n average number date raw now db).orders ≡ db.orders
    book_delta-orders = book_delta-same (λ d. d.orders) (λ ps fs db. refl)

    pub book_delta-events :
        (oid : ℕ) (o : LedgerOrder F) (n : ℕ) (average : F) (number date : String) (raw : Raw F)
        (now : String) (db : LedgerDb F)
        → (book_delta oid o n average number date raw now db).events ≡ db.events
    book_delta-events = book_delta-same (λ d. d.events) (λ ps fs db. refl)
