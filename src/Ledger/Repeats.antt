-- ===== src/Ledger/Repeats.antt =====
-- The same report of a broker, applied twice (src/application/orders/repository.py).
use hanstock_svc.Base.{
  ℕ, String, ◌≡◌, refl, sym, ap, subst, ◌∙◌, ◌==◌, ◌+◌, ◌≤◌, true, not, Option, some, [], ◌∷◌, ℤ,
  pos, Float, Bool-cases, inl, inr, arith, get_row, set_row, Rows, update_row,
  find_row-update_row_self, if◌then◌else◌, ok, ==_refl,
}
use hanstock_svc.Ledger.Records.{PyText, UnifiedOrderStatus, same_unified, LedgerOrder, LedgerDb}
use hanstock_svc.Ledger.Costs.{Raw}
use hanstock_svc.Ledger.Moves.{identity_taken, identity_is_free, text_of, or_old, or_old_id}
use hanstock_svc.Ledger.Statuses.{is_completed}
use hanstock_svc.Ledger.Words.{parse_status}
use hanstock_svc.Ledger.Snapshots.{
  settled_status, check_quantity, check_settled, check_status, scope_of, insert_fill, snapshot_fill,
  synced_order, log_snapshot, book_delta, write_snapshot, reconcile_snapshot,
}
use hanstock_svc.Base.Results.{require-run, bind-run, guard-run}
use hanstock_svc.Ledger.Projection.{project_position}
use hanstock_svc.Ledger.SnapshotSteps.{
  reconcile_snapshot-ok, write_snapshot-ok, book_delta-orders, log_snapshot-orders,
}

same_unified_refl : (s : UnifiedOrderStatus) → same_unified s s ≡ true
same_unified_refl s = ground arith

or_old_twice : (new old : String) → or_old new (or_old new old) ≡ or_old new old
or_old_twice new old = ground arith

or_old_id_twice :
    (new : String) (old : Option String) → or_old_id new (or_old_id new old) ≡ or_old_id new old
or_old_id_twice new old = ground arith

module _ {F : Type 0} ⦃fl : Float F⦄ where
  -- A row that a report leaves, but for its version and its times.
  abbrev pub again_order : String → LedgerOrder F → LedgerOrder F
  again_order later o = record o {
    version = o.version + 1;
    last_synced_at = some later;
    completed_at = if is_completed o.status then some later else o.completed_at;
    updated_at = later;
  }

  synced_order-twice :
      (status : UnifiedOrderStatus) (n : ℕ) (average : F) (number date now later : String)
      (o : LedgerOrder F)
      → synced_order status n average number date later
          (synced_order status n average number date now o)
        ≡ again_order later (synced_order status n average number date now o)
  synced_order-twice status n average number date now later o =
      let s1 = synced_order status n average number date now o in
      ap
        (λ a. record (again_order later s1) {
          broker_order_id = a;
          broker_order_date = or_old date s1.broker_order_date;
        })
        (or_old_id_twice number o.broker_order_id)
      ∙ ap (λ b. record (again_order later s1) { broker_order_date = b })
          (or_old_twice date o.broker_order_date)

  -- The index does not look at the row that is written.
  identity_taken-update_row :
      (oid : ℕ) (account market date number : String) (f : LedgerOrder F → LedgerOrder F)
      (rows : Rows (LedgerOrder F))
      → identity_taken oid account market date number (update_row oid f rows)
        ≡ identity_taken oid account market date number rows
  unfolding identity_taken update_row
  identity_taken-update_row oid account market date number f [] = refl
  identity_taken-update_row oid account market date number f ((j, o) ∷ rows) =
      elim (Bool-cases (j == oid)) [
        | inl here ↦ ground (arith, identity_taken-update_row oid account market date number f rows)
        | inr other ↦
            ground (arith, identity_taken-update_row oid account market date number f rows)
      ]

  -- The quantity and the status that a report left are accepted again.
  check_quantity-again :
      (o : LedgerOrder F) (n : ℕ)
      → o.filled_qty ≡ n
      → n ≤ o.requested_qty
      → check_quantity o (pos n) ≡ ok n
  check_quantity-again o n same high = ground arith

  check_settled-again :
      (o : LedgerOrder F) (n : ℕ) (status : UnifiedOrderStatus)
      → o.status ≡ status
      → check_settled o n status ≡ ok status
  check_settled-again o n status same =
      let s : same_unified status o.status ≡ true =
        ap (same_unified status) same ∙ same_unified_refl status in
      let t : same_unified o.status status ≡ true =
        ap (λ u. same_unified u status) same ∙ same_unified_refl status in
      ground arith

  check_status-again :
      (o : LedgerOrder F) (n : ℕ) (reported status : UnifiedOrderStatus)
      → status ≡ settled_status n o.requested_qty reported
      → o.status ≡ status
      → check_status o n reported ≡ ok status
  check_status-again o n reported status settled same =
      subst (λ s. check_settled o n s ≡ ok status) settled (check_settled-again o n status same)

  log_snapshot-quiet :
      (oid : ℕ) (o : LedgerOrder F) (status : UnifiedOrderStatus) (n : ℕ) (now : String)
      (db : LedgerDb F)
      → same_unified o.status status ≡ true
      → (n == o.filled_qty) ≡ true
      → log_snapshot oid o status n now db ≡ db
  log_snapshot-quiet oid o status n now db same full = ground arith

  module _ ⦃tx : PyText⦄ where
    book_delta-quiet :
        (oid : ℕ) (o : LedgerOrder F) (n : ℕ) (average : F) (number date : String) (raw : Raw F)
        (now : String) (db : LedgerDb F)
        → (n == o.filled_qty) ≡ true
        → book_delta oid o n average number date raw now db ≡ db
    book_delta-quiet oid o n average number date raw now db full =
        ap
          (λ b.
            if b
            then db
            else project_position (scope_of o) now
                (insert_fill (snapshot_fill oid o n average number date raw now db.fills) db))
          full

    -- A report that brings nothing new writes the row, and that is all.
    reconcile_snapshot-quiet :
        (oid : ℕ) (word : String) (average : F) (number date : String) (raw : Raw F) (now : String)
        (db : LedgerDb F) (o : LedgerOrder F) (reported status : UnifiedOrderStatus) (n : ℕ)
        → parse_status (tx.lower word) ≡ some reported
        → get_row oid db.orders ≡ some o
        → n ≤ o.requested_qty
        → status ≡ settled_status n o.requested_qty reported
        → o.filled_qty ≡ n
        → o.status ≡ status
        → identity_is_free oid (synced_order status n average number date now o) db.orders.rows
          ≡ true
        → let o' = synced_order status n average number date now o in
          reconcile_snapshot oid word (pos n) average number date raw now db
          ≡ ok (o', record db { orders = set_row oid (λ p. o') db.orders })
    unfolding reconcile_snapshot
    reconcile_snapshot-quiet oid word average number date raw now db o reported status n p e high
          settled same_n same_s free =
        let o' = synced_order status n average number date now o in
        let db' : LedgerDb F = record db { orders = set_row oid (λ p. o') db.orders } in
        let full : (n == o.filled_qty) ≡ true = ap (λ m. n == m) same_n ∙ ==_refl n in
        let same : same_unified o.status status ≡ true =
          ap (λ u. same_unified u status) same_s ∙ same_unified_refl status in
        require-run (parse_status (tx.lower word)) _ _ reported p
        ∙ require-run (get_row oid db.orders) _ _ o e
        ∙ bind-run (check_quantity o (pos n)) _ n (check_quantity-again o n same_n high)
        ∙ bind-run (check_status o n reported) _ status
            (check_status-again o n reported status settled same_s)
        ∙ ap (write_snapshot oid o status n average number date now)
            (book_delta-quiet oid o n average number date raw now db full)
        ∙ guard-run (identity_is_free oid o' db.orders.rows) _ _ free
        ∙ ap (λ d. ok (o', d)) (log_snapshot-quiet oid o status n now db' same full)

    -- A report that was applied can be applied again: then it books no fill, changes no position
    -- and logs no event, and the order's row changes in its version and its times only.
    pub reconcile_snapshot-replay :
        (oid : ℕ) (word : String) (qty : ℤ) (average : F) (number date : String) (raw raw' : Raw F)
        (now later : String) (db : LedgerDb F) (o1 : LedgerOrder F) (db1 : LedgerDb F)
        → reconcile_snapshot oid word qty average number date raw now db ≡ ok (o1, db1)
        → reconcile_snapshot oid word qty average number date raw' later db1
          ≡ ok (
            again_order later o1,
            record db1 { orders = set_row oid (λ p. again_order later o1) db1.orders },
          )
    reconcile_snapshot-replay oid word qty average number date raw raw' now later db o1 db1 h =
        let (reported, o, n, status, p, e, is, low, high, settled, may, w) =
          reconcile_snapshot-ok oid word qty average number date raw now db o1 db1 h in
        let db0 = book_delta oid o n average number date raw now db in
        let (free, row, v) =
          write_snapshot-ok oid o status n average number date now db0 o1 db1 w in
        let s1 = synced_order status n average number date now o in
        let orders : db1.orders ≡ set_row oid (λ p. s1) db.orders =
          ap (λ d. d.orders) v
          ∙ log_snapshot-orders oid o status n now _
          ∙ ap (set_row oid (λ p. s1)) (book_delta-orders oid o n average number date raw now db) in
        let there : get_row oid db1.orders ≡ some s1 =
          ap (get_row oid) orders ∙ find_row-update_row_self oid (λ p. s1) db.orders.rows o e in
        let twice = synced_order-twice status n average number date now later o in
        let free1 : identity_is_free oid (synced_order status n average number date later s1)
              db1.orders.rows
            ≡ true =
          ap (λ s. identity_is_free oid s db1.orders.rows) twice
          ∙ ap (λ t. identity_is_free oid s1 t.rows) orders
          ∙ ap not (
              identity_taken-update_row oid s1.account_key s1.market s1.broker_order_date
                (text_of s1.broker_order_id) (λ p. s1) db.orders.rows)
          ∙ ap (λ t. identity_is_free oid s1 t.rows)
              (sym (book_delta-orders oid o n average number date raw now db))
          ∙ free in
        let again =
          reconcile_snapshot-quiet oid word average number date raw' later db1 s1 reported status n
            p there high settled refl refl free1 in
        ap (λ q. reconcile_snapshot oid word q average number date raw' later db1) is
        ∙ again
        ∙ ap (λ s. ok (s, record db1 { orders = set_row oid (λ p. s) db1.orders }))
            (twice ∙ ap (again_order later) (sym row))
