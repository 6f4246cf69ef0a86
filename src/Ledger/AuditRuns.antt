-- ===== src/Ledger/AuditRuns.antt =====
-- Every run keeps the event log true (src/application/orders/repository.py).
use hanstock_svc.Base.{
  ℕ, String, ◌≡◌, refl, sym, ap, subst, ◌∙◌, ◌||◌, ◌==◌, ◌-◌, if◌then◌else◌, true, not, some, List,
  Float, Bool-cases, inl, inr, arith, get_row, set_row, find_where-found, str_eq, insert_row,
}
use hanstock_svc.Ledger.Records.{
  PyText, UnifiedOrderStatus, same_unified, LedgerOrder, LedgerDb, fill_delta,
}
use hanstock_svc.Ledger.Moves.{
  created_event, add_event, log_created, new_order, moved_order, bound_order, status_event,
}
use hanstock_svc.Ledger.Snapshots.{synced_order, log_snapshot, book_delta}
use hanstock_svc.Ledger.Steps.{
  create_order-ok, transition_order-ok, bind_broker_result-ok, record_event-ok,
}
use hanstock_svc.Ledger.AlignSteps.{apply_latest_issues-keep}
use hanstock_svc.Ledger.SnapshotSteps.{
  reconcile_snapshot-ok, write_snapshot-ok, book_delta-orders, book_delta-events,
}
use hanstock_svc.Ledger.Runs.{LedgerCall, LedgerLaw, run_ledger, run_ledger-law}
use hanstock_svc.Ledger.Final.{same_unified→eq}
use hanstock_svc.Ledger.Audit.{
  IsAudited, has_created-new, note-IsAudited, set-IsAudited, move-IsAudited, create-IsAudited,
}

module _ {F : Type 0} ⦃fl : Float F⦄ where
  abbrev pub IsLogged : LedgerDb F → Type 0
  IsLogged db = IsAudited db.orders db.events

  -- The event of a report is written exactly where the log needs it.
  log_snapshot-IsLogged :
      (oid : ℕ) (o o' : LedgerOrder F) (n : ℕ) (now : String) (db : LedgerDb F)
      → IsLogged db
      → get_row oid db.orders ≡ some o
      → IsLogged (
          log_snapshot oid o o'.status n now
            (record db { orders = set_row oid (λ p. o') db.orders }))
  log_snapshot-IsLogged oid o o' n now db a h =
      elim (Bool-cases (not (same_unified o.status o'.status) || not (n == o.filled_qty))) [
        | inl logs ↦
            let e =
              status_event oid "broker_snapshot" o.status o'.status "reconciliation"
                "broker order history synchronized" (fill_delta (n - o.filled_qty) n) now in
            let moved = move-IsAudited db.orders db.events oid o o' e a h refl refl in
            subst
              (λ b. IsLogged (
                if b
                then add_event e (record db { orders = set_row oid (λ p. o') db.orders })
                else record db { orders = set_row oid (λ p. o') db.orders }))
              (sym logs) moved
        | inr quiet ↦
            let same : same_unified o.status o'.status ≡ true = ground arith in
            let kept =
              set-IsAudited db.orders db.events oid o o' a h
                (sym (same_unified→eq o.status o'.status same)) in
            let e =
              status_event oid "broker_snapshot" o.status o'.status "reconciliation"
                "broker order history synchronized" (fill_delta (n - o.filled_qty) n) now in
            subst
              (λ b. IsLogged (
                if b
                then add_event e (record db { orders = set_row oid (λ p. o') db.orders })
                else record db { orders = set_row oid (λ p. o') db.orders }))
              (sym quiet) kept
      ]

  log_created-IsLogged :
      (oid : ℕ) (o : LedgerOrder F) (status : UnifiedOrderStatus) (now : String) (db : LedgerDb F)
      → IsLogged db
      → get_row oid db.orders ≡ some o
      → IsLogged (log_created oid status now db)
  log_created-IsLogged oid o status now db a h =
      let (_, known) = a.audited oid o h in
      subst (λ b. IsLogged (if b then db else add_event (created_event oid status now) db))
        (sym known) a

  insert_order-IsLogged :
      (o : LedgerOrder F) (now : String) (db : LedgerDb F)
      → IsLogged db
      → IsLogged (
          log_created db.orders.next_id o.status now
            (record db { orders = insert_row o db.orders }))
  insert_order-IsLogged o now db a =
      let db1 : LedgerDb F = record db { orders = insert_row o db.orders } in
      subst
        (λ b.
          IsLogged
            (if b then db1 else add_event (created_event db.orders.next_id o.status now) db1))
        (sym (has_created-new db.orders.next_id db.events a.below))
        (create-IsAudited db.orders db.events o now a)

  abbrev KeepsLogged : LedgerDb F → LedgerDb F → Type 0
  KeepsLogged db db' = IsLogged db → IsLogged db'

  module _ ⦃tx : PyText⦄ where
    logged-law : LedgerLaw KeepsLogged
    logged-law = record {
      stay = λ db a. a;
      chain = λ s t u x y a. y (x a);
      create = λ i status now db db' x h a.
          let (side, _, found) = create_order-ok i status now db x db' h in
          elim found [
            | inl (e, w) ↦
                let there =
                  find_where-found (λ o. str_eq o.client_order_key i.client_order_key) x.0 x.1
                    db.orders.rows a.ids.0 e in
                subst IsLogged (sym w) (log_created-IsLogged x.0 x.1 status now db a there.0)
            | inr (_, _, w) ↦
                subst IsLogged (sym w)
                  (insert_order-IsLogged (new_order i side status now) now db a)
          ];
      transition = λ oid expected target actor reason payload now db db' x h a.
          let (legal, o, e, same, _, w) =
            transition_order-ok oid expected target actor reason payload now db x db' h in
          subst IsLogged (sym w)
            (move-IsAudited db.orders db.events oid o (moved_order target now o) _ a e refl refl);
      bind = λ oid number date message now db db' h a.
          elim (bind_broker_result-ok oid number date message now db db' h) [
            | inl w ↦ subst IsLogged (sym w) a
            | inr (o, e, w) ↦ subst IsLogged (sym w) (
                set-IsAudited db.orders db.events oid o (bound_order number date message now o) a e
                  refl)
          ];
      note = λ oid kind actor reason payload now db db' h a.
          let (o, e, w) = record_event-ok oid kind actor reason payload now db db' h in
          subst IsLogged (sym w) (note-IsAudited db.orders db.events oid o _ a e refl refl);
      reconcile = λ oid word qty average number date raw now db db' x h a.
          let (_, o, n, status, _, e, _, low, high, _, may, w) =
            reconcile_snapshot-ok oid word qty average number date raw now db x db' h in
          let db1 = book_delta oid o n average number date raw now db in
          let (_, _, v) = write_snapshot-ok oid o status n average number date now db1 x db' w in
          let orders = book_delta-orders oid o n average number date raw now db in
          let events = book_delta-events oid o n average number date raw now db in
          let booked : IsLogged db1 =
            subst (λ s. IsAudited s db1.events) (sym orders)
              (subst (IsAudited db.orders) (sym events) a) in
          subst IsLogged (sym v) (
            log_snapshot-IsLogged oid o (synced_order status n average number date now o) n now db1
              booked (ap (get_row oid) orders ∙ e));
      align = λ actor account market now db db' x h.
          apply_latest_issues-keep KeepsLogged (λ d a. a) (λ s t u x y a. y (x a))
            (λ i y who t d a. a) actor account market now db x db' h;
    }

    -- If every order's newest event leads to its status and every order has a `created` event, with
    -- distinct ids below the next one, then this holds after any run of the ledger's operations,
    -- whichever of them raise: the event log alone tells every order's status.
    pub run_ledger-IsLogged :
        (db : LedgerDb F) (xs : List (String × LedgerCall F))
        → IsLogged db
        → IsLogged (run_ledger db xs)
    run_ledger-IsLogged = run_ledger-law logged-law
