-- ===== src/Ledger/PositionRuns.antt =====
-- Every run keeps the positions true
-- (src/application/orders/repository.py, src/application/orders/position_reconciliation.py).
use hanstock_svc.Base.{
  ℕ, String, ◌≡◌, refl, sym, ap, subst, ◌∙◌, ◌==◌, Bool, true, false, some, List, ◌∷◌, Float,
  Bool-cases, inl, inr, arith, get_row, if◌then◌else◌, ◌+ℤ◌, ◌-ℤ◌, if_same,
}
use hanstock_svc.Base.Sums.{add-adjust}
use hanstock_svc.Ledger.Records.{
  PyText, UnifiedOrderStatus, LedgerOrder, LedgerPosition, LedgerDb, LedgerEvent, Adjustment, Issue,
}
use hanstock_svc.Ledger.Costs.{Raw}
use hanstock_svc.Ledger.Moves.{log_created, has_created, add_event, created_event}
use hanstock_svc.Ledger.Projection.{
  Scope, in_scope, filled_total, adjusted_qty, find_position, upsert_position, position_of,
  project_position,
}
use hanstock_svc.Ledger.Snapshots.{snapshot_fill, insert_fill, book_delta, scope_of}
use hanstock_svc.Ledger.Alignment.{quantity_at, issue_scope, aligned_db, adjustment_of}
use hanstock_svc.Ledger.Steps.{
  create_order-ok, transition_order-ok, bind_broker_result-ok, record_event-ok,
}
use hanstock_svc.Ledger.AlignSteps.{apply_latest_issues-keep}
use hanstock_svc.Ledger.SnapshotSteps.{
  log_snapshot-tables, reconcile_snapshot-ok, write_snapshot-ok, book_delta-orders,
}
use hanstock_svc.Ledger.Runs.{LedgerCall, LedgerLaw, run_ledger, run_ledger-law}
use hanstock_svc.Ledger.Rows.{rows-law}
use hanstock_svc.Ledger.Totals.{
  in_scope-eq, in_scope_refl, find_position-upsert_self, find_position-upsert_ne,
}
use hanstock_svc.Ledger.Positions.{IsProjected, SamePlace-law, rows-IsProjected, insert-IsProjected}

adjusted_qty-here :
    (s : Scope) (a : Adjustment) (rest : List Adjustment)
    → in_scope s a.account_key a.market a.symbol ≡ true
    → adjusted_qty s (a ∷ rest) ≡ a.quantity_delta +ℤ adjusted_qty s rest
unfolding adjusted_qty
adjusted_qty-here s a rest h = ground arith

adjusted_qty-other :
    (s : Scope) (a : Adjustment) (rest : List Adjustment)
    → in_scope s a.account_key a.market a.symbol ≡ false
    → adjusted_qty s (a ∷ rest) ≡ adjusted_qty s rest
unfolding adjusted_qty
adjusted_qty-other s a rest h = ground arith

module _ {F : Type 0} ⦃fl : Float F⦄ where
  -- An alignment adds to the adjustments what the position lacks.
  aligned_db-IsProjected :
      (i : ℕ) (x : Issue) (actor now : String) (db : LedgerDb F)
      → IsProjected db
      → IsProjected
          (aligned_db i x (quantity_at (find_position (issue_scope x) db.positions)) actor now db)
  aligned_db-IsProjected i x actor now db p =
      let s = issue_scope x in
      let current = quantity_at (find_position s db.positions) in
      let a = adjustment_of i s (x.broker_qty -ℤ current) now in
      let row = position_of s x.broker_qty (fl.of_nat 0) now in
      let change : LedgerPosition F → LedgerPosition F =
        λ p. record p { quantity = x.broker_qty; updated_at = now } in
      let fits =
        sym (
          add-adjust (filled_total s db.orders db.fills) (adjusted_qty s db.adjustments)
            x.broker_qty)
        ∙ ap
            (λ c.
              filled_total s db.orders db.fills
              +ℤ ((x.broker_qty -ℤ c) +ℤ adjusted_qty s db.adjustments))
            (sym (p.projected s)) in
      record {
        known = p.known;
        projected = λ t. elim (Bool-cases (in_scope t s.account_key s.market s.symbol)) [
          | inl here ↦
              let (e, f, g) = in_scope-eq t s.account_key s.market s.symbol here in
              let same : s ≡ t = ground arith in
              subst
                (λ t.
                  quantity_at (find_position t (upsert_position s row change db.positions))
                  ≡ filled_total t db.orders db.fills +ℤ adjusted_qty t (a ∷ db.adjustments))
                same
                (find_position-upsert_self s row change x.broker_qty db.positions (in_scope_refl s)
                    refl (λ p at. (at, refl))
                  ∙ fits
                  ∙ ap (λ q. filled_total s db.orders db.fills +ℤ q)
                      (sym (adjusted_qty-here s a db.adjustments (in_scope_refl s))))
          | inr off ↦
              ap quantity_at (
                find_position-upsert_ne s t row change db.positions off (λ p at.
                  let (e, f, g) = in_scope-eq s p.account_key p.market p.symbol at in
                  (ground arith, ground arith)))
              ∙ p.projected t
              ∙ ap (λ q. filled_total t db.orders db.fills +ℤ q)
                  (sym (adjusted_qty-other t a db.adjustments off))
        ];
      }

  abbrev KeepsProjected : LedgerDb F → LedgerDb F → Type 0
  KeepsProjected db db' = IsProjected db → IsProjected db'

  module _ ⦃tx : PyText⦄ where
    book_delta-IsProjected :
        (oid : ℕ) (o : LedgerOrder F) (n : ℕ) (average : F) (number date : String) (raw : Raw F)
        (now : String) (db : LedgerDb F)
        → get_row oid db.orders ≡ some o
        → IsProjected db
        → IsProjected (book_delta oid o n average number date raw now db)
    book_delta-IsProjected oid o n average number date raw now db h p =
        let f = snapshot_fill oid o n average number date raw now db.fills in
        let both =
          λ (b : Bool). if b then db else project_position (scope_of o) now (insert_fill f db) in
        elim (Bool-cases (n == o.filled_qty)) [
          | inl same ↦ subst (λ b. IsProjected (both b)) (sym same) p
          | inr new ↦
              subst (λ b. IsProjected (both b)) (sym new) (insert-IsProjected f o now db h p)
        ]

    log_created-tables :
        {C : Type 0} (g : LedgerDb F → C)
        → ((es : List LedgerEvent) (db : LedgerDb F) → g (record db { events = es }) ≡ g db)
        → (oid : ℕ) (status : UnifiedOrderStatus) (now : String) (db : LedgerDb F)
        → g (log_created oid status now db) ≡ g db
    log_created-tables g h oid status now db =
        if_same (has_created oid db.events) g db (add_event (created_event oid status now) db)
          (h (created_event oid status now ∷ db.events) db)

    projected-law : LedgerLaw KeepsProjected
    projected-law = record {
      stay = λ db a. a;
      chain = λ s t u x y a. y (x a);
      create = λ i status now db db' x h p.
          let rows = (rows-law SamePlace-law).create i status now db db' x h in
          let (side, _, found) = create_order-ok i status now db x db' h in
          elim found [
            | inl (_, w) ↦
                rows-IsProjected db db' rows
                  (ap (λ d. d.fills) w
                    ∙ log_created-tables (λ d. d.fills) (λ es d. refl) x.0 status now db)
                  (ap (λ d. d.positions) w
                    ∙ log_created-tables (λ d. d.positions) (λ es d. refl) x.0 status now db)
                  (ap (λ d. d.adjustments) w
                    ∙ log_created-tables (λ d. d.adjustments) (λ es d. refl) x.0 status now db)
                  p
            | inr (_, _, w) ↦
                rows-IsProjected db db' rows
                  (ap (λ d. d.fills) w
                    ∙ log_created-tables (λ d. d.fills) (λ es d. refl) db.orders.next_id status now
                        _)
                  (ap (λ d. d.positions) w
                    ∙ log_created-tables (λ d. d.positions) (λ es d. refl) db.orders.next_id status
                        now _)
                  (ap (λ d. d.adjustments) w
                    ∙ log_created-tables (λ d. d.adjustments) (λ es d. refl) db.orders.next_id
                        status now _)
                  p
          ];
      transition = λ oid expected target actor reason payload now db db' x h p.
          let (legal, o, e, same, _, w) =
            transition_order-ok oid expected target actor reason payload now db x db' h in
          rows-IsProjected db db'
            ((rows-law SamePlace-law).transition oid expected target actor reason payload now db db'
              x h)
            (ap (λ d. d.fills) w) (ap (λ d. d.positions) w) (ap (λ d. d.adjustments) w) p;
      bind = λ oid number date message now db db' h p.
          let rows = (rows-law SamePlace-law).bind oid number date message now db db' h in
          elim (bind_broker_result-ok oid number date message now db db' h) [
            | inl w ↦ subst IsProjected (sym w) p
            | inr (o, e, w) ↦
                rows-IsProjected db db' rows (ap (λ d. d.fills) w) (ap (λ d. d.positions) w)
                  (ap (λ d. d.adjustments) w) p
          ];
      note = λ oid kind actor reason payload now db db' h p.
          let (o, e, w) = record_event-ok oid kind actor reason payload now db db' h in
          rows-IsProjected db db'
            ((rows-law SamePlace-law).note oid kind actor reason payload now db db' h)
            (ap (λ d. d.fills) w) (ap (λ d. d.positions) w) (ap (λ d. d.adjustments) w) p;
      reconcile = λ oid word qty average number date raw now db db' x h p.
          let rows =
            (rows-law SamePlace-law).reconcile oid word qty average number date raw now db db' x
              h in
          let (_, o, n, status, _, e, _, low, high, _, may, w) =
            reconcile_snapshot-ok oid word qty average number date raw now db x db' h in
          let db1 = book_delta oid o n average number date raw now db in
          let (_, _, v) = write_snapshot-ok oid o status n average number date now db1 x db' w in
          let orders = book_delta-orders oid o n average number date raw now db in
          rows-IsProjected db1 db'
            (record { kept = λ oid o e. rows.kept oid o (ap (get_row oid) (sym orders) ∙ e) })
            (ap (λ d. d.fills) v
              ∙ log_snapshot-tables (λ d. d.fills) (λ es d. refl) oid o status n now _)
            (ap (λ d. d.positions) v
              ∙ log_snapshot-tables (λ d. d.positions) (λ es d. refl) oid o status n now _)
            (ap (λ d. d.adjustments) v
              ∙ log_snapshot-tables (λ d. d.adjustments) (λ es d. refl) oid o status n now _)
            (book_delta-IsProjected oid o n average number date raw now db e p);
      align = λ actor account market now db db' x h.
          apply_latest_issues-keep KeepsProjected (λ d a. a) (λ s t u x y a. y (x a))
            aligned_db-IsProjected actor account market now db x db' h;
    }

    -- If every position's row holds the signed sum of its orders' fills and of its adjustments (a
    -- missing row counting as 0), and every fill is of an order that is there, then this holds
    -- after any run of the ledger's operations, alignments with the broker's balances included,
    -- whichever of them raise.
    pub run_ledger-IsProjected :
        (db : LedgerDb F) (xs : List (String × LedgerCall F))
        → IsProjected db
        → IsProjected (run_ledger db xs)
    run_ledger-IsProjected = run_ledger-law projected-law
