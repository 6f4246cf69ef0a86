-- ===== src/Ledger/AlignSteps.antt =====
-- What an alignment that returned has written
-- (src/application/orders/position_reconciliation.py).
use hanstock_svc.Base.{
  ℕ, String, ◌≡◌, Option, List, ◌∷◌, Float, ok, ◌-ℤ◌, [], Rows, sym, subst, arith, str_eq,
}
use hanstock_svc.Base.Results.{raise_if-ok, bind-ok}
use hanstock_svc.Ledger.Records.{Issue, LedgerDb}
use hanstock_svc.Ledger.Projection.{find_position}
use hanstock_svc.Ledger.Alignment.{
  Aligned, align_issue, align_issues, apply_latest_issues, has_adjustment, aligned_db, issue_scope,
  quantity_at, latest_issues,
}

module _ {F : Type 0} ⦃fl : Float F⦄ where
  -- An alignment of one position.
  pub align_issue-ok :
      (i : ℕ) (x : Issue) (actor now : String) (db : LedgerDb F) (item : Aligned) (db' : LedgerDb F)
      → align_issue i x actor now db ≡ ok (item, db')
      → (item ≡ record {
        issue_id = i;
        scope = issue_scope x;
        before_qty = quantity_at (find_position (issue_scope x) db.positions);
        broker_qty = x.broker_qty;
        quantity_delta = x.broker_qty -ℤ quantity_at (find_position (issue_scope x) db.positions);
      })
        × (db'
            ≡ aligned_db i x
                (quantity_at (find_position (issue_scope x) db.positions))
                actor
                now
                db)
  unfolding align_issue
  align_issue-ok i x actor now db item db' h =
      let (_, h1) = raise_if-ok (has_adjustment i db.adjustments) _ _ (item, db') h in
      (ground arith, ground arith)

  -- What every alignment of a position keeps, the loop keeps.
  pub align_issues-keep :
      (R : LedgerDb F → LedgerDb F → Type 0)
      → ((db : LedgerDb F) → R db db)
      → ((a b c : LedgerDb F) → R a b → R b c → R a c)
      → ((i : ℕ) (x : Issue) (actor now : String) (db : LedgerDb F)
          → R db (
              aligned_db i x
                (quantity_at (find_position (issue_scope x) db.positions))
                actor
                now
                db))
      → (r : Rows Issue) (actor now : String) (db : LedgerDb F) (xs : List Aligned)
        (db' : LedgerDb F)
      → align_issues r actor now db ≡ ok (xs, db')
      → R db db'
  unfolding align_issues
  align_issues-keep R stay chain one [] actor now db xs db' h =
      subst (R db) (ground arith) (stay db)
  align_issues-keep R stay chain one ((i, x) ∷ r) actor now db xs db' h =
      let ((item, db1), e, h1) = bind-ok (align_issue i x actor now db) _ (xs, db') h in
      let ((items, db2), f, h2) = bind-ok (align_issues r actor now db1) _ (xs, db') h1 in
      let (_, same) = align_issue-ok i x actor now db item db1 e in
      let last : db2 ≡ db' = ground arith in
      chain db db1 db' (subst (R db) (sym same) (one i x actor now db))
        (subst (R db1) last (align_issues-keep R stay chain one r actor now db1 items db2 f))

  pub apply_latest_issues-keep :
      (R : LedgerDb F → LedgerDb F → Type 0)
      → ((db : LedgerDb F) → R db db)
      → ((a b c : LedgerDb F) → R a b → R b c → R a c)
      → ((i : ℕ) (x : Issue) (actor now : String) (db : LedgerDb F)
          → R db (
              aligned_db i x
                (quantity_at (find_position (issue_scope x) db.positions))
                actor
                now
                db))
      → (actor : String) (account market : Option String) (now : String) (db : LedgerDb F)
        (xs : List Aligned) (db' : LedgerDb F)
      → apply_latest_issues actor account market now db ≡ ok (xs, db')
      → R db db'
  unfolding apply_latest_issues
  apply_latest_issues-keep R stay chain one actor account market now db xs db' h =
      let (_, h1) = raise_if-ok (str_eq actor "") _ _ (xs, db') h in
      align_issues-keep R stay chain one (latest_issues account market db.issues.rows) actor now db
        xs db' h1
