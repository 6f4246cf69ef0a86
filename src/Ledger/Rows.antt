-- ===== src/Ledger/Rows.antt =====
-- A relation between the rows of an order that its moves, its bindings and its reports have is kept
-- by every run of the ledger (src/application/orders/repository.py).
use hanstock_svc.Base.{
  ℕ, String, ◌≡◌, refl, ◌∙◌, ap, subst, true, ◌≤◌, ◌==◌, some, List, Float, Bool-cases, inl, inr,
  arith, get_row, set_row, insert_row, find_row-append_row_found, find_row-update_row_ne,
  find_row-update_row_self, ==→eq,
}
use hanstock_svc.Ledger.Records.{PyText, UnifiedOrderStatus, LedgerOrder, LedgerDb}
use hanstock_svc.Ledger.Moves.{moved_order, bound_order, new_order}
use hanstock_svc.Ledger.Statuses.{allows}
use hanstock_svc.Ledger.Snapshots.{synced_order}
use hanstock_svc.Ledger.Steps.{
  log_created-orders, create_order-ok, transition_order-ok, bind_broker_result-ok, record_event-ok,
}
use hanstock_svc.Ledger.AlignSteps.{apply_latest_issues-keep}
use hanstock_svc.Ledger.SnapshotSteps.{
  log_snapshot-orders, MaySettle, reconcile_snapshot-ok, write_snapshot-ok, book_delta-orders,
}
use hanstock_svc.Ledger.Runs.{LedgerCall, LedgerLaw, run_ledger, run_ledger-law}

pub record LedgerRowLaw {F : Type 0} ⦃fl : Float F⦄ (E : LedgerOrder F → LedgerOrder F → Type 0)
    : Type 0 where
  pub stay : (o : LedgerOrder F) → E o o
  pub chain : (o p q : LedgerOrder F) → E o p → E p q → E o q
  pub move :
      (o : LedgerOrder F) (target : UnifiedOrderStatus) (now : String)
      → allows o.status target ≡ true
      → E o (moved_order target now o)
  pub bind :
      (o : LedgerOrder F) (number date message now : String)
      → E o (bound_order number date message now o)
  pub sync :
      (o : LedgerOrder F) (n : ℕ) (status : UnifiedOrderStatus) (average : F)
      (number date now : String)
      → o.filled_qty ≤ n
      → n ≤ o.requested_qty
      → MaySettle o n status
      → E o (synced_order status n average number date now o)

-- Every order is there afterwards, with a row that is so related to the one before.
pub record LedgerRows {F : Type 0} (E : LedgerOrder F → LedgerOrder F → Type 0)
    (db db' : LedgerDb F) : Type 0 where
  pub kept :
      (oid : ℕ) (o : LedgerOrder F)
      → get_row oid db.orders ≡ some o
      → (o' : LedgerOrder F) × (get_row oid db'.orders ≡ some o') × E o o'

module _ {F : Type 0} ⦃fl : Float F⦄ ⦃tx : PyText⦄ {E : LedgerOrder F → LedgerOrder F → Type 0}
    (law : LedgerRowLaw E) where
  rows-same : (db db' : LedgerDb F) → db'.orders ≡ db.orders → LedgerRows E db db'
  rows-same db db' h = record { kept = λ oid o e. (o, ground arith, law.stay o) }

  rows-set :
      (db db' : LedgerDb F) (oid : ℕ) (o o' : LedgerOrder F)
      → get_row oid db.orders ≡ some o
      → E o o'
      → db'.orders ≡ set_row oid (λ p. o') db.orders
      → LedgerRows E db db'
  rows-set db db' oid o o' e step h = record {
    kept = λ i x ex. elim (Bool-cases (i == oid)) [
      | inl here ↦
          let there = find_row-update_row_self oid (λ p. o') db.orders.rows o e in
          let same : i ≡ oid = ==→eq i oid here in
          (o', ground arith, subst (λ y. E y o') (ground arith) step)
      | inr other ↦
          (x, ground (arith, find_row-update_row_ne i oid (λ p. o') db.orders.rows), law.stay x)
    ];
  }

  rows-chain : (a b c : LedgerDb F) → LedgerRows E a b → LedgerRows E b c → LedgerRows E a c
  rows-chain s t u a b = record {
    kept = λ oid o e.
        let (p, ep, x) = a.kept oid o e in
        let (q, eq, y) = b.kept oid p ep in (q, eq, law.chain o p q x y);
  }

  rows-insert :
      (db db' : LedgerDb F) (a : LedgerOrder F)
      → db'.orders ≡ insert_row a db.orders
      → LedgerRows E db db'
  rows-insert db db' a h = record {
    kept = λ oid o e. (
      o,
      ap (get_row oid) h ∙ find_row-append_row_found oid db.orders.next_id o a db.orders.rows e,
      law.stay o,
    );
  }

  pub rows-law : LedgerLaw (LedgerRows E)
  rows-law = record {
    stay = λ db. rows-same db db refl;
    chain = rows-chain;
    create = λ i status now db db' x h.
        let (side, _, found) = create_order-ok i status now db x db' h in
        elim found [
          | inl (_, e) ↦
              rows-same db db' (ap (λ d. d.orders) e ∙ log_created-orders x.0 status now db)
          | inr (_, _, e) ↦
              rows-insert db db' (new_order i side status now)
                (ap (λ d. d.orders) e ∙ log_created-orders db.orders.next_id status now _)
        ];
    transition = λ oid expected target actor reason payload now db db' x h.
        let (legal, o, e, same, _, w) =
          transition_order-ok oid expected target actor reason payload now db x db' h in
        rows-set db db' oid o (moved_order target now o) e
          (law.move o target now (ap (λ s. allows s target) same ∙ legal)) (ap (λ d. d.orders) w);
    bind = λ oid number date message now db db' h.
        elim (bind_broker_result-ok oid number date message now db db' h) [
          | inl e ↦ rows-same db db' (ap (λ d. d.orders) e)
          | inr (o, e, w) ↦
              rows-set db db' oid o (bound_order number date message now o) e
                (law.bind o number date message now) (ap (λ d. d.orders) w)
        ];
    note = λ oid kind actor reason payload now db db' h.
        let (_, _, w) = record_event-ok oid kind actor reason payload now db db' h in
        rows-same db db' (ap (λ d. d.orders) w);
    reconcile = λ oid word qty average number date raw now db db' x h.
        let (_, o, n, status, _, e, _, low, high, _, may, w) =
          reconcile_snapshot-ok oid word qty average number date raw now db x db' h in
        let (_, _, v) = write_snapshot-ok oid o status n average number date now _ x db' w in
        rows-set db db' oid o (synced_order status n average number date now o) e
          (law.sync o n status average number date now low high may)
          (ap (λ d. d.orders) v
            ∙ log_snapshot-orders oid o status n now _
            ∙ ap (set_row oid (λ p. synced_order status n average number date now o))
                (book_delta-orders oid o n average number date raw now db));
    align = λ actor account market now db db' x h.
        apply_latest_issues-keep (LedgerRows E) (λ d. rows-same d d refl) rows-chain
          (λ i y a t d. rows-same d _ refl) actor account market now db x db' h;
  }

  -- Every run keeps the relation between the rows.
  pub run_ledger-LedgerRows :
      (db : LedgerDb F) (xs : List (String × LedgerCall F)) → LedgerRows E db (run_ledger db xs)
  run_ledger-LedgerRows = run_ledger-law rows-law
