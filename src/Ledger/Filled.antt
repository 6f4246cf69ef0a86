-- ===== src/Ledger/Filled.antt =====
-- An order's filled quantity is the sum of its fills (src/application/orders/repository.py).
use hanstock_svc.Base.{
  ℕ, String, ◌≡◌, refl, sym, ap, ◌∙◌, ◌==◌, ◌+◌, ◌-◌, ◌≤◌, false, some, List, [], ◌∷◌, pos, Float,
  Bool-cases, inl, inr, arith, get_row, set_row, find_row-update_row_ne, find_row-update_row_self,
  if◌then◌else◌, ok, ==→eq,
}
use hanstock_svc.Ledger.Records.{PyText, LedgerOrder, LedgerFill, LedgerDb}
use hanstock_svc.Ledger.Costs.{Raw}
use hanstock_svc.Ledger.Projection.{project_position}
use hanstock_svc.Ledger.Snapshots.{
  synced_order, has_fill, insert_fill, snapshot_fill, key_of, scope_of, book_delta,
  reconcile_snapshot,
}
use hanstock_svc.Ledger.SnapshotSteps.{
  log_snapshot-tables, log_snapshot-orders, reconcile_snapshot-ok, write_snapshot-ok,
  book_delta-orders,
}

module _ {F : Type 0} where
  -- The sum of an order's fills.
  unfoldable pub filled_of : ℕ → List (LedgerFill F) → ℕ
  filled_of oid [] = 0
  filled_of oid (f ∷ fs) = (if f.order_id == oid then f.quantity else 0) + filled_of oid fs

  -- Every order's filled quantity is the sum of its fills.
  pub record IsBooked (db : LedgerDb F) : Type 0 where
    pub booked :
        (oid : ℕ) (o : LedgerOrder F)
        → get_row oid db.orders ≡ some o
        → filled_of oid db.fills ≡ o.filled_qty

  filled_of-cons :
      (oid : ℕ) (f : LedgerFill F) (fs : List (LedgerFill F))
      → filled_of oid (f ∷ fs) ≡ (if f.order_id == oid then f.quantity else 0) + filled_of oid fs
  unfolding filled_of
  filled_of-cons oid f fs = refl

  -- One order's fills and its filled quantity grow alike.
  write-IsBooked :
      (db db1 : LedgerDb F) (oid : ℕ) (o o' : LedgerOrder F) (d : ℕ)
      → get_row oid db.orders ≡ some o
      → db1.orders ≡ set_row oid (λ p. o') db.orders
      → ((i : ℕ) → filled_of i db1.fills ≡ (if oid == i then d else 0) + filled_of i db.fills)
      → o'.filled_qty ≡ d + o.filled_qty
      → IsBooked db
      → IsBooked db1
  write-IsBooked db db1 oid o o' d e orders sums grows b = record {
    booked = λ i x ex.
        let sum = sums i in
        elim (Bool-cases (i == oid)) [
          | inl at ↦
              let there : i ≡ oid = ==→eq i oid at in
              let row = find_row-update_row_self oid (λ p. o') db.orders.rows o e in
              let found : get_row oid db1.orders ≡ some o' = ap (get_row oid) orders ∙ row in
              let is : x ≡ o' = ground arith in
              let before = b.booked oid o e in
              let filled : x.filled_qty ≡ o'.filled_qty = ap (λ y. y.filled_qty) is in ground arith
          | inr other ↦
              let row = find_row-update_row_ne i oid (λ p. o') db.orders.rows (ground arith) in
              let found : get_row i db.orders ≡ some x =
                sym row ∙ ap (get_row i) (sym orders) ∙ ex in
              let before = b.booked i x found in ground arith
        ];
  }

module _ {F : Type 0} ⦃fl : Float F⦄ ⦃tx : PyText⦄ where
  -- A delta whose key is new is booked in full, and on that order only.
  book_delta-filled :
      (oid : ℕ) (o : LedgerOrder F) (n : ℕ) (average : F) (number date : String) (raw : Raw F)
      (now : String) (db : LedgerDb F)
      → has_fill (key_of oid o n number date) db.fills ≡ false
      → o.filled_qty ≤ n
      → (i : ℕ)
      → filled_of i (book_delta oid o n average number date raw now db).fills
        ≡ (if oid == i then n - o.filled_qty else 0) + filled_of i db.fills
  book_delta-filled oid o n average number date raw now db new low i =
      let f = snapshot_fill oid o n average number date raw now db.fills in
      let booked : LedgerDb F = record db { fills = f ∷ db.fills } in
      elim (Bool-cases (n == o.filled_qty)) [
        | inl same ↦
            ap
              (λ b.
                filled_of i
                  (if b then db else project_position (scope_of o) now (insert_fill f db)).fills)
              same
            ∙ ground arith
        | inr more ↦
            ap
              (λ b.
                filled_of i
                  (if b then db else project_position (scope_of o) now (insert_fill f db)).fills)
              more
            ∙ ap
                (λ b.
                  filled_of i (project_position (scope_of o) now (if b then db else booked)).fills)
                new
            ∙ filled_of-cons i f db.fills
      ]

  -- If every order's filled quantity is the sum of its fills, and no fill has the key that a report
  -- of this order, with this cumulative quantity, gets, then after the report, if it is accepted,
  -- every order's filled quantity is the sum of its fills again.
  pub reconcile_snapshot-IsBooked :
      (oid : ℕ) (word : String) (n : ℕ) (average : F) (number date : String) (raw : Raw F)
      (now : String) (db : LedgerDb F) (o o1 : LedgerOrder F) (db1 : LedgerDb F)
      → IsBooked db
      → get_row oid db.orders ≡ some o
      → has_fill (key_of oid o n number date) db.fills ≡ false
      → reconcile_snapshot oid word (pos n) average number date raw now db ≡ ok (o1, db1)
      → IsBooked db1
  reconcile_snapshot-IsBooked oid word n average number date raw now db o o1 db1 b here new h =
      let (reported, p, m, status, _, e, is, low, high, settled, may, w) =
        reconcile_snapshot-ok oid word (pos n) average number date raw now db o1 db1 h in
      let same : p ≡ o = ground arith in
      let same_n : m ≡ n = ground arith in
      let fresh : has_fill (key_of oid p m number date) db.fills ≡ false =
        ap (λ y. has_fill (key_of oid y m number date) db.fills) same
        ∙ ap (λ k. has_fill (key_of oid o k number date) db.fills) same_n
        ∙ new in
      let db0 = book_delta oid p m average number date raw now db in
      let (free, row, v) = write_snapshot-ok oid p status m average number date now db0 o1 db1 w in
      let s1 = synced_order status m average number date now p in
      let orders : db1.orders ≡ set_row oid (λ p. s1) db.orders =
        ap (λ d. d.orders) v
        ∙ log_snapshot-orders oid p status m now _
        ∙ ap (set_row oid (λ p. s1)) (book_delta-orders oid p m average number date raw now db) in
      let fills : db1.fills ≡ db0.fills =
        ap (λ d. d.fills) v
        ∙ log_snapshot-tables (λ d. d.fills) (λ es d. refl) oid p status m now _ in
      write-IsBooked db db1 oid p s1 (m - p.filled_qty) e orders
        (λ i.
          ap (filled_of i) fills
          ∙ book_delta-filled oid p m average number date raw now db fresh low i)
        (omega arith) b
