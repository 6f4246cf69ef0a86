-- ===== src/Ledger/Positions.antt =====
-- Every position is what its fills and its adjustments add up to
-- (src/application/orders/repository.py, src/application/orders/position_reconciliation.py).
use hanstock_svc.Base.{
  String, ◌≡◌, refl, sym, ap, subst, ◌∙◌, Bool, false, some, List, ◌∷◌, Float, Bool-cases, inl, inr,
  arith, get_row, Table, if◌then◌else◌, ◌+ℤ◌,
}
use hanstock_svc.Ledger.Records.{LedgerOrder, LedgerFill, LedgerDb}
use hanstock_svc.Ledger.Projection.{
  Scope, in_scope, filled_total, adjusted_qty, find_position, upsert_position, position_of,
  project_position, cash_total,
}
use hanstock_svc.Ledger.Snapshots.{insert_fill, has_fill, scope_of}
use hanstock_svc.Ledger.Alignment.{quantity_at}
use hanstock_svc.Ledger.Rows.{LedgerRowLaw, LedgerRows}
use hanstock_svc.Ledger.Totals.{
  FillsKnown, SamePlace, in_scope-eq, in_scope_refl, filled_total-orders, find_position-upsert_self,
  find_position-upsert_ne,
}

module _ {F : Type 0} ⦃fl : Float F⦄ where
  -- A position's row holds the signed sum of its orders' fills and of its adjustments, and every
  -- fill is of an order that is there.
  pub record IsProjected (db : LedgerDb F) : Type 0 where
    pub known : FillsKnown db.orders db.fills
    pub projected :
        (s : Scope)
        → quantity_at (find_position s db.positions)
          ≡ filled_total s db.orders db.fills +ℤ adjusted_qty s db.adjustments

  pub SamePlace-law : LedgerRowLaw {F = F} SamePlace
  SamePlace-law = record {
    stay = λ o. ground arith;
    chain = λ o p q x y. record {
      account_key = y.account_key ∙ x.account_key;
      market = y.market ∙ x.market;
      symbol = y.symbol ∙ x.symbol;
      side = y.side ∙ x.side;
    };
    move = λ o target now h. ground arith;
    bind = λ o number date message now. ground arith;
    sync = λ o n status average number date now low high may. ground arith;
  }

  -- Only orders change, and stay in their places.
  pub rows-IsProjected :
      (db db' : LedgerDb F)
      → LedgerRows SamePlace db db'
      → db'.fills ≡ db.fills
      → db'.positions ≡ db.positions
      → db'.adjustments ≡ db.adjustments
      → IsProjected db
      → IsProjected db'
  rows-IsProjected db db' rows fills positions adjustments p =
      let same =
        λ (s : Scope). filled_total-orders s db.orders db'.orders db.fills rows.kept p.known in
      let s0 : Scope = record { account_key = ""; market = ""; symbol = "" } in
      record {
        known = subst (FillsKnown db'.orders) (sym fills) (same s0).1;
        projected = λ s.
            ap (λ ps. quantity_at (find_position s ps)) positions
            ∙ p.projected s
            ∙ ap (λ q. q +ℤ adjusted_qty s db.adjustments) (sym (same s).0)
            ∙ ap (λ fs. filled_total s db'.orders fs +ℤ adjusted_qty s db.adjustments) (sym fills)
            ∙ ap (λ xs. filled_total s db'.orders db'.fills +ℤ adjusted_qty s xs) (sym adjustments);
      }

  -- One position is computed again, and the totals of the others are as before.
  pub again-IsProjected :
      (s : Scope) (now : String) (db : LedgerDb F) (before : List (LedgerFill F))
      → FillsKnown db.orders db.fills
      → ((t : Scope)
          → in_scope t s.account_key s.market s.symbol ≡ false
          → filled_total t db.orders db.fills ≡ filled_total t db.orders before)
      → ((t : Scope)
          → quantity_at (find_position t db.positions)
            ≡ filled_total t db.orders before +ℤ adjusted_qty t db.adjustments)
      → IsProjected (project_position s now db)
  again-IsProjected s now db before known others p = record {
    known = known;
    projected = λ t.
        let q = filled_total s db.orders db.fills +ℤ adjusted_qty s db.adjustments in
        let row = position_of s q (cash_total s db.orders db.fills) now in
        elim (Bool-cases (in_scope t s.account_key s.market s.symbol)) [
          | inl here ↦
              let (a, b, c) = in_scope-eq t s.account_key s.market s.symbol here in
              let same : s ≡ t = ground arith in
              subst
                (λ t.
                  quantity_at (find_position t (upsert_position s row (λ p. row) db.positions))
                  ≡ filled_total t db.orders db.fills +ℤ adjusted_qty t db.adjustments)
                same
                (find_position-upsert_self s row (λ p. row) q db.positions (in_scope_refl s) refl
                  (λ p at. (in_scope_refl s, refl)))
          | inr off ↦
              ap quantity_at (
                find_position-upsert_ne s t row (λ p. row) db.positions off
                  (λ p at.
                    let (a, b, c) = in_scope-eq s p.account_key p.market p.symbol at in
                    (off, ground arith)))
              ∙ p t
              ∙ ap (λ q. q +ℤ adjusted_qty t db.adjustments) (sym (others t off))
        ];
  }

  filled_total-other :
      (t : Scope) (orders : Table (LedgerOrder F)) (f : LedgerFill F) (fs : List (LedgerFill F))
      (o : LedgerOrder F)
      → get_row f.order_id orders ≡ some o
      → in_scope t o.account_key o.market o.symbol ≡ false
      → filled_total t orders (f ∷ fs) ≡ filled_total t orders fs
  unfolding filled_total
  filled_total-other t orders f fs o h off = ground arith

  FillsKnown-cons :
      (orders : Table (LedgerOrder F)) (f : LedgerFill F) (fs : List (LedgerFill F))
      (o : LedgerOrder F)
      → get_row f.order_id orders ≡ some o
      → FillsKnown orders fs
      → FillsKnown orders (f ∷ fs)
  unfolding FillsKnown
  FillsKnown-cons orders f fs o h k = ((o, h), k)

  -- The fill that is inserted, or is there already, and its position.
  pub insert-IsProjected :
      (f : LedgerFill F) (o : LedgerOrder F) (now : String) (db : LedgerDb F)
      → get_row f.order_id db.orders ≡ some o
      → IsProjected db
      → IsProjected (project_position (scope_of o) now (insert_fill f db))
  insert-IsProjected f o now db h p =
      let both = λ (b : Bool).
        project_position (scope_of o) now (if b then db else record db { fills = f ∷ db.fills }) in
      elim (Bool-cases (has_fill f.fill_key db.fills)) [
        | inl there ↦
            subst (λ b. IsProjected (both b)) (sym there)
              (again-IsProjected (scope_of o) now db db.fills p.known (λ t off. refl) p.projected)
        | inr new ↦
            subst (λ b. IsProjected (both b)) (sym new)
              (again-IsProjected (scope_of o) now (record db { fills = f ∷ db.fills }) db.fills
                (FillsKnown-cons db.orders f db.fills o h p.known)
                (λ t off. filled_total-other t db.orders f db.fills o h off) p.projected)
      ]
