-- ===== src/Ledger/Totals.antt =====
-- Which writes leave the total of a position's fills, and what becomes of its row
-- (src/application/orders/repository.py).
use hanstock_svc.Base.{
  ℕ, String, ◌≡◌, refl, true, false, some, List, [], ◌∷◌, ℤ, Float, Bool-cases, inl, inr, arith,
  get_row, Table, str_eq, eq_iff,
}
use hanstock_svc.Ledger.Records.{LedgerOrder, LedgerFill, LedgerPosition}
use hanstock_svc.Ledger.Projection.{
  Scope, in_scope, filled_total, at_scope, find_position, upsert_position,
}
use hanstock_svc.Ledger.Alignment.{quantity_at}

-- Every fill is of an order that is there.
unfoldable pub FillsKnown : {F : Type 0} → Table (LedgerOrder F) → List (LedgerFill F) → Type 0
FillsKnown orders [] = Unit
FillsKnown {F} orders (f ∷ fs) =
    ((o : LedgerOrder F) × (get_row f.order_id orders ≡ some o)) × FillsKnown orders fs

-- What a fill's position depends on.
pub record SamePlace {F : Type 0} (o o' : LedgerOrder F) : Type 0 where
  pub account_key : o'.account_key ≡ o.account_key
  pub market : o'.market ≡ o.market
  pub symbol : o'.symbol ≡ o.symbol
  pub side : o'.side ≡ o.side

-- A test of a position's key tells equal keys.
pub in_scope-eq :
    (s : Scope) (account market symbol : String)
    → in_scope s account market symbol ≡ true
    → (account ≡ s.account_key) × (market ≡ s.market) × (symbol ≡ s.symbol)
in_scope-eq s account market symbol h =
    let a : str_eq account s.account_key ≡ true = ground arith in
    let b : str_eq market s.market ≡ true = ground arith in
    let c : str_eq symbol s.symbol ≡ true = ground arith in
    ((eq_iff account s.account_key).0 a, (eq_iff market s.market).0 b, (eq_iff symbol s.symbol).0 c)

pub in_scope_refl : (s : Scope) → in_scope s s.account_key s.market s.symbol ≡ true
in_scope_refl s =
    let a = (eq_iff s.account_key s.account_key).1 refl in
    let b = (eq_iff s.market s.market).1 refl in
    let c = (eq_iff s.symbol s.symbol).1 refl in ground arith

module _ {F : Type 0} ⦃fl : Float F⦄ where
  -- Orders that stay where they were keep every total.
  pub filled_total-orders :
      (s : Scope) (orders orders' : Table (LedgerOrder F)) (fs : List (LedgerFill F))
      → ((oid : ℕ) (o : LedgerOrder F)
          → get_row oid orders ≡ some o
          → (o' : LedgerOrder F) × (get_row oid orders' ≡ some o') × SamePlace o o')
      → FillsKnown orders fs
      → (filled_total s orders' fs ≡ filled_total s orders fs) × FillsKnown orders' fs
  unfolding filled_total FillsKnown
  filled_total-orders s orders orders' [] h k = (refl, tt)
  filled_total-orders s orders orders' (f ∷ fs) h k =
      let (o, e) = k.0 in
      let (o', e', p) = h f.order_id o e in
      let (rest, known) = filled_total-orders s orders orders' fs h k.1 in
      let acc = p.account_key in
      let mkt = p.market in
      let sym' = p.symbol in let sd = p.side in (ground arith, ((o', e'), known))

  -- The row of the key that was written.
  pub find_position-upsert_self :
      (s : Scope) (new : LedgerPosition F) (change : LedgerPosition F → LedgerPosition F) (q : ℤ)
      (ps : List (LedgerPosition F))
      → at_scope s new ≡ true
      → new.quantity ≡ q
      → ((p : LedgerPosition F)
          → at_scope s p ≡ true
          → (at_scope s (change p) ≡ true) × ((change p).quantity ≡ q))
      → quantity_at (find_position s (upsert_position s new change ps)) ≡ q
  unfolding find_position upsert_position
  find_position-upsert_self s new change q [] here is same = ground arith
  find_position-upsert_self s new change q (p ∷ ps) here is same =
      elim (Bool-cases (at_scope s p)) [
        | inl at ↦ let (a, b) = same p at in ground arith
        | inr off ↦ ground (arith, find_position-upsert_self s new change q ps here is same)
      ]

  -- The rows of the other keys stay.
  pub find_position-upsert_ne :
      (s t : Scope) (new : LedgerPosition F) (change : LedgerPosition F → LedgerPosition F)
      (ps : List (LedgerPosition F))
      → at_scope t new ≡ false
      → ((p : LedgerPosition F)
          → at_scope s p ≡ true
          → (at_scope t (change p) ≡ false) × (at_scope t p ≡ false))
      → find_position t (upsert_position s new change ps) ≡ find_position t ps
  unfolding find_position upsert_position
  find_position-upsert_ne s t new change [] off same = ground arith
  find_position-upsert_ne s t new change (p ∷ ps) off same = elim (Bool-cases (at_scope s p)) [
    | inl at ↦ let (a, b) = same p at in ground arith
    | inr other ↦ ground (arith, find_position-upsert_ne s t new change ps off same)
  ]
