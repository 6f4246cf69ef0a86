-- ===== src/Ledger/Projection.antt =====
-- Sums over the fills, and the positions that they make
-- (src/application/orders/repository.py).
use hanstock_svc.Base.{
  ℕ, String, Bool, false, ◌&&◌, ◌==◌, Option, none, some, List, [], ◌∷◌, ℤ, pos, ◌+ℤ◌, neg_ℕ,
  str_eq, if◌then◌else◌, coalesce, Float, Table, get_row,
}
use hanstock_svc.Ledger.Records.{
  buy_side, sell_side, LedgerOrder, LedgerFill, LedgerPosition, Adjustment, LedgerDb,
}

-- The key of a position: account, market and symbol.
pub record Scope : Type 0 where
  pub account_key : String
  pub market : String
  pub symbol : String

abbrev pub in_scope : Scope → String → String → String → Bool
in_scope s account market symbol =
    str_eq account s.account_key && str_eq market s.market && str_eq symbol s.symbol

-- SUM(quantity_delta) of a position.
unfoldable pub adjusted_qty : Scope → List Adjustment → ℤ
adjusted_qty s [] = pos 0
adjusted_qty s (a ∷ rest) =
    if in_scope s a.account_key a.market a.symbol
    then a.quantity_delta +ℤ adjusted_qty s rest
    else adjusted_qty s rest

module _ {F : Type 0} ⦃fl : Float F⦄ where
  abbrev pub order_in_scope : Scope → Option (LedgerOrder F) → Bool
  order_in_scope s none = false
  order_in_scope s (some o) = in_scope s o.account_key o.market o.symbol

  abbrev pub signed_qty : Option (LedgerOrder F) → ℕ → ℤ
  signed_qty none q = pos 0
  signed_qty (some o) q = elim o.side [ buy_side ↦ pos q | sell_side ↦ neg_ℕ q ]

  abbrev pub signed_cash : Option (LedgerOrder F) → LedgerFill F → F
  signed_cash none f = fl.of_nat 0
  signed_cash (some o) f =
      let gross = fl.mul (fl.of_nat f.quantity) f.price in
      let fee = coalesce f.fee (fl.of_nat 0) in
      let tax = coalesce f.tax (fl.of_nat 0) in
      elim o.side [
        | buy_side ↦ fl.neg (fl.add (fl.add gross fee) tax)
        | sell_side ↦ fl.sub (fl.sub gross fee) tax
      ]

  -- The signed quantity of the fills of a position's orders.
  unfoldable pub filled_total : Scope → Table (LedgerOrder F) → List (LedgerFill F) → ℤ
  filled_total s orders [] = pos 0
  filled_total s orders (f ∷ fs) =
      if order_in_scope s (get_row f.order_id orders)
      then signed_qty (get_row f.order_id orders) f.quantity +ℤ filled_total s orders fs
      else filled_total s orders fs

  unfoldable pub cash_total : Scope → Table (LedgerOrder F) → List (LedgerFill F) → F
  cash_total s orders [] = fl.of_nat 0
  cash_total s orders (f ∷ fs) =
      if order_in_scope s (get_row f.order_id orders)
      then fl.add (cash_total s orders fs) (signed_cash (get_row f.order_id orders) f)
      else cash_total s orders fs

  -- SUM of a cost column over the fills of an order; NULL adds nothing.
  unfoldable pub cost_total : (LedgerFill F → Option F) → ℕ → List (LedgerFill F) → F
  cost_total cost oid [] = fl.of_nat 0
  cost_total cost oid (f ∷ fs) =
      if f.order_id == oid
      then elim (cost f) [
        | none ↦ cost_total cost oid fs
        | some x ↦ fl.add (cost_total cost oid fs) x
      ]
      else cost_total cost oid fs

  abbrev pub at_scope : Scope → LedgerPosition F → Bool
  at_scope s p = in_scope s p.account_key p.market p.symbol

  unfoldable pub find_position : Scope → List (LedgerPosition F) → Option (LedgerPosition F)
  find_position s [] = none
  find_position s (p ∷ ps) = if at_scope s p then some p else find_position s ps

  abbrev pub position_of : Scope → ℤ → F → String → LedgerPosition F
  position_of s quantity cash now = record {
    account_key = s.account_key;
    market = s.market;
    symbol = s.symbol;
    quantity = quantity;
    net_cash_flow = cash;
    updated_at = now;
  }

  -- INSERT … ON CONFLICT(account_key,market,symbol) DO UPDATE, by what becomes of the old row.
  unfoldable pub upsert_position :
      Scope
      → LedgerPosition F
      → (LedgerPosition F → LedgerPosition F)
      → List (LedgerPosition F)
      → List (LedgerPosition F)
  upsert_position s new change [] = new ∷ []
  upsert_position s new change (p ∷ ps) =
      if at_scope s p then change p ∷ ps else p ∷ upsert_position s new change ps

  -- What the sums make of a position, written over its row.
  abbrev pub project_position : Scope → String → LedgerDb F → LedgerDb F
  project_position s now db =
      let quantity = filled_total s db.orders db.fills +ℤ adjusted_qty s db.adjustments in
      let row = position_of s quantity (cash_total s db.orders db.fills) now in
      record db { positions = upsert_position s row (λ p. row) db.positions }
