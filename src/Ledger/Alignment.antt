-- ===== src/Ledger/Alignment.antt =====
-- Positions aligned with the broker's balances
-- (src/application/orders/position_reconciliation.py).
use hanstock_svc.Base.{
  ℕ, String, Bool, true, false, ◌&&◌, ◌||◌, ◌==◌, Option, none, some, List, [], ◌∷◌, ℤ, pos, ◌-ℤ◌,
  not, str_eq, if◌then◌else◌, Float, Rows, Result, ok, value_error, integrity_error,
}
use hanstock_svc.Base.Results.{raise_if, ◌>>=◌, ◌>>◌}
use hanstock_svc.Ledger.Records.{
  Adjustment, Issue, IssueStatus, open_issue, resolved, superseded, LedgerPosition, LedgerDb,
}
use hanstock_svc.Ledger.Projection.{Scope, in_scope, find_position, position_of, upsert_position}
use Prim.Native.String.{◌++◌ as str_append}

-- `account_key` and `market`, where the caller gives them.
abbrev pub asked_for : Option String → String → Bool
asked_for none value = true
asked_for (some wanted) value = str_eq value wanted

abbrev pub is_open_issue : IssueStatus → Bool
is_open_issue open_issue = true
is_open_issue _ = false

abbrev pub issue_scope : Issue → Scope
issue_scope x = record { account_key = x.account_key; market = x.market; symbol = x.symbol }

abbrev pub open_at : Scope → Issue → Bool
open_at s x = in_scope s x.account_key x.market x.symbol && is_open_issue x.status

unfoldable pub has_open : Scope → Rows Issue → Bool
has_open s [] = false
has_open s ((i, x) ∷ r) = open_at s x || has_open s r

-- The newest open issue of each position. The source orders them by position, of which there is
-- one each.
unfoldable pub latest_issues : Option String → Option String → Rows Issue → Rows Issue
latest_issues account market [] = []
latest_issues account market ((i, x) ∷ r) =
    let rest = latest_issues account market r in
    if is_open_issue x.status
      && not (has_open (issue_scope x) r)
      && asked_for account x.account_key
      && asked_for market x.market
    then (i, x) ∷ rest
    else rest

-- What becomes of the issues of a position when one of them is applied.
abbrev pub review_issue : ℕ → Scope → String → String → ℕ → Issue → Issue
review_issue applied s actor now i x =
    if open_at s x
    then record x {
      status = if i == applied then resolved else superseded;
      reviewed_by = some actor;
      reviewed_at = some now;
      reason = str_append x.reason (
          if i == applied
          then " | applied to position projection"
          else " | superseded by newer broker snapshot");
    }
    else x

unfoldable pub review_issues : ℕ → Scope → String → String → Rows Issue → Rows Issue
review_issues applied s actor now [] = []
review_issues applied s actor now ((i, x) ∷ r) =
    (i, review_issue applied s actor now i x) ∷ review_issues applied s actor now r

-- The UNIQUE column of position_quantity_adjustments.
unfoldable pub has_adjustment : ℕ → List Adjustment → Bool
has_adjustment i [] = false
has_adjustment i (a ∷ rest) = (a.reconciliation_id == i) || has_adjustment i rest

abbrev pub adjustment_of : ℕ → Scope → ℤ → String → Adjustment
adjustment_of i s delta now = record {
  account_key = s.account_key;
  market = s.market;
  symbol = s.symbol;
  quantity_delta = delta;
  reconciliation_id = i;
  reason = "authoritative broker balance alignment";
  created_at = now;
}

-- An entry of `applied`.
pub record Aligned : Type 0 where
  pub issue_id : ℕ
  pub scope : Scope
  pub before_qty : ℤ
  pub broker_qty : ℤ
  pub quantity_delta : ℤ

module _ {F : Type 0} ⦃fl : Float F⦄ where
  abbrev pub quantity_at : Option (LedgerPosition F) → ℤ
  quantity_at none = pos 0
  quantity_at (some p) = p.quantity

  abbrev pub aligned_db : ℕ → Issue → ℤ → String → String → LedgerDb F → LedgerDb F
  aligned_db i x current actor now db =
      let s = issue_scope x in
      record db {
        adjustments = adjustment_of i s (x.broker_qty -ℤ current) now ∷ db.adjustments;
        positions =
            upsert_position s (position_of s x.broker_qty (fl.of_nat 0) now)
              (λ p. record p { quantity = x.broker_qty; updated_at = now }) db.positions;
        issues = record db.issues { rows = review_issues i s actor now db.issues.rows };
      }

  -- The body of the loop.
  unfoldable pub align_issue :
      ℕ → Issue → String → String → LedgerDb F → Result (Aligned × LedgerDb F)
  align_issue i x actor now db = do
    let s = issue_scope x
    let current = quantity_at (find_position s db.positions)
    raise_if (has_adjustment i db.adjustments) (integrity_error "UNIQUE constraint failed")
    ok (
      record {
        issue_id = i;
        scope = s;
        before_qty = current;
        broker_qty = x.broker_qty;
        quantity_delta = x.broker_qty -ℤ current;
      },
      aligned_db i x current actor now db,
    )

  unfoldable pub align_issues :
      Rows Issue → String → String → LedgerDb F → Result (List Aligned × LedgerDb F)
  align_issues [] actor now db = ok ([], db)
  align_issues ((i, x) ∷ r) actor now db = do
    (item, db1) ← align_issue i x actor now db
    (items, db2) ← align_issues r actor now db1
    ok (item ∷ items, db2)

  -- `apply_latest_open_reconciliation_issues`, of a stripped actor.
  unfoldable pub apply_latest_issues :
      String
      → Option String
      → Option String
      → String
      → LedgerDb F
      → Result (List Aligned × LedgerDb F)
  apply_latest_issues actor account market now db = do
    raise_if (str_eq actor "") (value_error "actor is required")
    align_issues (latest_issues account market db.issues.rows) actor now db
