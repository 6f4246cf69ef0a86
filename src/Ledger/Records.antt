-- ===== src/Ledger/Records.antt =====
-- The unified order ledger: statuses, rows and the database
-- (src/application/orders/models.py, src/db/migrations.py).
use hanstock_svc.Base.{ℕ, String, Bool, true, false, Option, List, ℤ, Table}

-- What Python makes of texts: `str(n)`, `str(float(n))`, `t.lower()`, `t.upper()` and `t.strip()`.
pub record PyText : Type 0 where
  pub of_int : ℕ → String
  pub of_float : ℕ → String
  pub lower : String → String
  pub upper : String → String
  pub strip : String → String

-- `UnifiedOrderStatus`
pub data UnifiedOrderStatus : Type 0 where
  created risk_approved approval_pending approved submitting submitted open_ partial filled
        cancel_pending canceled rejected expired broker_unknown failed :
      UnifiedOrderStatus

unfoldable pub UnifiedOrderStatus-discrete : Discrete UnifiedOrderStatus
UnifiedOrderStatus-discrete = hlevel

-- `==` of two status texts.
abbrev pub same_unified : UnifiedOrderStatus → UnifiedOrderStatus → Bool
same_unified a b = elim (UnifiedOrderStatus-discrete a b) [ yes _ ↦ true | no _ ↦ false ]

pub data OrderSide : Type 0 where
  buy_side sell_side : OrderSide

-- A row of orders.
pub record LedgerOrder (F : Type 0) : Type 0 where
  pub client_order_key : String
  pub correlation_id : String
  pub account_key : String
  pub market : String
  pub symbol : String
  pub name : String
  pub side : OrderSide
  pub order_type : String
  pub time_in_force : String
  pub requested_qty : ℕ
  pub order_price : F
  pub filled_qty : ℕ
  pub average_fill_price : F
  pub broker_order_id : Option String
  pub broker_order_date : String
  pub status : UnifiedOrderStatus
  pub version : ℕ
  pub strategy_id : Option String
  pub strategy_version : Option ℕ
  pub signal_id : Option String
  pub decision_id : Option ℕ
  pub approval_id : Option ℕ
  pub expires_at : Option String
  pub submitted_at : Option String
  pub completed_at : Option String
  pub last_synced_at : Option String
  pub last_error_message : Option String
  pub metadata_json : String
  pub created_at : String
  pub updated_at : String

-- `payload_json`: a text, or the quantities of a broker snapshot.
pub data Payload : Type 0 where
  text : String → Payload
  fill_delta : ℕ → ℕ → Payload

-- A row of order_events.
pub record LedgerEvent : Type 0 where
  pub order_id : ℕ
  pub event_type : String
  pub from_status : Option UnifiedOrderStatus
  pub to_status : UnifiedOrderStatus
  pub actor : String
  pub reason : Option String
  pub payload : Payload
  pub created_at : String

-- A row of fills, but `raw_json`.
pub record LedgerFill (F : Type 0) : Type 0 where
  pub fill_key : String
  pub order_id : ℕ
  pub quantity : ℕ
  pub price : F
  pub fee : Option F
  pub tax : Option F
  pub cost_source : String
  pub filled_at : String

-- A row of positions, by account, market and symbol.
pub record LedgerPosition (F : Type 0) : Type 0 where
  pub account_key : String
  pub market : String
  pub symbol : String
  pub quantity : ℤ
  pub net_cash_flow : F
  pub updated_at : String

-- A row of position_quantity_adjustments.
pub record Adjustment : Type 0 where
  pub account_key : String
  pub market : String
  pub symbol : String
  pub quantity_delta : ℤ
  pub reconciliation_id : ℕ
  pub reason : String
  pub created_at : String

-- The statuses of an issue that the code tells apart.
pub data IssueStatus : Type 0 where
  open_issue resolved superseded closed_otherwise : IssueStatus

-- A row of reconciliation_adjustments.
pub record Issue : Type 0 where
  pub account_key : String
  pub market : String
  pub symbol : String
  pub broker_qty : ℤ
  pub internal_qty : ℤ
  pub difference_qty : ℤ
  pub reason : String
  pub status : IssueStatus
  pub snapshot_json : String
  pub reviewed_by : Option String
  pub reviewed_at : Option String
  pub created_at : String

-- The ledger's tables; the newest event, fill and adjustment are in front.
pub record LedgerDb (F : Type 0) : Type 0 where
  pub orders : Table (LedgerOrder F)
  pub events : List LedgerEvent
  pub fills : List (LedgerFill F)
  pub positions : List (LedgerPosition F)
  pub adjustments : List Adjustment
  pub issues : Table Issue
