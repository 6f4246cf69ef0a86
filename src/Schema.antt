-- ===== src/Schema.antt =====
-- The tables of src/db/ai_schema_repository.py that the order and risk core writes, and the enums
-- of the text columns. `F` is Python's float. A column that may be NULL is an `Option`.
use hanstock_svc.Base.{ℕ, String, Option, List, Table, IsTable, Bool, true, false}

-- `OrderStatus` of src/strategy/autonomy/order_state.py
pub data OrderStatus : Type 0 where
  intent_created risk_approved approval_queued approved submitting submitted partially_filled filled
        rejected expired canceled cancel_pending broker_unknown :
      OrderStatus

unfoldable pub OrderStatus-discrete : Discrete OrderStatus
OrderStatus-discrete = hlevel

-- `==` of two status texts.
abbrev pub same_status : OrderStatus → OrderStatus → Bool
same_status a b = elim (OrderStatus-discrete a b) [ yes _ ↦ true | no _ ↦ false ]

-- The `action` column of an order.
pub data OrderAction : Type 0 where
  buy sell : OrderAction
  other : String → OrderAction

-- A row of ai_managed_orders.
pub record Order (F : Type 0) : Type 0 where
  pub client_order_key : String
  pub decision_id : ℕ
  pub position_id : Option ℕ
  pub market : String
  pub symbol : String
  pub strategy_id : String
  pub action : OrderAction
  pub order_type : String
  pub requested_qty : ℕ
  pub requested_price : Option F
  pub filled_qty : ℕ
  pub average_fill_price : F
  pub status : OrderStatus
  pub broker_order_id : Option String
  pub approval_id : Option ℕ
  pub expires_at : Option String
  pub last_error : Option String
  pub submitted_at : Option String
  pub completed_at : Option String
  pub created_at : String
  pub updated_at : String

-- A row of ai_managed_order_events.
pub record OrderEvent (F : Type 0) : Type 0 where
  pub order_id : ℕ
  pub ts : String
  pub from_status : Option OrderStatus
  pub to_status : OrderStatus
  pub filled_qty : Option ℕ
  pub fill_price : Option F
  pub broker_payload : Option String
  pub reason : String

-- A row of ai_managed_fills.
pub record Fill (F : Type 0) : Type 0 where
  pub order_id : ℕ
  pub fill_key : String
  pub fill_qty : ℕ
  pub fill_price : F
  pub broker_payload : String
  pub created_at : String

pub data PositionStatus : Type 0 where
  pending_entry open_long exit_pending closed : PositionStatus

pub data PositionSide : Type 0 where
  long : PositionSide
  other : String → PositionSide

-- A row of ai_strategy_positions: the columns that orders, fills and protections read or write.
pub record Position (F : Type 0) : Type 0 where
  pub market : String
  pub account_id : String
  pub symbol : String
  pub strategy_id : String
  pub status : PositionStatus
  pub side : PositionSide
  pub opened_at : Option String
  pub closed_at : Option String
  pub entry_price : Option F
  pub average_price : Option F
  pub filled_qty : ℕ
  pub remaining_qty : ℕ
  pub current_stop_price : Option F
  pub realized_pnl : F
  pub updated_at : String

pub data ProtectionStatus : Type 0 where
  pending amend_pending active partial failed cancel_pending canceled : ProtectionStatus

-- A row of ai_position_protections.
pub record Protection (F : Type 0) : Type 0 where
  pub position_id : ℕ
  pub market : String
  pub account_id : String
  pub symbol : String
  pub strategy_id : String
  pub required_qty : ℕ
  pub protected_qty : ℕ
  pub initial_stop_price : F
  pub current_stop_price : F
  pub status : ProtectionStatus
  pub broker_order_id : Option String
  pub last_error : Option String
  pub created_at : String
  pub updated_at : String
  pub activated_at : Option String
  pub completed_at : Option String

pub data ProtectionEventType : Type 0 where
  fill_protection_required fill_protection_reconcile_required protection_requested
        protection_amend_requested broker_protection_active broker_protection_failed
        protection_canceled protection_cancel_requested :
      ProtectionEventType

-- A row of ai_position_protection_events.
pub record ProtectionEvent (F : Type 0) : Type 0 where
  pub protection_id : ℕ
  pub ts : String
  pub event_type : ProtectionEventType
  pub from_status : Option ProtectionStatus
  pub to_status : ProtectionStatus
  pub required_qty : ℕ
  pub protected_qty : ℕ
  pub stop_price : F
  pub broker_order_id : Option String
  pub payload : Option String
  pub reason : String

pub data ReservationStatus : Type 0 where
  active released consumed expired : ReservationStatus

-- A row of ai_risk_reservations.
pub record Reservation (F : Type 0) : Type 0 where
  pub account_id : String
  pub market : String
  pub strategy_id : String
  pub position_id : ℕ
  pub order_id : ℕ
  pub cash_amount : F
  pub risk_amount : F
  pub symbol : String
  pub sector_key : String
  pub exposure_amount : F
  pub status : ReservationStatus
  pub reason : Option String
  pub expires_at : Option String
  pub created_at : String
  pub updated_at : String
  pub released_at : Option String

-- The database. The event and fill tables are only appended to; the newest row is in front.
pub record Db (F : Type 0) : Type 0 where
  pub orders : Table (Order F)
  pub order_events : List (OrderEvent F)
  pub fills : List (Fill F)
  pub positions : Table (Position F)
  pub protections : Table (Protection F)
  pub protection_events : List (ProtectionEvent F)
  pub reservations : Table (Reservation F)

-- The primary keys: the ids of each table are distinct and were all handed out.
pub record IsKeyedDb {F : Type 0} (db : Db F) : Type 0 where
  pub orders : IsTable db.orders
  pub positions : IsTable db.positions
  pub protections : IsTable db.protections
  pub reservations : IsTable db.reservations
