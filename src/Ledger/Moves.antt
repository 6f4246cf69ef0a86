-- ===== src/Ledger/Moves.antt =====
-- Intents, the transition table, and the operations that create and move an order
-- (src/application/orders/models.py, src/application/orders/repository.py).
use hanstock_svc.Base.{
  ℕ, String, Bool, false, ◌&&◌, ◌||◌, ◌+◌, ◌==◌, Option, none, some, List, [], ◌∷◌, pos_part, not,
  str_eq, if◌then◌else◌, or_keep, Float, Rows, get_row, set_row, insert_row, find_where, Result, ok,
  err, value_error, runtime_error, key_error, integrity_error,
}
use hanstock_svc.Base.Results.{guard, require, ◌>>=◌, ◌>>◌}
use hanstock_svc.Ledger.Records.{
  PyText, UnifiedOrderStatus, same_unified, submitted, OrderSide, LedgerOrder, LedgerEvent, Payload,
  text, LedgerDb,
}
use hanstock_svc.Ledger.Statuses.{allows, is_completed, status_text}
use hanstock_svc.Ledger.Intents.{OrderIntent, check_intent}

-- What the broker calls an order; an absent or empty number is none.
abbrev pub names_order : Option String → String → Bool
names_order none b = false
names_order (some a) b = str_eq a b && not (str_eq b "")

abbrev pub text_of : Option String → String
text_of none = ""
text_of (some t) = t

-- COALESCE(NULLIF(new, ''), old)
abbrev pub or_old : String → String → String
or_old new old = if str_eq new "" then old else new

abbrev pub or_old_id : String → Option String → Option String
or_old_id new old = if str_eq new "" then old else some new

-- `event` of the log; the table's log is read from the newest.
abbrev pub has_created : ℕ → List LedgerEvent → Bool
has_created oid [] = false
has_created oid (e ∷ es) =
    ((e.order_id == oid) && str_eq e.event_type "created") || has_created oid es

abbrev pub created_event : ℕ → UnifiedOrderStatus → String → LedgerEvent
created_event oid status now = record {
  order_id = oid;
  event_type = "created";
  from_status = none;
  to_status = status;
  actor = "system";
  reason = none;
  payload = text "{}";
  created_at = now;
}

abbrev pub status_event :
    ℕ
    → String
    → UnifiedOrderStatus
    → UnifiedOrderStatus
    → String
    → String
    → Payload
    → String
    → LedgerEvent
status_event oid kind from to actor reason payload now = record {
  order_id = oid;
  event_type = kind;
  from_status = some from;
  to_status = to;
  actor = actor;
  reason = some reason;
  payload = payload;
  created_at = now;
}

module _ {F : Type 0} ⦃fl : Float F⦄ where
  -- The UNIQUE index on account, market, date and broker order number, but for one order.
  abbrev pub clashes : ℕ → String → String → String → String → (ℕ × LedgerOrder F) → Bool
  clashes oid account market date number (j, o) =
      not (j == oid)
      && str_eq o.account_key account
      && str_eq o.market market
      && str_eq o.broker_order_date date
      && names_order o.broker_order_id number

  unfoldable pub identity_taken :
      ℕ → String → String → String → String → Rows (LedgerOrder F) → Bool
  identity_taken oid account market date number [] = false
  identity_taken oid account market date number (x ∷ rows) =
      clashes oid account market date number x || identity_taken oid account market date number rows

  -- The index holds of the row that an UPDATE or INSERT writes.
  abbrev pub identity_is_free : ℕ → LedgerOrder F → Rows (LedgerOrder F) → Bool
  identity_is_free oid o rows = not (
      identity_taken oid o.account_key o.market o.broker_order_date (text_of o.broker_order_id)
        rows)

  abbrev pub new_order : OrderIntent F → OrderSide → UnifiedOrderStatus → String → LedgerOrder F
  new_order i side status now = record {
    client_order_key = i.client_order_key;
    correlation_id = i.correlation_id;
    account_key = i.account_key;
    market = i.market;
    symbol = i.symbol;
    name = i.name;
    side = side;
    order_type = i.order_type;
    time_in_force = i.time_in_force;
    requested_qty = pos_part i.quantity;
    order_price = i.price;
    filled_qty = 0;
    average_fill_price = fl.of_nat 0;
    broker_order_id = i.broker_order_id;
    broker_order_date = text_of i.broker_order_date;
    status = status;
    version = 1;
    strategy_id = i.strategy_id;
    strategy_version = i.strategy_version;
    signal_id = i.signal_id;
    decision_id = i.decision_id;
    approval_id = i.approval_id;
    expires_at = i.expires_at;
    submitted_at = none;
    completed_at = none;
    last_synced_at = none;
    last_error_message = none;
    metadata_json = i.metadata;
    created_at = now;
    updated_at = now;
  }

  abbrev pub add_event : LedgerEvent → LedgerDb F → LedgerDb F
  add_event e db = record db { events = e ∷ db.events }

  -- The `created` event, unless the order has one.
  abbrev pub log_created : ℕ → UnifiedOrderStatus → String → LedgerDb F → LedgerDb F
  log_created oid status now db =
      if has_created oid db.events then db else add_event (created_event oid status now) db

  -- ON CONFLICT(client_order_key) DO NOTHING, and the row of the key.
  unfoldable pub insert_or_load :
      OrderIntent F
      → OrderSide
      → UnifiedOrderStatus
      → String
      → LedgerDb F
      → Option (ℕ × LedgerOrder F)
      → Result ((ℕ × LedgerOrder F) × LedgerDb F)
  insert_or_load i side status now db (some (oid, o)) = ok ((oid, o), log_created oid status now db)
  insert_or_load i side status now db none = do
    let o = new_order i side status now
    guard (identity_is_free db.orders.next_id o db.orders.rows)
        (integrity_error "UNIQUE constraint failed: orders")
    let db' = record db { orders = insert_row o db.orders }
    ok ((db.orders.next_id, o), log_created db.orders.next_id status now db')

  module _ ⦃tx : PyText⦄ where
    -- `create`, and the checks of the intent.
    unfoldable pub create_order :
        OrderIntent F
        → UnifiedOrderStatus
        → String
        → LedgerDb F
        → Result ((ℕ × LedgerOrder F) × LedgerDb F)
    create_order i status now db = do
      side ← check_intent i
      insert_or_load i side status now db
          (find_where (λ o. str_eq o.client_order_key i.client_order_key) db.orders.rows)

  abbrev pub moved_order : UnifiedOrderStatus → String → LedgerOrder F → LedgerOrder F
  moved_order target now o = record o {
    status = target;
    version = o.version + 1;
    updated_at = now;
    submitted_at =
        if same_unified target submitted then or_keep o.submitted_at (some now) else o.submitted_at;
    completed_at = if is_completed target then some now else o.completed_at;
  }

  -- `transition`, and the row that it reads back.
  unfoldable pub transition_order :
      ℕ
      → UnifiedOrderStatus
      → UnifiedOrderStatus
      → String
      → String
      → String
      → String
      → LedgerDb F
      → Result (LedgerOrder F × LedgerDb F)
  transition_order oid expected target actor reason payload now db = do
    guard (allows expected target) (value_error "invalid order transition")
    o ← require (get_row oid db.orders) (runtime_error "order state changed concurrently")
    guard (same_unified o.status expected) (runtime_error "order state changed concurrently")
    ok (
      moved_order target now o,
      add_event
          (status_event oid (status_text target) expected target actor reason (text payload) now)
          (record db { orders = set_row oid (λ p. moved_order target now o) db.orders }),
    )

  abbrev pub bound_order : String → String → String → String → LedgerOrder F → LedgerOrder F
  bound_order number date message now o = record o {
    broker_order_id = if str_eq number "" then none else some number;
    broker_order_date = or_old date o.broker_order_date;
    last_error_message = if str_eq message "" then none else some message;
    updated_at = now;
  }

  -- `bind_broker_result`; an order that is not there is not an error.
  unfoldable pub bind_broker_result :
      ℕ → String → String → String → String → LedgerDb F → Result (Unit {0} × LedgerDb F)
  bind_broker_result oid number date message now db = elim (get_row oid db.orders) [
    | none ↦ ok (tt, db)
    | some o ↦
        if identity_is_free oid (bound_order number date message now o) db.orders.rows
        then ok (
          tt,
          record db { orders = set_row oid (λ p. bound_order number date message now o) db.orders },
        )
        else err (integrity_error "UNIQUE constraint failed: orders")
  ]

  -- `record_event`: evidence that leaves the status.
  unfoldable pub record_event :
      ℕ → String → String → String → String → String → LedgerDb F → Result (Unit {0} × LedgerDb F)
  record_event oid kind actor reason payload now db = do
    o ← require (get_row oid db.orders) (key_error "order not found")
    ok (tt, add_event (status_event oid kind o.status o.status actor reason (text payload) now) db)
