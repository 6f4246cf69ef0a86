-- ===== src/Ledger/Recovery.antt =====
-- Orders of completed sessions, at start-up: `close_expired_unified_day_orders`
-- (src/application/orders/recovery.py).
use hanstock_svc.Base.{
  ℕ, suc, String, Bool, true, false, ◌&&◌, ◌||◌, ◌+◌, ◌==◌, Option, none, some, List, [], ◌∷◌, ◌++◌,
  not, str_eq, ltb, if◌then◌else◌, Float, Rows, get_row, set_row,
}
use hanstock_svc.Ledger.Records.{
  UnifiedOrderStatus, same_unified, submitted, open_, partial, cancel_pending, canceled,
  broker_unknown, LedgerOrder, LedgerEvent, text, LedgerDb,
}
use hanstock_svc.Ledger.Moves.{status_event, add_event}
use Prim.Native.Nat.{Ordering}
use Prim.Native.String.{compare as compare_text}

-- The instant of the recovery, as the code reads it: the day in Korea as a text, the time as it is
-- stored, the day in New York, whether it is 16:15 there, and the day there of a stored time.
pub record RecoveryClock : Type 0 where
  pub cutoff : String
  pub updated_at : String
  pub us_cutoff : ℕ
  pub expire_current_us_day : Bool
  pub order_day : String → Option ℕ

-- `<` of two texts.
abbrev pub before_text : String → String → Bool
before_text a b = elim (compare_text a b) [ Ordering.lt ↦ true | _ ↦ false ]

abbrev pub is_working : UnifiedOrderStatus → Bool
is_working submitted = true
is_working open_ = true
is_working partial = true
is_working cancel_pending = true
is_working _ = false

-- The type of an order's newest event.
unfoldable pub newest_is : String → ℕ → List LedgerEvent → Bool
newest_is kind oid [] = false
newest_is kind oid (e ∷ es) =
    if e.order_id == oid then str_eq e.event_type kind else newest_is kind oid es

abbrev pub is_past_day : RecoveryClock → Option ℕ → Bool
is_past_day c none = false
is_past_day c (some day) = ltb day c.us_cutoff || (c.expire_current_us_day && (day == c.us_cutoff))

-- `len(rows)`
unfoldable pub count_due : List (ℕ × UnifiedOrderStatus) → ℕ
count_due [] = 0
count_due (x ∷ r) = suc (count_due r)

module _ {F : Type 0} ⦃fl : Float F⦄ where
  abbrev pub is_due_domestic : RecoveryClock → List LedgerEvent → ℕ → LedgerOrder F → Bool
  is_due_domestic c events oid o =
      str_eq o.time_in_force "DAY"
      && not (str_eq o.market "US")
      && not (str_eq o.broker_order_date "")
      && before_text o.broker_order_date c.cutoff
      && (is_working o.status
          || (same_unified o.status canceled && newest_is "expired_day_order" oid events))

  abbrev pub is_due_us : RecoveryClock → ℕ → LedgerOrder F → Bool
  is_due_us c oid o =
      str_eq o.time_in_force "DAY"
      && str_eq o.market "US"
      && is_working o.status
      && is_past_day c (c.order_day o.created_at)

  -- The ids and statuses of the rows that pass a test.
  unfoldable pub due_orders :
      (ℕ → LedgerOrder F → Bool) → Rows (LedgerOrder F) → List (ℕ × UnifiedOrderStatus)
  due_orders p [] = []
  due_orders p ((oid, o) ∷ r) = if p oid o then (oid, o.status) ∷ due_orders p r else due_orders p r

  abbrev pub unverified_order : String → LedgerOrder F → LedgerOrder F
  unverified_order now o = record o {
    status = broker_unknown;
    completed_at = none;
    updated_at = now;
    version = o.version + 1;
  }

  abbrev pub flag_row :
      ℕ → UnifiedOrderStatus → String → Option (LedgerOrder F) → LedgerDb F → LedgerDb F
  flag_row oid previous now none db = db
  flag_row oid previous now (some o) db =
      if same_unified o.status previous
      then record db { orders = set_row oid (λ p. unverified_order now o) db.orders }
      else db

  -- The body of the loop.
  abbrev pub flag_order : ℕ → UnifiedOrderStatus → String → LedgerDb F → LedgerDb F
  flag_order oid previous now db =
      add_event
        (status_event oid "prior_session_verification_required" previous broker_unknown
          "startup_recovery" "final broker execution snapshot required" (text "{}") now)
        (flag_row oid previous now (get_row oid db.orders) db)

  unfoldable pub flag_orders : List (ℕ × UnifiedOrderStatus) → String → LedgerDb F → LedgerDb F
  flag_orders [] now db = db
  flag_orders ((oid, previous) ∷ r) now db = flag_orders r now (flag_order oid previous now db)

  abbrev pub expired_orders : RecoveryClock → LedgerDb F → List (ℕ × UnifiedOrderStatus)
  expired_orders c db =
      due_orders (is_due_domestic c db.events) db.orders.rows
      ++ due_orders (is_due_us c) db.orders.rows

  unfoldable pub close_expired_orders : RecoveryClock → LedgerDb F → ℕ × LedgerDb F
  close_expired_orders c db =
      (count_due (expired_orders c db), flag_orders (expired_orders c db) c.updated_at db)
