-- ===== src/Risk/Protections.antt =====
-- Hard-stop protection rows (src/db/ai_risk_repository.py). Each operation is one transaction.
use hanstock_svc.Base.{
  ℕ, String, Bool, true, false, ◌&&◌, Option, none, some, ◌∷◌, ◌==◌, ltb, not, str_eq,
  if◌then◌else◌, ℤ, pos_part, positive, Float, get_row, set_row, insert_row, Result, ok,
  value_error,
}
use hanstock_svc.Base.Results.{guard, require, raise_if, ◌>>=◌, ◌>>◌}
use hanstock_svc.Schema.{
  Db, Position, PositionSide, Protection, ProtectionEvent, ProtectionEventType, ProtectionStatus,
  long,
}
use hanstock_svc.Execution.{find_protection, new_protection, re_requested}

abbrev pub is_long : PositionSide → Bool
is_long long = true
is_long _ = false

abbrev pub cancel_requested : ProtectionStatus → Bool
cancel_requested ProtectionStatus.cancel_pending = true
cancel_requested ProtectionStatus.canceled = true
cancel_requested _ = false

-- What an operation answers: the id of the protection, and its row.
abbrev pub Protected : Type 0 → Type 0
Protected F = ℕ × Protection F

module _ {F : Type 0} ⦃fl : Float F⦄ where
  -- `math.isfinite(stop) and stop > 0`
  abbrev pub is_price : F → Bool
  is_price x = fl.is_finite x && not (fl.le x (fl.of_nat 0))

  abbrev pub log_event : ProtectionEvent F → Db F → Db F
  log_event e db = record db { protection_events = e ∷ db.protection_events }

  abbrev pub event_of :
      ProtectionEventType
      → ℕ
      → Option ProtectionStatus
      → Protection F
      → Option String
      → Option String
      → String
      → String
      → ProtectionEvent F
  event_of kind gid from g broker_order_id payload reason now = record {
    protection_id = gid;
    ts = now;
    event_type = kind;
    from_status = from;
    to_status = g.status;
    required_qty = g.required_qty;
    protected_qty = g.protected_qty;
    stop_price = g.current_stop_price;
    broker_order_id = broker_order_id;
    payload = payload;
    reason = reason;
  }

  -- Amend the position's protection row, or create it.
  unfoldable pub request_row :
      ℕ
      → Position F
      → ℕ
      → F
      → String
      → String
      → Db F
      → Option (Protected F)
      → Result (Protected F × Db F)
  request_row position_id p qty stop reason now db (some (gid, g)) = do
    raise_if (fl.lt stop g.current_stop_price)
        (value_error "hard stop cannot move in loss-expanding direction")
    let g' = re_requested qty stop now g
    ok (
      (gid, g'),
      log_event
          (event_of ProtectionEventType.protection_amend_requested gid (some g.status) g' none none
            reason now)
          (record db { protections = set_row gid (re_requested qty stop now) db.protections }),
    )
  request_row position_id p qty stop reason now db none =
      let g' = new_protection position_id p qty stop now in
      ok (
        (db.protections.next_id, g'),
        log_event
            (event_of ProtectionEventType.protection_requested db.protections.next_id none g' none
              none reason now)
            (record db { protections = insert_row g' db.protections }),
      )

  unfoldable pub request_position_protection :
      ℕ → ℤ → F → String → String → Db F → Result (Protected F × Db F)
  request_position_protection position_id required_qty stop reason now db = do
    guard (positive required_qty && is_price stop)
        (value_error "required_qty and stop_price must be positive")
    p ← require (get_row position_id db.positions) (value_error "strategy position not found")
    guard (is_long p.side)
        (value_error "hard-stop protection currently supports long positions only")
    guard (pos_part required_qty == p.remaining_qty)
        (value_error "required_qty must equal strategy position open quantity")
    request_row position_id p (pos_part required_qty) stop reason now db
        (find_protection position_id db)

  abbrev pub activated : String → ℕ → F → String → Protection F → Protection F
  activated broker_order_id qty stop now g = record g {
    protected_qty = qty;
    current_stop_price = stop;
    status = if qty == g.required_qty then ProtectionStatus.active else ProtectionStatus.partial;
    broker_order_id = some broker_order_id;
    last_error = none;
    activated_at = some now;
    updated_at = now;
  }

  unfoldable pub activate_position_protection :
      ℕ → String → ℤ → F → String → String → Db F → Result (Protected F × Db F)
  activate_position_protection gid broker_order_id protected_qty stop payload now db = do
    guard (not (str_eq broker_order_id "") && positive protected_qty && is_price stop)
        (value_error "broker_order_id, protected_qty and stop_price are required")
    g ← require (get_row gid db.protections) (value_error "position protection not found")
    raise_if (fl.lt stop g.current_stop_price)
        (value_error "broker stop is below requested hard stop")
    raise_if (ltb g.required_qty (pos_part protected_qty))
        (value_error "protected_qty exceeds required_qty")
    let g' = activated broker_order_id (pos_part protected_qty) stop now g
    ok (
      (gid, g'),
      log_event
          (event_of ProtectionEventType.broker_protection_active gid (some g.status) g'
            (some broker_order_id) (some payload) "broker acknowledged hard stop" now)
          (record db {
            protections =
                set_row gid (activated broker_order_id (pos_part protected_qty) stop now)
                  db.protections;
          }),
    )

  abbrev pub failed_row : String → String → Protection F → Protection F
  failed_row error now g = record g {
    status = ProtectionStatus.failed;
    last_error = some error;
    updated_at = now;
  }

  unfoldable pub fail_position_protection :
      ℕ → String → String → String → Db F → Result (Protected F × Db F)
  fail_position_protection gid error payload now db = do
    raise_if (str_eq error "") (value_error "protection error is required")
    g ← require (get_row gid db.protections) (value_error "position protection not found")
    let g' = failed_row error now g
    ok (
      (gid, g'),
      log_event
          (event_of ProtectionEventType.broker_protection_failed gid (some g.status) g'
            g.broker_order_id (some payload) error now)
          (record db { protections = set_row gid (failed_row error now) db.protections }),
    )

  -- `not position or position["remaining_qty"] > 0`
  abbrev pub is_open : ℕ → Db F → Bool
  is_open position_id db = elim (get_row position_id db.positions) [
    | none ↦ true
    | some p ↦ ltb 0 p.remaining_qty
  ]

  abbrev pub canceled_row : String → Protection F → Protection F
  canceled_row now g = record g {
    status = ProtectionStatus.canceled;
    protected_qty = 0;
    completed_at = some now;
    updated_at = now;
  }

  unfoldable pub cancel_position_protection :
      ℕ → String → String → Db F → Result (Protected F × Db F)
  cancel_position_protection gid reason now db = do
    g ← require (get_row gid db.protections) (value_error "position protection not found")
    raise_if (is_open g.position_id db)
        (value_error "cannot cancel hard stop while position quantity is open")
    let g' = canceled_row now g
    ok (
      (gid, g'),
      log_event
          (event_of ProtectionEventType.protection_canceled gid (some g.status) g' g.broker_order_id
            none reason now)
          (record db { protections = set_row gid (canceled_row now) db.protections }),
    )

  abbrev pub cancel_pending_row : String → Protection F → Protection F
  cancel_pending_row now g = record g { status = ProtectionStatus.cancel_pending; updated_at = now }

  unfoldable pub request_position_protection_cancel :
      ℕ → String → String → Db F → Result (Protected F × Db F)
  request_position_protection_cancel gid reason now db = do
    g ← require (get_row gid db.protections) (value_error "position protection not found")
    raise_if (is_open g.position_id db)
        (value_error "cannot cancel hard stop while position quantity is open")
    let g' = cancel_pending_row now g
    if cancel_requested g.status
        then ok ((gid, g), db)
        else ok (
          (gid, g'),
          log_event
              (event_of ProtectionEventType.protection_cancel_requested gid (some g.status) g'
                g.broker_order_id none reason now)
              (record db { protections = set_row gid (cancel_pending_row now) db.protections }),
        )
