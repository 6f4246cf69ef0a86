-- ===== src/Risk/Reservations.antt =====
-- Reserving and releasing cash, risk and exposure (src/db/ai_risk_repository.py). Each operation is
-- one transaction under `BEGIN IMMEDIATE`.
use hanstock_svc.Base.{
  ℕ, ◌-◌, String, Bool, true, false, ◌&&◌, ◌||◌, Option, none, some, [], ◌∷◌, ◌==◌, ltb, not,
  str_eq, if◌then◌else◌, coalesce, Float, Rows, get_row, set_row, insert_row, find_where, find_last,
  Result, ok, value_error,
}
use hanstock_svc.Base.Results.{guard, require, raise_if, ◌>>=◌, ◌>>◌}
use hanstock_svc.Schema.{
  Order, OrderAction, OrderStatus, Db, Reservation, ReservationStatus, buy, intent_created,
  risk_approved, approval_queued, approved, submitting, submitted, partially_filled, cancel_pending,
  broker_unknown,
}
use hanstock_svc.Execution.{require_storable_market}

-- `exposure_limits`, by dimension.
pub record ExposureLimits (F : Type 0) : Type 0 where
  pub position : F
  pub market : F
  pub sector : F
  pub strategy : F

-- What `reserve_risk_budget` is given; the texts are stripped, and an id of 0 is none.
pub record NewReservation (F : Type 0) : Type 0 where
  pub account_id : String
  pub market : String
  pub strategy_id : String
  pub position_id : ℕ
  pub order_id : ℕ
  pub cash_amount : F
  pub risk_amount : F
  pub symbol : String
  pub sector_key : String
  pub exposure_amount : Option F
  pub exposure_limits : Option (ExposureLimits F)
  pub reason : Option String
  pub expires_at : Option String

-- The row that is reserved, and whether this call created it.
pub record Reserved (F : Type 0) : Type 0 where
  pub id : ℕ
  pub row : Reservation F
  pub created : Bool

abbrev pub is_active : ReservationStatus → Bool
is_active ReservationStatus.active = true
is_active _ = false

abbrev pub is_buy : OrderAction → Bool
is_buy buy = true
is_buy _ = false

-- The statuses of an order that may still be filled.
abbrev pub is_pending : OrderStatus → Bool
is_pending intent_created = true
is_pending risk_approved = true
is_pending approval_queued = true
is_pending approved = true
is_pending submitting = true
is_pending submitted = true
is_pending partially_filled = true
is_pending cancel_pending = true
is_pending broker_unknown = true
is_pending _ = false

module _ {F : Type 0} ⦃fl : Float F⦄ where
  -- SUM(g) over the rows that pass the test, from the first row on. SQLite promises neither this
  -- order nor how it rounds in between; the sum of the model is one that it may give.
  unfoldable pub total : (Reservation F → Bool) → (Reservation F → F) → F → Rows (Reservation F) → F
  total p g acc [] = acc
  total p g acc ((_, r) ∷ rows) = total p g (if p r then fl.add acc (g r) else acc) rows

  -- WHERE account_id=? AND market=? AND status='active'
  abbrev pub counts : String → String → Reservation F → Bool
  counts account market r =
      str_eq r.account_id account && str_eq r.market market && is_active r.status

  abbrev pub reserved_cash : String → String → Db F → F
  reserved_cash account market db =
      total (counts account market) (λ r. r.cash_amount) (fl.of_nat 0) db.reservations.rows

  abbrev pub reserved_risk : String → String → Db F → F
  reserved_risk account market db =
      total (counts account market) (λ r. r.risk_amount) (fl.of_nat 0) db.reservations.rows

  -- A live buy order of the position.
  abbrev pub pending_buy : ℕ → Order F → Bool
  pending_buy pid o = elim o.position_id [
    | none ↦ false
    | some q ↦ (q == pid) && is_buy o.action && is_pending o.status
  ]

  -- The unfilled value of the newest live buy order of the position, or what was reserved.
  unfoldable pub pending_exposure : Db F → Reservation F → F
  pending_exposure db r = elim (find_last (pending_buy r.position_id) db.orders.rows) [
    | none ↦ r.exposure_amount
    | some (_, o) ↦
        if ltb o.filled_qty o.requested_qty
        then fl.mul (fl.of_nat (o.requested_qty - o.filled_qty))
            (coalesce o.requested_price (fl.of_nat 0))
        else fl.of_nat 0
  ]

  -- `math.isfinite(value) and value >= 0`
  abbrev pub is_amount : F → Bool
  is_amount x = fl.is_finite x && not (fl.lt x (fl.of_nat 0))

  -- The partial UNIQUE index on the active key.
  abbrev pub same_key : NewReservation F → Reservation F → Bool
  same_key d r =
      str_eq r.account_id d.account_id
      && str_eq r.market d.market
      && str_eq r.strategy_id d.strategy_id
      && (r.position_id == d.position_id)
      && (r.order_id == d.order_id)
      && is_active r.status

  abbrev pub exposure_of : NewReservation F → F
  exposure_of d = coalesce d.exposure_amount d.cash_amount

  -- The active reservation says what this call says.
  abbrev pub same_amounts : NewReservation F → Reservation F → Bool
  same_amounts d r =
      fl.eq r.cash_amount d.cash_amount
      && fl.eq r.risk_amount d.risk_amount
      && fl.eq r.exposure_amount (exposure_of d)
      && str_eq r.symbol d.symbol
      && str_eq r.sector_key d.sector_key

  -- The checks of the arguments.
  unfoldable pub check_request : NewReservation F → F → F → Result (Unit {0})
  check_request d cash_limit risk_limit = do
    require_storable_market d.market
    raise_if (str_eq d.account_id "" || str_eq d.strategy_id "")
        (value_error "account_id and strategy_id are required")
    raise_if ((d.position_id == 0) && (d.order_id == 0))
        (value_error "position_id or order_id is required")
    guard (is_amount d.cash_amount) (value_error "cash_amount must be finite and non-negative")
    guard (is_amount d.risk_amount) (value_error "risk_amount must be finite and non-negative")
    guard (is_amount (exposure_of d))
        (value_error "exposure_amount must be finite and non-negative")
    raise_if (fl.eq d.cash_amount (fl.of_nat 0) && fl.eq d.risk_amount (fl.of_nat 0))
        (value_error "reservation must consume cash or risk budget")
    guard (is_amount cash_limit && is_amount risk_limit)
        (value_error "available_cash and risk_budget_limit must be finite and non-negative")

  -- Each dimension's pending exposure, with the new one, is within its limit.
  unfoldable pub check_exposure :
      NewReservation F → Db F → Option (ExposureLimits F) → Result (Unit {0})
  check_exposure d db none = ok tt
  check_exposure d db (some l) = do
    raise_if (str_eq d.symbol "" || str_eq d.sector_key "")
        (value_error "symbol and sector_key are required for exposure reservation")
    guard (is_amount l.position && is_amount l.market && is_amount l.sector && is_amount l.strategy)
        (value_error "exposure reservation limits must be finite and non-negative")
    let used = λ (p : Reservation F → Bool).
        total (λ r. counts d.account_id d.market r && p r) (pending_exposure db) (fl.of_nat 0)
          db.reservations.rows
    raise_if (fl.lt l.position (fl.add (used (λ r. str_eq r.symbol d.symbol)) (exposure_of d)))
        (value_error "position exposure reservation exceeds limit")
    raise_if (fl.lt l.market (fl.add (used (λ r. true)) (exposure_of d)))
        (value_error "market exposure reservation exceeds limit")
    raise_if
        (fl.lt l.sector (fl.add (used (λ r. str_eq r.sector_key d.sector_key)) (exposure_of d)))
        (value_error "sector exposure reservation exceeds limit")
    raise_if
        (fl.lt l.strategy (fl.add (used (λ r. str_eq r.strategy_id d.strategy_id)) (exposure_of d)))
        (value_error "strategy exposure reservation exceeds limit")

  abbrev pub new_reservation : NewReservation F → String → Reservation F
  new_reservation d now = record {
    account_id = d.account_id;
    market = d.market;
    strategy_id = d.strategy_id;
    position_id = d.position_id;
    order_id = d.order_id;
    cash_amount = d.cash_amount;
    risk_amount = d.risk_amount;
    symbol = d.symbol;
    sector_key = d.sector_key;
    exposure_amount = exposure_of d;
    status = ReservationStatus.active;
    reason = d.reason;
    expires_at = d.expires_at;
    created_at = now;
    updated_at = now;
    released_at = none;
  }

  -- The branch behind the look-up of the active key.
  unfoldable pub reserve_or_reuse :
      NewReservation F
      → F
      → F
      → String
      → Db F
      → Option (ℕ × Reservation F)
      → Result (Reserved F × Db F)
  reserve_or_reuse d cash_limit risk_limit now db (some (rid, r)) = do
    guard (same_amounts d r) (value_error "active reservation key already has different amounts")
    ok (record { id = rid; row = r; created = false }, db)
  reserve_or_reuse d cash_limit risk_limit now db none = do
    raise_if (fl.lt cash_limit (fl.add (reserved_cash d.account_id d.market db) d.cash_amount))
        (value_error "cash reservation exceeds available cash")
    raise_if (fl.lt risk_limit (fl.add (reserved_risk d.account_id d.market db) d.risk_amount))
        (value_error "risk reservation exceeds risk budget")
    check_exposure d db d.exposure_limits
    ok (
      record { id = db.reservations.next_id; row = new_reservation d now; created = true },
      record db { reservations = insert_row (new_reservation d now) db.reservations },
    )

  unfoldable pub reserve_risk_budget :
      NewReservation F → F → F → String → Db F → Result (Reserved F × Db F)
  reserve_risk_budget d cash_limit risk_limit now db = do
    check_request d cash_limit risk_limit
    reserve_or_reuse d cash_limit risk_limit now db (find_where (same_key d) db.reservations.rows)

  -- SELECT … WHERE position_id=? AND status='active' ORDER BY id DESC LIMIT 1
  abbrev pub get_active_risk_reservation_for_position : ℕ → Db F → Option (ℕ × Reservation F)
  get_active_risk_reservation_for_position position_id db =
      find_last (λ r. (r.position_id == position_id) && is_active r.status) db.reservations.rows

  abbrev pub closed_reservation :
      ReservationStatus → String → String → Reservation F → Reservation F
  closed_reservation final_status reason now r = record r {
    status = final_status;
    reason = if str_eq reason "" then r.reason else some reason;
    released_at = some now;
    updated_at = now;
  }

  unfoldable pub release_risk_reservation :
      ℕ → ReservationStatus → String → String → Db F → Result (Reservation F × Db F)
  release_risk_reservation rid final_status reason now db = do
    raise_if (is_active final_status) (value_error "invalid reservation final_status")
    r ← require (get_row rid db.reservations) (value_error "risk reservation not found")
    if is_active r.status
        then ok (
          closed_reservation final_status reason now r,
          record db {
            reservations = set_row rid (closed_reservation final_status reason now) db.reservations;
          },
        )
        else ok (r, db)
