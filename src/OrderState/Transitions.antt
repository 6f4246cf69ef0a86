-- ===== src/OrderState/Transitions.antt =====
-- The transition table and the methods that move an order without a broker
-- (src/strategy/autonomy/order_state.py).
use hanstock_svc.Base.{
  ℕ, String, Bool, true, false, Option, none, some, ◌==◌, ltb, leb, not, str_eq, if◌then◌else◌,
  coalesce, Float, Result, ok, err, order_state_error, concurrent_order_update,
}
use hanstock_svc.Base.Actions.{pure, transaction, check_not, ◌>>=◌, ◌>>◌}
use hanstock_svc.Schema.{
  Order, OrderStatus, ReservationStatus, Reservation, intent_created, risk_approved,
  approval_queued, approved, submitting, submitted, partially_filled, filled, rejected, expired,
  canceled, cancel_pending, broker_unknown,
}
use hanstock_svc.Execution.{get_managed_order, transition_managed_order}
use hanstock_svc.Risk.{get_active_risk_reservation_for_position, release_risk_reservation}
use hanstock_svc.Protection.{Method}

-- `TERMINAL_STATUSES`
abbrev pub is_terminal : OrderStatus → Bool
is_terminal filled = true
is_terminal rejected = true
is_terminal expired = true
is_terminal canceled = true
is_terminal _ = false

-- `ALLOWED_TRANSITIONS`: from, to.
unfoldable pub allowed : OrderStatus → OrderStatus → Bool
allowed intent_created risk_approved = true
allowed intent_created rejected = true
allowed intent_created expired = true
allowed intent_created canceled = true
allowed risk_approved approval_queued = true
allowed risk_approved approved = true
allowed risk_approved rejected = true
allowed risk_approved expired = true
allowed risk_approved canceled = true
allowed approval_queued approved = true
allowed approval_queued rejected = true
allowed approval_queued expired = true
allowed approval_queued canceled = true
allowed approved submitting = true
allowed approved rejected = true
allowed approved expired = true
allowed approved canceled = true
allowed submitting submitted = true
allowed submitting partially_filled = true
allowed submitting filled = true
allowed submitting broker_unknown = true
allowed submitting rejected = true
allowed submitting cancel_pending = true
allowed submitted partially_filled = true
allowed submitted filled = true
allowed submitted broker_unknown = true
allowed submitted rejected = true
allowed submitted cancel_pending = true
allowed submitted canceled = true
allowed partially_filled filled = true
allowed partially_filled broker_unknown = true
allowed partially_filled cancel_pending = true
allowed partially_filled canceled = true
allowed broker_unknown broker_unknown = true
allowed broker_unknown submitted = true
allowed broker_unknown partially_filled = true
allowed broker_unknown filled = true
allowed broker_unknown rejected = true
allowed broker_unknown cancel_pending = true
allowed broker_unknown canceled = true
allowed cancel_pending canceled = true
allowed cancel_pending broker_unknown = true
allowed cancel_pending submitted = true
allowed cancel_pending partially_filled = true
allowed cancel_pending filled = true
allowed cancel_pending rejected = true
allowed _ _ = false

-- What `datetime.fromisoformat` makes of a text: it raises, or gives a time without a zone, or an
-- instant.
pub data Timestamp : Type 0 where
  unreadable naive : Timestamp
  aware : ℕ → Timestamp

-- What an operation reads of the clock and of the calendar: the text that it stores, the instant
-- that it compares, and how the text of a time is read.
pub record Clock : Type 0 where
  pub text : String
  pub instant : ℕ
  pub parse : String → Timestamp

-- The status that `_finalize_reservation` gives to the reservation.
unfoldable pub final_status : OrderStatus → ℕ → ReservationStatus
final_status expired filled_qty = ReservationStatus.expired
final_status filled filled_qty = ReservationStatus.consumed
final_status _ filled_qty =
    if ltb 0 filled_qty then ReservationStatus.consumed else ReservationStatus.released

-- `_parse_time` of the column: no expiry, an instant, or a text that cannot be read.
unfoldable pub parse_time : Clock → Option String → Result (Option ℕ)
parse_time c none = ok none
parse_time c (some text) = if str_eq text "" then ok none else elim (c.parse text) [
  | unreadable ↦ err (order_state_error "invalid order expiry timestamp")
  | naive ↦ err (order_state_error "order timestamps must be timezone-aware")
  | aware t ↦ ok (some t)
]

-- `expires_at is not None and current >= expires_at`
abbrev pub is_due : Clock → Option ℕ → Bool
is_due c none = false
is_due c (some t) = leb t c.instant

module _ {F : Type 0} ⦃fl : Float F⦄ where
  unfoldable pub require_order : ℕ → Method F (Order F)
  require_order order_id db = elim (get_managed_order order_id db) [
    | none ↦ (err (order_state_error "managed order not found"), db)
    | some o ↦ (ok o, db)
  ]

  unfoldable pub release_found :
      Option (ℕ × Reservation F) → ReservationStatus → String → String → Method F (Unit {0})
  release_found none status reason now = pure tt
  release_found (some (rid, _)) status reason now = do
    transaction (release_risk_reservation rid status reason now)
    pure tt

  unfoldable pub finalize_position :
      Option ℕ → OrderStatus → ℕ → String → String → Method F (Unit {0})
  finalize_position none status filled_qty reason now db = (ok tt, db)
  finalize_position (some pid) status filled_qty reason now db =
      if pid == 0
      then (ok tt, db)
      else release_found (get_active_risk_reservation_for_position pid db)
          (final_status status filled_qty) reason now db

  -- `_finalize_reservation`
  unfoldable pub finalize_reservation :
      Order F → OrderStatus → String → String → Method F (Unit {0})
  finalize_reservation o status reason now =
      if is_terminal status
      then finalize_position o.position_id status o.filled_qty reason now
      else pure tt

  -- The compare-and-set, in one transaction.
  abbrev pub move :
      ℕ
      → OrderStatus
      → OrderStatus
      → String
      → String
      → Option String
      → Option String
      → String
      → Method F Bool
  move order_id expected target reason payload broker_order_id last_error now db =
      let (changed, db') =
        transition_managed_order order_id expected target reason payload broker_order_id last_error
          now db in
      (ok changed, db')

  -- What follows the compare-and-set.
  unfoldable pub settle_transition : ℕ → OrderStatus → String → String → Bool → Method F (Order F)
  settle_transition order_id target reason now changed = do
    check_not (not changed) concurrent_order_update
    o ← require_order order_id
    finalize_reservation o target reason now
    pure o

  unfoldable pub transition :
      ℕ
      → OrderStatus
      → OrderStatus
      → String
      → String
      → Option String
      → Option String
      → String
      → Method F (Order F)
  transition order_id expected target reason payload broker_order_id last_error now = do
    check_not (not (allowed expected target)) (order_state_error "illegal order transition")
    changed ← move order_id expected target reason payload broker_order_id last_error now
    settle_transition order_id target reason now changed

  unfoldable pub mark_risk_approved : ℕ → String → Method F (Order F)
  mark_risk_approved order_id now =
      transition order_id intent_created risk_approved "deterministic risk envelope approved" "{}"
        none none now

  unfoldable pub queue_approval : ℕ → String → Method F (Order F)
  queue_approval order_id now =
      transition order_id risk_approved approval_queued "operator approval required" "{}" none none
        now

  -- `int(order.get("approval_id") or 0)`
  abbrev pub approval_of : Order F → ℕ
  approval_of o = coalesce o.approval_id 0

  unfoldable pub approve : ℕ → ℕ → OrderStatus → String → Method F (Order F)
  approve order_id approval_id expected now = do
    o ← require_order order_id
    check_not (not (approval_of o == approval_id))
        (order_state_error "canonical managed order approval does not match")
    transition order_id expected approved "order approved" "{}" none none now

  unfoldable pub reject : ℕ → OrderStatus → String → String → Method F (Order F)
  reject order_id expected reason now =
      transition order_id expected rejected reason "{}" none (some reason) now

  unfoldable pub expire_if_due : ℕ → OrderStatus → Clock → Method F Bool
  expire_if_due order_id expected c = do
    o ← require_order order_id
    expires_at ← λ db. (parse_time c o.expires_at, db)
    if is_due c expires_at
        then (do
          transition order_id expected expired "order validity window expired" "{}" none none c.text
          pure true)
        else pure false
