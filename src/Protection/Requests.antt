-- ===== src/Protection/Requests.antt =====
-- The records of the stop broker's protocol, and requesting and submitting a hard stop
-- (src/strategy/autonomy/protection.py).
use hanstock_svc.Base.{
  ℕ, String, Bool, true, false, ◌||◌, Option, none, some, ◌==◌, ltb, not, str_eq, if◌then◌else◌, ℤ,
  pos, pos_part, positive, Float, Rows, get_row, Result, ok, err, value_error, protection_error,
}
use hanstock_svc.Base.Actions.{Action, raise, transaction, check_not, ◌>>=◌, ◌>>◌}
use hanstock_svc.Schema.{Db, Position}
use hanstock_svc.Risk.{
  Protected, request_position_protection, activate_position_protection, fail_position_protection,
}

pub record ProtectionAck (F : Type 0) : Type 0 where
  pub accepted : Bool
  pub broker_order_id : String
  pub protected_qty : ℤ
  pub stop_price : F
  pub payload : String
  pub error : String

pub record ProtectionRequest (F : Type 0) : Type 0 where
  pub protection_id : ℕ
  pub position_id : ℕ
  pub market : String
  pub account_id : String
  pub symbol : String
  pub strategy_id : String
  pub quantity : ℕ
  pub stop_price : F
  pub existing_broker_order_id : Option String

pub record ProtectionObservation (F : Type 0) : Type 0 where
  pub exists_ : Bool
  pub is_live : Bool
  pub broker_order_id : String
  pub protected_qty : ℤ
  pub stop_price : F
  pub payload : String

-- The `ProtectionBroker` protocol: the answers of the broker to the calls that an operation makes.
pub record ProtectionBroker (F : Type 0) : Type 0 where
  pub supports_hard_stops : Bool
  pub submit_hard_stop : ProtectionRequest F → Result (ProtectionAck F)
  pub amend_hard_stop : ProtectionRequest F → Result (ProtectionAck F)
  pub cancel_hard_stop : ProtectionRequest F → Result (ProtectionAck F)
  pub fetch_hard_stop : ProtectionRequest F → Result (ProtectionObservation F)
  -- by account and symbol
  pub fetch_position_qty : String → String → Result ℕ

-- The reasons of a `ProtectionGateSignal`.
pub data GateReason : Type 0 where
  all_open_quantities_protected unprotected_open_quantity protection_state_unavailable
        protection_broker_unavailable protection_recovery_incomplete :
      GateReason

pub record ProtectionGateSignal (F : Type 0) : Type 0 where
  pub block_new_risk : Bool
  pub reason : GateReason
  pub uncovered_positions : Rows (Position F)

-- `text or other`
abbrev pub or_text : String → String → String
or_text text other = if str_eq text "" then other else text

abbrev pub Method : Type 0 → Type 0 → Type 0
Method F A = Action (Db F) A

-- `if request.existing_broker_order_id`
abbrev pub has_order : Option String → Bool
has_order none = false
has_order (some text) = not (str_eq text "")

module _ {F : Type 0} ⦃fl : Float F⦄ where
  -- `_request`
  abbrev pub build_request : Protected F → ProtectionRequest F
  build_request (gid, g) = record {
    protection_id = gid;
    position_id = g.position_id;
    market = g.market;
    account_id = g.account_id;
    symbol = g.symbol;
    strategy_id = g.strategy_id;
    quantity = g.required_qty;
    stop_price = g.current_stop_price;
    existing_broker_order_id = g.broker_order_id;
  }

  unfoldable pub require_position : ℕ → Method F (Position F)
  require_position pid db = elim (get_row pid db.positions) [
    | none ↦ (err (protection_error "strategy position not found"), db)
    | some p ↦ (ok p, db)
  ]

  unfoldable pub request_entry_fill : ℕ → ℤ → F → String → Method F (Protected F)
  unfolding require_position
  request_entry_fill pid filled_qty stop now = do
    check_not (not (positive filled_qty)) (value_error "filled_qty must be positive")
    p ← require_position pid
    check_not ((p.remaining_qty == 0) || ltb p.remaining_qty (pos_part filled_qty))
        (protection_error "entry fill is inconsistent with strategy position quantity")
    transaction
        (request_position_protection pid (pos p.remaining_qty) stop "protect entry fill" now)

  -- `_accept_ack`
  unfoldable pub accept_ack : Protected F → ProtectionAck F → String → Method F (Protected F)
  accept_ack (gid, g) ack now =
      if ack.accepted
      then transaction (
          activate_position_protection gid ack.broker_order_id ack.protected_qty ack.stop_price
            ack.payload now)
      else do
        let error = or_text ack.error "broker rejected hard-stop protection"
        transaction (fail_position_protection gid error ack.payload now)
        raise (protection_error error)

  -- What follows a broker call on the protection: its answer, or that it raised.
  unfoldable pub settle_call :
      Protected F → String → Result (ProtectionAck F) → String → Method F (Protected F)
  settle_call protection why (ok ack) now = accept_ack protection ack now
  settle_call protection why (err _) now = do
    transaction (fail_position_protection protection.0 "broker exception" "{}" now)
    raise (protection_error why)

  abbrev pub place : ProtectionBroker F → ProtectionRequest F → Result (ProtectionAck F)
  place broker request =
      if has_order request.existing_broker_order_id
      then broker.amend_hard_stop request
      else broker.submit_hard_stop request

  abbrev pub request_for : Protected F → Bool → ProtectionRequest F
  request_for protection false = build_request protection
  request_for protection true =
      let r = build_request protection in record r { existing_broker_order_id = none }

  unfoldable pub submit_requested :
      Protected F → ProtectionBroker F → Bool → String → Method F (Protected F)
  submit_requested protection broker force_new now =
      settle_call protection "hard-stop broker call failed"
        (place broker (request_for protection force_new)) now

  unfoldable pub protect_entry_fill :
      ℕ → ℤ → F → ProtectionBroker F → String → Method F (Protected F)
  protect_entry_fill pid filled_qty stop broker now = do
    protection ← request_entry_fill pid filled_qty stop now
    submit_requested protection broker false now
