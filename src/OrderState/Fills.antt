-- ===== src/OrderState/Fills.antt =====
-- `apply_fill` of src/strategy/autonomy/order_state.py: a broker fill is booked in one transaction,
-- and then the position's hard stop is brought up to it.
use hanstock_svc.Base.{
  ℕ, String, Bool, true, false, ◌||◌, Option, none, some, ◌==◌, not, if◌then◌else◌, coalesce, ℤ,
  Float, get_row, Result, ok, err, order_state_error,
}
use hanstock_svc.Base.Actions.{pure, raise, transaction, check_not, ◌>>=◌, ◌>>◌}
use hanstock_svc.Schema.{
  Db, OrderAction, OrderStatus, Position, ProtectionStatus, same_status, buy, sell, filled,
}
use hanstock_svc.Execution.{FillResult, accepts_fill, apply_managed_fill}
use hanstock_svc.Risk.{Protected}
use hanstock_svc.Protection.{
  Method, ProtectionBroker, request_entry_fill, submit_requested, reconcile_after_sell_fill,
}
use hanstock_svc.OrderState.Transitions.{require_order, finalize_reservation}
use hanstock_svc.OrderState.Broker.{Service}

abbrev pub is_active_stop : ProtectionStatus → Bool
is_active_stop ProtectionStatus.active = true
is_active_stop _ = false

abbrev pub is_canceled_stop : ProtectionStatus → Bool
is_canceled_stop ProtectionStatus.canceled = true
is_canceled_stop _ = false

module _ {F : Type 0} ⦃fl : Float F⦄ where
  -- `_require_full_protection`
  unfoldable pub require_full_protection : Option (Protected F) → ℕ → Bool → Method F (Unit {0})
  require_full_protection none expected_qty flat =
      raise (order_state_error "position protection state is missing")
  require_full_protection (some (_, g)) expected_qty true =
      check_not (not (is_canceled_stop g.status) || not (g.protected_qty == 0))
        (order_state_error "flat position hard stop cancellation is unconfirmed")
  require_full_protection (some (_, g)) expected_qty false =
      check_not (not (is_active_stop g.status) || not (g.protected_qty == expected_qty))
        (order_state_error "position is not protected for its complete open quantity")

  -- `not position or not position.get("current_stop_price")`
  abbrev pub has_stop_price : Option (Position F) → Bool
  has_stop_price none = false
  has_stop_price (some p) = elim p.current_stop_price [
    | none ↦ false
    | some x ↦ not (fl.eq x (fl.of_nat 0))
  ]

  abbrev pub remaining_of : Option (Position F) → ℕ
  remaining_of none = 0
  remaining_of (some p) = p.remaining_qty

  abbrev pub stop_of : Option (Position F) → F
  stop_of none = fl.of_nat 0
  stop_of (some p) = coalesce p.current_stop_price (fl.of_nat 0)

  unfoldable pub protect_buy : ℕ → ℤ → Option (ProtectionBroker F) → String → Method F (Unit {0})
  protect_buy pid fill_qty none now =
      raise (order_state_error "buy fill requires a hard-stop protection broker")
  protect_buy pid fill_qty (some broker) now = do
    position ← λ db. (ok (get_row pid db.positions), db)
    check_not (not (has_stop_price position))
        (order_state_error "filled buy position has no hard stop price")
    requested ← request_entry_fill pid fill_qty (stop_of position) now
    protection ← submit_requested requested broker false now
    require_full_protection (some protection) (remaining_of position) false

  unfoldable pub protect_sell : ℕ → Option (ProtectionBroker F) → String → Method F (Unit {0})
  protect_sell pid none now =
      raise (order_state_error "sell fill protection reconciliation requires a broker")
  protect_sell pid (some broker) now = do
    protection ← reconcile_after_sell_fill pid (some broker) now
    position ← λ db. (ok (get_row pid db.positions), db)
    require_full_protection protection (remaining_of position) (remaining_of position == 0)

  unfoldable pub protect_side :
      OrderAction → ℕ → ℤ → Option (ProtectionBroker F) → String → Method F (Unit {0})
  protect_side buy pid fill_qty broker now = protect_buy pid fill_qty broker now
  protect_side sell pid fill_qty broker now = protect_sell pid broker now
  protect_side (OrderAction.other _) pid fill_qty broker now = pure tt

  -- `except Exception`: the fill stays, and the error is raised anew.
  abbrev pub needs_recovery : Result (Unit {0}) × Db F → Result (Unit {0}) × Db F
  needs_recovery (ok tt, db) = (ok tt, db)
  needs_recovery (err _, db) =
      (err (order_state_error "authoritative fill requires protection recovery"), db)

  unfoldable pub protect_fill :
      OrderAction → ℕ → ℤ → Option (ProtectionBroker F) → String → Method F (Unit {0})
  protect_fill a pid fill_qty broker now db =
      needs_recovery (protect_side a pid fill_qty broker now db)

  unfoldable pub finalize_if_filled : ℕ → OrderStatus → String → Method F (Unit {0})
  finalize_if_filled order_id status now =
      if same_status status filled
      then (do o ← require_order order_id; finalize_reservation o filled "order fully filled" now)
      else pure tt

  unfoldable pub apply_fill : Service F → ℕ → ℤ → F → String → String → String → Method F FillResult
  apply_fill s order_id fill_qty fill_price payload fill_key now = do
    o ← require_order order_id
    check_not (not (accepts_fill o.status)) (order_state_error "fill is not allowed")
    result ← transaction (apply_managed_fill order_id fill_qty fill_price payload fill_key now)
    protect_fill o.action result.position_id fill_qty s.protection_broker now
    finalize_if_filled order_id result.order_status now
    pure result
