-- ===== src/Protection/Reconcile.antt =====
-- Reconciling, tightening and cancelling a hard stop, and the gate
-- (src/strategy/autonomy/protection.py).
use hanstock_svc.Base.{
  ℕ, String, Bool, true, false, Option, none, some, [], ◌∷◌, ◌==◌, ltb, not, if◌then◌else◌, pos,
  Float, Rows, get_row, Result, ok, err, protection_error,
}
use hanstock_svc.Base.Actions.{pure, raise, transaction, check_not, ◌>>=◌, ◌>>◌}
use hanstock_svc.Schema.{Db, Position}
use hanstock_svc.Execution.{find_protection}
use hanstock_svc.Risk.{
  Protected, request_position_protection, cancel_position_protection,
  request_position_protection_cancel, list_unprotected_strategy_positions,
}
use hanstock_svc.Protection.Requests.{
  Method, ProtectionAck, ProtectionBroker, ProtectionGateSignal, all_open_quantities_protected,
  build_request, has_order, or_text, protection_state_unavailable, require_position, settle_call,
  submit_requested, unprotected_open_quantity,
}

module _ {F : Type 0} ⦃fl : Float F⦄ where
  abbrev pub require_protection : ℕ → String → Method F (Protected F)
  require_protection pid why db = elim (find_protection pid db) [
    | none ↦ (err (protection_error why), db)
    | some protection ↦ (ok protection, db)
  ]

  -- The broker's answer to a cancellation.
  unfoldable pub settle_cancel :
      ℕ → Result (ProtectionAck F) → String → String → Method F (Protected F)
  settle_cancel gid (err _) reason now = raise (protection_error "hard-stop cancellation failed")
  settle_cancel gid (ok ack) reason now = do
    check_not (not ack.accepted)
        (protection_error (or_text ack.error "broker rejected hard-stop cancellation"))
    transaction (cancel_position_protection gid reason now)

  unfoldable pub cancel_after_flat :
      ℕ → ProtectionBroker F → String → Bool → String → Method F (Protected F)
  unfolding require_position
  cancel_after_flat pid broker reason cancellation_requested now = do
    p ← require_position pid
    check_not (ltb 0 p.remaining_qty)
        (protection_error "hard stop cannot be canceled while position is open")
    protection ← require_protection pid "position protection not found"
    pending ←
        (if cancellation_requested
          then pure protection
          else transaction (request_position_protection_cancel protection.0 reason now))
    settle_cancel pending.0 (broker.cancel_hard_stop (build_request pending)) reason now

  -- The flat position's branch of `reconcile_after_sell_fill`.
  unfoldable pub reconcile_flat :
      ℕ → Option (ProtectionBroker F) → Protected F → String → Method F (Protected F)
  reconcile_flat pid none protection now =
      transaction
        (request_position_protection_cancel protection.0 "position became flat after sell fill" now)
  reconcile_flat pid (some broker) protection now = do
    transaction
        (request_position_protection_cancel protection.0 "position became flat after sell fill" now)
    cancel_after_flat pid broker "position flat after sell fill" true now

  unfoldable pub reconcile_open :
      ℕ → Option (ProtectionBroker F) → Protected F → ℕ → String → Method F (Protected F)
  reconcile_open pid none protection remaining now = transaction (
      request_position_protection pid (pos remaining) protection.1.current_stop_price
        "reduce hard-stop quantity after sell fill" now)
  reconcile_open pid (some broker) protection remaining now = do
    amended ← transaction (
        request_position_protection pid (pos remaining) protection.1.current_stop_price
          "reduce hard-stop quantity after sell fill" now)
    submit_requested amended broker false now

  abbrev pub as_some : Method F (Protected F) → Method F (Option (Protected F))
  as_some m = m >>= λ protection. pure (some protection)

  unfoldable pub reconcile_found :
      ℕ
      → Option (ProtectionBroker F)
      → ℕ
      → Option (Protected F)
      → String
      → Method F (Option (Protected F))
  reconcile_found pid broker remaining none now = pure none
  reconcile_found pid broker remaining (some protection) now =
      if remaining == 0
      then as_some (reconcile_flat pid broker protection now)
      else as_some (reconcile_open pid broker protection remaining now)

  unfoldable pub reconcile_after_sell_fill :
      ℕ → Option (ProtectionBroker F) → String → Method F (Option (Protected F))
  unfolding require_position
  reconcile_after_sell_fill pid broker now = do
    p ← require_position pid
    found ← λ db. (ok (find_protection pid db), db)
    reconcile_found pid broker p.remaining_qty found now

  abbrev pub require_open_position : ℕ → Method F (Position F)
  require_open_position pid db = elim (get_row pid db.positions) [
    | none ↦ (err (protection_error "open strategy position not found"), db)
    | some p ↦
        if p.remaining_qty == 0
        then (err (protection_error "open strategy position not found"), db)
        else (ok p, db)
  ]

  unfoldable pub tighten_stop : ℕ → F → ProtectionBroker F → String → Method F (Protected F)
  tighten_stop pid new_stop broker now = do
    p ← require_open_position pid
    existing ← require_protection pid "active broker protection not found"
    check_not (not (has_order existing.1.broker_order_id))
        (protection_error "active broker protection not found")
    protection ←
        transaction
          (request_position_protection pid (pos p.remaining_qty) new_stop "tighten hard stop" now)
    settle_call protection "hard-stop amendment failed"
        (broker.amend_hard_stop (build_request protection)) now

  -- `global_gate_signal` of what the query returned, or that it raised.
  unfoldable pub gate_of : Result (Rows (Position F)) → ProtectionGateSignal F
  gate_of (err _) = record {
    block_new_risk = true;
    reason = protection_state_unavailable;
    uncovered_positions = [];
  }
  gate_of (ok []) = record {
    block_new_risk = false;
    reason = all_open_quantities_protected;
    uncovered_positions = [];
  }
  gate_of (ok (x ∷ rows)) = record {
    block_new_risk = true;
    reason = unprotected_open_quantity;
    uncovered_positions = x ∷ rows;
  }

  abbrev pub global_gate_signal : Option String → Db F → ProtectionGateSignal F
  global_gate_signal market db = gate_of (list_unprotected_strategy_positions market db)
