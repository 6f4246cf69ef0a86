-- ===== src/Ledger/Snapshots.antt =====
-- `reconcile_snapshot`: a broker's cumulative report, applied to an order
-- (src/application/orders/repository.py).
use hanstock_svc.Base.{
  ℕ, String, Bool, false, ◌&&◌, ◌||◌, ◌+◌, ◌-◌, ◌==◌, Option, none, some, List, [], ◌∷◌, ℤ, pos,
  negsuc, not, str_eq, leb, ltb, if◌then◌else◌, Float, get_row, set_row, Result, ok, value_error,
  key_error, integrity_error,
}
use hanstock_svc.Base.Results.{guard, require, raise_if, ◌>>=◌, ◌>>◌}
use hanstock_svc.Ledger.Records.{
  PyText, UnifiedOrderStatus, same_unified, open_, partial, filled, canceled, LedgerOrder,
  LedgerFill, fill_delta, LedgerDb,
}
use hanstock_svc.Ledger.Moves.{
  or_old, or_old_id, text_of, identity_is_free, status_event, add_event,
}
use hanstock_svc.Ledger.Words.{parse_status}
use hanstock_svc.Ledger.Statuses.{allows, is_completed}
use hanstock_svc.Ledger.Costs.{Raw, broker_cost, fee_keys, tax_keys}
use hanstock_svc.Ledger.Projection.{Scope, cost_total, project_position}
use Prim.Native.String.{◌++◌ as str_append}

-- The status as the quantities correct it.
abbrev pub settled_status : ℕ → ℕ → UnifiedOrderStatus → UnifiedOrderStatus
settled_status incoming requested status =
    if (incoming == requested) && ltb 0 requested
    then filled
    else if (incoming == 0) && same_unified status partial
    then open_
    else if ltb 0 incoming && not (same_unified status canceled || same_unified status filled)
    then partial
    else status

abbrev pub not_negative : ℤ → Option ℕ
not_negative (pos n) = some n
not_negative (negsuc n) = none

module _ {F : Type 0} ⦃fl : Float F⦄ where
  -- The report may only add to the filled quantity, up to the requested one.
  abbrev pub check_quantity : LedgerOrder F → ℤ → Result ℕ
  check_quantity o qty = do
    n ← require (not_negative qty) (value_error "invalid cumulative fill quantity")
    guard (leb o.filled_qty n && leb n o.requested_qty)
        (value_error "invalid cumulative fill quantity")
    ok n

  -- Whether the order may get the status.
  abbrev pub check_settled : LedgerOrder F → ℕ → UnifiedOrderStatus → Result UnifiedOrderStatus
  check_settled o n status = do
    raise_if (is_completed o.status && (n == o.filled_qty) && not (same_unified status o.status))
        (value_error "broker snapshot cannot regress terminal order")
    raise_if (not (same_unified o.status status) && not (allows o.status status))
        (value_error "invalid broker order transition")
    ok status

  -- The status that the report gives the order, if it may.
  abbrev pub check_status : LedgerOrder F → ℕ → UnifiedOrderStatus → Result UnifiedOrderStatus
  check_status o n reported = check_settled o n (settled_status n o.requested_qty reported)

  -- `max(0.0, x)`
  abbrev pub not_below_zero : F → F
  not_below_zero x = if fl.lt (fl.of_nat 0) x then x else fl.of_nat 0

  -- What a cumulative cost adds to the costs that are booked.
  abbrev pub cost_delta : Option F → F → Option F
  cost_delta none before = none
  cost_delta (some total) before = some (not_below_zero (fl.sub total before))

  abbrev pub source_of : Option F → Option F → String
  source_of none none = "unavailable"
  source_of _ _ = "broker"

  -- The price of the delta alone.
  abbrev pub delta_price : LedgerOrder F → ℕ → F → F
  delta_price o n average =
      let cumulative = fl.mul (fl.of_nat n) average in
      let previous = fl.mul (fl.of_nat o.filled_qty) o.average_fill_price in
      not_below_zero (fl.div (fl.sub cumulative previous) (fl.of_nat (n - o.filled_qty)))

  unfoldable pub has_fill : String → List (LedgerFill F) → Bool
  has_fill key [] = false
  has_fill key (f ∷ fs) = str_eq f.fill_key key || has_fill key fs

  -- ON CONFLICT(fill_key) DO NOTHING
  abbrev pub insert_fill : LedgerFill F → LedgerDb F → LedgerDb F
  insert_fill f db = if has_fill f.fill_key db.fills then db else record db { fills = f ∷ db.fills }

  abbrev pub scope_of : LedgerOrder F → Scope
  scope_of o = record { account_key = o.account_key; market = o.market; symbol = o.symbol }

  abbrev pub synced_order :
      UnifiedOrderStatus → ℕ → F → String → String → String → LedgerOrder F → LedgerOrder F
  synced_order status n average number date now o = record o {
    status = status;
    filled_qty = n;
    average_fill_price = average;
    broker_order_id = or_old_id number o.broker_order_id;
    last_synced_at = some now;
    broker_order_date = or_old date o.broker_order_date;
    completed_at = if is_completed status then some now else o.completed_at;
    version = o.version + 1;
    updated_at = now;
  }

  -- The event, where something changed.
  abbrev pub log_snapshot :
      ℕ → LedgerOrder F → UnifiedOrderStatus → ℕ → String → LedgerDb F → LedgerDb F
  log_snapshot oid o status n now db =
      if not (same_unified o.status status) || not (n == o.filled_qty)
      then add_event
          (status_event oid "broker_snapshot" o.status status "reconciliation"
            "broker order history synchronized" (fill_delta (n - o.filled_qty) n) now)
          db
      else db

  module _ ⦃tx : PyText⦄ where
    abbrev pub identity_of : ℕ → LedgerOrder F → String → String
    identity_of oid o number = or_old number (or_old (text_of o.broker_order_id) (tx.of_int oid))

    -- `snapshot:{account}:{market}:{date}:{identity}:{incoming}`
    abbrev pub key_of : ℕ → LedgerOrder F → ℕ → String → String → String
    key_of oid o n number date = str_append "snapshot:" (
        str_append o.account_key (
          str_append ":" (
            str_append o.market (
              str_append ":" (
                str_append (or_old date o.broker_order_date) (
                  str_append ":"
                    (str_append (identity_of oid o number) (str_append ":" (tx.of_float n)))))))))

    abbrev pub snapshot_fill :
        ℕ
        → LedgerOrder F
        → ℕ
        → F
        → String
        → String
        → Raw F
        → String
        → List (LedgerFill F)
        → LedgerFill F
    snapshot_fill oid o n average number date raw now fills =
        let fee = broker_cost fee_keys raw in
        let tax = broker_cost tax_keys raw in
        record {
          fill_key = key_of oid o n number date;
          order_id = oid;
          quantity = n - o.filled_qty;
          price = delta_price o n average;
          fee = cost_delta fee (cost_total (λ f. f.fee) oid fills);
          tax = cost_delta tax (cost_total (λ f. f.tax) oid fills);
          cost_source = source_of fee tax;
          filled_at = now;
        }

    -- `if delta:`: the fill and the position.
    abbrev pub book_delta :
        ℕ → LedgerOrder F → ℕ → F → String → String → Raw F → String → LedgerDb F → LedgerDb F
    book_delta oid o n average number date raw now db =
        if n == o.filled_qty
        then db
        else project_position (scope_of o) now
            (insert_fill (snapshot_fill oid o n average number date raw now db.fills) db)

    -- The UPDATE of the row, and the event.
    abbrev pub write_snapshot :
        ℕ
        → LedgerOrder F
        → UnifiedOrderStatus
        → ℕ
        → F
        → String
        → String
        → String
        → LedgerDb F
        → Result (LedgerOrder F × LedgerDb F)
    write_snapshot oid o status n average number date now db = do
      let o' = synced_order status n average number date now o
      guard (identity_is_free oid o' db.orders.rows)
          (integrity_error "UNIQUE constraint failed: orders")
      ok (
        o',
        log_snapshot oid o status n now (record db { orders = set_row oid (λ p. o') db.orders }),
      )

    -- `reconcile_snapshot`, and the row that it reads back.
    unfoldable pub reconcile_snapshot :
        ℕ
        → String
        → ℤ
        → F
        → String
        → String
        → Raw F
        → String
        → LedgerDb F
        → Result (LedgerOrder F × LedgerDb F)
    reconcile_snapshot oid word qty average number date raw now db = do
      reported ←
          require (parse_status (tx.lower word)) (value_error "unsupported broker order status")
      o ← require (get_row oid db.orders) (key_error "order not found")
      n ← check_quantity o qty
      status ← check_status o n reported
      write_snapshot oid o status n average number date now
          (book_delta oid o n average number date raw now db)
