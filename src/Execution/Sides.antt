-- ===== src/Execution/Sides.antt =====
-- The two sides of `apply_managed_fill` (src/db/ai_execution_repository.py): what a buy and a sell
-- write to the strategy position and to its hard-stop protection.
use hanstock_svc.Base.{
  ℕ, ◌+◌, ◌-◌, String, Option, none, some, ◌∷◌, ◌==◌, ltb, if◌then◌else◌, coalesce, or_keep, Float,
  set_row, insert_row, find_where, Result, ok, err, value_error,
}
use hanstock_svc.Base.Results.{raise_if, ◌>>=◌, ◌>>◌}
use hanstock_svc.Schema.{
  OrderAction, Db, Position, Protection, ProtectionEvent, ProtectionStatus, ProtectionEventType,
  buy, sell, open_long, closed,
}

-- What a side of a fill leaves: the database, and the position's new open quantity.
abbrev pub Booked : Type 0 → Type 0
Booked F = Db F × ℕ

module _ {F : Type 0} ⦃fl : Float F⦄ where
  -- The UNIQUE position_id of ai_position_protections.
  abbrev pub find_protection : ℕ → Db F → Option (ℕ × Protection F)
  find_protection position_id db =
      find_where (λ g. g.position_id == position_id) db.protections.rows

  -- A volume-weighted average: (average * old + price * qty) / (old + qty).
  unfoldable pub weighted : F → ℕ → F → ℕ → F
  weighted average old price qty =
      fl.div (fl.add (fl.mul average (fl.of_nat old)) (fl.mul price (fl.of_nat qty)))
        (fl.of_nat (old + qty))

  -- `amend_pending` where the broker still holds some stop, `pending` where it holds none.
  abbrev pub requested_status : Protection F → ProtectionStatus
  requested_status g =
      if ltb 0 g.protected_qty then ProtectionStatus.amend_pending else ProtectionStatus.pending

  abbrev pub bought : ℕ → F → F → String → Position F → Position F
  bought qty price average now p = record p {
    filled_qty = p.filled_qty + qty;
    remaining_qty = p.remaining_qty + qty;
    average_price = some average;
    entry_price = or_keep p.entry_price (some price);
    opened_at = or_keep p.opened_at (some now);
    status = open_long;
    updated_at = now;
  }

  -- The protection row of a position that a fill opened.
  abbrev pub new_protection : ℕ → Position F → ℕ → F → String → Protection F
  new_protection position_id p qty stop now = record {
    position_id = position_id;
    market = p.market;
    account_id = p.account_id;
    symbol = p.symbol;
    strategy_id = p.strategy_id;
    required_qty = qty;
    protected_qty = 0;
    initial_stop_price = stop;
    current_stop_price = stop;
    status = ProtectionStatus.pending;
    broker_order_id = none;
    last_error = none;
    created_at = now;
    updated_at = now;
    activated_at = none;
    completed_at = none;
  }

  -- The UPDATE that asks for `qty` shares to be covered at `stop`.
  abbrev pub re_requested : ℕ → F → String → Protection F → Protection F
  re_requested qty stop now g = record g {
    required_qty = qty;
    current_stop_price = stop;
    status = requested_status g;
    last_error = none;
    updated_at = now;
  }

  abbrev pub entry_event :
      ℕ → Option ProtectionStatus → ProtectionStatus → ℕ → ℕ → F → String → ProtectionEvent F
  entry_event protection_id from to required protected stop now = record {
    protection_id = protection_id;
    ts = now;
    event_type = ProtectionEventType.fill_protection_required;
    from_status = from;
    to_status = to;
    required_qty = required;
    protected_qty = protected;
    stop_price = stop;
    broker_order_id = none;
    payload = none;
    reason = "atomic entry fill";
  }

  -- The protection rows after a buy fill that leaves `qty` shares open.
  unfoldable pub protect_bought :
      ℕ → Position F → ℕ → F → String → Db F → Option (ℕ × Protection F) → Result (Db F)
  protect_bought position_id p qty stop now db (some (gid, g)) = do
    raise_if (fl.lt stop g.current_stop_price)
        (value_error "hard stop cannot move in loss-expanding direction")
    ok (record db {
      protections = set_row gid (re_requested qty stop now) db.protections;
      protection_events =
          entry_event gid (some g.status) (requested_status g) qty g.protected_qty stop now
          ∷ db.protection_events;
    })
  protect_bought position_id p qty stop now db none = ok (record db {
    protections = insert_row (new_protection position_id p qty stop now) db.protections;
    protection_events =
        entry_event db.protections.next_id none ProtectionStatus.pending qty 0 stop now
        ∷ db.protection_events;
  })

  unfoldable pub book_buy : ℕ → Position F → ℕ → F → String → Db F → Result (Booked F)
  book_buy position_id p qty price now db = do
    let average = weighted (coalesce p.average_price (fl.of_nat 0)) p.remaining_qty price qty
    let db1 = record db {
      positions = set_row position_id (bought qty price average now) db.positions;
    }
    let stop = coalesce p.current_stop_price (fl.of_nat 0)
    raise_if (fl.le stop (fl.of_nat 0)) (value_error "filled buy position has no hard stop price")
    db2 ←
        protect_bought position_id p (p.remaining_qty + qty) stop now db1
          (find_protection position_id db1)
    ok (db2, p.remaining_qty + qty)

  abbrev pub sold : ℕ → F → String → Position F → Position F
  sold qty pnl now p = record p {
    remaining_qty = p.remaining_qty - qty;
    realized_pnl = fl.add p.realized_pnl pnl;
    status = if (p.remaining_qty - qty) == 0 then closed else open_long;
    closed_at = if (p.remaining_qty - qty) == 0 then some now else p.closed_at;
    updated_at = now;
  }

  -- `cancel_pending` on a flat position, `amend_pending` on a smaller one.
  abbrev pub reduced : ℕ → String → Protection F → Protection F
  reduced qty now g = record g {
    required_qty = if ltb 0 qty then qty else g.required_qty;
    status = if qty == 0 then ProtectionStatus.cancel_pending else ProtectionStatus.amend_pending;
    updated_at = now;
  }

  unfoldable pub reduce_protection : ℕ → String → Db F → Option (ℕ × Protection F) → Db F
  reduce_protection qty now db none = db
  reduce_protection qty now db (some (gid, g)) = record db {
    protections = set_row gid (reduced qty now) db.protections;
    protection_events =
        record {
          protection_id = gid;
          ts = now;
          event_type = ProtectionEventType.fill_protection_reconcile_required;
          from_status = some g.status;
          to_status =
              if qty == 0 then ProtectionStatus.cancel_pending else ProtectionStatus.amend_pending;
          required_qty = qty;
          protected_qty = g.protected_qty;
          stop_price = g.current_stop_price;
          broker_order_id = g.broker_order_id;
          payload = none;
          reason = "atomic sell fill";
        }
        ∷ db.protection_events;
  }

  unfoldable pub book_sell : ℕ → Position F → ℕ → F → String → Db F → Result (Booked F)
  book_sell position_id p qty price now db = do
    raise_if (ltb p.remaining_qty qty) (value_error "sell fill exceeds strategy-owned quantity")
    let pnl = fl.mul (fl.sub price (coalesce p.average_price (fl.of_nat 0))) (fl.of_nat qty)
    let db1 = record db { positions = set_row position_id (sold qty pnl now) db.positions }
    ok (
      reduce_protection (p.remaining_qty - qty) now db1 (find_protection position_id db1),
      p.remaining_qty - qty,
    )

  unfoldable pub book_side :
      OrderAction → ℕ → Position F → ℕ → F → String → Db F → Result (Booked F)
  book_side buy position_id p qty price now db = book_buy position_id p qty price now db
  book_side sell position_id p qty price now db = book_sell position_id p qty price now db
  book_side (OrderAction.other _) position_id p qty price now db =
      err (value_error "managed fill action must be buy or sell")
