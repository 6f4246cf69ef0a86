-- ===== src/Tests/Samples.antt =====
-- Sample rows, with whole won for `float`.
use Prim.Native.Nat.{◌/◌}
use hanstock_svc.Base.{
  ℕ, ◌+◌, ◌-◌, ◌*◌, true, none, some, [], ◌∷◌, ◌==◌, ltb, leb, pos, Float, Result, ok, err,
}
use hanstock_svc.Schema.{Order, OrderAction, OrderStatus, Position, Db, buy, pending_entry, long}

instance abbrev pub whole_won : Float ℕ
whole_won = record {
  of_nat = λ n. n;
  add = λ a b. a + b;
  sub = λ a b. a - b;
  mul = λ a b. a * b;
  div = λ a b. a / b;
  lt = ltb;
  le = leb;
  eq = ◌==◌;
  neg = λ a. 0;
  int_div = λ a b. pos (a / b);
  is_finite = λ a. true;
  is_integer = λ a. true;
  floor = pos;
  round = λ a. a;
}

-- An order of ten shares at 70,000 won for position 1.
abbrev pub order_of : OrderAction → OrderStatus → Order ℕ
order_of action status = record {
  client_order_key = "k1";
  decision_id = 7;
  position_id = some 1;
  market = "KR";
  symbol = "005930";
  strategy_id = "ai";
  action = action;
  order_type = "limit";
  requested_qty = 10;
  requested_price = some 70000;
  filled_qty = 0;
  average_fill_price = 0;
  status = status;
  broker_order_id = none;
  approval_id = some 3;
  expires_at = none;
  last_error = none;
  submitted_at = none;
  completed_at = none;
  created_at = "t0";
  updated_at = "t0";
}

abbrev pub empty_position : Position ℕ
empty_position = record {
  market = "KR";
  account_id = "acc";
  symbol = "005930";
  strategy_id = "ai";
  status = pending_entry;
  side = long;
  opened_at = none;
  closed_at = none;
  entry_price = none;
  average_price = none;
  filled_qty = 0;
  remaining_qty = 0;
  current_stop_price = some 65000;
  realized_pnl = 0;
  updated_at = "t0";
}

-- One order in the given status, for one empty position.
abbrev pub db_with : OrderStatus → Db ℕ
db_with status = record {
  orders = record { next_id = 2; rows = (1, order_of buy status) ∷ [] };
  order_events = [];
  fills = [];
  positions = record { next_id = 2; rows = (1, empty_position) ∷ [] };
  protections = record { next_id = 1; rows = [] };
  protection_events = [];
  reservations = record { next_id = 1; rows = [] };
}

abbrev pub answer_of : {A S : Type 0} → A → Result (A × S) → A
answer_of d (ok (a, _)) = a
answer_of d (err _) = d

abbrev pub state_of : {A S : Type 0} → S → Result (A × S) → S
state_of d (ok (_, s)) = s
state_of d (err _) = d
