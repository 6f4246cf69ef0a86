-- ===== src/Tests/Services.antt =====
-- The order service on sample rows.
use hanstock_svc.Base.{
  ℕ, ◌≡◌, ◌≢◌, refl, true, false, none, some, List, [], ◌∷◌, pos, arith, find_row, update_row,
  append_row, find_where, Error, Result, ok, err, get_row,
}
use hanstock_svc.Schema.{
  Db, Order, OrderAction, OrderStatus-discrete, Protection, buy, approved, approval_queued,
  submitting, submitted, canceled, open_long,
}
use hanstock_svc.Execution.{
  transition_managed_order, apply_managed_fill, prior_fill, find_fill, new_fill, book_side,
  book_buy, protect_bought, record_fill, weighted, transitioned, find_protection,
}
use hanstock_svc.Risk.{
  check_market, list_unprotected_strategy_positions, unprotected_rows, is_unprotected, is_covered,
  has_stop,
}
use hanstock_svc.Protection.{gate_of}
use hanstock_svc.Protection.{
  ProtectionBroker, request_entry_fill, require_position, submit_requested, settle_call, accept_ack,
}
use hanstock_svc.Risk.{request_position_protection, request_row, activate_position_protection}
use hanstock_svc.OrderState.{
  protect_fill, protect_side, protect_buy, require_full_protection, finalize_if_filled,
}
use hanstock_svc.OrderState.Covered.{Covered, apply_fill-Covered}
use hanstock_svc.Execution.{FillResult}
use hanstock_svc.Base.{order_state_error}
use hanstock_svc.Protection.Gate.{gate_open-covered}
use hanstock_svc.OrderState.{
  Clock, Service, BrokerGateway, Authorization, submit, apply_fill, transition, parse_time, allowed,
  require_order, finalize_reservation, settle_transition,
}
use hanstock_svc.OrderState.Runs.{
  Call, call_reject, call_cancel, call_approve, call_submit, call_apply_fill, run_calls,
}
use hanstock_svc.OrderState.{unreadable}
use hanstock_svc.OrderState.Final.{run_calls-terminal}
use hanstock_svc.OrderState.Once.{submit_once}
use hanstock_svc.OrderState.Outcomes.{IsMoved}
use hanstock_svc.OrderState.Settling.{Moved, transition-Moved, transition-stale}
use hanstock_svc.OrderState.Effects.{transition-row}
use hanstock_svc.OrderState.Authoritative.{
  SameFills, apply_fill-authoritative, apply_fill-unsettled,
}
use hanstock_svc.Tests.Samples.{whole_won, order_of, db_with, answer_of, state_of, empty_position}
use hanstock_svc.Tests.Ledgers.{no_answer, four}
use hanstock_svc.Tests.Budgets.{protected}

abbrev clock : Clock
clock = record { text = "t5"; instant = 5; parse = λ t. unreadable }

-- A service without a stop broker.
abbrev bare : Service ℕ
bare = record { execution_secret = 77; protection_broker = none }

abbrev accepting : BrokerGateway ℕ
accepting = record {
  submit_order = λ o. ok record {
    accepted = true;
    broker_order_id = some "b9";
    payload = "{}";
    reason = "";
    outcome_unknown = false;
  };
  cancel_order =
      λ o. ok record { accepted = true; payload = "{}"; reason = ""; outcome_unknown = false };
}

abbrev authorization : Authorization
authorization = record { order_id = 1; approval_id = 3; secret = 77 }

-- Tried on a canceled order: to reject it, cancel it, submit it and fill it.
abbrev calls : List (Clock × Call ℕ)
calls =
    (clock, call_reject 1 canceled "no")
    ∷ (clock, call_cancel 1 submitted (some accepting))
    ∷ (clock, call_submit 1 accepting (some authorization))
    ∷ (clock, call_apply_fill 1 (pos 4) 70000 "{}" "f1")
    ∷ []

run_calls-terminal_example :
    get_row 1 (run_calls bare (db_with canceled) calls).orders ≡ some (order_of buy canceled)
unfolding find_row
run_calls-terminal_example =
    run_calls-terminal bare (db_with canceled) calls 1 (order_of buy canceled) refl refl

-- One approved sale.
abbrev sale : Db ℕ
sale = record (db_with approved) {
  orders = record { next_id = 2; rows = (1, order_of OrderAction.sell approved) ∷ [] };
}

-- What is tried after the sale was submitted: to cancel it and to have it approved again.
abbrev retries : List (Clock × Call ℕ)
retries =
    (clock, call_cancel 1 submitted (some accepting))
    ∷ (clock, call_approve 1 3 approval_queued)
    ∷ []

abbrev after_retries : Db ℕ
after_retries = run_calls bare (submit bare 1 accepting (some authorization) clock sale).1 retries

submit_once_example :
    (why : Error) × (submit bare 1 accepting (some authorization) clock after_retries
      ≡ (err why, after_retries))
unfolding find_row parse_time
submit_once_example =
    submit_once bare 1 (order_of OrderAction.sell approved) accepting (some authorization) clock
      none sale refl refl refl refl refl retries bare accepting (some authorization) clock

apply_fill-authoritative_example :
    SameFills
      (state_of (db_with submitted) four)
      (apply_fill bare 1 (pos 4) 70000 "{}" "f1" "t1" (db_with submitted)).1
unfolding apply_managed_fill prior_fill find_fill new_fill book_side book_buy protect_bought
    record_fill weighted find_row update_row append_row find_where
apply_fill-authoritative_example =
    apply_fill-authoritative bare 1 (pos 4) 70000 "{}" "f1" "t1" (db_with submitted)
      (state_of (db_with submitted) four) (order_of buy submitted) (answer_of no_answer four) refl
      refl refl

-- Position 1 open for the four shares that its stop protects.
abbrev held : Db ℕ
held = record protected {
  positions = record {
    next_id = 2;
    rows =
        (1, record empty_position { status = open_long; filled_qty = 4; remaining_qty = 4 }) ∷ [];
  };
}

gate_open-covered_example :
    (gid : ℕ) × (g : Protection ℕ) × (find_protection 1 held ≡ some (gid, g))
    × (has_stop g.status ≡ true)
    × (g.protected_qty ≡ 4)
unfolding gate_of check_market list_unprotected_strategy_positions unprotected_rows is_unprotected
    is_covered find_row find_where
gate_open-covered_example =
    gate_open-covered none held 1
      record empty_position { status = open_long; filled_qty = 4; remaining_qty = 4 } refl refl refl
      (omega arith)

-- The claim of the sale's submission.
abbrev claim : Db ℕ → Result (Order ℕ) × Db ℕ
claim db = transition 1 approved submitting "claimed" "{}" none none "t5" db

abbrev claimed_row : Order ℕ
claimed_row = transitioned submitting none none "t5" (order_of OrderAction.sell approved)

abbrev claimed : Db ℕ
claimed = (transition_managed_order 1 approved submitting "claimed" "{}" none none "t5" sale).1

transition-Moved_example :
    Moved 1 approved submitting "claimed" "{}" none none "t5" sale claimed_row claimed
unfolding transition settle_transition finalize_reservation require_order transition_managed_order
    allowed find_row update_row OrderStatus-discrete
transition-Moved_example =
    transition-Moved 1 approved submitting "claimed" "{}" none none "t5" sale claimed_row claimed
      refl

-- The second claim of the same order.
transition-stale_example : (why : Error) × (claim claimed ≡ (err why, claimed))
unfolding transition_managed_order find_row update_row OrderStatus-discrete
transition-stale_example =
    transition-stale 1 approved submitting "claimed" "{}" none none "t5" claimed
      (λ o h s. ground arith)

transition-row_example :
    ((o : Order ℕ) × (get_row 1 (claim sale).1.orders ≡ some o)
      × IsMoved submitting none none "t5" (order_of OrderAction.sell approved) o)
    × ((j : ℕ) → j ≢ 1 → get_row j (claim sale).1.orders ≡ get_row j sale.orders)
unfolding find_row allowed
transition-row_example =
    transition-row 1 approved submitting "claimed" "{}" none none "t5" sale
      (order_of OrderAction.sell approved) refl refl refl

-- A stop broker that takes every request as it stands, and a service that has it.
abbrev stop_broker : ProtectionBroker ℕ
stop_broker = record {
  supports_hard_stops = true;
  submit_hard_stop = λ r. ok record {
    accepted = true;
    broker_order_id = "s1";
    protected_qty = pos r.quantity;
    stop_price = r.stop_price;
    payload = "{}";
    error = "";
  };
  amend_hard_stop = λ r. ok record {
    accepted = true;
    broker_order_id = "s1";
    protected_qty = pos r.quantity;
    stop_price = r.stop_price;
    payload = "{}";
    error = "";
  };
  cancel_hard_stop = λ r. ok record {
    accepted = true;
    broker_order_id = "s1";
    protected_qty = pos 0;
    stop_price = r.stop_price;
    payload = "{}";
    error = "";
  };
  fetch_hard_stop = λ r. err (order_state_error "not asked");
  fetch_position_qty = λ account symbol. ok 4;
}

abbrev guarded : Service ℕ
guarded = record { execution_secret = 77; protection_broker = some stop_broker }

abbrev bought_four : Result FillResult × Db ℕ
bought_four = apply_fill guarded 1 (pos 4) 70000 "{}" "f1" "t1" (db_with submitted)

apply_fill-Covered_example : Covered 1 bought_four.1
unfolding apply_managed_fill prior_fill find_fill new_fill book_side book_buy protect_bought
    record_fill weighted find_row update_row append_row find_where apply_fill require_order
    protect_fill protect_side protect_buy request_entry_fill require_position submit_requested
    settle_call accept_ack request_position_protection request_row activate_position_protection
    require_full_protection finalize_if_filled OrderStatus-discrete
apply_fill-Covered_example =
    apply_fill-Covered guarded 1 (pos 4) 70000 "{}" "f1" "t1" (db_with submitted)
      (state_of (db_with submitted) four) bought_four.1 (order_of buy submitted)
      (answer_of no_answer four) (answer_of no_answer four) refl refl refl refl
      ((refl, tt), (omega arith, tt)) refl

-- The last fill of ten shares, with a service that has no stop broker.
abbrev ten : Result (FillResult × Db ℕ)
ten = apply_managed_fill 1 (pos 10) 70000 "{}" "f1" "t1" (db_with submitted)

apply_fill-unsettled_example :
    ((apply_fill bare 1 (pos 10) 70000 "{}" "f1" "t1" (db_with submitted)).0
      ≡ err (order_state_error "authoritative fill requires protection recovery"))
    × ((apply_fill bare 1 (pos 10) 70000 "{}" "f1" "t1" (db_with submitted)).1.orders
        ≡ (state_of (db_with submitted) ten).orders)
    × ((apply_fill bare 1 (pos 10) 70000 "{}" "f1" "t1" (db_with submitted)).1.reservations
        ≡ (state_of (db_with submitted) ten).reservations)
unfolding apply_managed_fill prior_fill find_fill new_fill book_side book_buy protect_bought
    record_fill weighted find_row update_row append_row find_where protect_fill protect_side
    protect_buy OrderStatus-discrete
apply_fill-unsettled_example =
    apply_fill-unsettled bare 1 (pos 10) 70000 "{}" "f1" "t1" (db_with submitted)
      (state_of (db_with submitted) ten) (order_of buy submitted) (answer_of no_answer ten)
      (order_state_error "authoritative fill requires protection recovery") refl refl refl refl
