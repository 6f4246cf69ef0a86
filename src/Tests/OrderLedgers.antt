-- ===== src/Tests/OrderLedgers.antt =====
-- The unified order ledger on a sample order.
use hanstock_svc.Base.{
  ℕ, String, ◌≡◌, refl, map, false, none, some, List, [], ◌∷◌, ◌==◌, ◌+ℤ◌, pos, if◌then◌else◌,
  arith, find_row, update_row, append_row, find_where, get_row, set_row, Result, ok, err,
  runtime_error,
}
use hanstock_svc.Ledger.{
  PyText, UnifiedOrderStatus, UnifiedOrderStatus-discrete, submitted, filled, canceled, approved,
  submitting, buy_side, LedgerOrder, LedgerEvent, LedgerDb, OrderIntent, allows, status_text,
  identity_taken, has_created, check_intent, insert_or_load, create_order, transition_order,
  bind_broker_result, record_event, Raw, leaf, node, nil, field, find_field, own_cost, broker_cost,
  nested_cost, adjusted_qty, filled_total, cash_total, cost_total, find_position, upsert_position,
  find_status, any_status, keep_statuses, has_fill, reconcile_snapshot, align_issues, latest_issues,
  apply_latest_issues, new_order, created_event,
}
use hanstock_svc.Ledger.Runs.{
  LedgerCall, call_transition, call_bind, call_record, call_reconcile, call_align, run_ledger,
  run_ledger_call,
}
use hanstock_svc.Ledger.Final.{
  Grows, is_unsent, run_ledger-ended, run_ledger-Grows, run_ledger-sent,
}
use hanstock_svc.Ledger.Audit.{logged_status}
use hanstock_svc.Ledger.AuditRuns.{IsLogged, run_ledger-IsLogged}
use hanstock_svc.Ledger.Totals.{FillsKnown}
use hanstock_svc.Ledger.Positions.{IsProjected}
use hanstock_svc.Ledger.PositionRuns.{run_ledger-IsProjected}
use hanstock_svc.Ledger.Replays.{create_order-replay, transition_order-once}
use hanstock_svc.Ledger.Repeats.{again_order, reconcile_snapshot-replay}
use hanstock_svc.Ledger.Filled.{IsBooked, filled_of, reconcile_snapshot-IsBooked}
use hanstock_svc.Base.{ℤ, ◌-ℤ◌}
use hanstock_svc.Ledger.{
  Issue, open_issue, Aligned, latest_issues, has_open, align_issues, align_issue, has_adjustment,
  review_issues, find_position, upsert_position, apply_latest_issues,
}
use hanstock_svc.Ledger.Closing.{apply_latest_issues-closed}
use hanstock_svc.Tests.Samples.{whole_won, answer_of, state_of}

-- Texts of small numbers, and of words that need no change.
instance abbrev small_texts : PyText
small_texts = record {
  of_int = λ n. if n == 1 then "1" else "2";
  of_float = λ n. if n == 4 then "4.0" else "10.0";
  lower = λ t. t;
  upper = λ t. t;
  strip = λ t. t;
}

abbrev sample_intent : OrderIntent ℕ
sample_intent = record {
  client_order_key = "k1";
  correlation_id = "c1";
  symbol = "005930";
  side = some buy_side;
  quantity = pos 10;
  price = 70000;
  name = "";
  account_key = "acc";
  market = "KR";
  order_type = "limit";
  time_in_force = "DAY";
  strategy_id = none;
  strategy_version = none;
  signal_id = none;
  decision_id = none;
  approval_id = none;
  broker_order_id = none;
  broker_order_date = none;
  expires_at = none;
  metadata = "{}";
}

abbrev pub empty_ledger : LedgerDb ℕ
empty_ledger = record {
  orders = record { next_id = 1; rows = [] };
  events = [];
  fills = [];
  positions = [];
  adjustments = [];
  issues = record { next_id = 1; rows = [] };
}

abbrev created_ledger : Result ((ℕ × LedgerOrder ℕ) × LedgerDb ℕ)
created_ledger = create_order sample_intent approved "t0" empty_ledger

abbrev pub sample_order : UnifiedOrderStatus → LedgerOrder ℕ
sample_order status = new_order sample_intent buy_side status "t0"

abbrev pub sample_event : UnifiedOrderStatus → LedgerEvent
sample_event status = created_event 1 status "t0"

abbrev sample_ledger : UnifiedOrderStatus → LedgerDb ℕ
sample_ledger status = record empty_ledger {
  orders = record { next_id = 2; rows = (1, sample_order status) ∷ [] };
  events = sample_event status ∷ [];
}

create_runs : created_ledger ≡ ok ((1, sample_order approved), sample_ledger approved)
unfolding create_order check_intent insert_or_load identity_taken append_row find_where has_created
create_runs = refl

-- An answer with a fee in a nested dictionary.
abbrev sample_raw : Raw ℕ
sample_raw = node (field "output" (node (field "fee" (leaf (some 15)) nil)) nil)

-- Sent, bound, filled in two reports, and a report that is refused.
abbrev sample_calls : List (String × LedgerCall ℕ)
sample_calls =
    ("t1", call_transition 1 approved submitting "system" "" "{}")
    ∷ ("t2", call_bind 1 "B1" "2026-01-02" "")
    ∷ ("t3", call_transition 1 submitting submitted "system" "" "{}")
    ∷ ("t4", call_reconcile 1 "partially_filled" (pos 4) 70000 "B1" "" sample_raw)
    ∷ ("t5", call_record 1 "broker_ack" "system" "" "{}")
    ∷ ("t6", call_reconcile 1 "working" (pos 10) 71000 "B1" "" (leaf none))
    ∷ ("t7", call_reconcile 1 "canceled" (pos 3) 0 "" "" (leaf none))
    ∷ ("t8", call_align "operator" none none)
    ∷ []

abbrev end_ledger : LedgerDb ℕ
end_ledger = run_ledger (sample_ledger approved) sample_calls

-- The order is filled, its position holds ten shares, and the first fill has its fee.
end_runs :
    (logged_status 1 end_ledger.events ≡ some filled)
    × (filled_of 1 end_ledger.fills ≡ 10)
    × (map (λ p. p.quantity) end_ledger.positions ≡ pos 10 ∷ [])
    × (map (λ f. f.fee) end_ledger.fills ≡ none ∷ some 15 ∷ [])
unfolding run_ledger run_ledger_call transition_order bind_broker_result record_event
    reconcile_snapshot apply_latest_issues latest_issues align_issues identity_taken allows
    status_text find_status any_status keep_statuses find_field own_cost broker_cost nested_cost
    adjusted_qty filled_total cash_total cost_total find_position upsert_position has_fill
    logged_status filled_of find_row update_row ◌+ℤ◌ UnifiedOrderStatus-discrete
end_runs = (refl, refl, refl, refl)

sample-IsLogged : IsLogged (sample_ledger approved)
unfolding find_row logged_status has_created
sample-IsLogged = record {
  ids = ((refl, tt), (omega arith, tt));
  below = (omega arith, tt);
  audited = λ oid o e. ground arith;
}

run_ledger-IsLogged_example : IsLogged end_ledger
run_ledger-IsLogged_example =
    run_ledger-IsLogged (sample_ledger approved) sample_calls sample-IsLogged

sample-IsProjected : IsProjected (sample_ledger approved)
unfolding FillsKnown filled_total adjusted_qty find_position ◌+ℤ◌
sample-IsProjected = record { known = tt; projected = λ s. refl }

run_ledger-IsProjected_example : IsProjected end_ledger
run_ledger-IsProjected_example =
    run_ledger-IsProjected (sample_ledger approved) sample_calls sample-IsProjected

run_ledger-ended_example :
    (o : LedgerOrder ℕ) × (get_row 1 (run_ledger (sample_ledger canceled) sample_calls).orders
      ≡ some o)
    × (o.status ≡ canceled)
unfolding find_row
run_ledger-ended_example =
    run_ledger-ended (sample_ledger canceled) sample_calls 1 (sample_order canceled) refl refl

run_ledger-Grows_example :
    (o : LedgerOrder ℕ) × (get_row 1 end_ledger.orders ≡ some o) × Grows (sample_order approved) o
unfolding find_row
run_ledger-Grows_example =
    run_ledger-Grows (sample_ledger approved) sample_calls 1 (sample_order approved) refl

run_ledger-sent_example :
    (o : LedgerOrder ℕ) × (get_row 1 (run_ledger (sample_ledger submitting) sample_calls).orders
      ≡ some o)
    × (is_unsent o.status ≡ false)
unfolding find_row
run_ledger-sent_example =
    run_ledger-sent (sample_ledger submitting) sample_calls 1 (sample_order submitting) refl refl

create_order-replay_example :
    create_order (record sample_intent { price = 1 }) submitted "t9" (sample_ledger approved)
    ≡ ok ((1, sample_order approved), sample_ledger approved)
unfolding check_intent
create_order-replay_example =
    create_order-replay sample_intent (record sample_intent { price = 1 }) approved submitted "t0"
      "t9" empty_ledger (1, sample_order approved) (sample_ledger approved) buy_side create_runs
      refl refl

abbrev claimed : Result (LedgerOrder ℕ × LedgerDb ℕ)
claimed = transition_order 1 approved submitting "a" "" "{}" "t1" (sample_ledger approved)

transition_order-once_example :
    transition_order 1 approved submitting "b" "" "{}" "t2" (state_of empty_ledger claimed)
    ≡ err (runtime_error "order state changed concurrently")
unfolding transition_order find_row update_row allows UnifiedOrderStatus-discrete
transition_order-once_example =
    transition_order-once 1 approved submitting submitting "a" "" "{}" "t1" "b" "" "{}" "t2"
      (sample_ledger approved) (answer_of (sample_order approved) claimed)
      (state_of empty_ledger claimed) refl refl refl

abbrev reported : Result (LedgerOrder ℕ × LedgerDb ℕ)
reported =
    reconcile_snapshot 1 "partial" (pos 4) 70000 "B1" "" sample_raw "t1" (sample_ledger submitted)

reconcile_snapshot-replay_example :
    reconcile_snapshot 1 "partial"
      (pos 4)
      70000
      "B1"
      ""
      (leaf none)
      "t2"
      (state_of empty_ledger reported)
    ≡ ok (
      again_order "t2" (answer_of (sample_order submitted) reported),
      record (state_of empty_ledger reported) {
        orders =
            set_row 1
              (λ p. again_order "t2" (answer_of (sample_order submitted) reported))
              (state_of empty_ledger reported).orders;
      },
    )
unfolding reconcile_snapshot identity_taken status_text find_status any_status keep_statuses allows
    find_field own_cost broker_cost nested_cost adjusted_qty filled_total cash_total cost_total
    upsert_position has_fill find_row update_row ◌+ℤ◌ UnifiedOrderStatus-discrete
reconcile_snapshot-replay_example =
    reconcile_snapshot-replay 1 "partial" (pos 4) 70000 "B1" "" sample_raw (leaf none) "t1" "t2"
      (sample_ledger submitted) (answer_of (sample_order submitted) reported)
      (state_of empty_ledger reported) refl

sample-IsBooked : IsBooked (sample_ledger submitted)
unfolding find_row filled_of
sample-IsBooked = record { booked = λ oid o e. ground arith }

reconcile_snapshot-IsBooked_example : IsBooked (state_of empty_ledger reported)
unfolding reconcile_snapshot identity_taken status_text find_status any_status keep_statuses allows
    find_field own_cost broker_cost nested_cost adjusted_qty filled_total cash_total cost_total
    upsert_position has_fill find_row update_row ◌+ℤ◌ UnifiedOrderStatus-discrete
reconcile_snapshot-IsBooked_example =
    reconcile_snapshot-IsBooked 1 "partial" 4 70000 "B1" "" sample_raw "t1"
      (sample_ledger submitted) (sample_order submitted)
      (answer_of (sample_order submitted) reported) (state_of empty_ledger reported) sample-IsBooked
      refl refl refl

abbrev issue_of : ℤ → Issue
issue_of broker_qty = record {
  account_key = "acc";
  market = "KR";
  symbol = "005930";
  broker_qty = broker_qty;
  internal_qty = pos 0;
  difference_qty = broker_qty;
  reason = "difference";
  status = open_issue;
  snapshot_json = "{}";
  reviewed_by = none;
  reviewed_at = none;
  created_at = "t0";
}

-- Two issues of one position.
abbrev disputed_ledger : LedgerDb ℕ
disputed_ledger = record (sample_ledger approved) {
  issues = record { next_id = 3; rows = (1, issue_of (pos 5)) ∷ (2, issue_of (pos 7)) ∷ [] };
}

abbrev aligned : Result (List Aligned × LedgerDb ℕ)
aligned = apply_latest_issues "operator" none none "t9" disputed_ledger

-- The newer one is applied.
align_runs : map (λ p. p.quantity) (state_of empty_ledger aligned).positions ≡ pos 7 ∷ []
unfolding apply_latest_issues latest_issues has_open align_issues align_issue has_adjustment
    review_issues find_position upsert_position ◌-ℤ◌
align_runs = refl

apply_latest_issues-closed_example :
    has_open
      (record { account_key = "acc"; market = "KR"; symbol = "005930" })
      (state_of empty_ledger aligned).issues.rows
    ≡ false
unfolding apply_latest_issues latest_issues has_open align_issues align_issue has_adjustment
    review_issues find_position upsert_position ◌-ℤ◌
apply_latest_issues-closed_example =
    apply_latest_issues-closed "operator" "t9" disputed_ledger (answer_of [] aligned)
      (state_of empty_ledger aligned)
      (record { account_key = "acc"; market = "KR"; symbol = "005930" }) refl
