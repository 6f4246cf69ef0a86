-- ===== src/Tests/Budgets.antt =====
-- Reservations and hard stops on sample rows.
use hanstock_svc.Base.{
  ℕ, String, ◌≡◌, refl, true, false, none, some, List, [], ◌∷◌, pos, ltb, arith, find_row,
  append_row, find_where, Result, ok,
}
use hanstock_svc.Schema.{Db, Protection, ProtectionStatus, submitted}
use hanstock_svc.Risk.{
  NewReservation, Reserved, reserve_risk_budget, check_request, reserve_or_reuse, check_exposure,
  total, new_reservation, reserved_cash, reserved_risk,
}
use hanstock_svc.Risk.Budget.{reserve_risk_budget-within, reserve_risk_budget_twice}
use hanstock_svc.Risk.Stops.{StopsKept}
use hanstock_svc.Risk.StopRuns.{
  Operation, request, activate, fail, fill, run_operations, run_operations-StopsKept,
}
use hanstock_svc.Execution.{require_storable_market}
use hanstock_svc.Tests.Samples.{whole_won, db_with, state_of}

-- 300,000 won of cash and 20,000 of risk for order 1.
abbrev three_lakh : NewReservation ℕ
three_lakh = record {
  account_id = "acc";
  market = "KR";
  strategy_id = "ai";
  position_id = 1;
  order_id = 1;
  cash_amount = 300000;
  risk_amount = 20000;
  symbol = "005930";
  sector_key = "tech";
  exposure_amount = none;
  exposure_limits =
      some record { position = 400000; market = 900000; sector = 900000; strategy = 900000 };
  reason = none;
  expires_at = none;
}

abbrev before : Db ℕ
before = db_with submitted

abbrev reserved : Reserved ℕ
reserved = record { id = 1; row = new_reservation three_lakh "t1"; created = true }

abbrev reservation_run : Result (Reserved ℕ × Db ℕ)
reservation_run = reserve_risk_budget three_lakh 1000000 50000 "t1" before

reserve_risk_budget-within_example :
    (ltb 1000000 (reserved_cash "acc" "KR" (state_of before reservation_run)) ≡ false)
    × (ltb 50000 (reserved_risk "acc" "KR" (state_of before reservation_run)) ≡ false)
    × (reserved_cash "acc" "KR" (state_of before reservation_run) ≡ 300000)
unfolding reserve_risk_budget require_storable_market check_request reserve_or_reuse check_exposure
    total find_where append_row
reserve_risk_budget-within_example =
    reserve_risk_budget-within three_lakh 1000000 50000 "t1" before
      (state_of before reservation_run) reserved "acc" "KR" refl refl

reserve_risk_budget_twice_example :
    reserve_risk_budget three_lakh 0 0 "t2" (state_of before reservation_run)
    ≡ ok (record reserved { created = false }, state_of before reservation_run)
unfolding reserve_risk_budget require_storable_market check_request reserve_or_reuse check_exposure
    total find_where append_row
reserve_risk_budget_twice_example =
    reserve_risk_budget_twice (λ x h. ground arith) three_lakh 1000000 50000 0 0 "t1" "t2" before
      (state_of before reservation_run) reserved refl refl

-- Four shares of position 1, protected at 65,000 won.
abbrev pub stop_at : Protection ℕ
stop_at = record {
  position_id = 1;
  market = "KR";
  account_id = "acc";
  symbol = "005930";
  strategy_id = "ai";
  required_qty = 4;
  protected_qty = 4;
  initial_stop_price = 65000;
  current_stop_price = 65000;
  status = ProtectionStatus.active;
  broker_order_id = some "b1";
  last_error = none;
  created_at = "t0";
  updated_at = "t0";
  activated_at = some "t0";
  completed_at = none;
}

abbrev pub protected : Db ℕ
protected = record before { protections = record { next_id = 2; rows = (1, stop_at) ∷ [] } }

-- A fill, a stop that is too low, a higher one that the broker takes, and a failure.
abbrev operations : List (String × Operation ℕ)
operations =
    ("t1", fill 1 (pos 4) 70000 "{}" "f1")
    ∷ ("t2", request 1 (pos 4) 60000 "loosen")
    ∷ ("t3", request 1 (pos 4) 66000 "tighten")
    ∷ ("t4", activate 1 "b1" (pos 4) 66000 "{}")
    ∷ ("t5", fail 1 "lost" "{}")
    ∷ []

run_operations-StopsKept_example :
    StopsKept protected.protections (run_operations protected operations).protections
unfolding find_row
run_operations-StopsKept_example =
    run_operations-StopsKept (λ x. ground arith) (λ x y z h k. ground arith) protected operations
      ((refl, tt), (omega arith, tt))
