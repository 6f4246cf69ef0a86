-- ===== src/Tests/Envelopes.antt =====
-- The risk envelope on a sample account of ten million won.
use native.Mathlib.Nat.{mul-le-mul_left}
use hanstock_svc.Base.{
  ℕ, ◌≡◌, refl, ◌≤◌, ◌<◌, ◌*◌, true, false, none, some, [], ◌∷◌, ◌⊎◌, pos, leb, arith, Result, ok,
  err, overflow_error,
}
use hanstock_svc.Envelope.{
  IntentAction, buy, sell, exit, absent, number, Intent, RiskLimits, RiskSnapshot, RiskDecision,
  instant, evaluate, evaluate_increase, evaluate_reduction, dispatch, overflows, checks_of, failing,
  readings, finite_float, positive_float, nonnegative_float, positive_int, valid_nonnegative_int,
  nonnegative_int, price, stop_price, limits_valid, within_daily_loss, is_recent, size, amounts_of,
  rooms, caps_of, smallest, decide, decide_caps, floor_of, reduction_reasons, reduced_quantity,
  reduce_by,
}
use hanstock_svc.Envelope.Caps.{Sized}
use hanstock_svc.Envelope.Guards.{Guarded, evaluate_safe}
use hanstock_svc.Envelope.Denials.{Refused, evaluate-Refused, evaluate_answers}
use hanstock_svc.Envelope.Limits.{WithinLimits, evaluate_limited}
use hanstock_svc.Envelope.Quantities.{
  evaluate_requested, evaluate_reduction_bounds, evaluate_reduction_free,
}
use hanstock_svc.Tests.Samples.{whole_won}

abbrev limits : RiskLimits ℕ
limits = record {
  max_risk_per_trade_pct = 1;
  max_daily_loss_pct = 3;
  max_position_pct = 20;
  max_market_exposure_pct = 80;
  max_sector_exposure_pct = 40;
  max_liquidity_participation_pct = 1;
  max_strategy_exposure_pct = 50;
  max_total_open_risk_pct = 5;
  max_data_age_seconds = pos 60;
  allowed_regimes = "bull" ∷ [];
  max_daily_orders = pos 3;
  min_cash_reserve_pct = 10;
}

-- Fifty shares at 10,000 won, with the stop at 9,000.
abbrev intent_to : IntentAction → Intent ℕ
intent_to action = record {
  action = action;
  entry_price = number 10000;
  entry = none;
  stop_price = absent;
  hard_stop_price = number 9000;
  quantity = number 50;
  reduce_pct = some (number 50);
}

abbrev snapshot : RiskSnapshot ℕ
snapshot = record {
  total_equity = number 10000000;
  available_cash = number 5000000;
  daily_pnl = number 0;
  position_value = number 0;
  market_exposure_value = number 0;
  sector_exposure_value = number 0;
  strategy_exposure_value = number 0;
  reserved_symbol_exposure_value = number 0;
  reserved_market_exposure_value = number 0;
  reserved_sector_exposure_value = number 0;
  reserved_strategy_exposure_value = number 0;
  sector_key = "tech";
  average_daily_trading_value = number 900000000;
  open_position_risk_amount_excluding_reservations = number 0;
  current_position_qty = number 7;
  market_regime = "bull";
  data_as_of = instant 1000000;
  evaluated_at = instant 2000000;
  kill_switch_active = false;
  market_risk_multiplier = number 1;
  account_snapshot_available = true;
  current_price = number 10000;
  protection_global_block = false;
  daily_new_risk_orders = number 1;
}

abbrev halted : RiskSnapshot ℕ
halted = record snapshot { kill_switch_active = true; protection_global_block = true }

abbrev no_decision : RiskDecision ℕ
no_decision = record {
  approved = false;
  action = buy;
  quantity = 0;
  approved_price = none;
  risk_budget = 0;
  risk_amount = 0;
  account_risk_reservation_limit = 0;
  exposure_reservation_limits = none;
  estimated_cost = 0;
  binding_cap = none;
  caps = [];
  checks = [];
  reasons = [];
}

abbrev decision_of : Result (RiskDecision ℕ) → RiskDecision ℕ
decision_of (ok d) = d
decision_of (err _) = no_decision

abbrev bought : RiskDecision ℕ
bought = decision_of (evaluate limits (intent_to buy) snapshot)

abbrev refused : RiskDecision ℕ
refused = decision_of (evaluate limits (intent_to buy) halted)

abbrev sold : RiskDecision ℕ
sold = decision_of (evaluate limits (intent_to sell) halted)

evaluate_safe_example :
    Guarded limits (intent_to buy) snapshot
    × Sized limits (readings (intent_to buy) snapshot) bought
unfolding dispatch overflows evaluate_increase checks_of failing finite_float positive_float
    nonnegative_float positive_int valid_nonnegative_int price stop_price limits_valid
    within_daily_loss is_recent size amounts_of rooms caps_of smallest decide decide_caps floor_of
evaluate_safe_example = evaluate_safe limits (intent_to buy) snapshot bought refl refl refl

evaluate_limited_example : WithinLimits limits (intent_to buy) snapshot bought
unfolding dispatch overflows evaluate_increase checks_of failing finite_float positive_float
    nonnegative_float positive_int valid_nonnegative_int price stop_price limits_valid
    within_daily_loss is_recent size amounts_of rooms caps_of smallest decide decide_caps floor_of
evaluate_limited_example = evaluate_limited limits (intent_to buy) snapshot bought refl refl refl

bought_fifty : bought.quantity ≡ 50
unfolding dispatch overflows evaluate_increase checks_of failing finite_float positive_float
    nonnegative_float positive_int valid_nonnegative_int price stop_price limits_valid
    within_daily_loss is_recent size amounts_of rooms caps_of smallest decide decide_caps floor_of
bought_fifty = refl

evaluate_requested_example : bought.quantity ≤ 50
unfolding dispatch overflows evaluate_increase checks_of failing finite_float positive_float
    nonnegative_float positive_int valid_nonnegative_int price stop_price limits_valid
    within_daily_loss is_recent size amounts_of rooms caps_of smallest decide decide_caps floor_of
evaluate_requested_example =
    evaluate_requested (λ x h k. refl) limits (intent_to buy) snapshot bought 50 refl refl refl

evaluate-Refused_example : Refused refused
unfolding dispatch overflows evaluate_increase checks_of failing finite_float positive_float
    nonnegative_float positive_int valid_nonnegative_int price stop_price limits_valid
    within_daily_loss is_recent
evaluate-Refused_example = evaluate-Refused limits (intent_to buy) halted refused refl refl

evaluate_answers_example :
    ((d : RiskDecision ℕ) × (evaluate limits (intent_to exit) halted ≡ ok d)
      × (overflows limits (intent_to exit) halted exit ≡ false))
    ⊎ (evaluate limits (intent_to exit) halted ≡ err overflow_error)
evaluate_answers_example = evaluate_answers limits (intent_to exit) halted

evaluate_reduction_free_example :
    evaluate limits (intent_to sell) snapshot ≡ evaluate limits (intent_to sell) halted
evaluate_reduction_free_example =
    evaluate_reduction_free limits limits (intent_to sell) snapshot halted refl refl refl

sold_three : sold.quantity ≡ 3
unfolding dispatch overflows evaluate_reduction finite_float positive_float nonnegative_float
    valid_nonnegative_int nonnegative_int price reduction_reasons reduced_quantity reduce_by
    floor_of
sold_three = refl

le_times : (n x y : ℕ) → leb x y ≡ true → leb (n * x) (n * y) ≡ true
le_times n x y h = let below : x ≤ y = ground arith in ground (arith, mul-le-mul_left n below)

evaluate_reduction_bounds_example :
    (0 < sold.quantity) × (sold.quantity ≤ 7) × (false ≡ true → sold.quantity ≡ 7)
unfolding dispatch overflows evaluate_reduction finite_float positive_float nonnegative_float
    valid_nonnegative_int nonnegative_int price reduction_reasons reduced_quantity reduce_by
    floor_of
evaluate_reduction_bounds_example =
    evaluate_reduction_bounds le_times (λ x y h. ground arith) (λ x y h. ground arith)
      (λ x y h k. ground arith) limits (intent_to sell) halted sold refl refl refl refl
