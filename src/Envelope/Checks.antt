-- ===== src/Envelope/Checks.antt =====
-- The checks that every risk-increasing intent passes (src/strategy/autonomy/risk_envelope.py).
use hanstock_svc.Base.{
  ℕ, String, Bool, true, false, ◌&&◌, ◌||◌, ◌*◌, ◌-◌, not, Option, none, some, List, [], ◌∷◌, ℤ,
  pos, negsuc, positive, ltb, leb, str_eq, Float,
}
use hanstock_svc.Envelope.Records.{
  Given, absent, number, Intent, RiskLimits, RiskSnapshot, Moment, instant, is_some, price,
  stop_price, positive_float, nonnegative_float, finite_float, positive_int, valid_nonnegative_int,
  at_least_zero, hundred,
}

abbrev pub mem_str : String → List String → Bool
mem_str a [] = false
mem_str a (x ∷ xs) = str_eq a x || mem_str a xs

abbrev pub is_nonempty : List String → Bool
is_nonempty [] = false
is_nonempty (x ∷ xs) = true

-- `0 <= age <= max_age`, in microseconds.
unfoldable pub is_recent : Moment → Moment → ℤ → Bool
is_recent (instant at) (instant now) (pos max_age) =
    ltb 0 max_age && leb at now && leb (now - at) (max_age * 1000000)
is_recent _ _ _ = false

-- `daily_orders < self.limits.max_daily_orders`
abbrev pub below_limit : Option ℕ → ℤ → Bool
below_limit none limit = false
below_limit (some n) (negsuc _) = false
below_limit (some n) (pos limit) = ltb n limit

-- The inputs of `_evaluate_increase`, as they are read.
pub record Readings (F : Type 0) : Type 0 where
  pub entry : Option F
  pub stop : Option F
  pub requested : Option ℕ
  pub total : Option F
  pub cash : Option F
  pub position_value : Option F
  pub market_value : Option F
  pub sector_value : Option F
  pub strategy_value : Option F
  pub reserved_symbol : Option F
  pub reserved_market : Option F
  pub reserved_sector : Option F
  pub reserved_strategy : Option F
  pub adv : Option F
  pub open_risk : Option F
  pub regime_multiplier : Option F
  pub daily_orders : Option ℕ

module _ {F : Type 0} where
  -- `requested_raw is None`
  abbrev pub is_absent : Given F → Bool
  is_absent absent = true
  is_absent _ = false

module _ {F : Type 0} ⦃fl : Float F⦄ where
  abbrev pub readings : Intent F → RiskSnapshot F → Readings F
  readings i s = record {
    entry = positive_float (price i);
    stop = positive_float (stop_price i);
    requested = positive_int i.quantity;
    total = positive_float s.total_equity;
    cash = nonnegative_float s.available_cash;
    position_value = nonnegative_float s.position_value;
    market_value = nonnegative_float s.market_exposure_value;
    sector_value = nonnegative_float s.sector_exposure_value;
    strategy_value = nonnegative_float s.strategy_exposure_value;
    reserved_symbol = nonnegative_float s.reserved_symbol_exposure_value;
    reserved_market = nonnegative_float s.reserved_market_exposure_value;
    reserved_sector = nonnegative_float s.reserved_sector_exposure_value;
    reserved_strategy = nonnegative_float s.reserved_strategy_exposure_value;
    adv = positive_float s.average_daily_trading_value;
    open_risk = nonnegative_float s.open_position_risk_amount_excluding_reservations;
    regime_multiplier = positive_float s.market_risk_multiplier;
    daily_orders = valid_nonnegative_int s.daily_new_risk_orders;
  }

  abbrev pub is_below : Option F → Option F → Bool
  is_below (some a) (some b) = fl.lt a b
  is_below _ _ = false

  abbrev pub is_at_most_one : Option F → Bool
  is_at_most_one none = false
  is_at_most_one (some m) = fl.le m (fl.of_nat 1)

  -- A percentage that is finite, positive and at most 100.
  abbrev pub is_percentage : F → Bool
  is_percentage x = elim (positive_float (number x)) [ none ↦ false | some y ↦ fl.le y hundred ]

  abbrev pub is_reserve : F → Bool
  is_reserve x = elim (nonnegative_float (number x)) [ none ↦ false | some y ↦ fl.lt y hundred ]

  -- `_limits_valid`
  unfoldable pub limits_valid : RiskLimits F → Bool
  limits_valid l =
      is_percentage l.max_risk_per_trade_pct
      && is_percentage l.max_daily_loss_pct
      && is_percentage l.max_position_pct
      && is_percentage l.max_market_exposure_pct
      && is_percentage l.max_sector_exposure_pct
      && is_percentage l.max_liquidity_participation_pct
      && is_percentage l.max_strategy_exposure_pct
      && is_percentage l.max_total_open_risk_pct
      && fl.le l.max_risk_per_trade_pct l.max_total_open_risk_pct
      && is_reserve l.min_cash_reserve_pct
      && positive l.max_data_age_seconds
      && positive l.max_daily_orders
      && is_nonempty l.allowed_regimes

  -- `_within_daily_loss`
  unfoldable pub within_daily_loss : RiskLimits F → RiskSnapshot F → Bool
  within_daily_loss l s = elim (positive_float s.total_equity) [
    | none ↦ false
    | some total ↦ elim (finite_float s.daily_pnl) [
      | none ↦ false
      | some pnl ↦
          fl.lt (fl.mul (fl.div (at_least_zero (fl.neg pnl)) total) hundred) l.max_daily_loss_pct
    ]
  ]

  -- `checks`, in the order in which they are made.
  unfoldable pub checks_of :
      RiskLimits F → Intent F → RiskSnapshot F → Readings F → List (String × Bool)
  checks_of l i s r =
      ("account_snapshot_available", s.account_snapshot_available)
      ∷ ("kill_switch_off", not s.kill_switch_active)
      ∷ ("all_open_positions_protected", not s.protection_global_block)
      ∷ ("entry_price_valid", is_some r.entry)
      ∷ ("stop_price_required", is_some r.stop)
      ∷ ("long_stop_below_entry", is_below r.stop r.entry)
      ∷ ("total_equity_valid", is_some r.total)
      ∷ ("cash_valid", is_some r.cash)
      ∷ ("position_exposure_valid", is_some r.position_value)
      ∷ ("market_exposure_valid", is_some r.market_value)
      ∷ ("sector_exposure_valid", is_some r.sector_value)
      ∷ ("strategy_exposure_valid", is_some r.strategy_value)
      ∷ ("reserved_symbol_exposure_valid", is_some r.reserved_symbol)
      ∷ ("reserved_market_exposure_valid", is_some r.reserved_market)
      ∷ ("reserved_sector_exposure_valid", is_some r.reserved_sector)
      ∷ ("reserved_strategy_exposure_valid", is_some r.reserved_strategy)
      ∷ ("sector_key_valid", not (str_eq s.sector_key ""))
      ∷ ("liquidity_data_valid", is_some r.adv)
      ∷ ("open_position_risk_valid", is_some r.open_risk)
      ∷ ("requested_quantity_valid", is_absent i.quantity || is_some r.requested)
      ∷ ("limits_valid", limits_valid l)
      ∷ ("allowed_market_regime", mem_str s.market_regime l.allowed_regimes)
      ∷ ("market_risk_multiplier_valid", is_at_most_one r.regime_multiplier)
      ∷ ("fresh_data", is_recent s.data_as_of s.evaluated_at l.max_data_age_seconds)
      ∷ ("daily_loss_limit", within_daily_loss l s)
      ∷ ("daily_order_count_valid", is_some r.daily_orders)
      ∷ ("daily_order_limit", below_limit r.daily_orders l.max_daily_orders)
      ∷ []
