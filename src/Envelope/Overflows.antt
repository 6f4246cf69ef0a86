-- ===== src/Envelope/Overflows.antt =====
-- The `OverflowError` of `float()` at an integer beyond the range of floats, which `_finite_float`
-- does not catch (src/strategy/autonomy/risk_envelope.py).
use hanstock_svc.Base.{Bool, true, false, ◌&&◌, ◌||◌, ◌+◌, not, ℤ, pos, negsuc, Float}
use hanstock_svc.Envelope.Records.{
  IntentAction, enter_long, buy, add, reduce, exit, sell, Given, too_large, Intent, RiskLimits,
  RiskSnapshot, is_some, price, stop_price, positive_float,
}
use hanstock_svc.Envelope.Reduction.{reduce_pct_of}

module _ {F : Type 0} where
  abbrev pub is_too_large : Given F → Bool
  is_too_large too_large = true
  is_too_large _ = false

module _ {F : Type 0} ⦃fl : Float F⦄ where
  abbrev pub float_of : ℤ → F
  float_of (pos n) = fl.of_nat n
  float_of (negsuc n) = fl.neg (fl.of_nat (n + 1))

  -- All that `_evaluate_increase` reads, but the percentages of the limits, which are floats; it reads everything before it refuses anything.
  abbrev pub increase_overflows : RiskLimits F → Intent F → RiskSnapshot F → Bool
  increase_overflows l i s =
      is_too_large (price i)
      || is_too_large (stop_price i)
      || is_too_large i.quantity
      || is_too_large s.total_equity
      || is_too_large s.available_cash
      || is_too_large s.position_value
      || is_too_large s.market_exposure_value
      || is_too_large s.sector_exposure_value
      || is_too_large s.strategy_exposure_value
      || is_too_large s.reserved_symbol_exposure_value
      || is_too_large s.reserved_market_exposure_value
      || is_too_large s.reserved_sector_exposure_value
      || is_too_large s.reserved_strategy_exposure_value
      || is_too_large s.average_daily_trading_value
      || is_too_large s.open_position_risk_amount_excluding_reservations
      || not (fl.is_finite (float_of l.max_data_age_seconds))
      || not (fl.is_finite (float_of l.max_daily_orders))
      || is_too_large s.market_risk_multiplier
      || is_too_large s.daily_pnl
      || is_too_large s.daily_new_risk_orders

  -- What `_evaluate_reduction` reads; the current price only where the intent gives none.
  abbrev pub reduction_overflows : Intent F → RiskSnapshot F → IntentAction → Bool
  reduction_overflows i s action =
      is_too_large s.current_position_qty
      || is_too_large (reduce_pct_of i action)
      || is_too_large (price i)
      || (not (is_some (positive_float (price i))) && is_too_large s.current_price)

  unfoldable pub overflows : RiskLimits F → Intent F → RiskSnapshot F → IntentAction → Bool
  overflows l i s enter_long = increase_overflows l i s
  overflows l i s buy = increase_overflows l i s
  overflows l i s add = increase_overflows l i s
  overflows l i s reduce = reduction_overflows i s reduce
  overflows l i s exit = reduction_overflows i s exit
  overflows l i s sell = reduction_overflows i s sell
  overflows l i s _ = false
