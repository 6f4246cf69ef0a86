-- ===== src/Envelope/Increase.antt =====
-- `_evaluate_increase` and `evaluate` (src/strategy/autonomy/risk_envelope.py).
use hanstock_svc.Base.{
  ℕ, String, Bool, true, false, ◌==◌, some, List, [], ◌∷◌, ◌++◌, Float, if◌then◌else◌, Result, ok,
  err, assertion_error, value_error, overflow_error, ◌≡◌,
}
use hanstock_svc.Base.Results.{require, raise_if, raise_if-ok, ◌>>=◌, ◌>>◌}
use hanstock_svc.Risk.{ExposureLimits}
use hanstock_svc.Envelope.Records.{
  IntentAction, enter_long, buy, add, reduce, exit, sell, hold, watch, cancel_pending, Intent,
  RiskLimits, RiskSnapshot, RiskDecision, failing, deny, at_least_zero,
}
use hanstock_svc.Envelope.Reduction.{evaluate_reduction}
use hanstock_svc.Envelope.Overflows.{overflows}
use hanstock_svc.Envelope.Checks.{Readings, readings, checks_of}
use hanstock_svc.Envelope.Rooms.{
  Amounts, share, risk_budget_of, account_limit_of, rooms, caps_of, smallest,
}

module _ {F : Type 0} ⦃fl : Float F⦄ where
  -- The assertions that the readings are there.
  unfoldable pub amounts_of : Readings F → Result (Amounts F)
  amounts_of r = do
    entry ← require r.entry assertion_error
    stop ← require r.stop assertion_error
    total ← require r.total assertion_error
    cash ← require r.cash assertion_error
    position_value ← require r.position_value assertion_error
    market_value ← require r.market_value assertion_error
    sector_value ← require r.sector_value assertion_error
    adv ← require r.adv assertion_error
    strategy_value ← require r.strategy_value assertion_error
    reserved_symbol ← require r.reserved_symbol assertion_error
    reserved_market ← require r.reserved_market assertion_error
    reserved_sector ← require r.reserved_sector assertion_error
    reserved_strategy ← require r.reserved_strategy assertion_error
    open_risk ← require r.open_risk assertion_error
    regime_multiplier ← require r.regime_multiplier assertion_error
    ok record {
      entry = entry;
      stop = stop;
      total = total;
      cash = cash;
      position_value = position_value;
      market_value = market_value;
      sector_value = sector_value;
      strategy_value = strategy_value;
      reserved_symbol = reserved_symbol;
      reserved_market = reserved_market;
      reserved_sector = reserved_sector;
      reserved_strategy = reserved_strategy;
      adv = adv;
      open_risk = open_risk;
      regime_multiplier = regime_multiplier;
    }

  -- `round(max(0.0, total * pct / 100.0 - value) * regime_multiplier, 2)`
  abbrev pub reservation_limit : Amounts F → F → F → F
  reservation_limit a pct value =
      fl.round (fl.mul (at_least_zero (fl.sub (share a.total pct) value)) a.regime_multiplier)

  abbrev pub exposure_limits_of : RiskLimits F → Amounts F → ExposureLimits F
  exposure_limits_of l a = record {
    position = reservation_limit a l.max_position_pct a.position_value;
    market = reservation_limit a l.max_market_exposure_pct a.market_value;
    sector = reservation_limit a l.max_sector_exposure_pct a.sector_value;
    strategy = reservation_limit a l.max_strategy_exposure_pct a.strategy_value;
  }

  -- The decision at the smallest of the caps.
  unfoldable pub decide :
      RiskLimits F
      → Amounts F
      → IntentAction
      → List (String × Bool)
      → List (String × ℕ)
      → String × ℕ
      → RiskDecision F
  decide l a action checks caps (name, quantity) =
      if quantity == 0
      then deny action ("quantity_positive" ∷ []) (checks ++ ("quantity_positive", false) ∷ []) caps
      else record {
        approved = true;
        action = action;
        quantity = quantity;
        approved_price = some a.entry;
        risk_budget = fl.round (fl.mul (risk_budget_of l a) a.regime_multiplier);
        risk_amount = fl.round (fl.mul (fl.sub a.entry a.stop) (fl.of_nat quantity));
        account_risk_reservation_limit =
            fl.round (fl.mul (account_limit_of l a) a.regime_multiplier);
        exposure_reservation_limits = some (exposure_limits_of l a);
        estimated_cost = fl.round (fl.mul a.entry (fl.of_nat quantity));
        binding_cap = some name;
        caps = caps;
        checks = checks ++ ("quantity_positive", true) ∷ [];
        reasons = [];
      }

  -- `min` of no caps raises; there are always eight.
  unfoldable pub decide_caps :
      RiskLimits F
      → Amounts F
      → IntentAction
      → List (String × Bool)
      → List (String × ℕ)
      → Result (RiskDecision F)
  decide_caps l a action checks [] = err (value_error "min() arg is an empty sequence")
  decide_caps l a action checks (c ∷ cs) = ok (decide l a action checks (c ∷ cs) (smallest c cs))

  unfoldable pub size :
      RiskLimits F → Readings F → IntentAction → List (String × Bool) → Result (RiskDecision F)
  size l r action checks = do
    a ← amounts_of r
    caps ← caps_of a.regime_multiplier (rooms l a r.requested)
    decide_caps l a action checks caps

  unfoldable pub evaluate_increase :
      RiskLimits F → Intent F → RiskSnapshot F → IntentAction → Result (RiskDecision F)
  evaluate_increase l i s action =
      let r = readings i s in
      let checks = checks_of l i s r in
      elim (failing checks) [
        | [] ↦ size l r action checks
        | (why ∷ more) ↦ ok (deny action (why ∷ more) checks [])
      ]

  -- `hold`, `watch` and `cancel_pending` trade nothing.
  abbrev pub no_trade : IntentAction → RiskDecision F
  no_trade action = record (deny action [] [] []) { approved = true }

  -- The evaluation by the action, of numbers that `float()` can read.
  unfoldable pub dispatch :
      RiskLimits F → Intent F → RiskSnapshot F → IntentAction → Result (RiskDecision F)
  dispatch l i s enter_long = evaluate_increase l i s enter_long
  dispatch l i s buy = evaluate_increase l i s buy
  dispatch l i s add = evaluate_increase l i s add
  dispatch l i s reduce = evaluate_reduction i s reduce
  dispatch l i s exit = evaluate_reduction i s exit
  dispatch l i s sell = evaluate_reduction i s sell
  dispatch l i s hold = ok (no_trade hold)
  dispatch l i s watch = ok (no_trade watch)
  dispatch l i s cancel_pending = ok (no_trade cancel_pending)
  dispatch l i s (IntentAction.other text) =
      ok (deny (IntentAction.other text) ("unsupported_action" ∷ []) [] [])

  -- `evaluate`
  abbrev pub evaluate : RiskLimits F → Intent F → RiskSnapshot F → Result (RiskDecision F)
  evaluate l i s = do raise_if (overflows l i s i.action) overflow_error; dispatch l i s i.action

  -- An evaluation that returns is the one of its action.
  pub evaluate-dispatch :
      (l : RiskLimits F) (i : Intent F) (s : RiskSnapshot F) (d : RiskDecision F)
      → evaluate l i s ≡ ok d
      → dispatch l i s i.action ≡ ok d
  evaluate-dispatch l i s d h =
      (raise_if-ok (overflows l i s i.action) overflow_error (dispatch l i s i.action) d h).1
