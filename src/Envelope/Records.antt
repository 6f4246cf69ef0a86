-- ===== src/Envelope/Records.antt =====
-- What `RiskEnvelope` reads and answers (src/strategy/autonomy/risk_envelope.py).
use hanstock_svc.Base.{
  ℕ, String, Bool, true, false, Option, none, some, List, [], ◌∷◌, ℤ, pos_part, Float,
  if◌then◌else◌,
}
use hanstock_svc.Risk.{ExposureLimits}

-- The action of an intent, stripped and in lower case.
pub data IntentAction : Type 0 where
  enter_long buy add reduce exit sell hold watch cancel_pending : IntentAction
  other : String → IntentAction

-- What stands under a name, as `float()` reads it: nothing (`None`), a value that it refuses (with a
-- `TypeError` or a `ValueError`), an integer beyond the range of floats (an `OverflowError`), or a
-- number.
pub data Given (F : Type 0) : Type 0 where
  absent unreadable too_large : Given F
  number : F → Given F

-- `entry` of an intent: whether it has a price of its own, and the highest price.
pub record EntryRange (F : Type 0) : Type 0 where
  pub price : Option (Given F)
  pub price_max : Given F

-- The names that the envelope reads of an intent.
pub record Intent (F : Type 0) : Type 0 where
  pub action : IntentAction
  pub entry_price : Given F
  pub entry : Option (EntryRange F)
  pub stop_price : Given F
  -- `invalidation.hard_stop_price`
  pub hard_stop_price : Given F
  pub quantity : Given F
  -- whether the name is there at all, and what it holds
  pub reduce_pct : Option (Given F)

pub record RiskLimits (F : Type 0) : Type 0 where
  pub max_risk_per_trade_pct : F
  pub max_daily_loss_pct : F
  pub max_position_pct : F
  pub max_market_exposure_pct : F
  pub max_sector_exposure_pct : F
  pub max_liquidity_participation_pct : F
  pub max_strategy_exposure_pct : F
  pub max_total_open_risk_pct : F
  pub max_data_age_seconds : ℤ
  pub allowed_regimes : List String
  pub max_daily_orders : ℤ
  pub min_cash_reserve_pct : F

-- A timestamp: something else, one without a zone, or an instant in microseconds.
pub data Moment : Type 0 where
  not_a_time zoneless : Moment
  instant : ℕ → Moment

pub record RiskSnapshot (F : Type 0) : Type 0 where
  pub total_equity : Given F
  pub available_cash : Given F
  pub daily_pnl : Given F
  pub position_value : Given F
  pub market_exposure_value : Given F
  pub sector_exposure_value : Given F
  pub strategy_exposure_value : Given F
  pub reserved_symbol_exposure_value : Given F
  pub reserved_market_exposure_value : Given F
  pub reserved_sector_exposure_value : Given F
  pub reserved_strategy_exposure_value : Given F
  -- stripped
  pub sector_key : String
  pub average_daily_trading_value : Given F
  pub open_position_risk_amount_excluding_reservations : Given F
  pub current_position_qty : Given F
  pub market_regime : String
  pub data_as_of : Moment
  pub evaluated_at : Moment
  pub kill_switch_active : Bool
  pub market_risk_multiplier : Given F
  pub account_snapshot_available : Bool
  pub current_price : Given F
  pub protection_global_block : Bool
  pub daily_new_risk_orders : Given F

pub record RiskDecision (F : Type 0) : Type 0 where
  pub approved : Bool
  pub action : IntentAction
  pub quantity : ℕ
  pub approved_price : Option F
  pub risk_budget : F
  pub risk_amount : F
  pub account_risk_reservation_limit : F
  -- `none` is the empty mapping
  pub exposure_reservation_limits : Option (ExposureLimits F)
  pub estimated_cost : F
  pub binding_cap : Option String
  pub caps : List (String × ℕ)
  pub checks : List (String × Bool)
  pub reasons : List String

abbrev pub is_some {ℓ} : {A : Type ℓ} → Option A → Bool
is_some none = false
is_some (some _) = true

-- `a or b`, where `a` is nothing or not zero.
abbrev pub or_else {ℓ} : {A : Type ℓ} → Option A → Option A → Option A
or_else none b = b
or_else (some a) b = some a

-- The names of the checks that failed, in their order.
unfoldable pub failing : List (String × Bool) → List String
failing [] = []
failing ((name, passed) ∷ cs) = let rest = failing cs in if passed then rest else name ∷ rest

module _ {F : Type 0} ⦃fl : Float F⦄ where
  abbrev pub zero_f : F
  zero_f = fl.of_nat 0

  abbrev pub hundred : F
  hundred = fl.of_nat 100

  -- `max(0.0, x)`
  abbrev pub at_least_zero : F → F
  at_least_zero x = if fl.lt zero_f x then x else zero_f

  -- `_finite_float`, where it returns; what is too large makes it raise (`overflows`).
  unfoldable pub finite_float : Given F → Option F
  finite_float absent = none
  finite_float unreadable = none
  finite_float too_large = none
  finite_float (number x) = if fl.is_finite x then some x else none

  unfoldable pub positive_float : Given F → Option F
  positive_float v = elim (finite_float v) [
    | none ↦ none
    | some x ↦ if fl.lt zero_f x then some x else none
  ]

  unfoldable pub nonnegative_float : Given F → Option F
  nonnegative_float v = elim (finite_float v) [
    | none ↦ none
    | some x ↦ if fl.le zero_f x then some x else none
  ]

  -- `_positive_int`, and `int(number)` of a number that is whole.
  unfoldable pub positive_int : Given F → Option ℕ
  positive_int v = elim (positive_float v) [
    | none ↦ none
    | some x ↦ if fl.is_integer x then some (pos_part (fl.floor x)) else none
  ]

  unfoldable pub valid_nonnegative_int : Given F → Option ℕ
  valid_nonnegative_int v = elim (nonnegative_float v) [
    | none ↦ none
    | some x ↦ if fl.is_integer x then some (pos_part (fl.floor x)) else none
  ]

  -- `_nonnegative_int`: what cannot be read counts as nothing held.
  unfoldable pub nonnegative_int : Given F → ℕ
  nonnegative_int v = elim (valid_nonnegative_int v) [ none ↦ 0 | some n ↦ n ]

  -- `_price`
  unfoldable pub price : Intent F → Given F
  price i = elim i.entry_price [
    | absent ↦ elim i.entry [
      | none ↦ absent
      | some e ↦ elim e.price [ none ↦ e.price_max | some p ↦ p ]
    ]
    | unreadable ↦ unreadable
    | too_large ↦ too_large
    | number x ↦ number x
  ]

  -- `_stop_price`
  unfoldable pub stop_price : Intent F → Given F
  stop_price i = elim i.stop_price [
    | absent ↦ i.hard_stop_price
    | unreadable ↦ unreadable
    | too_large ↦ too_large
    | number x ↦ number x
  ]

  -- `_deny`
  abbrev pub deny :
      IntentAction → List String → List (String × Bool) → List (String × ℕ) → RiskDecision F
  deny action reasons checks caps = record {
    approved = false;
    action = action;
    quantity = 0;
    approved_price = none;
    risk_budget = zero_f;
    risk_amount = zero_f;
    account_risk_reservation_limit = zero_f;
    exposure_reservation_limits = none;
    estimated_cost = zero_f;
    binding_cap = none;
    caps = caps;
    checks = checks;
    reasons = reasons;
  }
