-- ===== src/Envelope/Reduction.antt =====
-- `_evaluate_reduction`: selling down what is held (src/strategy/autonomy/risk_envelope.py).
use hanstock_svc.Base.{
  ℕ, String, Bool, true, false, ◌&&◌, ◌==◌, not, Option, none, some, List, [], ◌∷◌, ◌++◌, pos_part,
  Float, if◌then◌else◌, Result, ok, err, overflow_error, assertion_error,
}
use hanstock_svc.Base.Results.{require, ◌>>=◌}
use hanstock_svc.Envelope.Records.{
  IntentAction, exit, Given, absent, number, Intent, RiskSnapshot, RiskDecision, or_else, is_some,
  deny, price, positive_float, nonnegative_int, hundred, zero_f,
}

abbrev pub is_exit : IntentAction → Bool
is_exit exit = true
is_exit _ = false

-- A list with one reason, if the test fails.
abbrev pub reason_if : Bool → String → List String
reason_if true why = why ∷ []
reason_if false why = []

module _ {F : Type 0} ⦃fl : Float F⦄ where
  -- `math.floor`, which raises at a float that is not finite; below zero it counts as zero.
  unfoldable pub floor_of : F → Result ℕ
  floor_of x = if fl.is_finite x then ok (pos_part (fl.floor x)) else err overflow_error

  abbrev pub reduce_pct_of : Intent F → IntentAction → Given F
  reduce_pct_of i action = elim i.reduce_pct [
    | none ↦ if is_exit action then number hundred else absent
    | some v ↦ v
  ]

  abbrev pub invalid_pct : Option F → Bool
  invalid_pct none = true
  invalid_pct (some p) = fl.lt hundred p

  -- `reduce_pct != 100`
  abbrev pub is_partial : Option F → Bool
  is_partial none = true
  is_partial (some p) = not (fl.eq p hundred)

  unfoldable pub reduction_reasons : IntentAction → ℕ → Option F → Option F → List String
  reduction_reasons action held pct price =
      reason_if (held == 0) "no_position_to_reduce"
      ++ (reason_if (invalid_pct pct) "invalid_reduce_pct"
          ++ (reason_if (is_exit action && is_partial pct) "exit_requires_100_pct"
              ++ reason_if (not (is_some price)) "invalid_price"))

  abbrev pub reduced_decision : IntentAction → ℕ → F → ℕ → RiskDecision F
  reduced_decision action held price quantity = record {
    approved = true;
    action = action;
    quantity = quantity;
    approved_price = some price;
    risk_budget = zero_f;
    risk_amount = zero_f;
    account_risk_reservation_limit = zero_f;
    exposure_reservation_limits = none;
    estimated_cost = fl.round (fl.mul (fl.of_nat quantity) price);
    binding_cap = some "current_position";
    caps = ("current_position", held) ∷ [];
    checks = ("position_available", true) ∷ ("price_valid", true) ∷ [];
    reasons = [];
  }

  -- The quantity that is sold: all, or the share that is asked for.
  unfoldable pub reduced_quantity : IntentAction → ℕ → F → Result ℕ
  reduced_quantity action held pct =
      if is_exit action then ok held else floor_of (fl.div (fl.mul (fl.of_nat held) pct) hundred)

  unfoldable pub reduce_by : IntentAction → ℕ → Option F → Option F → Result (RiskDecision F)
  reduce_by action held pct price = do
    p ← require pct assertion_error
    at ← require price assertion_error
    quantity ← reduced_quantity action held p
    if quantity == 0
        then ok (deny action ("reduction_below_one_share" ∷ []) [] [])
        else ok (reduced_decision action held at quantity)

  unfoldable pub evaluate_reduction :
      Intent F → RiskSnapshot F → IntentAction → Result (RiskDecision F)
  evaluate_reduction i s action =
      let held = nonnegative_int s.current_position_qty in
      let pct = positive_float (reduce_pct_of i action) in
      let at = or_else (positive_float (price i)) (positive_float s.current_price) in
      elim (reduction_reasons action held pct at) [
        | [] ↦ reduce_by action held pct at
        | (why ∷ more) ↦ ok (deny action (why ∷ more) [] [])
      ]
