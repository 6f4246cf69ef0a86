-- ===== src/Envelope/Denials.antt =====
-- A refusal carries nothing, and the gate answers: no assertion of it fails.
use hanstock_svc.Base.{
  ℕ, String, ◌≡◌, ◌≢◌, ◌⊎◌, Bool, false, Option, none, some, List, [], ◌∷◌, Float, Error, ok, err,
  overflow_error, List-cases, Bool-cases, Result-cases, inl, inr, arith,
}
use hanstock_svc.Envelope.Records.{
  IntentAction, enter_long, buy, add, reduce, exit, sell, Intent, RiskLimits, RiskSnapshot,
  RiskDecision, failing, or_else, price, positive_float, nonnegative_int, zero_f,
}
use hanstock_svc.Envelope.Reduction.{
  evaluate_reduction, reduction_reasons, reduced_quantity, reduce_by, reduce_pct_of, floor_of,
}
use hanstock_svc.Envelope.Overflows.{overflows}
use hanstock_svc.Envelope.Checks.{Readings, readings, checks_of}
use hanstock_svc.Envelope.Rooms.{Amounts, rooms, caps_of, scaled}
use hanstock_svc.Envelope.Increase.{
  evaluate_increase, dispatch, evaluate, evaluate-dispatch, amounts_of, size, decide, decide_caps,
}
use hanstock_svc.Envelope.Guards.{AllTrue, failing-none}

module _ {F : Type 0} ⦃fl : Float F⦄ where
  pub record Refused (d : RiskDecision F) : Type 0 where
    pub quantity : d.quantity ≡ 0
    pub price : d.approved_price ≡ none
    pub budget : d.risk_budget ≡ zero_f
    pub amount : d.risk_amount ≡ zero_f
    pub limit : d.account_risk_reservation_limit ≡ zero_f
    pub exposure : d.exposure_reservation_limits ≡ none
    pub cost : d.estimated_cost ≡ zero_f
    pub reasons : d.reasons ≢ []

  decide_caps-Refused :
      (l : RiskLimits F) (a : Amounts F) (action : IntentAction) (checks : List (String × Bool))
      (caps : List (String × ℕ)) (d : RiskDecision F)
      → decide_caps l a action checks caps ≡ ok d
      → d.approved ≡ false
      → Refused d
  unfolding decide_caps decide
  decide_caps-Refused l a action checks [] d h n = absurd (ground arith)
  decide_caps-Refused l a action checks (c ∷ cs) d h n = ground arith

  evaluate_increase-Refused :
      (l : RiskLimits F) (i : Intent F) (s : RiskSnapshot F) (action : IntentAction)
      (d : RiskDecision F)
      → evaluate_increase l i s action ≡ ok d
      → d.approved ≡ false
      → Refused d
  unfolding evaluate_increase size
  evaluate_increase-Refused l i s action d h n =
      elim (List-cases (failing (checks_of l i s (readings i s)))) [
        | inr (why, more, e) ↦ ground arith
        | inl e ↦ elim (Result-cases (amounts_of (readings i s))) [
          | inl (why, f) ↦ absurd (ground arith)
          | inr (a, f) ↦
              elim (Result-cases
                (caps_of a.regime_multiplier (rooms l a (readings i s).requested))) [
                  | inl (why, g) ↦ absurd (ground arith)
                  | inr (caps, g) ↦
                      decide_caps-Refused l a action (checks_of l i s (readings i s)) caps d
                        (ground arith) n
                ]
        ]
      ]

  reduce_by-Refused :
      (action : IntentAction) (held : ℕ) (pct price : Option F) (d : RiskDecision F)
      → reduce_by action held pct price ≡ ok d
      → d.approved ≡ false
      → Refused d
  unfolding reduce_by
  reduce_by-Refused action held pct price d h n = ground arith

  evaluate_reduction-Refused :
      (i : Intent F) (s : RiskSnapshot F) (action : IntentAction) (d : RiskDecision F)
      → evaluate_reduction i s action ≡ ok d
      → d.approved ≡ false
      → Refused d
  unfolding evaluate_reduction
  evaluate_reduction-Refused i s action d h n =
      let held = nonnegative_int s.current_position_qty in
      let pct = positive_float (reduce_pct_of i action) in
      let at = or_else (positive_float (price i)) (positive_float s.current_price) in
      elim (List-cases (reduction_reasons action held pct at)) [
        | inr (why, more, e) ↦ ground arith
        | inl e ↦ reduce_by-Refused action held pct at d (ground arith) n
      ]

  dispatch-Refused :
      (l : RiskLimits F) (i : Intent F) (s : RiskSnapshot F) (action : IntentAction)
      (d : RiskDecision F)
      → dispatch l i s action ≡ ok d
      → d.approved ≡ false
      → Refused d
  unfolding dispatch
  dispatch-Refused l i s enter_long d h n = evaluate_increase-Refused l i s enter_long d h n
  dispatch-Refused l i s buy d h n = evaluate_increase-Refused l i s buy d h n
  dispatch-Refused l i s add d h n = evaluate_increase-Refused l i s add d h n
  dispatch-Refused l i s reduce d h n = evaluate_reduction-Refused i s reduce d h n
  dispatch-Refused l i s exit d h n = evaluate_reduction-Refused i s exit d h n
  dispatch-Refused l i s sell d h n = evaluate_reduction-Refused i s sell d h n
  dispatch-Refused l i s _ d h n = ground arith

  -- What is not approved carries nothing that an execution could use: quantity 0, no price, and
  -- no budget, amount, cost or limit; and it gives a reason.
  pub evaluate-Refused :
      (l : RiskLimits F) (i : Intent F) (s : RiskSnapshot F) (d : RiskDecision F)
      → evaluate l i s ≡ ok d
      → d.approved ≡ false
      → Refused d
  evaluate-Refused l i s d h n = dispatch-Refused l i s i.action d (evaluate-dispatch l i s d h) n

  amounts_of-ok :
      (l : RiskLimits F) (i : Intent F) (s : RiskSnapshot F) (r : Readings F) (why : Error)
      → AllTrue (checks_of l i s r)
      → amounts_of r ≢ err why
  unfolding checks_of amounts_of
  amounts_of-ok l i s r why all h = ground arith

  floor_of-err : (x : F) (why : Error) → floor_of x ≡ err why → why ≡ overflow_error
  unfolding floor_of
  floor_of-err x why h = ground arith

  caps_of-err :
      (m : F) (rs : List (String × F)) (why : Error) → caps_of m rs ≡ err why → why ≡ overflow_error
  unfolding caps_of
  caps_of-err m [] why h = absurd (ground arith)
  caps_of-err m (r ∷ rs) why h = ground (arith, floor_of-err (scaled m r) why, caps_of-err m rs why)

  decide_caps-err :
      (l : RiskLimits F) (a : Amounts F) (action : IntentAction) (checks : List (String × Bool))
      (n : Option ℕ) (caps : List (String × ℕ)) (why : Error)
      → caps_of a.regime_multiplier (rooms l a n) ≡ ok caps
      → decide_caps l a action checks caps ≢ err why
  unfolding decide_caps caps_of rooms
  decide_caps-err l a action checks n [] why g h = absurd (ground arith)
  decide_caps-err l a action checks n (c ∷ cs) why g h = absurd (ground arith)

  evaluate_increase-err :
      (l : RiskLimits F) (i : Intent F) (s : RiskSnapshot F) (action : IntentAction) (why : Error)
      → evaluate_increase l i s action ≡ err why
      → why ≡ overflow_error
  unfolding evaluate_increase size
  evaluate_increase-err l i s action why h =
      let r = readings i s in
      elim (List-cases (failing (checks_of l i s r))) [
        | inr (x, more, e) ↦ absurd (ground arith)
        | inl e ↦ elim (Result-cases (amounts_of r)) [
          | inl (x, f) ↦ absurd (amounts_of-ok l i s r x (failing-none (checks_of l i s r) e) f)
          | inr (a, f) ↦ elim (Result-cases (caps_of a.regime_multiplier (rooms l a r.requested))) [
            | inl (x, g) ↦
                ground (arith, caps_of-err a.regime_multiplier (rooms l a r.requested) x g)
            | inr (caps, g) ↦ absurd (
                decide_caps-err l a action (checks_of l i s r) r.requested caps why g
                  (ground arith))
          ]
        ]
      ]

  reduce_by-err :
      (action : IntentAction) (held : ℕ) (pct price : Option F) (why : Error)
      → reduction_reasons action held pct price ≡ []
      → reduce_by action held pct price ≡ err why
      → why ≡ overflow_error
  unfolding reduce_by reduction_reasons reduced_quantity
  reduce_by-err action held none price why e h = absurd (ground arith)
  reduce_by-err action held (some p) none why e h = absurd (ground arith)
  reduce_by-err action held (some p) (some x) why e h =
      ground (arith, floor_of-err (fl.div (fl.mul (fl.of_nat held) p) (fl.of_nat 100)) why)

  evaluate_reduction-err :
      (i : Intent F) (s : RiskSnapshot F) (action : IntentAction) (why : Error)
      → evaluate_reduction i s action ≡ err why
      → why ≡ overflow_error
  unfolding evaluate_reduction
  evaluate_reduction-err i s action why h =
      let held = nonnegative_int s.current_position_qty in
      let pct = positive_float (reduce_pct_of i action) in
      let at = or_else (positive_float (price i)) (positive_float s.current_price) in
      elim (List-cases (reduction_reasons action held pct at)) [
        | inr (x, more, e) ↦ absurd (ground arith)
        | inl e ↦ reduce_by-err action held pct at why e (ground arith)
      ]

  dispatch-err :
      (l : RiskLimits F) (i : Intent F) (s : RiskSnapshot F) (action : IntentAction) (why : Error)
      → dispatch l i s action ≡ err why
      → why ≡ overflow_error
  unfolding dispatch
  dispatch-err l i s enter_long why h = evaluate_increase-err l i s enter_long why h
  dispatch-err l i s buy why h = evaluate_increase-err l i s buy why h
  dispatch-err l i s add why h = evaluate_increase-err l i s add why h
  dispatch-err l i s reduce why h = evaluate_reduction-err i s reduce why h
  dispatch-err l i s exit why h = evaluate_reduction-err i s exit why h
  dispatch-err l i s sell why h = evaluate_reduction-err i s sell why h
  dispatch-err l i s _ why h = absurd (ground arith)

  -- The gate answers: no assertion of it fails, and the only exception is an `OverflowError` (as
  -- `float()` raises it at an integer beyond the range of floats, and `math.floor` at an infinite
  -- float); and it gives an answer only where `float()` can take every value that the action reads.
  pub evaluate_answers :
      (l : RiskLimits F) (i : Intent F) (s : RiskSnapshot F)
      → ((d : RiskDecision F) × (evaluate l i s ≡ ok d) × (overflows l i s i.action ≡ false))
        ⊎ (evaluate l i s ≡ err overflow_error)
  evaluate_answers l i s = elim (Bool-cases (overflows l i s i.action)) [
    | inl over ↦ inr (ground arith)
    | inr within ↦ elim (Result-cases (dispatch l i s i.action)) [
      | inl (why, e) ↦ inr (ground (arith, dispatch-err l i s i.action why e))
      | inr (d, e) ↦ inl (d, ground arith, within)
    ]
  ]
