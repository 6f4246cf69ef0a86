-- ===== src/Envelope/Guards.antt =====
-- An approved increase has passed every guard.
use hanstock_svc.Base.{
  ℕ, String, ◌≡◌, refl, Bool, true, false, some, List, [], ◌∷◌, Float, ok, Option-cases, List-cases,
  inl, inr, arith,
}
use hanstock_svc.Envelope.Records.{
  IntentAction, enter_long, buy, add, reduce, exit, sell, hold, watch, cancel_pending, Intent,
  RiskLimits, RiskSnapshot, RiskDecision, failing, price, stop_price, positive_float,
  valid_nonnegative_int,
}
use hanstock_svc.Envelope.Checks.{
  readings, checks_of, limits_valid, within_daily_loss, is_recent, mem_str, below_limit,
}
use hanstock_svc.Envelope.Increase.{evaluate_increase, dispatch, evaluate, evaluate-dispatch}
use hanstock_svc.Envelope.Caps.{Sized, size-Sized}

abbrev pub AllTrue : List (String × Bool) → Type 0
AllTrue [] = Unit {0}
AllTrue ((name, b) ∷ cs) = (b ≡ true) × AllTrue cs

pub failing-none : (cs : List (String × Bool)) → failing cs ≡ [] → AllTrue cs
unfolding failing
failing-none [] h = tt
failing-none ((name, true) ∷ cs) h = (refl, failing-none cs h)
failing-none ((name, false) ∷ cs) h = absurd (ground arith)

-- The actions that add risk.
abbrev pub is_increase : IntentAction → Bool
is_increase enter_long = true
is_increase buy = true
is_increase add = true
is_increase _ = false

module _ {F : Type 0} ⦃fl : Float F⦄ where
  -- The operator's switches, the freshness of the data and the limits of the day.
  pub record Guarded (l : RiskLimits F) (i : Intent F) (s : RiskSnapshot F) : Type 0 where
    pub account : s.account_snapshot_available ≡ true
    pub no_kill : s.kill_switch_active ≡ false
    pub no_block : s.protection_global_block ≡ false
    pub entry : F
    pub stop : F
    pub priced : positive_float (price i) ≡ some entry
    pub stopped : positive_float (stop_price i) ≡ some stop
    pub below : fl.lt stop entry ≡ true
    pub limits : limits_valid l ≡ true
    pub regime : mem_str s.market_regime l.allowed_regimes ≡ true
    pub fresh : is_recent s.data_as_of s.evaluated_at l.max_data_age_seconds ≡ true
    pub loss : within_daily_loss l s ≡ true
    pub orders : ℕ
    pub counted : valid_nonnegative_int s.daily_new_risk_orders ≡ some orders
    pub more : below_limit (some orders) l.max_daily_orders ≡ true

  checks-Guarded :
      (l : RiskLimits F) (i : Intent F) (s : RiskSnapshot F)
      → failing (checks_of l i s (readings i s)) ≡ []
      → Guarded l i s
  unfolding checks_of
  checks-Guarded l i s h =
      let all = failing-none (checks_of l i s (readings i s)) h in
      elim (Option-cases (positive_float (price i))) [
        | inl e ↦ absurd (ground arith)
        | inr (entry, e) ↦ elim (Option-cases (positive_float (stop_price i))) [
          | inl f ↦ absurd (ground arith)
          | inr (stop, f) ↦ elim (Option-cases (valid_nonnegative_int s.daily_new_risk_orders)) [
            | inl g ↦ absurd (ground arith)
            | inr (orders, g) ↦ record {
              account = all.0;
              no_kill = ground arith;
              no_block = ground arith;
              entry = entry;
              stop = stop;
              priced = e;
              stopped = f;
              below = ground arith;
              limits = ground arith;
              regime = ground arith;
              fresh = ground arith;
              loss = ground arith;
              orders = orders;
              counted = g;
              more = ground arith;
            }
          ]
        ]
      ]

  evaluate_increase-Safe :
      (l : RiskLimits F) (i : Intent F) (s : RiskSnapshot F) (action : IntentAction)
      (d : RiskDecision F)
      → evaluate_increase l i s action ≡ ok d
      → d.approved ≡ true
      → Guarded l i s × Sized l (readings i s) d
  unfolding evaluate_increase
  evaluate_increase-Safe l i s action d h y =
      elim (List-cases (failing (checks_of l i s (readings i s)))) [
        | inl e ↦ (
          checks-Guarded l i s e,
          size-Sized l (readings i s) action (checks_of l i s (readings i s)) d (ground arith) y,
        )
        | inr (why, more, e) ↦ absurd (ground arith)
      ]

  by_action :
      (l : RiskLimits F) (i : Intent F) (s : RiskSnapshot F) (d : RiskDecision F)
      (action : IntentAction)
      → is_increase action ≡ true
      → dispatch l i s action ≡ ok d
      → d.approved ≡ true
      → Guarded l i s × Sized l (readings i s) d
  unfolding dispatch
  by_action l i s d enter_long up h y = evaluate_increase-Safe l i s enter_long d h y
  by_action l i s d buy up h y = evaluate_increase-Safe l i s buy d h y
  by_action l i s d add up h y = evaluate_increase-Safe l i s add d h y
  by_action l i s d reduce up h y = absurd (ground arith)
  by_action l i s d exit up h y = absurd (ground arith)
  by_action l i s d sell up h y = absurd (ground arith)
  by_action l i s d hold up h y = absurd (ground arith)
  by_action l i s d watch up h y = absurd (ground arith)
  by_action l i s d cancel_pending up h y = absurd (ground arith)
  by_action l i s d (IntentAction.other text) up h y = absurd (ground arith)

  -- An intent to buy, add or enter that is approved has passed every guard: the account is known,
  -- the kill switch is off, no open position lacks its stop, entry and stop are positive numbers
  -- with the stop below, the limits are valid, the regime is allowed, the data are fresh, and the
  -- day's loss and number of orders are within their limits. Its quantity is positive, is the
  -- binding cap, exceeds no cap, and fits the scaled room of each limit and of the request.
  pub evaluate_safe :
      (l : RiskLimits F) (i : Intent F) (s : RiskSnapshot F) (d : RiskDecision F)
      → is_increase i.action ≡ true
      → evaluate l i s ≡ ok d
      → d.approved ≡ true
      → Guarded l i s × Sized l (readings i s) d
  evaluate_safe l i s d up h y = by_action l i s d i.action up (evaluate-dispatch l i s d h) y
