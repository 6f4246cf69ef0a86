-- ===== src/Envelope/Rooms.antt =====
-- How many shares each limit has room for (src/strategy/autonomy/risk_envelope.py).
use hanstock_svc.Base.{
  ℕ, String, Option, none, some, List, [], ◌∷◌, ltb, str_eq, Float, if◌then◌else◌, Result, ok,
}
use hanstock_svc.Base.Results.{◌>>=◌}
use hanstock_svc.Envelope.Records.{RiskLimits, at_least_zero, hundred}
use hanstock_svc.Envelope.Reduction.{floor_of}

-- The readings, when every check has passed.
pub record Amounts (F : Type 0) : Type 0 where
  pub entry : F
  pub stop : F
  pub total : F
  pub cash : F
  pub position_value : F
  pub market_value : F
  pub sector_value : F
  pub strategy_value : F
  pub reserved_symbol : F
  pub reserved_market : F
  pub reserved_sector : F
  pub reserved_strategy : F
  pub adv : F
  pub open_risk : F
  pub regime_multiplier : F

-- The first of the smallest, `min(caps, key=caps.get)`.
unfoldable pub smallest : String × ℕ → List (String × ℕ) → String × ℕ
smallest best [] = best
smallest best (c ∷ cs) = smallest (if ltb c.1 best.1 then c else best) cs

module _ {F : Type 0} ⦃fl : Float F⦄ where
  -- `total * pct / 100.0`
  abbrev pub share : F → F → F
  share total pct = fl.div (fl.mul total pct) hundred

  abbrev pub risk_budget_of : RiskLimits F → Amounts F → F
  risk_budget_of l a = share a.total l.max_risk_per_trade_pct

  abbrev pub account_limit_of : RiskLimits F → Amounts F → F
  account_limit_of l a =
      at_least_zero (fl.sub (share a.total l.max_total_open_risk_pct) a.open_risk)

  abbrev pub spendable_of : RiskLimits F → Amounts F → F
  spendable_of l a =
      at_least_zero
        (fl.sub (fl.sub a.cash (share a.total l.min_cash_reserve_pct)) a.reserved_market)

  -- What a percentage of the equity leaves beside what is held and reserved.
  abbrev pub left_of : F → F → F → F → F
  left_of total pct held reserved = at_least_zero (fl.sub (fl.sub (share total pct) held) reserved)

  abbrev pub requested_room : Option ℕ → List (String × F)
  requested_room none = []
  requested_room (some n) = ("requested", fl.of_nat n) ∷ []

  unfoldable pub rooms : RiskLimits F → Amounts F → Option ℕ → List (String × F)
  rooms l a requested =
      ("risk", fl.div (risk_budget_of l a) (fl.sub a.entry a.stop))
      ∷ ("account_risk", fl.div (account_limit_of l a) (fl.sub a.entry a.stop))
      ∷ ("cash", fl.div (spendable_of l a) a.entry)
      ∷ (
        "position",
        fl.div (left_of a.total l.max_position_pct a.position_value a.reserved_symbol) a.entry,
      )
      ∷ (
        "market",
        fl.div (left_of a.total l.max_market_exposure_pct a.market_value a.reserved_market) a.entry,
      )
      ∷ (
        "sector",
        fl.div (left_of a.total l.max_sector_exposure_pct a.sector_value a.reserved_sector) a.entry,
      )
      ∷ (
        "strategy",
        fl.div (left_of a.total l.max_strategy_exposure_pct a.strategy_value a.reserved_strategy)
            a.entry,
      )
      ∷ ("liquidity", fl.div (share a.adv l.max_liquidity_participation_pct) a.entry)
      ∷ requested_room requested

  -- The regime scales every room but the requested quantity.
  abbrev pub scaled : F → String × F → F
  scaled m (name, room) = if str_eq name "requested" then room else fl.mul room m

  -- `max(0, math.floor(value))` of every scaled room.
  unfoldable pub caps_of : F → List (String × F) → Result (List (String × ℕ))
  caps_of m [] = ok []
  caps_of m (r ∷ rs) = do cap ← floor_of (scaled m r); caps ← caps_of m rs; ok ((r.0, cap) ∷ caps)
