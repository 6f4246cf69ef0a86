-- ===== src/Envelope/Limits.antt =====
-- The limits that an approved increase keeps, from the snapshot's numbers
-- (src/strategy/autonomy/risk_envelope.py).
use hanstock_svc.Base.{
  ℕ, ◌≡◌, ap, ◌∙◌, ◌≤◌, true, Option, none, some, err, pos_part, Float, Result, ok,
}
use hanstock_svc.Base.Results.{require-ok}
use hanstock_svc.Envelope.Records.{
  Intent, RiskLimits, RiskSnapshot, RiskDecision, price, stop_price, positive_float,
  nonnegative_float, at_least_zero,
}
use hanstock_svc.Envelope.Checks.{Readings, readings}
use hanstock_svc.Envelope.Rooms.{Amounts, rooms}
use hanstock_svc.Envelope.Increase.{evaluate, amounts_of}
use hanstock_svc.Envelope.Caps.{Fits}
use hanstock_svc.Envelope.Guards.{is_increase, evaluate_safe}

module _ {F : Type 0} ⦃fl : Float F⦄ where
  abbrev read_of : (Amounts F → F) → Result (Amounts F) → Option F
  read_of f (ok a) = some (f a)
  read_of f (err _) = none

  -- What was read, and is there.
  record AllRead (r : Readings F) (a : Amounts F) : Type 0 where
    entry : r.entry ≡ some a.entry
    stop : r.stop ≡ some a.stop
    total : r.total ≡ some a.total
    cash : r.cash ≡ some a.cash
    position_value : r.position_value ≡ some a.position_value
    market_value : r.market_value ≡ some a.market_value
    sector_value : r.sector_value ≡ some a.sector_value
    strategy_value : r.strategy_value ≡ some a.strategy_value
    reserved_symbol : r.reserved_symbol ≡ some a.reserved_symbol
    reserved_market : r.reserved_market ≡ some a.reserved_market
    reserved_sector : r.reserved_sector ≡ some a.reserved_sector
    reserved_strategy : r.reserved_strategy ≡ some a.reserved_strategy
    adv : r.adv ≡ some a.adv
    open_risk : r.open_risk ≡ some a.open_risk
    regime_multiplier : r.regime_multiplier ≡ some a.regime_multiplier

  amounts_of-AllRead : (r : Readings F) (a : Amounts F) → amounts_of r ≡ ok a → AllRead r a
  unfolding amounts_of
  amounts_of-AllRead r a h =
      let (x1, e1, h1) = require-ok r.entry _ _ a h in
      let (x2, e2, h2) = require-ok r.stop _ _ a h1 in
      let (x3, e3, h3) = require-ok r.total _ _ a h2 in
      let (x4, e4, h4) = require-ok r.cash _ _ a h3 in
      let (x5, e5, h5) = require-ok r.position_value _ _ a h4 in
      let (x6, e6, h6) = require-ok r.market_value _ _ a h5 in
      let (x7, e7, h7) = require-ok r.sector_value _ _ a h6 in
      let (x8, e8, h8) = require-ok r.adv _ _ a h7 in
      let (x9, e9, h9) = require-ok r.strategy_value _ _ a h8 in
      let (y1, f1, g1) = require-ok r.reserved_symbol _ _ a h9 in
      let (y2, f2, g2) = require-ok r.reserved_market _ _ a g1 in
      let (y3, f3, g3) = require-ok r.reserved_sector _ _ a g2 in
      let (y4, f4, g4) = require-ok r.reserved_strategy _ _ a g3 in
      let (y5, f5, g5) = require-ok r.open_risk _ _ a g4 in
      let (y6, f6, g6) = require-ok r.regime_multiplier _ _ a g5 in
      record {
        entry = e1 ∙ ap (read_of (λ x. x.entry)) g6;
        stop = e2 ∙ ap (read_of (λ x. x.stop)) g6;
        total = e3 ∙ ap (read_of (λ x. x.total)) g6;
        cash = e4 ∙ ap (read_of (λ x. x.cash)) g6;
        position_value = e5 ∙ ap (read_of (λ x. x.position_value)) g6;
        market_value = e6 ∙ ap (read_of (λ x. x.market_value)) g6;
        sector_value = e7 ∙ ap (read_of (λ x. x.sector_value)) g6;
        adv = e8 ∙ ap (read_of (λ x. x.adv)) g6;
        strategy_value = e9 ∙ ap (read_of (λ x. x.strategy_value)) g6;
        reserved_symbol = f1 ∙ ap (read_of (λ x. x.reserved_symbol)) g6;
        reserved_market = f2 ∙ ap (read_of (λ x. x.reserved_market)) g6;
        reserved_sector = f3 ∙ ap (read_of (λ x. x.reserved_sector)) g6;
        reserved_strategy = f4 ∙ ap (read_of (λ x. x.reserved_strategy)) g6;
        open_risk = f5 ∙ ap (read_of (λ x. x.open_risk)) g6;
        regime_multiplier = f6 ∙ ap (read_of (λ x. x.regime_multiplier)) g6;
      }

  abbrev percent : F → F → F
  percent x pct = fl.div (fl.mul x pct) (fl.of_nat 100)

  -- The room, scaled by the regime, is finite and holds the quantity.
  abbrev Holds : ℕ → F → F → Type 0
  Holds q m room = (fl.is_finite (fl.mul room m) ≡ true) × (q ≤ pos_part (fl.floor (fl.mul room m)))

  -- What a percentage of the equity leaves beside what is held and reserved, in shares.
  abbrev left_shares : F → F → F → F → F → F
  left_shares total pct held reserved entry =
      fl.div (at_least_zero (fl.sub (fl.sub (percent total pct) held) reserved)) entry

  -- The numbers `v` are the snapshot's and the intent's, and the quantity keeps each limit.
  pub record WithinLimits (l : RiskLimits F) (i : Intent F) (s : RiskSnapshot F)
      (d : RiskDecision F) : Type 0 where
    pub v : Amounts F
    pub entry : positive_float (price i) ≡ some v.entry
    pub stop : positive_float (stop_price i) ≡ some v.stop
    pub total : positive_float s.total_equity ≡ some v.total
    pub cash : nonnegative_float s.available_cash ≡ some v.cash
    pub position_value : nonnegative_float s.position_value ≡ some v.position_value
    pub market_value : nonnegative_float s.market_exposure_value ≡ some v.market_value
    pub sector_value : nonnegative_float s.sector_exposure_value ≡ some v.sector_value
    pub strategy_value : nonnegative_float s.strategy_exposure_value ≡ some v.strategy_value
    pub reserved_symbol :
        nonnegative_float s.reserved_symbol_exposure_value ≡ some v.reserved_symbol
    pub reserved_market :
        nonnegative_float s.reserved_market_exposure_value ≡ some v.reserved_market
    pub reserved_sector :
        nonnegative_float s.reserved_sector_exposure_value ≡ some v.reserved_sector
    pub reserved_strategy :
        nonnegative_float s.reserved_strategy_exposure_value ≡ some v.reserved_strategy
    pub adv : positive_float s.average_daily_trading_value ≡ some v.adv
    pub open_risk :
        nonnegative_float s.open_position_risk_amount_excluding_reservations ≡ some v.open_risk
    pub regime : positive_float s.market_risk_multiplier ≡ some v.regime_multiplier
    pub risk :
        Holds d.quantity v.regime_multiplier
          (fl.div (percent v.total l.max_risk_per_trade_pct) (fl.sub v.entry v.stop))
    pub account_risk : Holds d.quantity v.regime_multiplier (
        fl.div
          (at_least_zero (fl.sub (percent v.total l.max_total_open_risk_pct) v.open_risk))
          (fl.sub v.entry v.stop))
    pub spendable : Holds d.quantity v.regime_multiplier (
        fl.div
          (at_least_zero
            (fl.sub (fl.sub v.cash (percent v.total l.min_cash_reserve_pct)) v.reserved_market))
          v.entry)
    pub position :
        Holds d.quantity v.regime_multiplier
          (left_shares v.total l.max_position_pct v.position_value v.reserved_symbol v.entry)
    pub market :
        Holds d.quantity v.regime_multiplier
          (left_shares v.total l.max_market_exposure_pct v.market_value v.reserved_market v.entry)
    pub sector :
        Holds d.quantity v.regime_multiplier
          (left_shares v.total l.max_sector_exposure_pct v.sector_value v.reserved_sector v.entry)
    pub strategy : Holds d.quantity v.regime_multiplier (
        left_shares v.total l.max_strategy_exposure_pct v.strategy_value v.reserved_strategy
          v.entry)
    pub liquidity :
        Holds d.quantity v.regime_multiplier
          (fl.div (percent v.adv l.max_liquidity_participation_pct) v.entry)

  rooms-WithinLimits :
      (l : RiskLimits F) (i : Intent F) (s : RiskSnapshot F) (d : RiskDecision F) (a : Amounts F)
      (n : Option ℕ)
      → AllRead (readings i s) a
      → Fits d.quantity a.regime_multiplier (rooms l a n)
      → WithinLimits l i s d
  unfolding rooms
  rooms-WithinLimits l i s d a n r f = record {
    v = a;
    entry = r.entry;
    stop = r.stop;
    total = r.total;
    cash = r.cash;
    position_value = r.position_value;
    market_value = r.market_value;
    sector_value = r.sector_value;
    strategy_value = r.strategy_value;
    reserved_symbol = r.reserved_symbol;
    reserved_market = r.reserved_market;
    reserved_sector = r.reserved_sector;
    reserved_strategy = r.reserved_strategy;
    adv = r.adv;
    open_risk = r.open_risk;
    regime = r.regime_multiplier;
    risk = f.0;
    account_risk = f.1.0;
    spendable = f.1.1.0;
    position = f.1.1.1.0;
    market = f.1.1.1.1.0;
    sector = f.1.1.1.1.1.0;
    strategy = f.1.1.1.1.1.1.0;
    liquidity = f.1.1.1.1.1.1.1.0;
  }

  -- An approved increase keeps every limit of the account, of the numbers in the snapshot: the risk
  -- of a trade and of all open positions over the distance to the stop, the spendable cash, what
  -- the position, market, sector and strategy percentages leave beside the exposure that is held
  -- and reserved, and the share of the daily trading value. Each of these rooms, scaled by the
  -- regime, is finite, and its whole part holds the quantity.
  pub evaluate_limited :
      (l : RiskLimits F) (i : Intent F) (s : RiskSnapshot F) (d : RiskDecision F)
      → is_increase i.action ≡ true
      → evaluate l i s ≡ ok d
      → d.approved ≡ true
      → WithinLimits l i s d
  evaluate_limited l i s d up h y =
      let (_, sized) = evaluate_safe l i s d up h y in
      rooms-WithinLimits l i s d sized.amounts (readings i s).requested
        (amounts_of-AllRead (readings i s) sized.amounts sized.read) sized.fits
