-- ===== src/Envelope/Quantities.antt =====
-- The quantity against what was asked for and against what is held.
use hanstock_svc.Base.{
  ℕ, ◌≡◌, refl, ◌≤◌, ◌<◌, Bool, true, false, Option, some, [], pos_part, Float, ok, Option-cases,
  List-cases, Bool-cases, Result-cases, inl, inr, arith, sym, ◌∙◌, subst,
}
use hanstock_svc.Envelope.Records.{
  IntentAction, reduce, exit, sell, Given, number, Intent, RiskLimits, RiskSnapshot, RiskDecision,
  or_else, price, finite_float, positive_float, positive_int, nonnegative_int, zero_f, hundred,
}
use hanstock_svc.Envelope.Reduction.{
  evaluate_reduction, reduction_reasons, reduced_quantity, reduce_by, reduce_pct_of, floor_of,
  is_exit,
}
use hanstock_svc.Envelope.Rooms.{Amounts, rooms}
use hanstock_svc.Envelope.Increase.{dispatch, evaluate, evaluate-dispatch}
use hanstock_svc.Envelope.Overflows.{overflows}
use hanstock_svc.Envelope.Caps.{Fits}
use hanstock_svc.Envelope.Guards.{is_increase, evaluate_safe}
use hanstock_svc.Envelope.Denials.{evaluate-Refused}

-- The actions that lower risk.
abbrev pub is_reduction : IntentAction → Bool
is_reduction reduce = true
is_reduction exit = true
is_reduction sell = true
is_reduction _ = false

module _ {F : Type 0} ⦃fl : Float F⦄ where
  positive_float-some :
      (v : Given F) (x : F)
      → positive_float v ≡ some x
      → (fl.lt zero_f x ≡ true) × (fl.is_finite x ≡ true)
  unfolding positive_float finite_float
  positive_float-some (number y) x e = (ground arith, ground arith)
  positive_float-some Given.absent x e = absurd (ground arith)
  positive_float-some Given.unreadable x e = absurd (ground arith)
  positive_float-some Given.too_large x e = absurd (ground arith)

  module _
      -- A positive float that is whole is the float of its integer part.
      (int_exact : (x : F)
        → fl.lt zero_f x ≡ true
        → fl.is_integer x ≡ true
        → fl.of_nat (pos_part (fl.floor x)) ≡ x) where
    requested_exact :
        (v : Given F) (n : ℕ) → positive_int v ≡ some n → pos_part (fl.floor (fl.of_nat n)) ≡ n
    unfolding positive_int
    requested_exact v n q = elim (Option-cases (positive_float v)) [
      | inl e ↦ absurd (ground arith)
      | inr (x, e) ↦ let (above, _) = positive_float-some v x e in ground (arith, int_exact x above)
    ]

    requested_room-le :
        (l : RiskLimits F) (a : Amounts F) (m : F) (n k : ℕ)
        → Fits k m (rooms l a (some n))
        → k ≤ pos_part (fl.floor (fl.of_nat n))
    unfolding rooms
    requested_room-le l a m n k h = ground arith

    -- An increase is never sized above a readable quantity that the intent asks for.
    pub evaluate_requested :
        (l : RiskLimits F) (i : Intent F) (s : RiskSnapshot F) (d : RiskDecision F) (n : ℕ)
        → is_increase i.action ≡ true
        → positive_int i.quantity ≡ some n
        → evaluate l i s ≡ ok d
        → d.quantity ≤ n
    evaluate_requested l i s d n up q h = elim (Bool-cases d.approved) [
      | inl y ↦
          let (_, sized) = evaluate_safe l i s d up h y in
          let fit : Fits d.quantity sized.amounts.regime_multiplier
              (rooms l sized.amounts (some n)) =
            subst
              (λ (o : Option ℕ).
                Fits d.quantity sized.amounts.regime_multiplier (rooms l sized.amounts o))
              q sized.fits in
          omega (
            arith,
            requested_room-le l sized.amounts sized.amounts.regime_multiplier n d.quantity fit,
            requested_exact i.quantity n q,
          )
      | inr no_trade ↦ omega (arith, (evaluate-Refused l i s d h no_trade).quantity)
    ]

  dispatch-reduction :
      (l : RiskLimits F) (i : Intent F) (s : RiskSnapshot F) (action : IntentAction)
      → is_reduction action ≡ true
      → dispatch l i s action ≡ evaluate_reduction i s action
  unfolding dispatch
  dispatch-reduction l i s reduce h = refl
  dispatch-reduction l i s exit h = refl
  dispatch-reduction l i s sell h = refl
  dispatch-reduction l i s _ h = absurd (ground arith)

  overflows-reduction :
      (l l' : RiskLimits F) (i : Intent F) (s s' : RiskSnapshot F) (action : IntentAction)
      → is_reduction action ≡ true
      → s'.current_position_qty ≡ s.current_position_qty
      → s'.current_price ≡ s.current_price
      → overflows l i s action ≡ overflows l' i s' action
  unfolding overflows
  overflows-reduction l l' i s s' action h q p = ground arith

  -- A reduction is judged by the position and the prices alone: neither the limits, nor the kill
  -- switch, nor unprotected positions, nor the day's loss and orders, nor stale data, nor the
  -- regime can keep a position from being sold.
  pub evaluate_reduction_free :
      (l l' : RiskLimits F) (i : Intent F) (s s' : RiskSnapshot F)
      → is_reduction i.action ≡ true
      → s'.current_position_qty ≡ s.current_position_qty
      → s'.current_price ≡ s.current_price
      → evaluate l i s ≡ evaluate l' i s'
  unfolding evaluate_reduction
  evaluate_reduction_free l l' i s s' down q p =
      let same = overflows-reduction l l' i s s' i.action down q p in
      ground (
        arith,
        same,
        dispatch-reduction l i s i.action down,
        dispatch-reduction l' i s' i.action down,
      )

  module _
      -- IEEE 754: `*` by a number that is not negative, `/` by 100 and `math.floor` are monotone.
      (mul_mono : (n : ℕ) (x y : F)
        → fl.le x y ≡ true
        → fl.le (fl.mul (fl.of_nat n) x) (fl.mul (fl.of_nat n) y) ≡ true)
      (div_mono : (x y : F) → fl.le x y ≡ true → fl.le (fl.div x hundred) (fl.div y hundred) ≡ true)
      (floor_mono : (x y : F) → fl.le x y ≡ true → pos_part (fl.floor x) ≤ pos_part (fl.floor y))
      -- Away from NaN, `<=` is the converse of `<` turned round.
      (le_of_not_lt : (x y : F)
        → fl.is_finite x ≡ true
        → fl.lt y x ≡ false
        → fl.le x y ≡ true) where
    reduced-le :
        (action : IntentAction) (held : ℕ) (pct : F) (q : ℕ)
        → pos_part (fl.floor (fl.div (fl.mul (fl.of_nat held) hundred) hundred)) ≡ held
        → fl.is_finite pct ≡ true
        → fl.lt hundred pct ≡ false
        → reduced_quantity action held pct ≡ ok q
        → q ≤ held
    unfolding reduced_quantity floor_of
    reduced-le action held pct q whole fin n h =
        let le1 = le_of_not_lt pct hundred fin n in
        let le2 = mul_mono held pct hundred le1 in
        let le3 = div_mono (fl.mul (fl.of_nat held) pct) (fl.mul (fl.of_nat held) hundred) le2 in
        let le4 =
          floor_mono (fl.div (fl.mul (fl.of_nat held) pct) hundred)
            (fl.div (fl.mul (fl.of_nat held) hundred) hundred) le3 in
        ground arith

    reduce_by-Held :
        (action : IntentAction) (held : ℕ) (v : Given F) (at : Option F) (d : RiskDecision F)
        → pos_part (fl.floor (fl.div (fl.mul (fl.of_nat held) hundred) hundred)) ≡ held
        → reduction_reasons action held (positive_float v) at ≡ []
        → reduce_by action held (positive_float v) at ≡ ok d
        → d.approved ≡ true
        → (0 < d.quantity) × (d.quantity ≤ held) × (is_exit action ≡ true → d.quantity ≡ held)
    unfolding reduce_by reduction_reasons
    reduce_by-Held action held v at d whole e h y = elim (Option-cases (positive_float v)) [
      | inl none_given ↦ absurd (ground arith)
      | inr (pct, given) ↦
          let (_, fin) = positive_float-some v pct given in
          elim (Result-cases (reduced_quantity action held pct)) [
            | inl (why, f) ↦ absurd (ground arith)
            | inr (q, f) ↦
                let below = reduced-le action held pct q whole fin (ground arith) f in
                (ground arith, ground arith, λ full. unfold reduced_quantity in ground arith)
          ]
    ]

    evaluate_reduction-Held :
        (i : Intent F) (s : RiskSnapshot F) (action : IntentAction) (d : RiskDecision F)
        → pos_part (
            fl.floor (
              fl.div (fl.mul (fl.of_nat (nonnegative_int s.current_position_qty)) hundred) hundred))
          ≡ nonnegative_int s.current_position_qty
        → evaluate_reduction i s action ≡ ok d
        → d.approved ≡ true
        → (0 < d.quantity)
          × (d.quantity ≤ nonnegative_int s.current_position_qty)
          × (is_exit action ≡ true → d.quantity ≡ nonnegative_int s.current_position_qty)
    unfolding evaluate_reduction
    evaluate_reduction-Held i s action d whole h y =
        let held = nonnegative_int s.current_position_qty in
        let at = or_else (positive_float (price i)) (positive_float s.current_price) in
        elim (List-cases
          (reduction_reasons action held (positive_float (reduce_pct_of i action)) at)) [
            | inr (x, more, e) ↦ absurd (ground arith)
            | inl e ↦
                reduce_by-Held action held (reduce_pct_of i action) at d whole e (ground arith) y
          ]

    -- An approved reduction sells at least one share and no more than is held, and an exit sells
    -- all of it. (`*`, `/ 100` and `floor` are monotone, and the held quantity is small enough that
    -- a hundred times it is an exact float.)
    pub evaluate_reduction_bounds :
        (l : RiskLimits F) (i : Intent F) (s : RiskSnapshot F) (d : RiskDecision F)
        → is_reduction i.action ≡ true
        → pos_part (
            fl.floor (
              fl.div (fl.mul (fl.of_nat (nonnegative_int s.current_position_qty)) hundred) hundred))
          ≡ nonnegative_int s.current_position_qty
        → evaluate l i s ≡ ok d
        → d.approved ≡ true
        → (0 < d.quantity)
          × (d.quantity ≤ nonnegative_int s.current_position_qty)
          × (is_exit i.action ≡ true → d.quantity ≡ nonnegative_int s.current_position_qty)
    evaluate_reduction_bounds l i s d down whole h y =
        evaluate_reduction-Held i s i.action d whole
          (sym (dispatch-reduction l i s i.action down) ∙ evaluate-dispatch l i s d h) y
