-- ===== src/Ledger/Grants.antt =====
-- What a decision of the capacity check grants, by its numbers
-- (src/application/orders/preflight.py).
use hanstock_svc.Base.{
  ℕ, ◌≡◌, refl, sym, ap, ◌∙◌, true, false, ◌==◌, ◌+◌, ◌-◌, ◌≤◌, ◌<◌, ℤ, pos, negsuc, pos_part,
  positive, Float, leb, if◌then◌else◌, Bool-cases, inl, inr, arith,
}
use hanstock_svc.Ledger.Snapshots.{not_below_zero}
use hanstock_svc.Ledger.Capacity.{
  OrderCapacityDecision, at_least, min_qty, affordable, available_cash, invalid_order,
  sell_capacity, buy_capacity,
}

min_qty-granted : (quantity : ℕ) (n : ℤ) → at_least (min_qty quantity n) (quantity + 1) ≡ false
min_qty-granted quantity (pos n) = ground arith
min_qty-granted quantity (negsuc n) = ground arith

pub positive-lt : (n : ℤ) → positive n ≡ true → 0 < pos_part n
positive-lt (pos n) h = ground arith
positive-lt (negsuc n) h = absurd (ground arith)

pub granted_room :
    (quantity sellable reserved : ℕ)
    → 0 < quantity
    → ((if leb quantity (sellable - reserved) then quantity else sellable - reserved) == quantity)
      ≡ true
    → quantity + reserved ≤ sellable
granted_room quantity sellable reserved h t = ground arith

module _ {F : Type 0} ⦃fl : Float F⦄ where
  -- A decision on a quantity that was asked for names it, grants no more than it, and allows the
  -- order only if it grants all of it, at least one share.
  pub record IsExact (asked : ℕ) (d : OrderCapacityDecision F) : Type 0 where
    pub requested : d.requested_quantity ≡ asked
    pub granted : at_least d.approved_quantity (asked + 1) ≡ false
    pub full : d.allowed ≡ true → d.approved_quantity ≡ pos asked
    pub some_share : d.allowed ≡ true → 0 < asked

  pub sell_capacity-IsExact :
      (quantity sellable reserved : ℕ)
      → 0 < quantity
      → IsExact quantity (sell_capacity quantity sellable reserved)
  sell_capacity-IsExact quantity sellable reserved h = record {
    requested = refl;
    granted = ground arith;
    full = λ t. ground arith;
    some_share = λ t. h;
  }

  pub buy_capacity-IsExact :
      (quantity : ℕ) (orderable reserved price : F)
      → 0 < quantity
      → IsExact quantity (buy_capacity quantity orderable reserved price)
  buy_capacity-IsExact quantity orderable reserved price h =
      let n = affordable quantity (available_cash orderable reserved) price in
      record {
        requested = refl;
        granted = min_qty-granted quantity n;
        full = λ t. ap (λ b. if b then pos quantity else n) t;
        some_share = λ t. h;
      }

  pub invalid-IsExact : (quantity : ℕ) → IsExact quantity (invalid_order quantity)
  invalid-IsExact quantity = record {
    requested = refl;
    granted = ground arith;
    full = λ t. absurd (ground arith);
    some_share = λ t. absurd (ground arith);
  }

  module _
      -- IEEE 754: a positive whole number of shares, far below 2 ^ 53, that the floor of a quotient
      -- reaches is affordable.
      (quotient_fits : (a b : F) (n : ℕ)
        → 0 < n
        → n < 1125899906842624
        → fl.le (fl.of_nat 0) a ≡ true
        → fl.lt (fl.of_nat 0) b ≡ true
        → at_least (fl.int_div a b) n ≡ true
        → fl.le (fl.mul (fl.of_nat n) b) a ≡ true) where
    pub affordable-le :
        (quantity : ℕ) (available price : F)
        → 0 < quantity
        → quantity < 1125899906842624
        → fl.le (fl.of_nat 0) available ≡ true
        → fl.lt (fl.of_nat 0) price ≡ true
        → at_least (affordable quantity available price) quantity ≡ true
        → fl.le (fl.mul (fl.of_nat quantity) price) available ≡ true
    affordable-le quantity available price q small spare above t =
        elim (Bool-cases (fl.le (fl.mul (fl.of_nat quantity) price) available)) [
          | inl fits ↦ fits
          | inr over ↦ quotient_fits available price quantity q small spare above (
              sym (
                ap (λ b. at_least (if b then pos quantity else fl.int_div available price) quantity)
                  over)
              ∙ t)
        ]

  pub not_below_zero-le :
      ((x y : F) → fl.lt x y ≡ true → fl.le x y ≡ true)
      → fl.le (fl.of_nat 0) (fl.of_nat 0) ≡ true
      → (x : F) → fl.le (fl.of_nat 0) (not_below_zero x) ≡ true
  not_below_zero-le le_of_lt zero_le x = elim (Bool-cases (fl.lt (fl.of_nat 0) x)) [
    | inl above ↦ ground (arith, le_of_lt (fl.of_nat 0) x above)
    | inr below ↦ ground (arith, zero_le)
  ]
