-- ===== src/Risk/Budget.antt =====
-- Reservations never pass the budgets, and asking twice reserves once.
use hanstock_svc.Base.{
  ℕ, String, ◌≡◌, Bool, true, false, ◌&&◌, some, [], ◌∷◌, inl, inr, str_eq, if◌then◌else◌,
  Option-cases, Float, Rows, append_row, find_where, find_where-append_row, ok, arith,
}
use text.Mathlib.TextPositions.{eq_refl}
use hanstock_svc.Schema.{Db, Reservation}
use hanstock_svc.Risk.Reservations.{
  NewReservation, Reserved, total, counts, reserved_cash, reserved_risk, new_reservation, same_key,
  same_amounts, check_request, reserve_or_reuse, reserve_risk_budget, exposure_of, is_amount,
}

module _ {F : Type 0} ⦃fl : Float F⦄ where
  -- A row that is inserted is the last term of a sum.
  total-append_row :
      (p : Reservation F → Bool) (g : Reservation F → F) (acc : F) (i : ℕ) (r : Reservation F)
      (rows : Rows (Reservation F))
      → total p g acc (append_row i r rows)
        ≡ (if p r then fl.add (total p g acc rows) (g r) else total p g acc rows)
  unfolding total append_row
  total-append_row p g acc i r [] = ground arith
  total-append_row p g acc i r ((_, x) ∷ rows) =
      total-append_row p g (if p x then fl.add acc (g x) else acc) i r rows

  -- What a call that returns has done: reused the active row of its key, or created one.
  reserve-cases :
      (d : NewReservation F) (cash_limit risk_limit : F) (now : String) (db db' : Db F)
      (out : Reserved F)
      → reserve_risk_budget d cash_limit risk_limit now db ≡ ok (out, db')
      → reserve_or_reuse d cash_limit risk_limit now db
          (find_where (same_key d) db.reservations.rows)
        ≡ ok (out, db')
  unfolding reserve_risk_budget
  reserve-cases d cash_limit risk_limit now db db' out h = ground arith

  -- A reservation that is created keeps the active cash and risk of its account and market, with
  -- the new amounts, within the two limits that it was given, and leaves the sums of every other
  -- account and market as they were.
  pub reserve_risk_budget-within :
      (d : NewReservation F) (cash_limit risk_limit : F) (now : String) (db db' : Db F)
      (out : Reserved F) (account market : String)
      → reserve_risk_budget d cash_limit risk_limit now db ≡ ok (out, db')
      → out.created ≡ true
      → (fl.lt cash_limit (reserved_cash d.account_id d.market db') ≡ false)
        × (fl.lt risk_limit (reserved_risk d.account_id d.market db') ≡ false)
        × (reserved_cash account market db' ≡ (
            if str_eq d.account_id account && str_eq d.market market
            then fl.add (reserved_cash account market db) d.cash_amount
            else reserved_cash account market db))
  reserve_risk_budget-within d cash_limit risk_limit now db db' out account market h c =
      elim (Option-cases (find_where (same_key d) db.reservations.rows)) [
        | inl free ↦
            unfold reserve_or_reuse in
            let e = reserve-cases d cash_limit risk_limit now db db' out h in
            let sum = λ (a m : String) (g : Reservation F → F).
              total-append_row (counts a m) g (fl.of_nat 0) db.reservations.next_id
                (new_reservation d now) db.reservations.rows in
            ground (
              arith,
              e,
              sum d.account_id d.market (λ r. r.cash_amount),
              sum d.account_id d.market (λ r. r.risk_amount),
              sum account market (λ r. r.cash_amount),
              eq_refl d.account_id,
              eq_refl d.market,
            )
        | inr (x, taken) ↦ absurd (
            unfold reserve_or_reuse in
            ground (arith, reserve-cases d cash_limit risk_limit now db db' out h))
      ]

  module _
      -- IEEE 754: a number that is not a NaN equals itself.
      (eq_finite : (x : F) → fl.is_finite x ≡ true → fl.eq x x ≡ true) where
    same_amounts-new :
        (d : NewReservation F) (cash_limit risk_limit : F) (now : String)
        → check_request d cash_limit risk_limit ≡ ok tt
        → same_amounts d (new_reservation d now) ≡ true
    unfolding check_request
    same_amounts-new d cash_limit risk_limit now h = ground (
      arith,
      eq_finite d.cash_amount,
      eq_finite d.risk_amount,
      eq_finite (exposure_of d),
      eq_refl d.symbol,
      eq_refl d.sector_key,
    )

    same_key-new : (d : NewReservation F) (now : String) → same_key d (new_reservation d now) ≡ true
    same_key-new d now =
        ground (arith, eq_refl d.account_id, eq_refl d.market, eq_refl d.strategy_id)

    check_request-limits :
        (d : NewReservation F) (c1 r1 c2 r2 : F)
        → check_request d c1 r1 ≡ ok tt
        → (is_amount c2 && is_amount r2) ≡ true
        → check_request d c2 r2 ≡ ok tt
    unfolding check_request
    check_request-limits d c1 r1 c2 r2 h l = ground arith

    check_request-ok :
        (d : NewReservation F) (cash_limit risk_limit : F) (now : String) (db db' : Db F)
        (out : Reserved F)
        → reserve_risk_budget d cash_limit risk_limit now db ≡ ok (out, db')
        → check_request d cash_limit risk_limit ≡ ok tt
    unfolding reserve_risk_budget
    check_request-ok d cash_limit risk_limit now db db' out h = ground arith

    reuse :
        (d : NewReservation F) (c2 r2 : F) (now2 : String) (db : Db F) (rid : ℕ) (r : Reservation F)
        → check_request d c2 r2 ≡ ok tt
        → find_where (same_key d) db.reservations.rows ≡ some (rid, r)
        → same_amounts d r ≡ true
        → reserve_risk_budget d c2 r2 now2 db
          ≡ ok (record { id = rid; row = r; created = false }, db)
    unfolding reserve_risk_budget reserve_or_reuse
    reuse d c2 r2 now2 db rid r h f e = ground arith

    -- Reserving is idempotent: the same request, asked again later with any well-formed limits,
    -- returns the row of the first call, not created, and changes nothing.
    pub reserve_risk_budget_twice :
        (d : NewReservation F) (cash_limit risk_limit c2 r2 : F) (now now2 : String) (db db' : Db F)
        (out : Reserved F)
        → reserve_risk_budget d cash_limit risk_limit now db ≡ ok (out, db')
        → (is_amount c2 && is_amount r2) ≡ true
        → reserve_risk_budget d c2 r2 now2 db' ≡ ok (record out { created = false }, db')
    reserve_risk_budget_twice d cash_limit risk_limit c2 r2 now now2 db db' out h l =
        let e = reserve-cases d cash_limit risk_limit now db db' out h in
        let k = check_request-ok d cash_limit risk_limit now db db' out h in
        let k2 = check_request-limits d cash_limit risk_limit c2 r2 k l in
        elim (Option-cases (find_where (same_key d) db.reservations.rows)) [
          | inl free ↦
              unfold reserve_or_reuse in
              ground (
                arith,
                reuse d c2 r2 now2 db' db.reservations.next_id (new_reservation d now) k2,
                same_amounts-new d cash_limit risk_limit now k,
                find_where-append_row (same_key d) db.reservations.next_id (new_reservation d now)
                    db.reservations.rows free (same_key-new d now),
              )
          | inr ((rid, r), taken) ↦
              unfold reserve_or_reuse in ground (arith, reuse d c2 r2 now2 db' rid r k2)
        ]
