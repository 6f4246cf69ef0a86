-- ===== src/OrderState/Settling.antt =====
-- Settling an order's reservation writes reservations only, and what a transition that returned
-- did to the order.
use hanstock_svc.Base.{
  ℕ, String, ◌≡◌, ◌⊎◌, refl, ◌∙◌, Bool, true, false, Option, none, some, ◌==◌, Float, Error, Result,
  ok, err, order_state_error, concurrent_order_update, Option-cases, Bool-cases, Result-cases, inl,
  inr, arith, subst, ap, ◌≢◌, find_row-update_row_ne, get_row, set_row, find_row-update_row_self,
}
use hanstock_svc.Base.Actions.{transaction}
use hanstock_svc.Base.Keeps.{IsPreorder, Keeps, Keeps-transaction, keeps_rules}
use hanstock_svc.Schema.{
  Db, Order, OrderStatus, Reservation, ReservationStatus, OrderStatus-discrete,
}
use hanstock_svc.Execution.{transitioned, transition_managed_order}
use hanstock_svc.Risk.{release_risk_reservation}
use hanstock_svc.OrderState.Outcomes.{IsMoved, transitioned-IsMoved}
use hanstock_svc.OrderState.Transitions.{
  allowed, require_order, release_found, finalize_position, finalize_reservation, settle_transition,
  transition,
}

module _ {F : Type 0} where
  pub record SameLedger (db db' : Db F) : Type 0 where
    pub orders : db'.orders ≡ db.orders
    pub order_events : db'.order_events ≡ db.order_events
    pub fills : db'.fills ≡ db.fills
    pub positions : db'.positions ≡ db.positions
    pub protections : db'.protections ≡ db.protections

  pub SameLedger-IsPreorder : IsPreorder SameLedger
  SameLedger-IsPreorder = record {
    stay = λ s. record {
      orders = refl;
      order_events = refl;
      fills = refl;
      positions = refl;
      protections = refl;
    };
    chain = λ s t u a b. record {
      orders = b.orders ∙ a.orders;
      order_events = b.order_events ∙ a.order_events;
      fills = b.fills ∙ a.fills;
      positions = b.positions ∙ a.positions;
      protections = b.protections ∙ a.protections;
    };
  }

module _ {F : Type 0} ⦃fl : Float F⦄ where
  Keeps-release :
      (rid : ℕ) (status : ReservationStatus) (reason now : String)
      → Keeps (SameLedger {F = F}) (transaction (release_risk_reservation rid status reason now))
  unfolding release_risk_reservation
  Keeps-release rid status reason now =
      Keeps-transaction SameLedger-IsPreorder _ λ s r s' h. ground arith

  Keeps-release_found :
      (found : Option (ℕ × Reservation F)) (status : ReservationStatus) (reason now : String)
      → Keeps (SameLedger {F = F}) (release_found found status reason now)
  unfolding release_found
  Keeps-release_found none status reason now = search (keeps_rules, SameLedger-IsPreorder)
  Keeps-release_found (some x) status reason now =
      search (keeps_rules, SameLedger-IsPreorder, Keeps-release)

  Keeps-finalize_position :
      (pid : Option ℕ) (status : OrderStatus) (qty : ℕ) (reason now : String)
      → Keeps (SameLedger {F = F}) (finalize_position pid status qty reason now)
  unfolding finalize_position
  Keeps-finalize_position none status qty reason now = search (keeps_rules, SameLedger-IsPreorder)
  Keeps-finalize_position (some pid) status qty reason now = record {
    at = λ db. elim (Bool-cases (pid == 0)) [
      | inl z ↦ rw z (SameLedger-IsPreorder.stay db)
      | inr z ↦ rw z ((Keeps-release_found _ _ reason now).at db)
    ];
  }

  -- Settling a reservation leaves orders, events, fills, positions and protections as they are.
  pub Keeps-finalize_reservation :
      (o : Order F) (status : OrderStatus) (reason now : String)
      → Keeps (SameLedger {F = F}) (finalize_reservation o status reason now)
  unfolding finalize_reservation
  Keeps-finalize_reservation o status reason now =
      search (keeps_rules, SameLedger-IsPreorder, Keeps-finalize_position)

  module _ (oid : ℕ) (expected target : OrderStatus) (reason payload : String)
      (broker_order_id last_error : Option String) (now : String) where
    abbrev moved : Db F → Bool × Db F
    moved db =
        transition_managed_order oid expected target reason payload broker_order_id last_error now
          db

    -- The compare-and-set changes nothing, or the row that has the expected status.
    pub transition_managed_order-cases :
        (db : Db F)
        → (moved db ≡ (false, db))
          ⊎ ((o : Order F) × (get_row oid db.orders ≡ some o)
              × (o.status ≡ expected)
              × ((moved db).0 ≡ true)
              × ((moved db).1.orders
                  ≡ set_row oid (transitioned target broker_order_id last_error now) db.orders)
              × ((moved db).1.reservations ≡ db.reservations))
    unfolding transition_managed_order
    transition_managed_order-cases db = elim (Option-cases (get_row oid db.orders)) [
      | inl e ↦ inl (ground arith)
      | inr (o, e) ↦ elim (OrderStatus-discrete o.status expected) [
        | yes same ↦ inr (o, e, same, ground arith, ground arith, ground arith)
        | no other ↦ inl (ground arith)
      ]
    ]

    -- The move from `before`, in one database, to the returned row `o`, in the other.
    pub record Moved (db : Db F) (o : Order F) (db' : Db F) : Type 0 where
      pub before : Order F
      pub found : get_row oid db.orders ≡ some before
      pub status : before.status ≡ expected
      pub legal : allowed expected target ≡ true
      pub columns : IsMoved target broker_order_id last_error now before o
      pub row : get_row oid db'.orders ≡ some o
      pub others : (j : ℕ) → j ≢ oid → get_row j db'.orders ≡ get_row j db.orders

    abbrev run : Db F → Result (Order F) × Db F
    run db = transition oid expected target reason payload broker_order_id last_error now db

    settled :
        (db : Db F) (o : Order F) (db' : Db F)
        → settle_transition oid target reason now true db ≡ (ok o, db')
        → (get_row oid db.orders ≡ some o) × (db'.orders ≡ db.orders)
    unfolding settle_transition require_order
    settled db o db' h = elim (Option-cases (get_row oid db.orders)) [
      | inl e ↦ absurd (ground arith)
      | inr (x, e) ↦
          let kept = (Keeps-finalize_reservation x target reason now).at db in
          elim (Result-cases (finalize_reservation x target reason now db).0) [
            | inl (er, bad) ↦ absurd (ground arith)
            | inr (u, fine) ↦ (ground arith, ground (arith, kept.orders))
          ]
    ]

    -- A transition that returns was legal for the table and found the order in the expected status.
    -- The row that it returns is the row that the database has afterwards: its status is the target,
    -- it is dated, a given broker id and error replace the stored ones, the first submission and
    -- the first end are dated too, and nothing else of it changed; and every other order is as it
    -- was.
    pub transition-Moved :
        (db : Db F) (o : Order F) (db' : Db F) → run db ≡ (ok o, db') → Moved db o db'
    unfolding transition
    transition-Moved db o db' h = elim (Bool-cases (allowed expected target)) [
      | inr illegal ↦ absurd (ground arith)
      | inl legal ↦ elim (transition_managed_order-cases db) [
        | inl e ↦ absurd (unfold settle_transition in ground arith)
        | inr (before, found, status, changed, orders, _) ↦
            let (here, same) = settled (moved db).1 o db' (ground arith) in
            let there =
              find_row-update_row_self oid (transitioned target broker_order_id last_error now)
                db.orders.rows before found in
            record {
              before = before;
              found = found;
              status = status;
              legal = legal;
              columns =
                  subst (IsMoved target broker_order_id last_error now before) (ground arith)
                    (transitioned-IsMoved target broker_order_id last_error now before);
              row = ap (λ t. get_row oid t) same ∙ here;
              others = λ j other.
                  ap (λ t. get_row j t) (same ∙ orders)
                  ∙ find_row-update_row_ne j oid
                      (transitioned target broker_order_id last_error now) db.orders.rows other;
            }
      ]
    ]

    -- An order that is not in the expected status, or is not there, makes a transition raise, and
    -- nothing is written.
    pub transition-stale :
        (db : Db F)
        → ((o : Order F) → get_row oid db.orders ≡ some o → ¬ o.status ≡ expected)
        → (e : Error) × (run db ≡ (err e, db))
    unfolding transition
    transition-stale db h = elim (Bool-cases (allowed expected target)) [
      | inr illegal ↦ (order_state_error "illegal order transition", ground arith)
      | inl legal ↦ elim (transition_managed_order-cases db) [
        | inl e ↦ (concurrent_order_update, unfold settle_transition in ground arith)
        | inr (before, found, status, _, _, _) ↦ absurd (h before found status)
      ]
    ]
