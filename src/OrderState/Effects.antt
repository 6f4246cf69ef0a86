-- ===== src/OrderState/Effects.antt =====
-- What a legal transition of an order that has the expected status does.
use hanstock_svc.Base.{
  ℕ, String, ◌≡◌, Bool, true, false, Option, some, Float, Result, ok, arith, get_row,
  find_row-update_row_self, find_row-update_row_ne, ◌≢◌, ap, ◌∙◌,
}
use hanstock_svc.Schema.{Db, Order, OrderStatus, OrderStatus-discrete}
use hanstock_svc.Execution.{transitioned, transition_managed_order}
use hanstock_svc.OrderState.Transitions.{
  is_terminal, allowed, require_order, finalize_reservation, settle_transition, transition,
}
use hanstock_svc.OrderState.Outcomes.{IsMoved, transitioned-IsMoved}
use hanstock_svc.OrderState.Settling.{Keeps-finalize_reservation}

module _ {F : Type 0} ⦃fl : Float F⦄ where
  module _ (oid : ℕ) (expected target : OrderStatus) (reason payload : String)
      (broker_order_id last_error : Option String) (now : String) (db : Db F) (o : Order F)
      (found : get_row oid db.orders ≡ some o) (status : o.status ≡ expected)
      (legal : allowed expected target ≡ true) where
    abbrev moved : Bool × Db F
    moved =
        transition_managed_order oid expected target reason payload broker_order_id last_error now
          db

    abbrev run : Result (Order F) × Db F
    run = transition oid expected target reason payload broker_order_id last_error now db

    abbrev there : Order F
    there = transitioned target broker_order_id last_error now o

    moved-row : (moved.0 ≡ true) × (get_row oid moved.1.orders ≡ some there)
    unfolding transition_managed_order
    moved-row = elim (OrderStatus-discrete o.status expected) [
      | yes same ↦ (
        ground arith,
        ground (
          arith,
          find_row-update_row_self oid (transitioned target broker_order_id last_error now)
              db.orders.rows o found,
        ),
      )
      | no other ↦ absurd (other status)
    ]

    run-settle : run ≡ settle_transition oid target reason now true moved.1
    unfolding transition
    run-settle = let (changed, _) = moved-row in ground arith

    settle-orders : (settle_transition oid target reason now true moved.1).1.orders ≡ moved.1.orders
    unfolding settle_transition require_order
    settle-orders =
        let (_, row) = moved-row in
        let kept = (Keeps-finalize_reservation there target reason now).at moved.1 in
        ground (arith, kept.orders)

    -- The order has the new columns afterwards, also where settling its reservation raises.
    pub run-row : get_row oid run.1.orders ≡ some there
    run-row = let (_, row) = moved-row in ground (arith, run-settle, settle-orders)

    moved-others : (j : ℕ) → j ≢ oid → get_row j moved.1.orders ≡ get_row j db.orders
    unfolding transition_managed_order
    moved-others j other = elim (OrderStatus-discrete o.status expected) [
      | yes same ↦ ground (
        arith,
        find_row-update_row_ne j oid (transitioned target broker_order_id last_error now)
            db.orders.rows other,
      )
      | no different ↦ absurd (different status)
    ]

    run-others : (j : ℕ) → j ≢ oid → get_row j run.1.orders ≡ get_row j db.orders
    run-others j other =
        ap (λ r. get_row j r.1.orders) run-settle
        ∙ ap (λ t. get_row j t) settle-orders
        ∙ moved-others j other

    -- A transition that the table allows, of an order that has the expected status, takes effect,
    -- also where settling its reservation raises: afterwards the order's status is the target, it
    -- is dated, a given broker id and error replace the stored ones, the first submission and the
    -- first end are dated too, nothing else of it changed, and every other order is as it was.
    pub transition-row :
        ((o' : Order F) × (get_row oid run.1.orders ≡ some o')
          × IsMoved target broker_order_id last_error now o o')
        × ((j : ℕ) → j ≢ oid → get_row j run.1.orders ≡ get_row j db.orders)
    transition-row =
        ((there, run-row, transitioned-IsMoved target broker_order_id last_error now o), run-others)

    -- A move that does not end the order returns it.
    pub transition-returns : is_terminal target ≡ false → run ≡ (ok there, moved.1)
    transition-returns live =
        let (_, row) = moved-row in
        unfold settle_transition require_order finalize_reservation in ground (arith, run-settle)
