-- ===== src/OrderState/Authoritative.antt =====
-- A booked fill stands, whatever becomes of its protection.
use hanstock_svc.Base.{
  ℕ, String, ◌≡◌, refl, sym, subst, ◌∙◌, true, some, ℤ, Float, Error, Result, ok, err, arith,
  get_row,
}
use hanstock_svc.Base.Actions.{Action, pure, ◌>>◌}
use hanstock_svc.Base.Keeps.{IsPreorder, Keeps, keeps_rules}
use hanstock_svc.Schema.{Db, Order, OrderAction, OrderStatus}
use hanstock_svc.Execution.{apply_managed_fill, FillResult, accepts_fill}
use hanstock_svc.Protection.{Method}
use hanstock_svc.Protection.Frame.{SameBooks}
use hanstock_svc.OrderState.Transitions.{require_order, finalize_reservation}
use hanstock_svc.OrderState.Broker.{Service}
use hanstock_svc.OrderState.Fills.{protect_fill, finalize_if_filled, apply_fill}
use hanstock_svc.OrderState.Settling.{SameLedger, Keeps-finalize_reservation}
use hanstock_svc.OrderState.Protecting.{Keeps-protect_fill}

module _ {F : Type 0} where
  -- Orders, fills and positions are the same.
  pub record SameFills (db db' : Db F) : Type 0 where
    pub orders : db'.orders ≡ db.orders
    pub fills : db'.fills ≡ db.fills
    pub positions : db'.positions ≡ db.positions

  SameFills-IsPreorder : IsPreorder SameFills
  SameFills-IsPreorder = record {
    stay = λ s. record { orders = refl; fills = refl; positions = refl };
    chain = λ s t u a b. record {
      orders = b.orders ∙ a.orders;
      fills = b.fills ∙ a.fills;
      positions = b.positions ∙ a.positions;
    };
  }

  SameBooks-SameFills : {A : Type 0} {m : Action (Db F) A} → Keeps SameBooks m → Keeps SameFills m
  SameBooks-SameFills {m = m} k = record {
    at = λ db. record {
      orders = (k.at db).orders;
      fills = (k.at db).fills;
      positions = (k.at db).positions;
    };
  }

  SameLedger-SameFills : {A : Type 0} {m : Action (Db F) A} → Keeps SameLedger m → Keeps SameFills m
  SameLedger-SameFills {m = m} k = record {
    at = λ db. record {
      orders = (k.at db).orders;
      fills = (k.at db).fills;
      positions = (k.at db).positions;
    };
  }

module _ {F : Type 0} ⦃fl : Float F⦄ where
  Keeps-require_order : (oid : ℕ) → Keeps (SameFills {F = F}) (require_order oid)
  unfolding require_order
  Keeps-require_order oid = record { at = λ db. ground arith }

  Keeps-finalize :
      (o : Order F) (status : OrderStatus) (reason now : String)
      → Keeps (SameFills {F = F}) (finalize_reservation o status reason now)
  Keeps-finalize o status reason now =
      SameLedger-SameFills (Keeps-finalize_reservation o status reason now)

  Keeps-finalize_if_filled :
      (oid : ℕ) (status : OrderStatus) (now : String)
      → Keeps (SameFills {F = F}) (finalize_if_filled oid status now)
  unfolding finalize_if_filled
  Keeps-finalize_if_filled oid status now =
      search (keeps_rules, SameFills-IsPreorder, Keeps-require_order, Keeps-finalize) depth 8

  -- What `apply_fill` does once the fill is booked.
  unfoldable pub after_booking :
      Service F → OrderAction → ℕ → ℤ → FillResult → String → Method F FillResult
  after_booking s action oid qty res now = do
    protect_fill action res.position_id qty s.protection_broker now
    finalize_if_filled oid res.order_status now
    pure res

  Keeps-after_booking :
      (s : Service F) (action : OrderAction) (oid : ℕ) (qty : ℤ) (res : FillResult) (now : String)
      → Keeps (SameFills {F = F}) (after_booking s action oid qty res now)
  unfolding after_booking
  Keeps-after_booking s action oid qty res now =
      search
        (
          keeps_rules, SameFills-IsPreorder, Keeps-finalize_if_filled, SameBooks-SameFills,
          Keeps-protect_fill,
        )
        depth 8

  pub apply_fill-after_booking :
      (s : Service F) (oid : ℕ) (qty : ℤ) (price : F) (payload key now : String) (db db' : Db F)
      (o : Order F) (res : FillResult)
      → get_row oid db.orders ≡ some o
      → accepts_fill o.status ≡ true
      → apply_managed_fill oid qty price payload key now db ≡ ok (res, db')
      → apply_fill s oid qty price payload key now db ≡ after_booking s o.action oid qty res now db'
  unfolding apply_fill require_order after_booking
  apply_fill-after_booking s oid qty price payload key now db db' o res h a b = ground arith

  -- The fill of an order that accepts fills is authoritative: once the ledger books it, the orders,
  -- the fills and the positions after `apply_fill` are those of the booking, whatever the
  -- protection broker answers, and whether `apply_fill` returns or raises.
  pub apply_fill-authoritative :
      (s : Service F) (oid : ℕ) (qty : ℤ) (price : F) (payload key now : String) (db db' : Db F)
      (o : Order F) (res : FillResult)
      → get_row oid db.orders ≡ some o
      → accepts_fill o.status ≡ true
      → apply_managed_fill oid qty price payload key now db ≡ ok (res, db')
      → SameFills db' (apply_fill s oid qty price payload key now db).1
  apply_fill-authoritative s oid qty price payload key now db db' o res h a b =
      subst (λ (r : Result FillResult × Db F). SameFills db' r.1)
        (sym (apply_fill-after_booking s oid qty price payload key now db db' o res h a b))
        ((Keeps-after_booking s o.action oid qty res now).at db')

  after_booking-raises :
      (s : Service F) (action : OrderAction) (oid : ℕ) (qty : ℤ) (res : FillResult) (now : String)
      (db : Db F) (why : Error)
      → (protect_fill action res.position_id qty s.protection_broker now db).0 ≡ err why
      → after_booking s action oid qty res now db
        ≡ (err why, (protect_fill action res.position_id qty s.protection_broker now db).1)
  unfolding after_booking
  after_booking-raises s action oid qty res now db why h = ground arith

  -- Where the protection of a booked fill fails, `apply_fill` raises and no reservation is settled:
  -- the orders and the reservations are as the booking left them, also when the fill was the
  -- order's last.
  pub apply_fill-unsettled :
      (s : Service F) (oid : ℕ) (qty : ℤ) (price : F) (payload key now : String) (db db' : Db F)
      (o : Order F) (res : FillResult) (why : Error)
      → get_row oid db.orders ≡ some o
      → accepts_fill o.status ≡ true
      → apply_managed_fill oid qty price payload key now db ≡ ok (res, db')
      → (protect_fill o.action res.position_id qty s.protection_broker now db').0 ≡ err why
      → ((apply_fill s oid qty price payload key now db).0 ≡ err why)
        × ((apply_fill s oid qty price payload key now db).1.orders ≡ db'.orders)
        × ((apply_fill s oid qty price payload key now db).1.reservations ≡ db'.reservations)
  apply_fill-unsettled s oid qty price payload key now db db' o res why h a b p =
      let booked = apply_fill-after_booking s oid qty price payload key now db db' o res h a b in
      let raised = after_booking-raises s o.action oid qty res now db' why p in
      let kept = (Keeps-protect_fill o.action res.position_id qty s.protection_broker now).at db' in
      (
        ground (arith, booked, raised),
        ground (arith, booked, raised, kept.orders),
        ground (arith, booked, raised, kept.reservations),
      )
