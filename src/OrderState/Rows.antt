-- ===== src/OrderState/Rows.antt =====
-- A relation between the rows of an order that its legal moves and its fills have is kept by a
-- transition.
use hanstock_svc.Base.{
  ℕ, String, ◌≡◌, Bool, true, Option, some, ◌==◌, not, Float, Bool-cases, inl, inr, arith, get_row,
  set_row, find_row-update_row_ne, find_row-update_row_self, ==→eq, subst,
}
use hanstock_svc.Base.Actions.{Action}
use hanstock_svc.Base.Keeps.{IsPreorder, Keeps, Keeps-bind, Keeps-check_then, keeps_rules}
use hanstock_svc.Schema.{Db, Order, OrderStatus}
use hanstock_svc.Execution.{transitioned, transition_managed_order, accepts_fill, filled_order}
use hanstock_svc.Protection.Frame.{SameBooks}
use hanstock_svc.OrderState.Settling
use hanstock_svc.OrderState.Settling.{SameLedger, transition_managed_order-cases}
use hanstock_svc.OrderState.Transitions.{
  allowed, require_order, finalize_reservation, move, settle_transition, transition,
}

-- A relation between the rows of an order, before and after, that a legal move and a booked fill
-- have.
pub record RowLaw {F : Type 0} ⦃fl : Float F⦄ (E : Order F → Order F → Type 0) : Type 0 where
  pub stay : (o : Order F) → E o o
  pub chain : (o p q : Order F) → E o p → E p q → E o q
  pub move :
      (o : Order F) (target : OrderStatus) (broker_order_id last_error : Option String)
      (now : String)
      → allowed o.status target ≡ true
      → E o (transitioned target broker_order_id last_error now o)
  pub fill :
      (o : Order F) (qty : ℕ) (average : F) (now : String)
      → accepts_fill o.status ≡ true
      → E o (filled_order qty average now o)

-- Every order is there afterwards, with a row that is so related to the one before.
pub record RowsKept {F : Type 0} (E : Order F → Order F → Type 0) (db db' : Db F) : Type 0 where
  pub kept :
      (oid : ℕ) (o : Order F)
      → get_row oid db.orders ≡ some o
      → (o' : Order F) × (get_row oid db'.orders ≡ some o') × E o o'

module _ {F : Type 0} ⦃fl : Float F⦄ {E : Order F → Order F → Type 0} (law : RowLaw E) where
  pub RowsKept-IsPreorder : IsPreorder (RowsKept E)
  RowsKept-IsPreorder = record {
    stay = λ s. record { kept = λ oid o e. (o, e, law.stay o) };
    chain = λ s t u a b. record {
      kept = λ oid o e.
          let (p, ep, x) = a.kept oid o e in
          let (q, eq, y) = b.kept oid p ep in (q, eq, law.chain o p q x y);
    };
  }

  pub RowsKept-same : (db db' : Db F) → db'.orders ≡ db.orders → RowsKept E db db'
  RowsKept-same db db' h = record { kept = λ oid o e. (o, ground arith, law.stay o) }

  pub Keeps-SameBooks :
      {A : Type 0} {m : Action (Db F) A} → Keeps SameBooks m → Keeps (RowsKept E) m
  Keeps-SameBooks {m = m} k = record { at = λ db. RowsKept-same db (m db).1 (k.at db).orders }

  -- One row is changed, and is related to the row before.
  pub RowsKept-set :
      (db db' : Db F) (oid : ℕ) (o : Order F) (f : Order F → Order F)
      → get_row oid db.orders ≡ some o
      → E o (f o)
      → db'.orders ≡ set_row oid f db.orders
      → RowsKept E db db'
  RowsKept-set db db' oid o f e step h = record {
    kept = λ i x ex. elim (Bool-cases (i == oid)) [
      | inl here ↦
          let there = find_row-update_row_self oid f db.orders.rows o e in
          let same : i ≡ oid = ==→eq i oid here in
          (f o, ground arith, subst (λ y. E y (f o)) (ground arith) step)
      | inr other ↦ (x, ground (arith, find_row-update_row_ne i oid f db.orders.rows), law.stay x)
    ];
  }

  module _ (oid : ℕ) (expected target : OrderStatus) (reason payload : String)
      (broker_order_id last_error : Option String) (now : String) where
    Keeps-move :
        allowed expected target ≡ true
        → Keeps
            (RowsKept E)
            (move oid expected target reason payload broker_order_id last_error now)
    Keeps-move legal = record {
      at = λ db.
          elim (transition_managed_order-cases oid expected target reason payload broker_order_id
            last_error now db) [
              | inl e ↦
                  RowsKept-same db
                    (transition_managed_order oid expected target reason payload broker_order_id
                      last_error now db).1
                    (ground arith)
              | inr (o, e, same, _, orders, _) ↦
                  RowsKept-set db
                    (transition_managed_order oid expected target reason payload broker_order_id
                      last_error now db).1
                    oid o (transitioned target broker_order_id last_error now) e
                    (law.move o target broker_order_id last_error now (ground arith)) orders
            ];
    }

  pub Keeps-require_order : (oid : ℕ) → Keeps (RowsKept E) (require_order oid)
  unfolding require_order
  Keeps-require_order oid = record {
    at = λ db. RowsKept-same db (require_order oid db).1 (ground arith);
  }

  SameLedger-RowsKept :
      {A : Type 0} {m : Action (Db F) A} → Keeps SameLedger m → Keeps (RowsKept E) m
  SameLedger-RowsKept {m = m} k = record { at = λ db. RowsKept-same db (m db).1 (k.at db).orders }

  pub Keeps-finalize_reservation :
      (o : Order F) (status : OrderStatus) (reason now : String)
      → Keeps (RowsKept E) (finalize_reservation o status reason now)
  Keeps-finalize_reservation o status reason now =
      SameLedger-RowsKept (Settling.Keeps-finalize_reservation o status reason now)

  Keeps-settle_transition :
      (oid : ℕ) (target : OrderStatus) (reason now : String) (changed : Bool)
      → Keeps (RowsKept E) (settle_transition oid target reason now changed)
  unfolding settle_transition
  Keeps-settle_transition oid target reason now changed =
      search (keeps_rules, RowsKept-IsPreorder, Keeps-require_order, Keeps-finalize_reservation)

  pub Keeps-transition :
      (oid : ℕ) (expected target : OrderStatus) (reason payload : String)
      (broker_order_id last_error : Option String) (now : String)
      → Keeps
          (RowsKept E)
          (transition oid expected target reason payload broker_order_id last_error now)
  unfolding transition
  Keeps-transition oid expected target reason payload broker_order_id last_error now =
      Keeps-check_then RowsKept-IsPreorder (not (allowed expected target)) _ _ λ legal.
        Keeps-bind RowsKept-IsPreorder _ (settle_transition oid target reason now)
          (Keeps-move oid expected target reason payload broker_order_id last_error now
            (ground arith))
          (Keeps-settle_transition oid target reason now)
