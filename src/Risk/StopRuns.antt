-- ===== src/Risk/StopRuns.antt =====
-- Any run of fills and protection operations keeps every hard stop from moving down.
use hanstock_svc.Base.{
  ℕ, String, ◌≡◌, refl, false, Option, none, some, List, [], ◌∷◌, ◌==◌, ◌+◌, ◌-◌, inl, inr, ℤ,
  pos_part, Float, IsTable, coalesce, Result-cases, set_row, find_where-found, Result, ok, err,
  arith, subst, sym,
}
use hanstock_svc.Schema.{Db, Position, OrderAction, buy, sell}
use hanstock_svc.Execution.{
  find_protection, bought, sold, weighted, new_protection, re_requested, reduced, protect_bought,
  reduce_protection, book_buy, book_sell, book_side, record_fill, apply_managed_fill, FillResult,
}
use hanstock_svc.Execution.Booking.{new_fill-Passed, apply_managed_fill-cases}
use hanstock_svc.Risk.Protections.{
  Protected, request_position_protection, activate_position_protection, fail_position_protection,
  cancel_position_protection, request_position_protection_cancel,
}
use hanstock_svc.Risk.Stops.{
  StopsKept, StopsKept-refl, StopsKept-trans, StopsKept-set, StopsKept-insert, request-StopsKept,
  activate-StopsKept, fail-StopsKept, cancel-StopsKept, request_cancel-StopsKept,
}

-- The operations that write protections, with their arguments.
pub data Operation (F : Type 0) : Type 0 where
  fill : ℕ → ℤ → F → String → String → Operation F
  request : ℕ → ℤ → F → String → Operation F
  activate : ℕ → String → ℤ → F → String → Operation F
  fail : ℕ → String → String → Operation F
  cancel : ℕ → String → Operation F
  request_cancel : ℕ → String → Operation F

-- The database after a transaction: a raised error leaves it.
abbrev pub after : {F A : Type 0} → Db F → Result (A × Db F) → Db F
after db (ok (_, db')) = db'
after db (err _) = db

module _ {F : Type 0} ⦃fl : Float F⦄ where
  pub apply_operation : String → Db F → Operation F → Db F
  apply_operation now db (fill oid qty price payload key) =
      after db (apply_managed_fill oid qty price payload key now db)
  apply_operation now db (request pid qty stop reason) =
      after db (request_position_protection pid qty stop reason now db)
  apply_operation now db (activate gid order qty stop payload) =
      after db (activate_position_protection gid order qty stop payload now db)
  apply_operation now db (fail gid error payload) =
      after db (fail_position_protection gid error payload now db)
  apply_operation now db (cancel gid reason) =
      after db (cancel_position_protection gid reason now db)
  apply_operation now db (request_cancel gid reason) =
      after db (request_position_protection_cancel gid reason now db)

  -- Operations one after another, each at its own time.
  pub run_operations : Db F → List (String × Operation F) → Db F
  run_operations db [] = db
  run_operations db ((now, o) ∷ os) = run_operations (apply_operation now db o) os

  module _
      -- `<` on floats is irreflexive, and its negation is transitive where no NaN occurs.
      (lt_irrefl : (x : F) → fl.lt x x ≡ false)
      (not_lt_trans : (x y z : F) → fl.lt y x ≡ false → fl.lt z y ≡ false → fl.lt z x ≡ false) where
    protect_bought-StopsKept :
        (pid : ℕ) (p : Position F) (qty : ℕ) (stop : F) (now : String) (db db' : Db F)
        (o : Option (Protected F))
        → IsTable db.protections
        → find_protection pid db ≡ o
        → protect_bought pid p qty stop now db o ≡ ok db'
        → StopsKept db.protections db'.protections
    unfolding protect_bought
    protect_bought-StopsKept pid p qty stop now db db' none k e h =
        subst (StopsKept db.protections) (ground arith) (
          StopsKept-insert lt_irrefl not_lt_trans db.protections (new_protection pid p qty stop now)
            k)
    protect_bought-StopsKept pid p qty stop now db db' (some (gid, g)) k e h =
        subst (StopsKept db.protections) (ground arith) (
          StopsKept-set lt_irrefl not_lt_trans db.protections gid g (re_requested qty stop now) k
            (find_where-found (λ g. g.position_id == pid) gid g db.protections.rows k.0 e).0 refl
            (ground arith))

    reduce-StopsKept :
        (pid qty : ℕ) (now : String) (db : Db F) (o : Option (Protected F))
        → IsTable db.protections
        → find_protection pid db ≡ o
        → StopsKept db.protections (reduce_protection qty now db o).protections
    unfolding reduce_protection
    reduce-StopsKept pid qty now db none k e =
        StopsKept-refl lt_irrefl not_lt_trans db.protections k
    reduce-StopsKept pid qty now db (some (gid, g)) k e =
        (StopsKept-set lt_irrefl not_lt_trans db.protections gid g (reduced qty now) k
          (find_where-found (λ g. g.position_id == pid) gid g db.protections.rows k.0 e).0 refl
          (lt_irrefl g.current_stop_price))

    book_side-StopsKept :
        (action : OrderAction) (pid : ℕ) (p : Position F) (qty : ℕ) (price : F) (now : String)
        (db db1 : Db F) (remaining : ℕ)
        → IsTable db.protections
        → book_side action pid p qty price now db ≡ ok (db1, remaining)
        → StopsKept db.protections db1.protections
    unfolding book_side book_buy book_sell
    book_side-StopsKept buy pid p qty price now db db1 remaining k h =
        let paid = record db {
          positions =
              set_row pid
                (bought qty price
                  (weighted (coalesce p.average_price (fl.of_nat 0)) p.remaining_qty price qty) now)
                db.positions;
        } in
        let stop = coalesce p.current_stop_price (fl.of_nat 0) in
        elim (Result-cases
          (protect_bought pid p (p.remaining_qty + qty) stop now paid (find_protection pid paid))) [
            | inl (_, e) ↦ absurd (ground arith)
            | inr (db2, e) ↦
                let same : db2 ≡ db1 = ground arith in
                subst (λ (d : Db F). StopsKept db.protections d.protections) same
                  (protect_bought-StopsKept pid p (p.remaining_qty + qty) stop now paid db2
                    (find_protection pid paid) k refl e)
          ]
    book_side-StopsKept sell pid p qty price now db db1 remaining k h =
        let pnl = fl.mul (fl.sub price (coalesce p.average_price (fl.of_nat 0))) (fl.of_nat qty) in
        let paid = record db { positions = set_row pid (sold qty pnl now) db.positions } in
        let same : reduce_protection (p.remaining_qty - qty) now paid (find_protection pid paid)
            ≡ db1 =
          ground arith in
        subst (λ (d : Db F). StopsKept db.protections d.protections) same
          (reduce-StopsKept pid (p.remaining_qty - qty) now paid (find_protection pid paid) k refl)
    book_side-StopsKept (OrderAction.other _) pid p qty price now db db1 remaining k h = absurd (cc)

    fill-StopsKept :
        (oid : ℕ) (qty : ℤ) (price : F) (payload key now : String) (db db' : Db F)
        (res : FillResult)
        → IsTable db.protections
        → apply_managed_fill oid qty price payload key now db ≡ ok (res, db')
        → StopsKept db.protections db'.protections
    unfolding record_fill
    fill-StopsKept oid qty price payload key now db db' res k h =
        elim (apply_managed_fill-cases oid qty price payload key now db res db' h) [
          | inl same ↦
              subst (λ (d : Db F). StopsKept db.protections d.protections) (sym same)
                (StopsKept-refl lt_irrefl not_lt_trans db.protections k)
          | inr (order, here, booked) ↦
              let f =
                new_fill-Passed oid order (pos_part qty) price payload key now db res db' booked in
              subst (λ (d : Db F). StopsKept db.protections d.protections) (sym f.stored)
                (book_side-StopsKept order.action f.pid f.position (pos_part qty) price now db f.db1
                  f.remaining k f.booked)
        ]

    after-StopsKept :
        {A : Type 0} (db : Db F) (r : Result (A × Db F))
        → IsTable db.protections
        → ((a : A) (db' : Db F) → r ≡ ok (a, db') → StopsKept db.protections db'.protections)
        → StopsKept db.protections (after db r).protections
    after-StopsKept db (ok (a, db')) k h = h a db' refl
    after-StopsKept db (err _) k h = StopsKept-refl lt_irrefl not_lt_trans db.protections k

    apply_operation-StopsKept :
        (now : String) (db : Db F) (o : Operation F)
        → IsTable db.protections
        → StopsKept db.protections (apply_operation now db o).protections
    unfolding apply_operation
    apply_operation-StopsKept now db (fill oid qty price payload key) k =
        after-StopsKept db _ k
          (λ a db' e. fill-StopsKept oid qty price payload key now db db' a k e)
    apply_operation-StopsKept now db (request pid qty stop reason) k =
        after-StopsKept db _ k
          (λ a db' e. request-StopsKept lt_irrefl not_lt_trans pid qty stop reason now db db' a k e)
    apply_operation-StopsKept now db (activate gid order qty stop payload) k =
        after-StopsKept db _ k (λ a db' e.
          activate-StopsKept lt_irrefl not_lt_trans gid order qty stop payload now db db' a k e)
    apply_operation-StopsKept now db (fail gid error payload) k =
        after-StopsKept db _ k
          (λ a db' e. fail-StopsKept lt_irrefl not_lt_trans gid error payload now db db' a k e)
    apply_operation-StopsKept now db (cancel gid reason) k =
        after-StopsKept db _ k
          (λ a db' e. cancel-StopsKept lt_irrefl not_lt_trans gid reason now db db' a k e)
    apply_operation-StopsKept now db (request_cancel gid reason) k =
        after-StopsKept db _ k
          (λ a db' e. request_cancel-StopsKept lt_irrefl not_lt_trans gid reason now db db' a k e)

    -- Whatever fills and protection operations run, and whichever of them raise: every protection
    -- that is there at the start is there at the end, for the same position, and its stop has not
    -- moved down. (`<` is taken to be irreflexive with a transitive negation, as it is without NaN,
    -- and the ids of the protections to be distinct.)
    pub run_operations-StopsKept :
        (db : Db F) (os : List (String × Operation F))
        → IsTable db.protections
        → StopsKept db.protections (run_operations db os).protections
    unfolding run_operations
    run_operations-StopsKept db [] k = StopsKept-refl lt_irrefl not_lt_trans db.protections k
    run_operations-StopsKept db ((now, o) ∷ os) k =
        let one = apply_operation-StopsKept now db o k in
        StopsKept-trans lt_irrefl not_lt_trans db.protections (apply_operation now db o).protections
          (run_operations db ((now, o) ∷ os)).protections one
          (run_operations-StopsKept (apply_operation now db o) os one.keyed)
