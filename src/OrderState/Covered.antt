-- ===== src/OrderState/Covered.antt =====
-- A buy fill that is reported as applied leaves the whole position under a live hard stop.
use hanstock_svc.Base.{
  ℕ, String, ◌≡◌, subst, true, false, ◌==◌, ◌||◌, not, Option, none, some, ℤ, Float, IsTable,
  get_row, Result, ok, err, arith, order_state_error,
}
use hanstock_svc.Base.Keeps.{Keeps, keeps_rules}
use hanstock_svc.Base.Inversion.{bind-ok, check-ok, check-passed}
use hanstock_svc.Schema.{Db, Protection, Order, OrderStatus, buy}
use hanstock_svc.Execution.{FillResult, apply_managed_fill, accepts_fill}
use hanstock_svc.Risk.{Protected}
use hanstock_svc.Protection.{ProtectionBroker, request_entry_fill, submit_requested}
use hanstock_svc.Protection.Frame.{Keeps-request_entry_fill, Keeps-submit_requested}
use hanstock_svc.Protection.Covered.{Stored, request_entry_fill-Stored, submit_requested-Stored}
use hanstock_svc.OrderState.Transitions.{require_order}
use hanstock_svc.OrderState.Settling.{SameLedger, SameLedger-IsPreorder, Keeps-finalize_reservation}
use hanstock_svc.OrderState.Broker.{Service}
use hanstock_svc.OrderState.Fills.{
  is_active_stop, has_stop_price, remaining_of, stop_of, require_full_protection, protect_buy,
  protect_side, needs_recovery, protect_fill, finalize_if_filled, apply_fill,
}
use hanstock_svc.OrderState.Authoritative.{after_booking, apply_fill-after_booking}

module _ {F : Type 0} ⦃fl : Float F⦄ where
  -- The position's protection is active for its whole open quantity.
  pub record Covered (pid : ℕ) (db : Db F) : Type 0 where
    pub gid : ℕ
    pub protection : Protection F
    pub row : get_row gid db.protections ≡ some protection
    pub owner : protection.position_id ≡ pid
    pub live : is_active_stop protection.status ≡ true
    pub whole : protection.protected_qty ≡ remaining_of (get_row pid db.positions)

  required :
      (pid : ℕ) (x : Protected F) (n : ℕ) (db db' : Db F)
      → Stored pid x db
      → n ≡ remaining_of (get_row pid db.positions)
      → require_full_protection (some x) n false db ≡ (ok tt, db')
      → Covered pid db'
  unfolding require_full_protection
  required pid x n db db' s e h =
      let (passed, same) =
        check-passed (not (is_active_stop x.1.status) || not (x.1.protected_qty == n))
          (order_state_error "position is not protected for its complete open quantity") db db' h in
      record {
        gid = x.0;
        protection = x.1;
        row = ground (arith, s.row);
        owner = s.owner;
        live = ground arith;
        whole = ground arith;
      }

  protect_buy-Covered :
      (pid : ℕ) (qty : ℤ) (broker : Option (ProtectionBroker F)) (now : String) (db db' : Db F)
      → IsTable db.protections
      → protect_buy pid qty broker now db ≡ (ok tt, db')
      → Covered pid db'
  unfolding protect_buy
  protect_buy-Covered pid qty none now db db' k h = absurd (ground arith)
  protect_buy-Covered pid qty (some broker) now db db' k h =
      let position = get_row pid db.positions in
      let (_, h1) =
        check-ok (not (has_stop_price position))
          (order_state_error "filled buy position has no hard stop price") _ db tt db' h in
      let (x, db1, e1, h2) =
        bind-ok (request_entry_fill pid qty (stop_of position) now) _ db tt db' h1 in
      let (y, db2, e2, h3) = bind-ok (submit_requested x broker false now) _ db1 tt db' h2 in
      let s1 = request_entry_fill-Stored pid qty (stop_of position) now db db1 x k e1 in
      let s2 = submit_requested-Stored pid x broker false now db1 db2 y s1 e2 in
      let k1 = (Keeps-request_entry_fill pid qty (stop_of position) now).at db in
      let k2 = (Keeps-submit_requested x broker false now).at db1 in
      required pid y (remaining_of position) db2 db' s2 (ground (arith, k1.positions, k2.positions))
        h3

  Keeps-require_order : (oid : ℕ) → Keeps (SameLedger {F = F}) (require_order oid)
  unfolding require_order
  Keeps-require_order oid = record { at = λ db. ground arith }

  Keeps-finalize_if_filled :
      (oid : ℕ) (status : OrderStatus) (now : String)
      → Keeps (SameLedger {F = F}) (finalize_if_filled oid status now)
  unfolding finalize_if_filled
  Keeps-finalize_if_filled oid status now =
      search (keeps_rules, SameLedger-IsPreorder, Keeps-require_order, Keeps-finalize_reservation)
        depth 8

  SameLedger-Covered :
      (pid : ℕ) (db db' : Db F) → SameLedger db db' → Covered pid db → Covered pid db'
  SameLedger-Covered pid db db' s c = record {
    gid = c.gid;
    protection = c.protection;
    row = ground (arith, s.protections, c.row);
    owner = c.owner;
    live = c.live;
    whole = ground (arith, s.positions, c.whole);
  }

  recovered :
      (x : Result (Unit {0}) × Db F) (db' : Db F)
      → needs_recovery x ≡ (ok tt, db')
      → x ≡ (ok tt, db')
  recovered (ok tt, db) db' h = h
  recovered (err e, db) db' h = absurd (ground arith)

  after_booking-Covered :
      (s : Service F) (oid : ℕ) (qty : ℤ) (res res' : FillResult) (now : String) (db db' : Db F)
      → IsTable db.protections
      → after_booking s buy oid qty res now db ≡ (ok res', db')
      → Covered res.position_id db'
  unfolding after_booking protect_fill protect_side
  after_booking-Covered s oid qty res res' now db db' k h =
      let (u, db1, e1, h1) =
        bind-ok (protect_fill buy res.position_id qty s.protection_broker now) _ db res' db' h in
      let bought =
        protect_buy-Covered res.position_id qty s.protection_broker now db db1 k
          (recovered (protect_buy res.position_id qty s.protection_broker now db) db1 e1) in
      let (v, db2, e2, h2) =
        bind-ok (finalize_if_filled oid res.order_status now) _ db1 res' db' h1 in
      let kept = (Keeps-finalize_if_filled oid res.order_status now).at db1 in
      SameLedger-Covered res.position_id db1 db' (subst (SameLedger db1) (ground arith) kept) bought

  -- A buy fill that `apply_fill` reports as applied leaves its position under a live hard stop:
  -- where the order accepts fills and the ledger books the fill, with distinct protection ids, a
  -- call that returns leaves a protection of this position that is active at the broker for exactly
  -- the position's open quantity.
  pub apply_fill-Covered :
      (s : Service F) (oid : ℕ) (qty : ℤ) (price : F) (payload key now : String)
      (db booked db' : Db F) (o : Order F) (res res' : FillResult)
      → get_row oid db.orders ≡ some o
      → accepts_fill o.status ≡ true
      → o.action ≡ buy
      → apply_managed_fill oid qty price payload key now db ≡ ok (res, booked)
      → IsTable booked.protections
      → apply_fill s oid qty price payload key now db ≡ (ok res', db')
      → Covered res.position_id db'
  apply_fill-Covered s oid qty price payload key now db booked db' o res res' h a b e k r =
      let same = apply_fill-after_booking s oid qty price payload key now db booked o res h a e in
      after_booking-Covered s oid qty res res' now booked db' k (ground (arith, same))
