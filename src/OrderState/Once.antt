-- ===== src/OrderState/Once.antt =====
-- An order is submitted once.
use hanstock_svc.Base.{
  List, ℕ, String, ◌≡◌, Bool, true, false, ◌&&◌, not, Option, none, some, Float, Error, Result, ok,
  err, order_state_error, inl, inr, arith, get_row, Bool-cases, Result-cases, refl,
}
use hanstock_svc.Schema.{
  Db, Order, OrderStatus, approved, submitting, broker_unknown, expired, same_status,
}
use hanstock_svc.Execution.{transitioned}
use hanstock_svc.Protection.{or_text}
use hanstock_svc.OrderState.Transitions.{
  Clock, require_order, transition, expire_if_due, allowed, parse_time, is_due,
}
use hanstock_svc.OrderState.Broker.{
  Service, BrokerGateway, BrokerSubmission, Authorization, submit, claim_and_submit,
  settle_submission, submission_target, submission_error, target_text, is_authorized, is_buy_order,
  has_hard_stops,
}
use hanstock_svc.OrderState.Runs.{Call, run_calls}
use hanstock_svc.OrderState.Final.{is_claimed, run_calls-claimed}
use hanstock_svc.OrderState.Effects.{run-row, transition-returns}

submission_target-legal :
    (r : BrokerSubmission)
    → (allowed submitting (submission_target r) ≡ true) × (is_claimed (submission_target r) ≡ true)
unfolding submission_target allowed
submission_target-legal r = (ground arith, ground arith)

claimed-unapproved : (a : OrderStatus) → is_claimed a ≡ true → same_status a approved ≡ false
claimed-unapproved a h = ground arith

module _ {F : Type 0} ⦃fl : Float F⦄ where
  -- The order is there, past its approval.
  record PastApproval (oid : ℕ) (db : Db F) : Type 0 where
    row : Order F
    found : get_row oid db.orders ≡ some row
    left : is_claimed row.status ≡ true

  module _ (oid : ℕ) (o : Order F) (now : String) where
    settle_submission-PastApproval :
        (db : Db F) (r : Result BrokerSubmission)
        → get_row oid db.orders ≡ some o
        → o.status ≡ submitting
        → PastApproval oid (settle_submission oid r now db).1
    unfolding settle_submission allowed
    settle_submission-PastApproval db (err e) h s = record {
      row = _;
      found =
          run-row oid submitting broker_unknown "broker submission outcome unknown" "exception_type"
            none (some "broker submission raised") now db o h s refl;
      left = ground arith;
    }
    settle_submission-PastApproval db (ok r) h s =
        let (legal, other) = submission_target-legal r in
        record {
          row = _;
          found =
              run-row oid submitting (submission_target r)
                (or_text r.reason (target_text (submission_target r))) r.payload r.broker_order_id
                (submission_error r) now db o h s legal;
          left = other;
        }

  claim_and_submit-PastApproval :
      (oid : ℕ) (o : Order F) (now : String) (db : Db F) (broker : BrokerGateway F)
      → get_row oid db.orders ≡ some o
      → o.status ≡ approved
      → PastApproval oid (claim_and_submit oid broker now db).1
  unfolding claim_and_submit allowed
  claim_and_submit-PastApproval oid o now db broker h s =
      let there = transitioned submitting none none now o in
      let returns =
        transition-returns oid approved submitting "exclusive broker submission claimed" "{}" none
          none now db o h s refl refl in
      let row =
        run-row oid approved submitting "exclusive broker submission claimed" "{}" none none now db
          o h s refl in
      rw returns (
        settle_submission-PastApproval oid there now _ (broker.submit_order there)
          (ground (arith, row, returns)) refl)

  expire-due :
      (oid : ℕ) (o : Order F) (c : Clock) (e : Option ℕ) (db : Db F)
      → get_row oid db.orders ≡ some o
      → o.status ≡ approved
      → parse_time c o.expires_at ≡ ok e
      → is_due c e ≡ true
      → get_row oid (expire_if_due oid approved c db).1.orders
          ≡ some (transitioned expired none none c.text o)
        × ((x : Bool) → (expire_if_due oid approved c db).0 ≡ ok x → x ≡ true)
  unfolding expire_if_due require_order allowed
  expire-due oid o c e db h s p d =
      let moved =
        transition oid approved expired "order validity window expired" "{}" none none c.text db in
      let row =
        run-row oid approved expired "order validity window expired" "{}" none none c.text db o h s
          refl in
      elim (Result-cases moved.0) [
        | inl (why, bad) ↦ (ground arith, λ x z. ground arith)
        | inr (x, fine) ↦ (ground arith, λ x z. ground arith)
      ]

  expire-early :
      (oid : ℕ) (o : Order F) (c : Clock) (e : Option ℕ) (db : Db F)
      → get_row oid db.orders ≡ some o
      → parse_time c o.expires_at ≡ ok e
      → is_due c e ≡ false
      → expire_if_due oid approved c db ≡ (ok false, db)
  unfolding expire_if_due require_order
  expire-early oid o c e db h p d = ground arith

  submit-PastApproval :
      (s : Service F) (oid : ℕ) (o : Order F) (broker : BrokerGateway F) (a : Option Authorization)
      (c : Clock) (e : Option ℕ) (db : Db F)
      → get_row oid db.orders ≡ some o
      → o.status ≡ approved
      → is_authorized s oid o a ≡ true
      → (is_buy_order o.action && not (has_hard_stops s)) ≡ false
      → parse_time c o.expires_at ≡ ok e
      → PastApproval oid (submit s oid broker a c db).1
  unfolding submit require_order
  submit-PastApproval s oid o broker a c e db h st au hs p = elim (Bool-cases (is_due c e)) [
    | inl due ↦
        let (row, only) = expire-due oid o c e db h st p due in
        elim (Result-cases (expire_if_due oid approved c db).0) [
          | inl (why, bad) ↦ record {
            row = transitioned expired none none c.text o;
            found = ground arith;
            left = ground arith;
          }
          | inr (x, fine) ↦
              let yes_gone = only x fine in
              record {
                row = transitioned expired none none c.text o;
                found = ground arith;
                left = ground arith;
              }
        ]
    | inr early ↦
        let claimed = claim_and_submit-PastApproval oid o c.text db broker h st in
        record {
          row = claimed.row;
          found = ground (arith, claimed.found, expire-early oid o c e db h p early);
          left = claimed.left;
        }
  ]

  submit-again :
      (s : Service F) (oid : ℕ) (broker : BrokerGateway F) (a : Option Authorization) (c : Clock)
      (db : Db F)
      → PastApproval oid db
      → (why : Error) × (submit s oid broker a c db ≡ (err why, db))
  unfolding submit require_order
  submit-again s oid broker a c db l =
      let record { row = x; found = h; left = st } = l in
      let other = claimed-unapproved x.status st in
      elim (Bool-cases (is_authorized s oid x a)) [
        | inl fine ↦ (order_state_error "only approved orders may be submitted", ground arith)
        | inr bad ↦
            (order_state_error "execution coordinator authorization is required", ground arith)
      ]

  run_calls-PastApproval :
      (s : Service F) (oid : ℕ) (db : Db F) (xs : List (Clock × Call F))
      → PastApproval oid db
      → PastApproval oid (run_calls s db xs)
  run_calls-PastApproval s oid db xs l =
      let (o', here, past) = run_calls-claimed s db xs oid l.row l.found l.left in
      record { row = o'; found = here; left = past }

  -- A submission that passes its checks (the order is there and approved, the caller holds the
  -- authorization for it, a buy has a hard-stop broker, the expiry can be read) uses the order up:
  -- whatever the broker answers, also where its call or the settling raises, and whatever calls of
  -- the service follow, every later `submit` of the order, with any authorization, broker and
  -- clock, raises and writes nothing.
  pub submit_once :
      (s : Service F) (oid : ℕ) (o : Order F) (broker : BrokerGateway F) (a : Option Authorization)
      (c : Clock) (e : Option ℕ) (db : Db F)
      → get_row oid db.orders ≡ some o
      → o.status ≡ approved
      → is_authorized s oid o a ≡ true
      → (is_buy_order o.action && not (has_hard_stops s)) ≡ false
      → parse_time c o.expires_at ≡ ok e
      → (xs : List (Clock × Call F)) (s' : Service F) (broker' : BrokerGateway F)
        (a' : Option Authorization) (c' : Clock)
      → (why : Error) × (submit s' oid broker' a' c' (run_calls s (submit s oid broker a c db).1 xs)
          ≡ (err why, run_calls s (submit s oid broker a c db).1 xs))
  submit_once s oid o broker a c e db h st au hs p xs s' broker' a' c' =
      submit-again s' oid broker' a' c' (run_calls s (submit s oid broker a c db).1 xs) (
        run_calls-PastApproval s oid (submit s oid broker a c db).1 xs
          (submit-PastApproval s oid o broker a c e db h st au hs p))
