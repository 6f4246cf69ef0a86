-- ===== src/OrderState/Runs.antt =====
-- Runs of the order service: any sequence of its methods, whoever calls them and whatever the
-- brokers answer (src/strategy/autonomy/order_state.py).
use hanstock_svc.Base.{ℕ, String, Option, List, [], ◌∷◌, ℤ, Float}
use hanstock_svc.Schema.{Db, Order, OrderStatus}
use hanstock_svc.OrderState.Transitions.{
  Clock, transition, mark_risk_approved, queue_approval, approve, reject, expire_if_due,
}
use hanstock_svc.OrderState.Broker.{Service, BrokerGateway, Authorization, submit, cancel}
use hanstock_svc.OrderState.Fills.{apply_fill}
use hanstock_svc.OrderState.Rows.{RowLaw, RowsKept, RowsKept-IsPreorder, Keeps-transition}
use hanstock_svc.OrderState.Methods.{
  Keeps-approve, Keeps-expire_if_due, Keeps-submit, Keeps-cancel, Keeps-apply_fill,
}

-- A call of one method.
pub data Call (F : Type 0) : Type 0 where
  call_mark_risk_approved : ℕ → Call F
  call_queue_approval : ℕ → Call F
  call_approve : ℕ → ℕ → OrderStatus → Call F
  call_reject : ℕ → OrderStatus → String → Call F
  call_expire_if_due : ℕ → OrderStatus → Call F
  call_transition :
      ℕ → OrderStatus → OrderStatus → String → String → Option String → Option String → Call F
  call_submit : ℕ → BrokerGateway F → Option Authorization → Call F
  call_cancel : ℕ → OrderStatus → Option (BrokerGateway F) → Call F
  call_apply_fill : ℕ → ℤ → F → String → String → Call F

module _ {F : Type 0} ⦃fl : Float F⦄ where
  -- The database after the call, whether it returned or raised.
  unfoldable pub run_call : Service F → Clock → Call F → Db F → Db F
  run_call s c (call_mark_risk_approved oid) db = (mark_risk_approved oid c.text db).1
  run_call s c (call_queue_approval oid) db = (queue_approval oid c.text db).1
  run_call s c (call_approve oid aid expected) db = (approve oid aid expected c.text db).1
  run_call s c (call_reject oid expected reason) db = (reject oid expected reason c.text db).1
  run_call s c (call_expire_if_due oid expected) db = (expire_if_due oid expected c db).1
  run_call s c (call_transition oid expected target reason payload bid e) db =
      (transition oid expected target reason payload bid e c.text db).1
  run_call s c (call_submit oid broker a) db = (submit s oid broker a c db).1
  run_call s c (call_cancel oid expected broker) db = (cancel oid expected broker c.text db).1
  run_call s c (call_apply_fill oid qty price payload key) db =
      (apply_fill s oid qty price payload key c.text db).1

  unfoldable pub run_calls : Service F → Db F → List (Clock × Call F) → Db F
  run_calls s db [] = db
  run_calls s db ((c, x) ∷ xs) = run_calls s (run_call s c x db) xs

module _ {F : Type 0} ⦃fl : Float F⦄ {E : Order F → Order F → Type 0} (law : RowLaw E) where
  run_call-RowsKept :
      (s : Service F) (c : Clock) (x : Call F) (db : Db F) → RowsKept E db (run_call s c x db)
  unfolding run_call mark_risk_approved queue_approval reject
  run_call-RowsKept s c (call_mark_risk_approved oid) db =
      (Keeps-transition law _ _ _ _ _ _ _ c.text).at db
  run_call-RowsKept s c (call_queue_approval oid) db =
      (Keeps-transition law _ _ _ _ _ _ _ c.text).at db
  run_call-RowsKept s c (call_approve oid aid expected) db =
      (Keeps-approve law oid aid expected c.text).at db
  run_call-RowsKept s c (call_reject oid expected reason) db =
      (Keeps-transition law _ _ _ _ _ _ _ c.text).at db
  run_call-RowsKept s c (call_expire_if_due oid expected) db =
      (Keeps-expire_if_due law oid expected c).at db
  run_call-RowsKept s c (call_transition oid expected target reason payload bid e) db =
      (Keeps-transition law oid expected target reason payload bid e c.text).at db
  run_call-RowsKept s c (call_submit oid broker a) db = (Keeps-submit law s oid broker a c).at db
  run_call-RowsKept s c (call_cancel oid expected broker) db =
      (Keeps-cancel law oid expected broker c.text).at db
  run_call-RowsKept s c (call_apply_fill oid qty price payload key) db =
      (Keeps-apply_fill law s oid qty price payload key c.text).at db

  -- A run keeps what each of its calls keeps.
  pub run_calls-RowsKept :
      (s : Service F) (db : Db F) (xs : List (Clock × Call F)) → RowsKept E db (run_calls s db xs)
  unfolding run_calls
  run_calls-RowsKept s db [] = (RowsKept-IsPreorder law).stay db
  run_calls-RowsKept s db ((c, x) ∷ xs) =
      (RowsKept-IsPreorder law).chain db (run_call s c x db) _ (run_call-RowsKept s c x db)
        (run_calls-RowsKept s (run_call s c x db) xs)
