-- ===== src/OrderState/Broker.antt =====
-- Submitting and cancelling through the broker (src/strategy/autonomy/order_state.py). The broker
-- is a parameter: what it answers for an order, or that the call raised.
use hanstock_svc.Base.{
  ℕ, String, Bool, true, false, ◌&&◌, ◌||◌, Option, none, some, ◌==◌, ltb, not, if◌then◌else◌,
  Float, Result, ok, err, order_state_error,
}
use hanstock_svc.Base.Actions.{pure, raise, check_not, ◌>>=◌, ◌>>◌}
use hanstock_svc.Schema.{
  Order, OrderAction, OrderStatus, same_status, buy, approved, submitting, submitted,
  partially_filled, rejected, canceled, cancel_pending, broker_unknown,
}
use hanstock_svc.Protection.{Method, ProtectionBroker, or_text, has_order}
use hanstock_svc.OrderState.Transitions.{
  Clock, require_order, transition, approval_of, expire_if_due,
}

pub record BrokerSubmission : Type 0 where
  pub accepted : Bool
  pub broker_order_id : Option String
  pub payload : String
  pub reason : String
  pub outcome_unknown : Bool

pub record BrokerCancellation : Type 0 where
  pub accepted : Bool
  pub payload : String
  pub reason : String
  pub outcome_unknown : Bool

-- The `BrokerGateway` protocol.
pub record BrokerGateway (F : Type 0) : Type 0 where
  pub submit_order : Order F → Result BrokerSubmission
  pub cancel_order : Order F → Result BrokerCancellation

-- `_ExecutionAuthorization`; a secret is known by its identity.
pub record Authorization : Type 0 where
  pub order_id : ℕ
  pub approval_id : ℕ
  pub secret : ℕ

-- What the service holds beside the repository.
pub record Service (F : Type 0) : Type 0 where
  pub execution_secret : ℕ
  pub protection_broker : Option (ProtectionBroker F)

-- Where a submission that returned leaves the order.
unfoldable pub submission_target : BrokerSubmission → OrderStatus
submission_target r =
    if r.outcome_unknown || (r.accepted && not (has_order r.broker_order_id))
    then broker_unknown
    else if r.accepted && has_order r.broker_order_id
    then submitted
    else rejected

-- `target.value`, for the targets of a submission.
abbrev pub target_text : OrderStatus → String
target_text submitted = "submitted"
target_text rejected = "rejected"
target_text _ = "broker_unknown"

abbrev pub submission_error : BrokerSubmission → Option String
submission_error r =
    if same_status (submission_target r) submitted
    then none
    else some (or_text r.reason "broker did not provide a conclusive order result")

-- The statuses from which a cancellation goes through the broker.
unfoldable pub cancels_at_broker : OrderStatus → Bool
cancels_at_broker submitted = true
cancels_at_broker submitting = true
cancels_at_broker partially_filled = true
cancels_at_broker broker_unknown = true
cancels_at_broker _ = false

abbrev pub is_buy_order : OrderAction → Bool
is_buy_order buy = true
is_buy_order _ = false

-- Where a cancellation that returned leaves the order.
unfoldable pub cancellation_target : BrokerCancellation → ℕ → OrderStatus
cancellation_target r filled_qty =
    if r.outcome_unknown
    then broker_unknown
    else if r.accepted
    then canceled
    else if ltb 0 filled_qty
    then partially_filled
    else submitted

module _ {F : Type 0} ⦃fl : Float F⦄ where
  -- The capability that `submit` wants, for this order and its approval.
  abbrev pub is_authorized : Service F → ℕ → Order F → Option Authorization → Bool
  is_authorized s order_id o none = false
  is_authorized s order_id o (some a) =
      (a.secret == s.execution_secret)
      && (a.order_id == order_id)
      && (approval_of o == a.approval_id)

  abbrev pub has_hard_stops : Service F → Bool
  has_hard_stops s = elim s.protection_broker [ none ↦ false | some b ↦ b.supports_hard_stops ]

  -- `_authorize_execution`
  unfoldable pub authorize_execution : Service F → ℕ → ℕ → Method F Authorization
  authorize_execution s order_id approval_id = do
    o ← require_order order_id
    check_not (not (same_status o.status approved && (approval_of o == approval_id)))
        (order_state_error "managed order is not canonically approved")
    pure record { order_id = order_id; approval_id = approval_id; secret = s.execution_secret }

  -- What follows the broker's answer to a submission.
  unfoldable pub settle_submission : ℕ → Result BrokerSubmission → String → Method F (Order F)
  settle_submission order_id (err _) now =
      transition order_id submitting broker_unknown "broker submission outcome unknown"
        "exception_type" none (some "broker submission raised") now
  settle_submission order_id (ok r) now =
      transition order_id submitting (submission_target r)
        (or_text r.reason (target_text (submission_target r))) r.payload r.broker_order_id
        (submission_error r) now

  -- The claim of the submission, and the call of the broker.
  unfoldable pub claim_and_submit : ℕ → BrokerGateway F → String → Method F (Order F)
  claim_and_submit order_id broker now = do
    claimed ←
        transition order_id approved submitting "exclusive broker submission claimed" "{}" none none
          now
    settle_submission order_id (broker.submit_order claimed) now

  unfoldable pub submit :
      Service F → ℕ → BrokerGateway F → Option Authorization → Clock → Method F (Order F)
  submit s order_id broker authorization c = do
    o ← require_order order_id
    check_not (not (is_authorized s order_id o authorization))
        (order_state_error "execution coordinator authorization is required")
    check_not (not (same_status o.status approved))
        (order_state_error "only approved orders may be submitted")
    check_not (is_buy_order o.action && not (has_hard_stops s))
        (order_state_error "buy submission requires an available hard-stop protection broker")
    gone ← expire_if_due order_id approved c
    if gone then require_order order_id else claim_and_submit order_id broker c.text

  unfoldable pub settle_cancellation :
      ℕ → Order F → Result BrokerCancellation → String → Method F (Order F)
  settle_cancellation order_id o (err _) now =
      transition order_id cancel_pending broker_unknown "broker cancellation outcome unknown"
        "exception_type" none (some "broker cancellation raised") now
  settle_cancellation order_id o (ok r) now =
      transition order_id cancel_pending (cancellation_target r o.filled_qty)
        (or_text r.reason "broker cancellation") r.payload none none now

  unfoldable pub cancel_at_broker :
      ℕ → OrderStatus → Option (BrokerGateway F) → String → Method F (Order F)
  cancel_at_broker order_id expected none now =
      raise (order_state_error "broker gateway is required to cancel a submitted order")
  cancel_at_broker order_id expected (some broker) now = do
    claimed ←
        transition order_id expected cancel_pending "exclusive broker cancellation claimed" "{}"
          none none now
    settle_cancellation order_id claimed (broker.cancel_order claimed) now

  unfoldable pub cancel : ℕ → OrderStatus → Option (BrokerGateway F) → String → Method F (Order F)
  cancel order_id expected broker now = do
    require_order order_id
    if cancels_at_broker expected
        then cancel_at_broker order_id expected broker now
        else transition order_id expected canceled "order canceled before broker submission" "{}"
            none none now
