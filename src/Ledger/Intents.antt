-- ===== src/Ledger/Intents.antt =====
-- What an order is created from (src/application/orders/models.py).
use hanstock_svc.Base.{
  ℕ, String, Bool, ◌&&◌, ◌||◌, Option, ℤ, positive, not, str_eq, Float, Result, ok, value_error,
}
use hanstock_svc.Base.Results.{guard, require, raise_if, ◌>>=◌, ◌>>◌}
use hanstock_svc.Ledger.Records.{OrderSide, PyText}

-- What `OrderIntent` is made of, with the texts as they are given; a side that is neither "buy" nor
-- "sell" is no side.
pub record OrderIntent (F : Type 0) : Type 0 where
  pub client_order_key : String
  pub correlation_id : String
  pub symbol : String
  pub side : Option OrderSide
  pub quantity : ℤ
  pub price : F
  pub name : String
  pub account_key : String
  pub market : String
  pub order_type : String
  pub time_in_force : String
  pub strategy_id : Option String
  pub strategy_version : Option ℕ
  pub signal_id : Option String
  pub decision_id : Option ℕ
  pub approval_id : Option ℕ
  pub broker_order_id : Option String
  pub broker_order_date : Option String
  pub expires_at : Option String
  pub metadata : String

-- "DAY", "IOC", "FOK" and "GTC".
abbrev pub is_time_in_force : String → Bool
is_time_in_force t = str_eq t "DAY" || str_eq t "IOC" || str_eq t "FOK" || str_eq t "GTC"

module _ {F : Type 0} ⦃fl : Float F⦄ ⦃tx : PyText⦄ where
  -- `OrderIntent.__post_init__`, of a whole quantity.
  unfoldable pub check_intent : OrderIntent F → Result OrderSide
  check_intent i = do
    raise_if (str_eq (tx.strip i.client_order_key) "" || str_eq (tx.strip i.correlation_id) "")
        (value_error "client_order_key and correlation_id are required")
    side ← require i.side (value_error "side must be buy or sell")
    guard (positive i.quantity) (value_error "quantity must be a positive whole number")
    raise_if (str_eq (tx.strip i.symbol) "") (value_error "symbol is required")
    guard (fl.is_finite i.price && not (fl.lt i.price (fl.of_nat 0)))
        (value_error "price must be finite and non-negative")
    guard (is_time_in_force (tx.upper i.time_in_force)) (value_error "unsupported time_in_force")
    ok side
