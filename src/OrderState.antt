-- ===== src/OrderState.antt =====
-- `ManagedOrderService` of src/strategy/autonomy/order_state.py: the compare-and-set order state
-- machine and its calls of the broker, the fill ledger and the hard-stop protection.
mod Transitions
mod Broker
mod Fills
pub mod Outcomes
pub mod Settling
pub mod Rows
pub mod Protecting
pub mod Methods
pub mod Runs
pub mod Final
pub mod Effects
pub mod Once
pub mod Authoritative
pub mod Covered
unfoldable pub use Transitions.*
unfoldable pub use Broker.*
unfoldable pub use Fills.*
