-- ===== src/Protection.antt =====
-- `HardStopProtectionService` of src/strategy/autonomy/protection.py. A method runs several
-- transactions, and what they committed stays when it raises. The broker is a parameter: what it
-- answers to each request, or that the call raised. Alerts are not modelled.
mod Requests
mod Reconcile
pub mod Frame
pub mod Gate
pub mod Covered
unfoldable pub use Requests.*
unfoldable pub use Reconcile.*
