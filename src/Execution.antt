-- ===== src/Execution.antt =====
-- src/db/ai_execution_repository.py: managed orders, strategy positions and the fill ledger.
mod Orders
mod Sides
mod Fills
pub mod Booking
pub mod Conservation
pub mod Replay
unfoldable pub use Orders.*
unfoldable pub use Sides.*
unfoldable pub use Fills.*
