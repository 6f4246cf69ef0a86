-- ===== src/Risk.antt =====
-- src/db/ai_risk_repository.py: risk-budget reservations and hard-stop protections.
mod Reservations
mod Protections
mod Coverage
pub mod Budget
pub mod Stops
pub mod StopRuns
unfoldable pub use Reservations.*
unfoldable pub use Protections.*
unfoldable pub use Coverage.*
