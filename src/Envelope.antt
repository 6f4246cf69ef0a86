-- ===== src/Envelope.antt =====
-- src/strategy/autonomy/risk_envelope.py: the gate that sizes a trade, or refuses it.
mod Records
mod Reduction
mod Overflows
mod Checks
mod Rooms
mod Increase
pub mod Caps
pub mod Guards
pub mod Denials
pub mod Limits
pub mod Quantities
unfoldable pub use Records.*
unfoldable pub use Reduction.*
unfoldable pub use Overflows.*
unfoldable pub use Checks.*
unfoldable pub use Rooms.*
unfoldable pub use Increase.*
