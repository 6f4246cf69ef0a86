-- ===== src/Ledger.antt =====
-- src/application/orders: the unified order ledger.
mod Records
mod Statuses
mod Intents
mod Moves
mod Costs
mod Projection
mod Words
mod Snapshots
mod Alignment
mod Capacity
mod Recovery
pub mod Steps
pub mod SnapshotSteps
pub mod AlignSteps
pub mod Runs
pub mod Rows
pub mod Final
pub mod Audit
pub mod AuditRuns
pub mod Totals
pub mod Positions
pub mod PositionRuns
pub mod Replays
pub mod Repeats
pub mod Filled
pub mod Closing
pub mod Waiting
pub mod Grants
pub mod Room
pub mod Spending
pub mod RecoveryRuns
unfoldable pub use Records.*
unfoldable pub use Statuses.*
unfoldable pub use Intents.*
unfoldable pub use Moves.*
unfoldable pub use Costs.*
unfoldable pub use Projection.*
unfoldable pub use Words.*
unfoldable pub use Snapshots.*
unfoldable pub use Alignment.*
unfoldable pub use Capacity.*
unfoldable pub use Recovery.*
