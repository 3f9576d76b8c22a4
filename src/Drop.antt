-- ===== src/Drop.antt =====
-- Drop, the storage service (internal/store/drop.go, drop_files.go, drop_node.go and
-- internal/api/drop.go).
pub mod Tier
pub mod Quota
pub mod Upload
pub mod Deletion
pub mod Node
pub mod Maintenance
pub mod Access
pub mod Transfers
pub mod ReserveHandler
mod ReserveGuards
mod Serving
mod Settling
mod Outcomes
mod Charges
pub mod Accounting
pub mod Limits
pub mod Idempotence
pub mod PinSafety
pub mod Entitlement
pub mod Samples
mod Tests
mod HandlerTests
