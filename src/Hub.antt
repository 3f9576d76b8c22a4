-- ===== src/Hub.antt =====
-- The node hub (internal/nodehub/hub.go): the live connections of nodes and what they report.
pub mod Region
pub mod Connections
pub mod Counts
pub mod Connecting
pub mod History
pub mod Sessions
pub mod Gateway
pub mod Liveness
mod Tests
mod GatewayTests
