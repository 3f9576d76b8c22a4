-- ===== src/Nodes.antt =====
-- Nodes and what organizations keep of them: internal/store/nodes.go, org_nodes.go,
-- registration_tokens.go, sentinel_licenses.go and provisioning.go.
pub mod State
pub mod Status
pub mod Services
pub mod Registration
pub mod Provisioning
pub mod Tokens
pub mod Handlers
pub mod Admission
pub mod Reports
pub mod TokenLife
pub mod Syncing
pub mod Enrollment
pub mod ServiceLimits
pub mod Keeping
pub mod Provisioned
mod Tests
