-- ===== src/Vpn.antt =====
-- VPN clients: internal/store/clients.go and internal/api/vpn.go.
pub mod Clients
pub mod Plan
pub mod PlanTier
pub mod Provision
pub mod Metering
pub mod Reconnect
mod Tests
