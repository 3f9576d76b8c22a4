-- ===== src/Orgs.antt =====
-- Organizations: their plans, seats, members, invitations and ownership (internal/store/orgs.go,
-- entitlements.go, org_invites.go, account_invites.go).
pub mod Plans
pub mod Seats
pub mod Members
pub mod Invites
pub mod Lifecycle
pub mod Handlers
pub mod Authority
pub mod Slug
mod SeatLimits
mod Joining
mod PlanChange
mod Ownership
mod OwnershipTransfer
pub mod Samples
mod Tests
mod HandlerTests
mod SlugShape
