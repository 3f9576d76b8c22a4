-- ===== src/Xp.antt =====
-- Experience points (internal/store/xp.go): an append-only list of events, and what each user has
-- earned, with the tier that it gives.
pub mod Award
pub mod Codes
pub mod Ledger
pub mod Redeeming
pub mod Referrals
pub mod Tiers
mod ReferralTests
