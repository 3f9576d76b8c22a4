-- ===== src/Model/Org.antt =====
-- Organizations, their plans, seats, roles and members (internal/store/models.go).
-- Identifiers are UUIDs, that is 128-bit numbers, and the program only compares them. A value of a
-- text column that the program always draws from a group of constants is a data type.
use Prim.Native.String.{String}
use erebrus_gateway.Base.{ℕ, Bool}
use erebrus_gateway.Base.Text.{Text}

-- plan, of an organization
pub data Plan : Type 0 where
  basic starter pro business enterprise : Plan

pub data BillingStatus : Type 0 where
  active past_due canceled trialing : BillingStatus

pub data VerificationStatus : Type 0 where
  unverified verified rejected : VerificationStatus

pub data Role : Type 0 where
  owner node_operator member : Role

-- The seat tiers and the Drop tiers, which have the same names.
pub data Tier : Type 0 where
  free starter pro business enterprise : Tier

pub data MemberStatus : Type 0 where
  active invited suspended removed : MemberStatus

pub data InviteStatus : Type 0 where
  pending accepted revoked : InviteStatus

pub record Org : Type 0 where
  pub name : Text
  pub slug : Text
  pub plan : Plan
  pub billing_status : BillingStatus
  pub verification_status : VerificationStatus
  pub public_profile_enabled : Bool
  pub owner_user : ℕ

-- A row of org_members; (org, user) is unique.
pub record Member : Type 0 where
  pub org : ℕ
  pub user : ℕ
  pub role : Role
  pub seat_tier : Tier
  pub status : MemberStatus

-- A row of org_invites; (org, email) is unique.
pub record OrgInvite : Type 0 where
  pub org : ℕ
  pub email : Text
  pub role : Role
  pub seat_tier : Tier
  pub status : InviteStatus

-- The limits that a plan gives (PlanEntitlementTemplate, org_entitlements).
pub record OrgEntitlement : Type 0 where
  pub plan : Plan
  pub paid_seats_included : ℕ
  pub managed_vpn_nodes_included : ℕ
  pub shield_instances_included : ℕ
  pub sentinel_licenses_included : ℕ
  pub public_node_access_tier : String
  pub support_tier : String
  pub audit_logs_enabled : Bool
  pub advanced_analytics_enabled : Bool
