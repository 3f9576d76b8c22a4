-- ===== src/Orgs/Plans.antt =====
-- Plans, seat tiers and the limits that a plan gives (internal/store/entitlements.go).
use Prim.Native.String.{String}
use text.Mathlib.Text.{◌==◌ as str_eq}
use erebrus_gateway.Base.{ℕ, Bool, true, false, not, ◌&&◌, ◌||◌, Option, none, some, leb, ltb}
use erebrus_gateway.Base.Table.{Table, lookup, insert, sum}
use erebrus_gateway.Base.Tx.{
  not_found, refused, Result, ok, err, Tx, ◌>>=◌, ◌>>◌, pure, get, modify, from_option, from_result,
}
use erebrus_gateway.Base.{if◌then◌else◌, ◌==◌}
use erebrus_gateway.Model.Org.{Plan, Role, Tier, MemberStatus, Member, OrgEntitlement}
use erebrus_gateway.Model.Db.{Db}
use erebrus_gateway.Drop.Tier.{tier_among, drop_tier_order}

-- normalizeOrgPlan
unfoldable pub normalize_org_plan : String → Result Plan
normalize_org_plan s =
    if str_eq s "basic"
    then ok Plan.basic
    else if str_eq s "starter"
    then ok Plan.starter
    else if str_eq s "pro"
    then ok Plan.pro
    else if str_eq s "business"
    then ok Plan.business
    else if str_eq s "enterprise"
    then ok Plan.enterprise
    else err refused

-- normalizeSeatTier: the seat tiers have the names of the Drop tiers.
unfoldable pub normalize_seat_tier : String → Result Tier
normalize_seat_tier s = elim (tier_among drop_tier_order s) [ none ↦ err refused | some t ↦ ok t ]

-- seatTierRank
unfoldable pub seat_tier_rank : Tier → ℕ
seat_tier_rank Tier.free = 0
seat_tier_rank Tier.starter = 1
seat_tier_rank Tier.pro = 2
seat_tier_rank Tier.business = 3
seat_tier_rank Tier.enterprise = 4

-- maxSeatTierForPlan
unfoldable pub max_seat_tier_for_plan : Plan → Tier
max_seat_tier_for_plan Plan.basic = Tier.free
max_seat_tier_for_plan Plan.starter = Tier.starter
max_seat_tier_for_plan Plan.pro = Tier.pro
max_seat_tier_for_plan Plan.business = Tier.business
max_seat_tier_for_plan Plan.enterprise = Tier.enterprise

-- ownerSeatTierForPlan
unfoldable pub owner_seat_tier_for_plan : Plan → Tier
owner_seat_tier_for_plan Plan.basic = Tier.free
owner_seat_tier_for_plan Plan.starter = Tier.starter
owner_seat_tier_for_plan Plan.pro = Tier.pro
owner_seat_tier_for_plan Plan.business = Tier.business
owner_seat_tier_for_plan Plan.enterprise = Tier.enterprise

-- planSeatTierForOrg: the plan of basic has no seats.
unfoldable pub plan_seat_tier_for_org : Plan → Option Tier
plan_seat_tier_for_org Plan.basic = none
plan_seat_tier_for_org Plan.starter = some Tier.starter
plan_seat_tier_for_org Plan.pro = some Tier.pro
plan_seat_tier_for_org Plan.business = some Tier.business
plan_seat_tier_for_org Plan.enterprise = some Tier.enterprise

abbrev pub is_free : Tier → Bool
is_free Tier.free = true
is_free _ = false

-- SeatTierAllowedForPlan
unfoldable pub seat_tier_allowed_for_plan : Plan → Tier → Bool
unfolding seat_tier_rank max_seat_tier_for_plan
seat_tier_allowed_for_plan plan t =
    if is_free t
    then true
    else ltb 0 (seat_tier_rank t)
      && leb (seat_tier_rank t) (seat_tier_rank (max_seat_tier_for_plan plan))

-- PlanEntitlementTemplates
unfoldable pub plan_entitlement_template : Plan → OrgEntitlement
plan_entitlement_template Plan.basic = record {
  plan = Plan.basic;
  paid_seats_included = 0;
  managed_vpn_nodes_included = 0;
  shield_instances_included = 0;
  sentinel_licenses_included = 0;
  public_node_access_tier = "free";
  support_tier = "community";
  audit_logs_enabled = false;
  advanced_analytics_enabled = false;
}
plan_entitlement_template Plan.starter = record {
  plan = Plan.starter;
  paid_seats_included = 1;
  managed_vpn_nodes_included = 0;
  shield_instances_included = 0;
  sentinel_licenses_included = 0;
  public_node_access_tier = "starter";
  support_tier = "standard";
  audit_logs_enabled = false;
  advanced_analytics_enabled = false;
}
plan_entitlement_template Plan.pro = record {
  plan = Plan.pro;
  paid_seats_included = 5;
  managed_vpn_nodes_included = 1;
  shield_instances_included = 1;
  sentinel_licenses_included = 0;
  public_node_access_tier = "pro";
  support_tier = "standard";
  audit_logs_enabled = false;
  advanced_analytics_enabled = false;
}
plan_entitlement_template Plan.business = record {
  plan = Plan.business;
  paid_seats_included = 25;
  managed_vpn_nodes_included = 3;
  shield_instances_included = 0;
  sentinel_licenses_included = 3;
  public_node_access_tier = "business";
  support_tier = "priority";
  audit_logs_enabled = true;
  advanced_analytics_enabled = true;
}
plan_entitlement_template Plan.enterprise = record {
  plan = Plan.enterprise;
  paid_seats_included = 100_000;
  managed_vpn_nodes_included = 100_000;
  shield_instances_included = 100_000;
  sentinel_licenses_included = 100_000;
  public_node_access_tier = "enterprise";
  support_tier = "enterprise";
  audit_logs_enabled = true;
  advanced_analytics_enabled = true;
}

-- The row of org_entitlements of an organization becomes that of its plan.
unfoldable pub set_entitlements : ℕ → Plan → Tx Db (Unit {0})
unfolding plan_entitlement_template
set_entitlements org plan =
    modify
      λ s. record s { entitlements = insert org (plan_entitlement_template plan) s.entitlements }

-- UpsertOrgEntitlements
unfoldable pub upsert_org_entitlements : ℕ → String → Tx Db OrgEntitlement
unfolding normalize_org_plan set_entitlements
upsert_org_entitlements org plan = do
  p ← from_result (normalize_org_plan plan)
  set_entitlements org p
  pure (plan_entitlement_template p)

-- GetOrgEntitlements
unfoldable pub get_org_entitlements : ℕ → Tx Db OrgEntitlement
get_org_entitlements org = get >>= λ db. from_option (lookup org db.entitlements) not_found

abbrev pub is_owner : Role → Bool
is_owner Role.owner = true
is_owner _ = false

abbrev pub is_operator : Role → Bool
is_operator Role.node_operator = true
is_operator _ = false

abbrev pub is_active : MemberStatus → Bool
is_active MemberStatus.active = true
is_active _ = false

abbrev pub bit : Bool → ℕ
bit true = 1
bit false = 0

-- A member who takes a paid seat of the organization: the owner always does.
abbrev pub takes_seat : ℕ → Member → Bool
takes_seat org m =
    m.org == org && is_active m.status && (is_owner m.role || not (is_free m.seat_tier))

-- CountPaidSeatsUsed
unfoldable pub count_paid_seats_used : ℕ → Table Member → ℕ
count_paid_seats_used org = sum (λ m. bit (takes_seat org m))
