-- ===== src/Nodes/Provisioning.antt =====
-- The nodes and services that a plan includes (internal/store/provisioning.go). A step commits by
-- itself, so that a failure keeps the steps before it.
use Prim.Native.String.{String}
use erebrus_gateway.Base.{
  ℕ, zero, suc, ◌-◌, Bool, ◌&&◌, none, some, List, [], ◌∷◌, ◌==◌, if◌then◌else◌, length,
}
use erebrus_gateway.Base.Session.{Session, ◌>>=◌, ◌>>◌, pure, get, commit}
use erebrus_gateway.Base.Table.{Table, find_row}
use erebrus_gateway.Base.Tx.{from_result}
use erebrus_gateway.Model.Fleet.{
  Profile, OrgNode, OrgNodeType, OrgNodeVisibility, ManagedBy, OrgNodeStatus, ServiceType,
  SentinelLicense, LicenseSource, same_profile, is_managed,
}
use erebrus_gateway.Model.Org.{Plan, Org}
use erebrus_gateway.Nodes.Services.{
  upsert_org_node, attach_service_to_node, attach_sentinel_license, create_sentinel_licenses,
  is_attached,
}
use erebrus_gateway.Nodes.State.{Fleet, on_db, new_id, count}
use erebrus_gateway.Orgs.Lifecycle.{set_org_plan}
use erebrus_gateway.Orgs.Plans.{get_org_entitlements, normalize_org_plan}

-- attachVPNService
unfoldable pub attach_vpn_service : ℕ → ℕ → Session Fleet (Unit {0})
unfolding attach_service_to_node
attach_vpn_service org node = commit (attach_service_to_node org node ServiceType.vpn none)

-- attachShieldService
unfoldable pub attach_shield_service : ℕ → ℕ → Session Fleet (Unit {0})
unfolding attach_service_to_node
attach_shield_service org node =
    commit (attach_service_to_node org node ServiceType.community_firewall none)

-- attachSentinelService
unfoldable pub attach_sentinel_service : ℕ → ℕ → Session Fleet (Unit {0})
unfolding attach_sentinel_license attach_service_to_node
attach_sentinel_service org node = get >>= λ s.
    elim (find_row (is_attached org node ServiceType.erebrus_firewall) s.services) [
      | some v ↦ pure tt
      | none ↦ commit (attach_sentinel_license org node) >>= λ l.
          commit (attach_service_to_node org node ServiceType.erebrus_firewall (some l))
    ]

-- A managed node of the organization with a profile.
abbrev pub is_managed_node : ℕ → Profile → OrgNode → Bool
is_managed_node org p n =
    n.org == org && is_managed n.managed_by && same_profile n.deployment_profile p

-- countManagedNodesByProfile
unfoldable pub count_managed_nodes_by_profile : ℕ → Profile → Fleet → ℕ
unfolding count
count_managed_nodes_by_profile org p s = count (is_managed_node org p) s.org_nodes

-- The peer ids of the rows that satisfy a condition, the oldest first.
unfoldable pub keys_where : (OrgNode → Bool) → Table OrgNode → List ℕ
keys_where p [] = []
keys_where p ((k, n) ∷ t) = let rest = keys_where p t in if p n then k ∷ rest else rest

-- listManagedNodesByProfile
unfoldable pub list_managed_nodes_by_profile : ℕ → Profile → Fleet → List ℕ
unfolding keys_where
list_managed_nodes_by_profile org p s = keys_where (is_managed_node org p) s.org_nodes

-- The row of reserveManagedNode: provisioning is enabled wherever it is called.
abbrev pub managed_node : ℕ → Profile → OrgNode
managed_node org p = record {
  org = org;
  deployment_profile = p;
  node_type = OrgNodeType.managed;
  visibility = OrgNodeVisibility.private_org;
  managed_by = ManagedBy.erebrus;
  status = OrgNodeStatus.provisioning;
  last_seen_at = none;
}

-- reserveManagedNode
unfoldable pub reserve_managed_node : ℕ → Profile → Session Fleet ℕ
unfolding upsert_org_node
reserve_managed_node org p = do
  node ← commit new_id
  commit (upsert_org_node node (managed_node org p))
  pure node

-- provisionProPlan
unfoldable pub provision_pro_plan : ℕ → Session Fleet (Unit {0})
unfolding count_managed_nodes_by_profile reserve_managed_node list_managed_nodes_by_profile
    attach_vpn_service attach_shield_service
provision_pro_plan org = get >>= λ s.
    if count_managed_nodes_by_profile org Profile.shield s == 0
    then (reserve_managed_node org Profile.shield >>= λ node.
        attach_vpn_service org node >> attach_shield_service org node)
    else elim (list_managed_nodes_by_profile org Profile.shield s) [
      | [] ↦ pure tt
      | node ∷ _ ↦ attach_vpn_service org node >> attach_shield_service org node
    ]

abbrev pub is_license_of : ℕ → SentinelLicense → Bool
is_license_of org l = l.org == org

-- ensureSentinelLicenses
unfoldable pub ensure_sentinel_licenses : ℕ → Session Fleet (Unit {0})
unfolding get_org_entitlements create_sentinel_licenses count
ensure_sentinel_licenses org = commit (on_db (get_org_entitlements org)) >>= λ e. get >>= λ s.
    commit (
      create_sentinel_licenses org
        (e.sentinel_licenses_included - count (is_license_of org) s.licenses)
        LicenseSource.included)

-- One managed Sentinel node with its services.
unfoldable pub equip : ℕ → ℕ → Session Fleet (Unit {0})
unfolding attach_vpn_service attach_sentinel_service
equip org node = attach_vpn_service org node >> attach_sentinel_service org node

-- The loop of provisionBusinessPlan that makes the missing nodes.
unfoldable pub reserve_sentinels : ℕ → ℕ → Session Fleet (Unit {0})
unfolding reserve_managed_node equip
reserve_sentinels org zero = pure tt
reserve_sentinels org (suc n) =
    reserve_managed_node org Profile.sentinel >>= λ node. equip org node >> reserve_sentinels org n

-- The loop of provisionBusinessPlan over the nodes that are there.
unfoldable pub equip_all : ℕ → List ℕ → Session Fleet (Unit {0})
unfolding equip
equip_all org [] = pure tt
equip_all org (node ∷ nodes) = equip org node >> equip_all org nodes

-- provisionBusinessPlan
unfoldable pub provision_business_plan : ℕ → Session Fleet (Unit {0})
unfolding ensure_sentinel_licenses list_managed_nodes_by_profile reserve_sentinels equip_all
provision_business_plan org = ensure_sentinel_licenses org >> get >>= λ s.
    let existing = list_managed_nodes_by_profile org Profile.sentinel s in
    reserve_sentinels org (3 - length existing) >> equip_all org existing

-- The switch of ProvisionIncludedPlanResources.
unfoldable pub provision_plan : ℕ → Plan → Session Fleet (Unit {0})
unfolding provision_pro_plan provision_business_plan
provision_plan org Plan.pro = provision_pro_plan org
provision_plan org Plan.business = provision_business_plan org
provision_plan org _ = pure tt

-- ProvisionIncludedPlanResources
unfoldable pub provision_included_plan_resources : ℕ → String → Bool → Session Fleet (Unit {0})
unfolding normalize_org_plan provision_plan
provision_included_plan_resources org plan enabled =
    if enabled
    then (commit (from_result (normalize_org_plan plan)) >>= λ p. provision_plan org p)
    else pure tt

-- SetOrgPlanAndProvision
unfoldable pub set_org_plan_and_provision : ℕ → String → Bool → Session Fleet Org
unfolding set_org_plan provision_included_plan_resources
set_org_plan_and_provision org plan enabled = do
  o ← commit (on_db (set_org_plan org plan))
  provision_included_plan_resources org plan enabled
  pure o
