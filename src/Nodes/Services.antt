-- ===== src/Nodes/Services.antt =====
-- The services of the organizations' nodes and the Sentinel licences (internal/store/org_nodes.go and
-- internal/store/sentinel_licenses.go).
use erebrus_gateway.Base.{
  ℕ, zero, suc, Bool, true, false, not, ◌&&◌, Option, none, some, [], ◌∷◌, ◌++◌, ltb, ◌==◌,
  if◌then◌else◌,
}
use erebrus_gateway.Base.Table.{lookup, insert, adjust, find_row, update_first, update_where}
use erebrus_gateway.Base.Text.{Text, trim_space}
use erebrus_gateway.Base.Tx.{
  not_found, refused, Tx, ◌>>=◌, ◌>>◌, pure, get, modify, guard, from_option,
}
use erebrus_gateway.Model.Fleet.{
  Profile, OrgNode, OrgNodeStatus, OrgNodeService, ServiceType, ServiceStatus, SentinelLicense,
  LicenseStatus, LicenseSource, same_type, is_disabled, is_available, service_status_of,
  org_node_status_of,
}
use erebrus_gateway.Model.Org.{OrgEntitlement}
use erebrus_gateway.Nodes.State.{Fleet, on_db, new_id, count}
use erebrus_gateway.Orgs.Plans.{get_org_entitlements}

-- GetOrgNode
unfoldable pub get_org_node : ℕ → ℕ → Tx Fleet OrgNode
get_org_node org node = do
  s ← get
  n ← from_option (lookup node s.org_nodes) not_found
  guard (n.org == org) not_found
  pure n

-- UpsertOrgNode, with the defaults in place.
unfoldable pub upsert_org_node : ℕ → OrgNode → Tx Fleet (Unit {0})
upsert_org_node node n = modify λ s. record s {
  org_nodes =
      insert node
        (elim (lookup node s.org_nodes) [
          | none ↦ n
          | some m ↦ record n { last_seen_at = m.last_seen_at }
        ])
        s.org_nodes;
}

-- UpdateOrgNode, whose status is any text.
unfoldable pub update_org_node : ℕ → ℕ → Option Text → Tx Fleet OrgNode
unfolding get_org_node trim_space
update_org_node org node status = do
  cur ← get_org_node org node
  let st : OrgNodeStatus = elim status [
    | none ↦ cur.status
    | some t ↦ org_node_status_of (trim_space t)
  ]
  modify (λ s. record s { org_nodes = adjust node (λ n. record n { status = st }) s.org_nodes })
  pure (record cur { status = st })

-- The row of a service under the unique key (node_id, service_type).
abbrev pub is_service : ℕ → ServiceType → OrgNodeService → Bool
is_service node type v = v.node == node && same_type v.service_type type

abbrev keep_license : Option ℕ → Option ℕ → Option ℕ
keep_license none old = old
keep_license (some l) old = some l

-- INSERT INTO org_node_services ... ON CONFLICT (node_id, service_type) DO UPDATE of a function of
-- the row that is there.
unfoldable pub put_service :
    OrgNodeService → (OrgNodeService → OrgNodeService) → Tx Fleet (Unit {0})
put_service v f = get >>= λ s. elim (find_row (is_service v.node v.service_type) s.services) [
  | none ↦ new_id >>= λ id. modify (λ t. record t { services = (id, v) ∷ t.services })
  | some old ↦
      modify
        (λ t. record t { services = update_first (is_service v.node v.service_type) f t.services })
]

abbrev pub new_service : ℕ → ℕ → ServiceType → Option ℕ → OrgNodeService
new_service org node type license = record {
  org = org;
  node = node;
  service_type = type;
  service_status = ServiceStatus.active;
  license = license;
}

abbrev pub renewed : Option ℕ → OrgNodeService → OrgNodeService
renewed license v = record v {
  service_status = ServiceStatus.active;
  license = keep_license license v.license;
}

-- AttachServiceToNode
unfoldable pub attach_service_to_node : ℕ → ℕ → ServiceType → Option ℕ → Tx Fleet (Unit {0})
unfolding get_org_node put_service
attach_service_to_node org node type license = do
  get_org_node org node
  put_service (new_service org node type license) (renewed license)

abbrev is_at : ℕ → ℕ → OrgNodeService → Bool
is_at org node v = v.org == org && v.node == node

-- GetOrgNodeService
unfoldable pub get_org_node_service : ℕ → ℕ → ℕ → Tx Fleet OrgNodeService
get_org_node_service org node service = do
  s ← get
  v ← from_option (lookup service s.services) not_found
  guard (is_at org node v) not_found
  pure v

-- UpdateOrgNodeService, whose status is any text.
unfoldable pub update_org_node_service : ℕ → ℕ → ℕ → Option Text → Tx Fleet OrgNodeService
unfolding get_org_node_service trim_space
update_org_node_service org node service status = do
  cur ← get_org_node_service org node service
  let st : ServiceStatus = elim status [
    | none ↦ cur.service_status
    | some t ↦ service_status_of (trim_space t)
  ]
  modify (λ s. record s {
    services = adjust service (λ v. record v { service_status = st }) s.services;
  })
  pure (record cur { service_status = st })

-- DeleteOrgNodeService
unfoldable pub delete_org_node_service : ℕ → ℕ → ℕ → Tx Fleet (Unit {0})
unfolding get_org_node_service
delete_org_node_service org node service = do
  get_org_node_service org node service
  modify (λ s. record s {
    services =
        adjust service (λ v. record v { service_status = ServiceStatus.disabled }) s.services;
  })

-- DeploymentProfileAllowsService
unfoldable pub deployment_profile_allows_service : Profile → ServiceType → Bool
deployment_profile_allows_service _ ServiceType.drop = true
deployment_profile_allows_service _ ServiceType.vpn = true
deployment_profile_allows_service Profile.shield ServiceType.community_firewall = true
deployment_profile_allows_service Profile.sentinel ServiceType.erebrus_firewall = true
deployment_profile_allows_service _ _ = false

-- A service that is attached to a node of the organization and not disabled.
abbrev pub is_attached : ℕ → ℕ → ServiceType → OrgNodeService → Bool
is_attached org node type v =
    is_at org node v && same_type v.service_type type && not (is_disabled v.service_status)

abbrev pub is_shield_in_use : ℕ → OrgNodeService → Bool
is_shield_in_use org v =
    v.org == org
    && same_type v.service_type ServiceType.community_firewall
    && not (is_disabled v.service_status)

-- CountShieldInstancesUsed
unfoldable pub count_shield_instances_used : ℕ → Fleet → ℕ
unfolding count
count_shield_instances_used org s = count (is_shield_in_use org) s.services

abbrev pub is_free_license : ℕ → SentinelLicense → Bool
is_free_license org l = l.org == org && is_available l.status

-- CountAvailableSentinelLicenses
unfoldable pub count_available_sentinel_licenses : ℕ → Fleet → ℕ
unfolding count
count_available_sentinel_licenses org s = count (is_free_license org) s.licenses

-- The limits on a firewall service.
unfoldable pub within_plan : ℕ → ServiceType → OrgEntitlement → Fleet → Bool
unfolding count_shield_instances_used count_available_sentinel_licenses
within_plan org ServiceType.community_firewall e s =
    ltb 0 e.shield_instances_included
    && ltb (count_shield_instances_used org s) e.shield_instances_included
within_plan org ServiceType.erebrus_firewall e s = ltb 0 (count_available_sentinel_licenses org s)
within_plan org _ e s = true

abbrev is_none : {A : Type 0} → Option A → Bool
is_none none = true
is_none (some a) = false

-- ValidateServiceEntitlement
unfoldable pub validate_service_entitlement : ℕ → ℕ → ServiceType → Tx Fleet (Unit {0})
unfolding get_org_node deployment_profile_allows_service get_org_entitlements within_plan
validate_service_entitlement org node type = do
  n ← get_org_node org node
  guard (deployment_profile_allows_service n.deployment_profile type) refused
  e ← on_db (get_org_entitlements org)
  s ← get
  guard (within_plan org type e s) refused
  guard (is_none (find_row (is_attached org node type) s.services)) refused

-- The statements of handleAttachOrgNodeService, each its own transaction.
unfoldable pub attach_validated : ℕ → ℕ → ServiceType → Tx Fleet (Unit {0})
unfolding validate_service_entitlement attach_service_to_node
attach_validated org node type = do
  validate_service_entitlement org node type
  attach_service_to_node org node type none

-- CreateSentinelLicenses
unfoldable pub create_sentinel_licenses : ℕ → ℕ → LicenseSource → Tx Fleet (Unit {0})
create_sentinel_licenses org zero source = pure tt
create_sentinel_licenses org (suc n) source = do
  id ← new_id
  modify (λ s. record s {
    licenses =
        s.licenses
        ++ (
          id,
          record { org = org; node = none; status = LicenseStatus.available; source = source },
        )
          ∷ [];
  })
  create_sentinel_licenses org n source

-- AttachSentinelLicense
unfoldable pub attach_sentinel_license : ℕ → ℕ → Tx Fleet ℕ
attach_sentinel_license org node = do
  s ← get
  l ← from_option (find_row (is_free_license org) s.licenses) not_found
  modify (λ t. record t {
    licenses =
        update_first (is_free_license org)
          (λ x. record x { node = some node; status = LicenseStatus.attached }) t.licenses;
  })
  pure l.0

abbrev is_unlicensable : ℕ → ℕ → OrgNodeService → Bool
is_unlicensable org node v = is_attached org node ServiceType.erebrus_firewall v

-- ReconcileUnlicensedSentinel
unfoldable pub reconcile_unlicensed_sentinel : ℕ → ℕ → Fleet → Fleet
unfolding count_available_sentinel_licenses
reconcile_unlicensed_sentinel org node s =
    if ltb 0 (count_available_sentinel_licenses org s) then s else record s {
      services =
          update_where (is_unlicensable org node)
            (λ v. record v { service_status = ServiceStatus.unlicensed }) s.services;
    }
