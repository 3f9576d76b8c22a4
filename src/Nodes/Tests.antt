-- ===== src/Nodes/Tests.antt =====
-- What the theorems about nodes say of an organization 1 on the plan Business with a Shield node 3.
use erebrus_gateway.Base.{
  ℕ, ◌+◌, ◌-◌, ◌≤◌, ◌<◌, ◌≡◌, refl, true, false, none, some, [], ◌∷◌, arith, ◌⊎◌,
}
use erebrus_gateway.Base.Table.{lookup, insert, find_row, update_first}
use erebrus_gateway.Base.Text.{Text, codes, trim_space}
use erebrus_gateway.Base.Tx.{Result, ok, err, not_found}
use erebrus_gateway.Drop.Samples.{online}
use erebrus_gateway.Model.Drop.{Node}
use erebrus_gateway.Model.Fleet.{
  Profile, OrgNode, OrgNodeType, OrgNodeVisibility, ManagedBy, OrgNodeStatus, ServiceType,
  TokenScope, RegistrationToken,
}
use erebrus_gateway.Model.Org.{Plan, Role, Member}
use erebrus_gateway.Nodes.Admission.{Enrolls, handle_org_node_register_lem}
use erebrus_gateway.Nodes.Handlers.{handle_org_node_register}
use erebrus_gateway.Nodes.Enrollment.{MayRegister, register_node_lem, register_node-again}
use erebrus_gateway.Nodes.Keeping.{licenses_of}
use erebrus_gateway.Nodes.Provisioned.{IsFresh, provision_business_plan_lem}
use erebrus_gateway.Nodes.Provisioning.{count_managed_nodes_by_profile, provision_business_plan}
use erebrus_gateway.Nodes.Registration.{
  NodeRegistration, in_org, register_org_node_from_runtime, register_node, registered_node,
  registered_org_node,
}
use erebrus_gateway.Nodes.ServiceLimits.{attach_validated_within_plan}
use erebrus_gateway.Nodes.Services.{attach_validated, count_shield_instances_used}
use erebrus_gateway.Nodes.State.{Fleet}
use erebrus_gateway.Nodes.TokenLife.{lookup-create}
use erebrus_gateway.Nodes.Tokens.{
  create_node_registration_token, lookup_node_registration_token, max_registration_token_ttl,
  registration_scopes_of, scope_allowed,
}
use erebrus_gateway.Orgs.Plans.{plan_entitlement_template}
use erebrus_gateway.Orgs.Samples.{db}
use erebrus_gateway.Orgs.Seats.{active_membership}

abbrev shield_node : OrgNode
shield_node = record {
  org = 1;
  deployment_profile = Profile.shield;
  node_type = OrgNodeType.byoc;
  visibility = OrgNodeVisibility.private_org;
  managed_by = ManagedBy.org;
  status = OrgNodeStatus.active;
  last_seen_at = none;
}

abbrev runtime : Node
runtime = record online { org = some 1; node_key = codes "k3"; last_heartbeat = some 100 }

abbrev fleet : Fleet
fleet = record {
  db = record db {
    nodes = (3, runtime) ∷ [];
    entitlements = (1, plan_entitlement_template Plan.business) ∷ [];
  };
  org_nodes = (3, shield_node) ∷ [];
  services = [];
  licenses = [];
  tokens = [];
  next = 100;
}

abbrev left : {A : Type 0} → Result (A × Fleet) → Fleet
left (ok (a, s)) = s
left (err e) = fleet

abbrev request : NodeRegistration
request = record {
  peer = 3;
  node_key = codes "k3";
  is_private = false;
  is_public = true;
  deployment_profile = codes "shield";
  api_base_url = [];
}

registered :
    register_node 1 9 request [] 50 fleet
    ≡ ok (codes "k3", left (register_node 1 9 request [] 50 fleet))
unfolding register_node lookup insert find_row
registered = refl

register_node_lem_example :
    MayRegister 1 (codes "k3") (some runtime)
    × (in_org 1 (some shield_node) ≡ true)
    × (lookup 3 (left (register_node 1 9 request [] 50 fleet)).db.nodes
        ≡ some (registered_node 1 (codes "k3") request (some runtime)))
    × (lookup 3 (left (register_node 1 9 request [] 50 fleet)).org_nodes
        ≡ some (registered_org_node 1 request (some shield_node)))
unfolding lookup trim_space
register_node_lem_example =
    register_node_lem 1 9 50 3 request [] (codes "k3") fleet
      (left (register_node 1 9 request [] 50 fleet)) registered

register_node-again_example :
    (s : Fleet) × (register_node 1 9 request [] 60 (left (register_node 1 9 request [] 50 fleet))
      ≡ ok (codes "k3", s))
unfolding trim_space
register_node-again_example =
    register_node-again 1 9 9 50 60 request request [] [] (codes "k3") fleet
      (left (register_node 1 9 request [] 50 fleet)) registered refl refl refl refl

-- The same on the plan Pro.
abbrev pro_fleet : Fleet
pro_fleet = record fleet {
  db = record fleet.db { entitlements = (1, plan_entitlement_template Plan.pro) ∷ [] };
}

abbrev shielded : Fleet
shielded = left (attach_validated 1 3 ServiceType.community_firewall pro_fleet)

attached : attach_validated 1 3 ServiceType.community_firewall pro_fleet ≡ ok (tt, shielded)
unfolding attach_validated lookup find_row plan_entitlement_template
attached = refl

attach_validated_within_plan_example :
    count_shield_instances_used 1 shielded
    ≤ (plan_entitlement_template Plan.pro).shield_instances_included
unfolding lookup
attach_validated_within_plan_example =
    attach_validated_within_plan 1 3 (plan_entitlement_template Plan.pro) pro_fleet shielded refl
      attached

fleet-IsFresh : IsFresh fleet
unfolding lookup
fleet-IsFresh i h = ground arith

abbrev provisioned : Fleet
provisioned = (provision_business_plan 1 fleet).1

provision_business : provision_business_plan 1 fleet ≡ (ok tt, provisioned)
unfolding provision_business_plan lookup plan_entitlement_template insert find_row update_first
provision_business = refl

provision_business_plan_lem_example :
    (count_managed_nodes_by_profile 1 Profile.sentinel provisioned
      ≡ count_managed_nodes_by_profile 1 Profile.sentinel fleet
        + (3 - count_managed_nodes_by_profile 1 Profile.sentinel fleet))
    × (licenses_of 1 provisioned
        ≡ licenses_of 1 fleet
          + ((plan_entitlement_template Plan.business).sentinel_licenses_included
              - licenses_of 1 fleet))
    × IsFresh provisioned
unfolding lookup
provision_business_plan_lem_example =
    provision_business_plan_lem 1 (plan_entitlement_template Plan.business) fleet provisioned refl
      fleet-IsFresh provision_business

-- Any hash will do for one token.
abbrev hash : Text → ℕ
hash t = 5

abbrev minted : Fleet
minted = left (
    create_node_registration_token hash 1 none (codes "node_registration" ∷ []) 5000 (codes "t")
      1000 fleet)

created :
    create_node_registration_token hash 1 none
      (codes "node_registration" ∷ [])
      5000
      (codes "t")
      1000
      fleet
    ≡ ok (100, minted)
unfolding create_node_registration_token find_row
created = refl

lookup-create_example :
    ((4000 ≤ 5000)
      × (4000 ≤ 1000 + max_registration_token_ttl)
      × ((t : RegistrationToken) × (lookup_node_registration_token hash
              (codes "t")
              TokenScope.node_registration
              4000
              minted
            ≡ ok ((100, t), minted))
          × (t.org ≡ 1)
          × (t.peer ≡ none)))
    ⊎ (((5000 < 4000) ⊎ (1000 + max_registration_token_ttl < 4000))
        × (lookup_node_registration_token hash (codes "t") TokenScope.node_registration 4000 minted
            ≡ err not_found))
unfolding trim_space registration_scopes_of scope_allowed
lookup-create_example =
    lookup-create hash 1 100 none (codes "node_registration" ∷ []) 5000 1000 4000 (codes "t")
      (TokenScope.node_registration ∷ []) TokenScope.node_registration fleet minted refl refl refl
      refl created

-- The node operator 8 enrols the node with that token.
abbrev enrolled : Fleet
enrolled = (handle_org_node_register hash 1 8 (codes " t ") [] request [] 4000 minted).1

enroll : handle_org_node_register hash 1 8 (codes " t ") [] request [] 4000 minted ≡ (201, enrolled)
unfolding handle_org_node_register active_membership find_row trim_space scope_allowed
    create_node_registration_token register_org_node_from_runtime lookup insert
enroll = refl

handle_org_node_register_lem_example :
    ((m : Member) × (active_membership 1 8 minted.db ≡ some m)
      × ((m.role ≡ Role.owner) ⊎ (m.role ≡ Role.node_operator)))
    × ((e : ℕ × RegistrationToken) × Enrolls 1 3 4000 5 minted e)
    × MayRegister 1 (codes "k3") (some runtime)
unfolding trim_space create_node_registration_token lookup find_row
handle_org_node_register_lem_example =
    handle_org_node_register_lem hash 1 8 4000 (codes " t ") [] [] request minted enrolled enroll
