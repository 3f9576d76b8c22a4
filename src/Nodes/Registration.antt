-- ===== src/Nodes/Registration.antt =====
-- The registration of a node under an organization (internal/store/org_nodes.go).
use erebrus_gateway.Base.{
  ℕ, Bool, true, false, not, ◌&&◌, Option, none, some, [], ◌∷◌, ◌==◌, if◌then◌else◌,
}
use erebrus_gateway.Base.Session.{Session, commit}
use erebrus_gateway.Base.Table.{lookup, insert, adjust, update_where}
use erebrus_gateway.Base.Text.{Text, codes, text_eq, named, normalize, trim_space}
use erebrus_gateway.Base.Tx.{
  Result, ok, err, not_found, conflict, Tx, ◌>>=◌, ◌>>◌, pure, throw, get, modify, guard,
}
use erebrus_gateway.Model.Drop.{Node}
use erebrus_gateway.Model.Fleet.{
  Profile, OrgNode, OrgNodeType, OrgNodeVisibility, ManagedBy, OrgNodeStatus, OrgNodeService,
  ServiceType, ServiceStatus, RegistrationToken, same_type,
}
use erebrus_gateway.Nodes.Provisioning.{attach_shield_service, attach_sentinel_service}
use erebrus_gateway.Nodes.Services.{put_service, attach_service_to_node}
use erebrus_gateway.Nodes.State.{Fleet, update_nodes}

-- NormalizeDeploymentProfile
unfoldable pub normalize_deployment_profile : Text → Profile
unfolding normalize
normalize_deployment_profile t =
    named
      (("shield", Profile.shield)
        ∷ ("sentinel", Profile.sentinel)
        ∷ ("standard", Profile.standard)
        ∷ [])
      Profile.standard (normalize t)

-- NodeRegistration, less the fields that are only displayed; `is_private` says that AccessMode is
-- "private" and `is_public` that it is "public".
pub record NodeRegistration : Type 0 where
  pub peer : ℕ
  pub node_key : Text
  pub is_private : Bool
  pub is_public : Bool
  pub deployment_profile : Text
  pub api_base_url : Text

abbrev pub is_empty : Text → Bool
is_empty [] = true
is_empty (_ ∷ _) = false

abbrev pub or_key : Text → Text → Text
or_key k d = if is_empty k then d else k

-- The key that a registration leaves, or its refusal: `presented` is the trimmed key of the request
-- and `new_key` that which secrets.NewNodeKey makes.
unfoldable pub admitted_key : ℕ → Text → Text → Option Node → Result Text
admitted_key org presented new_key none = ok (or_key presented new_key)
admitted_key org presented new_key (some n) = elim n.org [
  | none ↦ err conflict
  | some o ↦
      if not (o == org)
      then err conflict
      else if is_empty n.node_key
      then ok (or_key presented new_key)
      else if is_empty presented
      then err conflict
      else if text_eq n.node_key presented
      then ok presented
      else err conflict
]

abbrev keep_text : Text → Text → Text
keep_text t old = if is_empty t then old else t

-- The row of nodes after a registration; a new node is offline.
unfoldable pub registered_node : ℕ → Text → NodeRegistration → Option Node → Node
unfolding normalize_deployment_profile
registered_node org key r none = record {
  status = codes "offline";
  org = some org;
  is_public = not r.is_private;
  node_key = key;
  min_tier = 0;
  deployment_profile = normalize_deployment_profile r.deployment_profile;
  api_base_url = r.api_base_url;
  last_heartbeat = none;
}
registered_node org key r (some n) = record n {
  org = some org;
  is_public = not r.is_private;
  node_key = key;
  deployment_profile = normalize_deployment_profile r.deployment_profile;
  api_base_url = keep_text r.api_base_url n.api_base_url;
}

-- The row of org_nodes after a registration.
unfoldable pub registered_org_node : ℕ → NodeRegistration → Option OrgNode → OrgNode
unfolding normalize_deployment_profile
registered_org_node org r none = record {
  org = org;
  deployment_profile = normalize_deployment_profile r.deployment_profile;
  node_type = if r.is_public then OrgNodeType.public else OrgNodeType.byoc;
  visibility =
      if r.is_public then OrgNodeVisibility.public_network else OrgNodeVisibility.private_org;
  managed_by = ManagedBy.org;
  status = OrgNodeStatus.active;
  last_seen_at = none;
}
registered_org_node org r (some n) = record n {
  deployment_profile = normalize_deployment_profile r.deployment_profile;
  node_type = if r.is_public then OrgNodeType.public else OrgNodeType.byoc;
  visibility =
      if r.is_public then OrgNodeVisibility.public_network else OrgNodeVisibility.private_org;
  status = OrgNodeStatus.active;
}

abbrev pub in_org : ℕ → Option OrgNode → Bool
in_org org none = true
in_org org (some n) = n.org == org

abbrev mark_used : ℕ → RegistrationToken → RegistrationToken
mark_used now t = elim t.used_at [ none ↦ record t { used_at = some now } | some u ↦ t ]

-- MarkNodeRegistrationTokenUsed, which RegisterOrgNodeFromRuntime repeats.
unfoldable pub mark_node_registration_token_used : ℕ → ℕ → Tx Fleet (Unit {0})
mark_node_registration_token_used token now =
    modify (λ s. record s { tokens = adjust token (mark_used now) s.tokens })

abbrev vpn_service : ℕ → ℕ → OrgNodeService
vpn_service org peer = record {
  org = org;
  node = peer;
  service_type = ServiceType.vpn;
  service_status = ServiceStatus.active;
  license = none;
}

-- The transaction of RegisterOrgNodeFromRuntime, with the key of the node.
unfoldable pub register_node : ℕ → ℕ → NodeRegistration → Text → ℕ → Tx Fleet Text
unfolding admitted_key trim_space registered_node registered_org_node put_service
    mark_node_registration_token_used
register_node org token r new_key now = get >>= λ s.
    elim (admitted_key org (trim_space r.node_key) new_key (lookup r.peer s.db.nodes)) [
      | err e ↦ throw e
      | ok key ↦
          modify
            (update_nodes (insert r.peer (registered_node org key r (lookup r.peer s.db.nodes))))
          >> guard (in_org org (lookup r.peer s.org_nodes)) conflict
          >> modify (λ t. record t {
            org_nodes =
                insert r.peer (registered_org_node org r (lookup r.peer t.org_nodes)) t.org_nodes;
          })
          >> put_service (vpn_service org r.peer)
              (λ v. record v { service_status = ServiceStatus.active })
          >> mark_node_registration_token_used token now
          >> pure key
    ]

abbrev is_firewall_at : ℕ → ℕ → OrgNodeService → Bool
is_firewall_at org node v =
    v.org == org && v.node == node && same_type v.service_type ServiceType.erebrus_firewall

abbrev unlicense : ℕ → ℕ → Tx Fleet (Unit {0})
unlicense org node = modify λ s. record s {
  services =
      update_where (is_firewall_at org node)
        (λ v. record v { service_status = ServiceStatus.unlicensed }) s.services;
}

-- The Sentinel branch of attachProfileServices: without a licence the service is attached unlicensed.
unfoldable pub sentinel_or_unlicensed :
    ℕ → ℕ → Result (Unit {0}) × Fleet → Result (Unit {0}) × Fleet
unfolding attach_service_to_node
sentinel_or_unlicensed org node (ok a, s) = (ok a, s)
sentinel_or_unlicensed org node (err not_found, s) =
    commit (attach_service_to_node org node ServiceType.erebrus_firewall none >> unlicense org node)
      s
sentinel_or_unlicensed org node (err e, s) = (err e, s)

-- attachProfileServices
unfoldable pub attach_profile_services : ℕ → ℕ → Profile → Session Fleet (Unit {0})
unfolding attach_shield_service attach_sentinel_service sentinel_or_unlicensed
attach_profile_services org node Profile.standard s = (ok tt, s)
attach_profile_services org node Profile.shield s = attach_shield_service org node s
attach_profile_services org node Profile.sentinel s =
    sentinel_or_unlicensed org node (attach_sentinel_service org node s)

abbrev with_key : Text → Result (Unit {0}) × Fleet → Result Text × Fleet
with_key key (ok a, s) = (ok key, s)
with_key key (err e, s) = (err e, s)

-- What RegisterOrgNodeFromRuntime does after its transaction.
unfoldable pub after_register : ℕ → NodeRegistration → Result Text × Fleet → Result Text × Fleet
unfolding attach_profile_services normalize_deployment_profile
after_register org r (err e, s) = (err e, s)
after_register org r (ok key, s) =
    with_key key
      (attach_profile_services org r.peer (normalize_deployment_profile r.deployment_profile) s)

-- RegisterOrgNodeFromRuntime
unfoldable pub register_org_node_from_runtime :
    ℕ → ℕ → NodeRegistration → Text → ℕ → Session Fleet Text
unfolding register_node after_register
register_org_node_from_runtime org token r new_key now s =
    after_register org r (commit (register_node org token r new_key now) s)
