-- ===== src/Nodes/Reports.antt =====
-- What nodes report of their services and profile (internal/store/firewall_policy.go).
use Prim.Native.String.{String}
use erebrus_gateway.Base.{
  ℕ, Bool, true, false, ◌&&◌, Option, none, some, List, [], ◌∷◌, ◌==◌, if◌then◌else◌,
}
use erebrus_gateway.Base.Table.{Table, lookup, adjust, update_where}
use erebrus_gateway.Base.Text.{Text, codes, text_eq, named, normalize}
use erebrus_gateway.Model.Fleet.{Profile, OrgNodeService, ServiceType, ServiceStatus, same_type}
use erebrus_gateway.Nodes.Registration.{normalize_deployment_profile}
use erebrus_gateway.Nodes.State.{Fleet}

-- ServiceHealthFromNode: none stands for the empty text.
unfoldable pub service_health_from_node : Text → Option ServiceStatus
unfolding normalize
service_health_from_node t =
    named
      (("active", some ServiceStatus.active)
        ∷ ("degraded", some ServiceStatus.degraded)
        ∷ ("unreachable", some ServiceStatus.error)
        ∷ ("error", some ServiceStatus.error)
        ∷ ("unlicensed", some ServiceStatus.unlicensed)
        ∷ [])
      none (normalize t)

-- A map from texts to texts, as it stands in JSON.
abbrev pub Report : Type 0
Report = List (Text × Text)

unfoldable pub reported : Text → Report → Option Text
reported key [] = none
reported key ((k, v) ∷ r) = let rest = reported key r in if text_eq k key then some v else rest

abbrev mappings : List (String × ServiceType)
mappings =
    ("vpn", ServiceType.vpn)
    ∷ ("community_firewall", ServiceType.community_firewall)
    ∷ ("erebrus_firewall", ServiceType.erebrus_firewall)
    ∷ ("shield", ServiceType.community_firewall)
    ∷ ("sentinel", ServiceType.erebrus_firewall)
    ∷ ("drop", ServiceType.drop)
    ∷ []

abbrev is_service_of : ℕ → ℕ → ServiceType → OrgNodeService → Bool
is_service_of org node type v = v.org == org && v.node == node && same_type v.service_type type

abbrev health_of : Option Text → Option ServiceStatus
unfolding service_health_from_node
health_of none = none
health_of (some t) = service_health_from_node t

-- The loop over the mappings.
unfoldable pub apply_mappings :
    ℕ → ℕ → Report → List (String × ServiceType) → Table OrgNodeService → Table OrgNodeService
unfolding reported health_of
apply_mappings org node r [] t = t
apply_mappings org node r ((key, type) ∷ ms) t = elim (health_of (reported (codes key) r)) [
  | none ↦ apply_mappings org node r ms t
  | some st ↦
      apply_mappings org node r ms
        (update_where (is_service_of org node type) (λ v. record v { service_status = st }) t)
]

-- UpdateNodeServicesFromReport, which its callers go on after, whatever it says.
unfoldable pub update_node_services_from_report : ℕ → Report → Fleet → Fleet
unfolding apply_mappings
update_node_services_from_report node r s = elim (lookup node s.org_nodes) [
  | none ↦ s
  | some n ↦ record s { services = apply_mappings n.org node r mappings s.services }
]

abbrev is_standard : Profile → Bool
is_standard Profile.standard = true
is_standard _ = false

-- UpdateOrgNodeDeploymentProfile
unfoldable pub update_org_node_deployment_profile : ℕ → Text → Fleet → Fleet
unfolding normalize_deployment_profile
update_org_node_deployment_profile node t s =
    let p = normalize_deployment_profile t in
    if is_standard p
    then s
    else record s { org_nodes = adjust node (λ n. record n { deployment_profile = p }) s.org_nodes }
