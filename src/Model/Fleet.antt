-- ===== src/Model/Fleet.antt =====
-- The organization's records of its nodes, their services, Sentinel licences and registration tokens
-- (internal/store/models.go). A text column into which a caller may write any text has the
-- constructor `other` besides the constants of the program.
use erebrus_gateway.Base.{ℕ, Bool, true, false, Option, List, ◌==◌, [], ◌∷◌}
use erebrus_gateway.Base.Text.{Text, text_eq, named}

pub data Profile : Type 0 where
  standard shield sentinel : Profile

pub data OrgNodeType : Type 0 where
  public private byoc managed : OrgNodeType

pub data OrgNodeVisibility : Type 0 where
  private_org public_network restricted : OrgNodeVisibility

pub data ManagedBy : Type 0 where
  org erebrus : ManagedBy

pub data OrgNodeStatus : Type 0 where
  pending provisioning active degraded disabled error : OrgNodeStatus
  other : Text → OrgNodeStatus

pub data ServiceType : Type 0 where
  vpn community_firewall erebrus_firewall drop ai custom_app : ServiceType
  other : Text → ServiceType

pub data ServiceStatus : Type 0 where
  pending provisioning active degraded disabled unlicensed unsupported_plan error : ServiceStatus
  other : Text → ServiceStatus

pub data LicenseStatus : Type 0 where
  available attached suspended expired : LicenseStatus

pub data LicenseSource : Type 0 where
  included purchased enterprise_custom : LicenseSource

pub data TokenScope : Type 0 where
  node_registration firewall_setup service_setup : TokenScope

-- A row of org_nodes, keyed by node_id (the peer id), less names, places and addresses.
pub record OrgNode : Type 0 where
  pub org : ℕ
  pub deployment_profile : Profile
  pub node_type : OrgNodeType
  pub visibility : OrgNodeVisibility
  pub managed_by : ManagedBy
  pub status : OrgNodeStatus
  pub last_seen_at : Option ℕ

-- A row of org_node_services; (node, service_type) is unique. Names, addresses and references to
-- configurations are left out.
pub record OrgNodeService : Type 0 where
  pub org : ℕ
  pub node : ℕ
  pub service_type : ServiceType
  pub service_status : ServiceStatus
  pub license : Option ℕ

pub record SentinelLicense : Type 0 where
  pub org : ℕ
  pub node : Option ℕ
  pub status : LicenseStatus
  pub source : LicenseSource

-- A row of node_registration_tokens; times are seconds.
pub record RegistrationToken : Type 0 where
  pub org : ℕ
  pub token_hash : ℕ
  pub peer : Option ℕ
  pub scopes : List TokenScope
  pub expires_at : ℕ
  pub used_at : Option ℕ
  pub revoked_at : Option ℕ

abbrev type_code : ServiceType → ℕ
type_code ServiceType.vpn = 0
type_code ServiceType.community_firewall = 1
type_code ServiceType.erebrus_firewall = 2
type_code ServiceType.drop = 3
type_code ServiceType.ai = 4
type_code ServiceType.custom_app = 5
type_code (ServiceType.other t) = 6

abbrev pub same_type : ServiceType → ServiceType → Bool
same_type (ServiceType.other s) (ServiceType.other t) = text_eq s t
same_type a b = type_code a == type_code b

abbrev pub is_disabled : ServiceStatus → Bool
is_disabled ServiceStatus.disabled = true
is_disabled _ = false

abbrev pub is_available : LicenseStatus → Bool
is_available LicenseStatus.available = true
is_available _ = false

abbrev profile_code : Profile → ℕ
profile_code Profile.standard = 0
profile_code Profile.shield = 1
profile_code Profile.sentinel = 2

abbrev pub same_profile : Profile → Profile → Bool
same_profile a b = profile_code a == profile_code b

abbrev pub is_managed : ManagedBy → Bool
is_managed ManagedBy.erebrus = true
is_managed ManagedBy.org = false

-- The status that a text says.
abbrev pub service_status_of : Text → ServiceStatus
service_status_of t =
    named
      (("pending", ServiceStatus.pending)
        ∷ ("provisioning", ServiceStatus.provisioning)
        ∷ ("active", ServiceStatus.active)
        ∷ ("degraded", ServiceStatus.degraded)
        ∷ ("disabled", ServiceStatus.disabled)
        ∷ ("unlicensed", ServiceStatus.unlicensed)
        ∷ ("unsupported_plan", ServiceStatus.unsupported_plan)
        ∷ ("error", ServiceStatus.error)
        ∷ [])
      (ServiceStatus.other t) t

abbrev pub org_node_status_of : Text → OrgNodeStatus
org_node_status_of t =
    named
      (("pending", OrgNodeStatus.pending)
        ∷ ("provisioning", OrgNodeStatus.provisioning)
        ∷ ("active", OrgNodeStatus.active)
        ∷ ("degraded", OrgNodeStatus.degraded)
        ∷ ("disabled", OrgNodeStatus.disabled)
        ∷ ("error", OrgNodeStatus.error)
        ∷ [])
      (OrgNodeStatus.other t) t
