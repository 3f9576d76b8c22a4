-- ===== src/Hub/Gateway.antt =====
-- The hub together with the store: what a node's messages and the end of its connection do
-- (internal/nodehub/hub.go: Serve, onHello, onHeartbeat). Frames that do not parse change nothing.
use erebrus_gateway.Base.{ℕ, Bool, Option, none, some, List, [], ◌∷◌, ◌++◌, ◌==◌, if◌then◌else◌}
use erebrus_gateway.Base.Int.{ℤ}
use erebrus_gateway.Base.Text.{Text, codes, named}
use erebrus_gateway.Base.Tx.{Tx, ok, err}
use erebrus_gateway.Drop.Node.{apply_drop_capability, apply_drop_status}
use erebrus_gateway.Hub.Connections.{Hub, connect, disconnect, set_region, try_send}
use erebrus_gateway.Model.Db.{Db}
use erebrus_gateway.Nodes.Registration.{is_empty}
use erebrus_gateway.Nodes.Reports.{
  Report, update_node_services_from_report, update_org_node_deployment_profile,
}
use erebrus_gateway.Nodes.State.{Fleet, on_db}
use erebrus_gateway.Nodes.Status.{
  apply_hello, apply_heartbeat, set_node_status, touch_org_node_heartbeat,
}

pub record Gateway : Type 0 where
  pub hub : Hub
  pub fleet : Fleet

-- normalizeAccessMode
unfoldable pub normalize_access_mode : Text → Text
normalize_access_mode t = named (("public", t) ∷ ("private", t) ∷ []) [] t

-- DropCapability
pub record DropCapability : Type 0 where
  pub enabled : Bool
  pub accepts_public_uploads : Bool
  pub webui_available : Bool

-- DropStatus
pub record DropStatus : Type 0 where
  pub state : Text
  pub repo_size_bytes : ℤ
  pub storage_max_bytes : ℤ
  pub num_objects : ℤ

-- Hello, less the hardware and the endpoints.
pub record Hello : Type 0 where
  pub region : Text
  pub access_mode : Text
  pub deployment_profile : Text
  pub services : Report
  pub drop : Option DropCapability

-- Heartbeat, less the load.
pub record Heartbeat : Type 0 where
  pub status : Text
  pub services : Report
  pub drop : Option DropStatus

-- A statement of the store whose error is only logged.
abbrev pub attempt : Tx Db (Unit {0}) → Fleet → Fleet
attempt m s = elim (on_db m s) [ ok (u, t) ↦ t | err e ↦ s ]

unfoldable pub capability : ℕ → Option DropCapability → Fleet → Fleet
unfolding apply_drop_capability
capability peer none s = s
capability peer (some d) s =
    attempt (apply_drop_capability peer d.enabled d.accepts_public_uploads d.webui_available) s

unfoldable pub drop_status : ℕ → Option DropStatus → Fleet → Fleet
unfolding apply_drop_status
drop_status peer none s = s
drop_status peer (some d) s =
    attempt (apply_drop_status peer d.state d.repo_size_bytes d.storage_max_bytes d.num_objects) s

unfoldable pub services_of : ℕ → Report → Fleet → Fleet
unfolding update_node_services_from_report
services_of peer [] s = s
services_of peer (e ∷ r) s = update_node_services_from_report peer (e ∷ r) s

-- What the store keeps of a hello.
unfoldable pub store_hello : ℕ → Hello → ℕ → Fleet → Fleet
unfolding normalize_access_mode apply_hello update_org_node_deployment_profile services_of
    capability
store_hello peer m now s =
    let s1 = apply_hello peer (normalize_access_mode m.access_mode) now s in
    let s2 =
      if is_empty m.deployment_profile
      then s1
      else update_org_node_deployment_profile peer m.deployment_profile s1 in
    capability peer m.drop (services_of peer m.services s2)

-- onHello, of the connection object `c` of node `peer`; `ack` is the frame of the answer.
unfoldable pub on_hello : ℕ → ℕ → Hello → ℕ → ℕ → Gateway → Gateway
unfolding store_hello set_region try_send
on_hello c peer m ack now g = record {
  hub = (try_send c ack (set_region c m.region g.hub)).1;
  fleet = store_hello peer m now g.fleet;
}

abbrev pub or_online : Text → Text
or_online t = if is_empty t then codes "online" else t

-- onHeartbeat, when the store takes it; the connection is not touched.
unfoldable pub on_heartbeat : ℕ → Heartbeat → ℕ → Gateway → Gateway
unfolding apply_heartbeat touch_org_node_heartbeat services_of drop_status
on_heartbeat peer m now g = record g {
  fleet = drop_status peer m.drop (
      services_of peer m.services (
        touch_org_node_heartbeat peer now (apply_heartbeat peer (or_online m.status) now g.fleet)));
}

-- The start of Serve.
unfoldable pub serve_starts : ℕ → ℕ → Gateway → Gateway
unfolding connect
serve_starts c peer g = record g { hub = connect c peer g.hub }

-- The end of Serve, when the connection `c` of node `peer` has ended: the status of the node follows
-- whether or not the connection was still registered.
unfoldable pub serve_ends : ℕ → ℕ → Gateway → Gateway
unfolding disconnect set_node_status
serve_ends c peer g = record {
  hub = disconnect c g.hub;
  fleet = set_node_status peer (codes "offline") g.fleet;
}

-- Endpoints: the ports that a node reports.
pub record Endpoints : Type 0 where
  pub wireguard : ℕ
  pub vless_reality : ℕ
  pub hysteria2 : ℕ

-- protocolsFromEndpoints
unfoldable pub protocols_from_endpoints : Endpoints → List Text
protocols_from_endpoints e =
    (if e.wireguard == 0 then [] else codes "wireguard" ∷ [])
    ++ (if e.vless_reality == 0 then [] else codes "vless-reality" ∷ [])
    ++ (if e.hysteria2 == 0 then [] else codes "hysteria2" ∷ [])
