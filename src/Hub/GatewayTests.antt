-- ===== src/Hub/GatewayTests.antt =====
-- What the theorems about nodes that are connected say of node 7 of organization 1.
use erebrus_gateway.Base.{◌≡◌, refl, none, some, [], ◌∷◌}
use erebrus_gateway.Base.Table.{lookup, insert, adjust}
use erebrus_gateway.Base.Text.{codes}
use erebrus_gateway.Drop.Samples.{empty, online}
use erebrus_gateway.Hub.Connections.{new_hub, connect}
use erebrus_gateway.Hub.Counts.{IsTracked}
use erebrus_gateway.Hub.Gateway.{Gateway, Heartbeat, on_heartbeat, serve_ends}
use erebrus_gateway.Hub.History.{Event, History, run, History-IsTracked, new_hub-IsTracked}
use erebrus_gateway.Hub.Liveness.{on_heartbeat_lem, serve_ends_replaced}
use erebrus_gateway.Hub.Region.{Region}
use erebrus_gateway.Hub.Sessions.{sessions}
use erebrus_gateway.Model.Fleet.{
  Profile, OrgNode, OrgNodeType, OrgNodeVisibility, ManagedBy, OrgNodeStatus,
}

-- A node that its organization has disabled.
abbrev disabled_node : OrgNode
disabled_node = record {
  org = 1;
  deployment_profile = Profile.standard;
  node_type = OrgNodeType.byoc;
  visibility = OrgNodeVisibility.private_org;
  managed_by = ManagedBy.org;
  status = OrgNodeStatus.disabled;
  last_seen_at = none;
}

-- Connection 2 of node 7 has replaced connection 1.
abbrev gateway : Gateway
gateway = record {
  hub = run (Event.starts 2 7) (run (Event.starts 1 7) new_hub);
  fleet = record {
    db = record empty { nodes = (7, online) ∷ [] };
    org_nodes = (7, disabled_node) ∷ [];
    services = [];
    licenses = [];
    tokens = [];
    next = 100;
  };
}

gateway-IsTracked : IsTracked gateway.hub
unfolding run connect lookup insert adjust
gateway-IsTracked =
    History-IsTracked
      (History.next (Event.starts 1 7) refl (History.next (Event.starts 2 7) refl History.done))
      new_hub-IsTracked

abbrev draining : Heartbeat
draining = record { status = codes "draining"; services = []; drop = none }

on_heartbeat_lem_example :
    (lookup 7 (on_heartbeat 7 draining 900 gateway).fleet.db.nodes
      ≡ some (record online { status = codes "draining"; last_heartbeat = some 900 }))
    × (lookup 7 (on_heartbeat 7 draining 900 gateway).fleet.org_nodes
        ≡ some (record disabled_node { last_seen_at = some 900; status = OrgNodeStatus.active }))
unfolding lookup
on_heartbeat_lem_example = on_heartbeat_lem 7 900 draining online disabled_node gateway refl refl

serve_ends_replaced_example :
    (sessions (serve_ends 1 7 gateway).hub 7 ≡ some (2, Region.unknown))
    × (lookup 7 (serve_ends 1 7 gateway).fleet.db.nodes
        ≡ some (record online { status = codes "offline" }))
unfolding run connect lookup insert adjust sessions
serve_ends_replaced_example =
    serve_ends_replaced 1 2 7 Region.unknown online gateway gateway-IsTracked refl refl refl
