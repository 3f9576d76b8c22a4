-- ===== src/Hub/Liveness.antt =====
-- What the store says of a node whose connection lives.
use erebrus_gateway.Base.{
  ℕ, ◌≡◌, false, Option, none, some, [], ◌∷◌, ◌==◌, arith, Option-cases, inl, inr, refl, ◌∙◌,
}
use erebrus_gateway.Base.Table.{lookup, lookup-adjust_self}
use erebrus_gateway.Base.Text.{codes}
use erebrus_gateway.Hub.Connections.{Hub, disconnect}
use erebrus_gateway.Hub.Counts.{IsTracked}
use erebrus_gateway.Hub.Gateway.{
  Gateway, Heartbeat, DropStatus, drop_status, services_of, or_online, on_heartbeat, serve_ends,
}
use erebrus_gateway.Hub.History.{Event, run}
use erebrus_gateway.Hub.Region.{Region}
use erebrus_gateway.Hub.Sessions.{sessions, step, run-sessions}
use erebrus_gateway.Model.Drop.{Node}
use erebrus_gateway.Model.Fleet.{OrgNode, OrgNodeStatus}
use erebrus_gateway.Nodes.Reports.{Report, update_node_services_from_report}
use erebrus_gateway.Nodes.State.{Fleet}
use erebrus_gateway.Nodes.Status.{
  apply_heartbeat, set_node_status, touch_org_node_heartbeat, sync_org_node_status_from_runtime,
}

-- The reports of services and of storage leave the rows of nodes.
drop_status-rows :
    (peer : ℕ) (d : Option DropStatus) (s : Fleet)
    → ((drop_status peer d s).db.nodes ≡ s.db.nodes)
      × ((drop_status peer d s).org_nodes ≡ s.org_nodes)
unfolding drop_status
drop_status-rows peer none s = (refl, refl)
drop_status-rows peer (some d) s = (refl, refl)

services_of-rows :
    (peer : ℕ) (r : Report) (s : Fleet)
    → ((services_of peer r s).db.nodes ≡ s.db.nodes)
      × ((services_of peer r s).org_nodes ≡ s.org_nodes)
unfolding services_of update_node_services_from_report
services_of-rows peer [] s = (refl, refl)
services_of-rows peer (e ∷ r) s = elim (Option-cases (lookup peer s.org_nodes)) [
  | inl gone ↦ (ground arith, ground arith)
  | inr (n, here) ↦ (ground arith, ground arith)
]

-- A heartbeat of a node says of it the reported status, or online where it reports none, and makes
-- the organization's row active, as seen now, whatever the status that is reported and the status of
-- the row before, disabled ones included.
pub on_heartbeat_lem :
    (peer now : ℕ) (m : Heartbeat) (r : Node) (n : OrgNode) (g : Gateway)
    → lookup peer g.fleet.db.nodes ≡ some r
    → lookup peer g.fleet.org_nodes ≡ some n
    → (lookup peer (on_heartbeat peer m now g).fleet.db.nodes
        ≡ some (record r { status = or_online m.status; last_heartbeat = some now }))
      × (lookup peer (on_heartbeat peer m now g).fleet.org_nodes
          ≡ some (record n { last_seen_at = some now; status = OrgNodeStatus.active }))
unfolding on_heartbeat apply_heartbeat touch_org_node_heartbeat
on_heartbeat_lem peer now m r n g known here =
    let s1 =
      touch_org_node_heartbeat peer now (apply_heartbeat peer (or_online m.status) now g.fleet) in
    let (a, b) = services_of-rows peer m.services s1 in
    let (c, d) = drop_status-rows peer m.drop (services_of peer m.services s1) in
    (
      rw (c, a)
          (lookup-adjust_self peer
            (λ x. record x { status = or_online m.status; last_heartbeat = some now })
            g.fleet.db.nodes r known),
      rw (d, b)
          (lookup-adjust_self peer
            (λ x. record x { last_seen_at = some now; status = OrgNodeStatus.active })
            g.fleet.org_nodes n here),
    )

ended :
    (c peer : ℕ) (h : Hub)
    → IsTracked h
    → sessions (disconnect c h) peer ≡ step (Event.ends c) (sessions h) peer
unfolding run
ended c peer h t = run-sessions (Event.ends c) h peer t tt

-- The end of a connection that another of its node has replaced leaves the node's session, of the
-- other connection, as it is, but says of the node that it is offline.
pub serve_ends_replaced :
    (c d peer : ℕ) (region : Region) (r : Node) (g : Gateway)
    → IsTracked g.hub
    → sessions g.hub peer ≡ some (d, region)
    → (d == c) ≡ false
    → lookup peer g.fleet.db.nodes ≡ some r
    → (sessions (serve_ends c peer g).hub peer ≡ some (d, region))
      × (lookup peer (serve_ends c peer g).fleet.db.nodes
          ≡ some (record r { status = codes "offline" }))
unfolding serve_ends set_node_status sync_org_node_status_from_runtime
serve_ends_replaced c d peer region r g t live other known = (
  ended c peer g.hub t ∙ rw (live, other) refl,
  lookup-adjust_self peer (λ x. record x { status = codes "offline" }) g.fleet.db.nodes r known,
)
