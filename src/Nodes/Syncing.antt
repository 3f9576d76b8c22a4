-- ===== src/Nodes/Syncing.antt =====
-- The synchronisation of one node and that of all of them.
use erebrus_gateway.Base.{ℕ, ◌≡◌, none, some, [], ◌∷◌, arith, refl}
use erebrus_gateway.Base.Table.{
  Table, lookup, find_row, update_where, lookup-adjust_self, find_row-update_where,
}
use erebrus_gateway.Base.Text.{Text, codes, normalize}
use erebrus_gateway.Model.Drop.{Node}
use erebrus_gateway.Model.Fleet.{OrgNode, OrgNodeStatus}
use erebrus_gateway.Nodes.State.{Fleet}
use erebrus_gateway.Nodes.Status.{
  runtime_to_org_node_status, with_status, sync_org_node_status_from_runtime, bulk_status, synced,
  sync_rows, sync_all_org_node_statuses_from_runtime, goes_offline, mark_stale_nodes_offline,
}

lookup-sync_rows :
    (nodes : Table Node) (p : ℕ) (n : OrgNode) (t : Table OrgNode)
    → lookup p t ≡ some n
    → lookup p (sync_rows nodes t) ≡ some (synced (lookup p nodes) n)
unfolding lookup sync_rows
lookup-sync_rows nodes p n [] h = ground arith
lookup-sync_rows nodes p n ((q, m) ∷ t) h = ground (arith, lookup-sync_rows nodes p n t)

offline-degraded :
    (n : OrgNode)
    → some (with_status (bulk_status (codes "offline")) n)
      ≡ some (with_status OrgNodeStatus.degraded n)
unfolding bulk_status
offline-degraded n = refl

-- For a status that is written as normalised, the bulk synchronisation says what that of one says.
bulk_status-runtime : (t : Text) → normalize t ≡ t → bulk_status t ≡ runtime_to_org_node_status t
unfolding bulk_status runtime_to_org_node_status
bulk_status-runtime t h = ground arith

-- For a node whose reported status is written in lower case without spaces around it, the
-- synchronisation of all nodes does to the organization's row what that of the node with its status
-- does.
pub sync_all-sync :
    (p : ℕ) (r : Node) (n : OrgNode) (s : Fleet)
    → lookup p s.db.nodes ≡ some r
    → lookup p s.org_nodes ≡ some n
    → normalize r.status ≡ r.status
    → lookup p (sync_all_org_node_statuses_from_runtime s).org_nodes
      ≡ lookup p (sync_org_node_status_from_runtime p r.status s).org_nodes
unfolding sync_all_org_node_statuses_from_runtime sync_org_node_status_from_runtime
sync_all-sync p r n s known here written =
    let all = lookup-sync_rows s.db.nodes p n s.org_nodes here in
    let one =
      lookup-adjust_self p (with_status (runtime_to_org_node_status r.status)) s.org_nodes n here in
    let same = bulk_status-runtime r.status written in rw (all, known, one, same) refl

-- After the stale nodes are marked, no node that is not offline has been silent since the cutoff,
-- and the organization's row of a node that is then offline says degraded, unless it is disabled, in
-- error, pending or provisioning.
pub mark_stale_nodes_offline_lem :
    (cutoff p : ℕ) (r : Node) (n : OrgNode) (s : Fleet)
    → lookup p (mark_stale_nodes_offline cutoff s).1.db.nodes ≡ some r
    → r.status ≡ codes "offline"
    → lookup p s.org_nodes ≡ some n
    → (find_row (goes_offline cutoff) (mark_stale_nodes_offline cutoff s).1.db.nodes ≡ none)
      × (lookup p (mark_stale_nodes_offline cutoff s).1.org_nodes
          ≡ some (with_status OrgNodeStatus.degraded n))
unfolding mark_stale_nodes_offline sync_all_org_node_statuses_from_runtime
mark_stale_nodes_offline_lem cutoff p r n s known off here =
    let down : Node → Node = λ x. record x { status = codes "offline" } in
    let nodes = update_where (goes_offline cutoff) down s.db.nodes in
    let all = lookup-sync_rows nodes p n s.org_nodes here in
    (
      find_row-update_where (goes_offline cutoff) down s.db.nodes (λ v. ground arith),
      rw (all, known, off) (offline-degraded n),
    )
