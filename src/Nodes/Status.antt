-- ===== src/Nodes/Status.antt =====
-- What nodes report and what the organization's records say of it (internal/store/nodes.go and
-- internal/store/org_nodes.go). Errors of single statements cannot happen here.
use erebrus_gateway.Base.{
  ℕ, Bool, true, false, not, ◌&&◌, Option, none, some, [], ◌∷◌, ltb, if◌then◌else◌,
}
use erebrus_gateway.Base.Table.{Table, lookup, adjust, update_where}
use erebrus_gateway.Base.Text.{Text, codes, text_eq, named, normalize, trim_space}
use erebrus_gateway.Base.Tx.{not_found, refused, Tx, ◌>>=◌, ◌>>◌, pure, get, modify, from_option}
use erebrus_gateway.Model.Drop.{Node}
use erebrus_gateway.Model.Fleet.{OrgNode, OrgNodeStatus}
use erebrus_gateway.Nodes.State.{Fleet, update_nodes, count}

-- RuntimeToOrgNodeStatus
unfoldable pub runtime_to_org_node_status : Text → OrgNodeStatus
unfolding normalize
runtime_to_org_node_status t =
    named
      (("online", OrgNodeStatus.active)
        ∷ ("draining", OrgNodeStatus.degraded)
        ∷ ("offline", OrgNodeStatus.degraded)
        ∷ ("", OrgNodeStatus.degraded)
        ∷ [])
      OrgNodeStatus.degraded (normalize t)

-- The statuses that a synchronisation leaves.
abbrev pub is_held : OrgNodeStatus → Bool
is_held OrgNodeStatus.disabled = true
is_held OrgNodeStatus.error = true
is_held OrgNodeStatus.pending = true
is_held OrgNodeStatus.provisioning = true
is_held _ = false

abbrev pub with_status : OrgNodeStatus → OrgNode → OrgNode
with_status st n = if is_held n.status then n else record n { status = st }

-- SyncOrgNodeStatusFromRuntime
unfoldable pub sync_org_node_status_from_runtime : ℕ → Text → Fleet → Fleet
unfolding runtime_to_org_node_status
sync_org_node_status_from_runtime peer status s = record s {
  org_nodes = adjust peer (with_status (runtime_to_org_node_status status)) s.org_nodes;
}

-- The CASE of SyncAllOrgNodeStatusesFromRuntime, which compares exactly.
unfoldable pub bulk_status : Text → OrgNodeStatus
bulk_status t =
    named (("online", OrgNodeStatus.active) ∷ ("draining", OrgNodeStatus.degraded) ∷ [])
      OrgNodeStatus.degraded t

-- The row of an organization's node, joined with that of the node itself.
abbrev pub synced : Option Node → OrgNode → OrgNode
synced none n = n
synced (some r) n = with_status (bulk_status r.status) n

unfoldable pub sync_rows : Table Node → Table OrgNode → Table OrgNode
unfolding lookup bulk_status
sync_rows nodes [] = []
sync_rows nodes ((peer, n) ∷ t) = (peer, synced (lookup peer nodes) n) ∷ sync_rows nodes t

-- SyncAllOrgNodeStatusesFromRuntime
unfoldable pub sync_all_org_node_statuses_from_runtime : Fleet → Fleet
unfolding sync_rows
sync_all_org_node_statuses_from_runtime s = record s {
  org_nodes = sync_rows s.db.nodes s.org_nodes;
}

-- SetNodeStatus
unfoldable pub set_node_status : ℕ → Text → Fleet → Fleet
unfolding sync_org_node_status_from_runtime
set_node_status peer status s =
    sync_org_node_status_from_runtime peer status
      (update_nodes (adjust peer (λ n. record n { status = status })) s)

abbrev pub is_stale : ℕ → Option ℕ → Bool
is_stale cutoff none = true
is_stale cutoff (some t) = ltb t cutoff

abbrev pub goes_offline : ℕ → Node → Bool
goes_offline cutoff n = not (text_eq n.status (codes "offline")) && is_stale cutoff n.last_heartbeat

-- MarkStaleNodesOffline, with the number of nodes; `cutoff` is the present less the window.
unfoldable pub mark_stale_nodes_offline : ℕ → Fleet → ℕ × Fleet
unfolding sync_all_org_node_statuses_from_runtime count
mark_stale_nodes_offline cutoff s = (
  count (goes_offline cutoff) s.db.nodes,
  sync_all_org_node_statuses_from_runtime (
      update_nodes (update_where (goes_offline cutoff) (λ n. record n { status = codes "offline" }))
        s),
)

-- TouchOrgNodeHeartbeat
unfoldable pub touch_org_node_heartbeat : ℕ → ℕ → Fleet → Fleet
touch_org_node_heartbeat peer now s = record s {
  org_nodes =
      adjust peer (λ n. record n { last_seen_at = some now; status = OrgNodeStatus.active })
        s.org_nodes;
}

-- ApplyHeartbeat, less the load.
unfoldable pub apply_heartbeat : ℕ → Text → ℕ → Fleet → Fleet
apply_heartbeat peer status now s =
    update_nodes (adjust peer (λ n. record n { status = status; last_heartbeat = some now })) s

-- ApplyNodeHeartbeat
unfoldable pub apply_node_heartbeat : ℕ → Text → ℕ → Fleet → Fleet
unfolding apply_heartbeat touch_org_node_heartbeat
apply_node_heartbeat peer status now s =
    touch_org_node_heartbeat peer now (apply_heartbeat peer status now s)

-- The access mode that a text says, or none.
abbrev pub access_mode_of : Text → Option Bool
access_mode_of t = named (("public", some true) ∷ ("private", some false) ∷ []) none t

abbrev or_else : Option Bool → Bool → Bool
or_else none b = b
or_else (some a) b = a

-- ApplyHello, less the endpoints and the hardware.
unfoldable pub apply_hello : ℕ → Text → ℕ → Fleet → Fleet
apply_hello peer access now s =
    update_nodes
      (adjust peer (λ n. record n {
        is_public = or_else (access_mode_of access) n.is_public;
        status = codes "online";
        last_heartbeat = some now;
      }))
      s

-- An UPDATE of one node, with ErrNotFound where no row is affected.
abbrev update_node : ℕ → (Node → Node) → Tx Fleet (Unit {0})
update_node peer f = do
  s ← get
  from_option (lookup peer s.db.nodes) not_found
  modify (update_nodes (adjust peer f))

-- SetNodeMinTier
unfoldable pub set_node_min_tier : ℕ → ℕ → Tx Fleet (Unit {0})
set_node_min_tier peer min_tier = update_node peer (λ n. record n { min_tier = min_tier })

-- SetNodeOrg
unfoldable pub set_node_org : ℕ → Option ℕ → Tx Fleet (Unit {0})
set_node_org peer org = update_node peer (λ n. record n { org = org })

-- SetNodeAccessMode
unfoldable pub set_node_access_mode : ℕ → Text → Tx Fleet (Unit {0})
set_node_access_mode peer mode = do
  public ← from_option (access_mode_of mode) refused
  update_node peer (λ n. record n { is_public = public })

abbrev is_empty : Text → Bool
is_empty [] = true
is_empty (_ ∷ _) = false

-- NodeKeyMatches, for a peer id that is not empty.
unfoldable pub node_key_matches : ℕ → Text → Tx Fleet Bool
unfolding trim_space
node_key_matches peer key = get >>= λ s.
    if is_empty (trim_space key)
    then pure false
    else from_option (lookup peer s.db.nodes) not_found >>= λ n.
        pure (text_eq n.node_key (trim_space key))
