-- ===== src/Vpn/Provision.antt =====
-- The handlers that give a user a VPN client on a node (internal/api/vpn.go). The node is a parameter:
-- `answer` is the address that it gives the client, or none when it cannot be reached; whether it
-- takes new clients (acceptingClients compares fractions of its load) and whether the gateway signs
-- its call are given, too. Bodies that lack a field are left out.
use erebrus_gateway.Base.{
  ℕ, Bool, true, false, not, ◌&&◌, ◌||◌, Option, none, some, List, [], ◌∷◌, ltb, ◌==◌,
  if◌then◌else◌,
}
use erebrus_gateway.Base.Table.{lookup}
use erebrus_gateway.Base.Text.{Text, codes, text_eq, trim_space}
use erebrus_gateway.Vpn.Plan.{user_org_vpn_plan}
use erebrus_gateway.Model.Db.{Db}
use erebrus_gateway.Model.Drop.{Node}
use erebrus_gateway.Orgs.Seats.{active_membership}
use erebrus_gateway.Vpn.Clients.{
  VpnDb, find_client_by_user_node_wg_key, delete_pending_clients_by_user_node_wg_key, create_client,
  delete_client, set_client_active,
}

abbrev pub is_blank : Text → Bool
is_blank [] = true
is_blank (_ ∷ _) = false

-- strings.TrimRight(t, "/")
unfoldable pub trim_slashes : Text → Text
trim_slashes [] = []
trim_slashes (c ∷ t) =
    let rest = trim_slashes t in if c == b'/' && is_blank rest then [] else c ∷ rest

-- nodeAPICandidates
unfoldable pub node_api_candidates : Text → List Text
unfolding trim_slashes trim_space
node_api_candidates base =
    let u = trim_slashes (trim_space base) in if is_blank u then [] else u ∷ []

-- What the call of a node comes to: a bundle, an error, or, without any address to call, neither, in
-- which case the bundle is nil.
pub data Upserted : Type 0 where
  bundle : Text → Upserted
  unreachable : Upserted
  nil_bundle : Upserted

-- upsertPeerWithFallback
unfoldable pub upsert_peer_with_fallback : List Text → Option Text → Upserted
upsert_peer_with_fallback [] answer = Upserted.nil_bundle
upsert_peer_with_fallback (u ∷ us) (some ip) = Upserted.bundle ip
upsert_peer_with_fallback (u ∷ us) none = Upserted.unreachable

-- The end of doProvision for the client `id`: with a nil bundle the handler panics, which the server
-- answers with 500.
unfoldable pub finish_provision : ℕ → Upserted → VpnDb → ℕ × VpnDb
unfolding delete_client set_client_active
finish_provision id (Upserted.bundle ip) s = (201, set_client_active id ip s)
finish_provision id Upserted.unreachable s = (502, delete_client id s)
finish_provision id Upserted.nil_bundle s = (500, s)

-- The call of the node, for the client `id`.
unfoldable pub call_node : ℕ → Text → Bool → Option Text → VpnDb → ℕ × VpnDb
unfolding node_api_candidates upsert_peer_with_fallback finish_provision
call_node id base signed answer s =
    if signed
    then finish_provision id (upsert_peer_with_fallback (node_api_candidates base) answer) s
    else (500, s)

-- The client of the device: the one that is there, or a new one, or a refusal.
unfoldable pub with_client :
    ℕ → Option ℕ → ℕ → Text → Bool → (ℕ → VpnDb → ℕ × VpnDb) → VpnDb → ℕ × VpnDb
unfolding find_client_by_user_node_wg_key delete_pending_clients_by_user_node_wg_key create_client
with_client user org node wg accepting k s = elim (find_client_by_user_node_wg_key user node wg s) [
  | some e ↦ k e.0 (delete_pending_clients_by_user_node_wg_key user node wg e.0 s)
  | none ↦
      if accepting then (let (id, t) = create_client user org node wg s in k id t) else (503, s)
]

-- doProvision
unfoldable pub do_provision :
    ℕ → Option ℕ → ℕ → Text → Bool → Bool → Option Text → VpnDb → ℕ × VpnDb
unfolding with_client call_node
do_provision user org peer wg accepting signed answer s = elim (lookup peer s.db.nodes) [
  | none ↦ (404, s)
  | some n ↦ elim (lookup peer s.node_ids) [
    | none ↦ (404, s)
    | some node ↦
        if text_eq n.status (codes "draining")
        then (409, s)
        else if is_blank n.api_base_url
        then (502, s)
        else with_client user org node wg accepting
            (λ id. call_node id n.api_base_url signed answer) s
  ]
]

abbrev is_member : Option ℕ → ℕ → Db → Bool
unfolding active_membership
is_member none user db = false
is_member (some org) user db = elim (active_membership org user db) [ none ↦ false | some m ↦ true ]

-- UserCanProvisionNode
unfoldable pub user_can_provision_node : Node → ℕ → Db → Bool
unfolding is_member
user_can_provision_node n user db = n.is_public || is_member n.org user db

-- The refusal of a caller who is no administrator, as a status; `tier` is that of the caller's
-- points.
unfoldable pub not_entitled : ℕ → ℕ → Node → Db → Option ℕ
unfolding user_can_provision_node user_org_vpn_plan
not_entitled user tier n db =
    if not n.is_public && not (user_can_provision_node n user db)
    then some 403
    else elim (if n.is_public then user_org_vpn_plan db user else some "free") [
      | none ↦ some 402
      | some t ↦ if ltb tier n.min_tier then some 403 else none
    ]

-- handleProvisionClient
unfoldable pub handle_provision_client :
    ℕ → Bool → ℕ → ℕ → Text → Bool → Bool → Option Text → VpnDb → ℕ × VpnDb
unfolding not_entitled do_provision
handle_provision_client user admin tier peer wg accepting signed answer s =
    elim (lookup peer s.db.nodes) [
      | none ↦ (404, s)
      | some n ↦ elim (if admin then none else not_entitled user tier n s.db) [
        | some status ↦ (status, s)
        | none ↦ do_provision user none peer wg accepting signed answer s
      ]
    ]
