-- ===== src/Vpn/Tests.antt =====
-- What the theorems about VPN clients say of user 7 and a public node 3.
use Prim.Native.String.{String}
use erebrus_gateway.Base.{◌≡◌, refl, true, false, none, some, [], ◌∷◌, arith}
use erebrus_gateway.Base.Int.{pos}
use erebrus_gateway.Base.Table.{lookup, find_row}
use erebrus_gateway.Base.Text.{codes, trim_space}
use erebrus_gateway.Base.Tx.{Result, ok, err}
use erebrus_gateway.Drop.Samples.{empty, online}
use erebrus_gateway.Drop.Tier.{resolve_drop_entitlement, normalize_drop_tier}
use erebrus_gateway.Vpn.PlanTier.{vpn_plan-drop_tier}
use erebrus_gateway.Vpn.Plan.{user_org_vpn_plan}
use erebrus_gateway.Model.Drop.{Node}
use erebrus_gateway.Model.Org.{Tier}
use erebrus_gateway.Vpn.Clients.{
  Client, ClientStatus, VpnDb, find_client_by_user_node_wg_key, add_usage,
}
use erebrus_gateway.Vpn.Metering.{Changes, History, IsMetered, days_of, History-IsMetered}
use erebrus_gateway.Vpn.Provision.{do_provision, trim_slashes}
use erebrus_gateway.Vpn.Reconnect.{IsCallable, do_provision_reconnects, do_provision_unreachable}

abbrev node : Node
node = record online { api_base_url = codes "http://n" }

abbrev device : Client
device = record {
  user = 7;
  org = none;
  node = 30;
  wg_public_key = codes "wg";
  wg_allowed_ip = codes "10.0.0.2";
  status = ClientStatus.active;
  rx_bytes = 0;
  tx_bytes = 0;
  last_handshake = none;
}

abbrev start : VpnDb
start = record {
  db = record empty { nodes = (3, node) ∷ [] };
  node_ids = (3, 30) ∷ [];
  handshakes = [];
  clients = (60, device) ∷ [];
  usage = [];
  next = 61;
}

start-IsMetered : IsMetered start
unfolding lookup days_of
start-IsMetered = record {
  one_each = (refl, tt);
  unborn = λ i h. ground arith;
  agree = λ i. ground arith;
}

abbrev left : Result (Unit {0} × VpnDb) → VpnDb
left (ok (u, s)) = s
left (err e) = start

abbrev metered : VpnDb
metered = left (add_usage 60 (pos 700) (pos 20) (pos 0) 3 start)

meters : add_usage 60 (pos 700) (pos 20) (pos 0) 3 start ≡ ok (tt, metered)
unfolding add_usage lookup
meters = refl

History-IsMetered_example : IsMetered metered
History-IsMetered_example =
    History-IsMetered
      (History.next (Changes.meters 60 3 (pos 700) (pos 20) (pos 0) meters) History.done)
      start-IsMetered

callable : IsCallable 3 30 node start
unfolding lookup trim_slashes trim_space
callable = record {
  known = refl;
  numbered = refl;
  not_draining = refl;
  addressed = refl;
  reachable = refl;
}

do_provision_reconnects_example :
    ((do_provision 7 none 3 (codes "wg") false true (some (codes "10.0.0.9")) start).0 ≡ 201)
    × (lookup 60
          (do_provision 7 none 3 (codes "wg") false true (some (codes "10.0.0.9")) start).1.clients
        ≡ some (record device { status = ClientStatus.active; wg_allowed_ip = codes "10.0.0.9" }))
    × ((do_provision 7 none 3 (codes "wg") false true (some (codes "10.0.0.9")) start).1.next ≡ 61)
unfolding find_client_by_user_node_wg_key find_row
do_provision_reconnects_example =
    do_provision_reconnects 7 3 30 60 none (codes "wg") (codes "10.0.0.9") false node device start
      start-IsMetered.one_each callable refl

do_provision_unreachable_example :
    ((do_provision 7 none 3 (codes "wg") false true none start).0 ≡ 502)
    × (lookup 60 start.clients ≡ some device)
    × (lookup 60 (do_provision 7 none 3 (codes "wg") false true none start).1.clients ≡ none)
unfolding find_client_by_user_node_wg_key find_row
do_provision_unreachable_example =
    do_provision_unreachable 7 3 30 60 none (codes "wg") false node device start
      start-IsMetered.one_each callable refl

-- A node whose address is only a slash gets the handler to panic, and the row of the client stays.
slash_panics :
    (do_provision 7 none 3 (codes "other") true true (some (codes "10.0.0.9")) (record start {
      db = record empty { nodes = (3, record node { api_base_url = codes "/" }) ∷ [] };
    })).0
    ≡ 500
unfolding do_provision lookup find_row
slash_panics = refl

vpn_plan-drop_tier_example :
    (resolve_drop_entitlement start.db 7).tier
    ≡ (elim (user_org_vpn_plan start.db 7) [ none ↦ Tier.free | some t ↦ normalize_drop_tier t ])
vpn_plan-drop_tier_example = vpn_plan-drop_tier start.db 7
