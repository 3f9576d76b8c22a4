-- ===== src/Vpn/Reconnect.antt =====
-- Who gets a VPN client, and what becomes of the client of a device that connects again.
use Prim.Native.String.{String}
use erebrus_gateway.Base.{ℕ, ◌≡◌, Bool, true, false, Option, none, some, [], ◌∷◌, arith, ◌==◌, refl}
use erebrus_gateway.Base.Keys.{
  IsUnique, lookup-delete_where, delete_where-IsUnique, lookup-find_row, lookup-adjust,
}
use erebrus_gateway.Base.Table.{Table, lookup, delete_where}
use erebrus_gateway.Base.Text.{Text, codes, text_eq, trim_space}
use erebrus_gateway.Model.Drop.{Node}
use erebrus_gateway.Vpn.Clients.{
  Client, ClientStatus, VpnDb, find_client_by_user_node_wg_key, is_ghost, is_reusable,
  delete_clients, delete_pending_clients_by_user_node_wg_key, delete_client, set_client_active,
}
use erebrus_gateway.Vpn.Provision.{
  is_blank, trim_slashes, node_api_candidates, upsert_peer_with_fallback, finish_provision,
  call_node, with_client, do_provision,
}

-- The clients after the ghosts of a device are deleted.
abbrev pub kept_clients : ℕ → ℕ → Text → ℕ → VpnDb → Table Client
kept_clients user node wg id s = delete_where (is_ghost user node wg id) s.clients

kept-lookup :
    (user node id : ℕ) (wg : Text) (c : Client) (s : VpnDb)
    → IsUnique s.clients
    → find_client_by_user_node_wg_key user node wg s ≡ some (id, c)
    → lookup id (kept_clients user node wg id s) ≡ some c
unfolding find_client_by_user_node_wg_key
kept-lookup user node id wg c s unique found =
    let here = lookup-find_row (is_reusable user node wg) id c s.clients unique found in
    ground (arith, lookup-delete_where (is_ghost user node wg id) id s.clients unique, here)

-- A node that takes connections: it has an address to call and is not draining.
pub record IsCallable (peer node : ℕ) (n : Node) (s : VpnDb) : Type 0 where
  pub known : lookup peer s.db.nodes ≡ some n
  pub numbered : lookup peer s.node_ids ≡ some node
  pub not_draining : text_eq n.status (codes "draining") ≡ false
  pub addressed : is_blank n.api_base_url ≡ false
  pub reachable : is_blank (trim_slashes (trim_space n.api_base_url)) ≡ false

reconnect-call :
    (user peer node id : ℕ) (org : Option ℕ) (wg : Text) (accepting : Bool) (answer : Option Text)
    (n : Node) (c : Client) (s : VpnDb)
    → IsCallable peer node n s
    → find_client_by_user_node_wg_key user node wg s ≡ some (id, c)
    → do_provision user org peer wg accepting true answer s
      ≡ finish_provision id
          (upsert_peer_with_fallback (trim_slashes (trim_space n.api_base_url) ∷ []) answer)
          (delete_pending_clients_by_user_node_wg_key user node wg id s)
unfolding do_provision with_client call_node node_api_candidates
reconnect-call user peer node id org wg accepting answer n c s k found =
    ground (arith, k.known, k.numbered, k.not_draining, k.addressed, k.reachable, found)

activated :
    (user node id : ℕ) (wg ip u : Text) (c : Client) (s : VpnDb)
    → IsUnique s.clients
    → find_client_by_user_node_wg_key user node wg s ≡ some (id, c)
    → ((finish_provision id
          (upsert_peer_with_fallback (u ∷ []) (some ip))
          (delete_pending_clients_by_user_node_wg_key user node wg id s)).0
        ≡ 201)
      × (lookup id
            (finish_provision id
              (upsert_peer_with_fallback (u ∷ []) (some ip))
              (delete_pending_clients_by_user_node_wg_key user node wg id s)).1.clients
          ≡ some (record c { status = ClientStatus.active; wg_allowed_ip = ip }))
      × ((finish_provision id
            (upsert_peer_with_fallback (u ∷ []) (some ip))
            (delete_pending_clients_by_user_node_wg_key user node wg id s)).1.next
          ≡ s.next)
unfolding finish_provision upsert_peer_with_fallback set_client_active delete_clients
    delete_pending_clients_by_user_node_wg_key
activated user node id wg ip u c s unique found =
    let f : Client → Client = λ x. record x { status = ClientStatus.active; wg_allowed_ip = ip } in
    let kept = kept-lookup user node id wg c s unique found in
    let now = lookup-adjust id id f (kept_clients user node wg id s) in
    (refl, ground (arith, kept, now), refl)

lost :
    (user node id : ℕ) (wg u : Text) (c : Client) (s : VpnDb)
    → IsUnique s.clients
    → find_client_by_user_node_wg_key user node wg s ≡ some (id, c)
    → ((finish_provision id
          (upsert_peer_with_fallback (u ∷ []) none)
          (delete_pending_clients_by_user_node_wg_key user node wg id s)).0
        ≡ 502)
      × (lookup id s.clients ≡ some c)
      × (lookup id
            (finish_provision id
              (upsert_peer_with_fallback (u ∷ []) none)
              (delete_pending_clients_by_user_node_wg_key user node wg id s)).1.clients
          ≡ none)
unfolding finish_provision upsert_peer_with_fallback delete_client delete_clients
    delete_pending_clients_by_user_node_wg_key find_client_by_user_node_wg_key
lost user node id wg u c s unique found =
    let kept = kept_clients user node wg id s in
    let still = delete_where-IsUnique (is_ghost user node wg id) s.clients unique in
    (
      refl,
      lookup-find_row (is_reusable user node wg) id c s.clients unique found,
      ground (
        arith,
        lookup-delete_where (λ k x. k == id) id kept still,
        kept-lookup user node id wg c s unique found,
      ),
    )

-- A device that connects again to a node that can be called, and answers, gets the client that it
-- has, whether or not the node takes new clients: the client is active with the address that the
-- node gives, and no identifier is used up.
pub do_provision_reconnects :
    (user peer node id : ℕ) (org : Option ℕ) (wg ip : Text) (accepting : Bool) (n : Node)
    (c : Client) (s : VpnDb)
    → IsUnique s.clients
    → IsCallable peer node n s
    → find_client_by_user_node_wg_key user node wg s ≡ some (id, c)
    → ((do_provision user org peer wg accepting true (some ip) s).0 ≡ 201)
      × (lookup id (do_provision user org peer wg accepting true (some ip) s).1.clients
          ≡ some (record c { status = ClientStatus.active; wg_allowed_ip = ip }))
      × ((do_provision user org peer wg accepting true (some ip) s).1.next ≡ s.next)
do_provision_reconnects user peer node id org wg ip accepting n c s unique k found =
    rw (reconnect-call user peer node id org wg accepting (some ip) n c s k found)
      (activated user node id wg ip (trim_slashes (trim_space n.api_base_url)) c s unique found)

-- A device that connects again to a node that can be called but does not answer loses the client
-- that it has, also an active one.
pub do_provision_unreachable :
    (user peer node id : ℕ) (org : Option ℕ) (wg : Text) (accepting : Bool) (n : Node) (c : Client)
    (s : VpnDb)
    → IsUnique s.clients
    → IsCallable peer node n s
    → find_client_by_user_node_wg_key user node wg s ≡ some (id, c)
    → ((do_provision user org peer wg accepting true none s).0 ≡ 502)
      × (lookup id s.clients ≡ some c)
      × (lookup id (do_provision user org peer wg accepting true none s).1.clients ≡ none)
do_provision_unreachable user peer node id org wg accepting n c s unique k found =
    rw (reconnect-call user peer node id org wg accepting none n c s k found)
      (lost user node id wg (trim_slashes (trim_space n.api_base_url)) c s unique found)
