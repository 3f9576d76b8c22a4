-- ===== src/Vpn/Clients.antt =====
-- The VPN clients of users and their traffic (internal/store/clients.go). The key of a device and the
-- address of a client are texts that are only compared or kept; a day is a number.
use erebrus_gateway.Base.{
  ℕ, zero, suc, ◌+◌, Bool, true, false, not, ◌&&◌, Option, none, some, List, [], ◌∷◌, ltb, ◌==◌,
  if◌then◌else◌,
}
use erebrus_gateway.Base.Int.{ℤ, pos, negsuc, i64_limit}
use erebrus_gateway.Base.Table.{Table, lookup, insert, adjust, find_row, delete_where}
use erebrus_gateway.Base.Text.{Text, text_eq}
use erebrus_gateway.Base.Tx.{db_error, Tx, ◌>>=◌, ◌>>◌, pure, get, modify, guard}
use erebrus_gateway.Model.Db.{Db}

pub data ClientStatus : Type 0 where
  pending active deleting : ClientStatus

-- A row of vpn_clients; `node` is the internal identifier of a node, not its peer id.
pub record Client : Type 0 where
  pub user : ℕ
  pub org : Option ℕ
  pub node : ℕ
  pub wg_public_key : Text
  pub wg_allowed_ip : Text
  pub status : ClientStatus
  pub rx_bytes : ℕ
  pub tx_bytes : ℕ
  pub last_handshake : Option ℕ

-- A row of usage_daily; (client, day) is unique.
pub record Usage : Type 0 where
  pub client : ℕ
  pub day : ℕ
  pub rx_bytes : ℕ
  pub tx_bytes : ℕ

pub record VpnDb : Type 0 where
  pub db : Db
  pub node_ids : Table ℕ  -- the internal identifier, by peer id
  pub handshakes : Table ℕ  -- last_peer_handshake, by the internal identifier of the node
  pub clients : Table Client  -- the newest first
  pub usage : List Usage
  pub next : ℕ

abbrev pub is_deleting : ClientStatus → Bool
is_deleting ClientStatus.deleting = true
is_deleting _ = false

abbrev pub is_pending : ClientStatus → Bool
is_pending ClientStatus.pending = true
is_pending _ = false

-- The clients of one device of a user on a node.
abbrev pub is_device : ℕ → ℕ → Text → Client → Bool
is_device user node wg c = c.user == user && c.node == node && text_eq c.wg_public_key wg

abbrev pub is_reusable : ℕ → ℕ → Text → Client → Bool
is_reusable user node wg c = is_device user node wg c && not (is_deleting c.status)

-- FindClientByUserNodeWGKey
unfoldable pub find_client_by_user_node_wg_key : ℕ → ℕ → Text → VpnDb → Option (ℕ × Client)
find_client_by_user_node_wg_key user node wg s = find_row (is_reusable user node wg) s.clients

-- ON DELETE CASCADE: the traffic of the clients that are still there.
unfoldable pub cascade : Table Client → List Usage → List Usage
cascade t [] = []
cascade t (u ∷ us) =
    let rest = cascade t us in elim (lookup u.client t) [ none ↦ rest | some c ↦ u ∷ rest ]

-- DELETE FROM vpn_clients WHERE p
unfoldable pub delete_clients : (ℕ → Client → Bool) → VpnDb → VpnDb
unfolding cascade
delete_clients p s =
    let t = delete_where p s.clients in record s { clients = t; usage = cascade t s.usage }

-- DeleteClient
unfoldable pub delete_client : ℕ → VpnDb → VpnDb
unfolding delete_clients
delete_client id s = delete_clients (λ k c. k == id) s

abbrev pub is_ghost : ℕ → ℕ → Text → ℕ → ℕ → Client → Bool
is_ghost user node wg keep id c =
    is_device user node wg c && is_pending c.status && not (id == keep)

-- DeletePendingClientsByUserNodeWGKey
unfoldable pub delete_pending_clients_by_user_node_wg_key : ℕ → ℕ → Text → ℕ → VpnDb → VpnDb
unfolding delete_clients
delete_pending_clients_by_user_node_wg_key user node wg keep s =
    delete_clients (is_ghost user node wg keep) s

abbrev pub new_client : ℕ → Option ℕ → ℕ → Text → Client
new_client user org node wg = record {
  user = user;
  org = org;
  node = node;
  wg_public_key = wg;
  wg_allowed_ip = [];
  status = ClientStatus.pending;
  rx_bytes = 0;
  tx_bytes = 0;
  last_handshake = none;
}

-- CreateClient, with the identifier of the new row.
unfoldable pub create_client : ℕ → Option ℕ → ℕ → Text → VpnDb → ℕ × VpnDb
create_client user org node wg s = (
  s.next,
  record s { clients = (s.next, new_client user org node wg) ∷ s.clients; next = suc s.next },
)

-- SetClientActive
unfoldable pub set_client_active : ℕ → Text → VpnDb → VpnDb
set_client_active id ip s = record s {
  clients =
      adjust id (λ c. record c { status = ClientStatus.active; wg_allowed_ip = ip }) s.clients;
}

abbrev is_active_row : ℕ → Client → ℕ
is_active_row user c = if c.user == user && not (is_deleting c.status) then 1 else 0

-- CountActiveClientsByUser
unfoldable pub count_active_clients_by_user : ℕ → Table Client → ℕ
count_active_clients_by_user user [] = 0
count_active_clients_by_user user ((k, c) ∷ t) =
    is_active_row user c + count_active_clients_by_user user t

-- A counter of traffic as the statement takes it: not under 0.
abbrev pub positive : ℤ → ℕ
positive (pos n) = n
positive (negsuc n) = 0

-- INSERT INTO usage_daily ... ON CONFLICT (client_id, day) DO UPDATE
unfoldable pub add_daily : ℕ → ℕ → ℕ → ℕ → List Usage → List Usage
add_daily id day rx tx [] = record { client = id; day = day; rx_bytes = rx; tx_bytes = tx } ∷ []
add_daily id day rx tx (u ∷ us) =
    let rest = add_daily id day rx tx us in
    if u.client == id && u.day == day
    then record u { rx_bytes = u.rx_bytes + rx; tx_bytes = u.tx_bytes + tx } ∷ us
    else u ∷ rest

abbrev later : Option ℕ → ℕ → ℕ
later none t = t
later (some u) t = if ltb u t then t else u

abbrev pub shaken : ℤ → Option ℕ → Option ℕ
shaken (pos (suc n)) old = some (suc n)
shaken (pos zero) old = old
shaken (negsuc n) old = old

abbrev node_shaken : ℕ → ℤ → Table ℕ → Table ℕ
node_shaken node (pos (suc n)) t = insert node (later (lookup node t) (suc n)) t
node_shaken node (pos zero) t = t
node_shaken node (negsuc n) t = t

-- AddUsage, on `day`: an unknown client is no error, and a counter that leaves bigint is one.
unfoldable pub add_usage : ℕ → ℤ → ℤ → ℤ → ℕ → Tx VpnDb (Unit {0})
unfolding add_daily
add_usage id rx_delta tx_delta handshake day = get >>= λ s. elim (lookup id s.clients) [
  | none ↦ pure tt
  | some c ↦
      guard (ltb (c.rx_bytes + positive rx_delta) i64_limit) db_error
      >> guard (ltb (c.tx_bytes + positive tx_delta) i64_limit) db_error
      >> modify (λ t. record t {
        clients =
            adjust id
              (λ x. record x {
                rx_bytes = c.rx_bytes + positive rx_delta;
                tx_bytes = c.tx_bytes + positive tx_delta;
                last_handshake = shaken handshake c.last_handshake;
              })
              t.clients;
        usage = add_daily id day (positive rx_delta) (positive tx_delta) t.usage;
        handshakes = node_shaken c.node handshake t.handshakes;
      })
]

-- A user's own sum of UserBandwidth, from the clients' identifiers and the days since `since`.
unfoldable pub bandwidth_of : (ℕ → Bool) → ℕ → List Usage → ℕ × ℕ
bandwidth_of mine since [] = (0, 0)
bandwidth_of mine since (u ∷ us) =
    let rest = bandwidth_of mine since us in
    if mine u.client && not (ltb u.day since)
    then (u.rx_bytes + rest.0, u.tx_bytes + rest.1)
    else rest

abbrev is_client_of : ℕ → Option Client → Bool
is_client_of user none = false
is_client_of user (some c) = c.user == user

-- UserBandwidth and TotalBandwidth
unfoldable pub user_bandwidth : ℕ → ℕ → VpnDb → ℕ × ℕ
unfolding bandwidth_of
user_bandwidth user since s =
    bandwidth_of (λ id. is_client_of user (lookup id s.clients)) since s.usage

unfoldable pub total_bandwidth : ℕ → VpnDb → ℕ × ℕ
unfolding bandwidth_of
total_bandwidth since s = bandwidth_of (λ id. true) since s.usage
