-- ===== src/Vpn/Metering.antt =====
-- The traffic of a client is what its days say.
use erebrus_gateway.Base.{
  ℕ, ◌+◌, ◌≤◌, ◌≡◌, Bool, ◌&&◌, Option, none, some, List, [], ◌∷◌, arith, ◌==◌, if◌then◌else◌,
  Bool-cases, Option-cases, inl, inr,
}
use erebrus_gateway.Base.Int.{ℤ}
use erebrus_gateway.Base.Keys.{
  IsUnique, lookup-delete_where, delete_where-IsUnique, lookup-adjust, adjust-IsUnique,
}
use erebrus_gateway.Base.Table.{Table, lookup, adjust, delete_where}
use erebrus_gateway.Base.Text.{Text}
use erebrus_gateway.Base.Tx.{ok}
use erebrus_gateway.Vpn.Clients.{
  Client, ClientStatus, Usage, VpnDb, cascade, delete_clients, create_client, set_client_active,
  positive, shaken, add_daily, add_usage, delete_client, delete_pending_clients_by_user_node_wg_key,
  is_ghost,
}

-- The bytes received and sent by a client on all its days.
unfoldable pub days_of : ℕ → List Usage → ℕ × ℕ
days_of i [] = (0, 0)
days_of i (u ∷ us) =
    let rest = days_of i us in
    if u.client == i then (u.rx_bytes + rest.0, u.tx_bytes + rest.1) else rest

-- The bytes that a client's row says; a client without a row has none.
abbrev pub bytes_of : Option Client → ℕ × ℕ
bytes_of none = (0, 0)
bytes_of (some c) = (c.rx_bytes, c.tx_bytes)

-- Every client's row says what its days say, and new identifiers are new.
pub record IsMetered (s : VpnDb) : Type 0 where
  pub one_each : IsUnique s.clients
  pub unborn : (i : ℕ) → s.next ≤ i → lookup i s.clients ≡ none
  pub agree : (i : ℕ) → bytes_of (lookup i s.clients) ≡ days_of i s.usage

days-cascade :
    (i : ℕ) (t : Table Client) (us : List Usage)
    → days_of i (cascade t us) ≡ (elim (lookup i t) [ none ↦ (0, 0) | some c ↦ days_of i us ])
unfolding days_of cascade
days-cascade i t [] = elim (Option-cases (lookup i t)) [
  | inl gone ↦ ground arith
  | inr (c, here) ↦ ground arith
]
days-cascade i t (u ∷ us) = elim (Bool-cases (u.client == i)) [
  | inl own ↦
      let same : u.client ≡ i = ground arith in
      elim (Option-cases (lookup i t)) [
        | inl gone ↦ ground (arith, days-cascade i t us, same)
        | inr (c, here) ↦ ground (arith, days-cascade i t us, same)
      ]
  | inr other ↦ elim (Option-cases (lookup u.client t)) [
    | inl gone ↦ ground (arith, days-cascade i t us)
    | inr (c, here) ↦ ground (arith, days-cascade i t us)
  ]
]

days-add_daily :
    (i id day rx tx : ℕ) (us : List Usage)
    → days_of i (add_daily id day rx tx us)
      ≡ (if id == i then ((days_of i us).0 + rx, (days_of i us).1 + tx) else days_of i us)
unfolding days_of add_daily
days-add_daily i id day rx tx [] = ground arith
days-add_daily i id day rx tx (u ∷ us) = elim (Bool-cases (u.client == id && u.day == day)) [
  | inl here ↦ ground arith
  | inr there ↦ ground (arith, days-add_daily i id day rx tx us)
]

pub delete_clients-IsMetered :
    (p : ℕ → Client → Bool) (s : VpnDb) → IsMetered s → IsMetered (delete_clients p s)
unfolding delete_clients
delete_clients-IsMetered p s m = record {
  one_each = delete_where-IsUnique p s.clients m.one_each;
  unborn = λ i h. ground (arith, lookup-delete_where p i s.clients m.one_each, m.unborn i h);
  agree = λ i. elim (Option-cases (lookup i s.clients)) [
    | inl gone ↦ ground (
      arith,
      lookup-delete_where p i s.clients m.one_each,
      days-cascade i (delete_where p s.clients) s.usage,
    )
    | inr (c, here) ↦ elim (Bool-cases (p i c)) [
      | inl deleted ↦ ground (
        arith,
        lookup-delete_where p i s.clients m.one_each,
        days-cascade i (delete_where p s.clients) s.usage,
      )
      | inr kept ↦ ground (
        arith,
        lookup-delete_where p i s.clients m.one_each,
        days-cascade i (delete_where p s.clients) s.usage,
        m.agree i,
      )
    ]
  ];
}

pub create_client-IsMetered :
    (user : ℕ) (org : Option ℕ) (node : ℕ) (wg : Text) (s : VpnDb)
    → IsMetered s
    → IsMetered (create_client user org node wg s).1
unfolding create_client lookup
create_client-IsMetered user org node wg s m = record {
  one_each = (m.unborn s.next (ground arith), m.one_each);
  unborn = λ i h. ground (arith, m.unborn i);
  agree = λ i. ground (arith, m.agree i, m.unborn i);
}

pub set_client_active-IsMetered :
    (id : ℕ) (ip : Text) (s : VpnDb) → IsMetered s → IsMetered (set_client_active id ip s)
unfolding set_client_active
set_client_active-IsMetered id ip s m =
    let f : Client → Client = λ c. record c { status = ClientStatus.active; wg_allowed_ip = ip } in
    record {
      one_each = adjust-IsUnique id f s.clients m.one_each;
      unborn = λ i h. ground (arith, lookup-adjust id i f s.clients, m.unborn i h);
      agree = λ i. ground (arith, lookup-adjust id i f s.clients, m.agree i);
    }

added :
    (id day rx tx : ℕ) (shake : Option ℕ) (c : Client) (s : VpnDb)
    → IsMetered s
    → lookup id s.clients ≡ some c
    → (i : ℕ)
    → bytes_of (
        lookup i (
          adjust id
            (λ x. record x {
              rx_bytes = c.rx_bytes + rx;
              tx_bytes = c.tx_bytes + tx;
              last_handshake = shake;
            })
            s.clients))
      ≡ days_of i (add_daily id day rx tx s.usage)
added id day rx tx shake c s m here i =
    let f : Client → Client = λ x. record x {
      rx_bytes = c.rx_bytes + rx;
      tx_bytes = c.tx_bytes + tx;
      last_handshake = shake;
    } in
    elim (Bool-cases (id == i)) [
      | inl own ↦
          let same : id ≡ i = ground arith in
          ground (
            arith,
            lookup-adjust id i f s.clients,
            days-add_daily i id day rx tx s.usage,
            m.agree i,
            same,
          )
      | inr other ↦
          ground (
            arith,
            lookup-adjust id i f s.clients,
            days-add_daily i id day rx tx s.usage,
            m.agree i,
          )
    ]

pub add_usage-IsMetered :
    (id day : ℕ) (rx tx handshake : ℤ) (s s' : VpnDb)
    → add_usage id rx tx handshake day s ≡ ok (tt, s')
    → IsMetered s
    → IsMetered s'
unfolding add_usage
add_usage-IsMetered id day rx tx handshake s s' h m = elim (Option-cases (lookup id s.clients)) [
  | inl gone ↦ let same : s' ≡ s = ground arith in rw same m
  | inr (c, here) ↦
      let f : Client → Client = λ x. record x {
        rx_bytes = c.rx_bytes + positive rx;
        tx_bytes = c.tx_bytes + positive tx;
        last_handshake = shaken handshake c.last_handshake;
      } in
      let clients : s'.clients ≡ adjust id f s.clients = ground arith in
      let usage : s'.usage ≡ add_daily id day (positive rx) (positive tx) s.usage = ground arith in
      let next : s'.next ≡ s.next = ground arith in
      record {
        one_each = rw clients (adjust-IsUnique id f s.clients m.one_each);
        unborn = λ i later.
            rw clients
              (ground (arith, lookup-adjust id i f s.clients, m.unborn i (ground (arith, next))));
        agree = λ i.
            rw (clients, usage)
              (added id day (positive rx) (positive tx) (shaken handshake c.last_handshake) c s m
                here i);
      }
]

-- The ways in which the store changes the clients.
pub data Changes : VpnDb → VpnDb → Type 0 where
  creates :
      {s : VpnDb} (user : ℕ) (org : Option ℕ) (node : ℕ) (wg : Text)
      → Changes s (create_client user org node wg s).1
  activates : {s : VpnDb} (id : ℕ) (ip : Text) → Changes s (set_client_active id ip s)
  deletes : {s : VpnDb} (id : ℕ) → Changes s (delete_client id s)
  deletes_pending :
      {s : VpnDb} (user node : ℕ) (wg : Text) (keep : ℕ)
      → Changes s (delete_pending_clients_by_user_node_wg_key user node wg keep s)
  meters :
      {s s' : VpnDb} (id day : ℕ) (rx tx handshake : ℤ)
      → add_usage id rx tx handshake day s ≡ ok (tt, s')
      → Changes s s'

pub data History : VpnDb → VpnDb → Type 0 where
  done : {s : VpnDb} → History s s
  next : {s t u : VpnDb} → Changes s t → History t u → History s u

change-IsMetered : {s s' : VpnDb} → Changes s s' → IsMetered s → IsMetered s'
unfolding delete_client delete_pending_clients_by_user_node_wg_key
change-IsMetered (Changes.creates {s} user org node wg) m =
    create_client-IsMetered user org node wg s m
change-IsMetered (Changes.activates {s} id ip) m = set_client_active-IsMetered id ip s m
change-IsMetered (Changes.deletes {s} id) m = delete_clients-IsMetered (λ k c. k == id) s m
change-IsMetered (Changes.deletes_pending {s} user node wg keep) m =
    delete_clients-IsMetered (is_ghost user node wg keep) s m
change-IsMetered (Changes.meters {s} {s'} id day rx tx handshake h) m =
    add_usage-IsMetered id day rx tx handshake s s' h m

-- However clients are created, activated, deleted and metered, the traffic in the row of each client
-- stays the sum of that of its days, if it was so before.
pub History-IsMetered : {s s' : VpnDb} → History s s' → IsMetered s → IsMetered s'
History-IsMetered History.done m = m
History-IsMetered (History.next c rest) m = History-IsMetered rest (change-IsMetered c m)
