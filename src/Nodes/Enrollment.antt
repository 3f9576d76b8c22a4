-- ===== src/Nodes/Enrollment.antt =====
-- A registration takes over no node of another organization, and none whose key it does not have.
use erebrus_gateway.Base.{
  ℕ, ◌≡◌, true, false, Option, none, some, arith, ◌==◌, if◌then◌else◌, Bool-cases, Option-cases,
  inl, inr, ◌⊎◌, refl,
}
use erebrus_gateway.Base.Table.{lookup, insert, lookup-insert, find_row}
use erebrus_gateway.Base.Text.{Text, text_eq, text_eq_self, trim_space}
use erebrus_gateway.Base.Tx.{Result, Result-cases, ok, err}
use erebrus_gateway.Model.Drop.{Node}
use erebrus_gateway.Model.Fleet.{OrgNode, ServiceType}
use erebrus_gateway.Nodes.Registration.{
  NodeRegistration, admitted_key, registered_node, registered_org_node, register_node, is_empty,
  in_org, mark_node_registration_token_used,
}
use erebrus_gateway.Nodes.Services.{put_service, is_service}
use erebrus_gateway.Nodes.State.{Fleet}

-- A node may be registered: there is none, or it is the organization's and has no key or this one.
abbrev pub MayRegister : ℕ → Text → Option Node → Type 0
MayRegister org key o =
    (o ≡ none)
    ⊎ ((n : Node) × (o ≡ some n)
        × (n.org ≡ some org)
        × ((is_empty n.node_key ≡ true) ⊎ (text_eq n.node_key key ≡ true)))

admitted_key_lem :
    (org : ℕ) (presented fresh key : Text) (o : Option Node)
    → admitted_key org presented fresh o ≡ ok key
    → MayRegister org presented o
unfolding admitted_key
admitted_key_lem org presented fresh key none h = inl refl
admitted_key_lem org presented fresh key (some n) h = elim (Option-cases n.org) [
  | inl free ↦ absurd (ground arith)
  | inr (o, owned) ↦ elim (Bool-cases (is_empty n.node_key)) [
    | inl bare ↦ inr (n, refl, ground arith, inl bare)
    | inr keyed ↦ inr (n, refl, ground arith, inr (ground arith))
  ]
]

-- A registration that succeeds has admitted the key and found no row of another organization.
register_node-admitted :
    (org token now : ℕ) (r : NodeRegistration) (fresh key : Text) (s s' : Fleet)
    → register_node org token r fresh now s ≡ ok (key, s')
    → (admitted_key org (trim_space r.node_key) fresh (lookup r.peer s.db.nodes) ≡ ok key)
      × (in_org org (lookup r.peer s.org_nodes) ≡ true)
      × (s'.db.nodes
          ≡ insert r.peer (registered_node org key r (lookup r.peer s.db.nodes)) s.db.nodes)
      × (s'.org_nodes
          ≡ insert r.peer (registered_org_node org r (lookup r.peer s.org_nodes)) s.org_nodes)
unfolding register_node put_service mark_node_registration_token_used
register_node-admitted org token now r fresh key s s' h =
    elim (Result-cases
      (admitted_key org (trim_space r.node_key) fresh (lookup r.peer s.db.nodes))) [
        | inr (e, refused) ↦ absurd (ground arith)
        | inl (k, admitted) ↦ elim (Bool-cases (in_org org (lookup r.peer s.org_nodes))) [
          | inr other ↦ absurd (ground arith)
          | inl own ↦
              elim (Option-cases (find_row (is_service r.peer ServiceType.vpn) s.services)) [
                | inl new ↦ ground arith
                | inr (v, old) ↦ ground arith
              ]
        ]
      ]

-- A registration that succeeds found no node under the peer id, or one of the organization that had
-- no key or the key that was presented, and no row of another organization. It writes the rows of
-- this peer id only: every other node, and every other organization's record of one, stays as it is.
pub register_node_lem :
    (org token now q : ℕ) (r : NodeRegistration) (fresh key : Text) (s s' : Fleet)
    → register_node org token r fresh now s ≡ ok (key, s')
    → MayRegister org (trim_space r.node_key) (lookup r.peer s.db.nodes)
      × (in_org org (lookup r.peer s.org_nodes) ≡ true)
      × (lookup q s'.db.nodes ≡ (
          if r.peer == q
          then some (registered_node org key r (lookup r.peer s.db.nodes))
          else lookup q s.db.nodes))
      × (lookup q s'.org_nodes ≡ (
          if r.peer == q
          then some (registered_org_node org r (lookup r.peer s.org_nodes))
          else lookup q s.org_nodes))
register_node_lem org token now q r fresh key s s' h =
    let (admitted, own, nodes, records) = register_node-admitted org token now r fresh key s s' h in
    (
      admitted_key_lem org (trim_space r.node_key) fresh key (lookup r.peer s.db.nodes) admitted,
      own,
      rw nodes (
          lookup-insert r.peer q (registered_node org key r (lookup r.peer s.db.nodes)) s.db.nodes),
      rw records (
          lookup-insert r.peer q (registered_org_node org r (lookup r.peer s.org_nodes))
            s.org_nodes),
    )

-- What a registration needs, it has.
register_node-ok :
    (org token now : ℕ) (r : NodeRegistration) (fresh key : Text) (s : Fleet)
    → admitted_key org (trim_space r.node_key) fresh (lookup r.peer s.db.nodes) ≡ ok key
    → in_org org (lookup r.peer s.org_nodes) ≡ true
    → (s' : Fleet) × (register_node org token r fresh now s ≡ ok (key, s'))
unfolding register_node put_service mark_node_registration_token_used
register_node-ok org token now r fresh key s admitted own =
    elim (Option-cases (find_row (is_service r.peer ServiceType.vpn) s.services)) [
      | inl new ↦ (result (register_node org token r fresh now s) s, ground arith)
      | inr (v, old) ↦ (result (register_node org token r fresh now s) s, ground arith)
    ]
  where
    result : Result (Text × Fleet) → Fleet → Fleet
    result (ok (k, t)) d = t
    result (err e) d = d

again-admitted :
    (org : ℕ) (key fresh : Text) (r : NodeRegistration) (o : Option Node)
    → is_empty key ≡ false
    → admitted_key org key fresh (some (registered_node org key r o)) ≡ ok key
unfolding admitted_key registered_node
again-admitted org key fresh r none full = ground (arith, text_eq_self key)
again-admitted org key fresh r (some n) full = ground (arith, text_eq_self key)

again-own :
    (org : ℕ) (r : NodeRegistration) (o : Option OrgNode)
    → in_org org o ≡ true
    → in_org org (some (registered_org_node org r o)) ≡ true
unfolding registered_org_node
again-own org r none own = ground arith
again-own org r (some n) own = ground arith

-- A node that was registered with a key can be registered again with that key, by the same
-- organization, whatever else the request says, and keeps the key.
pub register_node-again :
    (org token token' now now' : ℕ) (r r' : NodeRegistration) (fresh fresh' key : Text)
    (s s' : Fleet)
    → register_node org token r fresh now s ≡ ok (key, s')
    → trim_space key ≡ key
    → is_empty key ≡ false
    → r'.peer ≡ r.peer
    → r'.node_key ≡ key
    → (s'' : Fleet) × (register_node org token' r' fresh' now' s' ≡ ok (key, s''))
register_node-again org token token' now now' r r' fresh fresh' key s s' h trimmed full same given =
    let (admitted, own, nodes, records) = register_node-admitted org token now r fresh key s s' h in
    let node = registered_node org key r (lookup r.peer s.db.nodes) in
    let record_of = registered_org_node org r (lookup r.peer s.org_nodes) in
    let self : (r.peer == r.peer) ≡ true = ground arith in
    let old = lookup r.peer s.db.nodes in
    let old_record = lookup r.peer s.org_nodes in
    register_node-ok org token' now' r' fresh' key s'
      (rw (nodes, same, given, trimmed, lookup-insert r.peer r.peer node s.db.nodes, self)
        (again-admitted org key fresh' r old full))
      (rw (records, same, lookup-insert r.peer r.peer record_of s.org_nodes, self)
        (again-own org r old_record own))
