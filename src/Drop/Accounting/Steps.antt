-- ===== src/Drop/Accounting/Steps.antt =====
-- What must agree between the counters and the rows, and the change that each step makes.
use erebrus_gateway.Base.{
  ℕ, ◌+◌, ◌-◌, ◌≡◌, refl, ◌&&◌, none, some, arith, ◌==◌, if◌then◌else◌, Option-cases, inl, inr,
}
use erebrus_gateway.Base.Int.{ℤ, pos, negsuc, pos_part, neg_part}
use erebrus_gateway.Base.Table.{
  Table, lookup, insert, adjust, sum, lookup-insert, lookup-adjust_ne, lookup-adjust_self,
  lookup-adjust-none,
}
use erebrus_gateway.Base.Tx.{ok}
use erebrus_gateway.Model.Drop.{Scope, DropUpload, DropFile, DropQuotaUsage, NodeDropStatus}
use erebrus_gateway.Model.Db.{Db}
use erebrus_gateway.Drop.Quota.{
  clamp_add, quota_of, adjust_quota, is_public, charge_quota, reserve_node_capacity,
  release_node_capacity,
}
use erebrus_gateway.Drop.Upload.{is_open}
use erebrus_gateway.Drop.Deletion.{is_live}

-- The bytes that an upload holds of the quota of a user, and of the capacity of a node.
abbrev pub reserved_weight : ℕ → DropUpload → ℕ
reserved_weight user u =
    if is_open u.status && is_public u.scope && u.owner == user then u.reserved_bytes else 0

abbrev pub node_weight : ℕ → DropUpload → ℕ
node_weight node u = if is_open u.status && u.node == node then u.reserved_bytes else 0

-- The bytes that a file takes of the quota of a user.
abbrev pub used_weight : ℕ → DropFile → ℕ
used_weight user f =
    if is_live f.status && is_public f.scope && f.owner == user then f.size_bytes else 0

abbrev pub node_reserved : ℕ → Table NodeDropStatus → ℕ
node_reserved node t = elim (lookup node t) [ none ↦ 0 | some d ↦ d.reserved_bytes ]

-- The counters are exactly the sums over the rows.
pub record IsAccounted (db : Db) : Type 0 where
  pub reserved_exact :
      (user : ℕ) → (quota_of user db.quotas).reserved_bytes ≡ sum (reserved_weight user) db.uploads
  pub used_exact :
      (user : ℕ) → (quota_of user db.quotas).used_bytes ≡ sum (used_weight user) db.files
  pub node_exact : (node : ℕ) → node_reserved node db.drop_nodes ≡ sum (node_weight node) db.uploads

-- GREATEST(x + d, 0), where it fits.
pub clamp_add_value :
    (x : ℕ) (d : ℤ) (y : ℕ) → clamp_add x d ≡ ok y → y ≡ x + pos_part d - neg_part d
unfolding clamp_add
clamp_add_value x (pos d) y h = ground arith
clamp_add_value x (negsuc d) y h = ground arith

-- The quota rows after the deltas `d` of the used and `d'` of the reserved bytes.
unfoldable pub adjusted : ℕ → ℤ → ℤ → Table DropQuotaUsage → Table DropQuotaUsage
adjusted user d d' t =
    insert user
      (record {
        used_bytes = (quota_of user t).used_bytes + pos_part d - neg_part d;
        reserved_bytes = (quota_of user t).reserved_bytes + pos_part d' - neg_part d';
      })
      t

pub adjusted_used :
    (user : ℕ) (d d' : ℤ) (t : Table DropQuotaUsage) (v : ℕ)
    → (quota_of v (adjusted user d d' t)).used_bytes
      ≡ (quota_of v t).used_bytes
        + (if user == v then pos_part d else 0)
        - (if user == v then neg_part d else 0)
unfolding adjusted
adjusted_used user d d' t v = ground (
  arith,
  lookup-insert user v
      (record {
        used_bytes = (quota_of user t).used_bytes + pos_part d - neg_part d;
        reserved_bytes = (quota_of user t).reserved_bytes + pos_part d' - neg_part d';
      })
      t,
)

pub adjusted_reserved :
    (user : ℕ) (d d' : ℤ) (t : Table DropQuotaUsage) (v : ℕ)
    → (quota_of v (adjusted user d d' t)).reserved_bytes
      ≡ (quota_of v t).reserved_bytes
        + (if user == v then pos_part d' else 0)
        - (if user == v then neg_part d' else 0)
unfolding adjusted
adjusted_reserved user d d' t v = ground (
  arith,
  lookup-insert user v
      (record {
        used_bytes = (quota_of user t).used_bytes + pos_part d - neg_part d;
        reserved_bytes = (quota_of user t).reserved_bytes + pos_part d' - neg_part d';
      })
      t,
)

-- adjustQuotaTx, where it succeeds.
pub adjust_quota_state :
    (user : ℕ) (d d' : ℤ) (s s' : Db)
    → adjust_quota user d d' s ≡ ok (tt, s')
    → s' ≡ record s { quotas = adjusted user d d' s.quotas }
unfolding adjust_quota adjusted
adjust_quota_state user d d' s s' h = ground (
  arith,
  clamp_add_value (quota_of user s.quotas).used_bytes d,
  clamp_add_value (quota_of user s.quotas).reserved_bytes d',
)

-- A charge that succeeds adds the size to what the user has reserved.
pub charge_quota_state :
    (user : ℕ) (scope : Scope) (size : ℕ) (s s' : Db)
    → charge_quota user scope size s ≡ ok (tt, s')
    → (t : Table DropQuotaUsage) × (s' ≡ record s { quotas = t })
      × ((v : ℕ) → (quota_of v t).used_bytes ≡ (quota_of v s.quotas).used_bytes)
      × ((v : ℕ)
          → (quota_of v t).reserved_bytes
            ≡ (quota_of v s.quotas).reserved_bytes
              + (if is_public scope && user == v then size else 0))
unfolding charge_quota adjusted
charge_quota_state user Scope.private_org size s s' h =
    (s.quotas, ground arith, λ v. refl, λ v. omega arith)
charge_quota_state user Scope.public size s s' h =
    let t = adjusted user (pos 0) (pos size) s.quotas in
    (
      t,
      ground arith,
      λ v. ground (arith, adjusted_used user (pos 0) (pos size) s.quotas v),
      λ v. ground (arith, adjusted_reserved user (pos 0) (pos size) s.quotas v),
    )

-- A reservation on a node that succeeds adds the size to what the node has reserved.
pub reserve_node_capacity_state :
    (node : ℕ) (scope : Scope) (size : ℕ) (s s' : Db)
    → reserve_node_capacity node scope size s ≡ ok (tt, s')
    → (t : Table NodeDropStatus) × (s' ≡ record s { drop_nodes = t })
      × ((v : ℕ)
          → node_reserved v t ≡ node_reserved v s.drop_nodes + (if node == v then size else 0))
unfolding reserve_node_capacity
reserve_node_capacity_state node scope size s s' h =
    elim (Option-cases (lookup node s.drop_nodes)) [
      | inl e ↦ absurd (ground arith)
      | inr (d, e) ↦
          let f : NodeDropStatus → NodeDropStatus =
            λ x. record x { reserved_bytes = d.reserved_bytes + size } in
          (
            adjust node f s.drop_nodes,
            ground arith,
            λ v. ground (
              arith,
              lookup-adjust_self node f s.drop_nodes d,
              lookup-adjust_ne node v f s.drop_nodes,
            ),
          )
    ]

-- The release of a node's capacity takes the size from what it has reserved, down to 0.
pub release_node_capacity_state :
    (node size : ℕ) (s s' : Db)
    → release_node_capacity node size s ≡ ok (tt, s')
    → (t : Table NodeDropStatus) × (s' ≡ record s { drop_nodes = t })
      × ((v : ℕ)
          → node_reserved v t ≡ node_reserved v s.drop_nodes - (if node == v then size else 0))
unfolding release_node_capacity
release_node_capacity_state node size s s' h =
    let f : NodeDropStatus → NodeDropStatus =
      λ x. record x { reserved_bytes = x.reserved_bytes - size } in
    (
      adjust node f s.drop_nodes,
      ground arith,
      λ v. elim (Option-cases (lookup node s.drop_nodes)) [
        | inl e ↦ ground (arith, lookup-adjust-none node f s.drop_nodes)
        | inr (d, e) ↦ ground (
          arith,
          lookup-adjust_self node f s.drop_nodes d,
          lookup-adjust_ne node v f s.drop_nodes,
        )
      ],
    )
