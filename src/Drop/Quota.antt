-- ===== src/Drop/Quota.antt =====
-- The byte counters of users and nodes, with PostgreSQL's bigint arithmetic (internal/store/drop.go
-- and adjustQuotaTx of internal/store/drop_files.go).
use erebrus_gateway.Base.Text.{codes, text_eq}
use erebrus_gateway.Base.{
  ℕ, suc, ◌+◌, ◌-◌, Bool, true, false, not, ◌&&◌, none, some, ltb, if◌then◌else◌,
}
use erebrus_gateway.Base.Int.{ℤ, pos, negsuc, ◌+ℤ◌, ltb_ℤ, i64, i64_limit}
use erebrus_gateway.Base.Table.{Table, lookup, insert, adjust}
use erebrus_gateway.Base.Tx.{
  quota_exceeded, node_capacity, node_unavailable, db_error, Result, ok, err, Tx, ◌>>=◌, ◌>>◌, pure,
  get, modify, guard, from_option, from_result,
}
use erebrus_gateway.Model.Drop.{Scope, DropState, DropQuotaUsage, NodeDropStatus}
use erebrus_gateway.Model.Db.{Db}
use erebrus_gateway.Drop.Tier.{resolve_drop_entitlement}

-- A bigint that is out of range is an error of the statement.
unfoldable pub bigint : ℕ → Result ℕ
bigint n = if ltb n i64_limit then ok n else err db_error

-- GREATEST(x + d, 0)
unfoldable pub clamp_add : ℕ → ℤ → Result ℕ
unfolding bigint
clamp_add x (pos d) = bigint (x + d)
clamp_add x (negsuc d) = ok (x - suc d)

-- GetDropQuotaUsage: a user without a row has used and reserved nothing.
abbrev pub quota_of : ℕ → Table DropQuotaUsage → DropQuotaUsage
quota_of user t = elim (lookup user t) [
  | none ↦ record { used_bytes = 0; reserved_bytes = 0 }
  | some q ↦ q
]

-- adjustQuotaTx, for deltas within 32 bits, which the statement's GREATEST($3, 0) takes its parameters to
-- be: a larger one, which only a limit above those of the schema or a size that a node reports can
-- make, is an error there.
unfoldable pub adjust_quota : ℕ → ℤ → ℤ → Tx Db (Unit {0})
unfolding clamp_add
adjust_quota user used_delta reserved_delta = do
  db ← get
  let q = quota_of user db.quotas
  used ← from_result (clamp_add q.used_bytes used_delta)
  reserved ← from_result (clamp_add q.reserved_bytes reserved_delta)
  modify (λ s. record s {
    quotas = insert user (record { used_bytes = used; reserved_bytes = reserved }) s.quotas;
  })

abbrev pub is_public : Scope → Bool
is_public Scope.public = true
is_public Scope.private_org = false

abbrev pub is_active_state : DropState → Bool
is_active_state DropState.active = true
is_active_state _ = false

-- The quota check of ReserveDropUpload and its charge, for a public upload.
unfoldable pub charge_quota : ℕ → Scope → ℕ → Tx Db (Unit {0})
unfolding bigint
charge_quota user Scope.private_org size = pure tt
charge_quota user Scope.public size = do
  db ← get
  let ent = resolve_drop_entitlement db user
  guard (not (ltb ent.max_file_bytes size)) quota_exceeded
  let q = quota_of user db.quotas
  guard
      (not
        (ltb_ℤ (pos ent.public_storage_bytes) (i64 (pos (q.used_bytes + q.reserved_bytes + size)))))
      quota_exceeded
  reserved ← from_result (bigint (q.reserved_bytes + size))
  modify (λ s. record s { quotas = insert user (record q { reserved_bytes = reserved }) s.quotas })

-- `storageMax > 0 && repoSize+reserved+size > storageMax`, in Go's int64
unfoldable pub exceeds_capacity : NodeDropStatus → ℕ → Bool
exceeds_capacity d size =
    ltb_ℤ (pos 0) d.storage_max_bytes
    && ltb_ℤ d.storage_max_bytes (i64 (d.repo_size_bytes +ℤ pos (d.reserved_bytes + size)))

-- reserveNodeCapacityTx
unfoldable pub reserve_node_capacity : ℕ → Scope → ℕ → Tx Db (Unit {0})
unfolding exceeds_capacity bigint
reserve_node_capacity node scope size = do
  db ← get
  d ← from_option (lookup node db.drop_nodes) node_unavailable
  n ← from_option (lookup node db.nodes) node_unavailable
  guard (d.enabled && is_active_state d.state && text_eq n.status (codes "online")) node_unavailable
  guard (not (is_public scope && not d.accepts_public_uploads)) node_unavailable
  guard (not (exceeds_capacity d size)) node_capacity
  reserved ← from_result (bigint (d.reserved_bytes + size))
  modify (λ s. record s {
    drop_nodes = adjust node (λ e. record e { reserved_bytes = reserved }) s.drop_nodes;
  })

-- UPDATE node_drop_status SET reserved_bytes = GREATEST(reserved_bytes - $2, 0)
unfoldable pub release_node_capacity : ℕ → ℕ → Tx Db (Unit {0})
release_node_capacity node size = modify λ s. record s {
  drop_nodes =
      adjust node (λ e. record e { reserved_bytes = e.reserved_bytes - size }) s.drop_nodes;
}
