-- ===== src/Drop/Limits.antt =====
-- The limits that a reservation respects: the quota of the user and the capacity of the node.
use Prim.Native.String.{String, ◌++◌}
use erebrus_gateway.Base.Text.{codes, text_eq}
use erebrus_gateway.Base.{
  ℕ, ◌+◌, ◌≤◌, ◌<◌, ◌≡◌, subst, true, false, not, ◌&&◌, ◌||◌, Option, none, some, arith, Bool-cases,
  ◌⊎◌, inl, inr,
}
use erebrus_gateway.Base.Int.{pos_part, leb_ℤ, pos, i64_limit, i64_modulus, i64_small, i64_wraps}
use erebrus_gateway.Base.Table.{lookup, insert, adjust, lookup-insert}
use erebrus_gateway.Base.Tx.{Tx, ok, ◌>>◌, pure, modify, >>=-eq-ok}
use erebrus_gateway.Model.Drop.{Scope, DropState, DropUpload, NodeDropStatus, Node}
use erebrus_gateway.Model.Db.{Db}
use erebrus_gateway.Drop.Tier.{resolve_drop_entitlement}
use erebrus_gateway.Drop.Quota.{quota_of, is_public, charge_quota, reserve_node_capacity}
use erebrus_gateway.Drop.Upload.{
  ReserveInput, is_open, is_committed, new_upload, open_reservation, rename_key, reuse_or_open,
  reserve_drop_upload, scan_upload_by_key,
}
use erebrus_gateway.Drop.Accounting.Steps.{reserve_node_capacity_state}

-- What a user has used and reserved together.
abbrev pub quota_total : ℕ → Db → ℕ
quota_total user s = (quota_of user s.quotas).used_bytes + (quota_of user s.quotas).reserved_bytes

-- The charge of a public upload respects the ceiling of one file and the quota.
charge_quota_within :
    (user size : ℕ) (s s' : Db)
    → quota_total user s + size < i64_limit
    → charge_quota user Scope.public size s ≡ ok (tt, s')
    → (size ≤ (resolve_drop_entitlement s user).max_file_bytes)
      × (quota_total user s' ≤ (resolve_drop_entitlement s user).public_storage_bytes)
unfolding charge_quota
charge_quota_within user size s s' small h = ground (
  arith,
  i64_small ((quota_of user s.quotas).used_bytes + (quota_of user s.quotas).reserved_bytes + size)
      small,
  lookup-insert user user
      (record (quota_of user s.quotas) {
        reserved_bytes = (quota_of user s.quotas).reserved_bytes + size;
      })
      s.quotas,
)

-- What a reservation has done when it succeeds: it has found a live one, or it was within the
-- limits that hold for the user.
abbrev pub WithinQuota : ReserveInput → Db → Db → Type 0
WithinQuota r s s' =
    (r.declared_size ≤ (resolve_drop_entitlement s r.user).max_file_bytes)
    × (quota_total r.user s' ≤ (resolve_drop_entitlement s r.user).public_storage_bytes)

open_reservation_within :
    (r : ReserveInput) (now id : ℕ) (s s' : Db) {a : ℕ × DropUpload}
    → r.scope ≡ Scope.public
    → quota_total r.user s + r.declared_size < i64_limit
    → open_reservation r now id s ≡ ok (a, s')
    → WithinQuota r s s'
unfolding open_reservation
open_reservation_within r now id s s' public small h =
    let place : Tx Db (ℕ × DropUpload) =
      modify (λ s. record s { uploads = insert id (new_upload r now) s.uploads })
      >> pure (id, new_upload r now) in
    let hold = reserve_node_capacity r.node r.scope r.declared_size in
    let (_, s1, charged, h1) =
      >>=-eq-ok (charge_quota r.user r.scope r.declared_size) (λ _. hold >> place) s h in
    let (_, s2, held, h2) = >>=-eq-ok hold (λ _. place) s1 h1 in
    let (t, e2, node) = reserve_node_capacity_state r.node r.scope r.declared_size s1 s2 held in
    let within = charge_quota_within r.user r.declared_size s s1 small (rw public at charged) in
    ground arith

reuse_or_open_within :
    (uuid_text : ℕ → String) (r : ReserveInput) (now id : ℕ) (o : Option (ℕ × DropUpload))
    (s s' : Db) {a : ℕ × DropUpload}
    → r.scope ≡ Scope.public
    → quota_total r.user s + r.declared_size < i64_limit
    → reuse_or_open uuid_text r now id o s ≡ ok (a, s')
    → (s' ≡ s) ⊎ WithinQuota r s s'
unfolding reuse_or_open rename_key resolve_drop_entitlement
reuse_or_open_within uuid_text r now id none s s' public small h =
    inr (open_reservation_within r now id s s' public small h)
reuse_or_open_within uuid_text r now id (some (i, u)) s s' {a} public small h =
    elim (Bool-cases (is_open u.status || is_committed u.status)) [
      | inl e ↦ inl (ground arith)
      | inr e ↦
          let key = u.idempotency_key ++ (":terminal:" ++ uuid_text i) in
          let (_, s1, renamed, h1) =
            >>=-eq-ok (rename_key r.user i key) (λ _. open_reservation r now id) s (rw e at h) in
          let t : Db = record s {
            uploads = adjust i (λ v. record v { idempotency_key = key }) s.uploads;
          } in
          let same : s1 ≡ t = ground arith in
          inr (
            open_reservation_within r now id t s' public small
              (subst (λ x. open_reservation r now id x ≡ ok (a, s')) same h1))
    ]

-- A public reservation that succeeds, where what the user has used and reserved and the size add up
-- to less than 2^63, either changes nothing, since it returns a live reservation, or its size is at
-- most the ceiling of one file, and what the user then has used and reserved is at most the user's
-- quota.
pub reserve_drop_upload_within_quota :
    (uuid_text : ℕ → String) (r : ReserveInput) (now id : ℕ) (s s' : Db) {a : ℕ × DropUpload}
    → r.scope ≡ Scope.public
    → quota_total r.user s + r.declared_size < i64_limit
    → reserve_drop_upload uuid_text r now id s ≡ ok (a, s')
    → (s' ≡ s)
      ⊎ ((r.declared_size ≤ (resolve_drop_entitlement s r.user).max_file_bytes)
          × (quota_total r.user s' ≤ (resolve_drop_entitlement s r.user).public_storage_bytes))
unfolding reserve_drop_upload
reserve_drop_upload_within_quota uuid_text r now id s s' public small h =
    reuse_or_open_within uuid_text r now id (scan_upload_by_key r.user r.idempotency_key s.uploads)
      s s' public small h

-- A node that takes a reservation is enabled, active, online and, for a public upload, accepts
-- these; and it has no bound, or what it stores, where it reports no negative size, and what is
-- reserved on it, the new size included, stay within the bound, if they add up to less than 2^63.
pub reserve_node_capacity_within :
    (node : ℕ) (scope : Scope) (size repo : ℕ) (s s' : Db) (d : NodeDropStatus) (n : Node)
    → lookup node s.drop_nodes ≡ some d
    → lookup node s.nodes ≡ some n
    → d.repo_size_bytes ≡ pos repo
    → repo + d.reserved_bytes + size < i64_limit
    → reserve_node_capacity node scope size s ≡ ok (tt, s')
    → (d.enabled ≡ true)
      × (d.state ≡ DropState.active)
      × (text_eq n.status (codes "online") ≡ true)
      × ((is_public scope && not d.accepts_public_uploads) ≡ false)
      × ((leb_ℤ d.storage_max_bytes (pos 0) ≡ true)
          ⊎ (repo + d.reserved_bytes + size ≤ pos_part d.storage_max_bytes))
unfolding reserve_node_capacity
reserve_node_capacity_within node scope size repo s s' d n ed en er small h = (
  ground arith,
  ground arith,
  ground arith,
  ground arith,
  elim (Bool-cases (leb_ℤ d.storage_max_bytes (pos 0))) [
    | inl unbounded ↦ inl unbounded
    | inr bound ↦ inr (ground (arith, i64_small (repo + (d.reserved_bytes + size))))
  ],
)

-- Past 2^63 the sum of the capacity check wraps to a negative number, and the check passes whatever
-- the node's bound is: a private upload of a declared size near 2^63 is reserved on a node of any
-- size, as long as the counter itself still holds it.
pub reserve_node_capacity_wraps :
    (node size repo : ℕ) (s : Db) (d : NodeDropStatus) (n : Node)
    → lookup node s.drop_nodes ≡ some d
    → lookup node s.nodes ≡ some n
    → d.enabled ≡ true
    → d.state ≡ DropState.active
    → text_eq n.status (codes "online") ≡ true
    → d.repo_size_bytes ≡ pos repo
    → i64_limit ≤ repo + d.reserved_bytes + size
    → repo + d.reserved_bytes + size < i64_modulus
    → d.reserved_bytes + size < i64_limit
    → reserve_node_capacity node Scope.private_org size s
      ≡ ok (
        tt,
        record s {
          drop_nodes =
              adjust node (λ e. record e { reserved_bytes = d.reserved_bytes + size }) s.drop_nodes;
        },
      )
unfolding reserve_node_capacity
reserve_node_capacity_wraps node size repo s d n ed en on act online er low high fits =
    ground (arith, i64_wraps (repo + (d.reserved_bytes + size)))
