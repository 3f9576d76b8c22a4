-- ===== src/Drop/Node.antt =====
-- What a node reports of its storage and what discovery says of it
-- (internal/store/drop_node.go).
use erebrus_gateway.Base.{
  ℕ, ◌+◌, ◌*◌, Bool, true, false, not, ◌&&◌, ◌||◌, Option, none, some, [], ◌∷◌, ◌==◌, if◌then◌else◌,
}
use erebrus_gateway.Base.Int.{ℤ, pos, negsuc, pos_part, neg_part, sub_ℕ, ltb_ℤ, leb_ℤ}
use erebrus_gateway.Base.Table.{lookup, insert}
use erebrus_gateway.Base.Text.{Text, codes, text_eq, named, normalize}
use erebrus_gateway.Base.Tx.{Tx, modify}
use erebrus_gateway.Model.Drop.{Scope, DropState, NodeDropStatus, Node}
use erebrus_gateway.Model.Db.{Db}
use erebrus_gateway.Drop.Quota.{is_active_state}

-- NormalizeDropState
unfoldable pub normalize_drop_state : Text → DropState
unfolding normalize
normalize_drop_state t =
    named
      (("starting", DropState.starting)
        ∷ ("active", DropState.active)
        ∷ ("degraded", DropState.degraded)
        ∷ ("full", DropState.full)
        ∷ ("unreachable", DropState.unreachable)
        ∷ [])
      DropState.disabled (normalize t)

abbrev pub new_status : NodeDropStatus
new_status = record {
  enabled = false;
  accepts_public_uploads = false;
  webui_available = false;
  state = DropState.disabled;
  repo_size_bytes = pos 0;
  storage_max_bytes = pos 0;
  num_objects = pos 0;
  reserved_bytes = 0;
}

-- ApplyDropCapability, on a hello: a new row starts, an old one keeps its state while enabled.
unfoldable pub with_capability : Bool → Bool → Bool → Option NodeDropStatus → NodeDropStatus
with_capability enabled public webui none = record new_status {
  enabled = enabled;
  accepts_public_uploads = public;
  webui_available = webui;
  state = if enabled then DropState.starting else DropState.disabled;
}
with_capability enabled public webui (some d) = record d {
  enabled = enabled;
  accepts_public_uploads = public;
  webui_available = webui;
  state = if enabled then d.state else DropState.disabled;
}

unfoldable pub apply_drop_capability : ℕ → Bool → Bool → Bool → Tx Db (Unit {0})
unfolding with_capability
apply_drop_capability node enabled public webui = modify λ s. record s {
  drop_nodes =
      insert node (with_capability enabled public webui (lookup node s.drop_nodes)) s.drop_nodes;
}

-- ApplyDropStatus, on a heartbeat: a report implies that Drop is enabled.
unfoldable pub with_status : DropState → ℤ → ℤ → ℤ → Option NodeDropStatus → NodeDropStatus
with_status st repo_size storage_max num_objects o =
    let d : NodeDropStatus = elim o [ none ↦ new_status | some d ↦ d ] in
    record d {
      enabled = true;
      state = st;
      repo_size_bytes = repo_size;
      storage_max_bytes = storage_max;
      num_objects = num_objects;
    }

unfoldable pub apply_drop_status : ℕ → Text → ℤ → ℤ → ℤ → Tx Db (Unit {0})
unfolding with_status normalize_drop_state
apply_drop_status node state repo_size storage_max num_objects = modify λ s. record s {
  drop_nodes =
      insert node
        (with_status (normalize_drop_state state) repo_size storage_max num_objects
          (lookup node s.drop_nodes))
        s.drop_nodes;
}

pub data Capacity : Type 0 where
  unknown available limited full : Capacity

-- storage_max - repo_size - reserved. The values that nodes report keep far from the ends of int64,
-- so the difference is exact here.
abbrev pub remaining : NodeDropStatus → ℤ
remaining d =
    sub_ℕ (pos_part d.storage_max_bytes + neg_part d.repo_size_bytes)
      (neg_part d.storage_max_bytes + pos_part d.repo_size_bytes + d.reserved_bytes)

abbrev times_ten : ℤ → ℤ
times_ten z = sub_ℕ (10 * pos_part z) (10 * neg_part z)

-- coarseCapacity
unfoldable pub coarse_capacity : NodeDropStatus → Capacity
coarse_capacity d =
    if leb_ℤ d.storage_max_bytes (pos 0)
    then Capacity.unknown
    else if leb_ℤ (remaining d) (pos 0)
    then Capacity.full
    else if ltb_ℤ (times_ten (remaining d)) d.storage_max_bytes
    then Capacity.limited
    else Capacity.available

-- AvailableDropCapacityBytes: -1 where no bound is known.
unfoldable pub available_drop_capacity_bytes : NodeDropStatus → ℤ
available_drop_capacity_bytes d =
    if leb_ℤ d.storage_max_bytes (pos 0)
    then negsuc 0
    else if ltb_ℤ (remaining d) (pos 0)
    then pos 0
    else remaining d

abbrev is_full : Capacity → Bool
is_full Capacity.full = true
is_full _ = false

abbrev pub is_serving : DropState → Bool
is_serving DropState.active = true
is_serving DropState.degraded = true
is_serving DropState.full = true
is_serving _ = false

abbrev is_private_org : Scope → Bool
is_private_org Scope.private_org = true
is_private_org Scope.public = false

abbrev same_org : Option ℕ → Option ℕ → Bool
same_org (some a) (some b) = a == b
same_org _ _ = false

-- The WHERE of ListDropNodes.
unfoldable pub is_listed : Scope → Option ℕ → NodeDropStatus → Node → Bool
is_listed Scope.private_org org d n = d.enabled && is_serving d.state && same_org n.org org
is_listed Scope.public org d n =
    d.enabled
    && is_serving d.state
    && n.is_public
    && text_eq n.status (codes "online")
    && d.accepts_public_uploads

-- The AcceptingUploads that ListDropNodes computes for a listed node.
unfoldable pub accepting_uploads : Scope → NodeDropStatus → Node → Bool
unfolding coarse_capacity
accepting_uploads scope d n =
    text_eq n.status (codes "online")
    && is_active_state d.state
    && not (is_full (coarse_capacity d))
    && (is_private_org scope || d.accepts_public_uploads)
