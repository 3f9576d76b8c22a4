-- ===== src/Drop/Tests.antt =====
-- What the theorems about Drop's transactions say of the sample data.
use erebrus_gateway.Base.Text.{codes, text_eq}
use erebrus_gateway.Base.{
  ℕ, ◌+◌, ◌≤◌, ◌≡◌, refl, true, false, not, ◌&&◌, none, some, [], ◌∷◌, arith, ◌⊎◌, inl, inr,
}
use erebrus_gateway.Base.Int.{pos, i64, leb_ℤ, pos_part}
use erebrus_gateway.Base.Table.{lookup, insert, adjust, find_row, sum, HasRow}
use erebrus_gateway.Base.Tx.{ok}
use erebrus_gateway.Model.Org.{Role, Tier, Member}
use erebrus_gateway.Model.Drop.{Scope, UploadStatus, PinStatus, DropState}
use erebrus_gateway.Model.Db.{Db}
use erebrus_gateway.Drop.Tier.{drop_tier_rank, granted, resolve_drop_entitlement}
use erebrus_gateway.Drop.Quota.{adjust_quota, reserve_node_capacity, is_public}
use erebrus_gateway.Drop.Upload.{
  reserve_drop_upload, commit_drop_upload, scan_upload_by_key, file_by_upload, committed_file,
}
use erebrus_gateway.Drop.Deletion.{mark_drop_file_delete_pending, other_refs, pin_status, refers}
use erebrus_gateway.Drop.Maintenance.{expire_drop_reservations}
use erebrus_gateway.Drop.Accounting.Steps.{IsAccounted}
use erebrus_gateway.Drop.Accounting.System.{Step, Reach, Reach-IsAccounted}
use erebrus_gateway.Drop.Limits.{
  quota_total, reserve_drop_upload_within_quota, reserve_node_capacity_within,
}
use erebrus_gateway.Drop.Idempotence.{reserve_drop_upload_again, commit_drop_upload_again}
use erebrus_gateway.Drop.PinSafety.{mark_unpin_safe, commit_keeps_pending_unpin}
use erebrus_gateway.Drop.Entitlement.{entitlement_upper, entitlement_attained}
use erebrus_gateway.Drop.Samples.{
  seat, ample, online, empty, uuid, asked, left, held, held_db, reserve_held, filed, filed_db,
  commit_filed, marked_db, mark_marked,
}

empty-IsAccounted : IsAccounted empty
unfolding lookup sum
empty-IsAccounted = record {
  reserved_exact = λ v. refl;
  used_exact = λ v. refl;
  node_exact = λ v. ground arith;
}

-- The three steps, and a sweep that finds nothing.
Reach-IsAccounted_example : IsAccounted (expire_drop_reservations 0 9000 marked_db).1
unfolding lookup
Reach-IsAccounted_example = Reach-IsAccounted uuid empty-IsAccounted (
    Reach.next
      (Reach.next
        (Reach.next
          (Reach.next Reach.here
            (Step.reserves (asked Scope.public) 100 21 (21, held) refl reserve_held))
          (Step.commits 7 21 "Qm1" (pos 900) 200 31 (31, filed) refl commit_filed))
        (Step.marks 31 300 (true, filed) mark_marked))
      (Step.expires marked_db 0 9000))

reserve_drop_upload_within_quota_example :
    (held_db ≡ empty)
    ⊎ ((1000 ≤ (resolve_drop_entitlement empty 7).max_file_bytes)
        × (quota_total 7 held_db ≤ (resolve_drop_entitlement empty 7).public_storage_bytes))
unfolding lookup
reserve_drop_upload_within_quota_example =
    reserve_drop_upload_within_quota uuid (asked Scope.public) 100 21 empty held_db refl
      (ground arith) reserve_held

reserve_drop_upload_again_example :
    reserve_drop_upload uuid (record (asked Scope.public) { declared_size = 5 }) 101 22 held_db
    ≡ ok ((21, held), held_db)
unfolding scan_upload_by_key find_row lookup
reserve_drop_upload_again_example =
    reserve_drop_upload_again uuid (asked Scope.public)
      (record (asked Scope.public) { declared_size = 5 }) 100 21 101 22 empty held_db refl refl
      reserve_held refl refl

commit_drop_upload_again_example :
    commit_drop_upload 7 21 "Qm2" (pos 950) 201 32 filed_db ≡ ok ((31, filed), filed_db)
unfolding lookup file_by_upload
commit_drop_upload_again_example =
    commit_drop_upload_again 7 21 "Qm1" "Qm2" (pos 900) (pos 950) 200 201 31 32 held held_db
      filed_db refl refl refl refl refl commit_filed

abbrev expired_db : Db
expired_db = record held_db {
  uploads = (21, record held { status = UploadStatus.expired; reserved_bytes = 0 }) ∷ [];
}

-- Another file, of the same content on another node, does not keep the content here.
abbrev shared_db : Db
shared_db = record filed_db { files = (31, filed) ∷ (32, record filed { node = 4 }) ∷ [] }

mark_unpin_safe_example : refers 3 "Qm1" (record filed { node = 4 }) ≡ false
unfolding lookup mark_drop_file_delete_pending adjust_quota other_refs insert adjust
mark_unpin_safe_example =
    mark_unpin_safe 31 300 filed shared_db
      (left shared_db (mark_drop_file_delete_pending 31 300 shared_db)) refl refl refl 32
      (record filed { node = 4 }) refl refl

abbrev unpinned_db : Db
unpinned_db = record marked_db {
  pins = record { file = 31; node = 3; cid = "Qm1"; status = PinStatus.error } ∷ [];
}

-- The content of file 31 awaits its unpin when the same content is committed again, as file 33.
abbrev again_db : Db
again_db = record marked_db {
  uploads = (23, record held { idempotency_key = "k2" }) ∷ [];
  drop_nodes = (3, record ample { reserved_bytes = 1000 }) ∷ [];
  quotas = (7, record { used_bytes = 0; reserved_bytes = 1000 }) ∷ [];
}

abbrev stale_db : Db
stale_db = left again_db (commit_drop_upload 7 23 "Qm1" (pos 900) 400 33 again_db)

commit_keeps_pending_unpin_example :
    (lookup 33 stale_db.files
      ≡ some (committed_file 23 (record held { idempotency_key = "k2" }) "Qm1" 900 400))
    × (refers 3 "Qm1" (committed_file 23 (record held { idempotency_key = "k2" }) "Qm1" 900 400)
        ≡ true)
    × (pin_status 31 stale_db.pins ≡ pin_status 31 again_db.pins)
unfolding commit_drop_upload lookup adjust_quota insert adjust
commit_keeps_pending_unpin_example =
    commit_keeps_pending_unpin 7 23 "Qm1" (pos 900) 400 33 31
      (record held { idempotency_key = "k2" }) again_db stale_db refl refl refl refl refl

reserve_node_capacity_within_example :
    (ample.enabled ≡ true)
    × (ample.state ≡ DropState.active)
    × (text_eq online.status (codes "online") ≡ true)
    × ((is_public Scope.public && not ample.accepts_public_uploads) ≡ false)
    × ((leb_ℤ ample.storage_max_bytes (pos 0) ≡ true)
        ⊎ (500 + 0 + 1000 ≤ pos_part ample.storage_max_bytes))
unfolding lookup reserve_node_capacity i64 adjust
reserve_node_capacity_within_example =
    reserve_node_capacity_within 3 Scope.public 1000 500 empty
      (record empty { drop_nodes = (3, record ample { reserved_bytes = 1000 }) ∷ [] }) ample online
      refl refl refl (ground arith) refl

-- A node that stores all of its 5000 bytes takes a private upload of almost 2^63 bytes.
abbrev brimful_db : Db
brimful_db = record empty { drop_nodes = (3, record ample { repo_size_bytes = pos 5000 }) ∷ [] }

-- The Starter seat in the second organization is below the Pro plan of the first.
entitlement_upper_example :
    drop_tier_rank Tier.starter ≤ drop_tier_rank (resolve_drop_entitlement empty 7).seat_tier
unfolding granted lookup
entitlement_upper_example =
    entitlement_upper empty 7 12 (seat 2 Role.member Tier.starter) (2, Tier.starter)
      (inr (inl refl)) refl

entitlement_attained_example :
    ((i : ℕ) × (m : Member) × (o : ℕ) × HasRow i m empty.members
      × ((resolve_drop_entitlement empty 7).entitlement_org ≡ some o)
      × (granted empty.orgs 7 m ≡ some (o, (resolve_drop_entitlement empty 7).seat_tier)))
    ⊎ (((resolve_drop_entitlement empty 7).entitlement_org ≡ none)
        × ((resolve_drop_entitlement empty 7).seat_tier ≡ Tier.free))
entitlement_attained_example = entitlement_attained empty 7
