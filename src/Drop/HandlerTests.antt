-- ===== src/Drop/HandlerTests.antt =====
-- What the theorems about Drop's handlers say of the sample data.
use Prim.Native.String.{String}
use erebrus_gateway.Base.{◌≡◌, refl, true, false, none, some, [], ◌∷◌, ◌⊎◌}
use erebrus_gateway.Model.Drop.{Scope}
use erebrus_gateway.Base.Int.{pos}
use erebrus_gateway.Base.Table.{lookup, find_row}
use erebrus_gateway.Base.Tx.{ok}
use erebrus_gateway.Model.Org.{Role, Tier}
use erebrus_gateway.Model.Db.{Db}
use erebrus_gateway.Drop.Quota.{reserve_node_capacity}
use erebrus_gateway.Drop.Access.{FileView, handle_drop_get_file, manages_org}
use erebrus_gateway.Drop.Transfers.{
  PutReply, settle_upload, revalidate_drop_node, handle_drop_upload_content,
}
use erebrus_gateway.Drop.Outcomes.{Outcome, handle_drop_upload_content_lem}
use erebrus_gateway.Drop.Serving.{handle_drop_get_file_lem}
use erebrus_gateway.Drop.Settling.{settle_upload-settled, is_settled}
use erebrus_gateway.Base.Text.{codes, normalize}
use erebrus_gateway.Model.Drop.{DropUpload}
use erebrus_gateway.Model.Org.{Member}
use erebrus_gateway.Base.{not, ℕ}
use erebrus_gateway.Orgs.Seats.{active_membership}
use erebrus_gateway.Base.Table.{insert, adjust}
use erebrus_gateway.Base.Int.{i64}
use erebrus_gateway.Drop.Tier.{resolve_drop_entitlement, plan_tier}
use erebrus_gateway.Drop.Quota.{charge_quota}
use erebrus_gateway.Drop.Upload.{reserve_drop_upload}
use erebrus_gateway.Drop.Access.{is_visible}
use erebrus_gateway.Drop.ReserveHandler.{
  DropReserveReq, requested_visibility, is_some, reserve_input, normalize_drop_scope,
  handle_drop_reserve_upload,
}
use erebrus_gateway.Drop.ReserveGuards.{handle_drop_reserve_upload_lem}
use erebrus_gateway.Drop.Samples.{
  picture, uuid, empty, online, held_db, held, filed_db, filed, seat,
}

abbrev cid : String
cid = "QmYwAPJzv5CZsnA625s3Xf2nemtYgPpHdWEz79ojWKPBdG"

-- The node says that it has stored the content, and nothing else happens meanwhile.
handle_drop_upload_content_lem_example :
    Outcome 21 held 200 31 held_db
      (PutReply.stored cid (pos 900))
      (handle_drop_upload_content 7 21 none (PutReply.stored cid (pos 900)) (λ s. s) 200 31 held_db)
unfolding lookup revalidate_drop_node
handle_drop_upload_content_lem_example =
    handle_drop_upload_content_lem 7 21 (PutReply.stored cid (pos 900)) (λ s. s) 200 31 held held
      held_db refl refl refl refl refl refl refl refl

settle_upload-settled_example :
    is_settled 21 (settle_upload 7 21 (PutReply.stored cid (pos 900)) 200 31 held_db).1 ≡ true
unfolding lookup
settle_upload-settled_example =
    settle_upload-settled 7 21 (PutReply.stored cid (pos 900)) 200 31 held held_db refl refl refl

-- User 8 operates the nodes of organization 1, to which the file belongs.
abbrev shared_db : Db
shared_db = record filed_db {
  members = (14, record (seat 1 Role.node_operator Tier.pro) { user = 8 }) ∷ [];
  files = (31, record filed { org = some 1 }) ∷ [];
}

abbrev hidden : FileView
hidden = record { can_decrypt = false; cid = none; encryption_metadata = none }

handle_drop_get_file_lem_example :
    (hidden.cid ≡ none)
    × (hidden.encryption_metadata ≡ none)
    × (hidden.can_decrypt ≡ false)
    × ((false ≡ true) ⊎ (manages_org 8 (some 1) shared_db ≡ true))
unfolding lookup handle_drop_get_file find_row
handle_drop_get_file_lem_example =
    handle_drop_get_file_lem 8 false 31 200 (record filed { org = some 1 }) hidden shared_db refl
      refl refl

abbrev pinned_db : Db
pinned_db = record filed_db { files = (31, record filed { cid = cid }) ∷ [] }

abbrev request : DropReserveReq
request = record {
  node = some 3;
  scope = codes " Public";
  visibility = codes "public";
  file_meta = picture;
  size_bytes = pos 0;
  legacy_size = pos 1000;
  org = none;
  idempotency_key = "k1";
}

handle_request : handle_drop_reserve_upload uuid 7 request 100 21 empty ≡ (201, held_db)
unfolding handle_drop_reserve_upload lookup reserve_drop_upload find_row charge_quota
    resolve_drop_entitlement plan_tier i64 reserve_node_capacity insert adjust
handle_request = refl

handle_drop_reserve_upload_lem_example :
    (is_visible (requested_visibility request) ≡ not picture.encrypted)
    × ((is_visible (requested_visibility request) ≡ true)
        ⊎ (is_some picture.encryption_metadata ≡ true))
    × (((Scope.public ≡ Scope.public) × (online.is_public ≡ true))
        ⊎ ((org : ℕ) × (m : Member) × (request.org ≡ some org)
            × (active_membership org 7 empty ≡ some m)
            × (online.org ≡ some org)))
    × ((u : ℕ × DropUpload) × (reserve_drop_upload uuid
            (reserve_input 7 request 3 Scope.public empty)
            100
            21
            empty
          ≡ ok (u, held_db)))
unfolding lookup normalize_drop_scope normalize
handle_drop_reserve_upload_lem_example =
    handle_drop_reserve_upload_lem uuid 7 request 100 21 3 Scope.public online empty held_db refl
      refl refl handle_request
