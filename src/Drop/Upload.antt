-- ===== src/Drop/Upload.antt =====
-- The life of an upload (internal/store/drop.go and internal/store/drop_files.go): it is reserved,
-- then committed to a file, or released when it fails or expires.
-- Two parts are PostgreSQL's: the text of a UUID, and the identifiers that it draws, which the
-- operations take as arguments.
use Prim.Native.String.{String, ◌++◌}
use text.Mathlib.Text.{◌==◌ as str_eq}
use erebrus_gateway.Base.{
  ℕ, zero, suc, ◌+◌, Bool, true, false, ◌&&◌, ◌||◌, Option, none, some, List, [], ◌∷◌, ltb, ◌==◌,
  if◌then◌else◌,
}
use erebrus_gateway.Base.Int.{ℤ, pos, neg, pos_part, leb_ℤ}
use erebrus_gateway.Base.Table.{Table, lookup, insert, adjust, find_row}
use erebrus_gateway.Base.Tx.{
  not_found, conflict, db_error, Tx, ◌>>=◌, ◌>>◌, pure, throw, get, modify, guard, from_option,
}
use erebrus_gateway.Model.Drop.{
  Scope, Visibility, UploadStatus, FileStatus, PinStatus, FileMeta, DropUpload, DropFile, DropPin,
}
use erebrus_gateway.Model.Db.{Db}
use erebrus_gateway.Drop.Quota.{
  adjust_quota, charge_quota, reserve_node_capacity, release_node_capacity, is_public,
}

pub record ReserveInput : Type 0 where
  pub user : ℕ
  pub org : Option ℕ
  pub entitlement_org : Option ℕ
  pub node : ℕ
  pub scope : Scope
  pub visibility : Visibility
  pub file_meta : FileMeta
  pub declared_size : ℕ
  pub idempotency_key : String
  pub ttl : ℕ  -- seconds

-- reserved or uploading: the upload holds its reservation
abbrev pub is_open : UploadStatus → Bool
is_open UploadStatus.reserved = true
is_open UploadStatus.uploading = true
is_open _ = false

abbrev pub is_committed : UploadStatus → Bool
is_committed UploadStatus.committed = true
is_committed _ = false

abbrev pub has_key : ℕ → String → DropUpload → Bool
has_key user key u = u.owner == user && str_eq u.idempotency_key key

-- scanDropUploadByKey
unfoldable pub scan_upload_by_key : ℕ → String → Table DropUpload → Option (ℕ × DropUpload)
scan_upload_by_key user key = find_row (has_key user key)

-- A terminal attempt gives its key up; (owner, key) stays unique, or the statement fails.
unfoldable pub rename_key : ℕ → ℕ → String → Tx Db (Unit {0})
unfolding scan_upload_by_key
rename_key user id key = do
  db ← get
  guard (elim (scan_upload_by_key user key db.uploads) [ none ↦ true | some _ ↦ false ]) db_error
  modify (λ s. record s { uploads = adjust id (λ u. record u { idempotency_key = key }) s.uploads })

abbrev pub effective_ttl : ℕ → ℕ
effective_ttl zero = 1800
effective_ttl (suc t) = suc t

abbrev pub new_upload : ReserveInput → ℕ → DropUpload
new_upload r now = record {
  owner = r.user;
  org = r.org;
  entitlement_org = r.entitlement_org;
  node = r.node;
  scope = r.scope;
  visibility = r.visibility;
  file_meta = r.file_meta;
  declared_size = r.declared_size;
  reserved_bytes = r.declared_size;
  status = UploadStatus.reserved;
  idempotency_key = r.idempotency_key;
  cid = none;
  error_text = "";
  expires_at = now + effective_ttl r.ttl;
}

-- The second half of ReserveDropUpload: the user's quota, the node's capacity, the new row.
unfoldable pub open_reservation : ReserveInput → ℕ → ℕ → Tx Db (ℕ × DropUpload)
open_reservation r now id = do
  charge_quota r.user r.scope r.declared_size
  reserve_node_capacity r.node r.scope r.declared_size
  modify (λ s. record s { uploads = insert id (new_upload r now) s.uploads })
  pure (id, new_upload r now)

-- Idempotency: a live reservation of the same key is returned as it is.
unfoldable pub reuse_or_open :
    (ℕ → String) → ReserveInput → ℕ → ℕ → Option (ℕ × DropUpload) → Tx Db (ℕ × DropUpload)
unfolding open_reservation rename_key
reuse_or_open uuid_text r now id none = open_reservation r now id
reuse_or_open uuid_text r now id (some (i, u)) =
    if is_open u.status || is_committed u.status
    then pure (i, u)
    else rename_key r.user i (u.idempotency_key ++ (":terminal:" ++ uuid_text i))
      >> open_reservation r now id

-- ReserveDropUpload, at the time `now`, where the new row would have the identifier `id`
unfoldable pub reserve_drop_upload : (ℕ → String) → ReserveInput → ℕ → ℕ → Tx Db (ℕ × DropUpload)
unfolding reuse_or_open scan_upload_by_key
reserve_drop_upload uuid_text r now id = do
  db ← get
  reuse_or_open uuid_text r now id (scan_upload_by_key r.user r.idempotency_key db.uploads)

-- The file of an upload that was created last.
unfoldable pub file_by_upload : ℕ → Table DropFile → Option (ℕ × DropFile)
file_by_upload upload [] = none
file_by_upload upload ((i, f) ∷ t) =
    let rest = file_by_upload upload t in
    if f.upload == upload
    then elim rest [
      | none ↦ some (i, f)
      | some g ↦ if ltb f.created_at g.1.created_at then some g else some (i, f)
    ]
    else rest

-- One row for each file and node: ON CONFLICT (file_id, node_id) DO UPDATE.
unfoldable pub upsert_pin : DropPin → List DropPin → List DropPin
upsert_pin p [] = p ∷ []
upsert_pin p (q ∷ qs) =
    if q.file == p.file && q.node == p.node
    then record q { cid = p.cid; status = p.status } ∷ qs
    else q ∷ upsert_pin p qs

-- The size that is charged: the node's, or the declared one where the node gives none.
unfoldable pub charged_size : ℤ → DropUpload → ℕ
charged_size final_size u =
    if leb_ℤ final_size (pos 0) then u.declared_size else pos_part final_size

abbrev pub committed_file : ℕ → DropUpload → String → ℕ → ℕ → DropFile
committed_file upload u cid size now = record {
  upload = upload;
  owner = u.owner;
  org = u.org;
  entitlement_org = u.entitlement_org;
  node = u.node;
  scope = u.scope;
  cid = cid;
  file_meta = u.file_meta;
  size_bytes = size;
  visibility = u.visibility;
  status = FileStatus.active;
  created_at = now;
  deleted_at = none;
}

-- The reservation becomes used bytes, for a public upload.
unfoldable pub convert_quota : DropUpload → ℕ → Tx Db (Unit {0})
convert_quota u size =
    if is_public u.scope then adjust_quota u.owner (pos size) (neg u.reserved_bytes) else pure tt

-- The part of CommitDropUpload after its checks.
unfoldable pub finish_commit : ℕ → DropUpload → String → ℕ → ℕ → ℕ → Tx Db (ℕ × DropFile)
unfolding convert_quota release_node_capacity upsert_pin
finish_commit upload u cid size now file = do
  modify (λ s. record s { files = insert file (committed_file upload u cid size now) s.files })
  modify (λ s. record s {
    pins =
        upsert_pin (record { file = file; node = u.node; cid = cid; status = PinStatus.pinned })
          s.pins;
  })
  modify (λ s. record s {
    uploads =
        adjust upload (λ v. record v { status = UploadStatus.committed; cid = some cid }) s.uploads;
  })
  convert_quota u size
  release_node_capacity u.node u.reserved_bytes
  pure (file, committed_file upload u cid size now)

-- The branches of CommitDropUpload on the status of the upload: a second commit gives the file of
-- the first, and an upload that was released cannot be committed.
unfoldable pub commit_by : UploadStatus → ℕ → DropUpload → String → ℤ → ℕ → ℕ → Tx Db (ℕ × DropFile)
unfolding finish_commit charged_size
commit_by UploadStatus.committed upload u cid final_size now file =
    get >>= λ db. from_option (file_by_upload upload db.files) not_found
commit_by UploadStatus.reserved upload u cid final_size now file =
    finish_commit upload u cid (charged_size final_size u) now file
commit_by UploadStatus.uploading upload u cid final_size now file =
    finish_commit upload u cid (charged_size final_size u) now file
commit_by _ upload u cid final_size now file = throw conflict

-- CommitDropUpload, where the new file would have the identifier `file`
unfoldable pub commit_drop_upload : ℕ → ℕ → String → ℤ → ℕ → ℕ → Tx Db (ℕ × DropFile)
unfolding commit_by
commit_drop_upload user upload cid final_size now file = do
  db ← get
  u ← from_option (lookup upload db.uploads) not_found
  guard (u.owner == user) not_found
  commit_by u.status upload u cid final_size now file

-- ReleaseDropReservation after its checks; no status stands for the empty text, which is taken for
-- `expired`.
unfoldable pub release_open : ℕ → DropUpload → Option UploadStatus → Tx Db (Unit {0})
unfolding release_node_capacity
release_open upload u status = do
  if is_public u.scope then adjust_quota u.owner (pos 0) (neg u.reserved_bytes) else pure tt
  release_node_capacity u.node u.reserved_bytes
  modify (λ s. record s {
    uploads =
        adjust upload
          (λ v. record v {
            status = elim status [ none ↦ UploadStatus.expired | some st ↦ st ];
            reserved_bytes = 0;
          })
          s.uploads;
  })

-- ReleaseDropReservation: nothing happens to an upload that is no longer open.
unfoldable pub release_drop_reservation : ℕ → Option UploadStatus → Tx Db (Unit {0})
unfolding release_open
release_drop_reservation upload status = do
  db ← get
  u ← from_option (lookup upload db.uploads) not_found
  if is_open u.status then release_open upload u status else pure tt
