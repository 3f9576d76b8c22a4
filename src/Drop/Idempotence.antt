-- ===== src/Drop/Idempotence.antt =====
-- Repeated calls: a retry of a reservation, of a commit and of a release.
use Prim.Native.String.{String}
use text.Mathlib.TextPositions.{eq_refl}
use erebrus_gateway.Base.{ℕ, ◌≡◌, refl, true, Option, none, some, [], ◌∷◌, arith, ◌⊎◌}
use erebrus_gateway.Base.Int.{ℤ}
use erebrus_gateway.Base.Table.{Table, lookup, insert, adjust, find_row-insert, lookup-adjust_self}
use erebrus_gateway.Base.Tx.{conflict, ok, err, Tx, ◌>>◌, pure, modify, >>=-eq-ok}
use erebrus_gateway.Model.Drop.{UploadStatus, PinStatus, DropUpload, DropFile}
use erebrus_gateway.Model.Db.{Db}
use erebrus_gateway.Drop.Quota.{charge_quota, reserve_node_capacity, release_node_capacity}
use erebrus_gateway.Drop.Upload.{
  ReserveInput, is_open, has_key, new_upload, open_reservation, reuse_or_open, reserve_drop_upload,
  scan_upload_by_key, file_by_upload, committed_file, convert_quota, finish_commit, upsert_pin,
  charged_size, commit_by, commit_drop_upload, release_drop_reservation,
}
use erebrus_gateway.Drop.Accounting.Steps.{
  charge_quota_state, reserve_node_capacity_state, release_node_capacity_state,
}
use erebrus_gateway.Drop.Accounting.Uploads.{convert_quota-Converts}

-- The uploads after a reservation.
open_reservation-uploads :
    (r : ReserveInput) (now id : ℕ) (s s' : Db) {a : ℕ × DropUpload}
    → open_reservation r now id s ≡ ok (a, s')
    → (a ≡ (id, new_upload r now)) × (s'.uploads ≡ insert id (new_upload r now) s.uploads)
unfolding open_reservation
open_reservation-uploads r now id s s' h =
    let place : Tx Db (ℕ × DropUpload) =
      modify (λ s. record s { uploads = insert id (new_upload r now) s.uploads })
      >> pure (id, new_upload r now) in
    let hold = reserve_node_capacity r.node r.scope r.declared_size in
    let (_, s1, charged, h1) =
      >>=-eq-ok (charge_quota r.user r.scope r.declared_size) (λ _. hold >> place) s h in
    let (_, s2, held, h2) = >>=-eq-ok hold (λ _. place) s1 h1 in
    let (q, e1, used, reserved) = charge_quota_state r.user r.scope r.declared_size s s1 charged in
    let (t, e2, node) = reserve_node_capacity_state r.node r.scope r.declared_size s1 s2 held in
    (ground arith, ground arith)

has_key_new :
    (r : ReserveInput) (now : ℕ) → has_key r.user r.idempotency_key (new_upload r now) ≡ true
has_key_new r now = ground (arith, eq_refl r.idempotency_key)

-- A reservation under a new key and a fresh identifier that succeeds, repeated by its user with the
-- same key and any other input, returns the first upload and changes nothing: neither counter is
-- charged twice.
pub reserve_drop_upload_again :
    (uuid_text : ℕ → String) (r q : ReserveInput) (now id now' id' : ℕ) (s s' : Db)
    {a : ℕ × DropUpload}
    → scan_upload_by_key r.user r.idempotency_key s.uploads ≡ none
    → lookup id s.uploads ≡ none
    → reserve_drop_upload uuid_text r now id s ≡ ok (a, s')
    → q.user ≡ r.user
    → q.idempotency_key ≡ r.idempotency_key
    → reserve_drop_upload uuid_text q now' id' s' ≡ ok (a, s')
unfolding reserve_drop_upload scan_upload_by_key reuse_or_open
reserve_drop_upload_again uuid_text r q now id now' id' s s' missing fresh h eu ek =
    let p = has_key r.user r.idempotency_key in
    let u = new_upload r now in
    let opened = rw missing at h in
    let (ea, eu') = open_reservation-uploads r now id s s' opened in
    let found = find_row-insert p id u s.uploads fresh missing (has_key_new r now) in
    rw (eu, ek, eu', found, ea) refl

file_by_upload-insert :
    (upload file : ℕ) (f : DropFile) (t : Table DropFile)
    → f.upload ≡ upload
    → lookup file t ≡ none
    → file_by_upload upload t ≡ none
    → file_by_upload upload (insert file f t) ≡ some (file, f)
unfolding file_by_upload insert lookup
file_by_upload-insert upload file f [] e fresh none_yet = ground arith
file_by_upload-insert upload file f (x ∷ t) e fresh none_yet =
    ground (arith, file_by_upload-insert upload file f t e)

-- The rows after a commit.
pub finish_commit-rows :
    (upload : ℕ) (u : DropUpload) (cid : String) (size now file : ℕ) (s s' : Db) {a : ℕ × DropFile}
    → finish_commit upload u cid size now file s ≡ ok (a, s')
    → (a ≡ (file, committed_file upload u cid size now))
      × (s'.files ≡ insert file (committed_file upload u cid size now) s.files)
      × (s'.uploads
          ≡ adjust upload
              (λ v. record v { status = UploadStatus.committed; cid = some cid })
              s.uploads)
      × (s'.pins
          ≡ upsert_pin
              (record { file = file; node = u.node; cid = cid; status = PinStatus.pinned })
              s.pins)
unfolding finish_commit convert_quota
finish_commit-rows upload u cid size now file s s' h =
    let f : DropUpload → DropUpload =
      λ v. record v { status = UploadStatus.committed; cid = some cid } in
    let row = committed_file upload u cid size now in
    let s1 : Db = record s {
      files = insert file row s.files;
      pins =
          upsert_pin (record { file = file; node = u.node; cid = cid; status = PinStatus.pinned })
            s.pins;
      uploads = adjust upload f s.uploads;
    } in
    let give : Tx Db (ℕ × DropFile) = pure (file, row) in
    let free = release_node_capacity u.node u.reserved_bytes in
    let (_, s2, converted, h1) = >>=-eq-ok (convert_quota u size) (λ _. free >> give) s1 h in
    let (_, s3, released, h2) = >>=-eq-ok free (λ _. give) s2 h1 in
    let (q, e1, used, reserved) = convert_quota-Converts u size s1 s2 converted in
    let (t, e2, node) = release_node_capacity_state u.node u.reserved_bytes s2 s3 released in
    (ground arith, ground arith, ground arith, ground arith)

-- The branch of an open upload.
pub commit_open :
    (st : UploadStatus) (upload : ℕ) (u : DropUpload) (cid : String) (size : ℤ) (now file : ℕ)
    (s : Db)
    → is_open st ≡ true
    → commit_by st upload u cid size now file s
      ≡ finish_commit upload u cid (charged_size size u) now file s
unfolding commit_by
commit_open UploadStatus.reserved upload u cid size now file s h = refl
commit_open UploadStatus.uploading upload u cid size now file s h = refl
commit_open UploadStatus.committed upload u cid size now file s h = cc
commit_open UploadStatus.failed upload u cid size now file s h = cc
commit_open UploadStatus.expired upload u cid size now file s h = cc

-- A commit, under a fresh identifier, of an open upload of the caller that has no file yet, when it
-- succeeds and is repeated with any other content, size and identifier, returns the first file and
-- changes nothing: no quota is charged twice and no second file is made.
pub commit_drop_upload_again :
    (user upload : ℕ) (cid cid' : String) (size size' : ℤ) (now now' file file' : ℕ)
    (u : DropUpload) (s s' : Db) {a : ℕ × DropFile}
    → lookup upload s.uploads ≡ some u
    → u.owner ≡ user
    → is_open u.status ≡ true
    → lookup file s.files ≡ none
    → file_by_upload upload s.files ≡ none
    → commit_drop_upload user upload cid size now file s ≡ ok (a, s')
    → commit_drop_upload user upload cid' size' now' file' s' ≡ ok (a, s')
unfolding commit_drop_upload commit_by
commit_drop_upload_again user upload cid cid' size size' now now' file file' u s s' {a} found own
      live fresh none_yet h =
    let row = committed_file upload u cid (charged_size size u) now in
    let f : DropUpload → DropUpload =
      λ v. record v { status = UploadStatus.committed; cid = some cid } in
    let done : finish_commit upload u cid (charged_size size u) now file s ≡ ok (a, s') =
      ground (arith, commit_open u.status upload u cid size now file s live) in
    let (ea, ef, eu, ep) =
      finish_commit-rows upload u cid (charged_size size u) now file s s' done in
    ground (
      arith,
      lookup-adjust_self upload f s.uploads u found,
      file_by_upload-insert upload file row s.files refl fresh none_yet,
    )

-- An upload of the caller that has failed or expired is closed for good: a commit is a conflict,
-- and a release changes nothing.
pub closed_upload :
    (user upload : ℕ) (cid : String) (size : ℤ) (now file : ℕ) (status : Option UploadStatus)
    (u : DropUpload) (s : Db)
    → lookup upload s.uploads ≡ some u
    → u.owner ≡ user
    → (u.status ≡ UploadStatus.failed) ⊎ (u.status ≡ UploadStatus.expired)
    → (commit_drop_upload user upload cid size now file s ≡ err conflict)
      × (release_drop_reservation upload status s ≡ ok (tt, s))
unfolding commit_drop_upload commit_by release_drop_reservation
closed_upload user upload cid size now file status u s found own closed =
    (ground arith, ground arith)
