-- ===== src/Drop/Outcomes.antt =====
-- What an upload of content comes to, for each answer of the node (settle_upload of Drop/Transfers).
use Prim.Native.String.{String}
use erebrus_gateway.Base.{
  ℕ, ◌-◌, ◌≡◌, refl, true, false, none, some, arith, Bool-cases, inl, inr, ◌⊎◌,
}
use erebrus_gateway.Base.Int.{ℤ}
use erebrus_gateway.Base.Table.{lookup, adjust, lookup-adjust_self, lookup-insert}
use erebrus_gateway.Base.Tx.{ok, Result-cases}
use erebrus_gateway.Model.Drop.{UploadStatus, DropUpload, DropFile, NodeDropStatus}
use erebrus_gateway.Model.Db.{Db}
use erebrus_gateway.Drop.Quota.{release_node_capacity}
use erebrus_gateway.Drop.Upload.{
  is_open, is_committed, finish_commit, charged_size, committed_file, commit_drop_upload,
  release_open, release_drop_reservation,
}
use erebrus_gateway.Drop.Maintenance.{
  note_orphan, null_if_empty, record_orphan, fail_drop_upload_with_orphan_pin,
}
use erebrus_gateway.Drop.Access.{valid_cid}
use erebrus_gateway.Drop.Transfers.{
  PutReply, release_failed, after_commit, file_of, settle_upload, revalidate_drop_node,
  handle_drop_upload_content,
}
use erebrus_gateway.Drop.Idempotence.{finish_commit-rows, commit_open}
use erebrus_gateway.Drop.Settling.{fits, release_quota_fits}

abbrev failed : DropUpload → DropUpload
failed u = record u { status = UploadStatus.failed; reserved_bytes = 0 }

-- The upload has failed with nothing reserved, and no file has come of it.
abbrev pub HasFailed : ℕ → DropUpload → Db → Db → Type 0
HasFailed upload u s t =
    (lookup upload t.uploads ≡ some (record u { status = UploadStatus.failed; reserved_bytes = 0 }))
    × (t.files ≡ s.files)

-- The upload is committed under the CID, and the file is there with the size that is charged.
abbrev pub HasFile : ℕ → DropUpload → String → ℤ → ℕ → ℕ → Db → Type 0
HasFile upload u cid size now file t =
    (lookup upload t.uploads ≡ some (record u { status = UploadStatus.committed; cid = some cid }))
    × (lookup file t.files ≡ some (committed_file upload u cid (charged_size size u) now))

-- The upload has failed with nothing reserved, and says which content the node is left with.
abbrev pub HasOrphan : ℕ → DropUpload → String → Db → Db → Type 0
HasOrphan upload u cid s t =
    (lookup upload t.uploads
      ≡ some (record u {
        status = UploadStatus.failed;
        reserved_bytes = 0;
        cid = null_if_empty cid;
        error_text = "metadata commit failed";
      }))
    × (t.files ≡ s.files)

open_not_committed : (st : UploadStatus) → is_open st ≡ true → is_committed st ≡ false
open_not_committed UploadStatus.reserved h = refl
open_not_committed UploadStatus.uploading h = refl
open_not_committed UploadStatus.committed h = cc
open_not_committed UploadStatus.failed h = cc
open_not_committed UploadStatus.expired h = cc

release_failed_row :
    (upload : ℕ) (u : DropUpload) (s : Db)
    → lookup upload s.uploads ≡ some u
    → fits u.owner s ≡ true
    → is_open u.status ≡ true
    → (t : Db) × (release_drop_reservation upload (some UploadStatus.failed) s ≡ ok (tt, t))
      × HasFailed upload u s t
unfolding release_drop_reservation release_open release_node_capacity
release_failed_row upload u s found fit live =
    let g : NodeDropStatus → NodeDropStatus =
      λ e. record e { reserved_bytes = e.reserved_bytes - u.reserved_bytes } in
    let (t, given) = release_quota_fits u s fit in
    let s1 : Db = record s {
      quotas = t;
      drop_nodes = adjust u.node g s.drop_nodes;
      uploads = adjust upload failed s.uploads;
    } in
    (s1, ground arith, (lookup-adjust_self upload failed s.uploads u found, refl))

orphan_row :
    (upload : ℕ) (cid : String) (u : DropUpload) (s : Db)
    → lookup upload s.uploads ≡ some u
    → fits u.owner s ≡ true
    → is_open u.status ≡ true
    → HasOrphan upload u cid s
        (fail_drop_upload_with_orphan_pin upload cid "metadata commit failed" s).1
unfolding fail_drop_upload_with_orphan_pin record_orphan
orphan_row upload cid u s found fit live =
    let (t, done, (row, files)) = release_failed_row upload u s found fit live in
    rw (fail_drop_upload_with_orphan_pin, done)
      (
        lookup-adjust_self upload (note_orphan cid "metadata commit failed") t.uploads (failed u)
            row,
        files,
      )

commit_row :
    (user upload : ℕ) (cid : String) (size : ℤ) (now file : ℕ) (u : DropUpload) (s t : Db)
    {a : ℕ × DropFile}
    → lookup upload s.uploads ≡ some u
    → u.owner ≡ user
    → is_open u.status ≡ true
    → commit_drop_upload user upload cid size now file s ≡ ok (a, t)
    → HasFile upload u cid size now file t
unfolding commit_drop_upload
commit_row user upload cid size now file u s t {a} found own live h =
    let f : DropUpload → DropUpload =
      λ v. record v { status = UploadStatus.committed; cid = some cid } in
    let done : finish_commit upload u cid (charged_size size u) now file s ≡ ok (a, t) =
      ground (arith, commit_open u.status upload u cid size now file s live) in
    let (ea, ef, eu, ep) =
      finish_commit-rows upload u cid (charged_size size u) now file s t done in
    (
      ground (arith, lookup-adjust_self upload f s.uploads u found),
      ground (
        arith,
        lookup-insert file file (committed_file upload u cid (charged_size size u) now) s.files,
      ),
    )

-- What the handler leaves, for each answer of the node, with its own status.
abbrev pub Outcome : ℕ → DropUpload → ℕ → ℕ → Db → PutReply → ℕ × Db → Type 0
Outcome upload u now file s PutReply.too_large (n, t) = (n ≡ 413) × HasFailed upload u s t
Outcome upload u now file s PutReply.put_failed (n, t) = (n ≡ 502) × HasFailed upload u s t
Outcome upload u now file s (PutReply.stored cid size) (n, t) =
    ((valid_cid cid ≡ false) × (n ≡ 502) × HasFailed upload u s t)
    ⊎ ((valid_cid cid ≡ true) × (n ≡ 200) × HasFile upload u cid size now file t)
    ⊎ ((valid_cid cid ≡ true) × (n ≡ 500) × HasOrphan upload u cid s t)

settle_upload_lem :
    (user upload : ℕ) (reply : PutReply) (now file : ℕ) (u : DropUpload) (s : Db)
    → lookup upload s.uploads ≡ some u
    → u.owner ≡ user
    → fits user s ≡ true
    → is_open u.status ≡ true
    → Outcome upload u now file s reply (settle_upload user upload reply now file s)
unfolding settle_upload release_failed after_commit file_of
settle_upload_lem user upload PutReply.too_large now file u s found own fit live =
    let (t, done, rows) = release_failed_row upload u s found (rw own fit) live in
    rw (settle_upload, done) (refl, rows)
settle_upload_lem user upload PutReply.put_failed now file u s found own fit live =
    let (t, done, rows) = release_failed_row upload u s found (rw own fit) live in
    rw (settle_upload, done) (refl, rows)
settle_upload_lem user upload (PutReply.stored cid size) now file u s found own fit live =
    elim (Bool-cases (valid_cid cid)) [
      | inr invalid ↦
          let (t, done, rows) = release_failed_row upload u s found (rw own fit) live in
          rw (settle_upload, invalid, done) (inl (refl, refl, rows))
      | inl valid ↦ elim (Result-cases (commit_drop_upload user upload cid size now file s)) [
        | inl ((a, t), kept) ↦
            rw (settle_upload, valid, kept)
              (inr (
                inl
                  (refl, refl, commit_row user upload cid size now file u s t found own live kept)))
        | inr (e, missed) ↦
            rw (settle_upload, valid, missed)
              (inr (inr (refl, refl, orphan_row upload cid u s found (rw own fit) live)))
      ]
    ]

-- The content of an open upload of the caller reaches a node that passes its checks, and the upload is
-- still the caller's and open when the node has answered, with the caller's counters in a bigint. When
-- the node refuses the content, fails or answers with a CID that is not valid, the upload fails with
-- nothing reserved, no file comes of it and the answer is 413, 502 or 502. When the CID is valid, either
-- the upload is committed under it, the new file has the size that is charged and the answer is 200, or
-- the answer is 500 and the upload has failed, with nothing reserved, no file, and a note of the content
-- that the node is left with.
pub handle_drop_upload_content_lem :
    (user upload : ℕ) (reply : PutReply) (meanwhile : Db → Db) (now file : ℕ) (v u : DropUpload)
    (s : Db)
    → lookup upload s.uploads ≡ some v
    → v.owner ≡ user
    → is_open v.status ≡ true
    → revalidate_drop_node v.node v.scope true s ≡ none
    → lookup upload (meanwhile s).uploads ≡ some u
    → u.owner ≡ user
    → is_open u.status ≡ true
    → fits user (meanwhile s) ≡ true
    → Outcome upload u now file
        (meanwhile s)
        reply
        (handle_drop_upload_content user upload none reply meanwhile now file s)
unfolding handle_drop_upload_content
handle_drop_upload_content_lem user upload reply meanwhile now file v u s found own live passes
      found' own' live' fit =
    let settles : handle_drop_upload_content user upload none reply meanwhile now file s
        ≡ settle_upload user upload reply now file (meanwhile s) =
      ground (arith, open_not_committed v.status live) in
    rw settles (settle_upload_lem user upload reply now file u (meanwhile s) found' own' fit live')
