-- ===== src/Drop/Transfers.antt =====
-- The handlers that move content between a caller, the gateway and a node (internal/api/drop.go).
-- The node is a parameter: what it answers to an upload or an unpin. While the content of an upload
-- is under way, other requests are served: `meanwhile` is what they make of the database.
use Prim.Native.String.{String}
use erebrus_gateway.Base.Text.{codes, text_eq}
use erebrus_gateway.Base.{ℕ, Bool, true, not, ◌&&◌, ◌||◌, Option, none, some, ◌==◌, if◌then◌else◌}
use erebrus_gateway.Base.Int.{ℤ}
use erebrus_gateway.Base.Table.{lookup}
use erebrus_gateway.Base.Tx.{Result, ok, err, transact}
use erebrus_gateway.Model.Drop.{Scope, UploadStatus, DropFile}
use erebrus_gateway.Model.Db.{Db}
use erebrus_gateway.Drop.Quota.{is_public, is_active_state}
use erebrus_gateway.Drop.Node.{is_serving}
use erebrus_gateway.Drop.Upload.{
  is_open, is_committed, file_by_upload, commit_drop_upload, release_drop_reservation,
}
use erebrus_gateway.Drop.Deletion.{mark_drop_file_delete_pending, finalize_drop_file_deletion}
use erebrus_gateway.Drop.Maintenance.{fail_drop_upload_with_orphan_pin}
use erebrus_gateway.Drop.Access.{valid_cid, can_delete_drop_file}

-- revalidateDropNode: none, or the status of the refusal.
unfoldable pub revalidate_drop_node : ℕ → Scope → Bool → Db → Option ℕ
revalidate_drop_node node scope write s = elim (lookup node s.nodes) [
  | none ↦ some 503
  | some n ↦
      if not (text_eq n.status (codes "online"))
      then some 503
      else elim (lookup node s.drop_nodes) [
        | none ↦ some 503
        | some d ↦
            if not d.enabled || not (is_active_state d.state || (not write && is_serving d.state))
            then some 503
            else if write && is_public scope && not d.accepts_public_uploads
            then some 503
            else none
      ]
]

-- What a node answers to the content of an upload (PutUploadContent).
pub data PutReply : Type 0 where
  stored : String → ℤ → PutReply
  too_large : PutReply
  put_failed : PutReply

-- The release of an upload that failed, whose own failure is ignored.
unfoldable pub release_failed : ℕ → Db → Db
release_failed upload s =
    (transact (release_drop_reservation upload (some UploadStatus.failed)) s).1

-- After the commit: the file is shown, or the pin is noted for the reconciler.
unfoldable pub after_commit : ℕ → String → Result DropFile × Db → ℕ × Db
after_commit upload cid (ok f, t) = (200, t)
after_commit upload cid (err e, t) =
    (500, (fail_drop_upload_with_orphan_pin upload cid "metadata commit failed" t).1)

unfoldable pub file_of : Result (ℕ × DropFile) × Db → Result DropFile × Db
file_of (ok a, t) = (ok a.1, t)
file_of (err e, t) = (err e, t)

-- The part of handleDropUploadContent after the node has answered.
unfoldable pub settle_upload : ℕ → ℕ → PutReply → ℕ → ℕ → Db → ℕ × Db
unfolding release_failed after_commit file_of
settle_upload user upload PutReply.too_large now file s = (413, release_failed upload s)
settle_upload user upload PutReply.put_failed now file s = (502, release_failed upload s)
settle_upload user upload (PutReply.stored cid size) now file s =
    if not (valid_cid cid)
    then (502, release_failed upload s)
    else after_commit upload cid
        (file_of (transact (commit_drop_upload user upload cid size now file) s))

-- handleDropUploadContent; `endpoint` is the status of a failure of dropNodeEndpoint, if it fails.
unfoldable pub handle_drop_upload_content :
    ℕ → ℕ → Option ℕ → PutReply → (Db → Db) → ℕ → ℕ → Db → ℕ × Db
unfolding revalidate_drop_node settle_upload file_by_upload
handle_drop_upload_content user upload endpoint reply meanwhile now file s =
    elim (lookup upload s.uploads) [
      | none ↦ (404, s)
      | some u ↦
          if not (u.owner == user)
          then (404, s)
          else if is_committed u.status
          then elim (file_by_upload upload s.files) [ none ↦ (500, s) | some f ↦ (200, s) ]
          else if not (is_open u.status)
          then (409, s)
          else elim (revalidate_drop_node u.node u.scope true s) [
            | some code ↦ (code, s)
            | none ↦ elim endpoint [
              | some code ↦ (code, s)
              | none ↦ settle_upload user upload reply now file (meanwhile s)
            ]
          ]
    ]

-- The rest of handleDropDeleteFile after the mark, where `unpins` says that the node can be reached
-- and unpins the content.
unfoldable pub finish_delete : ℕ → String → Bool → Result (Bool × DropFile) × Db → ℕ × Db
finish_delete file cid unpins (err e, t) = (500, t)
finish_delete file cid unpins (ok (needed, _), t) =
    let unpinned = not (needed && valid_cid cid) || unpins in
    let (r, t') = transact (finalize_drop_file_deletion file unpinned) t in
    elim r [ ok _ ↦ (if unpinned then 200 else 202, t') | err _ ↦ (500, t') ]

-- handleDropDeleteFile
unfoldable pub handle_drop_delete_file : ℕ → Bool → ℕ → Bool → ℕ → Db → ℕ × Db
unfolding can_delete_drop_file finish_delete
handle_drop_delete_file user admin file unpins now s = elim (lookup file s.files) [
  | none ↦ (404, s)
  | some f ↦
      if not (can_delete_drop_file user admin f s)
      then (403, s)
      else finish_delete file f.cid unpins (transact (mark_drop_file_delete_pending file now) s)
]
