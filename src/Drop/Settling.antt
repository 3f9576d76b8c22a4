-- ===== src/Drop/Settling.antt =====
-- What the upload of content leaves behind, whatever the node answers.
use Prim.Native.String.{String}
use erebrus_gateway.Base.{
  ℕ, ◌-◌, ◌≡◌, Bool, true, false, not, ◌&&◌, none, some, arith, ltb, if◌then◌else◌, Bool-cases,
  Option-cases, inl, inr,
}
use erebrus_gateway.Base.Int.{ℤ, pos, neg, i64_limit}
use erebrus_gateway.Base.Table.{Table, lookup, adjust, lookup-adjust_self}
use erebrus_gateway.Base.Tx.{ok, pure, Result-cases}
use erebrus_gateway.Model.Drop.{UploadStatus, DropUpload, DropFile, DropQuotaUsage, NodeDropStatus}
use erebrus_gateway.Model.Db.{Db}
use erebrus_gateway.Drop.Quota.{
  bigint, clamp_add, adjust_quota, quota_of, is_public, release_node_capacity,
}
use erebrus_gateway.Drop.Upload.{
  is_open, commit_by, finish_commit, charged_size, commit_drop_upload, release_open,
  release_drop_reservation,
}
use erebrus_gateway.Drop.Maintenance.{note_orphan, record_orphan, fail_drop_upload_with_orphan_pin}
use erebrus_gateway.Drop.Access.{valid_cid}
use erebrus_gateway.Drop.Transfers.{PutReply, release_failed, after_commit, file_of, settle_upload}
use erebrus_gateway.Drop.Accounting.Steps.{adjust_quota_state, adjusted}
use erebrus_gateway.Drop.Idempotence.{finish_commit-rows, commit_open}

-- The counters of a user fit in a bigint, as the database has it for every row.
abbrev pub fits : ℕ → Db → Bool
fits user s =
    ltb (quota_of user s.quotas).used_bytes i64_limit
    && ltb (quota_of user s.quotas).reserved_bytes i64_limit

-- The upload is there and is not open.
abbrev pub is_settled : ℕ → Db → Bool
is_settled upload s = elim (lookup upload s.uploads) [
  | none ↦ false
  | some u ↦ not (is_open u.status)
]

pub release_quota_fits :
    (u : DropUpload) (s : Db)
    → fits u.owner s ≡ true
    → (t : Table DropQuotaUsage) × ((if is_public u.scope
            then adjust_quota u.owner (pos 0) (neg u.reserved_bytes)
            else pure tt)
          s
        ≡ ok (tt, record s { quotas = t }))
unfolding adjust_quota clamp_add bigint
release_quota_fits u s fit = elim (Bool-cases (is_public u.scope)) [
  | inr not_public ↦ (s.quotas, ground arith)
  | inl public ↦ elim (Result-cases (adjust_quota u.owner (pos 0) (neg u.reserved_bytes) s)) [
    | inr (e, failed) ↦ absurd (ground arith)
    | inl ((_, t), done) ↦
        let same = adjust_quota_state u.owner (pos 0) (neg u.reserved_bytes) s t done in
        (adjusted u.owner (pos 0) (neg u.reserved_bytes) s.quotas, ground arith)
  ]
]

release_failed-settled :
    (upload : ℕ) (u : DropUpload) (s : Db)
    → lookup upload s.uploads ≡ some u
    → fits u.owner s ≡ true
    → (t : Db) × (release_drop_reservation upload (some UploadStatus.failed) s ≡ ok (tt, t))
      × (is_settled upload t ≡ true)
unfolding release_drop_reservation release_open release_node_capacity
release_failed-settled upload u s found fit =
    let f : DropUpload → DropUpload =
      λ v. record v { status = UploadStatus.failed; reserved_bytes = 0 } in
    let g : NodeDropStatus → NodeDropStatus =
      λ e. record e { reserved_bytes = e.reserved_bytes - u.reserved_bytes } in
    elim (Bool-cases (is_open u.status)) [
      | inr closed ↦ (s, ground arith, ground arith)
      | inl live ↦
          let (t, given) = release_quota_fits u s fit in
          let s1 : Db = record s {
            quotas = t;
            drop_nodes = adjust u.node g s.drop_nodes;
            uploads = adjust upload f s.uploads;
          } in
          (s1, ground arith, ground (arith, lookup-adjust_self upload f s.uploads u found))
    ]

orphan-settled :
    (upload : ℕ) (cid message : String) (s : Db)
    → is_settled upload s ≡ true
    → is_settled upload (record_orphan upload cid message s) ≡ true
unfolding record_orphan
orphan-settled upload cid message s h = elim (Option-cases (lookup upload s.uploads)) [
  | inl missing ↦ absurd (ground arith)
  | inr (u, found) ↦
      ground (arith, lookup-adjust_self upload (note_orphan cid message) s.uploads u found)
]

fail_drop_upload-settled :
    (upload : ℕ) (cid message : String) (u : DropUpload) (s : Db)
    → lookup upload s.uploads ≡ some u
    → fits u.owner s ≡ true
    → is_settled upload (fail_drop_upload_with_orphan_pin upload cid message s).1 ≡ true
unfolding fail_drop_upload_with_orphan_pin
fail_drop_upload-settled upload cid message u s found fit =
    let (t, done, closed) = release_failed-settled upload u s found fit in
    rw done (orphan-settled upload cid message t closed)

commit-settled :
    (user upload : ℕ) (cid : String) (size : ℤ) (now file : ℕ) (u : DropUpload) (s t : Db)
    {a : ℕ × DropFile}
    → lookup upload s.uploads ≡ some u
    → u.owner ≡ user
    → commit_drop_upload user upload cid size now file s ≡ ok (a, t)
    → is_settled upload t ≡ true
unfolding commit_drop_upload commit_by
commit-settled user upload cid size now file u s t {a} found own h =
    elim (Bool-cases (is_open u.status)) [
      | inr closed ↦ ground arith
      | inl live ↦
          let f : DropUpload → DropUpload =
            λ v. record v { status = UploadStatus.committed; cid = some cid } in
          let done : finish_commit upload u cid (charged_size size u) now file s ≡ ok (a, t) =
            ground (arith, commit_open u.status upload u cid size now file s live) in
          let (ea, ef, eu, ep) =
            finish_commit-rows upload u cid (charged_size size u) now file s t done in
          ground (arith, lookup-adjust_self upload f s.uploads u found)
    ]

-- Once a node has answered to the content of an upload of the caller, whatever it answers, the
-- upload is no longer open, if the counters of the caller fit in a bigint. The upload may have been
-- settled before, by another request or by the sweep.
pub settle_upload-settled :
    (user upload : ℕ) (reply : PutReply) (now file : ℕ) (u : DropUpload) (s : Db)
    → lookup upload s.uploads ≡ some u
    → u.owner ≡ user
    → fits user s ≡ true
    → is_settled upload (settle_upload user upload reply now file s).1 ≡ true
unfolding settle_upload release_failed after_commit file_of
settle_upload-settled user upload reply now file u s found own fit =
    let (t, done, closed) = release_failed-settled upload u s found (rw own fit) in
    go t done closed reply
  where
    go :
        (t : Db)
        → release_drop_reservation upload (some UploadStatus.failed) s ≡ ok (tt, t)
        → is_settled upload t ≡ true
        → (reply : PutReply)
        → is_settled upload (settle_upload user upload reply now file s).1 ≡ true
    go t done closed PutReply.too_large = rw done closed
    go t done closed PutReply.put_failed = rw done closed
    go t done closed (PutReply.stored cid size) = elim (Bool-cases (valid_cid cid)) [
      | inr invalid ↦ rw (invalid, done) closed
      | inl valid ↦ elim (Result-cases (commit_drop_upload user upload cid size now file s)) [
        | inl ((a, t'), kept) ↦
            rw (valid, kept) (commit-settled user upload cid size now file u s t' found own kept)
        | inr (e, failed) ↦
            rw (valid, failed)
              (fail_drop_upload-settled upload cid "metadata commit failed" u s found (rw own fit))
      ]
    ]
