-- ===== src/Drop/Accounting/Uploads.antt =====
-- The commit and the release of an upload keep the books.
use Prim.Native.String.{String}
use erebrus_gateway.Base.{
  ℕ, ◌+◌, ◌-◌, ◌≡◌, refl, subst, true, ◌&&◌, Option, none, some, arith, ◌==◌, if◌then◌else◌,
  Bool-cases, Option-cases, inl, inr,
}
use erebrus_gateway.Base.Int.{ℤ, pos, neg}
use erebrus_gateway.Base.Table.{Table, lookup, insert, adjust, sum-insert, sum-adjust}
use erebrus_gateway.Base.Tx.{Tx, ok, ◌>>◌, pure, modify, >>=-eq-ok}
use erebrus_gateway.Model.Drop.{UploadStatus, PinStatus, DropUpload, DropFile, DropQuotaUsage}
use erebrus_gateway.Model.Db.{Db}
use erebrus_gateway.Drop.Quota.{quota_of, adjust_quota, is_public, release_node_capacity}
use erebrus_gateway.Drop.Upload.{
  is_open, convert_quota, finish_commit, upsert_pin, commit_by, commit_drop_upload, charged_size,
  committed_file, release_open, release_drop_reservation,
}
use erebrus_gateway.Drop.Accounting.Steps.{
  IsAccounted, reserved_weight, node_weight, used_weight, release_node_capacity_state,
  adjust_quota_state, adjusted, adjusted_used, adjusted_reserved,
}

-- The quota after bytes move from reserved to used, for a public upload.
module _ (u : DropUpload) (size : ℕ) (s s' : Db) where
  abbrev pub Converts : Type 0
  Converts =
      (t : Table DropQuotaUsage) × (s' ≡ record s { quotas = t })
      × ((v : ℕ)
          → (quota_of v t).used_bytes
            ≡ (quota_of v s.quotas).used_bytes
              + (if is_public u.scope && u.owner == v then size else 0))
      × ((v : ℕ)
          → (quota_of v t).reserved_bytes
            ≡ (quota_of v s.quotas).reserved_bytes
              - (if is_public u.scope && u.owner == v then u.reserved_bytes else 0))

  adjust-Converts :
      is_public u.scope ≡ true
      → adjust_quota u.owner (pos size) (neg u.reserved_bytes) s ≡ ok (tt, s')
      → Converts
  adjust-Converts e h = (
    adjusted u.owner (pos size) (neg u.reserved_bytes) s.quotas,
    adjust_quota_state u.owner (pos size) (neg u.reserved_bytes) s s' h,
    λ v. ground (arith, adjusted_used u.owner (pos size) (neg u.reserved_bytes) s.quotas v),
    λ v. ground (arith, adjusted_reserved u.owner (pos size) (neg u.reserved_bytes) s.quotas v),
  )

  pub convert_quota-Converts :
      (if is_public u.scope
            then adjust_quota u.owner (pos size) (neg u.reserved_bytes)
            else pure tt)
          s
        ≡ ok (tt, s')
      → Converts
  convert_quota-Converts h = elim (Bool-cases (is_public u.scope)) [
    | inl e ↦ adjust-Converts e (rw e at h)
    | inr e ↦ (s.quotas, ground arith, λ v. ground arith, λ v. ground arith)
  ]

finish_commit-IsAccounted :
    (upload : ℕ) (u : DropUpload) (cid : String) (size now file : ℕ) (s s' : Db) {a : ℕ × DropFile}
    → IsAccounted s
    → lookup upload s.uploads ≡ some u
    → is_open u.status ≡ true
    → lookup file s.files ≡ none
    → finish_commit upload u cid size now file s ≡ ok (a, s')
    → IsAccounted s'
unfolding finish_commit convert_quota
finish_commit-IsAccounted upload u cid size now file s s' acc found live fresh h =
    let f : DropUpload → DropUpload =
      λ v. record v { status = UploadStatus.committed; cid = some cid } in
    let row = committed_file upload u cid size now in
    let s1 : Db = record s {
      files = insert file row s.files;
      pins =
          upsert_pin (record { file = file; node = u.node; cid = cid; status = PinStatus.pinned })
            s.pins;
      uploads = adjust upload f s.uploads;
    } in
    let give : Tx Db (ℕ × DropFile) = pure (file, row) in
    let free = release_node_capacity u.node u.reserved_bytes in
    let (_, s2, converted, h1) = >>=-eq-ok (convert_quota u size) (λ _. free >> give) s1 h in
    let (_, s3, released, h2) = >>=-eq-ok free (λ _. give) s2 h1 in
    let (q, e1, used, reserved) = convert_quota-Converts u size s1 s2 converted in
    let (t, e2, node) = release_node_capacity_state u.node u.reserved_bytes s2 s3 released in
    record {
      reserved_exact = λ v. ground (
        arith,
        acc.reserved_exact v,
        reserved v,
        sum-adjust (reserved_weight v) upload f s.uploads u found,
      );
      used_exact = λ v.
          ground
            (arith, acc.used_exact v, used v, sum-insert (used_weight v) file row s.files fresh);
      node_exact = λ v.
          ground (
            arith,
            acc.node_exact v,
            node v,
            sum-adjust (node_weight v) upload f s.uploads u found,
          );
    }

commit_by-IsAccounted :
    (st : UploadStatus) (upload : ℕ) (u : DropUpload) (cid : String) (final_size : ℤ) (now file : ℕ)
    (s s' : Db) {a : ℕ × DropFile}
    → IsAccounted s
    → lookup upload s.uploads ≡ some u
    → u.status ≡ st
    → lookup file s.files ≡ none
    → commit_by st upload u cid final_size now file s ≡ ok (a, s')
    → IsAccounted s'
unfolding commit_by
commit_by-IsAccounted UploadStatus.committed upload u cid z now file s s' acc found e fresh h =
    let same : s ≡ s' = ground arith in subst IsAccounted same acc
commit_by-IsAccounted UploadStatus.reserved upload u cid z now file s s' acc found e fresh h =
    finish_commit-IsAccounted upload u cid (charged_size z u) now file s s' acc found (rw e) fresh h
commit_by-IsAccounted UploadStatus.uploading upload u cid z now file s s' acc found e fresh h =
    finish_commit-IsAccounted upload u cid (charged_size z u) now file s s' acc found (rw e) fresh h
commit_by-IsAccounted UploadStatus.failed upload u cid z now file s s' acc found e fresh h = cc
commit_by-IsAccounted UploadStatus.expired upload u cid z now file s s' acc found e fresh h = cc

-- What CommitDropUpload has checked when it succeeds.
pub commit_checks :
    (user upload : ℕ) (cid : String) (final_size : ℤ) (now file : ℕ) (s s' : Db) {a : ℕ × DropFile}
    → commit_drop_upload user upload cid final_size now file s ≡ ok (a, s')
    → (u : DropUpload) × (lookup upload s.uploads ≡ some u)
      × (u.owner ≡ user)
      × (commit_by u.status upload u cid final_size now file s ≡ ok (a, s'))
unfolding commit_drop_upload
commit_checks user upload cid final_size now file s s' h =
    elim (Option-cases (lookup upload s.uploads)) [
      | inl e ↦ absurd (ground arith)
      | inr (u, e) ↦ (u, e, ground arith, ground arith)
    ]

-- A commit keeps the books: the reservation of the row leaves both counters, and the size of the
-- new file is what the quota charges.
pub commit_drop_upload-IsAccounted :
    (user upload : ℕ) (cid : String) (final_size : ℤ) (now file : ℕ) (s s' : Db) {a : ℕ × DropFile}
    → IsAccounted s
    → lookup file s.files ≡ none
    → commit_drop_upload user upload cid final_size now file s ≡ ok (a, s')
    → IsAccounted s'
unfolding commit_drop_upload
commit_drop_upload-IsAccounted user upload cid final_size now file s s' acc fresh h =
    let (u, found, _, h1) = commit_checks user upload cid final_size now file s s' h in
    commit_by-IsAccounted u.status upload u cid final_size now file s s' acc found refl fresh h1

release_open-IsAccounted :
    (upload : ℕ) (u : DropUpload) (status : Option UploadStatus) (s s' : Db)
    → IsAccounted s
    → lookup upload s.uploads ≡ some u
    → is_open u.status ≡ true
    → release_open upload u status s ≡ ok (tt, s')
    → IsAccounted s'
unfolding release_open
release_open-IsAccounted upload u status s s' acc found live h =
    let f : DropUpload → DropUpload = λ v. record v {
      status = elim status [ none ↦ UploadStatus.expired | some st ↦ st ];
      reserved_bytes = 0;
    } in
    let close : Tx Db (Unit {0}) = modify (λ s. record s { uploads = adjust upload f s.uploads }) in
    let free = release_node_capacity u.node u.reserved_bytes in
    let convert : Tx Db (Unit {0}) =
      if is_public u.scope then adjust_quota u.owner (pos 0) (neg u.reserved_bytes) else pure tt in
    let (_, s1, converted, h1) = >>=-eq-ok convert (λ _. free >> close) s h in
    let (_, s2, released, h2) = >>=-eq-ok free (λ _. close) s1 h1 in
    let (q, e1, used, reserved) = convert_quota-Converts u 0 s s1 converted in
    let (t, e2, node) = release_node_capacity_state u.node u.reserved_bytes s1 s2 released in
    record {
      reserved_exact = λ v. ground (
        arith,
        acc.reserved_exact v,
        reserved v,
        sum-adjust (reserved_weight v) upload f s.uploads u found,
      );
      used_exact = λ v. ground (arith, acc.used_exact v, used v);
      node_exact = λ v.
          ground (
            arith,
            acc.node_exact v,
            node v,
            sum-adjust (node_weight v) upload f s.uploads u found,
          );
    }

-- A release keeps the books, and so does one that finds the upload already closed.
pub release_drop_reservation-IsAccounted :
    (upload : ℕ) (status : Option UploadStatus) (s s' : Db)
    → IsAccounted s
    → release_drop_reservation upload status s ≡ ok (tt, s')
    → IsAccounted s'
unfolding release_drop_reservation
release_drop_reservation-IsAccounted upload status s s' acc h =
    elim (Option-cases (lookup upload s.uploads)) [
      | inl e ↦ absurd (ground arith)
      | inr (u, e) ↦ elim (Bool-cases (is_open u.status)) [
        | inl live ↦ release_open-IsAccounted upload u status s s' acc e live (ground arith)
        | inr closed ↦ let same : s ≡ s' = ground arith in subst IsAccounted same acc
      ]
    ]
