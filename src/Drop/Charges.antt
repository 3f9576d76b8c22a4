-- ===== src/Drop/Charges.antt =====
-- What a commit charges, and what an advertised capacity promises.
use Prim.Native.String.{String}
use erebrus_gateway.Base.{ℕ, ◌+◌, ◌-◌, ◌≤◌, ◌<◌, ◌≡◌, true, some, arith}
use erebrus_gateway.Base.Int.{ℤ, pos, i64_limit, i64_small}
use erebrus_gateway.Base.Table.{lookup, insert, adjust}
use erebrus_gateway.Base.Tx.{Tx, ok, ◌>>◌, pure, >>=-eq-ok}
use erebrus_gateway.Model.Drop.{
  Scope, UploadStatus, PinStatus, DropUpload, DropFile, NodeDropStatus, Node,
}
use erebrus_gateway.Model.Db.{Db}
use erebrus_gateway.Drop.Quota.{
  quota_of, is_public, bigint, exceeds_capacity, reserve_node_capacity, release_node_capacity,
}
use erebrus_gateway.Drop.Upload.{
  is_open, charged_size, committed_file, upsert_pin, convert_quota, finish_commit,
  commit_drop_upload,
}
use erebrus_gateway.Drop.Node.{coarse_capacity, available_drop_capacity_bytes, accepting_uploads}
use erebrus_gateway.Drop.Accounting.Steps.{release_node_capacity_state}
use erebrus_gateway.Drop.Accounting.Uploads.{convert_quota-Converts}
use erebrus_gateway.Drop.Idempotence.{commit_open}

finish_commit-quota :
    (upload : ℕ) (u : DropUpload) (cid : String) (size now file : ℕ) (s s' : Db) {a : ℕ × DropFile}
    → is_public u.scope ≡ true
    → finish_commit upload u cid size now file s ≡ ok (a, s')
    → ((quota_of u.owner s'.quotas).used_bytes ≡ (quota_of u.owner s.quotas).used_bytes + size)
      × ((quota_of u.owner s'.quotas).reserved_bytes
          ≡ (quota_of u.owner s.quotas).reserved_bytes - u.reserved_bytes)
unfolding finish_commit convert_quota
finish_commit-quota upload u cid size now file s s' public h =
    let f : DropUpload → DropUpload =
      λ v. record v { status = UploadStatus.committed; cid = some cid } in
    let row = committed_file upload u cid size now in
    let s1 : Db = record s {
      files = insert file row s.files;
      pins =
          upsert_pin (record { file = file; node = u.node; cid = cid; status = PinStatus.pinned })
            s.pins;
      uploads = adjust upload f s.uploads;
    } in
    let give : Tx Db (ℕ × DropFile) = pure (file, row) in
    let free = release_node_capacity u.node u.reserved_bytes in
    let (_, s2, converted, h1) = >>=-eq-ok (convert_quota u size) (λ _. free >> give) s1 h in
    let (_, s3, released, h2) = >>=-eq-ok free (λ _. give) s2 h1 in
    let (q, e1, used, reserved) = convert_quota-Converts u size s1 s2 converted in
    let (t, e2, node) = release_node_capacity_state u.node u.reserved_bytes s2 s3 released in
    (ground (arith, used u.owner), ground (arith, reserved u.owner))

-- A commit of an open public upload of the caller that succeeds adds to what the user has used the
-- size that the node reports, or the declared size where the node reports none, and takes what was
-- reserved for the upload from what the user has reserved.
pub commit_drop_upload_charges :
    (user upload : ℕ) (cid : String) (size : ℤ) (now file : ℕ) (u : DropUpload) (s s' : Db)
    {a : ℕ × DropFile}
    → lookup upload s.uploads ≡ some u
    → u.owner ≡ user
    → is_open u.status ≡ true
    → is_public u.scope ≡ true
    → commit_drop_upload user upload cid size now file s ≡ ok (a, s')
    → ((quota_of user s'.quotas).used_bytes
        ≡ (quota_of user s.quotas).used_bytes + charged_size size u)
      × ((quota_of user s'.quotas).reserved_bytes
          ≡ (quota_of user s.quotas).reserved_bytes - u.reserved_bytes)
unfolding commit_drop_upload
commit_drop_upload_charges user upload cid size now file u s s' {a} found own live public h =
    let done : finish_commit upload u cid (charged_size size u) now file s ≡ ok (a, s') =
      ground (arith, commit_open u.status upload u cid size now file s live) in
    let (used, reserved) =
      finish_commit-quota upload u cid (charged_size size u) now file s s' public done in
    (rw own at used, rw own at reserved)

-- An enabled node that discovery shows as accepting uploads takes a reservation of any size up to
-- the capacity that AvailableDropCapacityBytes gives, where the node has a bound below 2^63 and
-- reports no negative sizes.
pub accepting_uploads-reserve_node_capacity :
    (node : ℕ) (scope : Scope) (size repo bound room : ℕ) (s : Db) (d : NodeDropStatus) (n : Node)
    → lookup node s.drop_nodes ≡ some d
    → lookup node s.nodes ≡ some n
    → d.enabled ≡ true
    → accepting_uploads scope d n ≡ true
    → d.repo_size_bytes ≡ pos repo
    → d.storage_max_bytes ≡ pos bound
    → bound < i64_limit
    → available_drop_capacity_bytes d ≡ pos room
    → size ≤ room
    → (s' : Db) × (reserve_node_capacity node scope size s ≡ ok (tt, s'))
unfolding reserve_node_capacity accepting_uploads available_drop_capacity_bytes coarse_capacity
    exceeds_capacity bigint
accepting_uploads-reserve_node_capacity node scope size repo bound room s d n ed en enabled accepts
      er em small er' fits =
    let total : repo + (d.reserved_bytes + size) ≤ bound = ground arith in
    let wraps = i64_small (repo + (d.reserved_bytes + size)) (omega arith) in
    let f : NodeDropStatus → NodeDropStatus =
      λ e. record e { reserved_bytes = d.reserved_bytes + size } in
    (record s { drop_nodes = adjust node f s.drop_nodes }, ground arith)
