-- ===== src/Drop/Accounting/System.antt =====
-- The books over every history of the store: any sequence of transactions and of node reports.
use Prim.Native.String.{String}
use erebrus_gateway.Base.{
  ℕ, suc, ◌≡◌, refl, subst, sym, ◌∙◌, Bool, Option, none, some, List, [], ◌∷◌, arith, take,
}
use erebrus_gateway.Base.Int.{ℤ}
use erebrus_gateway.Base.Table.{Table, lookup, insert, lookup-insert, sum-adjust_same}
use erebrus_gateway.Base.Text.{Text}
use erebrus_gateway.Base.Tx.{Error, Result, ok, err, settle, transact}
use erebrus_gateway.Model.Drop.{UploadStatus, DropState, DropUpload, DropFile, NodeDropStatus}
use erebrus_gateway.Model.Db.{Db}
use erebrus_gateway.Drop.Upload.{
  ReserveInput, reserve_drop_upload, commit_drop_upload, release_drop_reservation,
}
use erebrus_gateway.Drop.Deletion.{mark_drop_file_delete_pending, finalize_drop_file_deletion}
use erebrus_gateway.Drop.Maintenance.{
  note_orphan, record_orphan, after_release, sweep_limit, due, fail_drop_upload_with_orphan_pin,
  release_all, expire_drop_reservations,
}
use erebrus_gateway.Drop.Node.{
  with_capability, apply_drop_capability, with_status, apply_drop_status, normalize_drop_state,
}
use erebrus_gateway.Drop.Accounting.Steps.{IsAccounted, reserved_weight, node_weight, node_reserved}
use erebrus_gateway.Drop.Accounting.Reservations.{reserve_drop_upload-IsAccounted}
use erebrus_gateway.Drop.Accounting.Uploads.{
  commit_drop_upload-IsAccounted, release_drop_reservation-IsAccounted,
}
use erebrus_gateway.Drop.Accounting.Files.{
  mark_drop_file_delete_pending-IsAccounted, finalize_drop_file_deletion-IsAccounted,
}

-- A report of a node that keeps what the node has reserved keeps the books.
report-IsAccounted :
    (node : ℕ) (d : NodeDropStatus) (s : Db)
    → IsAccounted s
    → d.reserved_bytes ≡ node_reserved node s.drop_nodes
    → IsAccounted (record s { drop_nodes = insert node d s.drop_nodes })
report-IsAccounted node d s acc e = record {
  reserved_exact = λ v. acc.reserved_exact v;
  used_exact = λ v. acc.used_exact v;
  node_exact = λ v.
      ground (arith, acc.node_exact v, acc.node_exact node, lookup-insert node v d s.drop_nodes);
}

capability_reserved :
    (enabled public webui : Bool) (node : ℕ) (t : Table NodeDropStatus)
    → (with_capability enabled public webui (lookup node t)).reserved_bytes ≡ node_reserved node t
unfolding with_capability
capability_reserved enabled public webui node t = ground arith

status_reserved :
    (st : DropState) (repo_size storage_max num_objects : ℤ) (node : ℕ) (t : Table NodeDropStatus)
    → (with_status st repo_size storage_max num_objects (lookup node t)).reserved_bytes
      ≡ node_reserved node t
unfolding with_status
status_reserved st repo_size storage_max num_objects node t = ground arith

orphan-IsAccounted :
    (upload : ℕ) (cid message : String) (s : Db)
    → IsAccounted s
    → IsAccounted (record_orphan upload cid message s)
unfolding record_orphan
orphan-IsAccounted upload cid message s acc =
    let f = note_orphan cid message in
    record {
      reserved_exact = λ v.
          acc.reserved_exact v
          ∙ sym (sum-adjust_same (reserved_weight v) upload f s.uploads (λ u. ground arith));
      used_exact = λ v. acc.used_exact v;
      node_exact = λ v.
          acc.node_exact v
          ∙ sym (sum-adjust_same (node_weight v) upload f s.uploads (λ u. ground arith));
    }

-- A release as a transaction, that succeeds or is rolled back.
pub transact_release-IsAccounted :
    (upload : ℕ) (status : Option UploadStatus) (s : Db)
    → IsAccounted s
    → IsAccounted (transact (release_drop_reservation upload status) s).1
transact_release-IsAccounted upload status s acc =
    go (release_drop_reservation upload status s) refl
  where
    go :
        (r : Result ((Unit {0}) × Db))
        → release_drop_reservation upload status s ≡ r
        → IsAccounted (settle s r).1
    go (ok (a, t)) e = release_drop_reservation-IsAccounted upload status s t acc e
    go (err x) e = acc

release_all-IsAccounted :
    (is : List (ℕ × ℕ)) (n : ℕ) (s : Db) → IsAccounted s → IsAccounted (release_all is (n, s)).1
unfolding release_all
release_all-IsAccounted [] n s acc = acc
release_all-IsAccounted ((x, i) ∷ is) n s acc =
    let m = transact (release_drop_reservation i (some UploadStatus.expired)) s in
    release_all-IsAccounted is (elim m.0 [ ok _ ↦ suc n | err _ ↦ n ]) m.1
      (transact_release-IsAccounted i (some UploadStatus.expired) s acc)

-- A sweep keeps the books, whatever it finds and whichever of its releases fail.
pub expire_drop_reservations-IsAccounted :
    (limit now : ℕ) (s : Db) → IsAccounted s → IsAccounted (expire_drop_reservations limit now s).1
unfolding expire_drop_reservations
expire_drop_reservations-IsAccounted limit now s acc =
    release_all-IsAccounted (take (sweep_limit limit) (due now s.uploads)) 0 s acc

pub fail_drop_upload-IsAccounted :
    (upload : ℕ) (cid message : String) (s : Db)
    → IsAccounted s
    → IsAccounted (fail_drop_upload_with_orphan_pin upload cid message s).1
unfolding fail_drop_upload_with_orphan_pin
fail_drop_upload-IsAccounted upload cid message s acc =
    go (transact (release_drop_reservation upload (some UploadStatus.failed)) s)
      (transact_release-IsAccounted upload (some UploadStatus.failed) s acc)
  where
    go :
        (m : Result (Unit {0}) × Db)
        → IsAccounted m.1
        → IsAccounted (after_release upload cid message m).1
    go (ok _, t) a = orphan-IsAccounted upload cid message t a
    go (err Error.not_found, t) a = orphan-IsAccounted upload cid message t a
    go (err _, t) a = a

-- One step of the store: a transaction that succeeds, with fresh identifiers, or a report.
module _ (uuid_text : ℕ → String) where
  pub data Step : Db → Db → Type 0 where
    reserves :
        {s s' : Db} (r : ReserveInput) (now id : ℕ) (a : ℕ × DropUpload)
        → lookup id s.uploads ≡ none
        → reserve_drop_upload uuid_text r now id s ≡ ok (a, s')
        → Step s s'
    commits :
        {s s' : Db} (user upload : ℕ) (cid : String) (size : ℤ) (now file : ℕ) (a : ℕ × DropFile)
        → lookup file s.files ≡ none
        → commit_drop_upload user upload cid size now file s ≡ ok (a, s')
        → Step s s'
    releases :
        {s s' : Db} (upload : ℕ) (status : Option UploadStatus)
        → release_drop_reservation upload status s ≡ ok (tt, s')
        → Step s s'
    fails :
        (s : Db) (upload : ℕ) (cid message : String)
        → Step s (fail_drop_upload_with_orphan_pin upload cid message s).1
    expires : (s : Db) (limit now : ℕ) → Step s (expire_drop_reservations limit now s).1
    marks :
        {s s' : Db} (file now : ℕ) (a : Bool × DropFile)
        → mark_drop_file_delete_pending file now s ≡ ok (a, s')
        → Step s s'
    finalizes :
        {s s' : Db} (file : ℕ) (unpinned : Bool)
        → finalize_drop_file_deletion file unpinned s ≡ ok (tt, s')
        → Step s s'
    hello :
        {s s' : Db} (node : ℕ) (enabled public webui : Bool)
        → apply_drop_capability node enabled public webui s ≡ ok (tt, s')
        → Step s s'
    heartbeat :
        {s s' : Db} (node : ℕ) (state : Text) (repo_size storage_max num_objects : ℤ)
        → apply_drop_status node state repo_size storage_max num_objects s ≡ ok (tt, s')
        → Step s s'

  pub data Reach (s : Db) : Db → Type 0 where
    here : Reach s s
    next : {t u : Db} → Reach s t → Step t u → Reach s u

  Step-IsAccounted : {s s' : Db} → Step s s' → IsAccounted s → IsAccounted s'
  unfolding apply_drop_capability apply_drop_status
  Step-IsAccounted (reserves r now id a fresh e) acc =
      reserve_drop_upload-IsAccounted uuid_text r now id _ _ acc fresh e
  Step-IsAccounted (commits user upload cid size now file a fresh e) acc =
      commit_drop_upload-IsAccounted user upload cid size now file _ _ acc fresh e
  Step-IsAccounted (releases upload status e) acc =
      release_drop_reservation-IsAccounted upload status _ _ acc e
  Step-IsAccounted (fails s upload cid message) acc =
      fail_drop_upload-IsAccounted upload cid message s acc
  Step-IsAccounted (expires s limit now) acc = expire_drop_reservations-IsAccounted limit now s acc
  Step-IsAccounted (marks file now a e) acc =
      mark_drop_file_delete_pending-IsAccounted file now _ _ acc e
  Step-IsAccounted (finalizes file unpinned e) acc =
      finalize_drop_file_deletion-IsAccounted file unpinned _ _ acc e
  Step-IsAccounted {s} (hello node enabled public webui e) acc = subst IsAccounted (ground arith) (
      report-IsAccounted node (with_capability enabled public webui (lookup node s.drop_nodes)) s
        acc (capability_reserved enabled public webui node s.drop_nodes))
  Step-IsAccounted {s} (heartbeat node state repo_size storage_max num_objects e) acc =
      subst IsAccounted (ground arith) (
        report-IsAccounted node
          (with_status (normalize_drop_state state) repo_size storage_max num_objects
            (lookup node s.drop_nodes))
          s acc
          (status_reserved (normalize_drop_state state) repo_size storage_max num_objects node
            s.drop_nodes))

  -- In every database that the store reaches, by the steps above with fresh identifiers, from one
  -- whose books agree, the books agree: what a user has reserved is the sum of the open public
  -- uploads, what the user has used is the sum of the live public files, and what a node has
  -- reserved is the sum of its open uploads.
  pub Reach-IsAccounted : {s s' : Db} → IsAccounted s → Reach s s' → IsAccounted s'
  Reach-IsAccounted acc here = acc
  Reach-IsAccounted acc (next r st) = Step-IsAccounted st (Reach-IsAccounted acc r)
