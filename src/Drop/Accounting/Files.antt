-- ===== src/Drop/Accounting/Files.antt =====
-- The books over the deletion of a file.
use erebrus_gateway.Base.{
  ℕ, ◌-◌, ◌≡◌, refl, subst, Bool, true, false, ◌&&◌, some, arith, ◌==◌, if◌then◌else◌, Bool-cases,
  Option-cases, inl, inr,
}
use erebrus_gateway.Base.Int.{pos, neg}
use erebrus_gateway.Base.Table.{Table, lookup, adjust, sum-adjust, sum-adjust_same}
use erebrus_gateway.Base.Tx.{Tx, ok, ◌>>=◌, ◌>>◌, pure, get, modify, >>=-eq-ok}
use erebrus_gateway.Model.Drop.{FileStatus, PinStatus, DropFile, DropQuotaUsage}
use erebrus_gateway.Model.Db.{Db}
use erebrus_gateway.Drop.Quota.{quota_of, adjust_quota, is_public}
use erebrus_gateway.Drop.Deletion.{
  is_live, other_refs, set_pin_status, leave_active, mark_by, mark_drop_file_delete_pending,
  finalize_status, finalize_drop_file_deletion,
}
use erebrus_gateway.Drop.Accounting.Steps.{
  IsAccounted, used_weight, adjust_quota_state, adjusted, adjusted_used, adjusted_reserved,
}

-- The quota after a file gives its bytes back.
module _ (f : DropFile) (s s' : Db) where
  abbrev pub GivesBack : Type 0
  GivesBack =
      (t : Table DropQuotaUsage) × (s' ≡ record s { quotas = t })
      × ((v : ℕ)
          → (quota_of v t).used_bytes
            ≡ (quota_of v s.quotas).used_bytes
              - (if is_public f.scope && f.owner == v then f.size_bytes else 0))
      × ((v : ℕ) → (quota_of v t).reserved_bytes ≡ (quota_of v s.quotas).reserved_bytes)

  adjust-GivesBack :
      is_public f.scope ≡ true
      → adjust_quota f.owner (neg f.size_bytes) (pos 0) s ≡ ok (tt, s')
      → GivesBack
  adjust-GivesBack e h = (
    adjusted f.owner (neg f.size_bytes) (pos 0) s.quotas,
    adjust_quota_state f.owner (neg f.size_bytes) (pos 0) s s' h,
    λ v. ground (arith, adjusted_used f.owner (neg f.size_bytes) (pos 0) s.quotas v),
    λ v. ground (arith, adjusted_reserved f.owner (neg f.size_bytes) (pos 0) s.quotas v),
  )

  pub charge-GivesBack :
      (if is_public f.scope then adjust_quota f.owner (neg f.size_bytes) (pos 0) else pure tt) s
        ≡ ok (tt, s')
      → GivesBack
  charge-GivesBack h = elim (Bool-cases (is_public f.scope)) [
    | inl e ↦ adjust-GivesBack e (rw e at h)
    | inr e ↦ (s.quotas, ground arith, λ v. ground arith, λ v. ground arith)
  ]

-- The part of `leave_active` after the quota.
abbrev pub retire : ℕ → DropFile → ℕ → Tx Db (Bool × DropFile)
retire file f now = do
  db ← get
  let refs = other_refs file f.node f.cid db.files
  modify (λ s. record s {
    files =
        adjust file (λ g. record g { status = FileStatus.delete_pending; deleted_at = some now })
          s.files;
  })
  modify (λ s. record s {
    pins =
        set_pin_status file (if refs == 0 then PinStatus.unpin_pending else PinStatus.unpinned)
          s.pins;
  })
  pure (refs == 0, f)

leave_active-IsAccounted :
    (file : ℕ) (f : DropFile) (now : ℕ) (s s' : Db) {a : Bool × DropFile}
    → IsAccounted s
    → lookup file s.files ≡ some f
    → is_live f.status ≡ true
    → leave_active file f now s ≡ ok (a, s')
    → IsAccounted s'
unfolding leave_active
leave_active-IsAccounted file f now s s' acc found live h =
    let g : DropFile → DropFile =
      λ x. record x { status = FileStatus.delete_pending; deleted_at = some now } in
    let give : Tx Db (Unit {0}) =
      if is_public f.scope then adjust_quota f.owner (neg f.size_bytes) (pos 0) else pure tt in
    let (_, s1, given, h1) = >>=-eq-ok give (λ _. retire file f now) s h in
    let (q, e1, used, reserved) = charge-GivesBack f s s1 given in
    record {
      reserved_exact = λ v. ground (arith, acc.reserved_exact v, reserved v);
      used_exact = λ v.
          ground
            (arith, acc.used_exact v, used v, sum-adjust (used_weight v) file g s.files f found);
      node_exact = λ v. ground (arith, acc.node_exact v);
    }

mark_by-IsAccounted :
    (st : FileStatus) (file : ℕ) (f : DropFile) (now : ℕ) (s s' : Db) {a : Bool × DropFile}
    → IsAccounted s
    → lookup file s.files ≡ some f
    → f.status ≡ st
    → mark_by st file f now s ≡ ok (a, s')
    → IsAccounted s'
unfolding mark_by
mark_by-IsAccounted FileStatus.active file f now s s' acc found e h =
    leave_active-IsAccounted file f now s s' acc found (rw e) h
mark_by-IsAccounted FileStatus.unavailable file f now s s' acc found e h =
    leave_active-IsAccounted file f now s s' acc found (rw e) h
mark_by-IsAccounted FileStatus.deleted file f now s s' acc found e h =
    let same : s ≡ s' = ground arith in subst IsAccounted same acc
mark_by-IsAccounted FileStatus.delete_pending file f now s s' acc found e h =
    let same : s ≡ s' = ground arith in subst IsAccounted same acc

-- What MarkDropFileDeletePending has found when it succeeds.
pub mark_found :
    (file now : ℕ) (s s' : Db) {a : Bool × DropFile}
    → mark_drop_file_delete_pending file now s ≡ ok (a, s')
    → (f : DropFile) × (lookup file s.files ≡ some f) × (mark_by f.status file f now s ≡ ok (a, s'))
unfolding mark_drop_file_delete_pending
mark_found file now s s' h = elim (Option-cases (lookup file s.files)) [
  | inl e ↦ absurd (ground arith)
  | inr (f, e) ↦ (f, e, ground arith)
]

-- A deletion keeps the books: a file gives its bytes back once, when it leaves the active state.
pub mark_drop_file_delete_pending-IsAccounted :
    (file now : ℕ) (s s' : Db) {a : Bool × DropFile}
    → IsAccounted s
    → mark_drop_file_delete_pending file now s ≡ ok (a, s')
    → IsAccounted s'
mark_drop_file_delete_pending-IsAccounted file now s s' acc h =
    let (f, found, h1) = mark_found file now s s' h in
    mark_by-IsAccounted f.status file f now s s' acc found refl h1

finalize_weight :
    (v : ℕ) (f : DropFile)
    → used_weight v (record f { status = finalize_status f.status }) ≡ used_weight v f
finalize_weight v f = ground arith

-- The end of a deletion does not touch the books.
pub finalize_drop_file_deletion-IsAccounted :
    (file : ℕ) (unpinned : Bool) (s s' : Db)
    → IsAccounted s
    → finalize_drop_file_deletion file unpinned s ≡ ok (tt, s')
    → IsAccounted s'
unfolding finalize_drop_file_deletion
finalize_drop_file_deletion-IsAccounted file true s s' acc h =
    let g : DropFile → DropFile = λ x. record x { status = finalize_status x.status } in
    record {
      reserved_exact = λ v. ground (arith, acc.reserved_exact v);
      used_exact = λ v. ground (
        arith,
        acc.used_exact v,
        sum-adjust_same (used_weight v) file g s.files (finalize_weight v),
      );
      node_exact = λ v. ground (arith, acc.node_exact v);
    }
finalize_drop_file_deletion-IsAccounted file false s s' acc h = record {
  reserved_exact = λ v. ground (arith, acc.reserved_exact v);
  used_exact = λ v. ground (arith, acc.used_exact v);
  node_exact = λ v. ground (arith, acc.node_exact v);
}
