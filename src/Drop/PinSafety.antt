-- ===== src/Drop/PinSafety.antt =====
-- When content may be unpinned from a node.
use Prim.Native.String.{String}
use text.Mathlib.TextPositions.{eq_refl}
use erebrus_gateway.Base.{
  ℕ, ◌≡◌, ◌≢◌, refl, Bool, true, false, some, List, [], ◌∷◌, arith, ◌==◌, if◌then◌else◌,
}
use erebrus_gateway.Base.Int.{ℤ, pos, neg}
use erebrus_gateway.Base.Table.{Table, lookup, adjust, lookup-insert, lookup-adjust_self}
use erebrus_gateway.Base.Tx.{ok, Tx, pure, >>=-eq-ok}
use erebrus_gateway.Model.Drop.{FileStatus, PinStatus, DropUpload, DropFile, DropPin}
use erebrus_gateway.Model.Db.{Db}
use erebrus_gateway.Drop.Quota.{adjust_quota, is_public}
use erebrus_gateway.Drop.Upload.{
  is_open, upsert_pin, charged_size, committed_file, finish_commit, commit_drop_upload,
}
use erebrus_gateway.Drop.Deletion.{
  is_live, refers, other_refs, set_pin_status, pin_status, leave_active, mark_by,
  mark_drop_file_delete_pending, finalize_drop_file_deletion,
}
use erebrus_gateway.Drop.Accounting.Files.{charge-GivesBack, retire}
use erebrus_gateway.Drop.Idempotence.{finish_commit-rows, commit_open}

-- With no other reference counted, no other row refers to the content.
other_refs_zero :
    (file node : ℕ) (cid : String) (t : Table DropFile) (j : ℕ) (g : DropFile)
    → other_refs file node cid t ≡ 0
    → lookup j t ≡ some g
    → (j == file) ≡ false
    → refers node cid g ≡ false
unfolding other_refs lookup
other_refs_zero file node cid [] j g z e ne = ground arith
other_refs_zero file node cid ((i, x) ∷ t) j g z e ne =
    ground (arith, other_refs_zero file node cid t j g)

-- A live file that is marked: the flag, the file that is returned, and the rows.
pub leave_active-rows :
    (file : ℕ) (f : DropFile) (now : ℕ) (s s' : Db) {a : Bool × DropFile}
    → leave_active file f now s ≡ ok (a, s')
    → (a ≡ (other_refs file f.node f.cid s.files == 0, f))
      × (s'.files
          ≡ adjust file
              (λ g. record g { status = FileStatus.delete_pending; deleted_at = some now })
              s.files)
      × (s'.pins
          ≡ set_pin_status file
              (if other_refs file f.node f.cid s.files == 0
                then PinStatus.unpin_pending
                else PinStatus.unpinned)
              s.pins)
unfolding leave_active
leave_active-rows file f now s s' h =
    let give : Tx Db (Unit {0}) =
      if is_public f.scope then adjust_quota f.owner (neg f.size_bytes) (pos 0) else pure tt in
    let (_, s1, given, h1) = >>=-eq-ok give (λ _. retire file f now) s h in
    let (q, e1, used, reserved) = charge-GivesBack f s s1 given in
    (ground arith, ground arith, ground arith)

pub mark_live :
    (st : FileStatus) (file : ℕ) (f : DropFile) (now : ℕ) (s : Db)
    → is_live st ≡ true
    → mark_by st file f now s ≡ leave_active file f now s
unfolding mark_by
mark_live FileStatus.active file f now s h = refl
mark_live FileStatus.unavailable file f now s h = refl
mark_live FileStatus.deleted file f now s h = cc
mark_live FileStatus.delete_pending file f now s h = cc

-- When a mark of a live file asks for a physical unpin, no other live file has the same content on
-- the same node.
pub mark_unpin_safe :
    (file now : ℕ) (f : DropFile) (s s' : Db) {a : DropFile}
    → lookup file s.files ≡ some f
    → is_live f.status ≡ true
    → mark_drop_file_delete_pending file now s ≡ ok ((true, a), s')
    → (j : ℕ) (g : DropFile) → (j == file) ≡ false
    → lookup j s.files ≡ some g
    → refers f.node f.cid g ≡ false
unfolding mark_drop_file_delete_pending
mark_unpin_safe file now f s s' {a} found live h j g ne e =
    let done : leave_active file f now s ≡ ok ((true, a), s') =
      ground (arith, mark_live f.status file f now s live) in
    let (ea, ef, ep) = leave_active-rows file f now s s' done in
    other_refs_zero file f.node f.cid s.files j g (ground arith) e ne

pin_status-set :
    (file : ℕ) (st : PinStatus) (ps : List DropPin)
    → pin_status file ps ≢ PinStatus.unpinned
    → pin_status file (set_pin_status file st ps) ≡ st
unfolding pin_status set_pin_status
pin_status-set file st [] h = absurd (h refl)
pin_status-set file st (p ∷ ps) h = ground (arith, pin_status-set file st ps)

pin_status-upsert :
    (file : ℕ) (p : DropPin) (ps : List DropPin)
    → (p.file == file) ≡ false
    → pin_status file (upsert_pin p ps) ≡ pin_status file ps
unfolding pin_status upsert_pin
pin_status-upsert file p [] h = ground arith
pin_status-upsert file p (q ∷ ps) h = ground (arith, pin_status-upsert file p ps h)

-- A deletion of a live, pinned file whose unpin is asked for and fails stays pending, and can be
-- asked for again: the next mark asks for the unpin once more and changes nothing.
pub mark_retries_unpin :
    (file now now' : ℕ) (f : DropFile) (s s' s'' : Db) {a : DropFile}
    → lookup file s.files ≡ some f
    → is_live f.status ≡ true
    → pin_status file s.pins ≡ PinStatus.pinned
    → mark_drop_file_delete_pending file now s ≡ ok ((true, a), s')
    → finalize_drop_file_deletion file false s' ≡ ok (tt, s'')
    → (g : DropFile) × (g.status ≡ FileStatus.delete_pending)
      × (mark_drop_file_delete_pending file now' s'' ≡ ok ((true, g), s''))
unfolding mark_drop_file_delete_pending finalize_drop_file_deletion mark_by
mark_retries_unpin file now now' f s s' s'' {a} found live pinned h fin =
    let done : leave_active file f now s ≡ ok ((true, a), s') =
      ground (arith, mark_live f.status file f now s live) in
    let (ea, ef, ep) = leave_active-rows file f now s s' done in
    let g : DropFile → DropFile =
      λ x. record x { status = FileStatus.delete_pending; deleted_at = some now } in
    let first = pin_status-set file PinStatus.unpin_pending s.pins (λ e. cc) in
    let second =
      pin_status-set file PinStatus.error (set_pin_status file PinStatus.unpin_pending s.pins)
        (λ e. cc) in
    (g f, refl, ground (arith, lookup-adjust_self file g s.files f))

-- A commit of an open upload of the caller does not look at the unpins that are pending on its
-- node: afterwards the new file needs its content there, and the pin of any other file has the
-- status it had, also for the same content.
pub commit_keeps_pending_unpin :
    (user upload : ℕ) (cid : String) (size : ℤ) (now file other : ℕ) (u : DropUpload) (s s' : Db)
    {a : ℕ × DropFile}
    → lookup upload s.uploads ≡ some u
    → u.owner ≡ user
    → is_open u.status ≡ true
    → (file == other) ≡ false
    → commit_drop_upload user upload cid size now file s ≡ ok (a, s')
    → (lookup file s'.files ≡ some a.1)
      × (refers u.node cid a.1 ≡ true)
      × (pin_status other s'.pins ≡ pin_status other s.pins)
unfolding commit_drop_upload
commit_keeps_pending_unpin user upload cid size now file other u s s' {a} found own live ne h =
    let row = committed_file upload u cid (charged_size size u) now in
    let done : finish_commit upload u cid (charged_size size u) now file s ≡ ok (a, s') =
      ground (arith, commit_open u.status upload u cid size now file s live) in
    let (ea, ef, eu, ep) =
      finish_commit-rows upload u cid (charged_size size u) now file s s' done in
    let p : DropPin = record { file = file; node = u.node; cid = cid; status = PinStatus.pinned } in
    (
      ground (arith, lookup-insert file file row s.files),
      ground (arith, eq_refl cid),
      ground (arith, pin_status-upsert other p s.pins ne),
    )
