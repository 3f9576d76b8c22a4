-- ===== src/Drop/Deletion.antt =====
-- The deletion of a file (internal/store/drop_files.go): its quota is given back when it leaves the
-- active state, and the node is told to unpin its content when no other file needs it.
use Prim.Native.String.{String}
use text.Mathlib.Text.{◌==◌ as str_eq}
use erebrus_gateway.Base.{
  ℕ, suc, Bool, true, false, not, ◌&&◌, some, List, [], ◌∷◌, ◌==◌, if◌then◌else◌,
}
use erebrus_gateway.Base.Int.{pos, neg}
use erebrus_gateway.Base.Table.{Table, lookup, adjust}
use erebrus_gateway.Base.Tx.{not_found, Tx, ◌>>=◌, ◌>>◌, pure, get, modify, from_option}
use erebrus_gateway.Model.Drop.{FileStatus, PinStatus, DropFile, DropPin}
use erebrus_gateway.Model.Db.{Db}
use erebrus_gateway.Drop.Quota.{adjust_quota, is_public}

-- neither deleted nor about to be: the file counts against the quota and needs its content
abbrev pub is_live : FileStatus → Bool
is_live FileStatus.active = true
is_live FileStatus.unavailable = true
is_live _ = false

abbrev pub refers : ℕ → String → DropFile → Bool
refers node cid f = f.node == node && str_eq f.cid cid && is_live f.status

-- How many files other than `file` still need a CID on a node.
unfoldable pub other_refs : ℕ → ℕ → String → Table DropFile → ℕ
other_refs file node cid [] = 0
other_refs file node cid ((i, f) ∷ t) =
    let rest = other_refs file node cid t in
    if refers node cid f && not (i == file) then suc rest else rest

-- UPDATE drop_pins SET status WHERE file_id
unfoldable pub set_pin_status : ℕ → PinStatus → List DropPin → List DropPin
set_pin_status file st [] = []
set_pin_status file st (p ∷ ps) =
    (if p.file == file then record p { status = st } else p) ∷ set_pin_status file st ps

-- The status of the pin of a file; with no pin it is `unpinned`.
unfoldable pub pin_status : ℕ → List DropPin → PinStatus
pin_status file [] = PinStatus.unpinned
pin_status file (p ∷ ps) = if p.file == file then p.status else pin_status file ps

-- The unpin has yet to be done, or has failed.
abbrev pub awaits_unpin : PinStatus → Bool
awaits_unpin PinStatus.unpin_pending = true
awaits_unpin PinStatus.error = true
awaits_unpin _ = false

-- The transition out of the active state.
unfoldable pub leave_active : ℕ → DropFile → ℕ → Tx Db (Bool × DropFile)
unfolding set_pin_status
leave_active file f now = do
  if is_public f.scope then adjust_quota f.owner (neg f.size_bytes) (pos 0) else pure tt
  db ← get
  let refs = other_refs file f.node f.cid db.files
  modify (λ s. record s {
    files =
        adjust file (λ g. record g { status = FileStatus.delete_pending; deleted_at = some now })
          s.files;
  })
  modify (λ s. record s {
    pins =
        set_pin_status file (if refs == 0 then PinStatus.unpin_pending else PinStatus.unpinned)
          s.pins;
  })
  pure (refs == 0, f)

unfoldable pub mark_by : FileStatus → ℕ → DropFile → ℕ → Tx Db (Bool × DropFile)
unfolding leave_active pin_status
mark_by FileStatus.deleted file f now = pure (false, f)
mark_by FileStatus.delete_pending file f now =
    get >>= λ db. pure (awaits_unpin (pin_status file db.pins), f)
mark_by FileStatus.active file f now = leave_active file f now
mark_by FileStatus.unavailable file f now = leave_active file f now

-- MarkDropFileDeletePending: whether a physical unpin is needed, and the file as it was.
unfoldable pub mark_drop_file_delete_pending : ℕ → ℕ → Tx Db (Bool × DropFile)
unfolding mark_by
mark_drop_file_delete_pending file now = do
  db ← get
  f ← from_option (lookup file db.files) not_found
  mark_by f.status file f now

abbrev pub finalize_status : FileStatus → FileStatus
finalize_status FileStatus.delete_pending = FileStatus.deleted
finalize_status st = st

-- FinalizeDropFileDeletion
unfoldable pub finalize_drop_file_deletion : ℕ → Bool → Tx Db (Unit {0})
unfolding set_pin_status
finalize_drop_file_deletion file true = modify λ s. record s {
  pins = set_pin_status file PinStatus.unpinned s.pins;
  files = adjust file (λ g. record g { status = finalize_status g.status }) s.files;
}
finalize_drop_file_deletion file false =
    modify (λ s. record s { pins = set_pin_status file PinStatus.error s.pins })
