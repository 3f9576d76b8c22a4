-- ===== src/Drop/Serving.antt =====
-- What the handlers show and leave behind.
use erebrus_gateway.Base.{
  ℕ, ◌<◌, ◌≡◌, refl, Bool, true, false, not, ◌&&◌, ◌||◌, none, some, arith, ◌==◌, Bool-cases,
  Option-cases, ◌⊎◌, inl, inr,
}
use erebrus_gateway.Base.Table.{lookup, lookup-adjust_self}
use erebrus_gateway.Base.Tx.{not_found, ok, err, Result-cases}
use erebrus_gateway.Model.Drop.{FileStatus, DropFile}
use erebrus_gateway.Model.Db.{Db}
use erebrus_gateway.Drop.Deletion.{
  is_live, leave_active, mark_by, mark_drop_file_delete_pending, finalize_status,
  finalize_drop_file_deletion,
}
use erebrus_gateway.Drop.Access.{
  FileView, load_authorized_file, drop_file_view, handle_drop_get_file, manages_org, is_available,
  valid_cid, load_public_drop_file, can_delete_drop_file,
}
use erebrus_gateway.Drop.Transfers.{handle_drop_delete_file, finish_delete}
use erebrus_gateway.Drop.PinSafety.{leave_active-rows, mark_live}

-- When handleDropGetFile, the handler of signed-in users, shows a file to a caller who is not its owner,
-- then without its CID and the metadata of its encryption, and only to an administrator or to a manager
-- of the file's organization.
pub handle_drop_get_file_lem :
    (user : ℕ) (admin : Bool) (file code : ℕ) (f : DropFile) (v : FileView) (s : Db)
    → lookup file s.files ≡ some f
    → (f.owner == user) ≡ false
    → handle_drop_get_file user admin file s ≡ (code, some v)
    → (v.cid ≡ none)
      × (v.encryption_metadata ≡ none)
      × (v.can_decrypt ≡ false)
      × ((admin ≡ true) ⊎ (manages_org user f.org s ≡ true))
unfolding handle_drop_get_file load_authorized_file drop_file_view
handle_drop_get_file_lem user admin file code f v s found other h = elim (Bool-cases admin) [
  | inl permits ↦ (ground arith, ground arith, ground arith, inl permits)
  | inr denies ↦ elim (Bool-cases (manages_org user f.org s)) [
    | inl permits ↦ (ground arith, ground arith, ground arith, inr permits)
    | inr refuses ↦ absurd (ground arith)
  ]
]

-- A mark that succeeds leaves the file out of the active state.
mark_not_active :
    (file now : ℕ) (f : DropFile) (s s' : Db) {a : Bool × DropFile}
    → lookup file s.files ≡ some f
    → mark_drop_file_delete_pending file now s ≡ ok (a, s')
    → (g : DropFile) × (lookup file s'.files ≡ some g) × (is_available g.status ≡ false)
unfolding mark_drop_file_delete_pending mark_by
mark_not_active file now f s s' {a} found h = elim (Bool-cases (is_live f.status)) [
  | inl live ↦
      let done : leave_active file f now s ≡ ok (a, s') =
        ground (arith, mark_live f.status file f now s live) in
      let (ea, ef, ep) = leave_active-rows file f now s s' done in
      let u : DropFile → DropFile =
        λ g. record g { status = FileStatus.delete_pending; deleted_at = some now } in
      (u f, ground (arith, lookup-adjust_self file u s.files f found), refl)
  | inr gone ↦ (f, ground arith, ground arith)
]

finalize_not_active :
    (file : ℕ) (unpinned : Bool) (g : DropFile) (s s' : Db)
    → lookup file s.files ≡ some g
    → is_available g.status ≡ false
    → finalize_drop_file_deletion file unpinned s ≡ ok (tt, s')
    → load_public_drop_file file s' ≡ err not_found
unfolding finalize_drop_file_deletion load_public_drop_file
finalize_not_active file true g s s' found gone h = ground (
  arith,
  lookup-adjust_self file (λ x. record x { status = finalize_status x.status }) s.files g found,
)
finalize_not_active file false g s s' found gone h = ground arith

-- After a deletion that is answered with a status below 300, be the content unpinned already or
-- still pending, the file is no longer served to the public.
pub handle_drop_delete_file-not_public :
    (user : ℕ) (admin : Bool) (file : ℕ) (unpins : Bool) (now code : ℕ) (s s' : Db)
    → handle_drop_delete_file user admin file unpins now s ≡ (code, s')
    → code < 300
    → load_public_drop_file file s' ≡ err not_found
unfolding handle_drop_delete_file finish_delete finalize_drop_file_deletion
handle_drop_delete_file-not_public user admin file unpins now code s s' h low =
    elim (Option-cases (lookup file s.files)) [
      | inl missing ↦ absurd (ground arith)
      | inr (f, found) ↦ elim (Bool-cases (can_delete_drop_file user admin f s)) [
        | inr refused ↦ absurd (ground arith)
        | inl may ↦ elim (Result-cases (mark_drop_file_delete_pending file now s)) [
          | inr (e, failed) ↦ absurd (ground arith)
          | inl ((a, s1), marked) ↦
              let (g, eg, gone) = mark_not_active file now f s s1 found marked in
              let unpinned = not (a.0 && valid_cid f.cid) || unpins in
              elim (Result-cases (finalize_drop_file_deletion file unpinned s1)) [
                | inr (e, failed) ↦ absurd (ground arith)
                | inl ((x, s2), finalized) ↦
                    let public = finalize_not_active file unpinned g s1 s2 eg gone finalized in
                    ground arith
              ]
        ]
      ]
    ]
