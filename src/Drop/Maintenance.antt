-- ===== src/Drop/Maintenance.antt =====
-- The upkeep of uploads (internal/store/drop_files.go): a failure after the node has pinned the
-- content, and the sweep of reservations whose time is over.
use Prim.Native.String.{String}
use text.Mathlib.Text.{◌==◌ as str_eq}
use erebrus_gateway.Base.{
  ℕ, zero, suc, Bool, true, false, ◌&&◌, Option, none, some, List, [], ◌∷◌, ltb, leb, take,
  if◌then◌else◌,
}
use erebrus_gateway.Base.Table.{Table, adjust}
use erebrus_gateway.Base.Tx.{Error, Result, ok, err, transact}
use erebrus_gateway.Model.Drop.{UploadStatus, DropUpload}
use erebrus_gateway.Model.Db.{Db}
use erebrus_gateway.Drop.Upload.{is_open, release_drop_reservation}

abbrev is_failed : UploadStatus → Bool
is_failed UploadStatus.failed = true
is_failed _ = false

-- NULLIF(cid, '')
abbrev pub null_if_empty : String → Option String
null_if_empty cid = if str_eq cid "" then none else some cid

-- The content that was pinned is noted on a failed upload, for the node to unpin it later.
abbrev pub note_orphan : String → String → DropUpload → DropUpload
note_orphan cid message u =
    if is_failed u.status then record u { cid = null_if_empty cid; error_text = message } else u

unfoldable pub record_orphan : ℕ → String → String → Db → Db
record_orphan upload cid message s = record s {
  uploads = adjust upload (note_orphan cid message) s.uploads;
}

-- FailDropUploadWithOrphanPin: two statements, each on its own; the second is left out when the
-- first fails, but for an upload that is not found.
abbrev pub after_release : ℕ → String → String → Result (Unit {0}) × Db → Result (Unit {0}) × Db
unfolding record_orphan
after_release upload cid message (ok _, t) = (ok tt, record_orphan upload cid message t)
after_release upload cid message (err Error.not_found, t) =
    (ok tt, record_orphan upload cid message t)
after_release upload cid message (err e, t) = (err e, t)

unfoldable pub fail_drop_upload_with_orphan_pin : ℕ → String → String → Db → Result (Unit {0}) × Db
unfolding record_orphan
fail_drop_upload_with_orphan_pin upload cid message s =
    after_release upload cid message
      (transact (release_drop_reservation upload (some UploadStatus.failed)) s)

-- The reservations that are due, with their expiry.
unfoldable pub insert_by_expiry : ℕ × ℕ → List (ℕ × ℕ) → List (ℕ × ℕ)
insert_by_expiry e [] = e ∷ []
insert_by_expiry e (x ∷ xs) = if leb e.0 x.0 then e ∷ x ∷ xs else x ∷ insert_by_expiry e xs

unfoldable pub due : ℕ → Table DropUpload → List (ℕ × ℕ)
unfolding insert_by_expiry
due now [] = []
due now ((i, u) ∷ t) =
    let rest = due now t in
    if is_open u.status && ltb u.expires_at now
    then insert_by_expiry (u.expires_at, i) rest
    else rest

-- The loop of ExpireDropReservations: each release is a transaction of its own, and a failure
-- does not stop the sweep.
unfoldable pub release_all : List (ℕ × ℕ) → ℕ × Db → ℕ × Db
release_all [] (n, s) = (n, s)
release_all ((_, i) ∷ is) (n, s) =
    let (r, t) = transact (release_drop_reservation i (some UploadStatus.expired)) s in
    release_all is (elim r [ ok _ ↦ suc n | err _ ↦ n ], t)

abbrev pub sweep_limit : ℕ → ℕ
sweep_limit zero = 100
sweep_limit (suc n) = suc n

-- ExpireDropReservations: how many were released, and the database.
unfoldable pub expire_drop_reservations : ℕ → ℕ → Db → ℕ × Db
unfolding due release_all
expire_drop_reservations limit now s =
    release_all (take (sweep_limit limit) (due now s.uploads)) (0, s)
