-- ===== src/Drop/Access.antt =====
-- Who may read and delete a file, and what of it is shown (internal/api/drop.go).
-- A handler gives an HTTP status, with what it shows; `admin` says that the caller's token has the
-- role of an administrator.
use Prim.Native.String.{String}
use erebrus_gateway.Base.{
  ℕ, Bool, true, false, not, ◌&&◌, ◌||◌, Option, none, some, [], ◌∷◌, leb, length, ◌==◌,
  if◌then◌else◌,
}
use erebrus_gateway.Base.Table.{lookup, adjust}
use erebrus_gateway.Base.Text.{Text, codes}
use erebrus_gateway.Base.Tx.{
  not_found, Result, ok, err, Tx, ◌>>=◌, ◌>>◌, pure, get, modify, guard, from_option,
}
use erebrus_gateway.Model.Drop.{Visibility, FileStatus, DropFile}
use erebrus_gateway.Model.Db.{Db}
use erebrus_gateway.Orgs.Seats.{active_membership, can_manage_org_nodes}

abbrev pub is_visible : Visibility → Bool
is_visible Visibility.public = true
is_visible Visibility.private = false

abbrev pub is_available : FileStatus → Bool
is_available FileStatus.active = true
is_available _ = false

abbrev is_alnum : ℕ → Bool
is_alnum c = (leb b'A' c && leb c b'Z') || (leb b'a' c && leb c b'z') || (leb b'0' c && leb c b'9')

abbrev all_alnum : Text → Bool
all_alnum [] = true
all_alnum (c ∷ cs) = is_alnum c && all_alnum cs

-- validCID: from 20 to 120 letters and digits.
unfoldable pub valid_cid : String → Bool
valid_cid cid = let t = codes cid in leb 20 (length t) && leb (length t) 120 && all_alnum t

-- The caller owns the organization of a file, or operates its nodes.
abbrev pub manages_org : ℕ → Option ℕ → Db → Bool
unfolding active_membership can_manage_org_nodes
manages_org user none db = false
manages_org user (some org) db = elim (active_membership org user db) [
  | none ↦ false
  | some m ↦ can_manage_org_nodes m.role
]

-- loadAuthorizedFile: the file with the owner flag, or the status of the refusal.
pub data Loaded : Type 0 where
  loaded : DropFile → Bool → Loaded
  refuses : ℕ → Loaded

unfoldable pub load_authorized_file : ℕ → Bool → ℕ → Db → Loaded
unfolding manages_org
load_authorized_file user admin file db = elim (lookup file db.files) [
  | none ↦ Loaded.refuses 404
  | some f ↦
      if f.owner == user
      then Loaded.loaded f true
      else if admin
      then Loaded.loaded f false
      else if manages_org user f.org db
      then Loaded.loaded f false
      else Loaded.refuses 403
]

-- canDeleteDropFile
unfoldable pub can_delete_drop_file : ℕ → Bool → DropFile → Db → Bool
unfolding manages_org
can_delete_drop_file user admin f db = f.owner == user || admin || manages_org user f.org db

-- The part of dropFileView that depends on the caller: the CID, and the metadata of the encryption.
pub record FileView : Type 0 where
  pub can_decrypt : Bool
  pub cid : Option String
  pub encryption_metadata : Option String

unfoldable pub drop_file_view : DropFile → Bool → FileView
drop_file_view f owner = record {
  can_decrypt = owner;
  cid = if owner then some f.cid else none;
  encryption_metadata = if owner then f.file_meta.encryption_metadata else none;
}

-- handleDropGetFile
unfoldable pub handle_drop_get_file : ℕ → Bool → ℕ → Db → ℕ × Option FileView
unfolding load_authorized_file drop_file_view
handle_drop_get_file user admin file db = elim (load_authorized_file user admin file db) [
  | loaded f owner ↦ (200, some (drop_file_view f owner))
  | refuses code ↦ (code, none)
]

-- loadPublicDropFile: only a public, active file in plain text; anything else is not found.
unfoldable pub load_public_drop_file : ℕ → Db → Result DropFile
load_public_drop_file file db = elim (lookup file db.files) [
  | none ↦ err not_found
  | some f ↦
      if not (is_visible f.visibility) || f.file_meta.encrypted || not (is_available f.status)
      then err not_found
      else ok f
]

-- SetDropFileVisibility
unfoldable pub set_drop_file_visibility : ℕ → ℕ → Visibility → Tx Db DropFile
set_drop_file_visibility file user visibility = do
  db ← get
  f ← from_option (lookup file db.files) not_found
  guard (f.owner == user && is_available f.status) not_found
  modify (λ s. record s { files = adjust file (λ g. record g { visibility = visibility }) s.files })
  pure (record f { visibility = visibility })

abbrev shown : Db → Result (DropFile × Db) → (ℕ × Db)
shown s (ok (f, s')) = (200, s')
shown s (err e) = (404, s)

-- handleDropPatchFile, for a known visibility; a store error other than not found does not arise.
unfoldable pub handle_drop_patch_file : ℕ → ℕ → Visibility → Db → ℕ × Db
unfolding set_drop_file_visibility
handle_drop_patch_file file user visibility s = elim (lookup file s.files) [
  | none ↦ (404, s)
  | some f ↦
      if not (f.owner == user)
      then (404, s)
      else if is_visible visibility && f.file_meta.encrypted
      then (400, s)
      else shown s (set_drop_file_visibility file user visibility s)
]
