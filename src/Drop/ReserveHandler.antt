-- ===== src/Drop/ReserveHandler.antt =====
-- The request for a reservation (handleDropReserveUpload of internal/api/drop.go): its guards, and
-- the status of its answer. Lengths are those of ASCII texts; an identifier of a node is a number, so
-- its length is not looked at.
use Prim.Native.String.{String}
use text.Mathlib.Text.{◌==◌ as str_eq}
use erebrus_gateway.Base.{
  ℕ, Bool, true, false, not, ◌&&◌, ◌||◌, Option, none, some, [], ◌∷◌, leb, ltb, length, ◌==◌,
  if◌then◌else◌,
}
use erebrus_gateway.Base.Int.{ℤ, pos, negsuc, pos_part, leb_ℤ}
use erebrus_gateway.Base.Table.{lookup}
use erebrus_gateway.Base.Text.{Text, codes, text_eq, normalize}
use erebrus_gateway.Base.Tx.{Error, Result, ok, err, transact}
use erebrus_gateway.Model.Drop.{Scope, Visibility, FileMeta, DropUpload, Node}
use erebrus_gateway.Model.Db.{Db}
use erebrus_gateway.Orgs.Seats.{active_membership}
use erebrus_gateway.Drop.Tier.{resolve_drop_entitlement}
use erebrus_gateway.Drop.Quota.{is_public}
use erebrus_gateway.Drop.Upload.{ReserveInput, reserve_drop_upload}
use erebrus_gateway.Drop.Access.{is_visible}
use erebrus_gateway.Drop.Transfers.{revalidate_drop_node}

-- normalizeDropScope
unfoldable pub normalize_drop_scope : Text → Option Scope
unfolding normalize
normalize_drop_scope t =
    let r = normalize t in
    if text_eq r [] || text_eq r (codes "public")
    then some Scope.public
    else if text_eq r (codes "private") || text_eq r (codes "private_org")
    then some Scope.private_org
    else none

abbrev is_hex : ℕ → Bool
is_hex c = (leb b'A' c && leb c b'F') || (leb b'a' c && leb c b'f') || (leb b'0' c && leb c b'9')

abbrev all_hex : Text → Bool
all_hex [] = true
all_hex (c ∷ cs) = is_hex c && all_hex cs

-- sha256Pattern
unfoldable pub valid_sha256 : String → Bool
valid_sha256 s = let t = codes s in length t == 64 && all_hex t

-- dropReserveReq; the text of the visibility is compared as it is, and no metadata is empty metadata.
pub record DropReserveReq : Type 0 where
  pub node : Option ℕ
  pub scope : Text
  pub visibility : Text
  pub file_meta : FileMeta
  pub size_bytes : ℤ
  pub legacy_size : ℤ
  pub org : Option ℕ
  pub idempotency_key : String

abbrev is_zero : ℤ → Bool
is_zero (pos n) = n == 0
is_zero (negsuc n) = false

abbrev pub requested_size : DropReserveReq → ℤ
requested_size r = if is_zero r.size_bytes then r.legacy_size else r.size_bytes

abbrev pub requested_visibility : DropReserveReq → Visibility
requested_visibility r =
    if text_eq r.visibility (codes "public") then Visibility.public else Visibility.private

-- An early return.
abbrev refuse_if : Bool → ℕ → Option ℕ → Option ℕ
refuse_if true code rest = some code
refuse_if false code rest = rest

abbrev has_text : String → Bool
has_text s = not (str_eq s "")

-- The guards on the request alone.
unfoldable pub malformed : DropReserveReq → Option ℕ
unfolding valid_sha256
malformed r = refuse_if (leb_ℤ (requested_size r) (pos 0)) 400 (
    refuse_if (not (has_text r.idempotency_key) || ltb 128 (length (codes r.idempotency_key))) 400 (
      refuse_if
        (ltb 255 (length (codes r.file_meta.filename))
          || ltb 255 (length (codes r.file_meta.content_type)))
        400
        (refuse_if (has_text r.file_meta.sha256 && not (valid_sha256 r.file_meta.sha256)) 400
          none)))

abbrev pub is_some : {A : Type 0} → Option A → Bool
is_some none = false
is_some (some a) = true

abbrev same_org : Option ℕ → ℕ → Bool
same_org none org = false
same_org (some o) org = o == org

-- The guards on the caller and the node, of each scope.
unfoldable pub not_permitted : ℕ → DropReserveReq → Node → Scope → Db → Option ℕ
unfolding active_membership
not_permitted user r n Scope.public s = refuse_if (not n.is_public) 403 none
not_permitted user r n Scope.private_org s = elim r.org [
  | none ↦ some 400
  | some org ↦
      refuse_if (not (is_some (active_membership org user s))) 403
        (refuse_if (not (same_org n.org org)) 403 none)
]

-- The guards on encryption: private content is encrypted, public content is not.
unfoldable pub wrongly_encrypted : DropReserveReq → Option ℕ
wrongly_encrypted r =
    let visible = is_visible (requested_visibility r) in
    let m = r.file_meta in
    refuse_if (not visible && (not m.encrypted || not (is_some m.encryption_metadata))) 400
      (refuse_if (visible && m.encrypted) 400 none)

-- The input of ReserveDropUpload that the handler makes.
abbrev pub reserve_input : ℕ → DropReserveReq → ℕ → Scope → Db → ReserveInput
reserve_input user r node scope s = record {
  user = user;
  org = if is_public scope then none else r.org;
  entitlement_org =
      if is_public scope then (resolve_drop_entitlement s user).entitlement_org else none;
  node = node;
  scope = scope;
  visibility = requested_visibility r;
  file_meta = r.file_meta;
  declared_size = pos_part (requested_size r);
  idempotency_key = r.idempotency_key;
  ttl = 0;
}

abbrev error_status : Error → ℕ
error_status Error.quota_exceeded = 409
error_status Error.node_capacity = 507
error_status Error.node_unavailable = 503
error_status _ = 500

abbrev pub answered : Result (ℕ × DropUpload) × Db → ℕ × Db
answered (ok a, t) = (201, t)
answered (err e, t) = (error_status e, t)

abbrev pub or_else : Option ℕ → Db → ℕ × Db → ℕ × Db
or_else none s rest = rest
or_else (some code) s rest = (code, s)

-- handleDropReserveUpload
unfoldable pub handle_drop_reserve_upload : (ℕ → String) → ℕ → DropReserveReq → ℕ → ℕ → Db → ℕ × Db
unfolding malformed normalize_drop_scope not_permitted wrongly_encrypted revalidate_drop_node
handle_drop_reserve_upload uuid_text user r now id s = elim r.node [
  | none ↦ (400, s)
  | some node ↦ or_else (malformed r) s (elim (normalize_drop_scope r.scope) [
    | none ↦ (400, s)
    | some scope ↦ elim (lookup node s.nodes) [
      | none ↦ (404, s)
      | some n ↦ or_else (not_permitted user r n scope s) s (
          or_else (wrongly_encrypted r) s (
            or_else (revalidate_drop_node node scope true s) s (
              answered (
                transact (reserve_drop_upload uuid_text (reserve_input user r node scope s) now id)
                  s))))
    ]
  ])
]
