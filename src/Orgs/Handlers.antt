-- ===== src/Orgs/Handlers.antt =====
-- The handlers of an organization's owner (internal/api/orgs.go): each gives the status code of its
-- answer and the new database. The member's key in a path is an identifier of a membership or of a
-- user. Bodies that do not parse are left out. The upsert of a user is that of internal/store/users.go.
use Prim.Native.String.{String}
use text.Mathlib.Text.{◌==◌ as str_eq}
use erebrus_gateway.Base.{
  ℕ, Bool, true, false, not, ◌&&◌, ◌||◌, Option, none, some, [], if◌then◌else◌,
}
use erebrus_gateway.Base.Table.{Table, insert, adjust, find_row}
use erebrus_gateway.Base.Text.{Text, codes, text_eq, to_lower}
use erebrus_gateway.Base.Tx.{Error, Result, ok, err, not_found, no_manager_seat, transact}
use erebrus_gateway.Model.Org.{Role}
use erebrus_gateway.Model.Db.{Db}
use erebrus_gateway.Orgs.Invites.{revoke_org_invite}
use erebrus_gateway.Orgs.Lifecycle.{update_org, delete_org}
use erebrus_gateway.Orgs.Members.{
  is_blank, add_member, patch_member, remove_member_by_id, remove_member,
}
use erebrus_gateway.Orgs.Plans.{is_owner}
use erebrus_gateway.Orgs.Seats.{
  normalize_org_role, active_membership, is_org_privileged, assign_seat, revoke_seat,
  transfer_org_ownership,
}

-- orgPrivileged, and orgOwner, which asks for the same role
unfoldable pub privileged : ℕ → ℕ → Db → Bool
unfolding active_membership is_org_privileged
privileged org caller s = elim (active_membership org caller s) [
  | none ↦ false
  | some m ↦ is_org_privileged m.role
]

-- The code of an answer: of success, of ErrNotFound, of a seat that a manager lacks, and of any
-- other error.
abbrev pub code : {A : Type 0} → ℕ → ℕ → ℕ → ℕ → Result A × Db → ℕ × Db
code done missing seat failed (ok a, s) = (done, s)
code done missing seat failed (err not_found, s) = (missing, s)
code done missing seat failed (err no_manager_seat, s) = (seat, s)
code done missing seat failed (err e, s) = (failed, s)

-- normalizeMemberRole says the same as normalizeOrgRole; this is the text of its role.
abbrev pub role_text : Role → Text
role_text Role.owner = codes "owner"
role_text Role.node_operator = codes "node_operator"
role_text Role.member = codes "member"

-- The second half of handlePatchMember, where the key is a user.
unfoldable pub patch_by_user : ℕ → ℕ → Text → String → ℕ → Db → ℕ × Db
unfolding active_membership normalize_org_role add_member
patch_by_user org key role tier id s =
    if not (str_eq tier "") then (400, s) else elim (active_membership org key s) [
      | none ↦ (404, s)
      | some m ↦
          if is_owner m.role
          then (403, s)
          else code 200 500 400 500
              (transact (add_member org key (role_text (normalize_org_role role)) id) s)
    ]

abbrev pub is_no_seat : Error → Bool
is_no_seat no_manager_seat = true
is_no_seat _ = false

-- handlePatchMember, past the check of the caller.
unfoldable pub handle_patch_member : ℕ → ℕ → Text → String → ℕ → Db → ℕ × Db
unfolding patch_member patch_by_user
handle_patch_member org key role tier id s =
    if is_blank role && str_eq tier ""
    then (400, s)
    else if text_eq role (codes "owner")
    then (400, s)
    else elim (patch_member org key role tier s) [
      | ok (m, s') ↦ (200, s')
      | err e ↦ if is_no_seat e then (400, s) else patch_by_user org key role tier id s
    ]

-- handleRemoveMember, past the check of the caller.
unfoldable pub handle_remove_member : ℕ → ℕ → Db → ℕ × Db
unfolding remove_member_by_id remove_member
handle_remove_member org key s = elim (remove_member_by_id org key s) [
  | ok (u, s') ↦ (204, s')
  | err e ↦ code 204 404 500 500 (transact (remove_member org key) s)
]

-- What the gateway keeps of a user's account: the wallet, which is unique, and whether the role is that
-- of an administrator.
pub record Account : Type 0 where
  pub wallet_address : Text
  pub is_admin : Bool

-- The database with its users.
pub record OrgDb : Type 0 where
  pub db : Db
  pub accounts : Table Account

abbrev pub has_wallet : Text → Account → Bool
has_wallet wallet a = text_eq a.wallet_address wallet

-- The role that UpsertUserByWallet gives to a wallet.
abbrev pub role_of_wallet : Text → Text → Bool
unfolding to_lower
role_of_wallet wallet admin_wallet =
    not (is_blank admin_wallet) && text_eq (to_lower wallet) (to_lower admin_wallet)

-- UpsertUserByWallet, where a new user would have the identifier `user`
unfoldable pub upsert_user_by_wallet : Text → Text → ℕ → Table Account → ℕ × Table Account
unfolding to_lower
upsert_user_by_wallet wallet admin_wallet user t = elim (find_row (has_wallet wallet) t) [
  | none ↦ (
    user,
    insert user (record { wallet_address = wallet; is_admin = role_of_wallet wallet admin_wallet })
        t,
  )
  | some e ↦ (e.0, adjust e.0 (λ a. record a { is_admin = role_of_wallet wallet admin_wallet }) t)
]

-- The part of handleAddMember after its guards: the user is committed before the member is added.
unfoldable pub add_by_wallet : ℕ → Text → Text → ℕ → ℕ → OrgDb → ℕ × OrgDb
unfolding normalize_org_role add_member upsert_user_by_wallet
add_by_wallet org wallet role user id s =
    let (u, t) = upsert_user_by_wallet wallet [] user s.accounts in
    let (n, d) =
      code 201 500 400 500
        (transact (add_member org u (role_text (normalize_org_role role)) id) s.db) in
    (n, record { db = d; accounts = t })

-- handleAddMember, past the check of the caller.
unfoldable pub handle_add_member : ℕ → Text → Text → ℕ → ℕ → OrgDb → ℕ × OrgDb
unfolding normalize_org_role add_by_wallet
handle_add_member org wallet role user id s =
    if is_blank wallet || is_owner (normalize_org_role role)
    then (400, s)
    else add_by_wallet org wallet role user id s

-- handlePatchOrg, past the check of the caller.
unfoldable pub handle_patch_org :
    ℕ → Option Text → Option Text → Option Bool → (ℕ → Text) → Db → ℕ × Db
unfolding update_org
handle_patch_org org name slug public suffix s =
    code 200 500 500 500 (transact (update_org org name slug public suffix) s)

-- handleDeleteOrg, past the check of the caller.
unfoldable pub handle_delete_org : ℕ → Db → ℕ × Db
unfolding delete_org
handle_delete_org org s = code 204 404 500 500 (transact (delete_org org) s)

-- handleRevokeOrgInvite, past the check of the caller.
unfoldable pub handle_revoke_org_invite : ℕ → ℕ → Db → ℕ × Db
unfolding revoke_org_invite
handle_revoke_org_invite org invite s =
    code 204 404 500 500 (transact (revoke_org_invite org invite) s)

-- handleTransferOwnership, past the check of the caller.
unfoldable pub handle_transfer_ownership : ℕ → ℕ → ℕ → Db → ℕ × Db
unfolding transfer_org_ownership
handle_transfer_ownership org caller user s =
    code 200 400 500 500 (transact (transfer_org_ownership org caller user) s)

-- handleAssignSeat, past the check of the caller.
unfoldable pub handle_assign_seat : ℕ → ℕ → String → Db → ℕ × Db
unfolding assign_seat
handle_assign_seat org user tier s = code 200 404 400 400 (transact (assign_seat org user tier) s)

-- handleRevokeSeat, past the check of the caller.
unfoldable pub handle_revoke_seat : ℕ → ℕ → Db → ℕ × Db
unfolding revoke_seat
handle_revoke_seat org user s = code 200 404 400 400 (transact (revoke_seat org user) s)

-- The requests of an owner that are modelled: not handleInviteMember, and not those for the profile and
-- the nodes of the organization.
pub data OrgRequest : Type 0 where
  patch_org : Option Text → Option Text → Option Bool → OrgRequest
  delete : OrgRequest
  revoke_invite : ℕ → OrgRequest
  add : Text → Text → OrgRequest
  patch : ℕ → Text → String → OrgRequest
  remove : ℕ → OrgRequest
  transfer : ℕ → OrgRequest
  assign : ℕ → String → OrgRequest
  revoke : ℕ → OrgRequest

abbrev pub on_db : (Db → ℕ × Db) → OrgDb → ℕ × OrgDb
on_db h s = let (n, d) = h s.db in (n, record s { db = d })

-- The handler of a request, past the check of the caller; `suffix` gives the random parts of slugs,
-- `user` is the identifier of a new user and `id` that of a new membership.
unfoldable pub answer : ℕ → ℕ → (ℕ → Text) → ℕ → ℕ → OrgRequest → OrgDb → ℕ × OrgDb
unfolding handle_patch_org handle_delete_org handle_revoke_org_invite handle_add_member
    handle_patch_member handle_remove_member handle_transfer_ownership handle_assign_seat
    handle_revoke_seat
answer org caller suffix user id (OrgRequest.patch_org name slug public) =
    on_db (handle_patch_org org name slug public suffix)
answer org caller suffix user id OrgRequest.delete = on_db (handle_delete_org org)
answer org caller suffix user id (OrgRequest.revoke_invite invite) =
    on_db (handle_revoke_org_invite org invite)
answer org caller suffix user id (OrgRequest.add wallet role) =
    handle_add_member org wallet role user id
answer org caller suffix user id (OrgRequest.patch key role tier) =
    on_db (handle_patch_member org key role tier id)
answer org caller suffix user id (OrgRequest.remove key) = on_db (handle_remove_member org key)
answer org caller suffix user id (OrgRequest.transfer to) =
    on_db (handle_transfer_ownership org caller to)
answer org caller suffix user id (OrgRequest.assign to tier) =
    on_db (handle_assign_seat org to tier)
answer org caller suffix user id (OrgRequest.revoke from) = on_db (handle_revoke_seat org from)

-- The handlers, with their check of the caller.
unfoldable pub handle : ℕ → ℕ → (ℕ → Text) → ℕ → ℕ → OrgRequest → OrgDb → ℕ × OrgDb
unfolding privileged answer
handle org caller suffix user id r s =
    if privileged org caller s.db then answer org caller suffix user id r s else (403, s)
