-- ===== src/Orgs/Authority.antt =====
-- Who may change an organization by its handlers, and when they change it.
use Prim.Native.String.{String}
use erebrus_gateway.Base.{
  ℕ, [], ◌||◌, ◌≤◌, ◌<◌, ◌≡◌, true, false, some, if◌then◌else◌, arith, Bool-cases, Option-cases,
  inl, inr, ◌⊎◌, refl,
}
use erebrus_gateway.Base.Table.{lookup, find_row, lookup-adjust_self}
use erebrus_gateway.Base.Text.{Text, codes, text_eq}
use erebrus_gateway.Base.Tx.{
  Result, Result-cases, ok, err, not_found, conflict, quota_exceeded, node_capacity,
  node_unavailable, db_error, refused, no_manager_seat, Tx, transact, settle,
}
use erebrus_gateway.Model.Org.{Role, Tier, Member}
use erebrus_gateway.Model.Db.{Db}
use erebrus_gateway.Orgs.Handlers.{
  privileged, code, role_text, patch_by_user, handle_patch_member, handle_remove_member,
  handle_patch_org, handle_delete_org, handle_revoke_org_invite, handle_transfer_ownership,
  handle_assign_seat, handle_revoke_seat, handle_add_member, add_by_wallet, upsert_user_by_wallet,
  Account, OrgDb, has_wallet, on_db, OrgRequest, answer, handle,
}
use erebrus_gateway.Orgs.Invites.{revoke_org_invite}
use erebrus_gateway.Orgs.Lifecycle.{update_org, delete_org}
use erebrus_gateway.Orgs.Members.{
  is_blank, add_member, get_member_by_id, patch_member, remove_member_by_id, remove_member,
}
use erebrus_gateway.Orgs.Plans.{is_owner}
use erebrus_gateway.Orgs.Seats.{
  normalize_org_role, active_membership, was_operator, assign_seat, revoke_seat,
  resolve_seat_for_role, transfer_org_ownership,
}

-- An answer is a success, or an error that changes nothing.
abbrev pub SucceedsOrKeeps : Db → ℕ × Db → Type 0
SucceedsOrKeeps s (n, s') = (n < 400) ⊎ ((400 ≤ n) × (s' ≡ s))

code-keeps :
    {A : Type 0} (done missing seat failed : ℕ) (m : Tx Db A) (s : Db)
    → done < 400
    → 400 ≤ missing
    → 400 ≤ seat
    → 400 ≤ failed
    → SucceedsOrKeeps s (code done missing seat failed (transact m s))
code-keeps {A} done missing seat failed m s d a b c = go (m s)
  where
    go : (r : Result (A × Db)) → SucceedsOrKeeps s (code done missing seat failed (settle s r))
    go (ok (x, t)) = inl d
    go (err not_found) = inr (a, refl)
    go (err conflict) = inr (c, refl)
    go (err quota_exceeded) = inr (c, refl)
    go (err node_capacity) = inr (c, refl)
    go (err node_unavailable) = inr (c, refl)
    go (err db_error) = inr (c, refl)
    go (err refused) = inr (c, refl)
    go (err no_manager_seat) = inr (b, refl)

patch-keeps :
    (org key id : ℕ) (role : Text) (tier : String) (s : Db)
    → SucceedsOrKeeps s (handle_patch_member org key role tier id s)
unfolding handle_patch_member patch_by_user
patch-keeps org key id role tier s =
    let adds = add_member org key (role_text (normalize_org_role role)) id in
    let by_user =
      code-keeps 200 500 400 500 adds s (ground arith) (ground arith) (ground arith)
        (ground arith) in
    elim (Result-cases (patch_member org key role tier s)) [
      | inl (m, done) ↦ ground arith
      | inr (e, failed) ↦ elim (Option-cases (active_membership org key s)) [
        | inl gone ↦ ground arith
        | inr (m, here) ↦ ground arith
      ]
    ]

remove-keeps : (org key : ℕ) (s : Db) → SucceedsOrKeeps s (handle_remove_member org key s)
unfolding handle_remove_member
remove-keeps org key s = elim (Result-cases (remove_member_by_id org key s)) [
  | inl (u, done) ↦ rw (handle_remove_member, done) (inl (ground arith))
  | inr (e, failed) ↦
      rw (handle_remove_member, failed)
        (code-keeps 204 404 500 500 (remove_member org key) s (ground arith) (ground arith)
          (ground arith) (ground arith))
]

-- A success, or an error that changes nothing but the account that adding a member makes sure of.
abbrev pub SucceedsOrUpserts : ℕ → OrgRequest → OrgDb → ℕ × OrgDb → Type 0
SucceedsOrUpserts user r s (n, s') =
    (n < 400)
    ⊎ ((400 ≤ n)
        × (s'.db ≡ s.db)
        × ((s'.accounts ≡ s.accounts)
            ⊎ ((wallet : Text) × (role : Text) × (r ≡ OrgRequest.add wallet role)
                × (s'.accounts ≡ (upsert_user_by_wallet wallet [] user s.accounts).1))))

on_db-keeps :
    (user : ℕ) (r : OrgRequest) (h : Db → ℕ × Db) (s : OrgDb)
    → SucceedsOrKeeps s.db (h s.db)
    → SucceedsOrUpserts user r s (on_db h s)
on_db-keeps user r h s (inl done) = inl done
on_db-keeps user r h s (inr (failed, same)) = inr (failed, same, inl refl)

add-keeps :
    (org user id : ℕ) (wallet role : Text) (s : OrgDb)
    → SucceedsOrUpserts user
        (OrgRequest.add wallet role)
        s
        (handle_add_member org wallet role user id s)
unfolding handle_add_member add_by_wallet
add-keeps org user id wallet role s =
    let u = (upsert_user_by_wallet wallet [] user s.accounts).0 in
    elim (Bool-cases (is_blank wallet || is_owner (normalize_org_role role))) [
      | inl wrong ↦ rw (handle_add_member, wrong) (inr (ground arith, refl, inl refl))
      | inr right ↦
          elim (code-keeps 201 500 400 500
            (add_member org u (role_text (normalize_org_role role)) id) s.db (ground arith)
            (ground arith) (ground arith) (ground arith)) [
              | inl done ↦ rw (handle_add_member, right) (inl done)
              | inr (failed, same) ↦
                  rw (handle_add_member, right) (inr (failed, same, inr (wallet, role, refl, refl)))
            ]
    ]

answer-keeps :
    (org caller user id : ℕ) (suffix : ℕ → Text) (r : OrgRequest) (s : OrgDb)
    → SucceedsOrUpserts user r s (answer org caller suffix user id r s)
unfolding answer handle_patch_org handle_delete_org handle_revoke_org_invite
    handle_transfer_ownership handle_assign_seat handle_revoke_seat
answer-keeps org caller user id suffix (OrgRequest.patch_org name slug public) s =
    on_db-keeps user (OrgRequest.patch_org name slug public)
      (handle_patch_org org name slug public suffix) s
      (code-keeps 200 500 500 500 (update_org org name slug public suffix) s.db (ground arith)
        (ground arith) (ground arith) (ground arith))
answer-keeps org caller user id suffix OrgRequest.delete s =
    on_db-keeps user OrgRequest.delete (handle_delete_org org) s (
      code-keeps 204 404 500 500 (delete_org org) s.db (ground arith) (ground arith) (ground arith)
        (ground arith))
answer-keeps org caller user id suffix (OrgRequest.revoke_invite invite) s =
    on_db-keeps user (OrgRequest.revoke_invite invite) (handle_revoke_org_invite org invite) s (
      code-keeps 204 404 500 500 (revoke_org_invite org invite) s.db (ground arith) (ground arith)
        (ground arith) (ground arith))
answer-keeps org caller user id suffix (OrgRequest.add wallet role) s =
    add-keeps org user id wallet role s
answer-keeps org caller user id suffix (OrgRequest.patch key role tier) s =
    on_db-keeps user (OrgRequest.patch key role tier) (handle_patch_member org key role tier id) s
      (patch-keeps org key id role tier s.db)
answer-keeps org caller user id suffix (OrgRequest.remove key) s =
    on_db-keeps user (OrgRequest.remove key) (handle_remove_member org key) s
      (remove-keeps org key s.db)
answer-keeps org caller user id suffix (OrgRequest.transfer to) s =
    on_db-keeps user (OrgRequest.transfer to) (handle_transfer_ownership org caller to) s (
      code-keeps 200 400 500 500 (transfer_org_ownership org caller to) s.db (ground arith)
        (ground arith) (ground arith) (ground arith))
answer-keeps org caller user id suffix (OrgRequest.assign to tier) s =
    on_db-keeps user (OrgRequest.assign to tier) (handle_assign_seat org to tier) s (
      code-keeps 200 404 400 400 (assign_seat org to tier) s.db (ground arith) (ground arith)
        (ground arith) (ground arith))
answer-keeps org caller user id suffix (OrgRequest.revoke from) s =
    on_db-keeps user (OrgRequest.revoke from) (handle_revoke_seat org from) s (
      code-keeps 200 404 400 400 (revoke_seat org from) s.db (ground arith) (ground arith)
        (ground arith) (ground arith))

-- Each of the nine requests of an owner that are modelled is answered 403 without a change when the
-- caller is not an active owner of the organization. For an owner the answer is a success, or an error
-- that leaves organizations, members, seats, invitations and all else but the accounts as they were,
-- and the accounts too, except that a request to add a member may have made the account of its wallet,
-- or reset the role of that account.
pub handle_lem :
    (org caller user id : ℕ) (suffix : ℕ → Text) (r : OrgRequest) (s : OrgDb)
    → ((privileged org caller s.db ≡ false) × (handle org caller suffix user id r s ≡ (403, s)))
      ⊎ ((privileged org caller s.db ≡ true)
          × SucceedsOrUpserts user r s (handle org caller suffix user id r s))
unfolding handle
handle_lem org caller user id suffix r s = elim (Bool-cases (privileged org caller s.db)) [
  | inr stranger ↦ inl (stranger, rw (handle, stranger) refl)
  | inl owner ↦ inr (owner, rw (handle, owner) (answer-keeps org caller user id suffix r s))
]

-- A request to add the wallet of an administrator as a member, whose guards it passes, takes the role of
-- administrator from the account, whether the member is added or not.
pub handle_add_member-demotes :
    (org user id i : ℕ) (wallet role : Text) (a : Account) (s : OrgDb)
    → is_blank wallet ≡ false
    → is_owner (normalize_org_role role) ≡ false
    → find_row (has_wallet wallet) s.accounts ≡ some (i, a)
    → lookup i s.accounts ≡ some a
    → lookup i (handle_add_member org wallet role user id s).1.accounts
      ≡ some (record a { is_admin = false })
unfolding handle_add_member add_by_wallet upsert_user_by_wallet
handle_add_member-demotes org user id i wallet role a s full other found here =
    ground (arith, lookup-adjust_self i (λ x. record x { is_admin = false }) s.accounts a here)

-- A role that is not exactly "owner" but that normalises to it, as "Owner" does, passes the check of
-- handlePatchMember: the member becomes an owner, beside the one that there is.
pub handle_patch_member-second_owner :
    (org key id : ℕ) (role : Text) (m : Member) (s : Db)
    → lookup key s.members ≡ some m
    → m.org ≡ org
    → is_owner m.role ≡ false
    → is_blank role ≡ false
    → text_eq role (codes "owner") ≡ false
    → normalize_org_role role ≡ Role.owner
    → (t : Tier) × ((handle_patch_member org key role "" id s).0 ≡ 200)
      × (lookup key (handle_patch_member org key role "" id s).1.members
          ≡ some (record m { role = Role.owner; seat_tier = t }))
unfolding handle_patch_member patch_member get_member_by_id resolve_seat_for_role
handle_patch_member-second_owner org key id role m s here own other full passes owner =
    let t : Tier = if was_operator (some m.role) then Tier.free else m.seat_tier in
    let self =
      lookup-adjust_self key (λ x. record x { role = Role.owner; seat_tier = t }) s.members m
        here in
    (t, ground arith, ground (arith, self))
