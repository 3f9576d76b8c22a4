-- ===== src/Orgs/Joining.antt =====
-- What the acceptance of an invitation does, and that it is used up by it.
use erebrus_gateway.Base.{
  ℕ, ◌≡◌, refl, true, none, some, arith, Bool-cases, Option-cases, ◌⊎◌, inl, inr,
}
use erebrus_gateway.Base.Table.{
  lookup, insert, find_row, update_first, update_where, find_row-insert, find_row-holds,
  find_row-update_first_self, find_row-update_where,
}
use erebrus_gateway.Base.Text.{Text}
use erebrus_gateway.Base.Tx.{ok}
use erebrus_gateway.Model.Org.{Role, Tier, MemberStatus, InviteStatus, Member, OrgInvite}
use erebrus_gateway.Model.Db.{Db}
use erebrus_gateway.Orgs.Seats.{is_member_of, membership, active_membership}
use erebrus_gateway.Orgs.Members.{is_blank, upsert_member}
use erebrus_gateway.Orgs.Invites.{
  invites_to, join_org, invited_as, accepted_email, accept_user_org_invite,
}

join_org_lem :
    (org user : ℕ) (r : Role) (t : Tier) (id : ℕ) (s : Db)
    → lookup id s.members ≡ none
    → (s' : Db) × (join_org org user r t id s ≡ ok (tt, s'))
      × (active_membership org user s'
          ≡ some (record {
            org = org;
            user = user;
            role = r;
            seat_tier = t;
            status = MemberStatus.active;
          }))
      × (s'.invites ≡ s.invites)
unfolding join_org upsert_member active_membership membership
join_org_lem org user r t id s fresh =
    let m : Member = record {
      org = org;
      user = user;
      role = r;
      seat_tier = t;
      status = MemberStatus.active;
    } in
    let f : Member → Member =
      λ x. record x { role = r; seat_tier = t; status = MemberStatus.active } in
    elim (Option-cases (find_row (is_member_of org user) s.members)) [
      | inl missing ↦
          let row =
            find_row-insert (is_member_of org user) id m s.members fresh missing (ground arith) in
          (record s { members = insert id m s.members }, ground arith, ground arith, refl)
      | inr ((i, w), found) ↦
          let here = find_row-holds (is_member_of org user) s.members i w found in
          let row =
            find_row-update_first_self (is_member_of org user) f s.members i w (ground arith)
              found in
          (
            record s { members = update_first (is_member_of org user) f s.members },
            ground arith,
            ground arith,
            refl,
          )
    ]

-- A user who is invited to an organization, by account or by address, and accepts under a fresh
-- identifier, succeeds: the user is an active member with the role and the seat of the invitation,
-- and no invitation of the organization to the address is pending, if there is an address.
pub accept_user_org_invite_lem :
    (user org : ℕ) (email : Text) (id : ℕ) (s : Db) (a : Role × Tier)
    → lookup id s.members ≡ none
    → invited_as user org email s ≡ some a
    → (s' : Db) × (accept_user_org_invite user org email id s ≡ ok (tt, s'))
      × (active_membership org user s'
          ≡ some (record {
            org = org;
            user = user;
            role = a.0;
            seat_tier = a.1;
            status = MemberStatus.active;
          }))
      × ((is_blank (accepted_email user org email s) ≡ true)
          ⊎ (find_row (invites_to org (accepted_email user org email s)) s'.invites ≡ none))
unfolding accept_user_org_invite active_membership membership
accept_user_org_invite_lem user org email id s a fresh invited =
    let (s1, joined, active, same) = join_org_lem org user a.0 a.1 id s fresh in
    let e = accepted_email user org email s in
    let f : OrgInvite → OrgInvite = λ v. record v { status = InviteStatus.accepted } in
    elim (Bool-cases (is_blank e)) [
      | inl blank ↦ (s1, ground arith, active, inl blank)
      | inr given ↦ (
        record s1 { invites = update_where (invites_to org e) f s1.invites },
        ground arith,
        active,
        inr (find_row-update_where (invites_to org e) f s1.invites (λ v. ground arith)),
      )
    ]
