-- ===== src/Orgs/Tests.antt =====
-- What the theorems about organizations say of the sample data.
use erebrus_gateway.Base.{ℕ, ◌≤◌, ◌≡◌, refl, true, false, none, some, [], arith, ◌⊎◌}
use erebrus_gateway.Base.Table.{lookup, adjust, find_row, update_first, sum}
use erebrus_gateway.Base.Text.{Text, codes, normalize}
use erebrus_gateway.Base.Tx.{ok}
use erebrus_gateway.Model.Org.{Plan, Role, Tier, MemberStatus, Org, Member}
use erebrus_gateway.Model.Db.{Db}
use erebrus_gateway.Drop.Tier.{tier_among}
use erebrus_gateway.Orgs.Plans.{
  get_org_entitlements, plan_entitlement_template, count_paid_seats_used, owner_seat_tier_for_plan,
}
use erebrus_gateway.Orgs.Seats.{
  normalize_org_role, active_membership, transfer_org_ownership, get_org,
}
use erebrus_gateway.Orgs.Members.{is_blank, patch_member, invite_member}
use erebrus_gateway.Orgs.Invites.{invites_to, invited_as, accepted_email, accept_user_org_invite}
use erebrus_gateway.Orgs.Slug.{slug_taken}
use erebrus_gateway.Orgs.Lifecycle.{create_org, set_org_plan}
use erebrus_gateway.Orgs.SeatLimits.{assign_seat_within_seats, patch_member_within_seats}
use erebrus_gateway.Orgs.Joining.{accept_user_org_invite_lem}
use erebrus_gateway.Orgs.OwnershipTransfer.{owners, transfer_org_ownership_lem}
use erebrus_gateway.Orgs.Ownership.{Manages, ManagesAll, ManagesAll-keeps_owner}
use erebrus_gateway.Orgs.SlugShape.{create_org_lem}
use erebrus_gateway.Orgs.Samples.{
  acme, row, db, left, with_rows, assigned_db, assign_assigned, revoked_db, revoke_revoked,
}

-- The row of an owner is not proof against an invitation: by it an owner becomes a member.
invite_demotes_owner :
    active_membership 1 7 (left db (invite_member 1 7 (codes "member") "" 14 db))
    ≡ some (row 7 Role.member Tier.free)
unfolding invite_member active_membership find_row update_first tier_among
invite_demotes_owner = refl

-- A role that is written with a capital makes a second owner.
patch_second_owner : owners 1 (left db (patch_member 1 13 (codes "Owner") "" db)) ≡ 2
unfolding patch_member lookup adjust sum
patch_second_owner = refl

assign_seat_within_seats_example : count_paid_seats_used 1 assigned_db.members ≤ 5
unfolding lookup count_paid_seats_used sum plan_entitlement_template
assign_seat_within_seats_example =
    assign_seat_within_seats 1 9 "starter" db assigned_db (plan_entitlement_template Plan.pro) refl
      (ground arith) assign_assigned

-- Member 9 becomes a manager, with a seat of the plan.
abbrev managed_db : Db
managed_db =
    with_rows (row 7 Role.owner Tier.pro) (row 8 Role.node_operator Tier.pro)
      (row 9 Role.node_operator Tier.pro)

patch_managed :
    patch_member 1 13 (codes " Manager") "" db ≡ ok (row 9 Role.node_operator Tier.pro, managed_db)
unfolding patch_member lookup get_org get_org_entitlements plan_entitlement_template sum adjust
patch_managed = refl

patch_member_within_seats_example : count_paid_seats_used 1 managed_db.members ≤ 5
unfolding lookup count_paid_seats_used sum plan_entitlement_template normalize_org_role
patch_member_within_seats_example =
    patch_member_within_seats 1 13 (codes " Manager") db managed_db
      (plan_entitlement_template Plan.pro) refl refl (ground arith) patch_managed

ManagesAll-keeps_owner_example : lookup 11 revoked_db.members ≡ some (row 7 Role.owner Tier.pro)
unfolding lookup
ManagesAll-keeps_owner_example =
    ManagesAll-keeps_owner 11 (row 7 Role.owner Tier.pro)
      (ManagesAll.afterwards
        (ManagesAll.afterwards ManagesAll.done (Manages.assigns 1 9 "starter" assign_assigned))
        (Manages.revokes 1 8 revoke_revoked))
      refl refl

abbrev transferred_db : Db
transferred_db = left db (transfer_org_ownership 1 7 8 db)

transfer_org_ownership_lem_example :
    (f : Member) × (t : Member) × (active_membership 1 7 transferred_db ≡ some f)
    × (f.role ≡ Role.node_operator)
    × (active_membership 1 8 transferred_db ≡ some t)
    × (t.role ≡ Role.owner)
    × (owners 1 transferred_db ≡ owners 1 db)
    × ((o : Org) × (lookup 1 transferred_db.orgs ≡ some o) × (o.owner_user ≡ 8))
unfolding transfer_org_ownership find_row get_org lookup
transfer_org_ownership_lem_example = transfer_org_ownership_lem 1 7 8 db transferred_db refl

accept_user_org_invite_lem_example :
    (s' : Db) × (accept_user_org_invite 10 1 (codes " Eve@X.org") 14 db ≡ ok (tt, s'))
    × (active_membership 1 10 s' ≡ some (row 10 Role.member Tier.starter))
    × ((is_blank (accepted_email 10 1 (codes " Eve@X.org") db) ≡ true)
        ⊎ (find_row (invites_to 1 (accepted_email 10 1 (codes " Eve@X.org") db)) s'.invites ≡ none))
unfolding lookup invited_as find_row normalize
accept_user_org_invite_lem_example =
    accept_user_org_invite_lem 10 1 (codes " Eve@X.org") 14 db (Role.member, Tier.starter) refl refl

abbrev suffix : ℕ → Text
suffix n = codes "0a1b2c3d"

abbrev founded : Org
founded = record acme {
  name = codes "New Org";
  slug = codes "new-org";
  plan = Plan.basic;
  owner_user = 9;
}

create_org_lem_example :
    let s' = left db (create_org 9 (codes "New Org ") [] Plan.basic suffix 2 14 db) in
    (slug_taken none founded.slug db.orgs ≡ false)
    × (lookup 2 s'.orgs ≡ some founded)
    × (founded.owner_user ≡ 9)
    × (lookup 2 s'.entitlements ≡ some (plan_entitlement_template Plan.basic))
    × (active_membership 2 9 s'
        ≡ some (record {
          org = 2;
          user = 9;
          role = Role.owner;
          seat_tier = owner_seat_tier_for_plan Plan.basic;
          status = MemberStatus.active;
        }))
unfolding lookup find_row create_org
create_org_lem_example =
    create_org_lem 9 (codes "New Org ") [] Plan.basic suffix 2 14 db
      (left db (create_org 9 (codes "New Org ") [] Plan.basic suffix 2 14 db)) founded (λ i. refl)
      refl refl refl

-- The organization moves to the plan Basic.
abbrev basic_db : Db
basic_db = left assigned_db (set_org_plan 1 "basic" assigned_db)
