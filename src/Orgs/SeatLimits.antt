-- ===== src/Orgs/SeatLimits.antt =====
-- The paid seats of an organization: their number and their tiers.
use Prim.Native.String.{String}
use erebrus_gateway.Base.{
  ℕ, ◌+◌, ◌≤◌, ◌<◌, ◌≡◌, refl, true, false, Option, none, some, arith, if◌then◌else◌, Option-cases,
  ◌⊎◌, inl, inr,
}
use erebrus_gateway.Base.Table.{
  Table, lookup, find_row, update_first, sum-update_first, sum-adjust, find_row-holds,
  find_row-update_first_self,
}
use erebrus_gateway.Base.Text.{Text}
use erebrus_gateway.Base.Tx.{ok, err, Result-cases}
use erebrus_gateway.Model.Org.{Plan, Role, Tier, Org, Member, OrgEntitlement}
use erebrus_gateway.Model.Db.{Db}
use erebrus_gateway.Drop.Tier.{drop_tier_rank, plan_tier}
use erebrus_gateway.Orgs.Plans.{
  normalize_seat_tier, seat_tier_rank, max_seat_tier_for_plan, seat_tier_allowed_for_plan, is_free,
  is_owner, bit, takes_seat, count_paid_seats_used, get_org_entitlements, plan_seat_tier_for_org,
}
use erebrus_gateway.Orgs.Seats.{
  normalize_org_role, is_member_of, membership, active_membership, seated, assign_over, get_org,
  assign_seat, revoke_seat, allocate_plan_seat, resolve_seat_for_role, user_has_org_seat,
  member_membership, member_has_paid_seat,
}
use erebrus_gateway.Orgs.Members.{is_blank, get_member_by_id, patch_member}

abbrev pub seats : ℕ → Db → ℕ
seats org s = count_paid_seats_used org s.members

seated_one :
    (org user : ℕ) (t : Tier) (m : Member)
    → bit (takes_seat org (seated t m)) ≤ bit (takes_seat org m) + bit (is_free m.seat_tier)
seated_one org user t m = ground arith

assign_over-seats :
    (org user : ℕ) (t : Tier) (included i : ℕ) (m : Member) (s s' : Db)
    → find_row (is_member_of org user) s.members ≡ some (i, m)
    → seats org s ≤ included
    → assign_over org user t m.seat_tier included (seats org s) s ≡ ok (tt, s')
    → seats org s' ≤ included
unfolding assign_over count_paid_seats_used
assign_over-seats org user t included i m s s' found within h = ground (
  arith,
  seated_one org user t m,
  sum-update_first (λ x. bit (takes_seat org x)) (is_member_of org user) (seated t) s.members i m
      found,
)

-- An assignment of a seat that succeeds leaves an organization within the seats of its entitlement,
-- if it was within them.
pub assign_seat_within_seats :
    (org user : ℕ) (tier : String) (s s' : Db) (ent : OrgEntitlement)
    → lookup org s.entitlements ≡ some ent
    → count_paid_seats_used org s.members ≤ ent.paid_seats_included
    → assign_seat org user tier s ≡ ok (tt, s')
    → count_paid_seats_used org s'.members ≤ ent.paid_seats_included
unfolding assign_seat active_membership membership get_org get_org_entitlements
assign_seat_within_seats org user tier s s' ent e within h =
    elim (Option-cases (find_row (is_member_of org user) s.members)) [
      | inl none_found ↦ ground arith
      | inr ((i, m), found) ↦
          let t : Tier = elim (normalize_seat_tier tier) [ ok t ↦ t | err _ ↦ Tier.free ] in
          ground (arith, assign_over-seats org user t ent.paid_seats_included i m s s' found within)
    ]

-- The tiers of the seats that a plan allows rank no higher than the Drop tier of the plan.
allowed_rank :
    (p : Plan) (t : Tier)
    → seat_tier_allowed_for_plan p t ≡ true
    → drop_tier_rank t ≤ drop_tier_rank (plan_tier p)
unfolding seat_tier_allowed_for_plan seat_tier_rank max_seat_tier_for_plan drop_tier_rank plan_tier
allowed_rank p t h = ground arith

-- The row that a search by membership finds after an update of that membership.
membership_after :
    (org user : ℕ) (f : Member → Member) (i : ℕ) (m : Member) (t : Table Member)
    → is_member_of org user (f m) ≡ is_member_of org user m
    → find_row (is_member_of org user) t ≡ some (i, m)
    → find_row (is_member_of org user) (update_first (is_member_of org user) f t) ≡ some (i, f m)
membership_after org user f i m t same found =
    find_row-update_first_self (is_member_of org user) f t i m
      (rw same (find_row-holds (is_member_of org user) t i m found)) found

assign_over_tier :
    (org user : ℕ) (t : Tier) (included used i : ℕ) (m m' : Member) (s s' : Db)
    → find_row (is_member_of org user) s.members ≡ some (i, m)
    → assign_over org user t m.seat_tier included used s ≡ ok (tt, s')
    → active_membership org user s' ≡ some m'
    → is_owner m'.role ≡ false
    → m'.seat_tier ≡ t
unfolding assign_over active_membership membership seat_tier_rank
assign_over_tier org user t included used i m m' s s' found h after member =
    ground (arith, membership_after org user (seated t) i m s.members (ground arith) found)

-- After an assignment of a seat that succeeds, the member, unless the owner, has a tier that ranks
-- no higher than the Drop tier that the plan of the organization gives to its owner.
pub assign_seat_within_plan :
    (org user : ℕ) (tier : String) (s s' : Db) (o : Org) (m' : Member)
    → lookup org s.orgs ≡ some o
    → assign_seat org user tier s ≡ ok (tt, s')
    → active_membership org user s' ≡ some m'
    → is_owner m'.role ≡ false
    → drop_tier_rank m'.seat_tier ≤ drop_tier_rank (plan_tier o.plan)
unfolding assign_seat active_membership membership get_org get_org_entitlements
assign_seat_within_plan org user tier s s' o m' eo h after member =
    elim (Option-cases (find_row (is_member_of org user) s.members)) [
      | inl none_found ↦ ground arith
      | inr ((i, m), found) ↦
          let t : Tier = elim (normalize_seat_tier tier) [ ok t ↦ t | err _ ↦ Tier.free ] in
          let included : ℕ = elim (lookup org s.entitlements) [
            | none ↦ 0
            | some e ↦ e.paid_seats_included
          ] in
          ground (
            arith,
            assign_over_tier org user t included (seats org s) i m m' s s' found,
            allowed_rank o.plan t,
          )
    ]

-- A member whose seat is revoked with success is a plain member on the Free tier, holds no paid
-- seat of the organization, and no more seats are used than before.
pub revoke_seat_lem :
    (org user : ℕ) (s s' : Db)
    → revoke_seat org user s ≡ ok (tt, s')
    → (user_has_org_seat org user s' ≡ false)
      × (member_membership org user s' ≡ ok ((Role.member, Tier.free), s'))
      × (count_paid_seats_used org s'.members ≤ count_paid_seats_used org s.members)
unfolding revoke_seat active_membership membership user_has_org_seat member_membership
    count_paid_seats_used
revoke_seat_lem org user s s' h = elim (Option-cases (find_row (is_member_of org user) s.members)) [
  | inl none_found ↦ (ground arith, ground arith, ground arith)
  | inr ((i, m), found) ↦
      let f : Member → Member = λ x. record x { seat_tier = Tier.free; role = Role.member } in
      let after = membership_after org user f i m s.members refl found in
      let count =
        sum-update_first (λ x. bit (takes_seat org x)) (is_member_of org user) f s.members i m
          found in
      (ground (arith, after), ground (arith, after), ground (arith, count))
]

-- The two tests of a paid seat agree: that of one query over the members, and that of the role and
-- the seat which MemberMembership returns.
pub user_has_org_seat-member_has_paid_seat :
    (org user : ℕ) (s : Db)
    → user_has_org_seat org user s ≡ (elim (member_membership org user s) [
      | ok (a, _) ↦ member_has_paid_seat a.0 a.1
      | err _ ↦ false
    ])
unfolding user_has_org_seat member_membership member_has_paid_seat active_membership
user_has_org_seat-member_has_paid_seat org user s = ground arith

-- The seat that the role of a member needs.
resolve_seats :
    (org : ℕ) (new : Role) (prev : Option Role) (seat t : Tier) (s s' : Db) (ent : OrgEntitlement)
    → lookup org s.entitlements ≡ some ent
    → resolve_seat_for_role org new prev seat s ≡ ok (t, s')
    → (s' ≡ s)
      × ((is_free t ≡ true) ⊎ (is_free seat ≡ false) ⊎ (seats org s < ent.paid_seats_included))
unfolding resolve_seat_for_role allocate_plan_seat get_org get_org_entitlements
    plan_seat_tier_for_org
resolve_seats org new prev seat t s s' ent e h = (ground arith, ground arith)

-- A change of role alone that succeeds, to another role than the owner's, leaves an organization
-- within the seats of its entitlement, if it was within them.
pub patch_member_within_seats :
    (org id : ℕ) (role : Text) (s s' : Db) (ent : OrgEntitlement) {a : Member}
    → is_owner (normalize_org_role role) ≡ false
    → lookup org s.entitlements ≡ some ent
    → count_paid_seats_used org s.members ≤ ent.paid_seats_included
    → patch_member org id role "" s ≡ ok (a, s')
    → count_paid_seats_used org s'.members ≤ ent.paid_seats_included
unfolding patch_member get_member_by_id count_paid_seats_used
patch_member_within_seats org id role s s' ent other e within h =
    elim (Option-cases (lookup id s.members)) [
      | inl none_found ↦ ground arith
      | inr (m, found) ↦
          let r : Role = if is_blank role then m.role else normalize_org_role role in
          elim (Result-cases (resolve_seat_for_role org r (some m.role) m.seat_tier s)) [
            | inr (x, refused) ↦ ground arith
            | inl ((t, s1), resolved) ↦
                let (same, why) =
                  resolve_seats org r (some m.role) m.seat_tier t s s1 ent e resolved in
                let f : Member → Member = λ x. record x { role = r; seat_tier = t } in
                ground (arith, sum-adjust (λ x. bit (takes_seat org x)) id f s.members m found)
          ]
    ]
