-- ===== src/Orgs/Seats.antt =====
-- Seats and roles of the members of an organization (internal/store/orgs.go).
-- (org, user) is unique among the members, so a query by these two reads, and an update changes,
-- the first such row.
use Prim.Native.String.{String}
use erebrus_gateway.Base.{
  ℕ, Bool, false, not, ◌&&◌, ◌||◌, Option, none, some, leb, ◌==◌, if◌then◌else◌,
}
use erebrus_gateway.Base.Table.{lookup, adjust, find_row, update_first}
use erebrus_gateway.Base.Text.{Text, codes, text_eq, normalize}
use erebrus_gateway.Base.Tx.{
  not_found, no_manager_seat, refused, Tx, ◌>>=◌, ◌>>◌, pure, get, modify, guard, from_option,
  from_result,
}
use erebrus_gateway.Model.Org.{Role, Tier, Org, Member}
use erebrus_gateway.Model.Db.{Db}
use erebrus_gateway.Orgs.Plans.{
  normalize_seat_tier, seat_tier_rank, plan_seat_tier_for_org, is_free, seat_tier_allowed_for_plan,
  is_owner, is_operator, is_active, get_org_entitlements, count_paid_seats_used,
  owner_seat_tier_for_plan,
}

-- normalizeOrgRole
unfoldable pub normalize_org_role : Text → Role
unfolding normalize
normalize_org_role t =
    let r = normalize t in
    if text_eq r (codes "owner")
    then Role.owner
    else if text_eq r (codes "node_operator") || text_eq r (codes "manager")
    then Role.node_operator
    else Role.member

abbrev pub is_member_of : ℕ → ℕ → Member → Bool
is_member_of org user m = m.org == org && m.user == user

-- The membership of a user in an organization, of whatever status.
unfoldable pub membership : ℕ → ℕ → Db → Option (ℕ × Member)
membership org user db = find_row (is_member_of org user) db.members

-- The membership, if it is active.
unfoldable pub active_membership : ℕ → ℕ → Db → Option Member
unfolding membership
active_membership org user db = elim (membership org user db) [
  | none ↦ none
  | some e ↦ if is_active e.1.status then some e.1 else none
]

abbrev pub update_member : ℕ → ℕ → (Member → Member) → Tx Db (Unit {0})
update_member org user f =
    modify (λ s. record s { members = update_first (is_member_of org user) f s.members })

-- GetOrg
unfoldable pub get_org : ℕ → Tx Db Org
get_org org = get >>= λ db. from_option (lookup org db.orgs) not_found

-- MemberMembership
unfoldable pub member_membership : ℕ → ℕ → Tx Db (Role × Tier)
unfolding active_membership
member_membership org user = do
  db ← get
  m ← from_option (active_membership org user db) not_found
  pure (m.role, m.seat_tier)

-- IsOrgPrivileged
unfoldable pub is_org_privileged : Role → Bool
is_org_privileged r = is_owner r

-- CanManageOrgNodes
unfoldable pub can_manage_org_nodes : Role → Bool
can_manage_org_nodes r = is_owner r || is_operator r

-- MemberHasPaidSeat
unfoldable pub member_has_paid_seat : Role → Tier → Bool
member_has_paid_seat r t = is_owner r || is_operator r || not (is_free t)

-- UserHasOrgSeat
unfoldable pub user_has_org_seat : ℕ → ℕ → Db → Bool
unfolding active_membership
user_has_org_seat org user db = elim (active_membership org user db) [
  | none ↦ false
  | some m ↦ is_owner m.role || is_operator m.role || not (is_free m.seat_tier)
]

abbrev pub seated : Tier → Member → Member
seated t m = if is_owner m.role then m else record m { seat_tier = t }

abbrev pub same_tier : Tier → Tier → Bool
unfolding seat_tier_rank
same_tier a b = seat_tier_rank a == seat_tier_rank b

-- The end of AssignSeat: nothing for a member who has the tier already, and the seats are counted
-- for a member who has none.
unfoldable pub assign_over : ℕ → ℕ → Tier → Tier → ℕ → ℕ → Tx Db (Unit {0})
assign_over org user t current included used =
    if same_tier current t
    then pure tt
    else guard (not (is_free current && leb included used)) refused
      >> update_member org user (seated t)

-- AssignSeat
unfoldable pub assign_seat : ℕ → ℕ → String → Tx Db (Unit {0})
unfolding assign_over active_membership seat_tier_allowed_for_plan count_paid_seats_used
assign_seat org user tier = do
  t ← from_result (normalize_seat_tier tier)
  guard (not (is_free t)) refused
  o ← get_org org
  guard (seat_tier_allowed_for_plan o.plan t) refused
  ent ← get_org_entitlements org
  db ← get
  m ← from_option (active_membership org user db) not_found
  assign_over org user t m.seat_tier ent.paid_seats_included (count_paid_seats_used org db.members)

-- RevokeSeat: the seat goes together with the role of a manager.
unfoldable pub revoke_seat : ℕ → ℕ → Tx Db (Unit {0})
unfolding active_membership
revoke_seat org user = do
  db ← get
  m ← from_option (active_membership org user db) not_found
  guard (not (is_owner m.role)) refused
  update_member org user (λ x. record x { seat_tier = Tier.free; role = Role.member })

-- allocatePlanSeat
unfoldable pub allocate_plan_seat : ℕ → Tx Db Tier
unfolding plan_seat_tier_for_org count_paid_seats_used
allocate_plan_seat org = do
  o ← get_org org
  t ← from_option (plan_seat_tier_for_org o.plan) no_manager_seat
  ent ← get_org_entitlements org
  db ← get
  guard (not (leb ent.paid_seats_included (count_paid_seats_used org db.members))) no_manager_seat
  pure t

abbrev pub was_operator : Option Role → Bool
was_operator none = false
was_operator (some r) = is_operator r

-- resolveSeatForRole: a new manager without a seat takes one, and a manager who is demoted gives
-- the seat up.
unfoldable pub resolve_seat_for_role : ℕ → Role → Option Role → Tier → Tx Db Tier
unfolding allocate_plan_seat
resolve_seat_for_role org new prev seat =
    if is_operator new
    then (if is_free seat then allocate_plan_seat org else pure seat)
    else if was_operator prev
    then pure Tier.free
    else pure seat

-- The first half of TransferOrgOwnership: from an active owner to an active manager.
unfoldable pub may_transfer : ℕ → ℕ → ℕ → Db → Bool
unfolding active_membership
may_transfer org from to db = elim (active_membership org from db) [
  | none ↦ false
  | some f ↦ elim (active_membership org to db) [
    | none ↦ false
    | some t ↦ is_owner f.role && is_operator t.role
  ]
]

-- TransferOrgOwnership
unfoldable pub transfer_org_ownership : ℕ → ℕ → ℕ → Tx Db (Unit {0})
unfolding may_transfer owner_seat_tier_for_plan
transfer_org_ownership org from to = do
  db ← get
  guard (may_transfer org from to db) not_found
  o ← get_org org
  let seat = owner_seat_tier_for_plan o.plan
  update_member org from (λ m. record m { role = Role.node_operator; seat_tier = seat })
  update_member org to (λ m. record m { role = Role.owner; seat_tier = seat })
  modify (λ s. record s { orgs = adjust org (λ x. record x { owner_user = to }) s.orgs })
