-- ===== src/Orgs/Members.antt =====
-- The members of an organization (internal/store/orgs.go).
-- A user or an organization that a new row names must exist; that foreign key is the database's
-- and is left out.
use Prim.Native.String.{String}
use text.Mathlib.Text.{◌==◌ as str_eq}
use erebrus_gateway.Base.{
  ℕ, Bool, true, false, not, ◌&&◌, Option, none, some, [], ◌∷◌, ◌==◌, if◌then◌else◌,
}
use erebrus_gateway.Base.Table.{lookup, insert, adjust}
use erebrus_gateway.Base.Text.{Text}
use erebrus_gateway.Base.Tx.{
  not_found, refused, ok, err, Tx, ◌>>=◌, ◌>>◌, pure, get, modify, guard, from_option, from_result,
}
use erebrus_gateway.Model.Org.{Role, Tier, MemberStatus, Member}
use erebrus_gateway.Model.Db.{Db}
use erebrus_gateway.Orgs.Plans.{normalize_seat_tier, is_owner, is_active}
use erebrus_gateway.Orgs.Seats.{
  normalize_org_role, membership, active_membership, update_member, resolve_seat_for_role,
}

-- INSERT INTO org_members ... ON CONFLICT (org_id, user_id) DO UPDATE: a new row under the
-- identifier `id`, or an update of the user's row.
unfoldable pub upsert_member : ℕ → Member → (Member → Member) → Tx Db (Unit {0})
unfolding membership
upsert_member id m f = do
  db ← get
  elim (membership m.org m.user db) [
    | none ↦ modify (λ s. record s { members = insert id m s.members })
    | some _ ↦ update_member m.org m.user f
  ]

abbrev readmitted : MemberStatus → MemberStatus
readmitted MemberStatus.removed = MemberStatus.invited
readmitted st = st

-- InviteMember: an unknown seat tier is Free.
unfoldable pub invite_member : ℕ → ℕ → Text → String → ℕ → Tx Db (Unit {0})
unfolding normalize_org_role normalize_seat_tier membership resolve_seat_for_role upsert_member
invite_member org user role tier id = do
  let r = normalize_org_role role
  let t0 : Tier = elim (normalize_seat_tier tier) [ ok t ↦ t | err _ ↦ Tier.free ]
  db ← get
  let prev : Option Role = elim (membership org user db) [ none ↦ none | some e ↦ some e.1.role ]
  t ← resolve_seat_for_role org r prev t0
  upsert_member id
      (record { org = org; user = user; role = r; seat_tier = t; status = MemberStatus.invited })
      (λ m. record m { role = r; seat_tier = t; status = readmitted m.status })

-- The membership of an identifier in an organization (GetMemberByID).
unfoldable pub get_member_by_id : ℕ → ℕ → Tx Db Member
get_member_by_id org id = do
  db ← get
  m ← from_option (lookup id db.members) not_found
  guard (m.org == org) not_found
  pure m

abbrev pub is_blank : Text → Bool
is_blank [] = true
is_blank (_ ∷ _) = false

-- PatchMember: an empty role or seat tier leaves the member's.
unfoldable pub patch_member : ℕ → ℕ → Text → String → Tx Db Member
unfolding get_member_by_id normalize_org_role normalize_seat_tier resolve_seat_for_role
patch_member org id role tier = do
  m ← get_member_by_id org id
  guard (not (is_owner m.role)) refused
  let r : Role = if is_blank role then m.role else normalize_org_role role
  t0 ← from_result (if str_eq tier "" then ok m.seat_tier else normalize_seat_tier tier)
  t ← resolve_seat_for_role org r (some m.role) t0
  modify
      (λ s. record s { members = adjust id (λ x. record x { role = r; seat_tier = t }) s.members })
  pure (record m { role = r; seat_tier = t })

-- UPDATE org_members SET status = 'removed' ... AND role <> 'owner' AND status = 'active'
abbrev pub removable : Member → Bool
removable m = not (is_owner m.role) && is_active m.status

-- RemoveMemberByID
unfoldable pub remove_member_by_id : ℕ → ℕ → Tx Db (Unit {0})
unfolding get_member_by_id
remove_member_by_id org id = do
  m ← get_member_by_id org id
  guard (removable m) not_found
  modify (λ s. record s {
    members = adjust id (λ x. record x { status = MemberStatus.removed }) s.members;
  })

-- RemoveMember
unfoldable pub remove_member : ℕ → ℕ → Tx Db (Unit {0})
unfolding membership
remove_member org user = do
  db ← get
  e ← from_option (membership org user db) not_found
  guard (removable e.1) not_found
  update_member org user (λ x. record x { status = MemberStatus.removed })

-- AddMember
unfoldable pub add_member : ℕ → ℕ → Text → ℕ → Tx Db (Unit {0})
unfolding normalize_org_role active_membership resolve_seat_for_role upsert_member
add_member org user role id = do
  let r = normalize_org_role role
  db ← get
  let cur = active_membership org user db
  t ←
      resolve_seat_for_role org r (elim cur [ none ↦ none | some m ↦ some m.role ])
        (elim cur [ none ↦ Tier.free | some m ↦ m.seat_tier ])
  upsert_member id
      (record { org = org; user = user; role = r; seat_tier = t; status = MemberStatus.active })
      (λ m. record m { role = r; seat_tier = t; status = MemberStatus.active })
