-- ===== src/Orgs/Ownership.antt =====
-- The owner of an organization: what manages members leaves the owner's row alone.
use Prim.Native.String.{String}
use text.Mathlib.Text.{◌==◌ as str_eq}
use erebrus_gateway.Base.{
  ℕ, ◌≡◌, Bool, true, Option, some, arith, if◌then◌else◌, Option-cases, inl, inr,
}
use erebrus_gateway.Base.Table.{
  lookup, find_row, lookup-update_first_ne, lookup-update_first_fixed, lookup-adjust_other,
}
use erebrus_gateway.Base.Text.{Text}
use erebrus_gateway.Base.Tx.{Result, ok, Result-cases}
use erebrus_gateway.Model.Org.{Role, Tier, MemberStatus, Member}
use erebrus_gateway.Model.Db.{Db}
use erebrus_gateway.Orgs.Plans.{normalize_seat_tier, is_owner, get_org_entitlements}
use erebrus_gateway.Orgs.Seats.{
  normalize_org_role, is_member_of, membership, active_membership, seated, assign_over, get_org,
  assign_seat, revoke_seat, allocate_plan_seat, resolve_seat_for_role,
}
use erebrus_gateway.Orgs.Members.{
  is_blank, get_member_by_id, patch_member, remove_member_by_id, remove_member,
}

abbrev owner_role : Member → Bool
owner_role m = is_owner m.role

resolve_seat_same :
    (org : ℕ) (new : Role) (prev : Option Role) (seat t : Tier) (s s' : Db)
    → resolve_seat_for_role org new prev seat s ≡ ok (t, s')
    → s' ≡ s
unfolding resolve_seat_for_role allocate_plan_seat get_org get_org_entitlements
resolve_seat_same org new prev seat t s s' h = ground arith

-- One action of an organization's management on its members, that succeeds.
pub data Manages : Db → Db → Type 0 where
  assigns :
      {s s' : Db} (org user : ℕ) (tier : String)
      → assign_seat org user tier s ≡ ok (tt, s')
      → Manages s s'
  revokes : {s s' : Db} (org user : ℕ) → revoke_seat org user s ≡ ok (tt, s') → Manages s s'
  patches :
      {s s' : Db} (org id : ℕ) (role : Text) (tier : String) (a : Member)
      → patch_member org id role tier s ≡ ok (a, s')
      → Manages s s'
  removes_by_id :
      {s s' : Db} (org id : ℕ) → remove_member_by_id org id s ≡ ok (tt, s') → Manages s s'
  removes : {s s' : Db} (org user : ℕ) → remove_member org user s ≡ ok (tt, s') → Manages s s'

pub data ManagesAll (s : Db) : Db → Type 0 where
  done : ManagesAll s s
  afterwards : {t u : Db} → ManagesAll s t → Manages t u → ManagesAll s u

assign_keeps :
    (org user i : ℕ) (tier : String) (s s' : Db) (v : Member)
    → assign_seat org user tier s ≡ ok (tt, s')
    → lookup i s.members ≡ some v
    → is_owner v.role ≡ true
    → lookup i s'.members ≡ some v
unfolding assign_seat assign_over active_membership membership get_org get_org_entitlements
assign_keeps org user i tier s s' v h e own = ground (
  arith,
  lookup-update_first_fixed (is_member_of org user) (seated Tier.free) i v s.members,
  lookup-update_first_fixed (is_member_of org user) (seated Tier.starter) i v s.members,
  lookup-update_first_fixed (is_member_of org user) (seated Tier.pro) i v s.members,
  lookup-update_first_fixed (is_member_of org user) (seated Tier.business) i v s.members,
  lookup-update_first_fixed (is_member_of org user) (seated Tier.enterprise) i v s.members,
)

revoke_keeps :
    (org user i : ℕ) (s s' : Db) (v : Member)
    → revoke_seat org user s ≡ ok (tt, s')
    → lookup i s.members ≡ some v
    → is_owner v.role ≡ true
    → lookup i s'.members ≡ some v
unfolding revoke_seat active_membership membership
revoke_keeps org user i s s' v h e own =
    elim (Option-cases (find_row (is_member_of org user) s.members)) [
      | inl none_found ↦ ground arith
      | inr ((j, w), found) ↦ ground (
        arith,
        lookup-update_first_ne (is_member_of org user) owner_role
            (λ x. record x { seat_tier = Tier.free; role = Role.member }) i j v w s.members found,
      )
    ]

remove_keeps :
    (org user i : ℕ) (s s' : Db) (v : Member)
    → remove_member org user s ≡ ok (tt, s')
    → lookup i s.members ≡ some v
    → is_owner v.role ≡ true
    → lookup i s'.members ≡ some v
unfolding remove_member membership
remove_keeps org user i s s' v h e own =
    elim (Option-cases (find_row (is_member_of org user) s.members)) [
      | inl none_found ↦ ground arith
      | inr ((j, w), found) ↦ ground (
        arith,
        lookup-update_first_ne (is_member_of org user) owner_role
            (λ x. record x { status = MemberStatus.removed }) i j v w s.members found,
      )
    ]

remove_by_id_keeps :
    (org id i : ℕ) (s s' : Db) (v : Member)
    → remove_member_by_id org id s ≡ ok (tt, s')
    → lookup i s.members ≡ some v
    → is_owner v.role ≡ true
    → lookup i s'.members ≡ some v
unfolding remove_member_by_id get_member_by_id
remove_by_id_keeps org id i s s' v h e own = elim (Option-cases (lookup id s.members)) [
  | inl none_found ↦ ground arith
  | inr (w, found) ↦ ground (
    arith,
    lookup-adjust_other id i owner_role (λ x. record x { status = MemberStatus.removed }) v w
        s.members found,
  )
]

patch_keeps :
    (org id i : ℕ) (role : Text) (tier : String) (s s' : Db) (v a : Member)
    → patch_member org id role tier s ≡ ok (a, s')
    → lookup i s.members ≡ some v
    → is_owner v.role ≡ true
    → lookup i s'.members ≡ some v
unfolding patch_member get_member_by_id
patch_keeps org id i role tier s s' v a h e own = elim (Option-cases (lookup id s.members)) [
  | inl none_found ↦ ground arith
  | inr (w, found) ↦
      let r : Role = if is_blank role then w.role else normalize_org_role role in
      let wanted : Result Tier =
        if str_eq tier "" then ok w.seat_tier else normalize_seat_tier tier in
      elim (Result-cases wanted) [
        | inr (x, refused) ↦ ground arith
        | inl (t0, wants) ↦ elim (Result-cases (resolve_seat_for_role org r (some w.role) t0 s)) [
          | inr (x, refused) ↦ ground arith
          | inl ((t, s1), resolved) ↦ ground (
            arith,
            resolve_seat_same org r (some w.role) t0 t s s1 resolved,
            lookup-adjust_other id i owner_role (λ x. record x { role = r; seat_tier = t }) v w
                s.members found,
          )
        ]
      ]
]

Manages-keeps :
    (i : ℕ) (v : Member) {s s' : Db}
    → Manages s s'
    → lookup i s.members ≡ some v
    → is_owner v.role ≡ true
    → lookup i s'.members ≡ some v
Manages-keeps i v (assigns org user tier h) e own = assign_keeps org user i tier _ _ v h e own
Manages-keeps i v (revokes org user h) e own = revoke_keeps org user i _ _ v h e own
Manages-keeps i v (patches org id role tier a h) e own =
    patch_keeps org id i role tier _ _ v a h e own
Manages-keeps i v (removes_by_id org id h) e own = remove_by_id_keeps org id i _ _ v h e own
Manages-keeps i v (removes org user h) e own = remove_keeps org user i _ _ v h e own

-- However often seats are assigned and revoked, members are patched and members are removed, with
-- success, the row of an owner stays as it is: the owner is neither demoted, nor removed, nor loses
-- the seat.
pub ManagesAll-keeps_owner :
    (i : ℕ) (v : Member) {s s' : Db}
    → ManagesAll s s'
    → lookup i s.members ≡ some v
    → is_owner v.role ≡ true
    → lookup i s'.members ≡ some v
ManagesAll-keeps_owner i v done e own = e
ManagesAll-keeps_owner i v (afterwards r st) e own =
    Manages-keeps i v st (ManagesAll-keeps_owner i v r e own) own
