-- ===== src/Orgs/OwnershipTransfer.antt =====
-- The transfer of ownership moves the role of the owner from one row to another.
use erebrus_gateway.Base.{
  ℕ, ◌≡◌, ◌∙◌, refl, true, false, ◌&&◌, some, arith, ◌==◌, Bool-cases, Option-cases, inl, inr,
}
use erebrus_gateway.Base.Table.{
  Table, lookup, find_row, update_first, sum, sum-update_first, find_row-holds,
  find_row-update_first_self, find_row-update_first_ne, lookup-adjust_self,
}
use erebrus_gateway.Base.Tx.{ok}
use erebrus_gateway.Model.Org.{Role, Tier, Org, Member}
use erebrus_gateway.Model.Db.{Db}
use erebrus_gateway.Orgs.Plans.{is_owner, is_active, bit, owner_seat_tier_for_plan}
use erebrus_gateway.Orgs.Seats.{
  is_member_of, membership, active_membership, get_org, may_transfer, transfer_org_ownership,
}

-- How many rows of an organization have the role of its owner.
abbrev pub owners : ℕ → Db → ℕ
owners org s = sum (λ m. bit (m.org == org && is_owner m.role)) s.members

may_transfer_rows :
    (org from to : ℕ) (s : Db)
    → may_transfer org from to s ≡ true
    → (i : ℕ) × (f : Member) × (j : ℕ) × (t : Member) × (find_row (is_member_of org from) s.members
        ≡ some (i, f))
      × (find_row (is_member_of org to) s.members ≡ some (j, t))
      × (f.role ≡ Role.owner)
      × (t.role ≡ Role.node_operator)
      × ((from == to) ≡ false)
      × (is_active t.status ≡ true)
      × (is_active f.status ≡ true)
unfolding may_transfer active_membership membership
may_transfer_rows org from to s h =
    elim (Option-cases (find_row (is_member_of org from) s.members)) [
      | inl missing ↦ absurd (ground arith)
      | inr ((i, f), found) ↦ elim (Option-cases (find_row (is_member_of org to) s.members)) [
        | inl missing ↦ absurd (ground arith)
        | inr ((j, t), found') ↦ (
          i,
          f,
          j,
          t,
          found,
          found',
          ground arith,
          ground arith,
          ground arith,
          ground arith,
          ground arith,
        )
      ]
    ]

abbrev pub demoted : Tier → Member → Member
demoted t m = record m { role = Role.node_operator; seat_tier = t }

abbrev pub promoted : Tier → Member → Member
promoted t m = record m { role = Role.owner; seat_tier = t }

-- The members after a transfer between two rows.
abbrev transferred : ℕ → ℕ → ℕ → Tier → Table Member → Table Member
transferred org from to t ms =
    update_first (is_member_of org to) (promoted t)
      (update_first (is_member_of org from) (demoted t) ms)

transferred_rows :
    (org from to : ℕ) (t : Tier) (i j : ℕ) (f g : Member) (ms : Table Member)
    → (from == to) ≡ false
    → f.role ≡ Role.owner
    → g.role ≡ Role.node_operator
    → find_row (is_member_of org from) ms ≡ some (i, f)
    → find_row (is_member_of org to) ms ≡ some (j, g)
    → (find_row (is_member_of org from) (transferred org from to t ms) ≡ some (i, demoted t f))
      × (find_row (is_member_of org to) (transferred org from to t ms) ≡ some (j, promoted t g))
      × (sum (λ m. bit (m.org == org && is_owner m.role)) (transferred org from to t ms)
          ≡ sum (λ m. bit (m.org == org && is_owner m.role)) ms)
transferred_rows org from to t i j f g ms ne ef eg hf hg =
    let p = is_member_of org from in
    let q = is_member_of org to in
    let w : Member → ℕ = λ m. bit (m.org == org && is_owner m.role) in
    let ms1 = update_first p (demoted t) ms in
    let pf = find_row-holds p ms i f hf in
    let qg = find_row-holds q ms j g hg in
    let hf1 = find_row-update_first_self p (demoted t) ms i f pf hf in
    let hg1 : find_row q ms1 ≡ some (j, g) =
      find_row-update_first_ne p q (demoted t) ms (λ v e. (ground arith, ground arith)) ∙ hg in
    let hf2 : find_row p (update_first q (promoted t) ms1) ≡ some (i, demoted t f) =
      find_row-update_first_ne q p (promoted t) ms1 (λ v e. (ground arith, ground arith)) ∙ hf1 in
    let hg2 = find_row-update_first_self q (promoted t) ms1 j g qg hg1 in
    let s1 = sum-update_first w p (demoted t) ms i f hf in
    let s2 = sum-update_first w q (promoted t) ms1 j g hg1 in (hf2, hg2, ground arith)

-- A transfer that succeeds makes the new owner the active owner of the organization, in the members
-- and in the organization's own row, makes the old owner an active manager, and keeps the number of
-- the organization's owners.
pub transfer_org_ownership_lem :
    (org from to : ℕ) (s s' : Db)
    → transfer_org_ownership org from to s ≡ ok (tt, s')
    → (f : Member) × (t : Member) × (active_membership org from s' ≡ some f)
      × (f.role ≡ Role.node_operator)
      × (active_membership org to s' ≡ some t)
      × (t.role ≡ Role.owner)
      × (owners org s' ≡ owners org s)
      × ((o : Org) × (lookup org s'.orgs ≡ some o) × (o.owner_user ≡ to))
unfolding transfer_org_ownership get_org active_membership membership
transfer_org_ownership_lem org from to s s' h = elim (Bool-cases (may_transfer org from to s)) [
  | inr refused ↦ absurd (ground arith)
  | inl may ↦ elim (Option-cases (lookup org s.orgs)) [
    | inl missing ↦ absurd (ground arith)
    | inr (o, eo) ↦
        let (i, f, j, g, hf, hg, ef, eg, ne, ag, af) = may_transfer_rows org from to s may in
        let t = owner_seat_tier_for_plan o.plan in
        let (hf2, hg2, count) = transferred_rows org from to t i j f g s.members ne ef eg hf hg in
        let moved = lookup-adjust_self org (λ x. record x { owner_user = to }) s.orgs o eo in
        (
          demoted t f,
          promoted t g,
          ground arith,
          refl,
          ground arith,
          refl,
          ground arith,
          (record o { owner_user = to }, ground arith, refl),
        )
  ]
]
