-- ===== src/Vpn/PlanTier.antt =====
-- The VPN plan and the Drop tier of a user agree.
use Prim.Native.String.{String}
use erebrus_gateway.Base.{
  ℕ, suc, ltb, ap, ◌≡◌, refl, Option, none, some, [], ◌∷◌, arith, Bool-cases, Option-cases, inl,
  inr,
}
use erebrus_gateway.Base.Table.{Table, lookup}
use erebrus_gateway.Drop.Entitlement.{normalize_drop_tier-tier_text}
use erebrus_gateway.Drop.Tier.{
  tier_text, drop_tier_rank, effective_tier, plan_tier, granted, better, best_grant,
  normalize_drop_tier, resolve_drop_entitlement,
}
use erebrus_gateway.Model.Db.{Db}
use erebrus_gateway.Model.Org.{Plan, Role, Tier, Org, Member}
use erebrus_gateway.Vpn.Plan.{
  plan_text, vpn_tier, vpn_row, array_position, vpn_order, higher, best_plan, user_org_vpn_plan,
}

-- The text of what a row gives.
abbrev text_of : Option (ℕ × Tier) → Option String
text_of none = none
text_of (some g) = some (tier_text g.1)

plan_text_lem : (p : Plan) → plan_text p ≡ tier_text (plan_tier p)
unfolding plan_text plan_tier tier_text
plan_text_lem Plan.basic = refl
plan_text_lem Plan.starter = refl
plan_text_lem Plan.pro = refl
plan_text_lem Plan.business = refl
plan_text_lem Plan.enterprise = refl

vpn_tier-effective_tier :
    (r : Role) (t : Tier) (p : Plan) → vpn_tier r (tier_text t) p ≡ tier_text (effective_tier r t p)
unfolding vpn_tier effective_tier tier_text
vpn_tier-effective_tier Role.owner t p = plan_text_lem p
vpn_tier-effective_tier Role.node_operator t p = plan_text_lem p
vpn_tier-effective_tier Role.member Tier.free p = refl
vpn_tier-effective_tier Role.member Tier.starter p = refl
vpn_tier-effective_tier Role.member Tier.pro p = refl
vpn_tier-effective_tier Role.member Tier.business p = refl
vpn_tier-effective_tier Role.member Tier.enterprise p = refl

vpn_order-tier_text : (t : Tier) → vpn_order (tier_text t) ≡ suc (drop_tier_rank t)
unfolding vpn_order array_position tier_text drop_tier_rank
vpn_order-tier_text Tier.free = refl
vpn_order-tier_text Tier.starter = refl
vpn_order-tier_text Tier.pro = refl
vpn_order-tier_text Tier.business = refl
vpn_order-tier_text Tier.enterprise = refl

vpn_row-granted :
    (orgs : Table Org) (user : ℕ) (m : Member) → vpn_row orgs user m ≡ text_of (granted orgs user m)
unfolding vpn_row granted
vpn_row-granted orgs user m = elim (Option-cases (lookup m.org orgs)) [
  | inl gone ↦ ground arith
  | inr (o, here) ↦ ground (arith, vpn_tier-effective_tier m.role m.seat_tier o.plan)
]

ltb-suc : (m n : ℕ) → ltb (suc m) (suc n) ≡ ltb m n
ltb-suc m n = ground arith

higher-better : (a b : Option (ℕ × Tier)) → higher (text_of a) (text_of b) ≡ text_of (better a b)
unfolding higher better
higher-better none b = refl
higher-better (some a) none = refl
higher-better (some a) (some b) =
    let x = vpn_order-tier_text a.1 in
    let y = vpn_order-tier_text b.1 in
    elim (Bool-cases (ltb (drop_tier_rank a.1) (drop_tier_rank b.1))) [
      | inl less ↦ rw (x, y, ltb-suc (drop_tier_rank a.1) (drop_tier_rank b.1), less) refl
      | inr more ↦ rw (x, y, ltb-suc (drop_tier_rank a.1) (drop_tier_rank b.1), more) refl
    ]

best_plan-best_grant :
    (orgs : Table Org) (user : ℕ) (ms : Table Member)
    → best_plan orgs user ms ≡ text_of (best_grant orgs user ms)
unfolding best_plan best_grant
best_plan-best_grant orgs user [] = refl
best_plan-best_grant orgs user ((i, m) ∷ ms) =
    rw (vpn_row-granted orgs user m, best_plan-best_grant orgs user ms)
      (higher-better (granted orgs user m) (best_grant orgs user ms))

-- The query of UserOrgVPNPlan and that of ResolveDropEntitlement, which are written apart, agree where
-- every seat is one of the five tiers: the Drop tier of a user is the one that the text of the VPN plan
-- names, and Free for a user without a VPN plan.
pub vpn_plan-drop_tier :
    (db : Db) (user : ℕ)
    → (resolve_drop_entitlement db user).tier
      ≡ (elim (user_org_vpn_plan db user) [ none ↦ Tier.free | some t ↦ normalize_drop_tier t ])
unfolding resolve_drop_entitlement user_org_vpn_plan
vpn_plan-drop_tier db user =
    let same = best_plan-best_grant db.orgs user db.members in
    elim (Option-cases (best_grant db.orgs user db.members)) [
      | inl gone ↦ rw (same, gone) refl
      | inr (g, here) ↦
          rw (same, here)
            (ap (λ t. normalize_drop_tier (tier_text t)) (normalize_drop_tier-tier_text g.1))
    ]
