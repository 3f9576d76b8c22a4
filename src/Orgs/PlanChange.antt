-- ===== src/Orgs/PlanChange.antt =====
-- What a change of plan does to the members' tiers.
use Prim.Native.String.{String}
use erebrus_gateway.Base.{ℕ, ◌≡◌, ◌≢◌, true, some, arith, Option-cases, inl, inr}
use erebrus_gateway.Base.Table.{lookup, lookup-insert, lookup-adjust_self, lookup-adjust_ne}
use erebrus_gateway.Base.Tx.{ok, Result-cases}
use erebrus_gateway.Model.Org.{Plan, Role, MemberStatus, Org, Member}
use erebrus_gateway.Model.Db.{Db}
use erebrus_gateway.Drop.Tier.{plan_tier, effective_tier, granted, is_billing_active}
use erebrus_gateway.Orgs.Plans.{normalize_org_plan, set_entitlements, plan_entitlement_template}
use erebrus_gateway.Orgs.Lifecycle.{set_org_plan}

-- A plan that is set gives the organization the limits of the plan, and gives an active owner or
-- manager, while the billing is active, the tier of the plan.
pub set_org_plan-manager :
    (org : ℕ) (plan : String) (p : Plan) (s s' : Db) (o a : Org) (m : Member)
    → normalize_org_plan plan ≡ ok p
    → lookup org s.orgs ≡ some o
    → set_org_plan org plan s ≡ ok (a, s')
    → m.org ≡ org
    → m.status ≡ MemberStatus.active
    → m.role ≢ Role.member
    → is_billing_active o.billing_status ≡ true
    → (lookup org s'.entitlements ≡ some (plan_entitlement_template p))
      × (granted s'.orgs m.user m ≡ some (org, plan_tier p))
unfolding set_org_plan set_entitlements granted effective_tier
set_org_plan-manager org plan p s s' o a m parsed eo h e act r b =
    let here = lookup-adjust_self org (λ x. record x { plan = p }) s.orgs o eo in
    (
      ground (arith, lookup-insert org org (plan_entitlement_template p) s.entitlements),
      ground (arith, here),
    )

-- Whatever plan an organization moves to, what a plain member has from the seat stays as it was.
pub set_org_plan-member :
    (org : ℕ) (plan : String) (s s' : Db) (a : Org) (m : Member)
    → m.role ≡ Role.member
    → set_org_plan org plan s ≡ ok (a, s')
    → granted s'.orgs m.user m ≡ granted s.orgs m.user m
unfolding set_org_plan set_entitlements granted effective_tier
set_org_plan-member org plan s s' a m r h = elim (Result-cases (normalize_org_plan plan)) [
  | inr (x, refused) ↦ absurd (ground arith)
  | inl (p, parsed) ↦ elim (Option-cases (lookup org s.orgs)) [
    | inl missing ↦ absurd (ground arith)
    | inr (o, eo) ↦
        let f : Org → Org = λ x. record x { plan = p } in
        ground (arith, lookup-adjust_self org f s.orgs o eo, lookup-adjust_ne org m.org f s.orgs)
  ]
]
