-- ===== src/Nodes/ServiceLimits.antt =====
-- The services that an organization attaches stay within its plan.
use erebrus_gateway.Base.{
  ℕ, suc, ◌≤◌, ◌<◌, ◌≡◌, true, Option, none, some, ◌∷◌, arith, ◌==◌, Bool-cases, Option-cases, inl,
  inr,
}
use erebrus_gateway.Base.Table.{lookup, find_row, update_first}
use erebrus_gateway.Base.Tx.{ok, >>=-eq-ok}
use erebrus_gateway.Model.Fleet.{OrgNodeService, ServiceType}
use erebrus_gateway.Model.Org.{OrgEntitlement}
use erebrus_gateway.Nodes.Services.{
  get_org_node, put_service, new_service, renewed, is_service, attach_service_to_node,
  is_shield_in_use, count_shield_instances_used, within_plan, validate_service_entitlement,
  attach_validated,
}
use erebrus_gateway.Nodes.State.{Fleet, count-cons_le, count-update_first_le}
use erebrus_gateway.Orgs.Plans.{get_org_entitlements}

-- A service that is put adds one Shield instance at most, and changes no plan.
put_service-shields :
    (org : ℕ) (v : OrgNodeService) (f : OrgNodeService → OrgNodeService) (s s' : Fleet)
    → put_service v f s ≡ ok (tt, s')
    → count_shield_instances_used org s' ≤ suc (count_shield_instances_used org s)
unfolding put_service count_shield_instances_used
put_service-shields org v f s s' h =
    elim (Option-cases (find_row (is_service v.node v.service_type) s.services)) [
      | inl new ↦
          let e : s'.services ≡ (s.next, v) ∷ s.services = ground arith in
          rw e (count-cons_le (is_shield_in_use org) s.next v s.services)
      | inr (old, found) ↦
          let e : s'.services ≡ update_first (is_service v.node v.service_type) f s.services =
            ground arith in
          rw e (
            count-update_first_le (is_shield_in_use org) (is_service v.node v.service_type) f
              s.services)
    ]

attach-shields :
    (org node : ℕ) (type : ServiceType) (license : Option ℕ) (s s' : Fleet)
    → attach_service_to_node org node type license s ≡ ok (tt, s')
    → count_shield_instances_used org s' ≤ suc (count_shield_instances_used org s)
unfolding attach_service_to_node get_org_node
attach-shields org node type license s s' h = elim (Option-cases (lookup node s.org_nodes)) [
  | inl gone ↦ absurd (ground arith)
  | inr (n, here) ↦ elim (Bool-cases (n.org == org)) [
    | inr other ↦ absurd (ground arith)
    | inl own ↦
        let put : put_service (new_service org node type license) (renewed license) s
            ≡ ok (tt, s') =
          ground arith in
        put_service-shields org (new_service org node type license) (renewed license) s s' put
  ]
]

-- A validation that succeeds changes nothing and has found room in the plan.
validate-room :
    (org node : ℕ) (type : ServiceType) (e : OrgEntitlement) (s t : Fleet)
    → lookup org s.db.entitlements ≡ some e
    → validate_service_entitlement org node type s ≡ ok (tt, t)
    → (t ≡ s) × (within_plan org type e s ≡ true)
unfolding validate_service_entitlement get_org_node get_org_entitlements
validate-room org node type e s t plan h = elim (Option-cases (lookup node s.org_nodes)) [
  | inl gone ↦ absurd (ground arith)
  | inr (n, here) ↦ elim (Bool-cases (within_plan org type e s)) [
    | inr full ↦ absurd (ground arith)
    | inl room ↦ (ground arith, room)
  ]
]

shield-room :
    (org : ℕ) (e : OrgEntitlement) (s : Fleet)
    → within_plan org ServiceType.community_firewall e s ≡ true
    → count_shield_instances_used org s < e.shield_instances_included
unfolding within_plan
shield-room org e s h = ground arith

-- A Shield service that is attached by the handler's steps, with success, leaves the organization
-- with at most as many Shield instances in use as its plan includes.
pub attach_validated_within_plan :
    (org node : ℕ) (e : OrgEntitlement) (s s' : Fleet)
    → lookup org s.db.entitlements ≡ some e
    → attach_validated org node ServiceType.community_firewall s ≡ ok (tt, s')
    → count_shield_instances_used org s' ≤ e.shield_instances_included
unfolding attach_validated
attach_validated_within_plan org node e s s' plan h =
    let type = ServiceType.community_firewall in
    let (u, t, checked, attached) =
      >>=-eq-ok (validate_service_entitlement org node type)
        (λ _. attach_service_to_node org node type none) s h in
    let (same, room) = validate-room org node type e s t plan checked in
    let more = attach-shields org node type none t s' attached in
    ground (arith, shield-room org e s, more, same, room)
