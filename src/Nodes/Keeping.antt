-- ===== src/Nodes/Keeping.antt =====
-- The steps of provisioning that make no node and no licence.
use erebrus_gateway.Base.{
  ℕ, ◌≤◌, ◌≡◌, Bool, Option, none, some, List, [], ◌∷◌, arith, ◌==◌, Bool-cases, Option-cases, inl,
  inr, refl, ◌∙◌,
}
use erebrus_gateway.Base.Session.{>>=-eq-ok, commit-eq-ok, commit, ◌>>=◌}
use erebrus_gateway.Base.Table.{Table, lookup, sum, find_row, update_first}
use erebrus_gateway.Base.Tx.{ok}
use erebrus_gateway.Model.Fleet.{OrgNodeService, SentinelLicense, LicenseStatus, ServiceType}
use erebrus_gateway.Nodes.Provisioning.{
  attach_vpn_service, attach_sentinel_service, is_license_of, equip, equip_all,
}
use erebrus_gateway.Nodes.Services.{
  get_org_node, put_service, is_service, new_service, renewed, attach_service_to_node,
  attach_sentinel_license, is_free_license, is_attached,
}
use erebrus_gateway.Nodes.State.{Fleet, count}

-- The licences of an organization, of whatever status.
abbrev pub licenses_of : ℕ → Fleet → ℕ
licenses_of org s = count (is_license_of org) s.licenses

-- A step that makes no node and no licence.
pub record Keeps (org : ℕ) (s t : Fleet) : Type 0 where
  pub same_nodes : t.org_nodes ≡ s.org_nodes
  pub same_licenses : licenses_of org t ≡ licenses_of org s
  pub same_db : t.db ≡ s.db
  pub no_less : s.next ≤ t.next

pub Keeps-trans : (org : ℕ) (s t u : Fleet) → Keeps org s t → Keeps org t u → Keeps org s u
Keeps-trans org s t u k l = record {
  same_nodes = l.same_nodes ∙ k.same_nodes;
  same_licenses = l.same_licenses ∙ k.same_licenses;
  same_db = l.same_db ∙ k.same_db;
  no_less = ground (arith, k.no_less, l.no_less);
}

put_service-Keeps :
    (org : ℕ) (v : OrgNodeService) (f : OrgNodeService → OrgNodeService) (s t : Fleet)
    → put_service v f s ≡ ok (tt, t)
    → Keeps org s t
unfolding put_service
put_service-Keeps org v f s t h =
    elim (Option-cases (find_row (is_service v.node v.service_type) s.services)) [
      | inl new ↦ record {
        same_nodes = ground arith;
        same_licenses = ground arith;
        same_db = ground arith;
        no_less = ground arith;
      }
      | inr (old, found) ↦ record {
        same_nodes = ground arith;
        same_licenses = ground arith;
        same_db = ground arith;
        no_less = ground arith;
      }
    ]

attach-Keeps :
    (org node : ℕ) (type : ServiceType) (license : Option ℕ) (s t : Fleet)
    → attach_service_to_node org node type license s ≡ ok (tt, t)
    → Keeps org s t
unfolding attach_service_to_node get_org_node
attach-Keeps org node type license s t h = elim (Option-cases (lookup node s.org_nodes)) [
  | inl gone ↦ absurd (ground arith)
  | inr (n, here) ↦ elim (Bool-cases (n.org == org)) [
    | inr other ↦ absurd (ground arith)
    | inl own ↦
        let put : put_service (new_service org node type license) (renewed license) s ≡ ok (tt, t) =
          ground arith in
        put_service-Keeps org (new_service org node type license) (renewed license) s t put
  ]
]

count-update_first :
    {V : Type 0} (p q : V → Bool) (f : V → V) (t : Table V)
    → ((v : V) → p (f v) ≡ p v)
    → count p (update_first q f t) ≡ count p t
unfolding count sum update_first
count-update_first p q f [] same = refl
count-update_first p q f ((k, v) ∷ t) same = ground (arith, same v, count-update_first p q f t same)

license-Keeps :
    (org node l : ℕ) (s t : Fleet) → attach_sentinel_license org node s ≡ ok (l, t) → Keeps org s t
unfolding attach_sentinel_license
license-Keeps org node l s t h = elim (Option-cases (find_row (is_free_license org) s.licenses)) [
  | inl gone ↦ absurd (ground arith)
  | inr (x, found) ↦
      let f : SentinelLicense → SentinelLicense =
        λ y. record y { node = some node; status = LicenseStatus.attached } in
      let e : t.licenses ≡ update_first (is_free_license org) f s.licenses = ground arith in
      record {
        same_nodes = ground arith;
        same_licenses =
            rw e (
              count-update_first (is_license_of org) (is_free_license org) f s.licenses
                (λ v. refl));
        same_db = ground arith;
        no_less = ground arith;
      }
]

sentinel-Keeps :
    (org node : ℕ) (s t : Fleet) → attach_sentinel_service org node s ≡ (ok tt, t) → Keeps org s t
unfolding attach_sentinel_service
sentinel-Keeps org node s t h =
    elim (Option-cases (find_row (is_attached org node ServiceType.erebrus_firewall) s.services)) [
      | inr (v, found) ↦ record {
        same_nodes = ground arith;
        same_licenses = ground arith;
        same_db = ground arith;
        no_less = ground arith;
      }
      | inl missing ↦
          let type = ServiceType.erebrus_firewall in
          let rest = λ (l : ℕ). commit (attach_service_to_node org node type (some l)) in
          let both : (commit (attach_sentinel_license org node) >>= rest) s ≡ (ok tt, t) =
            ground arith in
          let (l, u, licensed, attached) =
            >>=-eq-ok (commit (attach_sentinel_license org node)) rest s both in
          Keeps-trans org s u t
            (license-Keeps org node l s u
              (commit-eq-ok (attach_sentinel_license org node) s licensed))
            (attach-Keeps org node type (some l) u t
              (commit-eq-ok (attach_service_to_node org node type (some l)) u attached))
    ]

-- The services of a managed node keep the nodes and the number of licences.
pub equip-Keeps : (org node : ℕ) (s t : Fleet) → equip org node s ≡ (ok tt, t) → Keeps org s t
unfolding equip attach_vpn_service
equip-Keeps org node s t h =
    let vpn = attach_service_to_node org node ServiceType.vpn none in
    let (a, u, first, second) =
      >>=-eq-ok (commit vpn) (λ _. attach_sentinel_service org node) s h in
    Keeps-trans org s u t
      (attach-Keeps org node ServiceType.vpn none s u (commit-eq-ok vpn s first))
      (sentinel-Keeps org node u t second)

pub equip_all-Keeps :
    (org : ℕ) (nodes : List ℕ) (s t : Fleet) → equip_all org nodes s ≡ (ok tt, t) → Keeps org s t
unfolding equip_all
equip_all-Keeps org [] s t h = record {
  same_nodes = ground arith;
  same_licenses = ground arith;
  same_db = ground arith;
  no_less = ground arith;
}
equip_all-Keeps org (node ∷ nodes) s t h =
    let (a, u, first, second) = >>=-eq-ok (equip org node) (λ _. equip_all org nodes) s h in
    Keeps-trans org s u t (equip-Keeps org node s u first) (equip_all-Keeps org nodes u t second)
