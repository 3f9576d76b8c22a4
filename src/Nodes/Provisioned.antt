-- ===== src/Nodes/Provisioned.antt =====
-- What the provisioning of the plan Business leaves.
use erebrus_gateway.Base.{
  ℕ, zero, suc, ◌+◌, ◌-◌, ◌≤◌, ◌≡◌, Bool, none, some, [], ◌∷◌, ◌++◌, arith, if◌then◌else◌, length,
  refl, ◌∙◌,
}
use erebrus_gateway.Base.Session.{>>=-eq-ok, commit-eq-ok, ◌>>◌, get}
use erebrus_gateway.Base.Table.{Table, lookup, insert, sum, lookup-insert, sum-insert}
use erebrus_gateway.Base.Tx.{ok}
use erebrus_gateway.Model.Fleet.{Profile, OrgNode, SentinelLicense, LicenseStatus, LicenseSource}
use erebrus_gateway.Model.Org.{OrgEntitlement}
use erebrus_gateway.Nodes.Keeping.{licenses_of, Keeps, equip-Keeps, equip_all-Keeps}
use erebrus_gateway.Nodes.Provisioning.{
  is_managed_node, count_managed_nodes_by_profile, keys_where, list_managed_nodes_by_profile,
  managed_node, reserve_managed_node, is_license_of, ensure_sentinel_licenses, equip,
  reserve_sentinels, equip_all, provision_business_plan,
}
use erebrus_gateway.Nodes.Services.{upsert_org_node, create_sentinel_licenses}
use erebrus_gateway.Nodes.State.{Fleet, count, count-append}
use erebrus_gateway.Orgs.Plans.{get_org_entitlements}

-- No identifier that is still to be made is that of a node.
abbrev pub IsFresh : Fleet → Type 0
IsFresh s = (i : ℕ) → s.next ≤ i → lookup i s.org_nodes ≡ none

create_sentinel_licenses-counts :
    (org n : ℕ) (source : LicenseSource) (s t : Fleet)
    → create_sentinel_licenses org n source s ≡ ok (tt, t)
    → (t.org_nodes ≡ s.org_nodes)
      × (t.db ≡ s.db)
      × (s.next ≤ t.next)
      × (licenses_of org t ≡ licenses_of org s + n)
unfolding create_sentinel_licenses
create_sentinel_licenses-counts org zero source s t h =
    (ground arith, ground arith, ground arith, ground arith)
create_sentinel_licenses-counts org (suc n) source s t h =
    let new : SentinelLicense = record {
      org = org;
      node = none;
      status = LicenseStatus.available;
      source = source;
    } in
    let u : Fleet = record s { licenses = s.licenses ++ (s.next, new) ∷ []; next = suc s.next } in
    let rest : create_sentinel_licenses org n source u ≡ ok (tt, t) = h in
    let (nodes, db, next, more) = create_sentinel_licenses-counts org n source u t rest in
    let one = count-append (is_license_of org) s.next new s.licenses in
    (nodes, db, ground (arith, next), ground (arith, more, one))

-- What a reservation of managed nodes with a profile leaves: `n` nodes more.
record Reserves (org n : ℕ) (s t : Fleet) : Type 0 where
  more_nodes :
      count_managed_nodes_by_profile org Profile.sentinel t
      ≡ count_managed_nodes_by_profile org Profile.sentinel s + n
  same_count : licenses_of org t ≡ licenses_of org s
  still_fresh : IsFresh t

Keeps-Reserves : (org : ℕ) (s t : Fleet) → IsFresh s → Keeps org s t → Reserves org 0 s t
unfolding count_managed_nodes_by_profile
Keeps-Reserves org s t fresh k = record {
  more_nodes = rw k.same_nodes (ground arith);
  same_count = k.same_licenses;
  still_fresh = λ i h. rw k.same_nodes (fresh i (ground (arith, k.no_less)));
}

Reserves-trans :
    (org m n : ℕ) (s t u : Fleet)
    → Reserves org m s t
    → Reserves org n t u
    → Reserves org (m + n) s u
Reserves-trans org m n s t u a b = record {
  more_nodes = ground (arith, a.more_nodes, b.more_nodes);
  same_count = b.same_count ∙ a.same_count;
  still_fresh = b.still_fresh;
}

reserve-Reserves :
    (org node : ℕ) (s t : Fleet)
    → IsFresh s
    → reserve_managed_node org Profile.sentinel s ≡ (ok node, t)
    → Reserves org 1 s t
unfolding reserve_managed_node upsert_org_node count_managed_nodes_by_profile count
reserve-Reserves org node s t fresh h =
    let none_there = fresh s.next (ground arith) in
    let new = managed_node org Profile.sentinel in
    let e : t.org_nodes ≡ insert s.next new s.org_nodes = ground arith in
    let next : t.next ≡ suc s.next = ground arith in
    let weight : OrgNode → ℕ = λ v. if is_managed_node org Profile.sentinel v then 1 else 0 in
    record {
      more_nodes = rw e (ground (arith, sum-insert weight s.next new s.org_nodes none_there));
      same_count = ground arith;
      still_fresh =
          λ i later. rw e (ground (arith, next, lookup-insert s.next i new s.org_nodes, fresh i));
    }

reserve_sentinels-Reserves :
    (org n : ℕ) (s t : Fleet)
    → IsFresh s
    → reserve_sentinels org n s ≡ (ok tt, t)
    → Reserves org n s t
unfolding reserve_sentinels
reserve_sentinels-Reserves org zero s t fresh h = Keeps-Reserves org s t fresh (record {
  same_nodes = ground arith;
  same_licenses = ground arith;
  same_db = ground arith;
  no_less = ground arith;
})
reserve_sentinels-Reserves org (suc n) s t fresh h =
    let rest = λ (node : ℕ). equip org node >> reserve_sentinels org n in
    let (node, u, made, after) = >>=-eq-ok (reserve_managed_node org Profile.sentinel) rest s h in
    let (a, v, equipped, others) =
      >>=-eq-ok (equip org node) (λ _. reserve_sentinels org n) u after in
    let one = reserve-Reserves org node s u fresh made in
    let same = Keeps-Reserves org u v one.still_fresh (equip-Keeps org node u v equipped) in
    let total : suc n ≡ 1 + n = ground arith in
    rw total (
      Reserves-trans org 1 n s v t (Reserves-trans org 1 0 s u v one same)
        (reserve_sentinels-Reserves org n v t same.still_fresh others))

ensure-counts :
    (org : ℕ) (e : OrgEntitlement) (s t : Fleet)
    → lookup org s.db.entitlements ≡ some e
    → ensure_sentinel_licenses org s ≡ (ok tt, t)
    → (t.org_nodes ≡ s.org_nodes)
      × (s.next ≤ t.next)
      × (licenses_of org t ≡ licenses_of org s + (e.sentinel_licenses_included - licenses_of org s))
unfolding ensure_sentinel_licenses get_org_entitlements
ensure-counts org e s t plan h =
    let lack = e.sentinel_licenses_included - licenses_of org s in
    let made : create_sentinel_licenses org lack LicenseSource.included s ≡ ok (tt, t) =
      commit-eq-ok (create_sentinel_licenses org lack LicenseSource.included) s (ground arith) in
    let (nodes, db, next, more) =
      create_sentinel_licenses-counts org lack LicenseSource.included s t made in
    (nodes, next, more)

length-keys_where : (p : OrgNode → Bool) (t : Table OrgNode) → length (keys_where p t) ≡ count p t
unfolding keys_where count sum
length-keys_where p [] = refl
length-keys_where p ((k, n) ∷ t) = ground (arith, length-keys_where p t)

-- A provisioning of the plan Business that succeeds, where no identifier to be made is that of a node,
-- leaves the organization with three managed Sentinel nodes, or with those it had if it had more,
-- and with as many licences as its plan includes, or with those it had if it had more; so that,
-- repeated, it makes no further node and no further licence.
pub provision_business_plan_lem :
    (org : ℕ) (e : OrgEntitlement) (s t : Fleet)
    → lookup org s.db.entitlements ≡ some e
    → IsFresh s
    → provision_business_plan org s ≡ (ok tt, t)
    → (count_managed_nodes_by_profile org Profile.sentinel t
        ≡ count_managed_nodes_by_profile org Profile.sentinel s
          + (3 - count_managed_nodes_by_profile org Profile.sentinel s))
      × (licenses_of org t ≡ licenses_of org s + (e.sentinel_licenses_included - licenses_of org s))
      × IsFresh t
unfolding provision_business_plan list_managed_nodes_by_profile count_managed_nodes_by_profile
provision_business_plan_lem org e s t plan fresh h =
    let rest = λ (u : Fleet).
      let existing = list_managed_nodes_by_profile org Profile.sentinel u in
      reserve_sentinels org (3 - length existing) >> equip_all org existing in
    let (w, u, got, after) = >>=-eq-ok (ensure_sentinel_licenses org >> get) rest s h in
    let (a, x, ensured, same) = >>=-eq-ok (ensure_sentinel_licenses org) (λ _. get) s got in
    let existing = list_managed_nodes_by_profile org Profile.sentinel w in
    let (b, v, reserved, equipped) =
      >>=-eq-ok (reserve_sentinels org (3 - length existing)) (λ _. equip_all org existing) u
        after in
    let was : w ≡ x = ground arith in
    let is : u ≡ x = ground arith in
    let (nodes, next, licensed) = ensure-counts org e s x plan ensured in
    let fresh_u : IsFresh u = λ i later. rw (is, nodes) (fresh i (ground (arith, next))) in
    let r = reserve_sentinels-Reserves org (3 - length existing) u v fresh_u reserved in
    let k = Keeps-Reserves org v t r.still_fresh (equip_all-Keeps org existing v t equipped) in
    let counted = length-keys_where (is_managed_node org Profile.sentinel) w.org_nodes in
    (
      ground (arith, counted, k.more_nodes, r.more_nodes),
      ground (arith, k.same_count, r.same_count, licensed),
      k.still_fresh,
    )
