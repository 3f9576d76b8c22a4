-- ===== src/Drop/Tier.antt =====
-- The Drop tiers and the entitlement of a user (internal/store/drop.go).
use Prim.Native.String.{String}
use text.Mathlib.Text.{◌==◌ as str_eq}
use erebrus_gateway.Base.{
  ℕ, Bool, true, false, ◌&&◌, Option, none, some, List, [], ◌∷◌, ltb, ◌==◌, if◌then◌else◌,
}
use erebrus_gateway.Base.Table.{Table, lookup}
use erebrus_gateway.Model.Org.{Plan, BillingStatus, Role, Tier, MemberStatus, Org, Member}
use erebrus_gateway.Model.Drop.{DropTierLimit}
use erebrus_gateway.Model.Db.{Db}

-- The position in dropTierOrder.
unfoldable pub drop_tier_rank : Tier → ℕ
drop_tier_rank Tier.free = 0
drop_tier_rank Tier.starter = 1
drop_tier_rank Tier.pro = 2
drop_tier_rank Tier.business = 3
drop_tier_rank Tier.enterprise = 4

-- The text of a tier, as the column holds it.
unfoldable pub tier_text : Tier → String
tier_text Tier.free = "free"
tier_text Tier.starter = "starter"
tier_text Tier.pro = "pro"
tier_text Tier.business = "business"
tier_text Tier.enterprise = "enterprise"

-- The tier that a text names: the loop of dropTierRank over dropTierOrder.
unfoldable pub tier_among : List Tier → String → Option Tier
unfolding tier_text
tier_among [] s = none
tier_among (t ∷ ts) s = if str_eq (tier_text t) s then some t else tier_among ts s

abbrev pub drop_tier_order : List Tier
drop_tier_order = Tier.free ∷ Tier.starter ∷ Tier.pro ∷ Tier.business ∷ Tier.enterprise ∷ []

-- NormalizeDropTier: an unknown or empty text is Free.
unfoldable pub normalize_drop_tier : String → Tier
unfolding tier_text tier_among
normalize_drop_tier s = elim (tier_among drop_tier_order s) [ none ↦ Tier.free | some t ↦ t ]

-- DefaultDropQuotaBytes
unfoldable pub default_drop_quota_bytes : Tier → ℕ
default_drop_quota_bytes Tier.free = 500_000_000
default_drop_quota_bytes Tier.starter = 1_000_000_000
default_drop_quota_bytes Tier.pro = 5_000_000_000
default_drop_quota_bytes Tier.business = 10_000_000_000
default_drop_quota_bytes Tier.enterprise = 10_000_000_000

abbrev pub drop_max_file_bytes : ℕ
drop_max_file_bytes = 1_000_000_000

-- GetDropTierLimit: the row of the tier, or the built-in policy.
unfoldable pub get_drop_tier_limit : Db → Tier → DropTierLimit
unfolding default_drop_quota_bytes
get_drop_tier_limit db t = elim (db.tier_limits t) [
  | some l ↦ l
  | none ↦ record {
    public_storage_bytes = default_drop_quota_bytes t;
    max_file_bytes = drop_max_file_bytes;
  }
]

-- The tier that the plan of an organization gives to its owner and its node operators.
unfoldable pub plan_tier : Plan → Tier
plan_tier Plan.basic = Tier.free
plan_tier Plan.starter = Tier.starter
plan_tier Plan.pro = Tier.pro
plan_tier Plan.business = Tier.business
plan_tier Plan.enterprise = Tier.enterprise

-- The `CASE` of the query: owners and operators have the plan's tier, members their seat.
unfoldable pub effective_tier : Role → Tier → Plan → Tier
effective_tier Role.owner seat plan = plan_tier plan
effective_tier Role.node_operator seat plan = plan_tier plan
effective_tier Role.member seat plan = seat

abbrev pub is_active_member : MemberStatus → Bool
is_active_member MemberStatus.active = true
is_active_member _ = false

abbrev pub is_billing_active : BillingStatus → Bool
is_billing_active BillingStatus.active = true
is_billing_active _ = false

-- What a membership row gives to a user: the organization and the tier, if the member and the
-- billing are active. A row whose organization is missing drops out of the join.
unfoldable pub granted : Table Org → ℕ → Member → Option (ℕ × Tier)
unfolding effective_tier
granted orgs user m =
    if m.user == user && is_active_member m.status
    then elim (lookup m.org orgs) [
      | none ↦ none
      | some o ↦
          if is_billing_active o.billing_status
          then some (m.org, effective_tier m.role m.seat_tier o.plan)
          else none
    ]
    else none

-- The better of two rows: ORDER BY array_position(...) DESC LIMIT 1.
unfoldable pub better : Option (ℕ × Tier) → Option (ℕ × Tier) → Option (ℕ × Tier)
unfolding drop_tier_rank
better none b = b
better (some a) none = some a
better (some a) (some b) = if ltb (drop_tier_rank a.1) (drop_tier_rank b.1) then some b else some a

unfoldable pub best_grant : Table Org → ℕ → Table Member → Option (ℕ × Tier)
unfolding granted better
best_grant orgs user [] = none
best_grant orgs user ((i, m) ∷ ms) = better (granted orgs user m) (best_grant orgs user ms)

pub record DropEntitlement : Type 0 where
  pub tier : Tier
  pub seat_tier : Tier
  pub entitlement_org : Option ℕ
  pub public_storage_bytes : ℕ
  pub max_file_bytes : ℕ

-- ResolveDropEntitlement
unfoldable pub resolve_drop_entitlement : Db → ℕ → DropEntitlement
unfolding best_grant get_drop_tier_limit normalize_drop_tier
resolve_drop_entitlement db user =
    let best = best_grant db.orgs user db.members in
    let seat : Tier = elim best [
      | none ↦ Tier.free
      | some g ↦ normalize_drop_tier (tier_text g.1)
    ] in
    let tier = normalize_drop_tier (tier_text seat) in
    let limit = get_drop_tier_limit db tier in
    record {
      tier = tier;
      seat_tier = seat;
      entitlement_org = elim best [ none ↦ none | some g ↦ some g.0 ];
      public_storage_bytes = limit.public_storage_bytes;
      max_file_bytes = limit.max_file_bytes;
    }
