-- ===== src/Vpn/Plan.antt =====
-- The VPN plan of a user (UserOrgVPNPlan in internal/store/orgs.go): a query of its own over the
-- memberships, which gives the text of a tier. The seat of a member is one of the five texts that the
-- gateway writes.
use Prim.Native.String.{String}
use text.Mathlib.Text.{◌==◌ as str_eq}
use erebrus_gateway.Base.{ℕ, suc, ◌&&◌, Option, none, some, List, [], ◌∷◌, ltb, ◌==◌, if◌then◌else◌}
use erebrus_gateway.Base.Table.{Table, lookup}
use erebrus_gateway.Drop.Tier.{tier_text, is_active_member, is_billing_active}
use erebrus_gateway.Model.Db.{Db}
use erebrus_gateway.Model.Org.{Plan, Role, Org, Member}

-- CASE o.plan ... ELSE 'free' END
unfoldable pub plan_text : Plan → String
plan_text Plan.basic = "free"
plan_text Plan.starter = "starter"
plan_text Plan.pro = "pro"
plan_text Plan.business = "business"
plan_text Plan.enterprise = "enterprise"

-- COALESCE(NULLIF(seat, ''), 'free')
abbrev pub seat_or_free : String → String
seat_or_free seat = if str_eq seat "" then "free" else seat

-- effective_tier
unfoldable pub vpn_tier : Role → String → Plan → String
unfolding plan_text
vpn_tier Role.owner seat plan = plan_text plan
vpn_tier Role.node_operator seat plan = plan_text plan
vpn_tier Role.member seat plan = seat_or_free seat

-- What the join gives for a membership.
unfoldable pub vpn_row : Table Org → ℕ → Member → Option String
unfolding vpn_tier tier_text
vpn_row orgs user m = elim (lookup m.org orgs) [
  | none ↦ none
  | some o ↦
      if m.user == user && is_active_member m.status && is_billing_active o.billing_status
      then some (vpn_tier m.role (tier_text m.seat_tier) o.plan)
      else none
]

-- array_position, from 1; a text that is not there has 0, which is last in DESC NULLS LAST.
unfoldable pub array_position : ℕ → List String → String → ℕ
array_position i [] s = 0
array_position i (t ∷ ts) s =
    let rest = array_position (suc i) ts s in if str_eq t s then i else rest

unfoldable pub vpn_order : String → ℕ
unfolding array_position
vpn_order = array_position 1 ("free" ∷ "starter" ∷ "pro" ∷ "business" ∷ "enterprise" ∷ [])

-- The first of two rows in the order of the query.
unfoldable pub higher : Option String → Option String → Option String
higher none b = b
higher (some a) none = some a
higher (some a) (some b) = if ltb (vpn_order a) (vpn_order b) then some b else some a

unfoldable pub best_plan : Table Org → ℕ → Table Member → Option String
unfolding vpn_row higher
best_plan orgs user [] = none
best_plan orgs user ((i, m) ∷ ms) = higher (vpn_row orgs user m) (best_plan orgs user ms)

-- UserOrgVPNPlan: `none` is the empty text, of a user with no active organization.
unfoldable pub user_org_vpn_plan : Db → ℕ → Option String
unfolding best_plan
user_org_vpn_plan db user = best_plan db.orgs user db.members
