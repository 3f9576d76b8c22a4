-- ===== src/Orgs/Samples.antt =====
-- Sample data of organizations: an owner, a manager and a member on the plan Pro.
use erebrus_gateway.Base.{ℕ, ◌≡◌, refl, false, none, [], ◌∷◌}
use erebrus_gateway.Base.Table.{lookup, find_row, update_first, sum}
use erebrus_gateway.Base.Text.{codes}
use erebrus_gateway.Base.Tx.{Result, ok, err}
use erebrus_gateway.Model.Org.{
  Plan, BillingStatus, VerificationStatus, Role, Tier, MemberStatus, InviteStatus, Org, Member,
  OrgInvite,
}
use erebrus_gateway.Model.Db.{Db}
use erebrus_gateway.Drop.Tier.{tier_among}
use erebrus_gateway.Orgs.Plans.{
  normalize_seat_tier, get_org_entitlements, plan_entitlement_template,
}
use erebrus_gateway.Orgs.Seats.{assign_seat, revoke_seat, get_org}

abbrev pub acme : Org
acme = record {
  name = codes "Acme";
  slug = codes "acme";
  plan = Plan.pro;
  billing_status = BillingStatus.active;
  verification_status = VerificationStatus.unverified;
  public_profile_enabled = false;
  owner_user = 7;
}

abbrev pub row : ℕ → Role → Tier → Member
row user r t = record {
  org = 1;
  user = user;
  role = r;
  seat_tier = t;
  status = MemberStatus.active;
}

abbrev pub to_eve : OrgInvite
to_eve = record {
  org = 1;
  email = codes "eve@x.org";
  role = Role.member;
  seat_tier = Tier.starter;
  status = InviteStatus.pending;
}

-- User 7 owns the organization, 8 manages it and 9 is a member without a seat.
abbrev pub db : Db
db = record {
  orgs = (1, acme) ∷ [];
  profiles = (1, codes "Acme") ∷ [];
  members =
      (11, row 7 Role.owner Tier.pro)
      ∷ (12, row 8 Role.node_operator Tier.pro)
      ∷ (13, row 9 Role.member Tier.free)
      ∷ [];
  invites = (51, to_eve) ∷ [];
  entitlements = (1, plan_entitlement_template Plan.pro) ∷ [];
  nodes = [];
  tier_limits = λ t. none;
  quotas = [];
  drop_nodes = [];
  uploads = [];
  files = [];
  pins = [];
}

abbrev pub left : {A : Type 0} → Db → Result (A × Db) → Db
left s (ok (a, s')) = s'
left s (err e) = s

abbrev pub with_rows : Member → Member → Member → Db
with_rows a b c = record db { members = (11, a) ∷ (12, b) ∷ (13, c) ∷ [] }

abbrev pub assigned_db : Db
assigned_db =
    with_rows (row 7 Role.owner Tier.pro) (row 8 Role.node_operator Tier.pro)
      (row 9 Role.member Tier.starter)

pub assign_assigned : assign_seat 1 9 "starter" db ≡ ok (tt, assigned_db)
unfolding assign_seat normalize_seat_tier tier_among get_org lookup get_org_entitlements find_row
    plan_entitlement_template sum update_first
assign_assigned = refl

abbrev pub revoked_db : Db
revoked_db =
    with_rows (row 7 Role.owner Tier.pro) (row 8 Role.member Tier.free)
      (row 9 Role.member Tier.starter)

pub revoke_revoked : revoke_seat 1 8 assigned_db ≡ ok (tt, revoked_db)
unfolding revoke_seat find_row update_first
revoke_revoked = refl
