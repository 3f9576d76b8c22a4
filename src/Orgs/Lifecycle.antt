-- ===== src/Orgs/Lifecycle.antt =====
-- Organizations come and go and change their plan (internal/store/orgs.go).
use Prim.Native.String.{String}
use erebrus_gateway.Base.{ℕ, Bool, true, false, not, ◌&&◌, Option, none, some, ◌==◌, if◌then◌else◌}
use erebrus_gateway.Base.Table.{
  Table, lookup, insert, adjust, update_first, update_where, delete_where,
}
use erebrus_gateway.Base.Text.{Text, codes, text_eq, trim_space}
use erebrus_gateway.Base.Tx.{
  not_found, refused, Result, ok, err, Tx, ◌>>=◌, ◌>>◌, pure, get, modify, guard, from_option,
  from_result,
}
use erebrus_gateway.Model.Org.{
  Plan, BillingStatus, VerificationStatus, Role, MemberStatus, Org, Member,
}
use erebrus_gateway.Model.Db.{Db}
use erebrus_gateway.Orgs.Plans.{
  normalize_org_plan, owner_seat_tier_for_plan, set_entitlements, is_active,
}
use erebrus_gateway.Orgs.Seats.{is_member_of}
use erebrus_gateway.Orgs.Members.{is_blank}
use erebrus_gateway.Orgs.Slug.{resolve_org_slug}

-- createOrg, where the organization and its owner's membership would have the identifiers `org` and
-- `member`
unfoldable pub create_org : ℕ → Text → Text → Plan → (ℕ → Text) → ℕ → ℕ → Tx Db Org
unfolding resolve_org_slug set_entitlements owner_seat_tier_for_plan trim_space
create_org owner name0 slug0 plan suffix org member = do
  let name = trim_space name0
  guard (not (is_blank name)) refused
  db ← get
  slug ← from_result (resolve_org_slug slug0 name none suffix db.orgs)
  let o : Org = record {
    name = name;
    slug = slug;
    plan = plan;
    billing_status = BillingStatus.active;
    verification_status = VerificationStatus.unverified;
    public_profile_enabled = false;
    owner_user = owner;
  }
  modify (λ s. record s { orgs = insert org o s.orgs })
  modify (λ s. record s { profiles = insert org name s.profiles })
  set_entitlements org plan
  modify (λ s. record s {
    members =
        insert member
          (record {
            org = org;
            user = owner;
            role = Role.owner;
            seat_tier = owner_seat_tier_for_plan plan;
            status = MemberStatus.active;
          })
          s.members;
  })
  pure o

-- The owner's row in SetOrgPlan.
abbrev pub is_owner_row : ℕ → ℕ → Member → Bool
is_owner_row org owner m = is_member_of org owner m && is_active m.status

-- SetOrgPlan: the limits are those of the plan and the owner has its seat. The seats of the other
-- members stay as they are.
unfoldable pub set_org_plan : ℕ → String → Tx Db Org
unfolding normalize_org_plan set_entitlements owner_seat_tier_for_plan
set_org_plan org plan = do
  p ← from_result (normalize_org_plan plan)
  db ← get
  o ← from_option (lookup org db.orgs) not_found
  modify (λ s. record s { orgs = adjust org (λ x. record x { plan = p }) s.orgs })
  set_entitlements org p
  modify (λ s. record s {
    members =
        update_first (is_owner_row org o.owner_user)
          (λ m. record m { seat_tier = owner_seat_tier_for_plan p }) s.members;
  })
  pure (record o { plan = p })

abbrev is_org : ℕ → Option ℕ → Bool
is_org org none = false
is_org org (some o) = o == org

abbrev or_text : Option Text → Text → Text
or_text none old = old
or_text (some t) old = trim_space t

abbrev or_flag : Option Bool → Bool → Bool
or_flag none old = old
or_flag (some b) old = b

-- The slug of UpdateOrg: that which is there is kept as it is.
unfoldable pub updated_slug : ℕ → Option Text → Text → Org → (ℕ → Text) → Table Org → Result Text
unfolding resolve_org_slug trim_space
updated_slug org none name o suffix orgs = ok o.slug
updated_slug org (some t) name o suffix orgs =
    if text_eq (trim_space t) o.slug
    then ok o.slug
    else resolve_org_slug (trim_space t) name (some org) suffix orgs

-- UpdateOrg, whose callers leave the billing status.
unfoldable pub update_org :
    ℕ → Option Text → Option Text → Option Bool → (ℕ → Text) → Tx Db (Unit {0})
unfolding trim_space updated_slug
update_org org name slug public suffix = do
  db ← get
  o ← from_option (lookup org db.orgs) not_found
  let new_name = or_text name o.name
  t ← from_result (updated_slug org slug new_name o suffix db.orgs)
  modify (λ s. record s {
    orgs =
        adjust org
          (λ x. record x {
            name = new_name;
            slug = t;
            public_profile_enabled = or_flag public o.public_profile_enabled;
          })
          s.orgs;
  })

-- ON DELETE SET NULL
abbrev forget : ℕ → Option ℕ → Option ℕ
forget org o = if is_org org o then none else o

-- DeleteOrg with its cascade: the rows of the organization go, and its nodes, uploads and files no
-- longer name it.
unfoldable pub delete_org : ℕ → Tx Db (Unit {0})
delete_org org = do
  db ← get
  o ← from_option (lookup org db.orgs) not_found
  modify (λ s. record s {
    orgs = delete_where (λ i v. i == org) s.orgs;
    profiles = delete_where (λ i v. i == org) s.profiles;
    members = delete_where (λ i m. m.org == org) s.members;
    invites = delete_where (λ i v. v.org == org) s.invites;
    entitlements = delete_where (λ i v. i == org) s.entitlements;
    nodes = update_where (λ n. is_org org n.org) (λ n. record n { org = none }) s.nodes;
    uploads =
        update_where (λ u. true)
          (λ u. record u { org = forget org u.org; entitlement_org = forget org u.entitlement_org })
          s.uploads;
    files =
        update_where (λ f. true)
          (λ f. record f { org = forget org f.org; entitlement_org = forget org f.entitlement_org })
          s.files;
  })

-- SetOrgVerificationStatus
unfoldable pub verification_status_of : Text → Result VerificationStatus
unfolding trim_space
verification_status_of t =
    if text_eq (trim_space t) (codes "verified")
    then ok VerificationStatus.verified
    else if text_eq (trim_space t) (codes "unverified")
    then ok VerificationStatus.unverified
    else if text_eq (trim_space t) (codes "rejected")
    then ok VerificationStatus.rejected
    else err refused

unfoldable pub set_org_verification_status : ℕ → Text → Tx Db (Unit {0})
unfolding verification_status_of
set_org_verification_status org status = do
  v ← from_result (verification_status_of status)
  db ← get
  o ← from_option (lookup org db.orgs) not_found
  modify (λ s. record s { orgs = adjust org (λ x. record x { verification_status = v }) s.orgs })
