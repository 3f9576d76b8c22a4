-- ===== src/Orgs/SlugShape.antt =====
-- What a slug is like: it is free, it is not empty, and all of its characters are lower-case
-- letters, digits and dashes.
use erebrus_gateway.Base.{
  ℕ, zero, suc, ◌≡◌, refl, Bool, true, false, ◌&&◌, ◌||◌, Option, none, some, [], ◌∷◌, ◌++◌, arith,
  ◌==◌, if◌then◌else◌, Bool-cases, Option-cases, inl, inr,
}
use erebrus_gateway.Base.Table.{Table, lookup, find_row, find_row-insert, lookup-insert}
use erebrus_gateway.Base.Text.{Text, codes, to_lower, trim_space}
use erebrus_gateway.Base.Tx.{ok, Result-cases}
use erebrus_gateway.Model.Org.{Plan, Role, MemberStatus, Org, Member}
use erebrus_gateway.Model.Db.{Db}
use erebrus_gateway.Orgs.Plans.{
  set_entitlements, plan_entitlement_template, owner_seat_tier_for_plan,
}
use erebrus_gateway.Orgs.Seats.{is_member_of, membership, active_membership}
use erebrus_gateway.Orgs.Members.{is_blank}
use erebrus_gateway.Orgs.Slug.{
  is_slug_char, sanitize, trim_left_dash, trim_right_dash, slugify, base_slug, slug_taken,
  try_slugs, resolve_org_slug,
}
use erebrus_gateway.Orgs.Lifecycle.{create_org}

abbrev pub slug_text : Text → Bool
slug_text [] = true
slug_text (c ∷ cs) = (is_slug_char c || c == b'-') && slug_text cs

sanitize-slug_text : (b : Bool) (t : Text) → slug_text (sanitize b t) ≡ true
unfolding sanitize
sanitize-slug_text b [] = refl
sanitize-slug_text b (c ∷ cs) =
    ground (arith, sanitize-slug_text false cs, sanitize-slug_text true cs)

trim_left_dash-slug_text : (t : Text) → slug_text t ≡ true → slug_text (trim_left_dash t) ≡ true
unfolding trim_left_dash
trim_left_dash-slug_text [] h = refl
trim_left_dash-slug_text (c ∷ cs) h = ground (arith, trim_left_dash-slug_text cs)

trim_right_dash-slug_text : (t : Text) → slug_text t ≡ true → slug_text (trim_right_dash t) ≡ true
unfolding trim_right_dash
trim_right_dash-slug_text [] h = refl
trim_right_dash-slug_text (c ∷ cs) h = ground (arith, trim_right_dash-slug_text cs)

slugify-slug_text : (t : Text) → slug_text (slugify t) ≡ true
unfolding slugify
slugify-slug_text t =
    trim_right_dash-slug_text (trim_left_dash (sanitize false (to_lower t))) (
      trim_left_dash-slug_text (sanitize false (to_lower t))
        (sanitize-slug_text false (to_lower t)))

base_slug-slug_text :
    (requested name : Text)
    → (slug_text (base_slug requested name) ≡ true) × (is_blank (base_slug requested name) ≡ false)
unfolding base_slug
base_slug-slug_text requested name =
    let inner : Text =
      if is_blank (trim_space requested) then slugify name else trim_space requested in
    let t : Text = if is_blank inner then codes "org" else inner in
    (ground (arith, slugify-slug_text t), ground (arith, slugify-slug_text t))

append_slug_text :
    (s t : Text) → slug_text s ≡ true → slug_text t ≡ true → slug_text (s ++ t) ≡ true
append_slug_text [] t h k = k
append_slug_text (c ∷ cs) t h k = ground (arith, append_slug_text cs t)

append_blank : (s t : Text) → is_blank s ≡ false → is_blank (s ++ t) ≡ false
append_blank [] t h = ground arith
append_blank (c ∷ cs) t h = refl

try_slugs_lem :
    (excluded : Option ℕ) (base slug : Text) (suffix : ℕ → Text) (orgs : Table Org) (n : ℕ)
    (r : Text)
    → ((i : ℕ) → slug_text (suffix i) ≡ true)
    → slug_text base ≡ true
    → is_blank base ≡ false
    → slug_text slug ≡ true
    → is_blank slug ≡ false
    → try_slugs excluded base slug suffix orgs n ≡ ok r
    → (slug_taken excluded r orgs ≡ false) × (slug_text r ≡ true) × (is_blank r ≡ false)
unfolding try_slugs
try_slugs_lem excluded base slug suffix orgs zero r hs hb nb h nn e = absurd (ground arith)
try_slugs_lem excluded base slug suffix orgs (suc n) r hs hb nb h nn e =
    elim (Bool-cases (slug_taken excluded slug orgs)) [
      | inr free ↦ (ground arith, ground arith, ground arith)
      | inl taken ↦ elim (Option-cases excluded) [
        | inr (x, ex) ↦ absurd (ground arith)
        | inl ex ↦
            try_slugs_lem excluded base (base ++ (b'-' ∷ suffix n)) suffix orgs n r hs hb nb
              (append_slug_text base (b'-' ∷ suffix n) hb (ground (arith, hs n)))
              (append_blank base (b'-' ∷ suffix n) nb) (ground arith)
      ]
    ]

-- With random suffixes of letters, digits and dashes, a slug that is found is that of no
-- organization but the excluded one, is not empty, and consists of lower-case letters, digits and
-- dashes.
pub resolve_org_slug_lem :
    (requested name : Text) (excluded : Option ℕ) (suffix : ℕ → Text) (orgs : Table Org) (r : Text)
    → ((i : ℕ) → slug_text (suffix i) ≡ true)
    → resolve_org_slug requested name excluded suffix orgs ≡ ok r
    → (slug_taken excluded r orgs ≡ false) × (slug_text r ≡ true) × (is_blank r ≡ false)
unfolding resolve_org_slug
resolve_org_slug_lem requested name excluded suffix orgs r hs h =
    let (b, nb) = base_slug-slug_text requested name in
    try_slugs_lem excluded (base_slug requested name) (base_slug requested name) suffix orgs 5 r hs
      b nb b nb h

-- An organization that is created, with fresh identifiers and random suffixes of letters, digits
-- and dashes, has a slug that no organization had, the limits of its plan, and its creator as its
-- active owner with the seat of the plan.
pub create_org_lem :
    (owner : ℕ) (name slug : Text) (plan : Plan) (suffix : ℕ → Text) (org member : ℕ) (s s' : Db)
    (o : Org)
    → ((i : ℕ) → slug_text (suffix i) ≡ true)
    → lookup member s.members ≡ none
    → find_row (is_member_of org owner) s.members ≡ none
    → create_org owner name slug plan suffix org member s ≡ ok (o, s')
    → (slug_taken none o.slug s.orgs ≡ false)
      × (lookup org s'.orgs ≡ some o)
      × (o.owner_user ≡ owner)
      × (lookup org s'.entitlements ≡ some (plan_entitlement_template plan))
      × (active_membership org owner s'
          ≡ some (record {
            org = org;
            user = owner;
            role = Role.owner;
            seat_tier = owner_seat_tier_for_plan plan;
            status = MemberStatus.active;
          }))
unfolding create_org set_entitlements active_membership membership
create_org_lem owner name slug plan suffix org member s s' o hs fresh missing h =
    elim (Bool-cases (is_blank (trim_space name))) [
      | inl blank ↦ absurd (ground arith)
      | inr named ↦
          elim (Result-cases (resolve_org_slug slug (trim_space name) none suffix s.orgs)) [
            | inr (x, refused) ↦ absurd (ground arith)
            | inl (r, found) ↦
                let (free, _, _) =
                  resolve_org_slug_lem slug (trim_space name) none suffix s.orgs r hs found in
                let m : Member = record {
                  org = org;
                  user = owner;
                  role = Role.owner;
                  seat_tier = owner_seat_tier_for_plan plan;
                  status = MemberStatus.active;
                } in
                let row =
                  find_row-insert (is_member_of org owner) member m s.members fresh missing
                    (ground arith) in
                (
                  ground arith,
                  ground (arith, lookup-insert org org o s.orgs),
                  ground arith,
                  ground (
                    arith,
                    lookup-insert org org (plan_entitlement_template plan) s.entitlements,
                  ),
                  ground (arith, row),
                )
          ]
    ]
