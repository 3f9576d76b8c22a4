-- ===== src/Drop/Entitlement.antt =====
-- The entitlement of a user is the best of what the user's active memberships give.
use erebrus_gateway.Base.{
  ℕ, ◌≤◌, ◌≡◌, refl, Option, none, some, [], ◌∷◌, arith, ltb, ltb→lt, Bool-cases, Option-cases, ◌⊎◌,
  inl, inr,
}
use erebrus_gateway.Base.Table.{Table, HasRow}
use erebrus_gateway.Model.Org.{Tier, Org, Member}
use erebrus_gateway.Model.Db.{Db}
use erebrus_gateway.Drop.Tier.{
  drop_tier_rank, tier_text, normalize_drop_tier, granted, better, best_grant,
  resolve_drop_entitlement,
}

-- The text of a tier normalises to the tier.
pub normalize_drop_tier-tier_text : (t : Tier) → normalize_drop_tier (tier_text t) ≡ t
unfolding normalize_drop_tier
normalize_drop_tier-tier_text Tier.free = refl
normalize_drop_tier-tier_text Tier.starter = refl
normalize_drop_tier-tier_text Tier.pro = refl
normalize_drop_tier-tier_text Tier.business = refl
normalize_drop_tier-tier_text Tier.enterprise = refl

better_left :
    (a : ℕ × Tier) (o : Option (ℕ × Tier))
    → (b : ℕ × Tier) × (better (some a) o ≡ some b) × (drop_tier_rank a.1 ≤ drop_tier_rank b.1)
unfolding better
better_left a none = (a, refl, omega arith)
better_left a (some c) = elim (Bool-cases (ltb (drop_tier_rank a.1) (drop_tier_rank c.1))) [
  | inl e ↦ (c, rw e, omega (arith, ltb→lt (drop_tier_rank a.1) (drop_tier_rank c.1) e))
  | inr e ↦ (a, rw e, omega arith)
]

better_right :
    (o : Option (ℕ × Tier)) (c : ℕ × Tier)
    → (b : ℕ × Tier) × (better o (some c) ≡ some b) × (drop_tier_rank c.1 ≤ drop_tier_rank b.1)
unfolding better
better_right none c = (c, refl, omega arith)
better_right (some a) c = elim (Bool-cases (ltb (drop_tier_rank a.1) (drop_tier_rank c.1))) [
  | inl e ↦ (c, rw e, omega arith)
  | inr e ↦ (a, rw e, ground arith)
]

-- No row gives more than the best one.
best_grant_upper :
    (orgs : Table Org) (user : ℕ) (ms : Table Member) (i : ℕ) (m : Member) (g : ℕ × Tier)
    → HasRow i m ms
    → granted orgs user m ≡ some g
    → (b : ℕ × Tier) × (best_grant orgs user ms ≡ some b)
      × (drop_tier_rank g.1 ≤ drop_tier_rank b.1)
unfolding best_grant
best_grant_upper orgs user [] i m g h e = absurd h
best_grant_upper orgs user ((j, x) ∷ ms) i m g (inl p) e =
    let same : granted orgs user x ≡ some g = cc in
    let (b, eb, le) = better_left g (best_grant orgs user ms) in (b, rw same eb, le)
best_grant_upper orgs user ((j, x) ∷ ms) i m g (inr h) e =
    let (c, ec, le) = best_grant_upper orgs user ms i m g h e in
    let (b, eb, le') = better_right (granted orgs user x) c in (b, rw ec eb, omega arith)

better_one_of :
    (o p : Option (ℕ × Tier)) (b : ℕ × Tier) → better o p ≡ some b → (o ≡ some b) ⊎ (p ≡ some b)
unfolding better
better_one_of none p b e = inr e
better_one_of (some a) none b e = inl e
better_one_of (some a) (some c) b e = ground arith

-- The best grant is that of a row.
best_grant_attained :
    (orgs : Table Org) (user : ℕ) (ms : Table Member) (b : ℕ × Tier)
    → best_grant orgs user ms ≡ some b
    → (i : ℕ) × (m : Member) × HasRow i m ms × (granted orgs user m ≡ some b)
unfolding best_grant
best_grant_attained orgs user [] b e = cc
best_grant_attained orgs user ((j, x) ∷ ms) b e =
    elim (better_one_of (granted orgs user x) (best_grant orgs user ms) b e) [
      | inl p ↦ (j, x, inl refl, p)
      | inr p ↦ let (i, m, h, g) = best_grant_attained orgs user ms b p in (i, m, inr h, g)
    ]

-- The seat of the entitlement ranks at least as high as what any membership of the user gives.
pub entitlement_upper :
    (db : Db) (user i : ℕ) (m : Member) (g : ℕ × Tier)
    → HasRow i m db.members
    → granted db.orgs user m ≡ some g
    → drop_tier_rank g.1 ≤ drop_tier_rank (resolve_drop_entitlement db user).seat_tier
unfolding resolve_drop_entitlement
entitlement_upper db user i m g h e =
    let (b, eb, le) = best_grant_upper db.orgs user db.members i m g h e in
    ground (arith, normalize_drop_tier-tier_text b.1)

-- The organization that an entitlement names gives its tier, by a membership of the user; and where
-- it names none the tier is Free.
pub entitlement_attained :
    (db : Db) (user : ℕ)
    → let ent = resolve_drop_entitlement db user in
      ((i : ℕ) × (m : Member) × (o : ℕ) × HasRow i m db.members
        × (ent.entitlement_org ≡ some o)
        × (granted db.orgs user m ≡ some (o, ent.seat_tier)))
      ⊎ ((ent.entitlement_org ≡ none) × (ent.seat_tier ≡ Tier.free))
unfolding resolve_drop_entitlement
entitlement_attained db user = elim (Option-cases (best_grant db.orgs user db.members)) [
  | inl e ↦ inr (ground arith, ground arith)
  | inr (b, e) ↦
      let (i, m, h, g) = best_grant_attained db.orgs user db.members b e in
      let t = normalize_drop_tier-tier_text b.1 in inl (i, m, b.0, h, ground arith, ground arith)
]
