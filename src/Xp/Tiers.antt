-- ===== src/Xp/Tiers.antt =====
-- The tier of an amount of points.
use erebrus_gateway.Base.{
  ℕ, zero, suc, ◌+◌, ◌≤◌, ◌≡◌, refl, Option, none, some, List, [], ◌∷◌, arith, leb, Bool-cases, ◌⊎◌,
  inl, inr,
}
use erebrus_gateway.Xp.Award.{tier_from, tier_for_xp}

-- The threshold with an index.
unfoldable pub threshold : ℕ → List ℕ → Option ℕ
threshold i [] = none
threshold zero (t ∷ ts) = some t
threshold (suc i) (t ∷ ts) = threshold i ts

tier_from_lower : (xp i tier : ℕ) (ts : List ℕ) → tier ≤ i → tier ≤ tier_from xp i tier ts
unfolding tier_from
tier_from_lower xp i tier [] h = omega arith
tier_from_lower xp i tier (t ∷ ts) h =
    ground (arith, tier_from_lower xp (suc i) i ts, tier_from_lower xp (suc i) tier ts)

tier_from_upper :
    (xp i tier k t : ℕ) (ts : List ℕ)
    → tier ≤ i
    → threshold k ts ≡ some t
    → t ≤ xp
    → i + k ≤ tier_from xp i tier ts
unfolding tier_from threshold
tier_from_upper xp i tier k t [] h e le = absurd (ground arith)
tier_from_upper xp i tier zero t (u ∷ ts) h e le = ground (arith, tier_from_lower xp (suc i) i ts)
tier_from_upper xp i tier (suc k) t (u ∷ ts) h e le =
    ground (arith, tier_from_upper xp (suc i) i k t ts, tier_from_upper xp (suc i) tier k t ts)

tier_from_attained :
    (xp i tier : ℕ) (ts : List ℕ)
    → (tier_from xp i tier ts ≡ tier)
      ⊎ ((k : ℕ) × (t : ℕ) × (tier_from xp i tier ts ≡ i + k)
          × (threshold k ts ≡ some t)
          × (t ≤ xp))
unfolding tier_from threshold
tier_from_attained xp i tier [] = inl refl
tier_from_attained xp i tier (u ∷ ts) = elim (Bool-cases (leb u xp)) [
  | inl met ↦ elim (tier_from_attained xp (suc i) i ts) [
    | inl e ↦ inr (0, u, ground arith, refl, ground arith)
    | inr (k, t, e, at, le) ↦ inr (suc k, t, ground arith, at, le)
  ]
  | inr unmet ↦ elim (tier_from_attained xp (suc i) tier ts) [
    | inl e ↦ inl (ground arith)
    | inr (k, t, e, at, le) ↦ inr (suc k, t, ground arith, at, le)
  ]
]

-- The tier is the last index whose threshold the points reach: no threshold that is reached has a
-- higher index, and the tier is 0 or the threshold with its index is reached.
pub tier_for_xp_lem :
    (xp k t : ℕ) (ts : List ℕ)
    → threshold k ts ≡ some t
    → t ≤ xp
    → (k ≤ tier_for_xp xp ts)
      × ((tier_for_xp xp ts ≡ 0)
          ⊎ ((u : ℕ) × (threshold (tier_for_xp xp ts) ts ≡ some u) × (u ≤ xp)))
unfolding tier_for_xp
tier_for_xp_lem xp k t ts e le = (
  omega (arith, tier_from_upper xp 0 0 k t ts (omega arith) e le),
  elim (tier_from_attained xp 0 0 ts) [
    | inl none_met ↦ inl none_met
    | inr (j, u, same, at, le') ↦ inr (u, ground arith, le')
  ],
)

tier_from_mono :
    (x y i a b : ℕ) (ts : List ℕ) → x ≤ y → a ≤ b → b ≤ i → tier_from x i a ts ≤ tier_from y i b ts
unfolding tier_from
tier_from_mono x y i a b [] h k l = k
tier_from_mono x y i a b (t ∷ ts) h k l = ground (
  arith,
  tier_from_mono x y (suc i) i i ts,
  tier_from_mono x y (suc i) a i ts,
  tier_from_mono x y (suc i) a b ts,
)

-- More points never give a lower tier, whatever the thresholds and their order.
pub tier_for_xp_mono : (x y : ℕ) (ts : List ℕ) → x ≤ y → tier_for_xp x ts ≤ tier_for_xp y ts
unfolding tier_for_xp
tier_for_xp_mono x y ts h = tier_from_mono x y 0 0 0 ts h (omega arith) (omega arith)
