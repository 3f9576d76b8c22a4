-- ===== src/Hub/Region.antt =====
-- The regions that the hub counts sessions by (internal/metrics/metrics.go).
use erebrus_gateway.Base.{ℕ, ◌≡◌, arith, true, Bool, Option, none, some, [], ◌∷◌, ◌==◌}
use erebrus_gateway.Base.Text.{Text, named, normalize}

-- The region labels; `ind` is "in".
pub data Region : Type 0 where
  sg ind eu us unknown : Region

abbrev code : Region → ℕ
code Region.sg = 0
code Region.ind = 1
code Region.eu = 2
code Region.us = 3
code Region.unknown = 4

abbrev pub same_region : Region → Region → Bool
same_region a b = code a == code b

-- NormalizeRegion
unfoldable pub normalize_region : Text → Region
unfolding normalize
normalize_region t =
    named (("sg", Region.sg) ∷ ("in", Region.ind) ∷ ("eu", Region.eu) ∷ ("us", Region.us) ∷ [])
      Region.unknown (normalize t)

-- The region of a connection: a new one has none, which normalises to "unknown".
abbrev pub label : Option Region → Region
label none = Region.unknown
label (some r) = r

pub same_region_refl : (r : Region) → same_region r r ≡ true
same_region_refl r = ground arith

pub same_region-sym : (r q : Region) → same_region r q ≡ same_region q r
same_region-sym r q = ground arith
