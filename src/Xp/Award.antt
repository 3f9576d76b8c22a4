-- ===== src/Xp/Award.antt =====
-- The awards of points (internal/store/xp.go). An amount of points is a natural number, as the
-- program's awards are; the metadata of an event is left out, since nothing reads it.
use Prim.Native.String.{String}
use erebrus_gateway.Base.{
  ℕ, suc, ◌+◌, Bool, true, Option, none, some, List, [], ◌∷◌, ltb, leb, if◌then◌else◌,
}
use erebrus_gateway.Base.Int.{i64_limit}
use erebrus_gateway.Base.Table.{Table, lookup, adjust}
use erebrus_gateway.Base.Tx.{
  db_error, Tx, ◌>>=◌, ◌>>◌, pure, get, modify, guard, from_option, throw,
}

-- A row of xp_events; dedup_key is unique where it is given.
pub record XpEvent : Type 0 where
  pub user : ℕ
  pub kind : String
  pub points : ℕ
  pub dedup_key : Option String

-- The columns of users that hold points.
pub record XpUser : Type 0 where
  pub xp_earned : ℕ
  pub xp_claimed : ℕ
  pub tier : ℕ

pub record XpDb : Type 0 where
  pub users : Table XpUser
  pub events : List XpEvent  -- the last one first

abbrev pub default_tier_thresholds : List ℕ
default_tier_thresholds = 0 ∷ 100 ∷ 500 ∷ 2000 ∷ 10_000 ∷ []

-- TierThresholds: an empty configuration stands for the defaults.
abbrev pub tier_thresholds : List ℕ → List ℕ
tier_thresholds [] = default_tier_thresholds
tier_thresholds (t ∷ ts) = t ∷ ts

-- The loop of tierForXP from index `i`, with the tier so far.
unfoldable pub tier_from : ℕ → ℕ → ℕ → List ℕ → ℕ
tier_from xp i tier [] = tier
tier_from xp i tier (t ∷ ts) =
    let met = tier_from xp (suc i) i ts in
    let unmet = tier_from xp (suc i) tier ts in if leb t xp then met else unmet

-- tierForXP
unfoldable pub tier_for_xp : ℕ → List ℕ → ℕ
unfolding tier_from
tier_for_xp xp thresholds = tier_from xp 0 0 thresholds

-- The branch of awardXP for the empty key.
unfoldable pub record_award : List ℕ → ℕ → String → ℕ → Tx XpDb Bool
unfolding tier_for_xp
record_award thresholds user kind points = do
  db ← get
  u ← from_option (lookup user db.users) db_error
  guard (ltb (u.xp_earned + points) i64_limit) db_error
  let t = tier_for_xp (u.xp_earned + points) (tier_thresholds thresholds)
  modify (λ s. record s {
    events = record { user = user; kind = kind; points = points; dedup_key = none } ∷ s.events;
    users = adjust user (λ v. record v { xp_earned = u.xp_earned + points; tier = t }) s.users;
  })
  pure true

-- awardXP: `none` stands for the empty key. With a key the statement names the column dedup_key as the
-- arbiter of its conflicts, of which the schema has a partial unique index only (idx_xp_events_dedup in
-- internal/store/migrations/0006_xp_claims.sql): PostgreSQL refuses it, whether the key is new or not.
unfoldable pub award_xp : List ℕ → ℕ → String → ℕ → Option String → Tx XpDb Bool
unfolding record_award
award_xp thresholds user kind points none = record_award thresholds user kind points
award_xp thresholds user kind points (some key) = throw db_error
