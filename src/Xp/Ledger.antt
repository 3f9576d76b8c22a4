-- ===== src/Xp/Ledger.antt =====
-- What a user has earned is what the events say, and the tier is that of what was earned.
use Prim.Native.String.{String}
use erebrus_gateway.Base.{
  ℕ, ◌+◌, ◌≡◌, Bool, Option, none, some, List, [], ◌∷◌, arith, ◌==◌, if◌then◌else◌, Option-cases,
  inl, inr,
}
use erebrus_gateway.Base.Table.{lookup, lookup-adjust_self, lookup-adjust_ne}
use erebrus_gateway.Base.Tx.{ok}
use erebrus_gateway.Xp.Award.{
  XpEvent, XpUser, XpDb, tier_thresholds, tier_for_xp, record_award, award_xp,
}

-- The points of the events of a user.
unfoldable pub points_of : ℕ → List XpEvent → ℕ
points_of user [] = 0
points_of user (e ∷ es) =
    let rest = points_of user es in if e.user == user then e.points + rest else rest

-- What the row of a user says; a user without a row has earned nothing.
abbrev pub earned_of : ℕ → XpDb → ℕ
earned_of user s = elim (lookup user s.users) [ none ↦ 0 | some u ↦ u.xp_earned ]

-- The tier that the row of a user says, or else a given one.
abbrev pub tier_of : ℕ → ℕ → XpDb → ℕ
tier_of default user s = elim (lookup user s.users) [ none ↦ default | some u ↦ u.tier ]

-- Every user has earned what the events say, and has the tier of it.
pub record IsBalanced (thresholds : List ℕ) (s : XpDb) : Type 0 where
  pub earned_exact : (i : ℕ) → earned_of i s ≡ points_of i s.events
  pub tier_exact :
      (i : ℕ)
      → tier_of (tier_for_xp (points_of i s.events) (tier_thresholds thresholds)) i s
        ≡ tier_for_xp (points_of i s.events) (tier_thresholds thresholds)

record_award-IsBalanced :
    (thresholds : List ℕ) (user : ℕ) (kind : String) (points : ℕ) (s s' : XpDb) {b : Bool}
    → IsBalanced thresholds s
    → record_award thresholds user kind points s ≡ ok (b, s')
    → IsBalanced thresholds s'
unfolding record_award points_of
record_award-IsBalanced thresholds user kind points s s' bal h =
    elim (Option-cases (lookup user s.users)) [
      | inl missing ↦ absurd (ground arith)
      | inr (u, found) ↦
          let f : XpUser → XpUser = λ x. record x {
            xp_earned = u.xp_earned + points;
            tier = tier_for_xp (u.xp_earned + points) (tier_thresholds thresholds);
          } in
          let self = lookup-adjust_self user f s.users u found in
          let others = λ (i : ℕ). lookup-adjust_ne user i f s.users in
          let earned = bal.earned_exact user in
          record {
            earned_exact = λ i. ground (arith, self, others i, earned, bal.earned_exact i);
            tier_exact =
                λ i. ground (arith, self, others i, earned, bal.earned_exact i, bal.tier_exact i);
          }
    ]

-- An award that succeeds, which is one without a key, keeps the books of points: afterwards, too, every
-- user has earned exactly the points of the events, and has the tier that these give.
pub award_xp-IsBalanced :
    (thresholds : List ℕ) (user : ℕ) (kind : String) (points : ℕ) (key : Option String)
    (s s' : XpDb) {b : Bool}
    → IsBalanced thresholds s
    → award_xp thresholds user kind points key s ≡ ok (b, s')
    → IsBalanced thresholds s'
unfolding award_xp
award_xp-IsBalanced thresholds user kind points none s s' bal h =
    record_award-IsBalanced thresholds user kind points s s' bal h
award_xp-IsBalanced thresholds user kind points (some key) s s' bal h = absurd (ground arith)
