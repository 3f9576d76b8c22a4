-- ===== src/Xp/Redeeming.antt =====
-- What redeeming an invite code does, to the referrers and to the points.
use Prim.Native.String.{String}
use erebrus_gateway.Base.{
  ℕ, zero, suc, ◌≤◌, ◌≡◌, ◌≢◌, refl, ap, true, false, none, some, List, arith, ◌==◌, Bool-cases,
  Option-cases, inl, inr, ◌∙◌,
}
use erebrus_gateway.Base.Keys.{lookup-adjust}
use erebrus_gateway.Base.Table.{lookup, find_row, lookup-adjust_self}
use erebrus_gateway.Base.Text.{Text}
use erebrus_gateway.Xp.Award.{award_xp}
use erebrus_gateway.Xp.Referrals.{
  Referral, ReferralDb, Weights, gen_referral_code, canonical, has_code, user_id_by_referral_code,
  set_code, allocate_code, ensure_referral_code, referrer_of, bind_referrer,
  user_has_active_org_membership, award_once, award_referral_xp, award_qualified,
  bind_referral_code, handle_referral_redeem,
}

-- Whose code a user is bound to, after a code is given to some user.
referrer-set_code :
    (user : ℕ) (c : Text) (i : ℕ) (s : ReferralDb)
    → referrer_of i (set_code user c s) ≡ referrer_of i s
unfolding referrer_of
referrer-set_code user c i s =
    let at = lookup-adjust user i (λ (r : Referral). record r { referral_code = some c }) s.users in
    elim (Option-cases (lookup i s.users)) [
      | inl gone ↦ ground (arith, at)
      | inr (r, here) ↦ ground (arith, at)
    ]

referrer-allocate_code :
    (user n : ℕ) (random : ℕ → List ℕ) (i : ℕ) (s : ReferralDb)
    → (referrer_of i (allocate_code user n random s).1 ≡ referrer_of i s)
      × ((allocate_code user n random s).1.xp ≡ s.xp)
unfolding allocate_code
referrer-allocate_code user zero random i s = (refl, refl)
referrer-allocate_code user (suc n) random i s =
    let c = gen_referral_code (random n) in
    elim (Option-cases (find_row (has_code c) s.users)) [
      | inl free ↦ rw (allocate_code, free) (referrer-set_code user c i s, refl)
      | inr (e, taken) ↦ rw (allocate_code, taken) (referrer-allocate_code user n random i s)
    ]

referrer-ensure_referral_code :
    (user : ℕ) (random : ℕ → List ℕ) (i : ℕ) (s : ReferralDb)
    → (referrer_of i (ensure_referral_code user random s).1 ≡ referrer_of i s)
      × ((ensure_referral_code user random s).1.xp ≡ s.xp)
unfolding ensure_referral_code
referrer-ensure_referral_code user random i s = elim (Option-cases (lookup user s.users)) [
  | inl gone ↦ rw (ensure_referral_code, gone) (refl, refl)
  | inr (r, here) ↦ elim (Option-cases r.referral_code) [
    | inl none_yet ↦
        rw (ensure_referral_code, here, none_yet) (referrer-allocate_code user 5 random i s)
    | inr (c, there) ↦ rw (ensure_referral_code, here, there) (refl, refl)
  ]
]

-- A binding binds a user who has no referrer to another user, and nothing else.
bind_referrer_lem :
    (user by : ℕ) (s : ReferralDb)
    → (bind_referrer user by s).0 ≡ true
    → (user ≢ by)
      × (referrer_of user s ≡ none)
      × (referrer_of user (bind_referrer user by s).1 ≡ some by)
      × ((bind_referrer user by s).1.xp ≡ s.xp)
unfolding bind_referrer referrer_of
bind_referrer_lem user by s done = elim (Bool-cases (user == by)) [
  | inl self ↦ absurd (ground arith)
  | inr other ↦ elim (Option-cases (lookup user s.users)) [
    | inl gone ↦ absurd (ground arith)
    | inr (r, here) ↦ elim (Option-cases r.referred_by) [
      | inl unbound ↦
          let f = λ (x : Referral). record x { referred_by = some by } in
          let now = lookup-adjust_self user f s.users r here in
          (ground arith, ground arith, ground (arith, now), ground arith)
      | inr (b, bound) ↦ absurd (ground arith)
    ]
  ]
]

-- A user who has a referrer is bound to no other.
bind_referrer-bound :
    (user by b : ℕ) (s : ReferralDb)
    → referrer_of user s ≡ some b
    → bind_referrer user by s ≡ (false, s)
unfolding bind_referrer referrer_of
bind_referrer-bound user by b s bound = elim (Bool-cases (user == by)) [
  | inl self ↦ ground arith
  | inr other ↦ elim (Option-cases (lookup user s.users)) [
    | inl gone ↦ ground arith
    | inr (r, here) ↦ let has : r.referred_by ≡ some b = ground arith in ground arith
  ]
]

module _ (uuid : ℕ → String) (w : Weights) where
  award_qualified-keeps :
      (user : ℕ) (i : ℕ) (s : ReferralDb)
      → (referrer_of i (award_qualified uuid w user s) ≡ referrer_of i s)
        × ((award_qualified uuid w user s).xp ≡ s.xp)
  unfolding award_qualified award_referral_xp award_once award_xp
  award_qualified-keeps user i s = elim (Bool-cases (user_has_active_org_membership user s.db)) [
    | inl qualified ↦ elim (Option-cases (referrer_of user s)) [
      | inl free ↦ rw (award_qualified, qualified, award_referral_xp, free) (refl, refl)
      | inr (by, bound) ↦ rw (award_qualified, qualified, award_referral_xp, bound) (refl, refl)
    ]
    | inr not_yet ↦ rw (award_qualified, not_yet) (refl, refl)
  ]

  -- A redemption that succeeds, taken apart.
  redeemed :
      (user : ℕ) (raw : Text) (random : ℕ → List ℕ) (s s' : ReferralDb)
      → handle_referral_redeem uuid w user raw random s ≡ (200, s')
      → (by : ℕ) × (user_id_by_referral_code (canonical raw) s ≡ some by)
        × ((bind_referrer user by s).0 ≡ true)
        × (s'
            ≡ (ensure_referral_code user random
                (award_qualified uuid w user (bind_referrer user by s).1)).1)
  unfolding handle_referral_redeem
  redeemed user raw random s s' done =
      elim (Option-cases (user_id_by_referral_code (canonical raw) s)) [
        | inl unknown ↦ absurd (ground (arith, unknown))
        | inr (by, known) ↦ elim (Bool-cases (bind_referrer user by s).0) [
          | inl bound ↦ (by, known, bound, ground (arith, known, bound))
          | inr not_bound ↦ absurd (ground (arith, known, not_bound))
        ]
      ]

  refused_redeem :
      (user b : ℕ) (raw : Text) (random : ℕ → List ℕ) (s : ReferralDb)
      → referrer_of user s ≡ some b
      → (400 ≤ (handle_referral_redeem uuid w user raw random s).0)
        × ((handle_referral_redeem uuid w user raw random s).1 ≡ s)
        × (bind_referral_code uuid w user raw s ≡ s)
  unfolding handle_referral_redeem bind_referral_code
  refused_redeem user b raw random s bound =
      elim (Option-cases (user_id_by_referral_code (canonical raw) s)) [
        | inl unknown ↦ ground (arith, unknown)
        | inr (by, known) ↦ ground (arith, known, bind_referrer-bound user by b s bound)
      ]

  -- A code that is redeemed binds its user to the other user whose code it is, where the user had no
  -- referrer; after that every code that the user redeems is refused without a change, and so is every
  -- code that comes with a log-in.
  pub handle_referral_redeem_once :
      (user : ℕ) (raw raw' : Text) (random random' : ℕ → List ℕ) (s s' : ReferralDb)
      → handle_referral_redeem uuid w user raw random s ≡ (200, s')
      → ((by : ℕ) × (user_id_by_referral_code (canonical raw) s ≡ some by)
          × (user ≢ by)
          × (referrer_of user s ≡ none)
          × (referrer_of user s' ≡ some by))
        × (400 ≤ (handle_referral_redeem uuid w user raw' random' s').0)
        × ((handle_referral_redeem uuid w user raw' random' s').1 ≡ s')
        × (bind_referral_code uuid w user raw' s' ≡ s')
  handle_referral_redeem_once user raw raw' random random' s s' done =
      let (by, known, bound, after) = redeemed user raw random s s' done in
      let facts = bind_referrer_lem user by s bound in
      let t : ReferralDb = (bind_referrer user by s).1 in
      let kept : referrer_of user s' ≡ some by =
        ap (referrer_of user) after
        ∙ (referrer-ensure_referral_code user random user (award_qualified uuid w user t)).0
        ∙ (award_qualified-keeps user user t).0
        ∙ facts.2 in
      let refusal = refused_redeem user by raw' random' s' kept in
      ((by, known, facts.0, facts.1, kept), refusal.0, refusal.1, refusal.2)
