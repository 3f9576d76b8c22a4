-- ===== src/Xp/ReferralTests.antt =====
-- What the theorems about referrals say of user 8, who redeems the code of user 7.
use Prim.Native.String.{String}
use erebrus_gateway.Base.{
  ℕ, ◌≤◌, ◌≡◌, ◌≢◌, refl, sym, none, some, List, [], ◌∷◌, arith, ◌==◌, Bool-cases, inl, inr,
}
use erebrus_gateway.Base.Table.{lookup, adjust, find_row}
use erebrus_gateway.Base.Text.{Text, codes, to_lower, trim_left, trim_right}
use erebrus_gateway.Base.Tx.{ok}
use erebrus_gateway.Drop.Samples.{empty}
use erebrus_gateway.Xp.Award.{XpDb}
use erebrus_gateway.Xp.Codes.{IsResolved, ensure_referral_code_lem}
use erebrus_gateway.Xp.Redeeming.{handle_referral_redeem_once}
use erebrus_gateway.Xp.Referrals.{
  Referral, ReferralDb, Weights, to_upper, canonical, user_id_by_referral_code, referrer_of,
  bind_referrer, char_at, gen_referral_code, allocate_code, ensure_referral_code,
  bind_referral_code, handle_referral_redeem,
}

abbrev weights : Weights
weights = record { thresholds = []; xp_referee_points = 50; xp_referrer_points = 100 }

abbrev uuid : ℕ → String
uuid _ = "8"

abbrev random : ℕ → List ℕ
random n = n ∷ 42 ∷ []

abbrev books : XpDb
books = record {
  users =
      (7, record { xp_earned = 0; xp_claimed = 0; tier = 0 })
      ∷ (8, record { xp_earned = 0; xp_claimed = 0; tier = 0 })
      ∷ [];
  events = [];
}

abbrev known : ReferralDb
known = record {
  db = empty;
  xp = books;
  users =
      (8, record { referral_code = some (codes "K7"); referred_by = none })
      ∷ (7, record { referral_code = none; referred_by = none })
      ∷ [];
}

abbrev after : ReferralDb
after = (handle_referral_redeem uuid weights 7 (codes " k7 ") random known).1

redeem_known : handle_referral_redeem uuid weights 7 (codes " k7 ") random known ≡ (200, after)
unfolding handle_referral_redeem trim_left trim_right to_upper find_row lookup adjust bind_referrer
redeem_known = refl

handle_referral_redeem_once_example :
    ((by : ℕ) × (user_id_by_referral_code (canonical (codes " k7 ")) known ≡ some by)
      × (7 ≢ by)
      × (referrer_of 7 known ≡ none)
      × (referrer_of 7 after ≡ some by))
    × (400 ≤ (handle_referral_redeem uuid weights 7 (codes "K8") random after).0)
    × ((handle_referral_redeem uuid weights 7 (codes "K8") random after).1 ≡ after)
    × (bind_referral_code uuid weights 7 (codes "K8") after ≡ after)
handle_referral_redeem_once_example =
    handle_referral_redeem_once uuid weights 7 (codes " k7 ") (codes "K8") random random known after
      redeem_known

known_code :
    (i : ℕ) (r : Referral) (c : Text)
    → lookup i known.users ≡ some r
    → r.referral_code ≡ some c
    → (8 ≡ i) × (codes "K7" ≡ c)
unfolding lookup
known_code i r c h k = elim (Bool-cases (8 == i)) [
  | inl same ↦ let e : 8 ≡ i = ground arith in (e, ground arith)
  | inr other ↦ elim (Bool-cases (7 == i)) [
    | inl seven ↦ absurd (ground arith)
    | inr gone ↦ absurd (ground arith)
  ]
]

known_found : user_id_by_referral_code (codes "K7") known ≡ some 8
unfolding user_id_by_referral_code find_row
known_found = refl

known-IsResolved : IsResolved known
known-IsResolved = record {
  plain = λ i r c h k. rw (sym (known_code i r c h k).1) refl;
  resolves = λ i r c h k. let is = known_code i r c h k in rw (sym is.0, sym is.1) known_found;
}

ensured :
    ensure_referral_code 7 random known ≡ (ok (codes "4A"), (ensure_referral_code 7 random known).1)
unfolding ensure_referral_code lookup allocate_code gen_referral_code char_at find_row
ensured = refl

ensure_referral_code_lem_example :
    IsResolved (ensure_referral_code 7 random known).1
    × (user_id_by_referral_code (canonical (codes "4A")) (ensure_referral_code 7 random known).1
        ≡ some 7)
    × (user_id_by_referral_code
          (canonical (to_lower (codes "4A")))
          (ensure_referral_code 7 random known).1
        ≡ some 7)
ensure_referral_code_lem_example =
    ensure_referral_code_lem 7 random known (ensure_referral_code 7 random known).1 (codes "4A")
      known-IsResolved ensured
