-- ===== src/Xp/Referrals.antt =====
-- Referral codes, and who referred whom (internal/store/referrals.go, internal/api/referrals.go, and
-- awardReferralXP of internal/api/subscriptions.go). A call that the program ignores the error of
-- leaves the state that a failed transaction leaves.
use Prim.Native.String.{String, ◌++◌}
use erebrus_gateway.Base.{
  ℕ, zero, suc, ◌-◌, ◌%◌, Bool, true, false, ◌&&◌, Option, none, some, List, [], ◌∷◌, map, leb,
  ◌==◌, if◌then◌else◌,
}
use erebrus_gateway.Base.Table.{Table, lookup, adjust, find_row}
use erebrus_gateway.Base.Text.{Text, codes, text_eq, trim_space}
use erebrus_gateway.Base.Tx.{Result, ok, err, not_found, db_error, transact}
use erebrus_gateway.Model.Db.{Db}
use erebrus_gateway.Model.Org.{Member}
use erebrus_gateway.Orgs.Plans.{is_active}
use erebrus_gateway.Xp.Award.{XpDb, award_xp}

-- The columns of users that hold referrals; a code that is given is unique.
pub record Referral : Type 0 where
  pub referral_code : Option Text
  pub referred_by : Option ℕ

pub record ReferralDb : Type 0 where
  pub db : Db
  pub xp : XpDb
  pub users : Table Referral

-- The weights of the configuration, where they are not negative.
pub record Weights : Type 0 where
  pub thresholds : List ℕ
  pub xp_referee_points : ℕ
  pub xp_referrer_points : ℕ

abbrev pub referral_alphabet : Text
referral_alphabet = codes "0123456789ABCDEFGHJKMNPQRSTVWXYZ"

unfoldable pub char_at : ℕ → Text → ℕ
char_at i [] = b'0'
char_at zero (c ∷ t) = c
char_at (suc i) (c ∷ t) = char_at i t

-- genReferralCode, for the bytes that rand.Read gives.
unfoldable pub gen_referral_code : List ℕ → Text
gen_referral_code = map (λ b. char_at (b % 32) referral_alphabet)

abbrev upper : ℕ → ℕ
upper c = if leb b'a' c && leb c b'z' then c - 32 else c

-- strings.ToUpper, for ASCII
unfoldable pub to_upper : Text → Text
to_upper = map upper

-- strings.ToUpper(strings.TrimSpace(t))
unfoldable pub canonical : Text → Text
unfolding to_upper trim_space
canonical t = to_upper (trim_space t)

abbrev pub has_code : Text → Referral → Bool
has_code c r = elim r.referral_code [ none ↦ false | some d ↦ text_eq d c ]

abbrev pub is_blank : Text → Bool
is_blank [] = true
is_blank (_ ∷ _) = false

-- UserIDByReferralCode
unfoldable pub user_id_by_referral_code : Text → ReferralDb → Option ℕ
user_id_by_referral_code c s = elim (find_row (has_code c) s.users) [
  | none ↦ none
  | some e ↦ some e.0
]

abbrev pub set_code : ℕ → Text → ReferralDb → ReferralDb
set_code user c s = record s {
  users = adjust user (λ r. record r { referral_code = some c }) s.users;
}

-- The attempts of EnsureReferralCode that are left: `random n` is what the attempt draws.
unfoldable pub allocate_code : ℕ → ℕ → (ℕ → List ℕ) → ReferralDb → Result Text × ReferralDb
unfolding gen_referral_code
allocate_code user zero random s = (err db_error, s)
allocate_code user (suc n) random s =
    elim (find_row (has_code (gen_referral_code (random n))) s.users) [
      | some taken ↦ allocate_code user n random s
      | none ↦ (ok (gen_referral_code (random n)), set_code user (gen_referral_code (random n)) s)
    ]

-- EnsureReferralCode, when no other request of the user runs between its statements.
unfoldable pub ensure_referral_code : ℕ → (ℕ → List ℕ) → ReferralDb → Result Text × ReferralDb
unfolding allocate_code
ensure_referral_code user random s = elim (lookup user s.users) [
  | none ↦ (err not_found, s)
  | some r ↦ elim r.referral_code [ some c ↦ (ok c, s) | none ↦ allocate_code user 5 random s ]
]

abbrev referrer : Option Referral → Option ℕ
referrer none = none
referrer (some r) = r.referred_by

-- ReferrerOf; an unknown user is an error, which its callers treat as no referrer.
unfoldable pub referrer_of : ℕ → ReferralDb → Option ℕ
referrer_of user s = referrer (lookup user s.users)

-- BindReferrer
unfoldable pub bind_referrer : ℕ → ℕ → ReferralDb → Bool × ReferralDb
bind_referrer user by s = if user == by then (false, s) else elim (lookup user s.users) [
  | none ↦ (false, s)
  | some r ↦ elim r.referred_by [
    | some b ↦ (false, s)
    | none ↦
        (true, record s { users = adjust user (λ x. record x { referred_by = some by }) s.users })
  ]
]

abbrev is_active_of : ℕ → Member → Bool
is_active_of user m = m.user == user && is_active m.status

-- UserHasActiveOrgMembership
unfoldable pub user_has_active_org_membership : ℕ → Db → Bool
user_has_active_org_membership user db = elim (find_row (is_active_of user) db.members) [
  | none ↦ false
  | some e ↦ true
]

-- AwardXPOnce, with its error ignored.
unfoldable pub award_once : List ℕ → ℕ → ℕ → String → XpDb → XpDb
unfolding award_xp
award_once thresholds user points key s =
    (transact (award_xp thresholds user "referral_qualified" points (some key)) s).1

-- `uuid` is the text of a user's identifier.
module _ (uuid : ℕ → String) where
  -- awardReferralXP
  unfoldable pub award_referral_xp : Weights → ℕ → ReferralDb → ReferralDb
  unfolding award_once referrer_of
  award_referral_xp w referee s = elim (referrer_of referee s) [
    | none ↦ s
    | some by ↦ record s {
      xp =
          award_once w.thresholds by w.xp_referrer_points
            ("referral:" ++ uuid referee ++ ":referrer")
            (award_once w.thresholds referee w.xp_referee_points
              ("referral:" ++ uuid referee ++ ":referee") s.xp);
    }
  ]

  -- The awards of a referee who is in an organization.
  unfoldable pub award_qualified : Weights → ℕ → ReferralDb → ReferralDb
  unfolding award_referral_xp user_has_active_org_membership
  award_qualified w user s =
      if user_has_active_org_membership user s.db then award_referral_xp w user s else s

  -- bindReferralCode
  unfoldable pub bind_referral_code : Weights → ℕ → Text → ReferralDb → ReferralDb
  unfolding canonical user_id_by_referral_code bind_referrer award_qualified
  bind_referral_code w user raw s =
      if is_blank (canonical raw) then s else elim (user_id_by_referral_code (canonical raw) s) [
        | none ↦ s
        | some by ↦
            if (bind_referrer user by s).0
            then award_qualified w user (bind_referrer user by s).1
            else s
      ]

  -- handleReferralRedeem; the summary that it ends with gives the user a code.
  unfoldable pub handle_referral_redeem :
      Weights → ℕ → Text → (ℕ → List ℕ) → ReferralDb → ℕ × ReferralDb
  unfolding canonical user_id_by_referral_code bind_referrer award_qualified ensure_referral_code
      trim_space
  handle_referral_redeem w user raw random s =
      if is_blank (trim_space raw)
      then (400, s)
      else elim (user_id_by_referral_code (canonical raw) s) [
        | none ↦ (404, s)
        | some by ↦
            if by == user
            then (400, s)
            else if (bind_referrer user by s).0
            then (
              200,
              (ensure_referral_code user random
                  (award_qualified w user (bind_referrer user by s).1)).1,
            )
            else (409, s)
      ]
