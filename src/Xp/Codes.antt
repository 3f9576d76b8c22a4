-- ===== src/Xp/Codes.antt =====
-- The referral codes that the program makes are found again, however they are typed.
use erebrus_gateway.Base.{
  ℕ, zero, suc, ◌%◌, ◌≡◌, refl, sym, ap, Bool, true, false, not, ◌&&◌, ◌||◌, Option, none, some,
  List, [], ◌∷◌, arith, leb, ◌==◌, Bool-cases, Option-cases, inl, inr, ◌⊎◌, ◌∙◌,
}
use erebrus_gateway.Base.Keys.{lookup-adjust}
use erebrus_gateway.Base.Table.{Table, lookup, adjust, find_row}
use erebrus_gateway.Base.Text.{
  Text, text_eq, text_eq_self, to_lower, trim_left, trim_right, trim_space,
}
use erebrus_gateway.Base.Tx.{ok}
use erebrus_gateway.Xp.Referrals.{
  Referral, ReferralDb, referral_alphabet, char_at, gen_referral_code, to_upper, canonical,
  has_code, user_id_by_referral_code, set_code, allocate_code, ensure_referral_code,
}

-- Neither a space nor a lower-case letter.
abbrev is_plain : ℕ → Bool
is_plain c = not (leb 9 c && leb c 13 || c == 32) && not (leb b'a' c && leb c b'z')

abbrev pub all_plain : Text → Bool
all_plain [] = true
all_plain (c ∷ t) = is_plain c && all_plain t

char_at_plain : (i : ℕ) (t : Text) → all_plain t ≡ true → is_plain (char_at i t) ≡ true
unfolding char_at
char_at_plain i [] h = refl
char_at_plain zero (c ∷ t) h = ground arith
char_at_plain (suc i) (c ∷ t) h = char_at_plain i t (ground arith)

gen_referral_code_plain : (bytes : List ℕ) → all_plain (gen_referral_code bytes) ≡ true
unfolding gen_referral_code
gen_referral_code_plain [] = refl
gen_referral_code_plain (b ∷ bs) =
    ground (arith, char_at_plain (b % 32) referral_alphabet refl, gen_referral_code_plain bs)

abbrev all_unspaced : Text → Bool
all_unspaced [] = true
all_unspaced (c ∷ t) = not (leb 9 c && leb c 13 || c == 32) && all_unspaced t

trim_right_unspaced : (t : Text) → all_unspaced t ≡ true → trim_right t ≡ t
unfolding trim_right
trim_right_unspaced [] h = refl
trim_right_unspaced (c ∷ t) h = ground (arith, trim_right_unspaced t)

trim_space_unspaced : (t : Text) → all_unspaced t ≡ true → trim_space t ≡ t
unfolding trim_space trim_left
trim_space_unspaced [] h = refl
trim_space_unspaced (c ∷ t) h = ground (arith, trim_right_unspaced (c ∷ t) h)

all_plain-all_unspaced :
    (t : Text) → all_plain t ≡ true → (all_unspaced t ≡ true) × (all_unspaced (to_lower t) ≡ true)
unfolding to_lower
all_plain-all_unspaced [] h = (refl, refl)
all_plain-all_unspaced (c ∷ t) h = ground (arith, all_plain-all_unspaced t)

to_upper_plain : (t : Text) → all_plain t ≡ true → (to_upper t ≡ t) × (to_upper (to_lower t) ≡ t)
unfolding to_upper to_lower
to_upper_plain [] h = (refl, refl)
to_upper_plain (c ∷ t) h = ground (arith, to_upper_plain t)

-- A plain text is what it is normalised to, also when it is typed in lower case.
canonical_plain : (t : Text) → all_plain t ≡ true → (canonical t ≡ t) × (canonical (to_lower t) ≡ t)
unfolding canonical
canonical_plain t h =
    let unspaced = all_plain-all_unspaced t h in
    let uppers = to_upper_plain t h in
    (
      ap to_upper (trim_space_unspaced t unspaced.0) ∙ uppers.0,
      ap to_upper (trim_space_unspaced (to_lower t) unspaced.1) ∙ uppers.1,
    )

text_eq-≡ : (a b : Text) → text_eq a b ≡ true → a ≡ b
text_eq-≡ [] [] h = refl
text_eq-≡ [] (c ∷ b) h = ground arith
text_eq-≡ (c ∷ a) [] h = ground arith
text_eq-≡ (c ∷ a) (d ∷ b) h =
    let same : c ≡ d = ground arith in let rest : a ≡ b = text_eq-≡ a b (ground arith) in cc

-- Every code that a user has is plain, and is found as the code of that user.
pub record IsResolved (s : ReferralDb) : Type 0 where
  pub plain :
      (i : ℕ) (r : Referral) (c : Text)
      → lookup i s.users ≡ some r
      → r.referral_code ≡ some c
      → all_plain c ≡ true
  pub resolves :
      (i : ℕ) (r : Referral) (c : Text)
      → lookup i s.users ≡ some r
      → r.referral_code ≡ some c
      → user_id_by_referral_code c s ≡ some i

abbrev holder : Option (ℕ × Referral) → Option ℕ
holder none = none
holder (some e) = some e.0

abbrev coded : Text → Referral → Referral
coded c r = record r { referral_code = some c }

holder-other :
    (k : ℕ) (c d : Text) (v : Referral) (t : Table Referral)
    → lookup k t ≡ some v
    → v.referral_code ≡ none
    → text_eq c d ≡ false
    → holder (find_row (has_code d) (adjust k (coded c) t)) ≡ holder (find_row (has_code d) t)
unfolding lookup adjust find_row
holder-other k c d v [] h none_yet other = refl
holder-other k c d v ((j, w) ∷ t) h none_yet other = elim (Bool-cases (j == k)) [
  | inl here ↦ ground arith
  | inr there ↦ ground (arith, holder-other k c d v t)
]

holder_self :
    (k : ℕ) (c : Text) (v : Referral) (t : Table Referral)
    → lookup k t ≡ some v
    → find_row (has_code c) t ≡ none
    → holder (find_row (has_code c) (adjust k (coded c) t)) ≡ some k
unfolding lookup adjust find_row
holder_self k c v [] h free = ground arith
holder_self k c v ((j, w) ∷ t) h free = elim (Bool-cases (j == k)) [
  | inl here ↦ ground (arith, text_eq_self c)
  | inr there ↦ ground (arith, holder_self k c v t)
]

user_id_lem :
    (c : Text) (s : ReferralDb)
    → user_id_by_referral_code c s ≡ holder (find_row (has_code c) s.users)
unfolding user_id_by_referral_code
user_id_lem c s = elim (Option-cases (find_row (has_code c) s.users)) [
  | inl gone ↦ ground arith
  | inr (e, found) ↦ ground arith
]

-- A code after a user has got one is that user's, or was there.
set_code-rows :
    (user : ℕ) (c : Text) (v : Referral) (s : ReferralDb)
    → lookup user s.users ≡ some v
    → (i : ℕ) (r : Referral) (d : Text) → lookup i (set_code user c s).users ≡ some r
    → r.referral_code ≡ some d
    → ((user ≡ i) × (c ≡ d)) ⊎ (lookup i s.users ≡ some r)
set_code-rows user c v s h i r d hi hd =
    let at = lookup-adjust user i (coded c) s.users in
    elim (Bool-cases (user == i)) [
      | inl same ↦
          let e : user ≡ i = ground arith in
          let here : lookup i s.users ≡ some v = rw e at h in inl (e, ground (arith, at, here))
      | inr other ↦ elim (Option-cases (lookup i s.users)) [
        | inl gone ↦ absurd (ground (arith, at))
        | inr (w, found) ↦ inr (ground (arith, at, found))
      ]
    ]

set_code-IsResolved :
    (user : ℕ) (c : Text) (v : Referral) (s : ReferralDb)
    → IsResolved s
    → all_plain c ≡ true
    → lookup user s.users ≡ some v
    → v.referral_code ≡ none
    → find_row (has_code c) s.users ≡ none
    → IsResolved (set_code user c s)
set_code-IsResolved user c v s inv fit h none_yet free = record {
  plain = λ i r d hi hd. elim (set_code-rows user c v s h i r d hi hd) [
    | inl (_, same) ↦ rw (sym same) fit
    | inr old ↦ inv.plain i r d old hd
  ];
  resolves = λ i r d hi hd.
      let now = user_id_lem d (set_code user c s) in
      let was = user_id_lem d s in
      elim (set_code-rows user c v s h i r d hi hd) [
        | inl (mine, same) ↦
            rw (sym same, sym mine)
              (user_id_lem c (set_code user c s) ∙ holder_self user c v s.users h free)
        | inr old ↦
            let found = inv.resolves i r d old hd in
            elim (Bool-cases (text_eq c d)) [
              | inl clash ↦
                  let none_has : find_row (has_code d) s.users ≡ none =
                    rw (text_eq-≡ c d clash) at free in
                  absurd (ground (arith, none_has, found, was))
              | inr fine ↦ now ∙ holder-other user c d v s.users h none_yet fine ∙ sym was ∙ found
            ]
      ];
}

allocate_code-IsResolved :
    (user n : ℕ) (random : ℕ → List ℕ) (v : Referral) (s : ReferralDb)
    → IsResolved s
    → lookup user s.users ≡ some v
    → v.referral_code ≡ none
    → IsResolved (allocate_code user n random s).1
unfolding allocate_code
allocate_code-IsResolved user zero random v s inv h none_yet = inv
allocate_code-IsResolved user (suc n) random v s inv h none_yet =
    let c = gen_referral_code (random n) in
    elim (Option-cases (find_row (has_code c) s.users)) [
      | inl free ↦
          rw (allocate_code, free)
            (set_code-IsResolved user c v s inv (gen_referral_code_plain (random n)) h none_yet
              free)
      | inr (e, taken) ↦
          rw (allocate_code, taken) (allocate_code-IsResolved user n random v s inv h none_yet)
    ]

allocate_code-finds :
    (user n : ℕ) (random : ℕ → List ℕ) (v : Referral) (s s' : ReferralDb) {code : Text}
    → lookup user s.users ≡ some v
    → allocate_code user n random s ≡ (ok code, s')
    → (all_plain code ≡ true) × (user_id_by_referral_code code s' ≡ some user)
unfolding allocate_code
allocate_code-finds user zero random v s s' h done = absurd (ground arith)
allocate_code-finds user (suc n) random v s s' {code} h done =
    let c = gen_referral_code (random n) in
    elim (Option-cases (find_row (has_code c) s.users)) [
      | inl free ↦
          let fit = gen_referral_code_plain (random n) in
          let finds = user_id_lem c (set_code user c s) ∙ holder_self user c v s.users h free in
          let eq : (ok c, set_code user c s) ≡ (ok code, s') = rw (allocate_code, free) at done in
          let same : c ≡ code = ground (arith, eq) in
          let after : set_code user c s ≡ s' = ap (λ p. p.1) eq in
          (rw (sym same) fit, rw (sym same, sym after) finds)
      | inr (e, taken) ↦
          allocate_code-finds user n random v s s' h (rw (allocate_code, taken) at done)
    ]

-- When all codes are found as their users' and a user asks for a code, then they are so again, and the
-- code that the user gets is found as that user's, typed as it is or in lower case.
pub ensure_referral_code_lem :
    (user : ℕ) (random : ℕ → List ℕ) (s s' : ReferralDb) (code : Text)
    → IsResolved s
    → ensure_referral_code user random s ≡ (ok code, s')
    → IsResolved s'
      × (user_id_by_referral_code (canonical code) s' ≡ some user)
      × (user_id_by_referral_code (canonical (to_lower code)) s' ≡ some user)
unfolding ensure_referral_code
ensure_referral_code_lem user random s s' code inv done =
    elim (Option-cases (lookup user s.users)) [
      | inl missing ↦ absurd (ground arith)
      | inr (r, found) ↦ elim (Option-cases r.referral_code) [
        | inl none_yet ↦
            let run : allocate_code user 5 random s ≡ (ok code, s') =
              rw (ensure_referral_code, found, none_yet) at done in
            let made = allocate_code-finds user 5 random r s s' found run in
            (
              rw (sym (ap (λ p. p.1) run))
                  (allocate_code-IsResolved user 5 random r s inv found none_yet),
              rw (canonical_plain code made.0).0 made.1,
              rw (canonical_plain code made.0).1 made.1,
            )
        | inr (c, there) ↦
            let eq : (ok c, s) ≡ (ok code, s') = rw (ensure_referral_code, found, there) at done in
            let same : c ≡ code = ground (arith, eq) in
            let after : s ≡ s' = ap (λ p. p.1) eq in
            let typed = canonical_plain c (inv.plain user r c found there) in
            let mine = inv.resolves user r c found there in
            (
              rw (sym after) inv,
              rw (sym same, sym after, typed.0) mine,
              rw (sym same, sym after, typed.1) mine,
            )
      ]
    ]
