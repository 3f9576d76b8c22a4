-- ===== src/Base/Session.antt =====
-- Sequences of transactions: each commits by itself, so that an error keeps what came before it.
use mathlib.Core.Path.{◌≡◌, refl}
use native.Mathlib.Omega.{arith}
use erebrus_gateway.Base.Tx.{Error, Result, ok, err, Tx, settle, transact}

abbrev pub Session : Type 0 → Type 0 → Type 0
Session S A = S → Result A × S

infixl 5 ◌>>=◌ ◌>>◌
abbrev pub ◌>>=◌ : {S A B : Type 0} → Session S A → (A → Session S B) → Session S B
(m >>= f) s = let (r, s') = m s in elim r [ ok a ↦ f a s' | err e ↦ (err e, s') ]

abbrev pub ◌>>◌ : {S A B : Type 0} → Session S A → Session S B → Session S B
m >> k = m >>= λ _. k

module _ {S : Type 0} where
  abbrev pub pure : {A : Type 0} → A → Session S A
  pure a s = (ok a, s)

  abbrev pub throw : {A : Type 0} → Error → Session S A
  throw e s = (err e, s)

  abbrev pub get : Session S S
  get s = (ok s, s)

  -- A transaction by itself.
  abbrev pub commit : {A : Type 0} → Tx S A → Session S A
  commit m s = transact m s

-- A sequence that succeeds, taken apart.
pub >>=-eq-ok :
    {S A B : Type 0} (m : Session S A) (f : A → Session S B) (s : S) {b : B} {s' : S}
    → (m >>= f) s ≡ (ok b, s')
    → (a : A) × (t : S) × (m s ≡ (ok a, t)) × (f a t ≡ (ok b, s'))
>>=-eq-ok {S} {A} {B} m f s {b} {s'} h = go (m s) refl h
  where
    go :
        (r : Result A × S)
        → m s ≡ r
        → (let (x, t) = r in elim x [ ok a ↦ f a t | err e ↦ (err e, t) ]) ≡ (ok b, s')
        → (a : A) × (t : S) × (m s ≡ (ok a, t)) × (f a t ≡ (ok b, s'))
    go (ok a, t) p k = (a, t, p, k)
    go (err e, t) p k = cc

-- A transaction that succeeds by itself has succeeded.
pub commit-eq-ok :
    {S A : Type 0} (m : Tx S A) (s : S) {a : A} {t : S} → commit m s ≡ (ok a, t) → m s ≡ ok (a, t)
commit-eq-ok {S} {A} m s {a} {t} h = go (m s) refl h
  where
    go : (r : Result (A × S)) → m s ≡ r → settle s r ≡ (ok a, t) → m s ≡ ok (a, t)
    go (ok (x, u)) p k = ground (arith, p)
    go (err e) p k = cc
