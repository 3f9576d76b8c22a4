-- ===== src/Base/Tx.antt =====
-- The results of the store's methods, and its transactions: a step of a transaction takes the
-- database and gives a value with the new database, or an error, on which all is rolled back.
use mathlib.Core.Path.{◌≡◌, refl}
use mathlib.Core.Logic.{◌⊎◌, inl, inr}
use mathlib.Core.Bool.{Bool, true, false}
use mathlib.Core.Option.{Option, none, some}

-- The errors that callers tell apart; `db_error` is any other failure (of a constraint, of an
-- arithmetic range), `no_manager_seat` the two messages about seats of managers and `refused` any other
-- message made by fmt.Errorf.
pub data Error : Type 0 where
  not_found conflict quota_exceeded node_capacity node_unavailable db_error refused
        no_manager_seat :
      Error

pub data Result {ℓ} (A : Type ℓ) : Type ℓ where
  ok : A → Result A
  err : Error → Result A

-- A transaction over a state `S`.
abbrev pub Tx : Type 0 → Type 0 → Type 0
Tx S A = S → Result (A × S)

infixl 5 ◌>>=◌ ◌>>◌
abbrev pub ◌>>=◌ : {S A B : Type 0} → Tx S A → (A → Tx S B) → Tx S B
◌>>=◌ m f s = elim (m s) [ ok (a, s') ↦ f a s' | err e ↦ err e ]

abbrev pub ◌>>◌ : {S A B : Type 0} → Tx S A → Tx S B → Tx S B
m >> k = m >>= λ _. k

module _ {S : Type 0} where
  abbrev pub pure : {A : Type 0} → A → Tx S A
  pure a s = ok (a, s)

  abbrev pub throw : {A : Type 0} → Error → Tx S A
  throw e s = err e

  abbrev pub get : Tx S S
  get s = ok (s, s)

  abbrev pub modify : (S → S) → Tx S (Unit {0})
  modify f s = ok (tt, f s)

  abbrev pub guard : Bool → Error → Tx S (Unit {0})
  guard true e s = ok (tt, s)
  guard false e s = err e

  abbrev pub from_option : {A : Type 0} → Option A → Error → Tx S A
  from_option (some a) e s = ok (a, s)
  from_option none e s = err e

  abbrev pub from_result : {A : Type 0} → Result A → Tx S A
  from_result (ok a) s = ok (a, s)
  from_result (err e) s = err e

  -- Runs a transaction: an error leaves the database as it was.
  abbrev pub settle : {A : Type 0} → S → Result (A × S) → Result A × S
  settle s (ok (a, s')) = (ok a, s')
  settle s (err e) = (err e, s)

  abbrev pub transact : {A : Type 0} → Tx S A → S → Result A × S
  transact m s = settle s (m s)

-- A sequence that succeeds, taken apart.
pub >>=-eq-ok :
    {S A B : Type 0} (m : Tx S A) (f : A → Tx S B) (s : S) {b : B} {s' : S}
    → (m >>= f) s ≡ ok (b, s')
    → (a : A) × (t : S) × (m s ≡ ok (a, t)) × (f a t ≡ ok (b, s'))
>>=-eq-ok {S} {A} {B} m f s {b} {s'} h = go (m s) refl h
  where
    go :
        (r : Result (A × S))
        → m s ≡ r
        → (elim r [ ok (a, t) ↦ f a t | err e ↦ err e ]) ≡ ok (b, s')
        → (a : A) × (t : S) × (m s ≡ ok (a, t)) × (f a t ≡ ok (b, s'))
    go (ok (a, t)) p k = (a, t, p, k)
    go (err e) p k = cc

pub Result-cases :
    {A : Type 0} (r : Result A) → ((a : A) × (r ≡ ok a)) ⊎ ((e : Error) × (r ≡ err e))
Result-cases (ok a) = inl (a, refl)
Result-cases (err e) = inr (e, refl)
