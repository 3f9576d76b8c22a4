-- ===== src/Base/Keys.antt =====
-- Tables whose keys are distinct, as those of a Go map are.
use erebrus_gateway.Base.Tests.{◌==◌, if◌then◌else◌, Bool-cases}
use erebrus_gateway.Base.Table.{Table, lookup, insert, adjust, delete_where, sum, find_row}
use Prim.Native.Nat.{ℕ, ◌+◌}
use mathlib.Core.Path.{◌≡◌, refl}
use mathlib.Core.Bool.{Bool, false}
use mathlib.Core.Logic.{inl, inr}
use mathlib.Core.List.{[], ◌∷◌}
use mathlib.Core.Option.{none, some}
use native.Mathlib.Omega.{arith}

module _ {V : Type 0} where
  -- delete(m, k)
  unfoldable pub delete_key : ℕ → Table V → Table V
  unfolding delete_where
  delete_key k t = delete_where (λ j _. j == k) t

  abbrev pub IsUnique : Table V → Type 0
  IsUnique [] = Unit {0}
  IsUnique ((j, v) ∷ t) = (lookup j t ≡ none) × IsUnique t

  pub lookup-delete_key :
      (k j : ℕ) (t : Table V) → lookup j (delete_key k t) ≡ (if j == k then none else lookup j t)
  unfolding lookup delete_key delete_where
  lookup-delete_key k j [] = ground arith
  lookup-delete_key k j (e ∷ t) = ground (arith, lookup-delete_key k j t)

  insert_fresh :
      (k j : ℕ) (v : V) (t : Table V)
      → lookup j t ≡ none
      → (k == j) ≡ false
      → lookup j (insert k v t) ≡ none
  unfolding lookup insert
  insert_fresh k j v [] h d = ground arith
  insert_fresh k j v (e ∷ t) h d = ground (arith, insert_fresh k j v t)

  pub insert-IsUnique : (k : ℕ) (v : V) (t : Table V) → IsUnique t → IsUnique (insert k v t)
  unfolding insert lookup
  insert-IsUnique k v [] u = (refl, tt)
  insert-IsUnique k v ((j, w) ∷ t) u =
      ground (arith, insert_fresh k j v t, insert-IsUnique k v t u.1)

  pub delete_key-IsUnique : (k : ℕ) (t : Table V) → IsUnique t → IsUnique (delete_key k t)
  unfolding delete_key delete_where
  delete_key-IsUnique k [] u = tt
  delete_key-IsUnique k ((j, w) ∷ t) u =
      ground (arith, lookup-delete_key k j t, delete_key-IsUnique k t u.1)

  -- A row put in the place of another changes a sum by the difference.
  pub sum-insert_over :
      (w : V → ℕ) (k : ℕ) (v old : V) (t : Table V)
      → lookup k t ≡ some old
      → sum w (insert k v t) + w old ≡ sum w t + w v
  unfolding lookup insert sum
  sum-insert_over w k v old [] h = ground arith
  sum-insert_over w k v old (e ∷ t) h = ground (arith, sum-insert_over w k v old t)

  sum-delete_fresh :
      (w : V → ℕ) (k : ℕ) (t : Table V) → lookup k t ≡ none → sum w (delete_key k t) ≡ sum w t
  unfolding lookup delete_key delete_where sum
  sum-delete_fresh w k [] h = refl
  sum-delete_fresh w k (e ∷ t) h = ground (arith, sum-delete_fresh w k t)

  pub sum-delete_key :
      (w : V → ℕ) (k : ℕ) (v : V) (t : Table V)
      → IsUnique t
      → lookup k t ≡ some v
      → sum w (delete_key k t) + w v ≡ sum w t
  unfolding lookup delete_key delete_where sum
  sum-delete_key w k v [] u h = ground arith
  sum-delete_key w k v ((j, x) ∷ t) u h =
      ground (arith, sum-delete_key w k v t u.1, sum-delete_fresh w k t)

  -- Weights that agree on the rows of a table have the same sum.
  pub sum_cong :
      (w w' : V → ℕ) (t : Table V)
      → IsUnique t
      → ((k : ℕ) (v : V) → lookup k t ≡ some v → w v ≡ w' v)
      → sum w t ≡ sum w' t
  unfolding lookup sum
  sum_cong w w' [] u h = refl
  sum_cong w w' ((j, x) ∷ t) u h =
      let here = h j x (ground arith) in
      let there = sum_cong w w' t u.1 (λ k v p. h k v (ground arith)) in ground arith

  -- Weights that agree except on the row of one key differ in their sums by that row.
  pub sum_change :
      (w w' : V → ℕ) (k : ℕ) (v : V) (t : Table V)
      → IsUnique t
      → lookup k t ≡ some v
      → ((j : ℕ) (u : V) → (j == k) ≡ false → lookup j t ≡ some u → w u ≡ w' u)
      → sum w' t + w v ≡ sum w t + w' v
  unfolding lookup sum
  sum_change w w' k v [] u h same = ground arith
  sum_change w w' k v ((j, x) ∷ t) u h same = elim (Bool-cases (j == k)) [
    | inl here ↦
        let rest = sum_cong w w' t u.1 (λ i y p. same i y (ground arith) (ground arith)) in
        ground arith
    | inr there ↦
        let this = same j x there (ground arith) in
        let rest =
          sum_change w w' k v t u.1 (ground arith) (λ i y d p. same i y d (ground arith)) in
        ground arith
  ]

  -- A deletion by condition takes away the rows that satisfy it.
  pub lookup-delete_where :
      (p : ℕ → V → Bool) (i : ℕ) (t : Table V)
      → IsUnique t
      → lookup i (delete_where p t)
        ≡ (elim (lookup i t) [ none ↦ none | some v ↦ if p i v then none else some v ])
  unfolding lookup delete_where
  lookup-delete_where p i [] u = ground arith
  lookup-delete_where p i ((j, v) ∷ t) u = elim (Bool-cases (j == i)) [
    | inl here ↦
        let same : j ≡ i = ground arith in
        elim (Bool-cases (p i v)) [
          | inl gone ↦ ground (arith, lookup-delete_where p i t u.1, same, u.0)
          | inr kept ↦ ground (arith, same)
        ]
    | inr there ↦ ground (arith, lookup-delete_where p i t u.1)
  ]

  pub delete_where-IsUnique :
      (p : ℕ → V → Bool) (t : Table V) → IsUnique t → IsUnique (delete_where p t)
  unfolding delete_where
  delete_where-IsUnique p [] u = tt
  delete_where-IsUnique p ((j, v) ∷ t) u =
      ground (arith, lookup-delete_where p j t u.1, delete_where-IsUnique p t u.1)

  pub lookup-adjust :
      (k i : ℕ) (f : V → V) (t : Table V)
      → lookup i (adjust k f t)
        ≡ (elim (lookup i t) [ none ↦ none | some v ↦ if k == i then some (f v) else some v ])
  unfolding lookup adjust
  lookup-adjust k i f [] = ground arith
  lookup-adjust k i f (e ∷ t) = ground (arith, lookup-adjust k i f t)

  pub adjust-IsUnique : (k : ℕ) (f : V → V) (t : Table V) → IsUnique t → IsUnique (adjust k f t)
  unfolding adjust
  adjust-IsUnique k f [] u = tt
  adjust-IsUnique k f ((j, v) ∷ t) u =
      ground (arith, lookup-adjust k j f t, adjust-IsUnique k f t u.1)

  -- The row that a search finds is that of its key.
  pub lookup-find_row :
      (p : V → Bool) (i : ℕ) (v : V) (t : Table V)
      → IsUnique t
      → find_row p t ≡ some (i, v)
      → lookup i t ≡ some v
  unfolding lookup find_row
  lookup-find_row p i v [] u h = ground arith
  lookup-find_row p i v ((j, w) ∷ t) u h = elim (Bool-cases (p w)) [
    | inl here ↦ ground arith
    | inr there ↦
        let rest : lookup i t ≡ some v = lookup-find_row p i v t u.1 (ground arith) in
        elim (Bool-cases (j == i)) [
          | inl same ↦ let e : j ≡ i = ground arith in absurd (ground (arith, e, u.0))
          | inr other ↦ ground arith
        ]
  ]
