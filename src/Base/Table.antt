-- ===== src/Base/Table.antt =====
-- A table of the database as an association list from its primary key to the row.
use erebrus_gateway.Base.Tests.{◌==◌, if◌then◌else◌}
use Prim.Native.Nat.{ℕ, ◌+◌, ◌≤◌}
use mathlib.Core.Path.{◌≡◌, refl}
use mathlib.Core.Logic.{◌⊎◌}
use mathlib.Core.Bool.{Bool, true, false}
use mathlib.Core.List.{List, [], ◌∷◌}
use mathlib.Core.Option.{Option, none, some}
use native.Mathlib.Omega.{arith}

abbrev pub Table {ℓ} : Type ℓ → Type ℓ
Table V = List (ℕ × V)

module _ {ℓ} {V : Type ℓ} where
  -- SELECT ... WHERE id = k
  unfoldable pub lookup : ℕ → Table V → Option V
  lookup k [] = none
  lookup k ((j, v) ∷ t) = if j == k then some v else lookup k t

  -- INSERT ... ON CONFLICT (id) DO UPDATE
  unfoldable pub insert : ℕ → V → Table V → Table V
  insert k v [] = (k, v) ∷ []
  insert k v ((j, w) ∷ t) = if j == k then (k, v) ∷ t else (j, w) ∷ insert k v t

  -- UPDATE ... SET f WHERE id = k
  unfoldable pub adjust : ℕ → (V → V) → Table V → Table V
  adjust k f [] = []
  adjust k f ((j, w) ∷ t) = if j == k then (j, f w) ∷ t else (j, w) ∷ adjust k f t

  -- The first row that satisfies a condition, with its key.
  unfoldable pub find_row : (V → Bool) → Table V → Option (ℕ × V)
  find_row p [] = none
  find_row p ((j, v) ∷ t) = if p v then some (j, v) else find_row p t

  -- UPDATE ... SET f WHERE p, of a condition that a unique key lets one row satisfy
  unfoldable pub update_first : (V → Bool) → (V → V) → Table V → Table V
  update_first p f [] = []
  update_first p f ((j, v) ∷ t) = if p v then (j, f v) ∷ t else (j, v) ∷ update_first p f t

  -- UPDATE ... SET f WHERE p
  unfoldable pub update_where : (V → Bool) → (V → V) → Table V → Table V
  update_where p f [] = []
  update_where p f ((j, v) ∷ t) =
      let rest = update_where p f t in if p v then (j, f v) ∷ rest else (j, v) ∷ rest

  -- DELETE ... WHERE p
  unfoldable pub delete_where : (ℕ → V → Bool) → Table V → Table V
  delete_where p [] = []
  delete_where p ((j, v) ∷ t) = let rest = delete_where p t in if p j v then rest else (j, v) ∷ rest

  -- A sum over all rows.
  unfoldable pub sum : (V → ℕ) → Table V → ℕ
  sum w [] = 0
  sum w ((j, v) ∷ t) = w v + sum w t

  pub lookup-insert :
      (k j : ℕ) (v : V) (t : Table V)
      → lookup j (insert k v t) ≡ (if k == j then some v else lookup j t)
  unfolding lookup insert
  lookup-insert k j v [] = refl
  lookup-insert k j v (e ∷ t) = ground (arith, lookup-insert k j v t)

  pub lookup-adjust_ne :
      (k j : ℕ) (f : V → V) (t : Table V) → (k == j) ≡ false → lookup j (adjust k f t) ≡ lookup j t
  unfolding lookup adjust
  lookup-adjust_ne k j f [] h = refl
  lookup-adjust_ne k j f (e ∷ t) h = ground (arith, lookup-adjust_ne k j f t h)

  pub lookup-adjust_self :
      (k : ℕ) (f : V → V) (t : Table V) (v : V)
      → lookup k t ≡ some v
      → lookup k (adjust k f t) ≡ some (f v)
  unfolding lookup adjust
  lookup-adjust_self k f [] v h = ground arith
  lookup-adjust_self k f (e ∷ t) v h = ground (arith, lookup-adjust_self k f t v)

  pub lookup-adjust-none : (k : ℕ) (f : V → V) (t : Table V) → lookup k t ≡ none → adjust k f t ≡ t
  unfolding lookup adjust
  lookup-adjust-none k f [] h = refl
  lookup-adjust-none k f (e ∷ t) h = ground (arith, lookup-adjust-none k f t)

  -- An update of one row changes a sum by the change of that row.
  pub sum-adjust :
      (w : V → ℕ) (k : ℕ) (f : V → V) (t : Table V) (v : V)
      → lookup k t ≡ some v
      → sum w (adjust k f t) + w v ≡ sum w t + w (f v)
  unfolding lookup adjust sum
  sum-adjust w k f [] v h = ground arith
  sum-adjust w k f (e ∷ t) v h = ground (arith, sum-adjust w k f t v)

  -- A row under a fresh key adds its weight.
  pub sum-insert :
      (w : V → ℕ) (k : ℕ) (v : V) (t : Table V)
      → lookup k t ≡ none
      → sum w (insert k v t) ≡ sum w t + w v
  unfolding lookup insert sum
  sum-insert w k v [] h = ground arith
  sum-insert w k v (e ∷ t) h = ground (arith, sum-insert w k v t)

  -- No row weighs more than the whole table.
  pub le-sum : (w : V → ℕ) (k : ℕ) (t : Table V) (v : V) → lookup k t ≡ some v → w v ≤ sum w t
  unfolding lookup sum
  le-sum w k [] v h = ground arith
  le-sum w k (e ∷ t) v h = ground (arith, le-sum w k t v)

  -- An update that keeps every row's weight keeps the sum.
  pub sum-adjust_same :
      (w : V → ℕ) (k : ℕ) (f : V → V) (t : Table V)
      → ((v : V) → w (f v) ≡ w v)
      → sum w (adjust k f t) ≡ sum w t
  unfolding adjust sum
  sum-adjust_same w k f [] h = refl
  sum-adjust_same w k f (e ∷ t) h = ground (arith, h e.1, sum-adjust_same w k f t h)

  -- An update makes no new key.
  pub lookup-adjust_fresh :
      (k j : ℕ) (f : V → V) (t : Table V) → lookup j t ≡ none → lookup j (adjust k f t) ≡ none
  unfolding lookup adjust
  lookup-adjust_fresh k j f [] h = refl
  lookup-adjust_fresh k j f (e ∷ t) h = ground (arith, lookup-adjust_fresh k j f t)

  -- A search that finds nothing in a table finds a fresh row that satisfies the condition.
  pub find_row-insert :
      (p : V → Bool) (k : ℕ) (v : V) (t : Table V)
      → lookup k t ≡ none
      → find_row p t ≡ none
      → p v ≡ true
      → find_row p (insert k v t) ≡ some (k, v)
  unfolding lookup insert find_row
  find_row-insert p k v [] fresh missing h = ground arith
  find_row-insert p k v (e ∷ t) fresh missing h = ground (arith, find_row-insert p k v t)

  -- An update of the row that a search finds changes a sum by the change of that row.
  pub sum-update_first :
      (w : V → ℕ) (p : V → Bool) (f : V → V) (t : Table V) (i : ℕ) (v : V)
      → find_row p t ≡ some (i, v)
      → sum w (update_first p f t) + w v ≡ sum w t + w (f v)
  unfolding find_row update_first sum
  sum-update_first w p f [] i v h = ground arith
  sum-update_first w p f (e ∷ t) i v h = ground (arith, sum-update_first w p f t i v)

  -- The row that a search finds satisfies the condition.
  pub find_row-holds :
      (p : V → Bool) (t : Table V) (i : ℕ) (v : V) → find_row p t ≡ some (i, v) → p v ≡ true
  unfolding find_row
  find_row-holds p [] i v h = ground arith
  find_row-holds p (e ∷ t) i v h = ground (arith, find_row-holds p t i v)

  -- A search finds the row it found before, updated, if the update keeps the condition.
  pub find_row-update_first_self :
      (p : V → Bool) (f : V → V) (t : Table V) (i : ℕ) (v : V)
      → p (f v) ≡ true
      → find_row p t ≡ some (i, v)
      → find_row p (update_first p f t) ≡ some (i, f v)
  unfolding find_row update_first
  find_row-update_first_self p f [] i v k h = ground arith
  find_row-update_first_self p f (e ∷ t) i v k h =
      ground (arith, find_row-update_first_self p f t i v k)

  -- A search finds what it found before if the update keeps its condition false on the other rows.
  pub find_row-update_first_ne :
      (p q : V → Bool) (f : V → V) (t : Table V)
      → ((v : V) → p v ≡ true → (q v ≡ false) × (q (f v) ≡ false))
      → find_row q (update_first p f t) ≡ find_row q t
  unfolding find_row update_first
  find_row-update_first_ne p q f [] h = refl
  find_row-update_first_ne p q f (e ∷ t) h =
      ground (arith, h e.1, find_row-update_first_ne p q f t h)

  -- An update of the row that a search finds leaves a row that differs from it by a test.
  pub lookup-update_first_ne :
      (p q : V → Bool) (f : V → V) (i j : ℕ) (v w : V) (t : Table V)
      → find_row p t ≡ some (j, w)
      → q w ≡ false
      → lookup i t ≡ some v
      → q v ≡ true
      → lookup i (update_first p f t) ≡ some v
  unfolding lookup find_row update_first
  lookup-update_first_ne p q f i j v w [] found differs h same = ground arith
  lookup-update_first_ne p q f i j v w (e ∷ t) found differs h same =
      ground (arith, lookup-update_first_ne p q f i j v w t)

  -- An update leaves a row that it maps to itself.
  pub lookup-update_first_fixed :
      (p : V → Bool) (f : V → V) (i : ℕ) (v : V) (t : Table V)
      → f v ≡ v
      → lookup i t ≡ some v
      → lookup i (update_first p f t) ≡ some v
  unfolding lookup update_first
  lookup-update_first_fixed p f i v [] fixed h = ground arith
  lookup-update_first_fixed p f i v (e ∷ t) fixed h =
      ground (arith, lookup-update_first_fixed p f i v t)

  -- An update of another row leaves a row.
  pub lookup-adjust_other :
      (k i : ℕ) (q : V → Bool) (f : V → V) (v w : V) (t : Table V)
      → lookup k t ≡ some w
      → q w ≡ false
      → lookup i t ≡ some v
      → q v ≡ true
      → lookup i (adjust k f t) ≡ some v
  unfolding lookup adjust
  lookup-adjust_other k i q f v w [] found differs h same = ground arith
  lookup-adjust_other k i q f v w (e ∷ t) found differs h same =
      ground (arith, lookup-adjust_other k i q f v w t)

  -- An update of all rows of a condition that makes it false leaves no such row.
  pub find_row-update_where :
      (p : V → Bool) (f : V → V) (t : Table V)
      → ((v : V) → p (f v) ≡ false)
      → find_row p (update_where p f t) ≡ none
  unfolding find_row update_where
  find_row-update_where p f [] h = refl
  find_row-update_where p f (e ∷ t) h = ground (arith, h e.1, find_row-update_where p f t h)

module _ {V : Type 0} where
  -- A row stands in a table.
  abbrev pub HasRow : ℕ → V → Table V → Type 0
  HasRow k v [] = ⊥
  HasRow k v (e ∷ t) = (e ≡ (k, v)) ⊎ HasRow k v t
