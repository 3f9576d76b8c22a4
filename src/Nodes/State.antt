-- ===== src/Nodes/State.antt =====
-- The tables of the organizations' nodes, beside the database that the other parts share.
use erebrus_gateway.Base.{
  ℕ, suc, ◌+◌, ◌≤◌, ◌≡◌, ◌++◌, Bool, [], ◌∷◌, if◌then◌else◌, arith, Bool-cases, inl, inr,
}
use erebrus_gateway.Base.Table.{Table, sum, update_first}
use erebrus_gateway.Base.Tx.{ok, err, Tx}
use erebrus_gateway.Model.Db.{Db}
use erebrus_gateway.Model.Drop.{Node}
use erebrus_gateway.Model.Fleet.{OrgNode, OrgNodeService, SentinelLicense, RegistrationToken}

-- `next` is the identifier that the database or uuid.NewString makes next.
pub record Fleet : Type 0 where
  pub db : Db
  pub org_nodes : Table OrgNode  -- by peer id
  pub services : Table OrgNodeService
  pub licenses : Table SentinelLicense  -- the oldest first
  pub tokens : Table RegistrationToken
  pub next : ℕ

-- A transaction on the shared tables.
abbrev pub on_db : {A : Type 0} → Tx Db A → Tx Fleet A
on_db m s = elim (m s.db) [ ok (a, d) ↦ ok (a, record s { db = d }) | err e ↦ err e ]

-- A new identifier.
abbrev pub new_id : Tx Fleet ℕ
new_id s = ok (s.next, record s { next = suc s.next })

-- SELECT count(*) ... WHERE p
unfoldable pub count : {V : Type 0} → (V → Bool) → Table V → ℕ
unfolding sum
count p t = sum (λ v. if p v then 1 else 0) t

abbrev pub update_nodes : (Table Node → Table Node) → Fleet → Fleet
update_nodes f s = record s { db = record s.db { nodes = f s.db.nodes } }

module _ {V : Type 0} where
  -- A last row counts if it satisfies the condition.
  pub count-append :
      (p : V → Bool) (k : ℕ) (v : V) (t : Table V)
      → count p (t ++ (k, v) ∷ []) ≡ count p t + (if p v then 1 else 0)
  unfolding count sum
  count-append p k v [] = ground arith
  count-append p k v ((j, w) ∷ t) = ground (arith, count-append p k v t)

  -- A new row counts once at most, and an update of one row counts one row more at most.
  pub count-cons_le :
      (p : V → Bool) (k : ℕ) (v : V) (t : Table V) → count p ((k, v) ∷ t) ≤ suc (count p t)
  unfolding count sum
  count-cons_le p k v t = elim (Bool-cases (p v)) [ inl h ↦ ground arith | inr h ↦ ground arith ]

  pub count-update_first_le :
      (p q : V → Bool) (f : V → V) (t : Table V) → count p (update_first q f t) ≤ suc (count p t)
  unfolding count sum update_first
  count-update_first_le p q f [] = ground arith
  count-update_first_le p q f ((k, v) ∷ t) = elim (Bool-cases (q v)) [
    | inl h ↦ elim (Bool-cases (p (f v))) [ inl a ↦ ground arith | inr a ↦ ground arith ]
    | inr h ↦ elim (Bool-cases (p v)) [
      | inl a ↦ ground (arith, count-update_first_le p q f t)
      | inr a ↦ ground (arith, count-update_first_le p q f t)
    ]
  ]
