-- ===== src/Drop/ReserveGuards.antt =====
-- What a request for a reservation that is granted has passed.
use Prim.Native.String.{String}
use erebrus_gateway.Base.{
  ℕ, ◌≡◌, refl, true, not, Option, none, some, arith, Bool-cases, Option-cases, ◌⊎◌, inl, inr,
}
use erebrus_gateway.Base.Table.{lookup}
use erebrus_gateway.Base.Tx.{Result, ok, transact, Result-cases}
use erebrus_gateway.Model.Org.{Member}
use erebrus_gateway.Model.Drop.{Scope, DropUpload, Node}
use erebrus_gateway.Model.Db.{Db}
use erebrus_gateway.Orgs.Seats.{active_membership}
use erebrus_gateway.Drop.Upload.{reserve_drop_upload}
use erebrus_gateway.Drop.Access.{is_visible}
use erebrus_gateway.Drop.Transfers.{revalidate_drop_node}
use erebrus_gateway.Drop.ReserveHandler.{
  DropReserveReq, requested_visibility, malformed, normalize_drop_scope, not_permitted,
  wrongly_encrypted, reserve_input, is_some, handle_drop_reserve_upload, or_else, answered,
}

encryption_of :
    (r : DropReserveReq)
    → wrongly_encrypted r ≡ none
    → (is_visible (requested_visibility r) ≡ not r.file_meta.encrypted)
      × ((is_visible (requested_visibility r) ≡ true)
          ⊎ (is_some r.file_meta.encryption_metadata ≡ true))
unfolding wrongly_encrypted
encryption_of r h = elim (Bool-cases (is_visible (requested_visibility r))) [
  | inl public ↦ (ground arith, inl public)
  | inr hidden ↦ (ground arith, inr (ground arith))
]

permission_of :
    (user : ℕ) (r : DropReserveReq) (n : Node) (scope : Scope) (s : Db)
    → not_permitted user r n scope s ≡ none
    → ((scope ≡ Scope.public) × (n.is_public ≡ true))
      ⊎ ((org : ℕ) × (m : Member) × (r.org ≡ some org)
          × (active_membership org user s ≡ some m)
          × (n.org ≡ some org))
unfolding not_permitted
permission_of user r n Scope.public s h = inl (refl, ground arith)
permission_of user r n Scope.private_org s h = elim (Option-cases r.org) [
  | inl missing ↦ absurd (ground arith)
  | inr (org, given) ↦ elim (Option-cases (active_membership org user s)) [
    | inl stranger ↦ absurd (ground arith)
    | inr (m, member) ↦ inr (org, m, given, member, ground arith)
  ]
]

-- No refusal has the status of a success.
malformed_status : (r : DropReserveReq) → malformed r ≡ some 201 → ⊥
unfolding malformed
malformed_status r h = ground arith

not_permitted_status :
    (user : ℕ) (r : DropReserveReq) (n : Node) (scope : Scope) (s : Db)
    → not_permitted user r n scope s ≡ some 201
    → ⊥
unfolding not_permitted
not_permitted_status user r n Scope.public s h = ground arith
not_permitted_status user r n Scope.private_org s h = ground arith

wrongly_encrypted_status : (r : DropReserveReq) → wrongly_encrypted r ≡ some 201 → ⊥
unfolding wrongly_encrypted
wrongly_encrypted_status r h = ground arith

revalidate_status :
    (node : ℕ) (scope : Scope) (s : Db) → revalidate_drop_node node scope true s ≡ some 201 → ⊥
unfolding revalidate_drop_node
revalidate_status node scope s h = ground arith

passed :
    (o : Option ℕ) (s s' : Db) (rest : ℕ × Db)
    → (o ≡ some 201 → ⊥)
    → or_else o s rest ≡ (201, s')
    → (o ≡ none) × (rest ≡ (201, s'))
passed none s s' rest not_granted h = (refl, h)
passed (some code) s s' rest not_granted h = absurd (not_granted (ground arith))

-- A reservation that is granted (201) is one that the store has made, and its request has passed the
-- guards: content to be private is encrypted, with the metadata of its encryption, and content to be
-- public is not encrypted; in the public scope the node is public, and otherwise the caller is an
-- active member of the organization of the request, to which the node belongs.
pub handle_drop_reserve_upload_lem :
    (uuid_text : ℕ → String) (user : ℕ) (r : DropReserveReq) (now id node : ℕ) (scope : Scope)
    (n : Node) (s s' : Db)
    → r.node ≡ some node
    → normalize_drop_scope r.scope ≡ some scope
    → lookup node s.nodes ≡ some n
    → handle_drop_reserve_upload uuid_text user r now id s ≡ (201, s')
    → (is_visible (requested_visibility r) ≡ not r.file_meta.encrypted)
      × ((is_visible (requested_visibility r) ≡ true)
          ⊎ (is_some r.file_meta.encryption_metadata ≡ true))
      × (((scope ≡ Scope.public) × (n.is_public ≡ true))
          ⊎ ((org : ℕ) × (m : Member) × (r.org ≡ some org)
              × (active_membership org user s ≡ some m)
              × (n.org ≡ some org)))
      × ((u : ℕ × DropUpload) × (reserve_drop_upload uuid_text
              (reserve_input user r node scope s)
              now
              id
              s
            ≡ ok (u, s')))
unfolding handle_drop_reserve_upload
handle_drop_reserve_upload_lem uuid_text user r now id node scope n s s' given named found h =
    let done =
      transact (reserve_drop_upload uuid_text (reserve_input user r node scope s) now id) s in
    let last = or_else (revalidate_drop_node node scope true s) s (answered done) in
    let checked = or_else (wrongly_encrypted r) s last in
    let allowed = or_else (not_permitted user r n scope s) s checked in
    let whole : or_else (malformed r) s allowed ≡ (201, s') = rw (given, named, found) at h in
    let (_, h1) = passed (malformed r) s s' allowed (malformed_status r) whole in
    let (may, h2) =
      passed (not_permitted user r n scope s) s s' checked (not_permitted_status user r n scope s)
        h1 in
    let (proper, h3) = passed (wrongly_encrypted r) s s' last (wrongly_encrypted_status r) h2 in
    let (_, h4) =
      passed (revalidate_drop_node node scope true s) s s' (answered done)
        (revalidate_status node scope s) h3 in
    let (e1, e2) = encryption_of r proper in
    (e1, e2, permission_of user r n scope s may, made done refl h4)
  where
    made :
        (d : Result (ℕ × DropUpload) × Db)
        → transact (reserve_drop_upload uuid_text (reserve_input user r node scope s) now id) s ≡ d
        → answered d ≡ (201, s')
        → (u : ℕ × DropUpload) × (reserve_drop_upload uuid_text
              (reserve_input user r node scope s)
              now
              id
              s
            ≡ ok (u, s'))
    made d e k =
        elim (Result-cases
          (reserve_drop_upload uuid_text (reserve_input user r node scope s) now id s)) [
            | inl ((u, t), kept) ↦ (u, ground arith)
            | inr (x, failed) ↦ absurd (ground arith)
          ]
