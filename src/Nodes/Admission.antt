-- ===== src/Nodes/Admission.antt =====
-- Whose nodes an organization takes: the enrolment handler, its token and its store method together.
use erebrus_gateway.Base.{
  ◌⊎◌, Option, ℕ, ◌≤◌, ◌≡◌, true, none, some, arith, ◌==◌, Bool-cases, Option-cases, inl, inr, refl,
  ap,
}
use erebrus_gateway.Base.Table.{lookup, find_row}
use erebrus_gateway.Base.Text.{Text, trim_space}
use erebrus_gateway.Base.Tx.{
  Result, Result-cases, ok, err, not_found, conflict, quota_exceeded, node_capacity,
  node_unavailable, db_error, refused, no_manager_seat,
}
use erebrus_gateway.Model.Fleet.{TokenScope, RegistrationToken}
use erebrus_gateway.Model.Org.{Role, Member}
use erebrus_gateway.Nodes.Enrollment.{MayRegister, register_node_lem}
use erebrus_gateway.Nodes.Handlers.{
  enrolls, is_bound_to, registration_answer, unprofiled, presented_token, register_with,
  handle_org_node_register,
}
use erebrus_gateway.Nodes.Registration.{
  is_empty, NodeRegistration, register_node, after_register, register_org_node_from_runtime,
}
use erebrus_gateway.Nodes.State.{Fleet}
use erebrus_gateway.Nodes.Tokens.{has_hash, scope_allowed, lookup_node_registration_token}
use erebrus_gateway.Orgs.Seats.{active_membership}

-- A token of the organization that enrols this node, under the hash that was presented.
pub record Enrolls (org peer now hash : ℕ) (s : Fleet) (e : ℕ × RegistrationToken) : Type 0 where
  pub stored : find_row (has_hash hash) s.tokens ≡ some e
  pub own : e.1.org ≡ org
  pub bound : (e.1.peer ≡ none) ⊎ (e.1.peer ≡ some peer)
  pub unrevoked : e.1.revoked_at ≡ none
  pub unexpired : now ≤ e.1.expires_at
  pub scoped : scope_allowed e.1.scopes TokenScope.node_registration ≡ true

module _ (sha256 : Text → ℕ) where
  found_token :
      (token : Text) (now : ℕ) (s u : Fleet) (e : ℕ × RegistrationToken)
      → lookup_node_registration_token sha256 token TokenScope.node_registration now s ≡ ok (e, u)
      → (find_row (has_hash (sha256 (trim_space token))) s.tokens ≡ some e)
        × (e.1.revoked_at ≡ none)
        × (now ≤ e.1.expires_at)
        × (scope_allowed e.1.scopes TokenScope.node_registration ≡ true)
  unfolding lookup_node_registration_token
  found_token token now s u e h =
      elim (Option-cases (find_row (has_hash (sha256 (trim_space token))) s.tokens)) [
        | inl missing ↦ absurd (ground arith)
        | inr (f, stored) ↦ elim (Option-cases f.1.revoked_at) [
          | inl fresh ↦ (ground arith, ground arith, ground arith, ground arith)
          | inr (t, revoked) ↦ absurd (ground arith)
        ]
      ]

registered_node_lem :
    (org token now : ℕ) (r : NodeRegistration) (fresh key : Text) (s s' : Fleet)
    → register_org_node_from_runtime org token r fresh now s ≡ (ok key, s')
    → MayRegister org (trim_space r.node_key) (lookup r.peer s.db.nodes)
unfolding register_org_node_from_runtime after_register
registered_node_lem org token now r fresh key s s' h =
    elim (Result-cases (register_node org token r fresh now s)) [
      | inl ((k, t), done) ↦ (register_node_lem org token now 0 r fresh k s t done).0
      | inr (e, failed) ↦ absurd (ground arith)
    ]

bound_peer : (peer : ℕ) (o : Option ℕ) → is_bound_to peer o ≡ true → (o ≡ none) ⊎ (o ≡ some peer)
bound_peer peer none h = inl refl
bound_peer peer (some p) h = inr (ground arith)

enrolling_role : (r : Role) → enrolls r ≡ true → (r ≡ Role.owner) ⊎ (r ≡ Role.node_operator)
enrolling_role Role.owner h = inl refl
enrolling_role Role.node_operator h = inr refl
enrolling_role Role.member h = absurd (ground arith)

-- Only a registration that succeeds is answered 201.
registered_key :
    (x : Result Text × Fleet) (s' : Fleet)
    → registration_answer x ≡ (201, s')
    → (key : Text) × (x ≡ (ok key, s'))
registered_key (ok key, t) s' h = (key, ap (λ p. (ok key, p.1)) h)
registered_key (err not_found, t) s' h = absurd (ground arith)
registered_key (err conflict, t) s' h = absurd (ground arith)
registered_key (err quota_exceeded, t) s' h = absurd (ground arith)
registered_key (err node_capacity, t) s' h = absurd (ground arith)
registered_key (err node_unavailable, t) s' h = absurd (ground arith)
registered_key (err db_error, t) s' h = absurd (ground arith)
registered_key (err refused, t) s' h = absurd (ground arith)
registered_key (err no_manager_seat, t) s' h = absurd (ground arith)

registered_by :
    (org now : ℕ) (r : NodeRegistration) (fresh : Text)
    (l : Result ((ℕ × RegistrationToken) × Fleet)) (s s' : Fleet)
    → register_with org r fresh now l s ≡ (201, s')
    → (e : ℕ × RegistrationToken) × (u : Fleet) × (l ≡ ok (e, u))
      × (e.1.org ≡ org)
      × ((e.1.peer ≡ none) ⊎ (e.1.peer ≡ some r.peer))
      × MayRegister org (trim_space r.node_key) (lookup r.peer s.db.nodes)
unfolding register_with
registered_by org now r fresh (err e) s s' h = absurd (ground arith)
registered_by org now r fresh (ok (e, u)) s s' h = elim (Bool-cases (e.1.org == org)) [
  | inl own ↦ elim (Bool-cases (is_bound_to r.peer e.1.peer)) [
    | inl bound ↦
        let run : registration_answer
              (register_org_node_from_runtime org e.0 (unprofiled r) fresh now s)
            ≡ (201, s') =
          rw (register_with, own, bound) at h in
        let (key, done) =
          registered_key (register_org_node_from_runtime org e.0 (unprofiled r) fresh now s) s'
            run in
        (
          e,
          u,
          refl,
          ground arith,
          (bound_peer r.peer e.1.peer bound),
          registered_node_lem org e.0 now (unprofiled r) fresh key s s' done,
        )
    | inr other ↦ absurd (ground arith)
  ]
  | inr foreign ↦ absurd (ground arith)
]

module _ (sha256 : Text → ℕ) where
  -- A node is enrolled (201) only for an owner or a node operator of the organization who is active,
  -- with a token of the organization that is neither revoked nor expired, is scoped for nodes and is
  -- bound to no other node, and only if there is no node under the peer id, or one of the organization
  -- that has no key or the key that was presented.
  pub handle_org_node_register_lem :
      (org user now : ℕ) (token other fresh : Text) (r : NodeRegistration) (s s' : Fleet)
      → handle_org_node_register sha256 org user token other r fresh now s ≡ (201, s')
      → ((m : Member) × (active_membership org user s.db ≡ some m)
          × ((m.role ≡ Role.owner) ⊎ (m.role ≡ Role.node_operator)))
        × ((e : ℕ × RegistrationToken) × Enrolls org r.peer now
              (sha256 (trim_space (presented_token token other)))
              s
              e)
        × MayRegister org (trim_space r.node_key) (lookup r.peer s.db.nodes)
  unfolding handle_org_node_register
  handle_org_node_register_lem org user now token other fresh r s s' h =
      let t = presented_token token other in
      let l = lookup_node_registration_token sha256 t TokenScope.node_registration now s in
      elim (Option-cases (active_membership org user s.db)) [
        | inl stranger ↦ absurd (ground (arith, stranger))
        | inr (m, here) ↦ elim (Bool-cases (enrolls m.role)) [
          | inr may_not ↦ absurd (ground (arith, here, may_not))
          | inl may ↦
              let run : register_with org r fresh now l s ≡ (201, s') =
                elim (Bool-cases (is_empty t)) [
                  | inl blank ↦ absurd (ground (arith, here, may, blank))
                  | inr given ↦ rw (handle_org_node_register, here, may, given) at h
                ] in
              let (e, u, found, own, bound, admitted) = registered_by org now r fresh l s s' run in
              let valid = found_token sha256 t now s u e found in
              (
                (m, here, enrolling_role m.role may),
                (
                  e,
                  record {
                    stored = valid.0;
                    own = own;
                    bound = bound;
                    unrevoked = valid.1;
                    unexpired = valid.2;
                    scoped = valid.3;
                  },
                ),
                admitted,
              )
        ]
      ]
