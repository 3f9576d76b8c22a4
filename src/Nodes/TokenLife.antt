-- ===== src/Nodes/TokenLife.antt =====
-- What a registration token admits between its creation and its end.
use erebrus_gateway.Base.{
  ℕ, ◌+◌, ◌<◌, ◌≤◌, ◌≡◌, true, false, Option, some, List, arith, ltb, Bool-cases, inl, inr, ◌⊎◌,
  refl,
}
use erebrus_gateway.Base.Table.{find_row}
use erebrus_gateway.Base.Text.{Text, trim_space}
use erebrus_gateway.Base.Tx.{ok, err, not_found}
use erebrus_gateway.Model.Fleet.{TokenScope, RegistrationToken}
use erebrus_gateway.Nodes.Registration.{is_empty}
use erebrus_gateway.Nodes.State.{Fleet}
use erebrus_gateway.Nodes.Tokens.{
  max_registration_token_ttl, has_hash, created_token, registration_scopes_of, scope_allowed,
  create_node_registration_token, lookup_node_registration_token,
}

module _ (sha256 : Text → ℕ) where
  created-found :
      (org id : ℕ) (peer : Option ℕ) (scopes : List Text) (expires_at now : ℕ) (plain : Text)
      (allowed : List TokenScope) (s s' : Fleet)
      → registration_scopes_of scopes ≡ some allowed
      → create_node_registration_token sha256 org peer scopes expires_at plain now s ≡ ok (id, s')
      → find_row (has_hash (sha256 plain)) s'.tokens
        ≡ some (id, created_token org (sha256 plain) peer allowed expires_at now)
  unfolding create_node_registration_token find_row created_token
  created-found org id peer scopes expires_at now plain allowed s s' valid h = ground arith

  -- A token that is created for an organization, unless its creation is refused, is found by its
  -- text for each of its scopes until it expires, with the organization and the peer that it was
  -- created for, and is refused once seven days have passed.
  pub lookup-create :
      (org id : ℕ) (peer : Option ℕ) (scopes : List Text) (expires_at now later : ℕ) (plain : Text)
      (allowed : List TokenScope) (required : TokenScope) (s s' : Fleet)
      → trim_space plain ≡ plain
      → is_empty plain ≡ false
      → registration_scopes_of scopes ≡ some allowed
      → scope_allowed allowed required ≡ true
      → create_node_registration_token sha256 org peer scopes expires_at plain now s ≡ ok (id, s')
      → ((later ≤ expires_at)
          × (later ≤ now + max_registration_token_ttl)
          × ((t : RegistrationToken) × (lookup_node_registration_token sha256 plain required later
                  s'
                ≡ ok ((id, t), s'))
              × (t.org ≡ org)
              × (t.peer ≡ peer)))
        ⊎ (((expires_at < later) ⊎ (now + max_registration_token_ttl < later))
            × (lookup_node_registration_token sha256 plain required later s' ≡ err not_found))
  unfolding lookup_node_registration_token created_token
  lookup-create org id peer scopes expires_at now later plain allowed required s s' trimmed full
        valid scope h =
      let t = created_token org (sha256 plain) peer allowed expires_at now in
      let found = created-found org id peer scopes expires_at now plain allowed s s' valid h in
      elim (Bool-cases (ltb t.expires_at later)) [
        | inl over ↦ inr (ground arith, ground arith)
        | inr valid_still ↦ inl (ground arith, ground arith, (t, ground arith, refl, refl))
      ]
