-- ===== src/Nodes/Tokens.antt =====
-- The registration tokens of an organization (internal/store/registration_tokens.go). Times are
-- seconds. SHA-256 and the generator of tokens are other libraries': the hash of a token is a
-- function that is given, and so is a new token.
use erebrus_gateway.Base.{
  ℕ, ◌+◌, Bool, true, false, not, Option, none, some, List, [], ◌∷◌, ltb, ◌==◌, if◌then◌else◌,
}
use erebrus_gateway.Base.Table.{find_row}
use erebrus_gateway.Base.Text.{Text, trim_space, named}
use erebrus_gateway.Base.Tx.{
  not_found, refused, db_error, Tx, ◌>>=◌, ◌>>◌, pure, get, modify, guard, from_option,
}
use erebrus_gateway.Model.Fleet.{TokenScope, RegistrationToken}
use erebrus_gateway.Nodes.Registration.{is_empty}
use erebrus_gateway.Nodes.State.{Fleet, new_id}

-- maxRegistrationTokenTTL, 7 days
abbrev pub max_registration_token_ttl : ℕ
max_registration_token_ttl = 604_800

-- isValidRegistrationScope: the scope that a text says, or none.
unfoldable pub registration_scope_of : Text → Option TokenScope
registration_scope_of t =
    named
      (("node_registration", some TokenScope.node_registration)
        ∷ ("firewall_setup", some TokenScope.firewall_setup)
        ∷ ("service_setup", some TokenScope.service_setup)
        ∷ [])
      none t

abbrev cons_scope : Option TokenScope → Option (List TokenScope) → Option (List TokenScope)
cons_scope (some a) (some bs) = some (a ∷ bs)
cons_scope _ _ = none

-- The scopes of a request, if all are valid.
unfoldable pub registration_scopes_of : List Text → Option (List TokenScope)
unfolding registration_scope_of
registration_scopes_of [] = some []
registration_scopes_of (t ∷ ts) = cons_scope (registration_scope_of t) (registration_scopes_of ts)

abbrev scope_code : TokenScope → ℕ
scope_code TokenScope.node_registration = 0
scope_code TokenScope.firewall_setup = 1
scope_code TokenScope.service_setup = 2

-- scopeAllowed
unfoldable pub scope_allowed : List TokenScope → TokenScope → Bool
scope_allowed [] required = false
scope_allowed (a ∷ bs) required =
    let rest = scope_allowed bs required in
    if scope_code a == scope_code required then true else rest

abbrev is_nil : List TokenScope → Bool
is_nil [] = true
is_nil (_ ∷ _) = false

abbrev pub has_hash : ℕ → RegistrationToken → Bool
has_hash h t = t.token_hash == h

abbrev is_expired : ℕ → RegistrationToken → Bool
is_expired now t = ltb t.expires_at now

abbrev is_revoked : RegistrationToken → Bool
is_revoked t = elim t.revoked_at [ none ↦ false | some r ↦ true ]

abbrev is_unused : Option (ℕ × RegistrationToken) → Bool
is_unused none = true
is_unused (some t) = false

-- The row of a new token, which expires after seven days at the latest.
unfoldable pub created_token : ℕ → ℕ → Option ℕ → List TokenScope → ℕ → ℕ → RegistrationToken
created_token org hash peer scopes expires_at now =
    let latest = now + max_registration_token_ttl in
    record {
      org = org;
      token_hash = hash;
      peer = peer;
      scopes = scopes;
      expires_at = if ltb latest expires_at then latest else expires_at;
      used_at = none;
      revoked_at = none;
    }

module _ (sha256 : Text → ℕ) where
  -- CreateNodeRegistrationToken, which returns the identifier of the row; `plain` is the new token.
  unfoldable pub create_node_registration_token :
      ℕ → Option ℕ → List Text → ℕ → Text → ℕ → Tx Fleet ℕ
  unfolding registration_scopes_of created_token
  create_node_registration_token org peer scopes expires_at plain now = do
    allowed ← from_option (registration_scopes_of scopes) refused
    guard (not (is_nil allowed)) refused
    guard (ltb now expires_at) refused
    db ← get
    guard (is_unused (find_row (has_hash (sha256 plain)) db.tokens)) db_error
    id ← new_id
    modify (λ s. record s {
      tokens = (id, created_token org (sha256 plain) peer allowed expires_at now) ∷ s.tokens;
    })
    pure id

  -- LookupNodeRegistrationToken, for a scope that is required.
  unfoldable pub lookup_node_registration_token :
      Text → TokenScope → ℕ → Tx Fleet (ℕ × RegistrationToken)
  unfolding trim_space scope_allowed
  lookup_node_registration_token token required now = do
    guard (not (is_empty (trim_space token))) not_found
    s ← get
    t ← from_option (find_row (has_hash (sha256 (trim_space token))) s.tokens) not_found
    guard (not (is_revoked t.1)) not_found
    guard (not (is_expired now t.1)) not_found
    guard (scope_allowed t.1.scopes required) not_found
    pure t
