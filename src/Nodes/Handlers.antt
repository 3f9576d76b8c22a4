-- ===== src/Nodes/Handlers.antt =====
-- The enrolment of a node by a member of its organization (handleOrgNodeRegister in
-- internal/api/org_nodes.go). Bodies that lack a peer id or a DID are left out.
use erebrus_gateway.Base.{ℕ, Bool, true, false, not, Option, none, some, [], ◌==◌, if◌then◌else◌}
use erebrus_gateway.Base.Text.{Text, trim_space}
use erebrus_gateway.Base.Tx.{Result, ok, err, conflict}
use erebrus_gateway.Model.Fleet.{TokenScope, RegistrationToken}
use erebrus_gateway.Model.Org.{Role}
use erebrus_gateway.Nodes.Registration.{
  is_empty, or_key, NodeRegistration, register_org_node_from_runtime,
}
use erebrus_gateway.Nodes.State.{Fleet}
use erebrus_gateway.Nodes.Tokens.{lookup_node_registration_token}
use erebrus_gateway.Orgs.Seats.{active_membership}

-- The roles that enrol nodes.
abbrev pub enrolls : Role → Bool
enrolls Role.owner = true
enrolls Role.node_operator = true
enrolls Role.member = false

-- A token is bound to no node, or to this one.
abbrev pub is_bound_to : ℕ → Option ℕ → Bool
is_bound_to peer none = true
is_bound_to peer (some p) = p == peer

abbrev pub registration_answer : Result Text × Fleet → ℕ × Fleet
registration_answer (ok key, s) = (201, s)
registration_answer (err conflict, s) = (409, s)
registration_answer (err e, s) = (500, s)

-- The token of a request: `token`, or else `registration_token`.
abbrev pub presented_token : Text → Text → Text
presented_token token other = or_key (trim_space token) (trim_space other)

-- The handler passes no deployment profile on.
abbrev pub unprofiled : NodeRegistration → NodeRegistration
unprofiled r = record r { deployment_profile = [] }

-- The rest of the handler, for the result of the token's lookup: every error of it is answered 401.
unfoldable pub register_with :
    ℕ → NodeRegistration → Text → ℕ → Result ((ℕ × RegistrationToken) × Fleet) → Fleet → ℕ × Fleet
unfolding register_org_node_from_runtime
register_with org r new_key now (err e) s = (401, s)
register_with org r new_key now (ok (t, u)) s =
    if not (t.1.org == org)
    then (401, s)
    else if not (is_bound_to r.peer t.1.peer)
    then (401, s)
    else registration_answer (register_org_node_from_runtime org t.0 (unprofiled r) new_key now s)

module _ (sha256 : Text → ℕ) where
  -- handleOrgNodeRegister, for the caller `user`
  unfoldable pub handle_org_node_register :
      ℕ → ℕ → Text → Text → NodeRegistration → Text → ℕ → Fleet → ℕ × Fleet
  unfolding active_membership lookup_node_registration_token register_with
  handle_org_node_register org user token other r new_key now s =
      elim (active_membership org user s.db) [
        | none ↦ (403, s)
        | some m ↦
            if not (enrolls m.role)
            then (403, s)
            else if is_empty (presented_token token other)
            then (400, s)
            else register_with org r new_key now
                (lookup_node_registration_token sha256 (presented_token token other)
                  TokenScope.node_registration now s)
                s
      ]
