-- ===== src/Orgs/Invites.antt =====
-- Invitations (internal/store/org_invites.go and internal/store/account_invites.go): by address,
-- as rows of their own, or by account, as members who are invited.
-- AcceptOrgInvitesForEmail is left out: it runs statements while the rows of its query are open.
use Prim.Native.String.{String}
use erebrus_gateway.Base.{
  ℕ, Bool, true, false, not, ◌&&◌, ◌||◌, Option, none, some, ◌==◌, if◌then◌else◌,
}
use erebrus_gateway.Base.Table.{lookup, insert, adjust, find_row, update_first, update_where}
use erebrus_gateway.Base.Text.{Text, text_eq, to_lower, normalize}
use erebrus_gateway.Base.Tx.{
  not_found, ok, err, Tx, ◌>>=◌, ◌>>◌, pure, get, modify, guard, from_option,
}
use erebrus_gateway.Model.Org.{Role, Tier, MemberStatus, InviteStatus, Member, OrgInvite}
use erebrus_gateway.Model.Db.{Db}
use erebrus_gateway.Orgs.Plans.{normalize_seat_tier}
use erebrus_gateway.Orgs.Seats.{normalize_org_role, is_member_of, membership}
use erebrus_gateway.Orgs.Members.{upsert_member, is_blank}

abbrev pub is_pending : InviteStatus → Bool
is_pending InviteStatus.pending = true
is_pending _ = false

-- lower(email) = lower($1)
abbrev pub same_email : Text → OrgInvite → Bool
unfolding to_lower
same_email email v = text_eq (to_lower v.email) (to_lower email)

abbrev pub invites_to : ℕ → Text → OrgInvite → Bool
invites_to org email v = v.org == org && same_email email v && is_pending v.status

abbrev reopened : InviteStatus → InviteStatus
reopened InviteStatus.revoked = InviteStatus.pending
reopened st = st

-- CreateOrgInvite; (org, email) is unique, and an invite of before is opened again only if it was
-- revoked.
unfoldable pub create_org_invite : ℕ → Text → Text → String → ℕ → Tx Db (Unit {0})
unfolding normalize normalize_org_role normalize_seat_tier
create_org_invite org email role tier id = do
  let e = normalize email
  let r = normalize_org_role role
  let t : Tier = elim (normalize_seat_tier tier) [ ok t ↦ t | err _ ↦ Tier.free ]
  db ← get
  let here : OrgInvite → Bool = λ v. v.org == org && text_eq v.email e
  elim (find_row here db.invites) [
    | none ↦ modify (λ s. record s {
      invites =
          insert id
            (record {
              org = org;
              email = e;
              role = r;
              seat_tier = t;
              status = InviteStatus.pending;
            })
            s.invites;
    })
    | some _ ↦ modify (λ s. record s {
      invites =
          update_first here (λ v. record v { role = r; seat_tier = t; status = reopened v.status })
            s.invites;
    })
  ]

-- INSERT INTO org_members ... ON CONFLICT DO UPDATE SET role, seat_tier, status = 'active'
unfoldable pub join_org : ℕ → ℕ → Role → Tier → ℕ → Tx Db (Unit {0})
unfolding upsert_member
join_org org user r t id =
    upsert_member id
      (record { org = org; user = user; role = r; seat_tier = t; status = MemberStatus.active })
      λ m. record m { role = r; seat_tier = t; status = MemberStatus.active }

-- UPDATE org_invites SET status = 'accepted' WHERE ... AND status = 'pending'
abbrev pub settle_invites : (OrgInvite → Bool) → InviteStatus → Tx Db (Unit {0})
settle_invites p st =
    modify (λ s. record s { invites = update_where p (λ v. record v { status = st }) s.invites })

abbrev pub is_invited : MemberStatus → Bool
is_invited MemberStatus.invited = true
is_invited _ = false

-- ActivateInvitedMemberships
unfoldable pub activate_invited_memberships : ℕ → Tx Db (Unit {0})
activate_invited_memberships user = modify λ s. record s {
  members =
      update_where (λ m. m.user == user && is_invited m.status)
        (λ m. record m { status = MemberStatus.active }) s.members;
}

-- RevokeOrgInvite
unfoldable pub revoke_org_invite : ℕ → ℕ → Tx Db (Unit {0})
revoke_org_invite org id = do
  db ← get
  v ← from_option (lookup id db.invites) not_found
  guard (v.org == org && is_pending v.status) not_found
  modify (λ s. record s {
    invites = adjust id (λ x. record x { status = InviteStatus.revoked }) s.invites;
  })

-- The role and the seat that a user is invited to: by account, or else by a non-empty address.
unfoldable pub invited_as : ℕ → ℕ → Text → Db → Option (Role × Tier)
unfolding membership normalize
invited_as user org email db =
    let by_email : Option (Role × Tier) =
      if is_blank (normalize email)
      then none
      else elim (find_row (invites_to org (normalize email)) db.invites) [
        | none ↦ none
        | some e ↦ some (e.1.role, e.1.seat_tier)
      ] in
    elim (membership org user db) [
      | none ↦ by_email
      | some e ↦ if is_invited e.1.status then some (e.1.role, e.1.seat_tier) else by_email
    ]

-- AcceptUserOrgInvite. A user who is invited by account has the address taken as it is given, and
-- otherwise it is normalised first.
unfoldable pub accepted_email : ℕ → ℕ → Text → Db → Text
unfolding membership normalize
accepted_email user org email db = elim (membership org user db) [
  | none ↦ normalize email
  | some e ↦ if is_invited e.1.status then email else normalize email
]

unfoldable pub accept_user_org_invite : ℕ → ℕ → Text → ℕ → Tx Db (Unit {0})
unfolding invited_as accepted_email join_org
accept_user_org_invite user org email id = do
  db ← get
  a ← from_option (invited_as user org email db) not_found
  join_org org user a.0 a.1 id
  if is_blank (accepted_email user org email db)
      then pure tt
      else settle_invites (invites_to org (accepted_email user org email db)) InviteStatus.accepted

-- DeclineUserOrgInvite
unfoldable pub decline_user_org_invite : ℕ → ℕ → Text → Tx Db (Unit {0})
unfolding normalize
decline_user_org_invite user org email = do
  let e = normalize email
  let here : Member → Bool = λ m. is_member_of org user m && is_invited m.status
  db ← get
  let by_account : Bool = elim (find_row here db.members) [ none ↦ false | some _ ↦ true ]
  let by_email : Bool =
      not (is_blank e)
      && elim (find_row (invites_to org e) db.invites) [ none ↦ false | some _ ↦ true ]
  guard (by_account || by_email) not_found
  modify (λ s. record s {
    members = update_first here (λ m. record m { status = MemberStatus.removed }) s.members;
  })
  if is_blank e then pure tt else settle_invites (invites_to org e) InviteStatus.revoked
