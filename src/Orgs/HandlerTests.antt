-- ===== src/Orgs/HandlerTests.antt =====
-- What the theorems about the handlers of an organization say of the sample data.
use erebrus_gateway.Base.{ℕ, ◌≡◌, refl, true, false, some, [], ◌∷◌, ◌⊎◌}
use erebrus_gateway.Base.Table.{lookup, find_row}
use erebrus_gateway.Base.Text.{Text, codes, normalize}
use erebrus_gateway.Orgs.Authority.{SucceedsOrUpserts, handle_lem, handle_add_member-demotes}
use erebrus_gateway.Orgs.Handlers.{OrgDb, OrgRequest, handle, handle_add_member, privileged}
use erebrus_gateway.Orgs.Seats.{normalize_org_role}
use erebrus_gateway.Orgs.Samples.{db}

abbrev no_suffix : ℕ → Text
no_suffix n = codes "0"

abbrev org_db : OrgDb
org_db = record {
  db = db;
  accounts = (20, record { wallet_address = codes "0xa"; is_admin = true }) ∷ [];
}

-- The owner 7 asks for a manager whose wallet is that of an administrator.
abbrev adding : OrgRequest
adding = OrgRequest.add (codes "0xa") (codes "manager")

handle_lem_example :
    ((privileged 1 7 db ≡ false) × (handle 1 7 no_suffix 21 14 adding org_db ≡ (403, org_db)))
    ⊎ ((privileged 1 7 db ≡ true)
        × SucceedsOrUpserts 21 adding org_db (handle 1 7 no_suffix 21 14 adding org_db))
handle_lem_example = handle_lem 1 7 21 14 no_suffix adding org_db

handle_add_member-demotes_example :
    lookup 20 (handle_add_member 1 (codes "0xa") (codes "member") 21 14 org_db).1.accounts
    ≡ some (record { wallet_address = codes "0xa"; is_admin = false })
unfolding normalize_org_role normalize lookup find_row
handle_add_member-demotes_example =
    handle_add_member-demotes 1 21 14 20 (codes "0xa") (codes "member")
      (record { wallet_address = codes "0xa"; is_admin = true }) org_db refl refl refl refl
