-- ===== src/Model/Db.antt =====
-- The database: one table for each kind of row, keyed by its primary key.
use erebrus_gateway.Base.{List, Option}
use erebrus_gateway.Base.Table.{Table}
use erebrus_gateway.Base.Text.{Text}
use erebrus_gateway.Model.Org.{Org, Member, OrgInvite, OrgEntitlement, Tier}
use erebrus_gateway.Model.Drop.{
  DropTierLimit, DropUpload, DropFile, DropPin, DropQuotaUsage, NodeDropStatus, Node,
}

pub record Db : Type 0 where
  pub orgs : Table Org
  pub profiles : Table Text  -- the display name, by org
  pub members : Table Member
  pub invites : Table OrgInvite
  pub entitlements : Table OrgEntitlement  -- by org
  pub nodes : Table Node  -- by peer id
  pub tier_limits : Tier → Option DropTierLimit
  pub quotas : Table DropQuotaUsage  -- by user
  pub drop_nodes : Table NodeDropStatus  -- by peer id
  pub uploads : Table DropUpload
  pub files : Table DropFile
  pub pins : List DropPin
