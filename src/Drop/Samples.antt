-- ===== src/Drop/Samples.antt =====
-- Sample data of Drop: a user with two memberships, a node with a bound, and an upload through its
-- life.
use Prim.Native.String.{String}
use erebrus_gateway.Base.{ℕ, ◌≡◌, refl, true, false, none, some, [], ◌∷◌}
use erebrus_gateway.Base.Int.{pos, i64}
use erebrus_gateway.Base.Table.{lookup, insert, adjust, find_row}
use erebrus_gateway.Base.Text.{codes}
use erebrus_gateway.Base.Tx.{Result, ok, err}
use erebrus_gateway.Model.Org.{
  Plan, BillingStatus, VerificationStatus, Role, Tier, MemberStatus, Org, Member,
}
use erebrus_gateway.Model.Fleet.{Profile}
use erebrus_gateway.Model.Drop.{
  Scope, Visibility, UploadStatus, FileStatus, PinStatus, DropState, FileMeta, DropUpload, DropFile,
  NodeDropStatus, Node,
}
use erebrus_gateway.Model.Db.{Db}
use erebrus_gateway.Drop.Tier.{plan_tier, resolve_drop_entitlement}
use erebrus_gateway.Drop.Quota.{adjust_quota, charge_quota, reserve_node_capacity}
use erebrus_gateway.Drop.Upload.{
  ReserveInput, reserve_drop_upload, commit_drop_upload, new_upload, committed_file,
}
use erebrus_gateway.Drop.Deletion.{mark_drop_file_delete_pending, other_refs}

abbrev pub acme : Org
acme = record {
  name = codes "Acme";
  slug = codes "acme";
  plan = Plan.pro;
  billing_status = BillingStatus.active;
  verification_status = VerificationStatus.unverified;
  public_profile_enabled = false;
  owner_user = 7;
}

abbrev pub seat : ℕ → Role → Tier → Member
seat org r t = record { org = org; user = 7; role = r; seat_tier = t; status = MemberStatus.active }

abbrev pub ample : NodeDropStatus
ample = record {
  enabled = true;
  accepts_public_uploads = true;
  webui_available = false;
  state = DropState.active;
  repo_size_bytes = pos 500;
  storage_max_bytes = pos 5000;
  num_objects = pos 3;
  reserved_bytes = 0;
}

abbrev pub online : Node
online = record {
  status = codes "online";
  org = none;
  is_public = true;
  node_key = [];
  min_tier = 0;
  deployment_profile = Profile.standard;
  api_base_url = [];
  last_heartbeat = none;
}

-- User 7 owns an organization on the plan Pro and has a Starter seat in another.
abbrev pub empty : Db
empty = record {
  orgs = (1, acme) ∷ (2, acme) ∷ [];
  profiles = [];
  members = (11, seat 1 Role.owner Tier.pro) ∷ (12, seat 2 Role.member Tier.starter) ∷ [];
  invites = [];
  entitlements = [];
  nodes = (3, online) ∷ [];
  tier_limits = λ t. none;
  quotas = [];
  drop_nodes = (3, ample) ∷ [];
  uploads = [];
  files = [];
  pins = [];
}

abbrev pub uuid : ℕ → String
uuid n = "u"

abbrev pub picture : FileMeta
picture = record {
  filename = "a.png";
  content_type = "image/png";
  sha256 = "";
  encrypted = false;
  encryption_metadata = none;
}

abbrev pub asked : Scope → ReserveInput
asked scope = record {
  user = 7;
  org = none;
  entitlement_org = some 1;
  node = 3;
  scope = scope;
  visibility = Visibility.public;
  file_meta = picture;
  declared_size = 1000;
  idempotency_key = "k1";
  ttl = 0;
}

-- The database that a transaction leaves.
abbrev pub left : {A : Type 0} → Db → Result (A × Db) → Db
left s (ok (a, s')) = s'
left s (err e) = s

-- The upload 21 is reserved, ...
abbrev pub held : DropUpload
held = new_upload (asked Scope.public) 100

abbrev pub held_db : Db
held_db = record empty {
  quotas = (7, record { used_bytes = 0; reserved_bytes = 1000 }) ∷ [];
  drop_nodes = (3, record ample { reserved_bytes = 1000 }) ∷ [];
  uploads = (21, held) ∷ [];
}

pub reserve_held :
    reserve_drop_upload uuid (asked Scope.public) 100 21 empty ≡ ok ((21, held), held_db)
unfolding reserve_drop_upload find_row charge_quota resolve_drop_entitlement lookup plan_tier i64
    reserve_node_capacity insert adjust
reserve_held = refl

-- ... then committed to the file 31, of 900 bytes, ...
abbrev pub filed : DropFile
filed = committed_file 21 held "Qm1" 900 200

abbrev pub filed_db : Db
filed_db = record empty {
  quotas = (7, record { used_bytes = 900; reserved_bytes = 0 }) ∷ [];
  drop_nodes = (3, record ample { reserved_bytes = 0 }) ∷ [];
  uploads = (21, record held { status = UploadStatus.committed; cid = some "Qm1" }) ∷ [];
  files = (31, filed) ∷ [];
  pins = record { file = 31; node = 3; cid = "Qm1"; status = PinStatus.pinned } ∷ [];
}

pub commit_filed :
    commit_drop_upload 7 21 "Qm1" (pos 900) 200 31 held_db ≡ ok ((31, filed), filed_db)
unfolding commit_drop_upload lookup adjust_quota insert adjust
commit_filed = refl

-- ... and then the file is about to be deleted, with its content.
abbrev pub marked_db : Db
marked_db = record filed_db {
  quotas = (7, record { used_bytes = 0; reserved_bytes = 0 }) ∷ [];
  files = (31, record filed { status = FileStatus.delete_pending; deleted_at = some 300 }) ∷ [];
  pins = record { file = 31; node = 3; cid = "Qm1"; status = PinStatus.unpin_pending } ∷ [];
}

pub mark_marked : mark_drop_file_delete_pending 31 300 filed_db ≡ ok ((true, filed), marked_db)
unfolding mark_drop_file_delete_pending lookup adjust_quota other_refs insert adjust
mark_marked = refl
