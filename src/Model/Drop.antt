-- ===== src/Model/Drop.antt =====
-- The Drop rows (internal/store/models.go): uploads, files, pins, quotas and node status.
use Prim.Native.String.{String}
use erebrus_gateway.Base.{ℕ, Bool, Option}
use erebrus_gateway.Base.Int.{ℤ}
use erebrus_gateway.Base.Text.{Text}
use erebrus_gateway.Model.Fleet.{Profile}

pub data Scope : Type 0 where
  public private_org : Scope

pub data Visibility : Type 0 where
  public private : Visibility

pub data UploadStatus : Type 0 where
  reserved uploading committed failed expired : UploadStatus

pub data FileStatus : Type 0 where
  active delete_pending deleted unavailable : FileStatus

pub data PinStatus : Type 0 where
  pinning pinned unpin_pending unpinned error : PinStatus

pub data DropState : Type 0 where
  disabled starting active degraded full unreachable : DropState

-- What the client says of the content; it passes from the reservation to the file as it is.
pub record FileMeta : Type 0 where
  pub filename : String
  pub content_type : String
  pub sha256 : String
  pub encrypted : Bool
  pub encryption_metadata : Option String

-- drop_tier_limits
pub record DropTierLimit : Type 0 where
  pub public_storage_bytes : ℕ
  pub max_file_bytes : ℕ

-- drop_uploads
pub record DropUpload : Type 0 where
  pub owner : ℕ
  pub org : Option ℕ
  pub entitlement_org : Option ℕ
  pub node : ℕ
  pub scope : Scope
  pub visibility : Visibility
  pub file_meta : FileMeta
  pub declared_size : ℕ
  pub reserved_bytes : ℕ
  pub status : UploadStatus
  pub idempotency_key : String
  pub cid : Option String
  pub error_text : String
  pub expires_at : ℕ

-- drop_files
pub record DropFile : Type 0 where
  pub upload : ℕ
  pub owner : ℕ
  pub org : Option ℕ
  pub entitlement_org : Option ℕ
  pub node : ℕ
  pub scope : Scope
  pub cid : String
  pub file_meta : FileMeta
  pub size_bytes : ℕ
  pub visibility : Visibility
  pub status : FileStatus
  pub created_at : ℕ
  pub deleted_at : Option ℕ

-- drop_pins; (file, node) is unique
pub record DropPin : Type 0 where
  pub file : ℕ
  pub node : ℕ
  pub cid : String
  pub status : PinStatus

-- drop_quota_usage of a principal of type `user`; the program has no other principal
pub record DropQuotaUsage : Type 0 where
  pub used_bytes : ℕ
  pub reserved_bytes : ℕ

-- node_drop_status; the two sizes are what the node reports, of either sign
pub record NodeDropStatus : Type 0 where
  pub enabled : Bool
  pub accepts_public_uploads : Bool
  pub webui_available : Bool
  pub state : DropState
  pub repo_size_bytes : ℤ
  pub storage_max_bytes : ℤ
  pub num_objects : ℤ
  pub reserved_bytes : ℕ

-- A row of nodes, less what nodes report of their load, addresses and hardware. `status` is what the
-- node last reported; `is_public` says that access_mode is "public"; an empty key is NULL.
pub record Node : Type 0 where
  pub status : Text
  pub org : Option ℕ
  pub is_public : Bool
  pub node_key : Text
  pub min_tier : ℕ
  pub deployment_profile : Profile
  pub api_base_url : Text
  pub last_heartbeat : Option ℕ
