-- ===== src/Version/Configs.antt =====
-- The configurations of the version service: internal/db/ent/schema/client_version.go over the
-- client that ent generates, and the records and answers of internal/service/version_service.go.
-- A value of the metadata is a text or something else; times are formatted by a parameter.
use giraffecloud.Base.{
  ℕ, Bool, true, false, ◌&&◌, ◌||◌, Option, some, List, [], ◌∷◌, ◌++◌, Bytes, codes, ◌==◌, bytes_eq,
  bytes_beq, select, ◌≡◌, if◌then◌else◌,
}
use giraffecloud.Base.Map.{lookup}
use giraffecloud.Tunnels.Store.{DbResult, ok, err, not_found}
use giraffecloud.Version.{is_update_available, is_update_required}

abbrev pub Metadata : Type 0
Metadata = List (Bytes × Option Bytes)

pub record ClientVersion : Type 0 where
  pub id : Bytes
  pub channel : Bytes
  pub platform : Bytes
  pub arch : Bytes
  pub latest_version : Bytes
  pub minimum_version : Bytes
  pub download_url : Bytes
  pub release_notes : Bytes
  pub auto_update_enabled : Bool
  pub force_update : Bool
  pub metadata : Metadata
  pub created_at : ℕ
  pub updated_at : ℕ

pub record ClientVersionConfigUpdate : Type 0 where
  pub channel : Bytes
  pub platform : Bytes
  pub arch : Bytes
  pub latest_version : Bytes
  pub minimum_version : Bytes
  pub download_url : Bytes
  pub release_notes : Bytes
  pub auto_update_enabled : Bool
  pub force_update : Bool
  pub metadata : Metadata

pub record ClientVersionInfo : Type 0 where
  pub latest_version : Bytes
  pub minimum_version : Bytes
  pub current_version : Bytes
  pub update_available : Bool
  pub update_required : Bool
  pub channel : Bytes
  pub release_tag : Bytes
  pub short_version : Bytes
  pub download_url : Bytes
  pub release_notes : Bytes

pub record VersionConfigResponse : Type 0 where
  pub id : Bytes
  pub channel : Bytes
  pub platform : Bytes
  pub arch : Bytes
  pub latest_version : Bytes
  pub minimum_version : Bytes
  pub download_url : Bytes
  pub release_notes : Bytes
  pub auto_update_enabled : Bool
  pub force_update : Bool
  pub metadata : Metadata
  pub created_at : Bytes
  pub updated_at : Bytes

abbrev pub update_version :
    Bytes → (ClientVersion → ClientVersion) → List ClientVersion → List ClientVersion
update_version id f [] = []
update_version id f (c ∷ cs) = (if c.id == id then f c else c) ∷ update_version id f cs

-- The client over a store, with laws for the calls that succeed and for a query that finds nothing.
pub record VersionClient (S : Type 0) : Type 0 where
  pub rows : S → List ClientVersion
  pub only : (ClientVersion → Bool) → S → DbResult ClientVersion
  pub exist : (ClientVersion → Bool) → S → DbResult Bool
  pub all_by_channel : S → DbResult (List ClientVersion)
  pub channels : S → DbResult (List Bytes)
  pub create : ClientVersion → S → S × DbResult (Unit {0})
  pub update_one : Bytes → (ClientVersion → ClientVersion) → S → S × DbResult (Unit {0})
  pub only_row :
      (p : ClientVersion → Bool) (s : S) (c : ClientVersion)
      → only p s ≡ ok c
      → select p (rows s) ≡ c ∷ []
  pub only_missing :
      (p : ClientVersion → Bool) (s : S) → only p s ≡ err not_found → select p (rows s) ≡ []
  pub create_rows :
      (c : ClientVersion) (s : S) → (create c s).1 ≡ ok tt → rows (create c s).0 ≡ rows s ++ c ∷ []
  pub update_rows :
      (id : Bytes) (f : ClientVersion → ClientVersion) (s : S)
      → (update_one id f s).1 ≡ ok tt
      → rows (update_one id f s).0 ≡ update_version id f (rows s)

-- The condition of the queries for one configuration.
abbrev pub at_key : Bytes → Bytes → Bytes → ClientVersion → Bool
at_key channel platform arch c = c.channel == channel && c.platform == platform && c.arch == arch

abbrev pub or_else : DbResult ClientVersion → DbResult ClientVersion → DbResult ClientVersion
or_else (ok c) next = ok c
or_else (err e) next = next

-- clientVersionConfig.Metadata[key].(string)
abbrev pub text_of : Option (Option Bytes) → Bytes
text_of (some (some text)) = text
text_of _ = []

unfoldable pub metadata_text : Bytes → Metadata → Bytes
unfolding lookup
metadata_text key metadata = text_of (lookup key metadata)

-- The answer from a configuration.
unfoldable pub version_info : Bytes → ClientVersion → ClientVersionInfo
unfolding metadata_text is_update_available is_update_required
version_info client_version c = record {
  latest_version = c.latest_version;
  minimum_version = c.minimum_version;
  current_version = client_version;
  update_available = is_update_available client_version c.latest_version;
  update_required =
      is_update_required client_version c.minimum_version
      || (c.force_update && is_update_available client_version c.latest_version);
  channel = c.channel;
  release_tag = metadata_text (codes "release_tag") c.metadata;
  short_version = metadata_text (codes "short_version") c.metadata;
  download_url = c.download_url;
  release_notes = c.release_notes;
}

unfoldable pub get_fallback_version_info : Bytes → Bytes → ClientVersionInfo
get_fallback_version_info client_version channel = record {
  latest_version = client_version;
  minimum_version = client_version;
  current_version = client_version;
  update_available = false;
  update_required = false;
  channel = channel;
  release_tag = [];
  short_version = client_version;
  download_url = [];
  release_notes = codes "Version service temporarily unavailable";
}

unfoldable pub answer : Bytes → Bytes → DbResult ClientVersion → ClientVersionInfo
unfolding version_info get_fallback_version_info
answer client_version channel (ok c) = version_info client_version c
answer client_version channel (err e) = get_fallback_version_info client_version channel

unfoldable pub or_default : Bytes → Bytes → Bytes
unfolding bytes_beq
or_default text default = if text == [] then default else text

-- The fields that an update sets.
unfoldable pub set_config : ClientVersionConfigUpdate → ℕ → ClientVersion → ClientVersion
set_config config now c = record c {
  latest_version = config.latest_version;
  minimum_version = config.minimum_version;
  download_url = config.download_url;
  release_notes = config.release_notes;
  auto_update_enabled = config.auto_update_enabled;
  force_update = config.force_update;
  metadata = config.metadata;
  updated_at = now;
}

unfoldable pub new_config : ClientVersionConfigUpdate → ℕ → ClientVersion
new_config config now = record {
  id = config.channel ++ codes "-" ++ config.platform ++ codes "-" ++ config.arch;
  channel = config.channel;
  platform = config.platform;
  arch = config.arch;
  latest_version = config.latest_version;
  minimum_version = config.minimum_version;
  download_url = config.download_url;
  release_notes = config.release_notes;
  auto_update_enabled = config.auto_update_enabled;
  force_update = config.force_update;
  metadata = config.metadata;
  created_at = now;
  updated_at = now;
}

unfoldable pub to_response : (ℕ → Bytes) → ClientVersion → VersionConfigResponse
to_response format c = record {
  id = c.id;
  channel = c.channel;
  platform = c.platform;
  arch = c.arch;
  latest_version = c.latest_version;
  minimum_version = c.minimum_version;
  download_url = c.download_url;
  release_notes = c.release_notes;
  auto_update_enabled = c.auto_update_enabled;
  force_update = c.force_update;
  metadata = c.metadata;
  created_at = format c.created_at;
  updated_at = format c.updated_at;
}

-- The configurations that InitializeDefaultConfigs creates, by the version of the server.
unfoldable pub default_configs : Bytes → List ClientVersionConfigUpdate
default_configs version =
    record {
      channel = codes "stable";
      platform = codes "all";
      arch = codes "all";
      latest_version = version;
      minimum_version = codes "v0.0.0";
      download_url = codes "https://github.com/osa911/giraffecloud/releases/latest";
      release_notes = codes "GiraffeCloud CLI Client - Stable Channel";
      auto_update_enabled = true;
      force_update = false;
      metadata = (codes "release_type", some (codes "stable")) ∷ [];
    }
    ∷ record {
      channel = codes "test";
      platform = codes "all";
      arch = codes "all";
      latest_version = version;
      minimum_version = codes "v0.0.0";
      download_url = codes "https://github.com/osa911/giraffecloud/releases";
      release_notes = codes "GiraffeCloud CLI Client - Test Channel";
      auto_update_enabled = false;
      force_update = false;
      metadata = (codes "release_type", some (codes "test")) ∷ [];
    }
    ∷ []
