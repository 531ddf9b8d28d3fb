-- ===== src/Version/Service.antt =====
-- The operations of the version service: internal/service/version_service.go.
pub mod Served
mod Tests
use giraffecloud.Base.{
  ℕ, Bool, true, false, not, ◌&&◌, ◌||◌, Option, none, some, List, [], ◌∷◌, ◌++◌, map, Bytes, codes,
  ◌==◌, bytes_eq, bytes_beq, select, ◌≡◌, if◌then◌else◌,
}
use giraffecloud.Base.Map.{lookup}
use giraffecloud.Tunnels.Store.{DbError, DbResult, ok, err, not_found, failed}
use giraffecloud.Version.{is_update_available, is_update_required}
use giraffecloud.Version.Configs.{
  Metadata, ClientVersion, ClientVersionConfigUpdate, ClientVersionInfo, VersionConfigResponse,
  update_version, VersionClient, at_key, or_else, metadata_text, text_of, version_info,
  get_fallback_version_info, answer, or_default, set_config, new_config, to_response,
  default_configs,
}

module _ {S : Type 0} (client : VersionClient S) where
  unfoldable pub get_client_version_config : Bytes → Bytes → Bytes → S → DbResult ClientVersion
  get_client_version_config channel platform arch s =
      or_else (client.only (at_key channel platform arch) s) (
        or_else (client.only (at_key channel platform (codes "all")) s) (
          or_else (client.only (at_key channel (codes "all") arch) s)
            (client.only (at_key channel (codes "all") (codes "all")) s)))

  -- `goos` and `goarch` are those of the server.
  unfoldable pub get_version_info :
      Bytes → Bytes → Bytes → Bytes → Bytes → Bytes → S → ClientVersionInfo
  unfolding answer or_default get_client_version_config
  get_version_info goos goarch client_version channel platform arch s =
      let ch = or_default channel (codes "stable") in
      answer client_version ch
        (get_client_version_config ch (or_default platform goos) (or_default arch goarch) s)

  -- From the query for the existing configuration on.
  unfoldable pub upsert :
      ClientVersionConfigUpdate → ℕ → DbResult ClientVersion → S → S × DbResult (Unit {0})
  unfolding set_config new_config
  upsert config now (ok existing) s = client.update_one existing.id (set_config config now) s
  upsert config now (err not_found) s = client.create (new_config config now) s
  upsert config now (err failed) s = (s, err failed)

  unfoldable pub update_client_version_config :
      ClientVersionConfigUpdate → ℕ → S → S × DbResult (Unit {0})
  unfolding upsert
  update_client_version_config config now s =
      upsert config now (client.only (at_key config.channel config.platform config.arch) s) s

  -- The channels, with the error of the query.
  unfoldable pub get_active_channels : S → List Bytes × Option DbError
  get_active_channels s = elim (client.channels s) [
    | ok channels ↦ (channels, none)
    | err e ↦ (codes "stable" ∷ [], some e)
  ]

  unfoldable pub list_all_version_configs : (ℕ → Bytes) → S → DbResult (List VersionConfigResponse)
  unfolding to_response
  list_all_version_configs format s = elim (client.all_by_channel s) [
    | ok cs ↦ ok (map (to_response format) cs)
    | err e ↦ err e
  ]

  -- One turn of the loop, by whether the configuration is there.
  unfoldable pub ensured :
      ClientVersionConfigUpdate → ℕ → DbResult Bool → S → S × DbResult (Unit {0})
  unfolding update_client_version_config
  ensured config now (err e) s = (s, err e)
  ensured config now (ok true) s = (s, ok tt)
  ensured config now (ok false) s = update_client_version_config config now s

  unfoldable pub ensure_all : List ClientVersionConfigUpdate → ℕ → S → S × DbResult (Unit {0})
  unfolding ensured
  ensure_all [] now s = (s, ok tt)
  ensure_all (config ∷ configs) now s =
      let (s', r) =
        ensured config now (client.exist (at_key config.channel config.platform config.arch) s) s in
      elim r [ err e ↦ (s', err e) | ok _ ↦ ensure_all configs now s' ]

  unfoldable pub initialize_default_configs : Bytes → ℕ → S → S × DbResult (Unit {0})
  unfolding ensure_all default_configs
  initialize_default_configs version now s = ensure_all (default_configs version) now s
