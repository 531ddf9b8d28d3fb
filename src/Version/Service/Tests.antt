-- ===== src/Version/Service/Tests.antt =====
-- The version service (internal/service/version_service.go) over a table in memory.
use giraffecloud.Base.{
  ◌≡◌, refl, true, List, [], ◌∷◌, ◌++◌, codes, bytes_beq, bytes_eq, select, any,
}
use giraffecloud.Tunnels.Store.{DbResult, ok, err, not_found, failed}
use giraffecloud.Version.Configs.{
  ClientVersion, ClientVersionConfigUpdate, VersionClient, update_version, new_config,
}
use giraffecloud.Version.Service.{
  get_version_info, update_client_version_config, initialize_default_configs,
}
use giraffecloud.Version.Service.Served.{Serves, get_version_info-update}

abbrev one_version : List ClientVersion → DbResult ClientVersion
one_version [] = err not_found
one_version (c ∷ []) = ok c
one_version (c ∷ d ∷ cs) = err failed

one_version-ok : (cs : List ClientVersion) (c : ClientVersion) → one_version cs ≡ ok c → cs ≡ c ∷ []
one_version-ok [] c h = cc
one_version-ok (d ∷ []) c h = cc
one_version-ok (d ∷ e ∷ cs) c h = cc

one_version_missing : (cs : List ClientVersion) → one_version cs ≡ err not_found → cs ≡ []
one_version_missing [] h = refl
one_version_missing (d ∷ []) h = cc
one_version_missing (d ∷ e ∷ cs) h = cc

abbrev versions_in_memory : VersionClient (List ClientVersion)
versions_in_memory = record {
  rows = λ s. s;
  only = λ p s. one_version (select p s);
  exist = λ p s. ok (any p s);
  all_by_channel = λ s. ok s;
  channels = λ s. ok [];
  create = λ c s. (s ++ c ∷ [], ok tt);
  update_one = λ id f s. (update_version id f s, ok tt);
  only_row = λ p s c h. one_version-ok (select p s) c h;
  only_missing = λ p s h. one_version_missing (select p s) h;
  create_rows = λ c s h. refl;
  update_rows = λ id f s h. refl;
}

abbrev release : ClientVersionConfigUpdate
release = record {
  channel = codes "stable";
  platform = codes "linux";
  arch = codes "amd64";
  latest_version = codes "v1.2.0";
  minimum_version = codes "v1.0.0";
  download_url = codes "https://example.org";
  release_notes = [];
  auto_update_enabled = true;
  force_update = true;
  metadata = [];
}

-- The default configurations are created once.
initialize_test :
    (initialize_default_configs versions_in_memory
      (codes "v1.0.0")
      8
      (initialize_default_configs versions_in_memory (codes "v1.0.0") 7 []).0).0
    ≡ (initialize_default_configs versions_in_memory (codes "v1.0.0") 7 []).0
unfolding initialize_default_configs new_config bytes_beq
initialize_test = refl

get_version_info-update_example : Serves release (codes "v1.1.0") (
    get_version_info versions_in_memory
      (codes "linux")
      (codes "amd64")
      (codes "v1.1.0")
      (codes "stable")
      (codes "linux")
      (codes "amd64")
      (update_client_version_config versions_in_memory release 7 []).0)
unfolding update_client_version_config new_config bytes_beq
get_version_info-update_example =
    get_version_info-update versions_in_memory (codes "linux") (codes "amd64") (codes "v1.1.0")
      release 7 [] (new_config release 7) refl refl refl refl refl
