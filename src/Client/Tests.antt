-- ===== src/Client/Tests.antt =====
-- Runs of internal/service/auto_update_service.go, internal/service/updater_service.go and
-- internal/tunnel/connection_pool.go on concrete inputs.
use giraffecloud.Base.{◌+◌, ◌≡◌, refl, true, false, none, some, List, [], ◌∷◌, codes, bytes_beq}
use giraffecloud.Connections.Pool.{timeout, failed, is_timeout}
use giraffecloud.Version.Configs.{ClientVersionInfo}
use giraffecloud.Client.Updates.{
  AutoUpdateConfig, UpdateInfo, Clock, Parts, download_url_of, checksum_url_of, trim_slashes,
  check_and_update, preserves, downloads, installs, restarts, restores, cleans,
}
use giraffecloud.Client.LocalPool.{
  start, Step, enters_get, enters_put, receives, sends, closes, step, run,
}
use giraffecloud.Client.Accounted.{held, came_in, handed_out, Sound, run-Accounted}

abbrev config : AutoUpdateConfig
config = record {
  enabled = true;
  check_interval = 0;
  required_only = true;
  download_url = [];
  preserve_connection = true;
  restart_service = true;
  backup_count = 1;
  update_window = some (record { start_hour = 22; end_hour = 6; timezone = [] });
  channel = [];
}

abbrev clock : Clock
clock = record { local_hour = 23; hour_in = λ _. none }

abbrev parts : Parts
parts = record {
  has_state_provider = true;
  is_connected = true;
  preserve = true;
  download = true;
  install = true;
  has_service_manager = true;
  is_running = true;
}

abbrev info : UpdateInfo
info = record {
  version = codes "v1.2.0";
  download_url = [];
  checksum_url = [];
  is_required = true;
  current_version = codes "v1.0.0";
}

check_and_update_test :
    check_and_update config clock parts false (some info)
    ≡ preserves ∷ downloads ∷ installs ∷ restarts ∷ restores ∷ cleans ∷ []
unfolding check_and_update bytes_beq
check_and_update_test = refl

abbrev test_build : ClientVersionInfo
test_build = record {
  latest_version = codes "v2";
  minimum_version = [];
  current_version = [];
  update_available = true;
  update_required = false;
  channel = codes "test";
  release_tag = codes "test-1";
  short_version = codes "v2";
  download_url = codes "https://x/releases";
  release_notes = [];
}

-- The address of a build outside the stable channel has lost "/releases"; with a slash at the end of
-- the configured address, the checksums are looked for elsewhere.
download_url_test :
    (download_url_of test_build (codes "f") ≡ codes "https://x/download/test-1/f")
    × (checksum_url_of (record test_build { download_url = codes "https://x/releases/" })
        ≡ codes "https://x/releases//download/test-1/checksums.txt")
unfolding download_url_of checksum_url_of trim_slashes bytes_beq
download_url_test = (refl, refl)

-- Two connections are put in, the first is dead when it is taken, the second is handed out.
abbrev calls : List Step
calls =
    enters_put (some 7)
    ∷ sends (λ _. timeout) 7
    ∷ enters_put (some 8)
    ∷ sends (λ _. timeout) 8
    ∷ enters_get
    ∷ receives (λ _. failed) (some 9)
    ∷ enters_get
    ∷ receives (λ _. timeout) none
    ∷ []

run-Accounted_example :
    (held 8 (run (start 2) calls) + handed_out 8 (start 2) calls ≡ came_in 8 (start 2) calls)
    × Sound (run (start 2) calls)
run-Accounted_example = run-Accounted 8 2 calls

-- The second connection and the one that replaces the dead one.
handed_test : (handed_out 8 (start 2) calls ≡ 1) × (handed_out 9 (start 2) calls ≡ 1)
unfolding handed_out start is_timeout step
handed_test = (refl, refl)

shut_test : (run (start 2) calls).pool.shut ≡ 7 ∷ []
unfolding run start is_timeout
shut_test = refl

-- The pool is closed between the check of the flag and the send.
panic_test :
    (run (start 2) (enters_put (some 7) ∷ closes ∷ sends (λ _. timeout) 7 ∷ [])).has_panicked ≡ true
unfolding run start is_timeout
panic_test = refl
