-- ===== src/Client/Updates.antt =====
-- The decisions of AutoUpdateService (internal/service/auto_update_service.go) and the addresses that
-- UpdaterService.CheckForUpdates (internal/service/updater_service.go) builds, with AutoUpdateConfig of
-- internal/tunnel/config.go. Downloads, installations, the clock and the service manager are
-- parameters.
use giraffecloud.Base.{
  ℕ, Bool, true, false, not, ◌&&◌, ◌||◌, Option, none, some, List, [], ◌∷◌, ◌++◌, Bytes, codes,
  ◌==◌, nat_eq, bytes_eq, bytes_beq, ltb, leb, if◌then◌else◌,
}
use giraffecloud.Text.{contains, trim_suffix}
use giraffecloud.Version.Configs.{ClientVersionInfo}

pub record TimeWindow : Type 0 where
  pub start_hour : ℕ
  pub end_hour : ℕ
  pub timezone : Bytes

pub record AutoUpdateConfig : Type 0 where
  pub enabled : Bool
  pub check_interval : ℕ
  pub required_only : Bool
  pub download_url : Bytes
  pub preserve_connection : Bool
  pub restart_service : Bool
  pub backup_count : ℕ
  pub update_window : Option TimeWindow
  pub channel : Bytes

pub record UpdateInfo : Type 0 where
  pub version : Bytes
  pub download_url : Bytes
  pub checksum_url : Bytes
  pub is_required : Bool
  pub current_version : Bytes

-- Whether the hour is in the window, which may pass midnight.
unfoldable pub in_window : ℕ → ℕ → ℕ → Bool
in_window start_hour end_hour hour =
    if leb start_hour end_hour
    then leb start_hour hour && ltb hour end_hour
    else leb start_hour hour || ltb hour end_hour

-- The hour of the day in a time zone, if the zone can be loaded, and the local hour.
pub record Clock : Type 0 where
  pub local_hour : ℕ
  pub hour_in : Bytes → Option ℕ

abbrev pub hour_or : Option ℕ → ℕ → ℕ
hour_or none hour = hour
hour_or (some h) hour = h

unfoldable pub current_hour : Clock → Bytes → ℕ
unfolding bytes_beq
current_hour clock timezone =
    if not (timezone == [])
    then hour_or (clock.hour_in timezone) clock.local_hour
    else clock.local_hour

unfoldable pub is_in_update_window : Clock → Option TimeWindow → Bool
unfolding in_window current_hour
is_in_update_window clock none = true
is_in_update_window clock (some window) =
    in_window window.start_hour window.end_hour (current_hour clock window.timezone)

-- strings.TrimRight(s, "/")
unfoldable pub trim_slashes : Bytes → Bytes
trim_slashes [] = []
trim_slashes (c ∷ s) = elim (trim_slashes s) [
  | [] ↦ if c == b'/' then [] else c ∷ []
  | d ∷ rest ↦ c ∷ d ∷ rest
]

unfoldable pub archive_name : Bytes → Bytes → Bytes → Bytes
unfolding bytes_beq
archive_name platform arch short_version =
    codes "giraffecloud_"
    ++ platform
    ++ codes "_"
    ++ arch
    ++ codes "_"
    ++ short_version
    ++ (if platform == codes "windows" then codes ".zip" else codes ".tar.gz")

unfoldable pub download_url_of : ClientVersionInfo → Bytes → Bytes
unfolding trim_slashes trim_suffix contains bytes_beq
download_url_of info filename =
    let base = trim_slashes info.download_url in
    if info.channel == codes "stable"
    then base ++ codes "/" ++ filename
    else if contains base (codes "/releases/download/")
    then base ++ codes "/" ++ filename
    else trim_suffix base (codes "/releases")
      ++ codes "/download/"
      ++ info.release_tag
      ++ codes "/"
      ++ filename

unfoldable pub checksum_url_of : ClientVersionInfo → Bytes
unfolding trim_slashes trim_suffix contains bytes_beq
checksum_url_of info =
    let base = trim_slashes info.download_url in
    if info.channel == codes "stable"
    then base ++ codes "/checksums.txt"
    else if contains base (codes "/releases/download/")
    then base ++ codes "/checksums.txt"
    else trim_suffix info.download_url (codes "/releases")
      ++ codes "/download/"
      ++ info.release_tag
      ++ codes "/checksums.txt"

-- CheckForUpdates on what the server answered; `version` is the client's own.
unfoldable pub check_for_updates : Bytes → Bytes → Bytes → ClientVersionInfo → Option UpdateInfo
unfolding download_url_of checksum_url_of archive_name
check_for_updates platform arch version info =
    if not info.update_available
    then none
    else some (record {
      version = info.latest_version;
      download_url = download_url_of info (archive_name platform arch info.short_version);
      checksum_url = checksum_url_of info;
      is_required = info.update_required;
      current_version = version;
    })

-- What an update does, in order.
pub data Action : Type 0 where
  preserves downloads installs restarts restores cleans : Action

-- How the parts of an update end: whether the client is connected and its state can be kept, the
-- download and the installation succeed, and the service runs.
pub record Parts : Type 0 where
  pub has_state_provider : Bool
  pub is_connected : Bool
  pub preserve : Bool
  pub download : Bool
  pub install : Bool
  pub has_service_manager : Bool
  pub is_running : Bool

-- After the installation.
unfoldable pub finish_update : AutoUpdateConfig → Parts → Bool → List Action
finish_update config parts preserved =
    (if config.restart_service && parts.has_service_manager && parts.is_running
      then restarts ∷ []
      else [])
    ++ (if preserved then restores ∷ [] else [])
    ++ cleans ∷ []

-- The actions of performUpdate, and whether it ends without an error.
unfoldable pub perform_update : AutoUpdateConfig → Parts → List Action × Bool
unfolding finish_update
perform_update config parts =
    let tries = config.preserve_connection && parts.has_state_provider && parts.is_connected in
    let before = if tries then preserves ∷ [] else [] in
    if not parts.download
    then (before ++ downloads ∷ [], false)
    else if not parts.install
    then (before ++ downloads ∷ installs ∷ [], false)
    else (
      before ++ downloads ∷ installs ∷ finish_update config parts (tries && parts.preserve),
      true,
    )

-- From the update information on, an error of the query being no answer.
unfoldable pub with_update : AutoUpdateConfig → Parts → Option UpdateInfo → List Action
unfolding perform_update
with_update config parts none = []
with_update config parts (some info) =
    if not info.is_required && config.required_only then [] else (perform_update config parts).0

unfoldable pub check_and_update :
    AutoUpdateConfig → Clock → Parts → Bool → Option UpdateInfo → List Action
unfolding with_update is_in_update_window
check_and_update config clock parts force info =
    if not force && not (is_in_update_window clock config.update_window)
    then []
    else with_update config parts info
