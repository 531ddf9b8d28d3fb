-- ===== src/Client/Installed.antt =====
-- When the client updates itself (internal/service/auto_update_service.go).
use giraffecloud.Base.{
  ℕ, ◌+◌, ◌-◌, ◌%◌, ◌<◌, ◌≡◌, refl, inl, inr, Bool, true, false, not, ◌&&◌, ◌||◌, Option, none,
  some, any, ltb, arith, Bool-cases,
}
use giraffecloud.Client.Updates.{
  AutoUpdateConfig, UpdateInfo, Clock, in_window, is_in_update_window, Action, installs, restarts,
  Parts, perform_update, with_update, check_and_update,
}

-- Hours of a day: the window is the hours from its start, going round at midnight, before its end.
-- A window whose start is its end is empty.
pub in_window_circular :
    (start_hour end_hour hour : ℕ)
    → start_hour < 24
    → end_hour < 24
    → hour < 24
    → in_window start_hour end_hour hour
      ≡ ltb ((hour + 24 - start_hour) % 24) ((end_hour + 24 - start_hour) % 24)
unfolding in_window
in_window_circular s e h ps pe ph = ground arith

abbrev pub installs_in : Action → Bool
installs_in installs = true
installs_in _ = false

abbrev pub restarts_in : Action → Bool
restarts_in restarts = true
restarts_in _ = false

-- The grounds for an installation.
pub record Due (config : AutoUpdateConfig) (clock : Clock) (parts : Parts) (force : Bool)
    (info : Option UpdateInfo) : Type 0 where
  pub timely : (force || is_in_update_window clock config.update_window) ≡ true
  pub offered :
      (i : UpdateInfo) × (info ≡ some i) × ((i.is_required || not config.required_only) ≡ true)
  pub downloaded : parts.download ≡ true

perform-install :
    (config : AutoUpdateConfig) (parts : Parts)
    → (any installs_in (perform_update config parts).0 ≡ true → parts.download ≡ true)
      × (any restarts_in (perform_update config parts).0 ≡ true → parts.install ≡ true)
unfolding perform_update
perform-install config parts = (ground arith, ground arith)

with_update-install :
    (config : AutoUpdateConfig) (parts : Parts) (info : Option UpdateInfo)
    → (any installs_in (with_update config parts info) ≡ true
        → ((i : UpdateInfo) × (info ≡ some i)
            × ((i.is_required || not config.required_only) ≡ true))
          × (parts.download ≡ true))
      × (any restarts_in (with_update config parts info) ≡ true → parts.install ≡ true)
unfolding with_update
with_update-install config parts none = (λ h. cc, λ h. cc)
with_update-install config parts (some info) =
    elim (Bool-cases (not info.is_required && config.required_only)) [
      | inl skipped ↦ rw skipped (λ h. cc, λ h. cc)
      | inr taken ↦ rw taken (
        λ h. ((info, refl, ground (arith, taken)), (perform-install config parts).0 h),
        (perform-install config parts).1,
      )
    ]

-- A check for updates installs only when it is forced or its hour is in the window, when the server
-- offers an update that is required or that the configuration lets in, and when the download
-- succeeded; and it restarts the service only after an installation that succeeded.
pub check_and_update-Due :
    (config : AutoUpdateConfig) (clock : Clock) (parts : Parts) (force : Bool)
    (info : Option UpdateInfo)
    → (any installs_in (check_and_update config clock parts force info) ≡ true
        → Due config clock parts force info)
      × (any restarts_in (check_and_update config clock parts force info) ≡ true
          → parts.install ≡ true)
unfolding check_and_update
check_and_update-Due config clock parts force info =
    elim (Bool-cases (not force && not (is_in_update_window clock config.update_window))) [
      | inl skipped ↦ rw skipped (λ h. cc, λ h. cc)
      | inr taken ↦ rw taken (
        λ h.
            let due = (with_update-install config parts info).0 h in
            record { timely = ground (arith, taken); offered = due.0; downloaded = due.1 },
        (with_update-install config parts info).1,
      )
    ]
