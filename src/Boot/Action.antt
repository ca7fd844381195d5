-- ===== src/Boot/Action.antt =====
-- `fd_boot_version_is_eq`, `fd_boot_version_is_lt` and `fd_boot_get_action`: whether the update is
-- installed. The default rules are those of `fd_boot_action_can_*`.
use firefly_zephyr.Base.{Bool, true, false, not, ◌&&◌, ◌==◌, ltb, if◌then◌else◌}
use firefly_zephyr.Boot.Types.{
  Version, ExecutableResult, UpdateResult, Action, no_action, run, install,
}

unfoldable pub can_upgrade : Version → Version → Bool
can_upgrade executable_version update_version = true

unfoldable pub can_downgrade : Version → Version → Bool
can_downgrade executable_version update_version = false

unfoldable pub can_install : Version → Bool
can_install version = true

unfoldable pub version_is_eq : Version → Version → Bool
version_is_eq a b = (a.major == b.major) && (a.minor == b.minor) && (a.patch == b.patch)

unfoldable pub version_is_lt : Version → Version → Bool
version_is_lt a b =
    if ltb a.major b.major
    then true
    else if ltb b.major a.major
    then false
    else if ltb a.minor b.minor
    then true
    else if ltb b.minor a.minor
    then false
    else ltb a.patch b.patch

-- The three functions are those of `fd_boot_action_interface_t`.
unfoldable pub get_action :
    (Version → Version → Bool)
    → (Version → Version → Bool)
    → (Version → Bool)
    → ExecutableResult
    → UpdateResult
    → Action
unfolding version_is_eq version_is_lt
get_action upgrade downgrade fresh executable update =
    let executable_version = executable.metadata.version in
    let update_version = update.metadata.executable_metadata.version in
    if executable.is_valid && update.is_valid
    then if version_is_eq update_version executable_version
      then run
      else if version_is_lt executable_version update_version
      then if upgrade executable_version update_version then install else run
      else if downgrade executable_version update_version
      then install
      else run
    else if executable.is_valid && not update.is_valid
    then run
    else if not executable.is_valid && update.is_valid
    then if fresh update_version then install else no_action
    else no_action
