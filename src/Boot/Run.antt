-- ===== src/Boot/Run.antt =====
-- `fd_boot_update` and `fd_boot_execute`.
use firefly_zephyr.Base.{true, false, not, if◌then◌else◌}
use firefly_zephyr.Boot.Types.{BootResult, BootIssue, Action, no_action, run, UpdateMetadata}
use firefly_zephyr.Boot.Interface.{M, Interface, pure, ◌>>=◌, ◌>>◌}
use firefly_zephyr.Boot.Executable.{get_executable_metadata}
use firefly_zephyr.Boot.Update.{get_update_metadata}
use firefly_zephyr.Boot.Action.{get_action}
use firefly_zephyr.Boot.Install

abbrev pub boot_valid : BootResult
boot_valid = record { is_valid = true; issue = BootIssue.firmware }

abbrev pub boot_issue : BootIssue → BootResult
boot_issue issue = record { is_valid = false; issue = issue }

module _ {W : Type 0} (interface : Interface W) where
  -- The case `install`: afterwards the executable is checked again.
  unfoldable pub install_and_check : UpdateMetadata → M W BootResult
  install_and_check metadata = do
    Install.install interface metadata
    executable ← get_executable_metadata interface
    if not executable.is_valid then pure (boot_issue BootIssue.update) else pure boot_valid

  unfoldable pub take_action : UpdateMetadata → Action → M W BootResult
  take_action metadata no_action = pure (boot_issue BootIssue.firmware)
  take_action metadata run = pure boot_valid
  take_action metadata Action.install = install_and_check metadata

  unfoldable pub update : M W BootResult
  update = do
    executable ← get_executable_metadata interface
    update ← get_update_metadata interface
    take_action update.metadata (
        get_action interface.can_upgrade interface.can_downgrade interface.can_install executable
          update)

  unfoldable pub execute : M W (Unit {0})
  execute = do interface.cleanup; info ← interface.get_executable; interface.start info.location
