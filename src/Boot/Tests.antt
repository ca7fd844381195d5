-- ===== src/Boot/Tests.antt =====
-- The boot loader on a device of 256 bytes of flash.
use firefly_zephyr.Base.{◌-◌, ◌≡◌, refl, ◌↔◌, inl, true, [], arith}
use firefly_zephyr.Base.Bytes.{byte_at, copy_in, slice}
use firefly_zephyr.Base.Words.{add32, uint32_at, bytes_eq}
use firefly_zephyr.Boot.Example.{
  old_image, new_image, machine_with, machine, old_metadata, new_metadata, memory, Ends,
}
use firefly_zephyr.Boot.Interface.{ok, require, act, plain}
use firefly_zephyr.Boot.Device.{
  device, contract, device-IsSound, digest, layout, executable_image, update_image,
}
use firefly_zephyr.Boot.Hash.{is_valid_subrange, check_hash, hash_loop, blank_block, block_length}
use firefly_zephyr.Boot.Executable.{
  get_executable_metadata, read_executable, check_executable, valid_executable, executable_range,
  hash_range,
}
use firefly_zephyr.Boot.Image.{bytes_of}
use firefly_zephyr.Boot.Types.{ExecutableMetadata, BootIssue, version_at, Action}
use firefly_zephyr.Boot.Update.{
  or_error, get_update_metadata, read_update, check_update, check_plain, valid_update,
}
use firefly_zephyr.Boot.Action.{get_action, can_upgrade, can_downgrade, can_install, version_is_lt}
use firefly_zephyr.Boot.Install
use firefly_zephyr.Boot.InstallLoop.{install_loop_finishes}
use firefly_zephyr.Boot.Install.{Progress, install_loop, install_block, erase_ahead}
use firefly_zephyr.Boot.Run.{update, take_action, install_and_check, boot_valid, boot_issue}
use firefly_zephyr.Boot.Rules.{IsOlder, MayInstall, version_is_lt_iff, get_action-install}
use firefly_zephyr.Boot.Verified.{IsLaidOut, IsVerified}
use firefly_zephyr.Boot.Checks.{
  check_hash_decides, get_executable_metadata_decides, get_update_metadata_seals,
  checks_change_nothing,
}
use firefly_zephyr.Boot.HashLoop.{hashed, range_end}
use firefly_zephyr.Boot.Sealed.{IsSealed}
use firefly_zephyr.Boot.Verified.{reads_executable}
use firefly_zephyr.Boot.Safety.{update_accepts}

-- The newer update is installed, over the old executable.
installs_newer : Ends machine (ok boot_valid) new_image
unfolding update take_action install_and_check Install.install install_loop install_block
    erase_ahead get_executable_metadata read_executable check_executable get_update_metadata
    read_update check_update check_plain or_error get_action is_valid_subrange require act uint32_at
    slice bytes_of check_hash hash_loop blank_block copy_in digest bytes_eq block_length can_upgrade
installs_newer = (refl, refl)

-- A damaged update is not, and the old executable runs.
keeps_old : Ends (machine_with old_image (update_image 4 11 30 89)) (ok boot_valid) old_image
unfolding update take_action install_and_check Install.install install_loop install_block
    erase_ahead get_executable_metadata read_executable check_executable get_update_metadata
    read_update check_update check_plain or_error get_action is_valid_subrange require act uint32_at
    slice bytes_of check_hash hash_loop blank_block copy_in digest bytes_eq block_length can_upgrade
keeps_old = (refl, refl)

-- A damaged executable with no update to install is an issue.
no_firmware :
    Ends
      (machine_with (executable_image 3 11) [])
      (ok (boot_issue BootIssue.firmware))
      (executable_image 3 11)
unfolding update take_action install_and_check Install.install install_loop install_block
    erase_ahead get_executable_metadata read_executable check_executable get_update_metadata
    read_update check_update check_plain or_error get_action is_valid_subrange require act uint32_at
    slice bytes_of check_hash hash_loop blank_block copy_in digest bytes_eq block_length can_upgrade
no_firmware = (refl, refl)

ran : update device machine ≡ (ok boot_valid, (update device machine).1)
unfolding update take_action install_and_check Install.install install_loop install_block
    erase_ahead get_executable_metadata read_executable check_executable get_update_metadata
    read_update check_update check_plain or_error get_action is_valid_subrange require act uint32_at
    slice bytes_of check_hash hash_loop blank_block copy_in digest bytes_eq block_length can_upgrade
ran = refl

laid_out : IsLaidOut contract.layout
laid_out = omega arith

update_accepts_example :
    (metadata : ExecutableMetadata) × IsVerified digest layout
      (byte_at (update device machine).1.world.flash)
      metadata
update_accepts_example =
    update_accepts contract device-IsSound laid_out machine (update device machine).1 boot_valid ran
      refl

version_is_lt_iff_example :
    (version_is_lt (version_at old_image 72) (version_at new_image 72) ≡ true)
    ↔ IsOlder (version_at old_image 72) (version_at new_image 72)
version_is_lt_iff_example = version_is_lt_iff (version_at old_image 72) (version_at new_image 72)

-- What the two checks return for this device.
found :
    get_executable_metadata device machine
    ≡ (ok (valid_executable old_metadata), (get_executable_metadata device machine).1)
unfolding update take_action install_and_check Install.install install_loop install_block
    erase_ahead get_executable_metadata read_executable check_executable get_update_metadata
    read_update check_update check_plain or_error get_action is_valid_subrange require act uint32_at
    slice bytes_of check_hash hash_loop blank_block copy_in digest bytes_eq block_length can_upgrade
found = refl

sealed :
    get_update_metadata device machine
    ≡ (ok (valid_update new_metadata), (get_update_metadata device machine).1)
unfolding update take_action install_and_check Install.install install_loop install_block
    erase_ahead get_executable_metadata read_executable check_executable get_update_metadata
    read_update check_update check_plain or_error get_action is_valid_subrange require act uint32_at
    slice bytes_of check_hash hash_loop blank_block copy_in digest bytes_eq block_length can_upgrade
sealed = refl

executable_end : range_end (executable_range layout.executable old_metadata) ≡ 128
unfolding uint32_at slice
executable_end = refl

get_executable_metadata_decides_example :
    ((true ≡ true)
      ↔ ((metadata : ExecutableMetadata) × IsVerified digest layout memory.executable metadata))
    × ((true ≡ true) ↔ IsVerified digest layout memory.executable old_metadata)
    × (contract.memory (get_executable_metadata device machine).1.world ≡ memory)
get_executable_metadata_decides_example =
    get_executable_metadata_decides contract device-IsSound laid_out machine
      (get_executable_metadata device machine).1 (valid_executable old_metadata) found

get_update_metadata_seals_example : IsSealed digest layout memory.update new_metadata
get_update_metadata_seals_example =
    get_update_metadata_seals contract device-IsSound laid_out machine
      (get_update_metadata device machine).1 (valid_update new_metadata) sealed refl

checks_change_nothing_example :
    (contract.memory (get_executable_metadata device machine).1.world ≡ memory)
    × (contract.memory (get_update_metadata device machine).1.world ≡ memory)
checks_change_nothing_example = checks_change_nothing contract device-IsSound laid_out machine

get_action-install_example :
    (get_action can_upgrade can_downgrade can_install
        (valid_executable old_metadata)
        (valid_update new_metadata)
      ≡ Action.install)
    ↔ MayInstall can_upgrade can_downgrade can_install
        (valid_executable old_metadata)
        (valid_update new_metadata)
get_action-install_example =
    get_action-install can_upgrade can_downgrade can_install (valid_executable old_metadata)
      (valid_update new_metadata)

-- The hash of the old executable, found right.
hashed_well :
    check_hash device
      (plain device.executable_read)
      tt
      layout.executable_storage
      (executable_range layout.executable old_metadata)
      (hash_range layout.executable)
      old_metadata.hash
      machine
    ≡ (
      ok (tt, true),
      (check_hash device
          (plain device.executable_read)
          tt
          layout.executable_storage
          (executable_range layout.executable old_metadata)
          (hash_range layout.executable)
          old_metadata.hash
          machine).1,
    )
unfolding update take_action install_and_check Install.install install_loop install_block
    erase_ahead get_executable_metadata read_executable check_executable get_update_metadata
    read_update check_update check_plain or_error get_action is_valid_subrange require act uint32_at
    slice bytes_of check_hash hash_loop blank_block copy_in digest bytes_eq block_length can_upgrade
hashed_well = refl

check_hash_decides_example :
    (is_valid_subrange layout.executable_storage (executable_range layout.executable old_metadata)
      ≡ true)
    × ((true ≡ true) ↔ (
        digest (
          hashed memory.executable
            (executable_range layout.executable old_metadata)
            (hash_range layout.executable))
        ≡ old_metadata.hash))
    × (contract.memory
          (check_hash device
            (plain device.executable_read)
            tt
            layout.executable_storage
            (executable_range layout.executable old_metadata)
            (hash_range layout.executable)
            old_metadata.hash
            machine).1.world
        ≡ memory)
check_hash_decides_example =
    check_hash_decides contract device-IsSound memory.executable (plain device.executable_read)
      machine
      (check_hash device (plain device.executable_read) tt layout.executable_storage
        (executable_range layout.executable old_metadata) (hash_range layout.executable)
        old_metadata.hash machine).1
      (reads_executable contract device-IsSound memory) tt tt layout.executable_storage
      (executable_range layout.executable old_metadata) (hash_range layout.executable)
      old_metadata.hash true
      (record {
        block = 1;
        above = omega arith;
        below = omega arith;
        small = omega arith;
        whole = inl (rw executable_end (omega arith));
      })
      hashed_well

abbrev first_block : Progress
first_block = record {
  decrypt_context = [];
  update_location = 128;
  flash_location = 0;
  next_erase_location = 0;
  block_index = 0;
}

abbrev last_block : Progress
last_block = record {
  decrypt_context = [];
  update_location = 256;
  flash_location = 128;
  next_erase_location = 128;
  block_index = 8;
}

looped :
    install_loop device 128 128 8 256 first_block machine
    ≡ (ok last_block, (install_loop device 128 128 8 256 first_block machine).1)
unfolding install_loop install_block erase_ahead act block_length copy_in bytes_of
looped = refl

install_loop_finishes_example :
    (last_block.update_location ≡ 256)
    × (last_block.flash_location
        ≡ add32 first_block.flash_location (256 - first_block.update_location))
install_loop_finishes_example =
    install_loop_finishes device 128 8 256 (omega arith) 128 first_block last_block machine
      (install_loop device 128 128 8 256 first_block machine).1 (omega arith) (omega arith)
      (omega arith) looped
