-- ===== src/Boot/Example.antt =====
-- A device of 256 bytes of flash, with an executable, and an update that is newer.
use firefly_zephyr.Base.{ℕ, ◌≡◌, List, []}
use firefly_zephyr.Base.Bytes.{slice}
use firefly_zephyr.Boot.Interface.{Machine, Result}
use firefly_zephyr.Boot.Device.{Device, device, contract, executable_image, update_image}
use firefly_zephyr.Boot.Types.{
  ExecutableMetadata, BootResult, UpdateMetadata, executable_metadata_at, update_metadata_at,
}
use firefly_zephyr.Boot.Run.{update}
use firefly_zephyr.Boot.Contract.{Memory}

abbrev pub old_image : List ℕ
old_image = executable_image 3 10

abbrev pub new_image : List ℕ
new_image = executable_image 4 11

abbrev pub machine_with : List ℕ → List ℕ → Machine Device
machine_with flash storage = record {
  world = record { flash = flash; storage = storage; absorbed = [] };
  error = 0;
}

-- The flash holds version 1.2.3 and the storage version 1.2.4.
abbrev pub machine : Machine Device
machine = machine_with old_image (update_image 4 11 30 88)

abbrev pub old_metadata : ExecutableMetadata
old_metadata = executable_metadata_at (slice old_image 72 36) 0

abbrev pub new_metadata : UpdateMetadata
new_metadata = update_metadata_at (slice machine.world.storage 8 76) 0

abbrev pub memory : Memory
memory = contract.memory machine.world

abbrev pub Ends : Machine Device → Result BootResult → List ℕ → Type 0
Ends m r flash = ((update device m).0 ≡ r) × ((update device m).1.world.flash ≡ flash)
