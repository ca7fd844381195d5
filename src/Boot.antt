-- ===== src/Boot.antt =====
-- subsys/boot/src/fd_boot.c and include/fd_boot*.h: the boot loader, which checks the executable
-- in flash and the update in storage, installs the update, and starts the executable.
pub mod Types
pub mod Image
pub mod Triple
pub mod Contract
pub mod Blanking
pub mod HashLoop
pub mod Keep
pub mod Verified
pub mod Deciphering
pub mod Decrypting
pub mod Sealed
pub mod Rules
pub mod Safety
pub mod Checks
pub mod InstallLoop
pub mod Device
pub mod Example
pub mod Tests
pub mod Interface
pub mod Hash
pub mod Executable
pub mod Update
pub mod Action
pub mod Install
pub mod Run
