-- ===== src/Boot/Install.antt =====
-- `fd_boot_install`: decrypt the update and flash it over the executable.
use firefly_zephyr.Base.{ℕ, zero, suc, ◌-◌, ◌/◌, List, ◌==◌, ltb, if◌then◌else◌}
use firefly_zephyr.Base.Words.{add32}
use firefly_zephyr.Boot.Types.{UpdateMetadata, decrypt_block_size}
use firefly_zephyr.Boot.Interface.{M, Interface, pure, ◌>>=◌, ◌>>◌, act}
use firefly_zephyr.Boot.Hash.{block_length}
use firefly_zephyr.Boot.Update.{encrypted_range}

-- The variables of the loop.
pub record Progress : Type 0 where
  pub decrypt_context : List ℕ
  pub update_location : ℕ
  pub flash_location : ℕ
  pub next_erase_location : ℕ
  pub block_index : ℕ

module _ {W : Type 0} (interface : Interface W) where
  -- Erase ahead, when the writes have come to where the last call of `erase` stopped.
  unfoldable pub erase_ahead : ℕ → Progress → M W ℕ
  erase_ahead executable_length p =
      if p.next_erase_location == p.flash_location
      then interface.erase p.flash_location executable_length
      else pure p.next_erase_location

  unfoldable pub install_block : ℕ → ℕ → ℕ → Progress → M W Progress
  install_block executable_length block_count end p = do
    act interface.feed
    let length = block_length decrypt_block_size p.update_location end
    bytes ← interface.update_read p.update_location length
    (context, out) ← interface.decrypt_update p.decrypt_context bytes
    next_erase_location ← erase_ahead executable_length p
    interface.write p.flash_location out
    act (interface.progress (add32 p.block_index 1) block_count)
    pure (record {
      decrypt_context = context;
      update_location = add32 p.update_location length;
      flash_location = add32 p.flash_location length;
      next_erase_location = next_erase_location;
      block_index = add32 p.block_index 1;
    })

  -- `while (update_location < update_end)`
  unfoldable pub install_loop : ℕ → ℕ → ℕ → ℕ → Progress → M W Progress
  install_loop zero executable_length block_count end p = pure p
  install_loop (suc fuel) executable_length block_count end p =
      if ltb p.update_location end
      then (do
        p' ← install_block executable_length block_count end p
        install_loop fuel executable_length block_count end p')
      else pure p

  unfoldable pub install : UpdateMetadata → M W (Unit {0})
  install metadata = do
    key ← interface.get_decryption
    context ← interface.decrypt_initialize key metadata.initialization_vector
    info ← interface.get_executable
    let executable_length = metadata.executable_metadata.length
    let blocks = executable_length / decrypt_block_size
    let block_count = if ltb blocks 1 then 1 else blocks
    act (interface.progress 0 block_count)
    storage ← interface.get_update_storage
    let update_location = (encrypted_range storage metadata).location
    let end = add32 update_location executable_length
    p ← install_loop (end - update_location) executable_length block_count end (record {
      decrypt_context = context;
      update_location = update_location;
      flash_location = info.location;
      next_erase_location = info.location;
      block_index = 0;
    })
    interface.flash_finalize
    interface.decrypt_finalize p.decrypt_context
