-- ===== src/Boot/Update.antt =====
-- `fd_boot_read_and_decrypt`, `fd_boot_decrypt_range` and `fd_boot_get_update_metadata`: what the
-- update storage holds, and whether it may be installed.
use firefly_zephyr.Base.{
  ℕ, zero, suc, ◌-◌, ◌%◌, Bool, true, not, List, ◌==◌, ltb, if◌then◌else◌, replicate, bit_and,
}
use firefly_zephyr.Base.Bytes.{slice, copy_in}
use firefly_zephyr.Base.Words.{add32, sub32, uint32_at, bytes_eq}
use firefly_zephyr.Boot.Types.{
  Range, UpdateMetadata, UpdateResult, UpdateIssue, hash_block_size, hash_data_size,
  decrypt_block_size, update_metadata_header_magic, update_metadata_header_version,
  update_trailer_magic, update_metadata_flag_encrypted, update_metadata_at, invalid_update,
}
use firefly_zephyr.Boot.Interface.{
  M, Machine, Result, ok, fail, Interface, Reader, plain, pure, ◌>>=◌, ◌>>◌, require, act,
}
use firefly_zephyr.Boot.Hash.{is_valid_subrange, check_hash, block_length}

-- `if (!call) { fd_boot_set_error(error, 1); return false; }`
unfoldable pub or_error : {W A : Type 0} → Result A × Machine W → Result A × Machine W
or_error (ok a, m) = (ok a, m)
or_error (fail, m) = (fail, record m { error = 1 })

abbrev pub header_range : Range → Range
header_range storage = record { location = storage.location; length = 8 }

abbrev pub metadata_range : Range → Range
metadata_range storage = record { location = add32 storage.location 8; length = 76 }

abbrev pub trailer_range : Range → Range
trailer_range storage = record {
  location = sub32 (add32 storage.location storage.length) 4;
  length = 4;
}

abbrev pub is_encrypted : UpdateMetadata → Bool
is_encrypted metadata = not (bit_and metadata.flags update_metadata_flag_encrypted == 0)

-- The length that the executable must have to fill the storage.
abbrev pub expected_length : Range → UpdateMetadata → ℕ
expected_length storage metadata =
    let plain_length = sub32 (sub32 storage.length 64) 128 in
    if is_encrypted metadata then sub32 plain_length 128 else plain_length

-- Where the encrypted executable stands: in front of the 64 bytes of the footer.
abbrev pub encrypted_range : Range → UpdateMetadata → Range
encrypted_range storage metadata = record {
  location =
      sub32 (sub32 (add32 storage.location storage.length) 64) metadata.executable_metadata.length;
  length = metadata.executable_metadata.length;
}

abbrev pub valid_update : UpdateMetadata → UpdateResult
valid_update metadata = record {
  is_valid = true;
  issue = UpdateIssue.trailer_magic;
  metadata = metadata;
}

module _ {W : Type 0} (interface : Interface W) where
  unfoldable pub read_and_decrypt : Reader W (List ℕ)
  read_and_decrypt context location length = do
    bytes ← interface.update_read location length
    require (length == hash_block_size)
    interface.decrypt_update context bytes

  -- `while (location < end)`: `bytes` is the caller's buffer, `offset` is `data_offset`.
  unfoldable pub decrypt_loop : ℕ → ℕ → ℕ → ℕ → List ℕ → List ℕ → M W (List ℕ × List ℕ)
  decrypt_loop zero end location offset context bytes = pure (context, bytes)
  decrypt_loop (suc fuel) end location offset context bytes =
      if ltb location end
      then (do
        act interface.feed
        let length = block_length decrypt_block_size location end
        block ← interface.update_read location length
        (context', out) ← interface.decrypt_update context block
        decrypt_loop fuel end (add32 location length) (add32 offset length) context'
            (copy_in bytes offset out))
      else pure (context, bytes)

  unfoldable pub decrypt_range : UpdateMetadata → Range → List ℕ → M W (List ℕ)
  decrypt_range metadata range bytes = do
    key ← interface.get_decryption
    context ← interface.decrypt_initialize key metadata.initialization_vector
    let end = add32 range.location range.length
    (context', bytes') ← decrypt_loop (end - range.location) end range.location 0 context bytes
    interface.decrypt_finalize context'
    pure bytes'

  -- The update is not encrypted: check the executable's own hash.
  unfoldable pub check_plain : Range → UpdateMetadata → M W UpdateResult
  check_plain storage metadata = do
    (context, is_valid) ←
        check_hash interface (plain interface.update_read) tt storage
          (record {
            location = add32 storage.location 84;
            length = metadata.executable_metadata.length;
          })
          (record { location = 0; length = hash_data_size }) metadata.executable_metadata.hash
    if not is_valid then pure (invalid_update UpdateIssue.hash) else pure (valid_update metadata)

  -- The hash of the decrypted executable. The context that the reader decrypts with is the zeroed
  -- one inside `fd_boot_read_and_decrypt_context_t`; the initialized one is not used again.
  unfoldable pub check_decrypted : Range → UpdateMetadata → M W UpdateResult
  check_decrypted storage metadata = do
    key ← interface.get_decryption
    decrypt_context ← interface.decrypt_initialize key metadata.initialization_vector
    info ← interface.get_executable
    let range = encrypted_range storage metadata
    (context, is_valid) ←
        check_hash interface read_and_decrypt (replicate 16 0) storage range
          (record {
            location = add32 (add32 range.location info.metadata_offset) 24;
            length = hash_data_size;
          })
          metadata.executable_metadata.hash
    interface.decrypt_finalize context
    if not is_valid then pure (invalid_update UpdateIssue.hash) else pure (valid_update metadata)

  -- The update is encrypted: the encrypted copy of the metadata must agree with the plain one, its
  -- own hash taken as zero. `metadata_bytes` are the 76 bytes of `metadata`.
  unfoldable pub check_encrypted : Range → List ℕ → UpdateMetadata → M W UpdateResult
  check_encrypted storage metadata_bytes metadata = do
    decrypted ← decrypt_range metadata (record { location = 128; length = 128 }) (replicate 128 0)
    let decrypted_metadata = slice decrypted 8 76
    let expected_metadata = copy_in metadata_bytes 36 (replicate hash_data_size 0)
    if not (bytes_eq expected_metadata decrypted_metadata)
        then pure (invalid_update UpdateIssue.metadata)
        else check_decrypted storage metadata

  -- From the trailer on.
  unfoldable pub check_update : Range → List ℕ → UpdateMetadata → M W UpdateResult
  check_update storage metadata_bytes metadata =
      if not (is_valid_subrange storage (trailer_range storage))
      then pure (invalid_update UpdateIssue.length)
      else (do
        trailer ← interface.update_read (trailer_range storage).location 4
        if not (uint32_at trailer 0 == update_trailer_magic)
            then pure (invalid_update UpdateIssue.trailer_magic)
            else (do
              (context, is_valid) ←
                  check_hash interface (plain interface.update_read) tt storage storage
                    (record { location = add32 storage.location 44; length = hash_data_size })
                    metadata.hash
              if not is_valid
                  then pure (invalid_update UpdateIssue.hash)
                  else if is_encrypted metadata
                  then check_encrypted storage metadata_bytes metadata
                  else check_plain storage metadata))

  -- From the metadata on.
  unfoldable pub read_update : Range → M W UpdateResult
  read_update storage = do
    require (is_valid_subrange storage (metadata_range storage))
    bytes ← interface.update_read (metadata_range storage).location 76
    let metadata = update_metadata_at bytes 0
    if not (metadata.executable_metadata.length % hash_block_size == 0)
        then pure (invalid_update UpdateIssue.length)
        else if not (metadata.executable_metadata.length == expected_length storage metadata)
        then pure (invalid_update UpdateIssue.length)
        else check_update storage bytes metadata

  unfoldable pub get_update_metadata : M W UpdateResult
  get_update_metadata = do
    storage ← interface.get_update_storage
    require (is_valid_subrange storage (header_range storage))
    header ← λ m. or_error (interface.update_read (header_range storage).location 8 m)
    if not (uint32_at header 0 == update_metadata_header_magic)
        then pure (invalid_update UpdateIssue.header_magic)
        else if not (uint32_at header 4 == update_metadata_header_version)
        then pure (invalid_update UpdateIssue.header_version)
        else read_update storage
