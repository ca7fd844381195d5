-- ===== src/Boot/Executable.antt =====
-- `fd_boot_get_executable_metadata`: what the flash holds, and whether it may run.
use firefly_zephyr.Base.{◌%◌, true, not, ◌==◌, if◌then◌else◌}
use firefly_zephyr.Base.Words.{add32, sub32, uint32_at}
use firefly_zephyr.Boot.Types.{
  Range, InfoExecutable, ExecutableMetadata, ExecutableResult, ExecutableIssue, hash_block_size,
  hash_data_size, executable_metadata_header_magic, executable_metadata_header_version,
  executable_trailer_magic, executable_metadata_at, invalid_executable,
}
use firefly_zephyr.Boot.Interface.{M, Interface, plain, pure, failed, ◌>>=◌, ◌>>◌, require}
use firefly_zephyr.Boot.Hash.{is_valid_subrange, check_hash}

abbrev pub header_range : InfoExecutable → Range
header_range info = record { location = add32 info.location info.metadata_offset; length = 8 }

abbrev pub metadata_range : InfoExecutable → Range
metadata_range info = record {
  location = add32 (add32 info.location info.metadata_offset) 8;
  length = 36;
}

abbrev pub trailer_range : InfoExecutable → ExecutableMetadata → Range
trailer_range info metadata = record {
  location = sub32 (add32 info.location metadata.length) 4;
  length = 4;
}

abbrev pub executable_range : InfoExecutable → ExecutableMetadata → Range
executable_range info metadata = record { location = info.location; length = metadata.length }

abbrev pub hash_range : InfoExecutable → Range
hash_range info = record {
  location = add32 (add32 info.location info.metadata_offset) 24;
  length = hash_data_size;
}

abbrev pub valid_executable : ExecutableMetadata → ExecutableResult
valid_executable metadata = record {
  is_valid = true;
  issue = ExecutableIssue.trailer_magic;
  metadata = metadata;
}

module _ {W : Type 0} (interface : Interface W) where
  -- From the trailer on. A hash that differs is an issue, not a failure.
  unfoldable pub check_executable :
      Range → InfoExecutable → ExecutableMetadata → M W ExecutableResult
  check_executable storage info metadata =
      if not (is_valid_subrange storage (trailer_range info metadata))
      then pure (invalid_executable ExecutableIssue.length)
      else (do
        trailer ← interface.executable_read (trailer_range info metadata).location 4
        if not (uint32_at trailer 0 == executable_trailer_magic)
            then pure (invalid_executable ExecutableIssue.trailer_magic)
            else (do
              (context, is_valid) ←
                  check_hash interface (plain interface.executable_read) tt storage
                    (executable_range info metadata) (hash_range info) metadata.hash
              if not is_valid
                  then pure (invalid_executable ExecutableIssue.hash)
                  else pure (valid_executable metadata)))

  -- From the metadata on. A length that is no multiple of the block makes the call fail.
  unfoldable pub read_executable : Range → InfoExecutable → M W ExecutableResult
  read_executable storage info = do
    require (is_valid_subrange storage (metadata_range info))
    bytes ← interface.executable_read (metadata_range info).location 36
    let metadata = executable_metadata_at bytes 0
    if not (metadata.length % hash_block_size == 0)
        then failed
        else check_executable storage info metadata

  unfoldable pub get_executable_metadata : M W ExecutableResult
  get_executable_metadata = do
    storage ← interface.get_executable_storage
    info ← interface.get_executable
    require (is_valid_subrange storage (header_range info))
    header ← interface.executable_read (header_range info).location 8
    if not (uint32_at header 0 == executable_metadata_header_magic)
        then pure (invalid_executable ExecutableIssue.header_magic)
        else if not (uint32_at header 4 == executable_metadata_header_version)
        then pure (invalid_executable ExecutableIssue.header_version)
        else read_executable storage info
