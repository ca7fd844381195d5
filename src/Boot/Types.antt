-- ===== src/Boot/Types.antt =====
-- The structures and constants of fd_boot.h. A `uint32_t` is a number below 2 ^ 32.
use firefly_zephyr.Base.{ℕ, ◌+◌, List, [], Bool, false}
use firefly_zephyr.Base.Bytes.{slice}
use firefly_zephyr.Base.Words.{uint32_at}

-- `fd_boot_range_t`
pub record Range : Type 0 where
  pub location : ℕ
  pub length : ℕ

-- `fd_boot_version_t`
pub record Version : Type 0 where
  pub major : ℕ
  pub minor : ℕ
  pub patch : ℕ

abbrev pub hash_data_size : ℕ
hash_data_size = 20

abbrev pub hash_block_size : ℕ
hash_block_size = 64

abbrev pub decrypt_block_size : ℕ
decrypt_block_size = 16

-- `fd_boot_info_executable_t`
pub record InfoExecutable : Type 0 where
  pub location : ℕ
  pub metadata_offset : ℕ

-- `fd_boot_executable_metadata_t`: a packed structure of 36 bytes.
pub record ExecutableMetadata : Type 0 where
  pub version : Version
  pub length : ℕ
  pub hash : List ℕ

abbrev pub executable_metadata_header_magic : ℕ
executable_metadata_header_magic = 0xb001da1a

abbrev pub executable_metadata_header_version : ℕ
executable_metadata_header_version = 1

abbrev pub executable_trailer_magic : ℕ
executable_trailer_magic = 0xb001e00d

-- `fd_boot_get_executable_metadata_issue_t`
pub data ExecutableIssue : Type 0 where
  trailer_magic header_magic header_version length hash : ExecutableIssue

-- `fd_boot_get_executable_metadata_result_t`
pub record ExecutableResult : Type 0 where
  pub is_valid : Bool
  pub issue : ExecutableIssue
  pub metadata : ExecutableMetadata

abbrev pub update_metadata_header_magic : ℕ
update_metadata_header_magic = 0xab09da1e

abbrev pub update_metadata_header_version : ℕ
update_metadata_header_version = 1

abbrev pub update_trailer_magic : ℕ
update_trailer_magic = 0xda1ee00d

abbrev pub update_metadata_flag_encrypted : ℕ
update_metadata_flag_encrypted = 1

-- `fd_boot_update_metadata_t`: a packed structure of 76 bytes.
pub record UpdateMetadata : Type 0 where
  pub executable_metadata : ExecutableMetadata
  pub hash : List ℕ
  pub flags : ℕ
  pub initialization_vector : List ℕ

-- `fd_boot_get_update_metadata_issue_t`
pub data UpdateIssue : Type 0 where
  trailer_magic header_magic header_version length hash metadata : UpdateIssue

-- `fd_boot_get_update_metadata_result_t`
pub record UpdateResult : Type 0 where
  pub is_valid : Bool
  pub issue : UpdateIssue
  pub metadata : UpdateMetadata

-- `fd_boot_update_action_t`
pub data Action : Type 0 where
  no_action run install : Action

-- `fd_boot_update_issue_t` and `fd_boot_update_result_t`
pub data BootIssue : Type 0 where
  firmware update : BootIssue

pub record BootResult : Type 0 where
  pub is_valid : Bool
  pub issue : BootIssue

-- The packed structures as they lie in memory.
abbrev pub version_at : List ℕ → ℕ → Version
version_at bytes o = record {
  major = uint32_at bytes o;
  minor = uint32_at bytes (o + 4);
  patch = uint32_at bytes (o + 8);
}

abbrev pub executable_metadata_at : List ℕ → ℕ → ExecutableMetadata
executable_metadata_at bytes o = record {
  version = version_at bytes o;
  length = uint32_at bytes (o + 12);
  hash = slice bytes (o + 16) 20;
}

abbrev pub update_metadata_at : List ℕ → ℕ → UpdateMetadata
update_metadata_at bytes o = record {
  executable_metadata = executable_metadata_at bytes o;
  hash = slice bytes (o + 36) 20;
  flags = uint32_at bytes (o + 56);
  initialization_vector = slice bytes (o + 60) 16;
}

-- What `memset(result, 0, sizeof(*result))` leaves.
abbrev pub no_executable_metadata : ExecutableMetadata
no_executable_metadata = executable_metadata_at [] 0

abbrev pub no_update_metadata : UpdateMetadata
no_update_metadata = update_metadata_at [] 0

abbrev pub invalid_executable : ExecutableIssue → ExecutableResult
invalid_executable issue = record {
  is_valid = false;
  issue = issue;
  metadata = no_executable_metadata;
}

abbrev pub invalid_update : UpdateIssue → UpdateResult
invalid_update issue = record { is_valid = false; issue = issue; metadata = no_update_metadata }
