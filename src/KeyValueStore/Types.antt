-- ===== src/KeyValueStore/Types.antt =====
-- The state of the store, and what it stands on: the flash driver and the message codec, which are
-- not this repository's. The flash is mapped into memory, so a pointer into it is an offset in it.
use firefly_zephyr.Base.{ℕ, ◌+◌, ◌*◌, ◌%◌, ◌^◌, Bool, List, if◌then◌else◌}

-- `flash_area_open`, `flash_area_erase` and `flash_area_write` at an offset in the area: whether
-- the result is 0, and what the flash holds then.
pub record FlashArea : Type 0 where
  pub opens : List ℕ → Bool
  pub erases : List ℕ → ℕ → ℕ → Bool × List ℕ
  pub writes : List ℕ → ℕ → List ℕ → Bool × List ℕ

-- `pb_get_encoded_size`, `pb_encode` and `pb_decode` at a descriptor. Encoding hands runs of bytes to
-- the stream, in order. The second Boolean is whether `errmsg` is NULL.
pub record Codec (Message : Type 0) : Type 0 where
  pub encoded_size : Message → Bool × ℕ
  pub encode : Message → Bool × Bool × List (List ℕ)
  pub decode : List ℕ → Bool × Bool × Message

-- `fd_key_value_store_metadata_t`, twelve bytes, with the two blobs spread out.
pub record Metadata : Type 0 where
  pub flags : ℕ
  pub key_offset : ℕ
  pub key_size : ℕ
  pub value_offset : ℕ
  pub value_size : ℕ

abbrev pub metadata_size : ℕ
metadata_size = 12

abbrev pub flags_removed : ℕ
flags_removed = 1

abbrev pub flags_unused : ℕ
flags_unused = 0xffffffff

-- `fd_key_value_store_ostream_state_t`
pub record OstreamState : Type 0 where
  pub buffer : List ℕ
  pub count : ℕ

-- `fd_key_value_store_equal_stream_state_t`
pub record EqualStreamState : Type 0 where
  pub value : ℕ
  pub size : ℕ
  pub count : ℕ
  pub is_equal : Bool

-- `fd_key_value_store_currrent_t`
pub record Current : Type 0 where
  pub page : ℕ
  pub data_byte_count : ℕ
  pub metadata_count : ℕ

-- `fd_key_value_store_listener_t`: which of its functions are set.
pub record Listener : Type 0 where
  pub context : ℕ
  pub was_erased : Bool
  pub was_set : Bool
  pub was_removed : Bool

-- The calls of listeners, with their context. What a listener does is a call that follows.
pub data Notice : Type 0 where
  erased : ℕ → Notice
  set removed : ℕ → List ℕ → Notice

-- `fd_key_value_store_t`, with the flash, the calls of listeners, latest last, and the count of
-- failed assertions.
pub record Store : Type 0 where
  pub page_count : ℕ
  pub page_size : ℕ
  pub minumum_write_size : ℕ
  pub is_full : Bool
  pub current : Current
  pub data_write_offset : ℕ
  pub ostream_state : OstreamState
  pub garbage_collection_count : ℕ
  pub equal_stream_state : EqualStreamState
  pub listeners : List Listener
  pub flash : List ℕ
  pub notices : List Notice
  pub asserts : ℕ

abbrev pub fd_assert : Bool → Store → Store
fd_assert condition s = if condition then s else record s { asserts = (s.asserts + 1) % 2 ^ 32 }

-- `fd_key_value_store_get_page_address`
abbrev pub page_address : ℕ → Store → ℕ
page_address page s = page * s.page_size
