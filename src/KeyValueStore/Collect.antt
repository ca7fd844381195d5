-- ===== src/KeyValueStore/Collect.antt =====
-- Committing a record, and making room by collecting the oldest page.
use firefly_zephyr.Base.{
  ℕ, zero, suc, ◌+◌, ◌*◌, ◌%◌, ◌^◌, Bool, true, false, not, Option, none, some, List, ltb, leb,
  ◌==◌, if◌then◌else◌, bit_and,
}
use firefly_zephyr.Base.Bytes.{slice}
use firefly_zephyr.Base.Words.{add32, sub32}
use firefly_zephyr.KeyValueStore.Types.{
  FlashArea, Metadata, metadata_size, flags_removed, Store, fd_assert, page_address,
}
use firefly_zephyr.KeyValueStore.Pages.{
  pack_metadata, get_write_size, get_metadata, get_metadata_count, is_page_empty,
}
use firefly_zephyr.KeyValueStore.Lookup.{lookup_on_page, lookup, is_some}
use firefly_zephyr.KeyValueStore.Stream.{
  nvm_erase, nvm_write, ostream, ostream_callback, ostream_flush,
}

abbrev pub used_bytes : Store → ℕ
used_bytes s = s.current.data_byte_count + s.current.metadata_count * metadata_size

unfoldable pub current_free_bytes : Store → ℕ × Store
current_free_bytes s =
    (sub32 s.page_size (used_bytes s), fd_assert (leb (used_bytes s) s.page_size) s)

unfoldable pub advance_current_page : Store → Store
unfolding is_page_empty
advance_current_page s =
    let page = (s.current.page + 1) % s.page_count in
    let (empty, s0) = is_page_empty page s in
    record (fd_assert empty s0) {
      current = record { page = page; data_byte_count = 0; metadata_count = 0 };
    }

abbrev pub allocated : Store → Bool × Store
allocated s = (true, record s { data_write_offset = s.current.data_byte_count })

module _ (area : FlashArea) where
  unfoldable pub set_commit : ℕ → ℕ → ℕ → ℕ → Store → Store
  unfolding nvm_write pack_metadata
  set_commit key_size value_size data_size flags s =
      let c = s.current in
      let metadata : Metadata = record {
        flags = flags;
        key_offset = c.data_byte_count % 2 ^ 16;
        key_size = key_size % 2 ^ 16;
        value_offset = (c.data_byte_count + key_size) % 2 ^ 16;
        value_size = value_size % 2 ^ 16;
      } in
      let count = c.metadata_count + 1 in
      let offset = sub32 (c.page * s.page_size + s.page_size) (count * metadata_size) in
      nvm_write area offset (pack_metadata metadata) (record s {
        current = record c {
          data_byte_count = c.data_byte_count + data_size;
          metadata_count = count;
        };
      })

  unfoldable pub write : List ℕ → ℕ → List ℕ → ℕ → ℕ → Store → Store
  unfolding ostream ostream_callback ostream_flush get_write_size set_commit
  write key key_size value value_size flags s =
      let s0 = ostream (record s { data_write_offset = s.current.data_byte_count }) in
      let s1 = ostream_flush area (ostream_callback area value (ostream_callback area key s0)) in
      set_commit key_size value_size (get_write_size (key_size + value_size) s1) flags s1

  -- One record of the page that is collected.
  unfoldable pub collect_record : ℕ → Metadata → Store → Store
  unfolding lookup_on_page lookup write slice
  collect_record page metadata s =
      let key = slice s.flash (page_address page s + metadata.key_offset) metadata.key_size in
      let value = slice s.flash (page_address page s + metadata.value_offset) metadata.value_size in
      if not (bit_and metadata.flags flags_removed == 0)
      then s
      else if is_some (lookup_on_page s.current.page key s)
      then s
      else if not (is_some (lookup key s))
      then s
      else write key metadata.key_size value metadata.value_size 0 s

  unfoldable pub collect_loop : ℕ → ℕ → ℕ → Store → Store
  unfolding collect_record
  collect_loop zero page i s = s
  collect_loop (suc left) page i s =
      collect_loop left page (i + 1) (collect_record page (get_metadata page i s) s)

  unfoldable pub garbage_collect : Store → Store
  unfolding is_page_empty get_metadata_count collect_loop nvm_erase
  garbage_collect s =
      let page = (s.current.page + 1) % s.page_count in
      let (empty, s0) = is_page_empty page s in
      let s1 = fd_assert (not empty) s0 in
      let s2 = collect_loop (get_metadata_count page s1) page 0 s1 in
      let s3 = nvm_erase area page s2 in
      record s3 { garbage_collection_count = add32 s3.garbage_collection_count 1 }

  -- `none` is a loop that has not ended.
  unfoldable pub allocate_loop : ℕ → ℕ → ℕ → Store → Option (Bool × Store)
  unfolding current_free_bytes advance_current_page is_page_empty garbage_collect
  allocate_loop zero size collection_count s = none
  allocate_loop (suc fuel) size collection_count s =
      let (free, s0) = current_free_bytes s in
      let s1 = advance_current_page s0 in
      let (skip, s2) = is_page_empty ((s1.current.page + 1) % s1.page_count) s1 in
      let s3 = garbage_collect s2 in
      let skipped = allocate_loop fuel size collection_count s2 in
      let collected = allocate_loop fuel size (collection_count + 1) s3 in
      if leb size free
      then some (allocated s0)
      else if skip
      then skipped
      else if ltb s3.page_count (collection_count + 1)
      then some (false, record s3 { is_full = true })
      else collected

  unfoldable pub allocate : ℕ → Store → Option (Bool × Store)
  unfolding allocate_loop
  allocate size s = if s.is_full then some (false, s) else allocate_loop (s.page_count + 3) size 0 s

  -- The result, and the state; the data size is computed where it is used.
  unfoldable pub allocate_key_value : ℕ → ℕ → Store → Option (Bool × ℕ × Store)
  unfolding get_write_size allocate
  allocate_key_value key_size value_size s =
      let data_size = get_write_size (key_size + value_size) s in
      elim (allocate (data_size + metadata_size + metadata_size) s) [
        | none ↦ none
        | some (result, s') ↦ some (result, data_size, fd_assert result s')
      ]
