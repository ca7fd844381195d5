-- ===== src/KeyValueStore/Pages.antt =====
-- Metadata records at the end of a page, and the pages in use.
use firefly_zephyr.Base.{
  ℕ, zero, suc, ◌+◌, ◌-◌, ◌*◌, ◌/◌, ◌%◌, ◌^◌, Bool, true, false, not, ◌&&◌, Option, none, some,
  List, [], ◌∷◌, ◌++◌, ◌==◌, if◌then◌else◌, bit_and,
}
use firefly_zephyr.Base.Bytes.{byte_at, slice}
use firefly_zephyr.Base.Words.{uint32_at, add32}
use firefly_zephyr.Binary.{pack_uint16, pack_uint32}
use firefly_zephyr.KeyValueStore.Types.{
  Metadata, metadata_size, flags_unused, Store, fd_assert, page_address,
}

-- A `uint16_t` field of a packed structure, little endian.
abbrev pub uint16_at : List ℕ → ℕ → ℕ
uint16_at bytes o = (byte_at bytes o + 256 * byte_at bytes (o + 1)) % 2 ^ 16

abbrev pub metadata_at : List ℕ → ℕ → Metadata
metadata_at bytes o = record {
  flags = uint32_at bytes o;
  key_offset = uint16_at bytes (o + 4);
  key_size = uint16_at bytes (o + 6);
  value_offset = uint16_at bytes (o + 8);
  value_size = uint16_at bytes (o + 10);
}

unfoldable pub pack_metadata : Metadata → List ℕ
unfolding pack_uint32 pack_uint16
pack_metadata m =
    pack_uint32 m.flags
    ++ (pack_uint16 m.key_offset
        ++ (pack_uint16 m.key_size ++ (pack_uint16 m.value_offset ++ pack_uint16 m.value_size)))

-- The size is rounded up to whole writes, by a mask.
unfoldable pub get_write_size : ℕ → Store → ℕ
get_write_size size s = let n = s.minumum_write_size - 1 in bit_and (add32 size n) (2 ^ 32 - 1 - n)

-- A page has room for the record, so that its offset does not wrap.
abbrev pub metadata_address : ℕ → ℕ → Store → ℕ
metadata_address page index s = page_address page s + (s.page_size - (index + 1) * metadata_size)

abbrev pub get_metadata : ℕ → ℕ → Store → Metadata
get_metadata page index s = metadata_at s.flash (metadata_address page index s)

-- The loop from record `i` on, with `left` records to go.
unfoldable pub metadata_count_loop : ℕ → ℕ → ℕ → Store → ℕ
metadata_count_loop zero page i s = 0
metadata_count_loop (suc left) page i s =
    let later = metadata_count_loop left page (i + 1) s in
    if (get_metadata page i s).flags == flags_unused then i else later

unfoldable pub get_metadata_count : ℕ → Store → ℕ
unfolding metadata_count_loop
get_metadata_count page s = metadata_count_loop (s.page_size / metadata_size) page 0 s

-- Each of the bytes is 0xff.
unfoldable pub all_erased : List ℕ → Bool
all_erased [] = true
all_erased (x ∷ bytes) = x == 0xff && all_erased bytes

unfoldable pub is_page_empty : ℕ → Store → Bool × Store
unfolding all_erased slice
is_page_empty page s =
    if not ((get_metadata page 0 s).flags == flags_unused)
    then (false, s)
    else (true, fd_assert (all_erased (slice s.flash (page_address page s) s.page_size)) s)

-- The first loop of `fd_key_value_store_get_current_page`.
unfoldable pub find_occupied : ℕ → ℕ → Store → Option ℕ × Store
unfolding is_page_empty
find_occupied zero i s = (none, s)
find_occupied (suc left) i s =
    let (empty, s') = is_page_empty i s in
    let later = find_occupied left (i + 1) s' in if not empty then (some i, s') else later

-- The second loop.
unfoldable pub find_empty : ℕ → ℕ → ℕ → Store → Option ℕ × Store
unfolding is_page_empty
find_empty zero first i s = (none, s)
find_empty (suc left) first i s =
    let page = (first + i) % s.page_count in
    let (empty, s') = is_page_empty page s in
    let later = find_empty left first (i + 1) s' in if empty then (some page, s') else later

-- The result, the page, and the state.
unfoldable pub get_current_page : Store → Bool × ℕ × Store
unfolding find_occupied find_empty
get_current_page s =
    let s0 = record s { is_full = false } in
    let (occupied, s1) = find_occupied s0.page_count 0 s0 in
    elim occupied [
      | none ↦ (true, 0, s1)
      | some first ↦
          let (empty, s2) = find_empty (s1.page_count - 1) first 1 s1 in
          elim empty [
            | none ↦ (false, 0, s2)
            | some page ↦ (true, (page + s2.page_count - 1) % s2.page_count, s2)
          ]
    ]

unfoldable pub update_current : Store → Store
unfolding get_current_page get_metadata_count get_write_size
update_current s =
    let (found, page, s0) =
      get_current_page
        (record s { current = record s.current { data_byte_count = 0; metadata_count = 0 } }) in
    let s1 = record s0 { is_full = not found; current = record s0.current { page = page } } in
    if not found
    then s1
    else (let count = get_metadata_count page s1 in
        if count == 0
        then s1
        else (let metadata = get_metadata page (count - 1) s1 in
            let data_size = get_write_size (metadata.key_size + metadata.value_size) s1 in
            record s1 {
              current = record {
                page = page;
                data_byte_count = metadata.key_offset + data_size;
                metadata_count = count;
              };
            }))
