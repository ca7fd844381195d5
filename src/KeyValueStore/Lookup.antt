-- ===== src/KeyValueStore/Lookup.antt =====
-- Looking a key up, page by page, the latest record first.
use firefly_zephyr.Base.{
  ℕ, zero, suc, ◌+◌, ◌-◌, Bool, true, false, not, ◌&&◌, Option, none, some, List, ltb, ◌==◌,
  if◌then◌else◌, bit_and, length,
}
use firefly_zephyr.Base.Bytes.{slice}
use firefly_zephyr.Base.Words.{bytes_eq}
use firefly_zephyr.KeyValueStore.Types.{
  Metadata, flags_removed, Store, Codec, fd_assert, page_address,
}
use firefly_zephyr.KeyValueStore.Pages.{get_metadata, get_metadata_count}

-- Neither key has a NUL byte, so `strncmp` compares all of their bytes.
unfoldable pub key_matches : ℕ → Metadata → List ℕ → Store → Bool
unfolding bytes_eq slice
key_matches page metadata key s =
    metadata.key_size == length key
    && bytes_eq key (slice s.flash (page_address page s + metadata.key_offset) (length key))

-- The loop over the `left` oldest records of the page: the place and the size of the value.
unfoldable pub lookup_loop : ℕ → ℕ → List ℕ → Store → Option (ℕ × ℕ)
unfolding key_matches
lookup_loop zero page key s = none
lookup_loop (suc left) page key s =
    let metadata = get_metadata page left s in
    let later = lookup_loop left page key s in
    if key_matches page metadata key s
    then (if not (bit_and metadata.flags flags_removed == 0)
        then none
        else some (page_address page s + metadata.value_offset, metadata.value_size))
    else later

unfoldable pub lookup_on_page : ℕ → List ℕ → Store → Option (ℕ × ℕ)
unfolding lookup_loop get_metadata_count
lookup_on_page page key s = lookup_loop (get_metadata_count page s) page key s

abbrev pub or_else : Option (ℕ × ℕ) → Option (ℕ × ℕ) → Option (ℕ × ℕ)
or_else none later = later
or_else (some found) later = some found

-- The loop ends when it is back at the current page, after `page_count` pages. The current page is
-- below `page_count`: from one that is not, the loop of the source never comes back, and the `none`
-- of this one says nothing.
unfoldable pub page_loop : ℕ → ℕ → List ℕ → Store → Option (ℕ × ℕ)
unfolding lookup_on_page
page_loop zero page key s = none
page_loop (suc left) page key s =
    let before = if ltb 0 page then page - 1 else s.page_count - 1 in
    let later = page_loop left before key s in
    or_else (lookup_on_page page key s) (if before == s.current.page then none else later)

unfoldable pub lookup : List ℕ → Store → Option (ℕ × ℕ)
unfolding page_loop
lookup key s = page_loop s.page_count s.current.page key s

abbrev pub is_some : Option (ℕ × ℕ) → Bool
is_some none = false
is_some (some found) = true

unfoldable pub has : List ℕ → Store → Bool
unfolding lookup
has key s = is_some (lookup key s)

-- `fd_key_value_store_is_set`
unfoldable pub is_set : List ℕ → Store → Bool
unfolding lookup
is_set key s = is_some (lookup key s)

module _ {Message : Type 0} (codec : Codec Message) where
  -- The object is written by the decoder also where that fails.
  unfoldable pub get : List ℕ → Message → Store → Bool × Message × Store
  unfolding lookup slice
  get key object s = elim (lookup key s) [
    | none ↦ (false, object, s)
    | some (address, size) ↦
        let (result, no_errmsg, object') = codec.decode (slice s.flash address size) in
        (result, object', fd_assert no_errmsg (fd_assert result s))
  ]
