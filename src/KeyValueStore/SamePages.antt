-- ===== src/KeyValueStore/SamePages.antt =====
-- What no operation changes: the pages are as many and as large.
use firefly_zephyr.Base.{
  ℕ, zero, suc, ◌+◌, ◌*◌, ◌%◌, ◌≡◌, refl, ap, ◌∙◌, Bool, true, false, not, List, [], ◌∷◌, leb, ◌==◌,
  if◌then◌else◌, bit_and,
}
use firefly_zephyr.Base.Bytes.{slice}
use firefly_zephyr.KeyValueStore.Types.{
  FlashArea, Metadata, Store, fd_assert, page_address, flags_removed, flags_unused,
}
use firefly_zephyr.KeyValueStore.Pages.{
  get_metadata, get_metadata_count, is_page_empty, all_erased, get_write_size,
}
use firefly_zephyr.KeyValueStore.Lookup.{lookup, lookup_on_page, is_some}
use firefly_zephyr.KeyValueStore.Stream.{
  nvm_write, nvm_erase, ostream_write, ostream_flush, put_byte, ostream_callback, ostream,
}
use firefly_zephyr.KeyValueStore.Collect.{
  set_commit, write, collect_record, collect_loop, garbage_collect,
}

pub record Same (s t : Store) : Type 0 where
  pub pages : t.page_count ≡ s.page_count
  pub size : t.page_size ≡ s.page_size

pub Same-refl : (s : Store) → Same s s
Same-refl s = record { pages = refl; size = refl }

pub Same-trans : (s t u : Store) → Same s t → Same t u → Same s u
Same-trans s t u a b = record { pages = b.pages ∙ a.pages; size = b.size ∙ a.size }

pub Same-fd_assert : (c : Bool) (s : Store) → Same s (fd_assert c s)
Same-fd_assert true s = Same-refl s
Same-fd_assert false s = record { pages = refl; size = refl }

Same-if : (c : Bool) (s t u : Store) → Same s t → Same s u → Same s (if c then t else u)
Same-if true s t u a b = a
Same-if false s t u a b = b

abbrev emptiness : Bool → Bool → Store → Bool × Store
emptiness c d s = if c then (false, s) else (true, fd_assert d s)

-- The page is not empty, or it is and its bytes are asserted to be erased.
only_asserts :
    (c d : Bool) (s : Store)
    → (emptiness c d s).1 ≡ record s { asserts = (emptiness c d s).1.asserts }
only_asserts true d s = refl
only_asserts false true s = refl
only_asserts false false s = refl

pub is_page_empty-asserts :
    (p : ℕ) (s : Store)
    → (is_page_empty p s).1 ≡ record s { asserts = (is_page_empty p s).1.asserts }
unfolding is_page_empty
is_page_empty-asserts p s =
    only_asserts (not ((get_metadata p 0 s).flags == flags_unused))
      (all_erased (slice s.flash (page_address p s) s.page_size)) s

pub Same-is_page_empty : (p : ℕ) (s : Store) → Same s (is_page_empty p s).1
Same-is_page_empty p s = record {
  pages = ap (λ v. v.page_count) (is_page_empty-asserts p s);
  size = ap (λ v. v.page_size) (is_page_empty-asserts p s);
}

module _ (area : FlashArea) where
  Same-nvm_write :
      (offset : ℕ) (bytes : List ℕ) (s : Store) → Same s (nvm_write area offset bytes s)
  unfolding nvm_write
  Same-nvm_write offset bytes s =
      let s0 = fd_assert (area.opens s.flash) s in
      let (result, flash) = area.writes s0.flash offset bytes in
      let a = Same-fd_assert (area.opens s.flash) s in
      let b = Same-fd_assert result (record s0 { flash = flash }) in
      record { pages = b.pages ∙ a.pages; size = b.size ∙ a.size }

  Same-nvm_erase : (page : ℕ) (s : Store) → Same s (nvm_erase area page s)
  unfolding nvm_erase
  Same-nvm_erase page s =
      let s0 = fd_assert (area.opens s.flash) s in
      let (result, flash) = area.erases s0.flash (page * s0.page_size) s0.page_size in
      let a = Same-fd_assert (area.opens s.flash) s in
      let b = Same-fd_assert result (record s0 { flash = flash }) in
      record { pages = b.pages ∙ a.pages; size = b.size ∙ a.size }

  Same-ostream_write : (s : Store) → Same s (ostream_write area s)
  unfolding ostream_write
  Same-ostream_write s =
      let s0 = fd_assert (leb s.ostream_state.count 16) s in
      let a = Same-fd_assert (leb s.ostream_state.count 16) s in
      let b =
        Same-nvm_write (s0.current.page * s0.page_size + s0.data_write_offset)
          (slice s0.ostream_state.buffer 0 s0.ostream_state.count) s0 in
      record { pages = b.pages ∙ a.pages; size = b.size ∙ a.size }

  Same-ostream_callback : (bytes : List ℕ) (s : Store) → Same s (ostream_callback area bytes s)
  unfolding ostream_callback
  Same-ostream_callback [] s = Same-refl s
  Same-ostream_callback (x ∷ bytes) s =
      let u = if leb 16 s.ostream_state.count then ostream_write area s else s in
      let a = Same-if (leb 16 s.ostream_state.count) s _ s (Same-ostream_write s) (Same-refl s) in
      let b = Same-ostream_callback bytes (put_byte x u) in
      record { pages = b.pages ∙ a.pages; size = b.size ∙ a.size }

  Same-ostream_flush : (s : Store) → Same s (ostream_flush area s)
  unfolding ostream_flush
  Same-ostream_flush s =
      let u : Store = record s {
        ostream_state = record s.ostream_state { count = get_write_size s.ostream_state.count s };
      } in
      let a = Same-ostream_write u in
      Same-if (s.ostream_state.count == 0) s s _ (Same-refl s)
        (record { pages = a.pages; size = a.size })

  Same-set_commit :
      (key_size value_size data_size flags : ℕ) (s : Store)
      → Same s (set_commit area key_size value_size data_size flags s)
  unfolding set_commit
  Same-set_commit key_size value_size data_size flags s =
      let a = Same-nvm_write _ _ _ in record { pages = a.pages; size = a.size }

  Same-write :
      (key : List ℕ) (key_size : ℕ) (value : List ℕ) (value_size flags : ℕ) (s : Store)
      → Same s (write area key key_size value value_size flags s)
  unfolding write ostream
  Same-write key key_size value value_size flags s =
      let s0 : Store = ostream (record s { data_write_offset = s.current.data_byte_count }) in
      let s1 = ostream_callback area key s0 in
      let s2 = ostream_callback area value s1 in
      let s3 = ostream_flush area s2 in
      let a = Same-ostream_callback key s0 in
      let b = Same-ostream_callback value s1 in
      let c = Same-ostream_flush s2 in
      let d =
        Same-set_commit key_size value_size (get_write_size (key_size + value_size) s3) flags s3 in
      record {
        pages = d.pages ∙ c.pages ∙ b.pages ∙ a.pages;
        size = d.size ∙ c.size ∙ b.size ∙ a.size;
      }

  Same-collect_record :
      (page : ℕ) (metadata : Metadata) (s : Store) → Same s (collect_record area page metadata s)
  unfolding collect_record
  Same-collect_record page metadata s =
      let key = slice s.flash (page_address page s + metadata.key_offset) metadata.key_size in
      let value = slice s.flash (page_address page s + metadata.value_offset) metadata.value_size in
      Same-if (not (bit_and metadata.flags flags_removed == 0)) s s _ (Same-refl s) (
        Same-if (is_some (lookup_on_page s.current.page key s)) s s _ (Same-refl s) (
          Same-if (not (is_some (lookup key s))) s s _ (Same-refl s)
            (Same-write key metadata.key_size value metadata.value_size 0 s)))

  Same-collect_loop : (left page i : ℕ) (s : Store) → Same s (collect_loop area left page i s)
  unfolding collect_loop
  Same-collect_loop zero page i s = Same-refl s
  Same-collect_loop (suc left) page i s =
      Same-trans s _ _ (Same-collect_record page (get_metadata page i s) s)
        (Same-collect_loop left page (i + 1) (collect_record area page (get_metadata page i s) s))

  pub Same-garbage_collect : (s : Store) → Same s (garbage_collect area s)
  unfolding garbage_collect
  Same-garbage_collect s =
      let page = (s.current.page + 1) % s.page_count in
      let (empty, s0) = is_page_empty page s in
      let s1 = fd_assert (not empty) s0 in
      let s2 = collect_loop area (get_metadata_count page s1) page 0 s1 in
      let a = Same-is_page_empty page s in
      let b = Same-fd_assert (not empty) s0 in
      let c = Same-collect_loop (get_metadata_count page s1) page 0 s1 in
      let d = Same-nvm_erase page s2 in
      record {
        pages = d.pages ∙ c.pages ∙ b.pages ∙ a.pages;
        size = d.size ∙ c.size ∙ b.size ∙ a.size;
      }
