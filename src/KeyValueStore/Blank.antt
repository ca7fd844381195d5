-- ===== src/KeyValueStore/Blank.antt =====
-- Flash that is erased from end to end: every page is empty, and the store on it is well formed.
use firefly_zephyr.Base.{
  ℕ, zero, suc, ◌+◌, ◌-◌, ◌*◌, ◌/◌, ◌%◌, ◌^◌, ◌≤◌, ◌<◌, ◌≡◌, refl, ap, ap₂, ◌∙◌, Bool, true, false,
  not, ◌&&◌, Option, none, some, List, length, ltb, ◌==◌, if◌then◌else◌, arith,
}
use firefly_zephyr.Base.Bytes.{slice, mul_mono}
use firefly_zephyr.KeyValueStore.Types.{Store, flags_unused, page_address}
use firefly_zephyr.KeyValueStore.Pages.{
  get_write_size, get_metadata, metadata_address, get_metadata_count, all_erased, is_page_empty,
  find_occupied, find_empty, get_current_page, update_current,
}
use firefly_zephyr.KeyValueStore.Lookup.{lookup_loop, lookup_on_page, page_loop, lookup, or_else}
use firefly_zephyr.KeyValueStore.Contract.{Erased, chosen, other, asserted}
use firefly_zephyr.KeyValueStore.Records.{flags_unused_of}
use firefly_zephyr.KeyValueStore.Invariant.{IsStore, count_loop_lem}

-- The pages are in the flash, and a page has room for records.
pub record Geometry (s : Store) : Type 0 where
  pub word : s.minumum_write_size ≡ 4
  pub page_size_le : s.page_size ≤ 2 ^ 16
  pub page_aligned : s.page_size % 4 ≡ 0
  pub le_page_size : 12 ≤ s.page_size
  pub some_page : 0 < s.page_count
  pub in_flash : s.page_count * s.page_size ≤ length s.flash
  pub flash_lt : length s.flash < 2 ^ 32
  pub sixteen : length s.ostream_state.buffer ≡ 16

abbrev pub Blank : Store → Type 0
Blank s = Erased s.flash 0 (s.page_count * s.page_size)

all_erased_lem :
    (n : ℕ) (flash : List ℕ) (o : ℕ) → Erased flash o (o + n) → all_erased (slice flash o n) ≡ true
unfolding all_erased slice
all_erased_lem zero flash o e = refl
all_erased_lem (suc n) flash o e =
    ap₂ (λ x b. x == 255 && b) (e o (omega arith) (omega arith))
      (all_erased_lem n flash (o + 1) (λ j p q. e j (omega (arith, p)) (omega (arith, q))))

-- A page without records.
abbrev pub PageErased : ℕ → Store → Type 0
PageErased p s = Erased s.flash (page_address p s) (page_address p s + s.page_size)

first_unused :
    (s : Store) (p : ℕ)
    → 12 ≤ s.page_size
    → PageErased p s
    → ((get_metadata p 0 s).flags == flags_unused) ≡ true
first_unused s p h e =
    ap (λ f. f == flags_unused)
      (flags_unused_of s.flash (metadata_address p 0 s)
        (λ j x y. e j (omega (arith, x)) (omega (arith, y, h))))

-- It is found to be empty, with no assertion that fails.
pub is_page_empty-Erased :
    (s : Store) (p : ℕ) → 12 ≤ s.page_size → PageErased p s → is_page_empty p s ≡ (true, s)
unfolding is_page_empty
is_page_empty-Erased s p h e =
    other (not ((get_metadata p 0 s).flags == flags_unused)) _ _ (ap not (first_unused s p h e))
    ∙ ap (λ u. (true, u))
        (asserted (all_erased (slice s.flash (page_address p s) s.page_size)) s
          (all_erased_lem s.page_size s.flash (page_address p s) e))

if_none : (c : Bool) (o : Option (ℕ × ℕ)) → o ≡ none → (if c then none else o) ≡ none
if_none true o e = refl
if_none false o e = e

module _ (s : Store) (g : Geometry s) (blank : Blank s) where
  PageErased-Blank :
      (p : ℕ) → p < s.page_count → Erased s.flash (p * s.page_size) (p * s.page_size + s.page_size)
  PageErased-Blank p h j x y =
      blank j (omega arith)
        (omega (arith, y, mul_mono (p + 1) s.page_count s.page_size (omega (arith, h))))

  is_page_empty-Blank : (p : ℕ) → p < s.page_count → is_page_empty p s ≡ (true, s)
  is_page_empty-Blank p h = is_page_empty-Erased s p g.le_page_size (PageErased-Blank p h)

  find_occupied-Blank : (left i : ℕ) → i + left ≤ s.page_count → find_occupied left i s ≡ (none, s)
  unfolding find_occupied
  find_occupied-Blank zero i h = refl
  find_occupied-Blank (suc left) i h =
      ap
        (λ (r : Bool × Store).
          let later = find_occupied left (i + 1) r.1 in if not r.0 then (some i, r.1) else later)
        (is_page_empty-Blank i (omega (arith, h)))
      ∙ find_occupied-Blank left (i + 1) (omega (arith, h))

  count-Blank : (p : ℕ) → p < s.page_count → get_metadata_count p s ≡ 0
  unfolding get_metadata_count
  count-Blank p h =
      count_loop_lem (s.page_size / 12) p 0 0 s (omega arith) (omega (arith, g.le_page_size))
        (λ j b. absurd (omega (arith, b))) (first_unused s p g.le_page_size (PageErased-Blank p h))

  page_loop-Blank :
      (left : ℕ) (p : ℕ) (key : List ℕ) → p < s.page_count → page_loop left p key s ≡ none
  unfolding page_loop lookup_on_page lookup_loop
  page_loop-Blank zero p key h = refl
  page_loop-Blank (suc left) p key h =
      let before = if ltb 0 p then p - 1 else s.page_count - 1 in
      ap
        (λ n.
          or_else (lookup_loop n p key s)
            (if before == s.current.page then none else page_loop left before key s))
        (count-Blank p h)
      ∙ if_none (before == s.current.page) _ (page_loop-Blank left before key (ground (arith, h)))

  pub lookup-Blank : s.current.page < s.page_count → (key : List ℕ) → lookup key s ≡ none
  unfolding lookup
  lookup-Blank h key = page_loop-Blank s.page_count s.current.page key h

-- On blank flash, a store that is at the start of a page.
pub IsStore-Blank :
    (s : Store)
    → Geometry s
    → Blank s
    → s.current.page < s.page_count
    → s.current.data_byte_count ≡ 0
    → s.current.metadata_count ≡ 0
    → IsStore s
IsStore-Blank s g blank h d n = record {
  word = g.word;
  page_size_le = g.page_size_le;
  page_aligned = g.page_aligned;
  page_lt = h;
  in_flash = g.in_flash;
  flash_lt = g.flash_lt;
  data_aligned = omega (arith, d);
  fits = omega (arith, d, n, g.le_page_size);
  used = λ i b. absurd (omega (arith, b, n));
  free =
      λ j x y. PageErased-Blank s g blank s.current.page h j (omega (arith, x)) (omega (arith, y));
  windows = λ i b. absurd (omega (arith, b, n));
  others = λ p i b ne c. absurd (omega (arith, c, count-Blank s g blank p b));
  sixteen = g.sixteen;
}

-- The state at the start of the flash.
abbrev pub at_start : Store → Store
at_start s = record s {
  is_full = false;
  current = record { page = 0; data_byte_count = 0; metadata_count = 0 };
}

abbrev searched : Store → Store
searched s = record s {
  is_full = false;
  current = record s.current { data_byte_count = 0; metadata_count = 0 };
}

searched-Geometry : (s : Store) → Geometry s → Geometry (searched s)
searched-Geometry s g = record {
  word = g.word;
  page_size_le = g.page_size_le;
  page_aligned = g.page_aligned;
  le_page_size = g.le_page_size;
  some_page = g.some_page;
  in_flash = g.in_flash;
  flash_lt = g.flash_lt;
  sixteen = g.sixteen;
}

pub at_start-Geometry : (s : Store) → Geometry s → Geometry (at_start s)
at_start-Geometry s g = record {
  word = g.word;
  page_size_le = g.page_size_le;
  page_aligned = g.page_aligned;
  le_page_size = g.le_page_size;
  some_page = g.some_page;
  in_flash = g.in_flash;
  flash_lt = g.flash_lt;
  sixteen = g.sixteen;
}

get_current_page-Blank :
    (s : Store)
    → Geometry s
    → Blank s
    → get_current_page
        (record s { current = record s.current { data_byte_count = 0; metadata_count = 0 } })
      ≡ (true, 0, searched s)
unfolding get_current_page
get_current_page-Blank s g blank =
    ap
      (λ (r : Option ℕ × Store). elim (r.0) as (λ _. Bool × ℕ × Store) [
        | none ↦ (true, 0, r.1)
        | some first ↦
            let (empty, s2) = find_empty (r.1.page_count - 1) first 1 r.1 in
            elim empty as (λ _. Bool × ℕ × Store) [
              | none ↦ (false, 0, s2)
              | some page ↦ (true, (page + s2.page_count - 1) % s2.page_count, s2)
            ]
      ])
      (find_occupied-Blank (searched s) (searched-Geometry s g) blank s.page_count 0 (omega arith))

-- `fd_key_value_store_update_current` behind `fd_key_value_store_get_current_page`.
abbrev pub settle : Bool × ℕ × Store → Store
settle (found, page, s0) =
    let s1 = record s0 { is_full = not found; current = record s0.current { page = page } } in
    if not found
    then s1
    else (let count = get_metadata_count page s1 in
        if count == 0
        then s1
        else (let metadata = get_metadata page (count - 1) s1 in
            let data_size = get_write_size (metadata.key_size + metadata.value_size) s1 in
            record s1 {
              current = record {
                page = page;
                data_byte_count = metadata.key_offset + data_size;
                metadata_count = count;
              };
            }))

-- The store finds its place in blank flash.
pub update_current-Blank : (s : Store) → Geometry s → Blank s → update_current s ≡ at_start s
unfolding update_current
update_current-Blank s g blank =
    ap settle (get_current_page-Blank s g blank)
    ∙ chosen (get_metadata_count 0 (at_start s) == 0) _ _
        (ap (λ n. n == 0) (count-Blank (at_start s) (at_start-Geometry s g) blank 0 g.some_page))
