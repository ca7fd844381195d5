-- ===== src/KeyValueStore/Invariant.antt =====
-- The well-formed store: on the current page, records grow down from its end and data grows up from
-- its start, and what is between them is erased.
use firefly_zephyr.Base.{
  ℕ, zero, suc, ◌+◌, ◌-◌, ◌*◌, ◌/◌, ◌%◌, ◌^◌, ◌≤◌, ◌<◌, ◌≡◌, ◌≢◌, refl, ap, ap₂, ◌∙◌, true, false,
  inl, inr, ◌∷◌, length, ltb, ◌==◌, if◌then◌else◌, Bool-cases, arith,
}
use firefly_zephyr.Base.Bytes.{byte_at, slice, slice_ext}
use firefly_zephyr.KeyValueStore.Types.{Metadata, flags_unused, metadata_size, Store, page_address}
use firefly_zephyr.KeyValueStore.Pages.{
  metadata_at, get_metadata, metadata_address, metadata_count_loop, get_metadata_count,
}
use firefly_zephyr.KeyValueStore.Contract.{Erased, chosen, other}
use firefly_zephyr.KeyValueStore.Records.{flags_unused_of, metadata_at_ext}
use firefly_zephyr.KeyValueStore.Log.{entry_at, entries}

-- The key and the value lie in the first `limit` bytes of the page.
pub record Window (m : Metadata) (limit : ℕ) : Type 0 where
  pub key : m.key_offset + m.key_size ≤ limit
  pub value : m.value_offset + m.value_size ≤ limit

pub record IsStore (s : Store) : Type 0 where
  pub word : s.minumum_write_size ≡ 4
  pub page_size_le : s.page_size ≤ 2 ^ 16
  pub page_aligned : s.page_size % 4 ≡ 0
  pub page_lt : s.current.page < s.page_count
  pub in_flash : s.page_count * s.page_size ≤ length s.flash
  pub flash_lt : length s.flash < 2 ^ 32
  pub data_aligned : s.current.data_byte_count % 4 ≡ 0
  pub fits : s.current.data_byte_count + 12 * s.current.metadata_count + 12 ≤ s.page_size
  pub used :
      (i : ℕ)
      → i < s.current.metadata_count
      → ((get_metadata s.current.page i s).flags == flags_unused) ≡ false
  pub free :
      Erased s.flash
        (page_address s.current.page s + s.current.data_byte_count)
        (page_address s.current.page s + (s.page_size - 12 * s.current.metadata_count))
  pub windows :
      (i : ℕ)
      → i < s.current.metadata_count
      → Window (get_metadata s.current.page i s) s.current.data_byte_count
  pub others :
      (p i : ℕ)
      → p < s.page_count
      → p ≢ s.current.page
      → i < get_metadata_count p s
      → Window (get_metadata p i s) s.page_size
  pub sixteen : length s.ostream_state.buffer ≡ 16

-- Records in use, up to the first that is not.
pub count_loop_lem :
    (left p i n : ℕ) (s : Store)
    → i ≤ n
    → n < i + left
    → ((j : ℕ) → j < n → ((get_metadata p j s).flags == flags_unused) ≡ false)
    → ((get_metadata p n s).flags == flags_unused) ≡ true
    → metadata_count_loop left p i s ≡ n
unfolding metadata_count_loop
count_loop_lem zero p i n s a b u v = absurd (omega (arith, a, b))
count_loop_lem (suc left) p i n s a b u v = elim (Bool-cases (ltb i n)) [
  | inl c ↦
      other _ i _ (u i (ground (arith, c)))
      ∙ count_loop_lem left p (i + 1) n s (ground (arith, c)) (omega (arith, b)) u v
  | inr c ↦
      let e : i ≡ n = ground (arith, a, c) in
      chosen _ i _ (ap (λ k. (get_metadata p k s).flags == flags_unused) e ∙ v) ∙ e
]

pub get_metadata_count_lem :
    (s : Store) → IsStore s → get_metadata_count s.current.page s ≡ s.current.metadata_count
unfolding get_metadata_count
get_metadata_count_lem s w =
    count_loop_lem (s.page_size / 12) s.current.page 0 s.current.metadata_count s (omega arith)
      (omega (arith, w.fits)) w.used
      (ap (λ f. f == flags_unused)
        (flags_unused_of s.flash (metadata_address s.current.page s.current.metadata_count s)
          (λ j a b. w.free j (omega (arith, a, w.fits)) (omega (arith, b, w.fits)))))

-- The data up to `limit` and the `n` records at the end of the page stay.
pub record Kept (p limit n : ℕ) (s t : Store) : Type 0 where
  pub page_size : t.page_size ≡ s.page_size
  pub bytes :
      (j : ℕ)
      → page_address p s ≤ j
      → j < page_address p s + limit
      → byte_at t.flash j ≡ byte_at s.flash j
  pub records :
      (j : ℕ)
      → page_address p s + (s.page_size - 12 * n) ≤ j
      → j < page_address p s + s.page_size
      → byte_at t.flash j ≡ byte_at s.flash j

module _ (p limit n : ℕ) (s t : Store) (k : Kept p limit n s t) where
  pub get_metadata-Kept :
      (i : ℕ) → i < n → 12 * n ≤ s.page_size → get_metadata p i t ≡ get_metadata p i s
  get_metadata-Kept i h f =
      ap (λ size. metadata_at t.flash (p * size + (size - (i + 1) * metadata_size))) k.page_size
      ∙ metadata_at_ext t.flash s.flash (metadata_address p i s)
          (λ j a b. k.records j (omega (arith, a, f, h)) (omega (arith, b, f, h)))

  slice-Kept :
      (o size : ℕ)
      → o + size ≤ limit
      → slice t.flash (page_address p t + o) size ≡ slice s.flash (page_address p s + o) size
  slice-Kept o size h =
      ap (λ ps. slice t.flash (p * ps + o) size) k.page_size
      ∙ slice_ext t.flash s.flash (page_address p s + o) size
          (λ j a b. k.bytes j (omega (arith, a)) (omega (arith, b, h)))

  entry_at-Kept : (m : Metadata) → Window m limit → entry_at p m t ≡ entry_at p m s
  entry_at-Kept m w i = record {
    key = slice-Kept m.key_offset m.key_size w.key i;
    removed = (entry_at p m s).removed;
    value = slice-Kept m.value_offset m.value_size w.value i;
  }

  -- What is kept reads as before.
  pub entries-Kept :
      (i : ℕ)
      → i ≤ n
      → 12 * n ≤ s.page_size
      → ((j : ℕ) → j < n → Window (get_metadata p j s) limit)
      → entries i p t ≡ entries i p s
  unfolding entries
  entries-Kept zero h f w = refl
  entries-Kept (suc i) h f w =
      ap₂ ◌∷◌
        (ap (λ m. entry_at p m t) (get_metadata-Kept i (omega (arith, h)) f)
          ∙ entry_at-Kept (get_metadata p i s) (w i (omega (arith, h))))
        (entries-Kept i (omega (arith, h)) f w)

metadata_count_loop-Kept :
    (left p i n : ℕ) (s t : Store)
    → Kept p s.page_size n s t
    → 12 * n ≤ s.page_size
    → i + left ≤ n
    → metadata_count_loop left p i t ≡ metadata_count_loop left p i s
unfolding metadata_count_loop
metadata_count_loop-Kept zero p i n s t k f h = refl
metadata_count_loop-Kept (suc left) p i n s t k f h =
    ap₂ (λ m later. if m.flags == flags_unused then i else later)
      (get_metadata-Kept p s.page_size n s t k i (omega (arith, h)) f)
      (metadata_count_loop-Kept left p (i + 1) n s t k f (omega (arith, h)))

-- A page that is kept has as many records as before.
pub get_metadata_count-Kept :
    (p : ℕ) (s t : Store)
    → Kept p s.page_size (s.page_size / 12) s t
    → get_metadata_count p t ≡ get_metadata_count p s
unfolding get_metadata_count
get_metadata_count-Kept p s t k =
    ap (λ size. metadata_count_loop (size / metadata_size) p 0 t) k.page_size
    ∙ metadata_count_loop-Kept (s.page_size / 12) p 0 (s.page_size / 12) s t k (omega arith)
        (omega arith)

metadata_count_loop-le : (left p i : ℕ) (s : Store) → metadata_count_loop left p i s ≤ i + left
unfolding metadata_count_loop
metadata_count_loop-le zero p i s = omega arith
metadata_count_loop-le (suc left) p i s = grind (arith, metadata_count_loop-le left p (i + 1) s)

-- The records of a page fit it.
pub get_metadata_count-le : (p : ℕ) (s : Store) → get_metadata_count p s ≤ s.page_size / 12
unfolding get_metadata_count
get_metadata_count-le p s = omega (arith, metadata_count_loop-le (s.page_size / 12) p 0 s)
