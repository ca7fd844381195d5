-- ===== src/KeyValueStore/Layout.antt =====
-- Where the bytes of an added record are, and what they leave alone.
use mathlib.Core.Path.{subst}
use firefly_zephyr.Base.{
  ℕ, ◌+◌, ◌-◌, ◌*◌, ◌/◌, ◌^◌, ◌≤◌, ◌<◌, ◌≡◌, ◌≢◌, sym, ap, ap₂, ◌∙◌, ◌⊎◌, inl, inr, List, ◌++◌,
  length, length-append, arith,
}
use firefly_zephyr.Base.Bytes.{
  byte_at, slice, copy_in, length-copy_in, byte_at-copy_in, slice-copy_in, slice-copy_in_outside,
  mul_mono, slots_apart,
}
use firefly_zephyr.KeyValueStore.Types.{Store, Metadata, metadata_size, page_address}
use firefly_zephyr.KeyValueStore.Pages.{metadata_at, get_metadata, pack_metadata}
use firefly_zephyr.KeyValueStore.Contract.{Erased, Erased-copy_in, copy_in-append}
use firefly_zephyr.KeyValueStore.Records.{words, metadata_at-pack}
use firefly_zephyr.KeyValueStore.Invariant.{IsStore, Kept}
use firefly_zephyr.KeyValueStore.Commit.{
  HasRoom, Added, new_metadata, record_address, length-pack_metadata,
}

module _ (s : Store) (key value : List ℕ) (flags : ℕ) (t : Store) (w : IsStore s)
    (r : HasRoom s (length key + length value)) (a : Added s key value flags t) where
  abbrev size : ℕ
  size = words (length key + length value)

  abbrev body : List ℕ
  body = (key ++ value) ++ a.padding

  -- Where the data goes.
  abbrev start : ℕ
  start = page_address s.current.page s + s.current.data_byte_count

  abbrev metadata : Metadata
  metadata = new_metadata s (length key) (length value) flags

  length-body : length body ≡ size
  length-body =
      omega (arith, a.size, length-append key value, length-append (key ++ value) a.padding)

  page_end : page_address s.current.page s + s.page_size ≤ length s.flash
  page_end =
      let here : (s.current.page + 1) * s.page_size ≤ s.page_count * s.page_size =
        mul_mono (s.current.page + 1) s.page_count s.page_size (omega (arith, w.page_lt)) in
      omega (arith, here, w.in_flash)

  flash_lem :
      t.flash ≡ copy_in (copy_in s.flash start body) (record_address s) (pack_metadata metadata)
  flash_lem = ap (λ v. v.flash) a.result

  pub length-flash : length t.flash ≡ length s.flash
  length-flash =
      ap length flash_lem
      ∙ length-copy_in _ (record_address s) (pack_metadata metadata)
      ∙ length-copy_in s.flash start body

  -- Bytes that are neither free data nor free records stay.
  pub untouched :
      (j : ℕ)
      → (j < start)
        ⊎ (page_address s.current.page s + (s.page_size - 12 * s.current.metadata_count) ≤ j)
      → byte_at t.flash j ≡ byte_at s.flash j
  untouched j h =
      ap (λ f. byte_at f j) flash_lem
      ∙ byte_at-copy_in (copy_in s.flash start body) (record_address s) (pack_metadata metadata) j
          (omega (arith, h, r, length-pack_metadata metadata))
      ∙ byte_at-copy_in s.flash start body j (omega (arith, h, r, length-body))

  pub Erased-behind :
      Erased t.flash
        (page_address s.current.page s + (s.current.data_byte_count + size))
        (page_address s.current.page s + (s.page_size - 12 * (s.current.metadata_count + 1)))
  Erased-behind =
      subst
        (λ f.
          Erased f (page_address s.current.page s + (s.current.data_byte_count + size))
            (page_address s.current.page s + (s.page_size - 12 * (s.current.metadata_count + 1))))
        (sym flash_lem)
        (Erased-copy_in _ (record_address s) (pack_metadata metadata) _ _ (inl (omega (arith, r))) (
          Erased-copy_in s.flash start body _ _ (inr (omega (arith, length-body)))
            (λ j p q. w.free j (omega (arith, p)) (omega (arith, q, r)))))

  pub new_record :
      flags < 2 ^ 32 → get_metadata s.current.page s.current.metadata_count t ≡ metadata
  new_record h =
      ap₂ (λ f o. metadata_at f o) flash_lem
        (ap (λ ps. s.current.page * ps + (ps - (s.current.metadata_count + 1) * metadata_size))
            (ap (λ v. v.page_size) a.result)
          ∙ omega (arith, r))
      ∙ metadata_at-pack (copy_in s.flash start body) (record_address s) metadata
          (omega (arith, page_end, r, length-copy_in s.flash start body))
          (record {
            flags = h;
            key_offset = omega (arith, r, w.page_size_le);
            key_size = omega (arith, r, w.page_size_le);
            value_offset = omega (arith, r, w.page_size_le);
            value_size = omega (arith, r, w.page_size_le);
          })

  -- The data is written in three parts.
  parts :
      copy_in s.flash start body
      ≡ copy_in
          (copy_in (copy_in s.flash start key) (start + length key) value)
          (start + length (key ++ value))
          a.padding
  parts =
      copy_in-append s.flash start (key ++ value) a.padding
      ∙ ap (λ f. copy_in f (start + length (key ++ value)) a.padding)
          (copy_in-append s.flash start key value)

  data_bytes :
      (o n : ℕ)
      → o + n ≤ length (key ++ value)
      → slice t.flash (start + o) n
        ≡ slice (copy_in (copy_in s.flash start key) (start + length key) value) (start + o) n
  data_bytes o n h =
      ap (λ f. slice f (start + o) n) flash_lem
      ∙ slice-copy_in_outside (copy_in s.flash start body) (record_address s)
          (pack_metadata metadata) (start + o) n
          (inl (omega (arith, h, r, length-append key value)))
      ∙ ap (λ f. slice f (start + o) n) parts
      ∙ slice-copy_in_outside _ (start + length (key ++ value)) a.padding (start + o) n
          (inl (omega (arith, h)))

  pub key_bytes : slice t.flash (start + 0) (length key) ≡ key
  key_bytes =
      data_bytes 0 (length key) (omega (arith, length-append key value))
      ∙ slice-copy_in_outside (copy_in s.flash start key) (start + length key) value (start + 0)
          (length key) (inl (omega arith))
      ∙ ap (λ o. slice (copy_in s.flash start key) o (length key)) (omega arith)
      ∙ slice-copy_in s.flash start key (omega (arith, page_end, r))

  pub value_is : slice t.flash (start + length key) (length value) ≡ value
  value_is =
      data_bytes (length key) (length value) (omega (arith, length-append key value))
      ∙ slice-copy_in (copy_in s.flash start key) (start + length key) value
          (omega (arith, page_end, r, length-copy_in s.flash start key))

  pub Kept-current : Kept s.current.page s.current.data_byte_count s.current.metadata_count s t
  Kept-current = record {
    page_size = ap (λ v. v.page_size) a.result;
    bytes = λ j p q. untouched j (inl q);
    records = λ j p q. untouched j (inr p);
  }

  pub Kept-other : (p : ℕ) → p ≢ s.current.page → Kept p s.page_size (s.page_size / 12) s t
  Kept-other p ne = record {
    page_size = ap (λ v. v.page_size) a.result;
    bytes = λ j x y. untouched j (outside j x y);
    records = λ j x y. untouched j (outside j (omega (arith, x)) y);
  }
    where
      outside :
          (j : ℕ)
          → page_address p s ≤ j
          → j < page_address p s + s.page_size
          → (j < start)
            ⊎ (page_address s.current.page s + (s.page_size - 12 * s.current.metadata_count) ≤ j)
      outside j x y = omega (arith, x, y, slots_apart p s.current.page s.page_size ne, r)
