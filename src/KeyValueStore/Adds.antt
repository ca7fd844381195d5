-- ===== src/KeyValueStore/Adds.antt =====
-- An added record keeps the store well formed.
use mathlib.Core.Path.{subst}
use firefly_zephyr.Base.{
  ℕ, ◌+◌, ◌*◌, ◌/◌, ◌≤◌, ◌<◌, ◌≡◌, ◌≢◌, sym, ap, ap₂, ◌∙◌, false, inl, inr, List, length, ltb, ◌==◌,
  Bool-cases, arith,
}
use firefly_zephyr.KeyValueStore.Types.{Store, Metadata, flags_unused, page_address}
use firefly_zephyr.KeyValueStore.Pages.{get_metadata, get_metadata_count}
use firefly_zephyr.KeyValueStore.Records.{words}
use firefly_zephyr.KeyValueStore.Invariant.{
  IsStore, Window, get_metadata-Kept, get_metadata_count-Kept, get_metadata_count-le,
}
use firefly_zephyr.KeyValueStore.Commit.{HasRoom, Added, new_metadata}
use firefly_zephyr.KeyValueStore.Layout

Window-le : (m : Metadata) (i j : ℕ) → i ≤ j → Window m i → Window m j
Window-le m i j h w = record { key = omega (arith, w.key, h); value = omega (arith, w.value, h) }

module _ (s : Store) (key value : List ℕ) (flags : ℕ) (t : Store) (w : IsStore s)
    (r : HasRoom s (length key + length value)) (a : Added s key value flags t)
    (h : flags < flags_unused) where
  now : t.current ≡ record {
    page = s.current.page;
    data_byte_count = s.current.data_byte_count + words (length key + length value);
    metadata_count = s.current.metadata_count + 1;
  }
  now = ap (λ v. v.current) a.result

  sized : t.page_size ≡ s.page_size
  sized = ap (λ v. v.page_size) a.result

  -- The old records, and the new one.
  record_cases :
      (P : Metadata → Type 0) (i : ℕ)
      → i < s.current.metadata_count + 1
      → (i < s.current.metadata_count → P (get_metadata s.current.page i s))
      → P (new_metadata s (length key) (length value) flags)
      → P (get_metadata s.current.page i t)
  record_cases P i b old new = elim (Bool-cases (ltb i s.current.metadata_count)) [
    | inl c ↦
        subst P
          (sym (
            get_metadata-Kept s.current.page s.current.data_byte_count s.current.metadata_count s t
              (Layout.Kept-current s key value flags t w r a) i (ground (arith, c))
              (omega (arith, w.fits))))
          (old (ground (arith, c)))
    | inr c ↦
        subst P
          (sym (
            ap (λ k. get_metadata s.current.page k t) {y = s.current.metadata_count}
              (ground (arith, c, b))
            ∙ Layout.new_record s key value flags t w r a (omega (arith, h))))
          new
  ]

  other-Window :
      (p i : ℕ)
      → p < s.page_count
      → p ≢ s.current.page
      → i < get_metadata_count p t
      → Window (get_metadata p i t) t.page_size
  other-Window p i b ne c =
      let k = Layout.Kept-other s key value flags t w r a p ne in
      let c' : i < get_metadata_count p s = omega (arith, c, get_metadata_count-Kept p s t k) in
      subst (Window (get_metadata p i t)) (sym sized) (
        subst (λ m. Window m s.page_size)
          (sym (
            get_metadata-Kept p s.page_size (s.page_size / 12) s t k i
              (omega (arith, c', get_metadata_count-le p s)) (omega arith)))
          (w.others p i b ne c'))

  pub Added-IsStore : IsStore t
  Added-IsStore =
      let counts : t.page_count ≡ s.page_count = ap (λ v. v.page_count) a.result in
      let page : t.current.page ≡ s.current.page = ap (λ c. c.page) now in
      let count : t.current.metadata_count ≡ s.current.metadata_count + 1 =
        ap (λ c. c.metadata_count) now in
      let data_count : t.current.data_byte_count
          ≡ s.current.data_byte_count + words (length key + length value) =
        ap (λ c. c.data_byte_count) now in
      let sizes : t.page_size ≡ s.page_size = sized in
      let here : page_address t.current.page t ≡ page_address s.current.page s =
        ap₂ (λ m n. m * n) page sizes in
      record {
        word = ap (λ v. v.minumum_write_size) a.result ∙ w.word;
        page_size_le = omega (arith, sizes, w.page_size_le);
        page_aligned = omega (arith, sizes, w.page_aligned);
        page_lt = omega (arith, counts, page, w.page_lt);
        in_flash = omega (
          arith,
          ap₂ (λ m n. m * n) counts sizes,
          w.in_flash,
          Layout.length-flash s key value flags t w r a,
        );
        flash_lt = omega (arith, w.flash_lt, Layout.length-flash s key value flags t w r a);
        data_aligned = omega (arith, data_count, w.data_aligned);
        fits = omega (arith, data_count, count, sizes, r);
        used = λ i b.
            subst (λ p. ((get_metadata p i t).flags == flags_unused) ≡ false) (sym page)
              (record_cases (λ m. (m.flags == flags_unused) ≡ false) i (omega (arith, b, count))
                (w.used i) (ground (arith, h)));
        free = λ j p q.
            Layout.Erased-behind s key value flags t w r a j (omega (arith, p, here, data_count))
              (omega (arith, q, here, sizes, count));
        windows = λ i b.
            subst (λ p. Window (get_metadata p i t) t.current.data_byte_count) (sym page)
              (subst (Window (get_metadata s.current.page i t)) (sym data_count) (
                record_cases
                  (λ m. Window m (s.current.data_byte_count + words (length key + length value))) i
                  (omega (arith, b, count)) (λ c. Window-le _ _ _ (omega arith) (w.windows i c))
                  (record { key = omega arith; value = omega arith })));
        others =
            λ p i b ne c. other-Window p i (omega (arith, b, counts)) (λ e. ne (e ∙ sym page)) c;
        sixteen = a.sixteen;
      }
