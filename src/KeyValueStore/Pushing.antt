-- ===== src/KeyValueStore/Pushing.antt =====
-- The added record is the next entry of the log.
use firefly_zephyr.Base.{
  ℕ, zero, suc, ◌+◌, ◌-◌, ◌*◌, ◌≤◌, ◌<◌, ◌≡◌, ◌≢◌, refl, sym, ap, ap₂, ◌∙◌, not, List, [], ◌∷◌,
  ◌++◌, length, ◌==◌, bit_and, arith,
}
use firefly_zephyr.Base.Bytes.{slice}
use firefly_zephyr.KeyValueStore.Types.{Store, flags_unused, flags_removed, page_address}
use firefly_zephyr.KeyValueStore.Pages.{get_metadata_count}
use firefly_zephyr.KeyValueStore.Records.{words}
use firefly_zephyr.KeyValueStore.Log.{
  Entry, entry_at, entries, below, above, pages, all_entries, logs,
}
use firefly_zephyr.KeyValueStore.Invariant.{
  IsStore, entries-Kept, get_metadata_count-Kept, get_metadata_count-le, get_metadata_count_lem,
}
use firefly_zephyr.KeyValueStore.Commit.{HasRoom, Added, new_metadata}
use firefly_zephyr.KeyValueStore.Layout
use firefly_zephyr.KeyValueStore.Adds.{Added-IsStore}

abbrev pub new_entry : List ℕ → List ℕ → ℕ → Entry
new_entry key value flags = record {
  key = key;
  removed = not (bit_and flags flags_removed == 0);
  value = value;
}

-- The entry goes on top of the current page.
abbrev pub push : Entry → List (List Entry) → List (List Entry)
push e [] = []
push e (log ∷ rest) = (e ∷ log) ∷ rest

module _ (s : Store) (key value : List ℕ) (flags : ℕ) (t : Store) (w : IsStore s)
    (r : HasRoom s (length key + length value)) (a : Added s key value flags t)
    (h : flags < flags_unused) where
  now : t.current ≡ record {
    page = s.current.page;
    data_byte_count = s.current.data_byte_count + words (length key + length value);
    metadata_count = s.current.metadata_count + 1;
  }
  now = ap (λ v. v.current) a.result

  sized : t.page_size ≡ s.page_size
  sized = ap (λ v. v.page_size) a.result

  entry_now :
      entry_at s.current.page (new_metadata s (length key) (length value) flags) t
      ≡ new_entry key value flags
  entry_now =
      let here : page_address s.current.page t ≡ page_address s.current.page s =
        ap (λ size. s.current.page * size) sized in
      let start = page_address s.current.page s + s.current.data_byte_count in
      let key_start : page_address s.current.page t + s.current.data_byte_count ≡ start + 0 =
        omega (arith, here) in
      let value_start : page_address s.current.page t + (s.current.data_byte_count + length key)
          ≡ start + length key =
        omega (arith, here) in
      λ i. record {
        key =
            (ap (λ o. slice t.flash o (length key)) key_start
                ∙ Layout.key_bytes s key value flags t w r a)
              i;
        removed = not (bit_and flags flags_removed == 0);
        value =
            (ap (λ o. slice t.flash o (length value)) value_start
                ∙ Layout.value_is s key value flags t w r a)
              i;
      }

  entries_now :
      entries (suc s.current.metadata_count) s.current.page t
      ≡ new_entry key value flags ∷ entries s.current.metadata_count s.current.page s
  unfolding entries
  entries_now =
      ap₂ ◌∷◌
        (ap (λ k. entry_at s.current.page k t)
            (Layout.new_record s key value flags t w r a (omega (arith, h)))
          ∙ entry_now)
        (entries-Kept s.current.page s.current.data_byte_count s.current.metadata_count s t
          (Layout.Kept-current s key value flags t w r a) s.current.metadata_count (omega arith)
          (omega (arith, w.fits)) w.windows)

  -- The entries of another page stay.
  entries_other :
      (p : ℕ)
      → p < s.page_count
      → p ≢ s.current.page
      → entries (get_metadata_count p t) p t ≡ entries (get_metadata_count p s) p s
  entries_other p b ne =
      let k = Layout.Kept-other s key value flags t w r a p ne in
      ap (λ n. entries n p t) (get_metadata_count-Kept p s t k)
      ∙ entries-Kept p s.page_size (get_metadata_count p s) s t
          (record {
            page_size = k.page_size;
            bytes = k.bytes;
            records = λ j x y. k.bytes j (omega (arith, x)) y;
          })
          (get_metadata_count p s) (omega arith) (omega (arith, get_metadata_count-le p s))
          (λ j. w.others p j b ne)

  abbrev Elsewhere : List ℕ → Type 0
  Elsewhere [] = Unit
  Elsewhere (p ∷ ps) = (p < s.page_count) × (p ≢ s.current.page) × Elsewhere ps

  Elsewhere-append : (ps qs : List ℕ) → Elsewhere ps → Elsewhere qs → Elsewhere (ps ++ qs)
  Elsewhere-append [] qs x y = y
  Elsewhere-append (p ∷ ps) qs (b, ne, x) y = (b, ne, Elsewhere-append ps qs x y)

  below-Elsewhere : (k : ℕ) → k ≤ s.current.page → Elsewhere (below k)
  below-Elsewhere zero b = tt
  below-Elsewhere (suc k) b = (
    omega (arith, b, w.page_lt),
    (λ e. omega (arith, e, b)),
    below-Elsewhere k (omega (arith, b)),
  )

  above-Elsewhere :
      (k : ℕ) → s.current.page + 1 + k ≤ s.page_count → Elsewhere (above (s.current.page + 1) k)
  above-Elsewhere zero b = tt
  above-Elsewhere (suc k) b =
      (omega (arith, b), (λ e. omega (arith, e)), above-Elsewhere k (omega (arith, b)))

  all_entries_other : (ps : List ℕ) → Elsewhere ps → all_entries ps t ≡ all_entries ps s
  unfolding all_entries
  all_entries_other [] x = refl
  all_entries_other (p ∷ ps) (b, ne, x) = ap₂ ◌∷◌ (entries_other p b ne) (all_entries_other ps x)

  entries_current :
      entries (get_metadata_count s.current.page t) s.current.page t
      ≡ new_entry key value flags ∷ entries (get_metadata_count s.current.page s) s.current.page s
  entries_current =
      let count : get_metadata_count s.current.page t ≡ suc s.current.metadata_count =
        ap (λ p. get_metadata_count p t) (sym (ap (λ c. c.page) now))
        ∙ get_metadata_count_lem t (Added-IsStore s key value flags t w r a h)
        ∙ ap (λ c. c.metadata_count) now
        ∙ omega arith in
      ap (λ n. entries n s.current.page t) count
      ∙ entries_now
      ∙ ap (λ n. new_entry key value flags ∷ entries n s.current.page s)
          (sym (get_metadata_count_lem s w))

  pages-Added : pages t ≡ pages s
  pages-Added =
      ap₂ (λ p n. p ∷ (below p ++ above (p + 1) (n - (p + 1)))) (ap (λ c. c.page) now)
        (ap (λ v. v.page_count) a.result)

  pub logs-Added : logs t ≡ push (new_entry key value flags) (logs s)
  unfolding logs all_entries
  logs-Added =
      let c = s.current.page in
      let left = s.page_count - (c + 1) in
      ap (λ ps. all_entries ps t) pages-Added
      ∙ ap₂ ◌∷◌ entries_current (
          all_entries_other (below c ++ above (c + 1) left) (
            Elsewhere-append (below c) (above (c + 1) left) (below-Elsewhere c (omega arith))
              (above-Elsewhere left (omega (arith, w.page_lt)))))
