-- ===== src/KeyValueStore/Beside.antt =====
-- What lookups do not read: where data is written, and the stream that compares.
use firefly_zephyr.Base.{ℕ, zero, suc, ◌≡◌, refl, ap, ap₂, ◌∙◌, List, [], ◌∷◌, arith}
use firefly_zephyr.KeyValueStore.Types.{EqualStreamState, Store}
use firefly_zephyr.KeyValueStore.Pages.{get_metadata, get_metadata_count}
use firefly_zephyr.KeyValueStore.Log.{entry_at, entries, pages, all_entries, logs}
use firefly_zephyr.KeyValueStore.Invariant.{IsStore, get_metadata_count-Kept}

-- `s` with these fields changed.
abbrev pub beside : ℕ → EqualStreamState → Store → Store
beside offset e s = record s { data_write_offset = offset; equal_stream_state = e }

module _ (offset : ℕ) (e : EqualStreamState) (s : Store) where
  get_metadata_count-beside :
      (p : ℕ) → get_metadata_count p (beside offset e s) ≡ get_metadata_count p s
  get_metadata_count-beside p =
      get_metadata_count-Kept p s (beside offset e s)
        (record { page_size = refl; bytes = λ j _ _. refl; records = λ j _ _. refl })

  entries-beside : (n p : ℕ) → entries n p (beside offset e s) ≡ entries n p s
  unfolding entries
  entries-beside zero p = refl
  entries-beside (suc n) p = ap (λ l. entry_at p (get_metadata p n s) s ∷ l) (entries-beside n p)

  all_entries-beside : (ps : List ℕ) → all_entries ps (beside offset e s) ≡ all_entries ps s
  unfolding all_entries
  all_entries-beside [] = refl
  all_entries-beside (p ∷ ps) =
      ap₂ (λ n l. entries n p (beside offset e s) ∷ l) (get_metadata_count-beside p)
        (all_entries-beside ps)
      ∙ ap (λ l. l ∷ all_entries ps s) (entries-beside (get_metadata_count p s) p)

  pub logs-beside : logs (beside offset e s) ≡ logs s
  unfolding logs
  logs-beside = all_entries-beside (pages s)

  pub IsStore-beside : IsStore s → IsStore (beside offset e s)
  IsStore-beside w = record {
    word = w.word;
    page_size_le = w.page_size_le;
    page_aligned = w.page_aligned;
    page_lt = w.page_lt;
    in_flash = w.in_flash;
    flash_lt = w.flash_lt;
    data_aligned = w.data_aligned;
    fits = w.fits;
    used = w.used;
    free = w.free;
    windows = w.windows;
    others = λ p i a b c. w.others p i a b (omega (arith, c, get_metadata_count-beside p));
    sixteen = w.sixteen;
  }
