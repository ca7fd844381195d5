-- ===== src/KeyValueStore/Allocating.antt =====
-- Allocation on the current page, and that `fd_key_value_store_add` takes it.
use firefly_zephyr.Base.{
  ℕ, suc, ◌+◌, ◌^◌, ◌≤◌, ◌≡◌, refl, ap, ◌∙◌, Bool, true, false, not, Option, none, some, List,
  length, leb, if◌then◌else◌, arith,
}
use firefly_zephyr.Base.Words.{sub32}
use firefly_zephyr.KeyValueStore.Types.{FlashArea, Codec, metadata_size, Store, fd_assert}
use firefly_zephyr.KeyValueStore.Collect.{
  used_bytes, current_free_bytes, allocated, allocate_loop, allocate, allocate_key_value,
}
use firefly_zephyr.KeyValueStore.Api.{value_size_of, add_allocated, add, flags_of}
use firefly_zephyr.KeyValueStore.Contract.{IsFlash, asserted, chosen, other}
use firefly_zephyr.KeyValueStore.Records.{words, get_write_size-words}
use firefly_zephyr.KeyValueStore.Invariant.{IsStore, get_metadata_count-Kept}
use firefly_zephyr.KeyValueStore.Commit.{HasRoom, Added}
use firefly_zephyr.KeyValueStore.Adding.{IsCodec, value_bytes, add_allocated-Added}

-- The state in which data is written.
abbrev at_data : Store → Store
at_data s = record s { data_write_offset = s.current.data_byte_count }

module _ (area : FlashArea) where
  allocate_loop_lem :
      (fuel size collection_count : ℕ) (s : Store)
      → used_bytes s + size ≤ s.page_size
      → s.page_size ≤ 2 ^ 16
      → allocate_loop area (suc fuel) size collection_count s ≡ some (true, at_data s)
  unfolding allocate_loop current_free_bytes
  allocate_loop_lem fuel size collection_count s r h =
      chosen (leb size (sub32 s.page_size (used_bytes s))) _ _ (ground (arith, r, h))
      ∙ ap (λ u. some (allocated u))
          (asserted (leb (used_bytes s) s.page_size) s (ground (arith, r)))

  allocate_lem :
      (size : ℕ) (s : Store)
      → s.is_full ≡ false
      → used_bytes s + size ≤ s.page_size
      → s.page_size ≤ 2 ^ 16
      → allocate area size s ≡ some (true, at_data s)
  unfolding allocate
  allocate_lem size s f r h =
      other s.is_full _ _ f
      ∙ ap (λ fuel. allocate_loop area fuel size 0 s) {y = suc (s.page_count + 2)} (omega arith)
      ∙ allocate_loop_lem (s.page_count + 2) size 0 s r h

  allocate_key_value_lem :
      (key_size value_size : ℕ) (s : Store)
      → IsStore s
      → s.is_full ≡ false
      → HasRoom s (key_size + value_size)
      → allocate_key_value area key_size value_size s
        ≡ some (true, words (key_size + value_size), at_data s)
  unfolding allocate_key_value
  allocate_key_value_lem key_size value_size s w f r =
      let data_size = words (key_size + value_size) in
      ap
        (λ n.
          elim (allocate area (n + metadata_size + metadata_size) s)
            as (λ _. Option (Bool × ℕ × Store)) [
              | none ↦ none
              | some (result, s') ↦ some (result, n, fd_assert result s')
            ])
        (get_write_size-words (key_size + value_size) s w.word (omega (arith, r, w.page_size_le)))
      ∙ ap
          (λ (o : Option (Bool × Store)). elim o as (λ _. Option (Bool × ℕ × Store)) [
            | none ↦ none
            | some (result, s') ↦ some (result, data_size, fd_assert result s')
          ])
          (allocate_lem (data_size + metadata_size + metadata_size) s f (omega (arith, r))
            w.page_size_le)

module _ {Message : Type 0} (area : FlashArea) (ok : IsFlash area) (codec : Codec Message)
    (ic : IsCodec codec) where
  value_size_of_lem :
      (object : Option Message) (s : Store)
      → value_size_of codec object s ≡ (length (value_bytes codec ic object), s)
  unfolding value_size_of
  value_size_of_lem none s = refl
  value_size_of_lem (some object) s =
      ap (λ (r : Bool × ℕ). (r.1, fd_assert r.0 s)) (ic.sized object)

  -- Where there is room, the object is added.
  pub add_lem :
      (key : List ℕ) (object : Option Message) (s : Store)
      → IsStore s
      → s.is_full ≡ false
      → HasRoom s (length key + length (value_bytes codec ic object))
      → add area codec key object s
        ≡ some (
          true,
          add_allocated area codec key object
              (length (value_bytes codec ic object))
              (words (length key + length (value_bytes codec ic object)))
              (at_data s),
        )
  unfolding add
  add_lem key object s w f r =
      let value_size = length (value_bytes codec ic object) in
      ap
        (λ (v : ℕ × Store).
          elim (allocate_key_value area (length key) v.0 v.1) as (λ _. Option (Bool × Store)) [
            | none ↦ none
            | some (result, data_size, s1) ↦
                if not result
                then some (false, s1)
                else some (true, add_allocated area codec key object v.0 data_size s1)
          ])
        (value_size_of_lem object s)
      ∙ ap
          (λ (a : Option (Bool × ℕ × Store)). elim a as (λ _. Option (Bool × Store)) [
            | none ↦ none
            | some (result, data_size, s1) ↦
                if not result
                then some (false, s1)
                else some (true, add_allocated area codec key object value_size data_size s1)
          ])
          (allocate_key_value_lem area (length key) value_size s w f r)

  at_data-IsStore : (s : Store) → IsStore s → IsStore (at_data s)
  at_data-IsStore s w = record {
    word = w.word;
    page_size_le = w.page_size_le;
    page_aligned = w.page_aligned;
    page_lt = w.page_lt;
    in_flash = w.in_flash;
    flash_lt = w.flash_lt;
    data_aligned = w.data_aligned;
    fits = w.fits;
    used = w.used;
    free = w.free;
    windows = w.windows;
    others = λ p i a b c. w.others p i a b (
        omega (
          arith,
          c,
          get_metadata_count-Kept p s (at_data s)
              (record { page_size = refl; bytes = λ j _ _. refl; records = λ j _ _. refl }),
        ));
    sixteen = w.sixteen;
  }

  pub add-Added :
      (key : List ℕ) (object : Option Message) (s : Store)
      → IsStore s
      → s.is_full ≡ false
      → HasRoom s (length key + length (value_bytes codec ic object))
      → (t : Store) × (add area codec key object s ≡ some (true, t))
        × Added s key (value_bytes codec ic object) (flags_of object) t
  add-Added key object s w f r =
      let a =
        add_allocated-Added codec ic area ok key object (at_data s) (at_data-IsStore s w) refl r in
      (
        _,
        add_lem key object s w f r,
        record { padding = a.padding; size = a.size; result = a.result; sixteen = a.sixteen },
      )
