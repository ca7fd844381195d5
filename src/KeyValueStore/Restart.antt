-- ===== src/KeyValueStore/Restart.antt =====
-- A restart behind `fd_key_value_store_add` finds the state that the function left.
use mathlib.Core.Path.{subst}
use native.Mathlib.Nat.{mod-eq_of_lt, add-mod_right}
use firefly_zephyr.Base.{
  ℕ, ◌+◌, ◌-◌, ◌*◌, ◌/◌, ◌%◌, ◌≤◌, ◌<◌, ◌≡◌, ◌≢◌, sym, ap, ap₂, ◌∙◌, true, false, inl, inr, Option,
  some, List, length, ltb, ◌==◌, Bool-cases, arith,
}
use firefly_zephyr.KeyValueStore.Types.{FlashArea, Codec, Store, flags_unused, page_address}
use firefly_zephyr.KeyValueStore.Pages.{get_metadata, update_current}
use firefly_zephyr.KeyValueStore.Api.{add, flags_of}
use firefly_zephyr.KeyValueStore.Contract.{IsFlash}
use firefly_zephyr.KeyValueStore.Records.{words}
use firefly_zephyr.KeyValueStore.Invariant.{IsStore, get_metadata-Kept}
use firefly_zephyr.KeyValueStore.Commit.{HasRoom, Added}
use firefly_zephyr.KeyValueStore.Adding.{IsCodec}
use firefly_zephyr.KeyValueStore.Allocating.{add-Added}
use firefly_zephyr.KeyValueStore.Layout
use firefly_zephyr.KeyValueStore.Adds.{Added-IsStore}
use firefly_zephyr.KeyValueStore.Operations.{HasRoomFor, flags_lt}
use firefly_zephyr.KeyValueStore.Blank.{PageErased}
use firefly_zephyr.KeyValueStore.Recovery.{Chain, next_page, update_current_lem}

next_ne : (c n first : ℕ) → c < n → first ≤ c → c + 1 < n + first → (c + 1) % n ≢ c
next_ne c n first h a b e = elim (Bool-cases (ltb (c + 1) n)) [
  | inl d ↦ absurd (omega (arith, e, mod-eq_of_lt {n = c + 1} {m = n} (ground (arith, d))))
  | inr d ↦
      let f : c + 1 ≡ 0 + n = ground (arith, d, h) in
      absurd (
        omega (
          arith,
          e,
          ap (λ k. k % n) f,
          add-mod_right 0 n,
          mod-eq_of_lt {n = 0} {m = n} (omega (arith, h)),
          f,
          b,
          a,
        ))
]

module _ (s : Store) (key value : List ℕ) (flags : ℕ) (t : Store) (w : IsStore s)
    (r : HasRoom s (length key + length value)) (a : Added s key value flags t)
    (h : flags < flags_unused) (first : ℕ) (chain : Chain first s) where
  sized : t.page_size ≡ s.page_size
  sized = ap (λ v. v.page_size) a.result

  page : t.current.page ≡ s.current.page
  page = ap (λ v. v.current.page) a.result

  count : t.current.metadata_count ≡ s.current.metadata_count + 1
  count = ap (λ v. v.current.metadata_count) a.result

  next : next_page t ≡ next_page s
  next = ap₂ (λ p n. (p + 1) % n) page (ap (λ v. v.page_count) a.result)

  erased_still : (p : ℕ) → p ≢ s.current.page → PageErased p s → PageErased p t
  erased_still p ne e j x y =
      let k = Layout.Kept-other s key value flags t w r a p ne in
      let here : page_address p t ≡ page_address p s = ap (λ n. p * n) sized in
      k.bytes j (omega (arith, x, here)) (omega (arith, y, here, sized))
      ∙ e j (omega (arith, x, here)) (omega (arith, y, here, sized))

  Chain-Added : Chain first t
  Chain-Added = record {
    first_le = omega (arith, page, chain.first_le);
    short = omega (arith, page, ap (λ v. v.page_count) a.result, chain.short);
    before = λ p b. erased_still p (λ e. omega (arith, e, b, chain.first_le)) (chain.before p b);
    used = λ p x y.
        let ne : p ≢ s.current.page = λ e. omega (arith, e, y, page) in
        ap (λ m. m.flags == flags_unused)
          (get_metadata-Kept p s.page_size (s.page_size / 12) s t
            (Layout.Kept-other s key value flags t w r a p ne) 0 (omega (arith, w.fits))
            (omega arith))
        ∙ chain.used p x (omega (arith, y, page));
    behind =
        subst (λ p. PageErased p t) (sym next)
          (erased_still (next_page s)
            (next_ne s.current.page s.page_count first w.page_lt chain.first_le chain.short)
            chain.behind);
  }

  restart : s.is_full ≡ false → update_current t ≡ t
  restart f =
      let m = get_metadata t.current.page (t.current.metadata_count - 1) t in
      let last : m ≡ get_metadata s.current.page s.current.metadata_count t =
        ap₂ (λ p n. get_metadata p n t) page (omega (arith, count)) in
      let last' = last ∙ Layout.new_record s key value flags t w r a (omega (arith, h)) in
      update_current_lem first t (Added-IsStore s key value flags t w r a h) Chain-Added
        (omega (arith, count))
        (ap (λ v. v.current.data_byte_count) a.result
          ∙ ap (λ k. k.key_offset + words (k.key_size + k.value_size)) (sym last'))
      ∙ ap (λ b. record t { is_full = b }) (sym (ap (λ v. v.is_full) a.result ∙ f))

module _ {Message : Type 0} (area : FlashArea) (ok : IsFlash area) (codec : Codec Message)
    (ic : IsCodec codec) where
  -- Given flash in which whole words are written where it is erased, and a codec that decodes
  -- what it encodes, in a well-formed store that is not full, with room on its current page for a
  -- key and an object, or no object, where the pages from the first one in use up to the current
  -- one are in use and those below it and the one behind, which is another, are erased,
  -- `fd_key_value_store_add` ends and returns true, and `fd_key_value_store_update_current`, as
  -- at a restart, then finds in the flash exactly the state that it left.
  pub add-update_current :
      (key : List ℕ) (object : Option Message) (first : ℕ) (s : Store)
      → Chain first s
      → IsStore s
      → s.is_full ≡ false
      → HasRoomFor area ok codec ic key object s
      → (t : Store) × (add area codec key object s ≡ some (true, t)) × (update_current t ≡ t)
  add-update_current key object first s chain w f r =
      let (t, e, a) = add-Added area ok codec ic key object s w f r in
      (
        t,
        e,
        restart s key _ (flags_of object) t w r a (flags_lt area ok codec ic object) first chain f,
      )
