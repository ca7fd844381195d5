-- ===== src/KeyValueStore/Erasing.antt =====
-- `fd_key_value_store_erase` makes the flash blank, and the store empty.
use mathlib.Core.Path.{subst}
use firefly_zephyr.Base.{
  ℕ, zero, suc, ◌+◌, ◌-◌, ◌*◌, ◌≤◌, ◌≡◌, refl, sym, ap, ◌∙◌, inl, inr, none, List, [], ◌∷◌, length,
  length-replicate, replicate, ltb, Bool-cases, if◌then◌else◌, arith,
}
use firefly_zephyr.Base.Bytes.{
  copy_in, length-copy_in, byte_at-copy_in, byte_at-copy_in_inside, byte_at-replicate, mul_mono,
}
use firefly_zephyr.KeyValueStore.Types.{FlashArea, Listener, Notice, Store}
use firefly_zephyr.KeyValueStore.Lookup.{lookup}
use firefly_zephyr.KeyValueStore.Pages.{update_current}
use firefly_zephyr.KeyValueStore.Api.{notice, notify_erased, erase_loop, erase}
use firefly_zephyr.KeyValueStore.Contract.{IsFlash, Erased, nvm_erase_lem}
use firefly_zephyr.KeyValueStore.Invariant.{IsStore}
use firefly_zephyr.KeyValueStore.Adding.{noticed}
use firefly_zephyr.KeyValueStore.Blank.{
  Geometry, at_start, at_start-Geometry, IsStore-Blank, lookup-Blank, update_current-Blank,
}

notify_erased_lem :
    (listeners : List Listener) (s : Store)
    → notify_erased listeners s ≡ record s { notices = (notify_erased listeners s).notices }
unfolding notify_erased
notify_erased_lem [] s = refl
notify_erased_lem (l ∷ listeners) s =
    let u = if l.was_erased then notice (Notice.erased l.context) s else s in
    notify_erased_lem listeners u
    ∙ ap {B = Store} (λ (v : Store). record v { notices = (notify_erased listeners u).notices })
        (noticed l.was_erased (Notice.erased l.context) s)

-- A page more is erased.
Erased-more :
    (flash : List ℕ) (o n : ℕ)
    → o + n ≤ length flash
    → Erased flash 0 o
    → Erased (copy_in flash o (replicate n 255)) 0 (o + n)
Erased-more flash o n h e j x y = elim (Bool-cases (ltb j o)) [
  | inl c ↦
      byte_at-copy_in flash o (replicate n 255) j (inl (ground (arith, c)))
      ∙ e j x (ground (arith, c))
  | inr c ↦
      let p : o ≤ j = ground (arith, c) in
      byte_at-copy_in_inside flash o (replicate n 255) (j - o) j
        (omega (arith, h, length-replicate {A = ℕ} n 255))
        (omega (arith, p, y, length-replicate {A = ℕ} n 255)) (omega (arith, p))
      ∙ byte_at-replicate n 255 (j - o) (omega (arith, p, y))
]

module _ (area : FlashArea) (ok : IsFlash area) where
  erase_loop_lem :
      (left i : ℕ) (s : Store)
      → (k : ℕ) × (s.page_size ≡ k * ok.erase_size)
      → (i + left) * s.page_size ≤ length s.flash
      → Erased s.flash 0 (i * s.page_size)
      → (flash : List ℕ) × (erase_loop area left i s ≡ record s { flash = flash })
        × (length flash ≡ length s.flash)
        × Erased flash 0 ((i + left) * s.page_size)
  unfolding erase_loop
  erase_loop_lem zero i s whole h e = (s.flash, refl, refl, λ j x y. e j x (omega (arith, y)))
  erase_loop_lem (suc left) i s whole h e =
      let g = copy_in s.flash (i * s.page_size) (replicate s.page_size 255) in
      let fits : i * s.page_size + s.page_size ≤ length s.flash =
        omega (arith, h, mul_mono (i + 1) (i + suc left) s.page_size (omega arith)) in
      let again : (i + 1 + left) * s.page_size ≡ (i + suc left) * s.page_size =
        ap (λ n. n * s.page_size) (omega arith) in
      let length-g = length-copy_in s.flash (i * s.page_size) (replicate s.page_size 255) in
      let (flash, p, n, e') =
        erase_loop_lem left (i + 1) (record s { flash = g }) whole
          (omega (arith, again, h, length-g))
          (λ j x y.
            Erased-more s.flash (i * s.page_size) s.page_size fits e j x (omega (arith, y))) in
      (
        flash,
        ap (erase_loop area left (i + 1)) (nvm_erase_lem area ok i whole.0 s whole.1 fits) ∙ p,
        n ∙ length-g,
        λ j x y. e' j x (omega (arith, y, again)),
      )

  -- The flash is as long as it was.
  on_flash :
      (s : Store) (flash : List ℕ)
      → Geometry s
      → length flash ≡ length s.flash
      → Geometry (record s { flash = flash })
  on_flash s flash g n = record {
    word = g.word;
    page_size_le = g.page_size_le;
    page_aligned = g.page_aligned;
    le_page_size = g.le_page_size;
    some_page = g.some_page;
    in_flash = omega (arith, g.in_flash, n);
    flash_lt = omega (arith, g.flash_lt, n);
    sixteen = g.sixteen;
  }

  noticed-Geometry :
      (s : Store) (notices : List Notice) → Geometry s → Geometry (record s { notices = notices })
  noticed-Geometry s notices g = record {
    word = g.word;
    page_size_le = g.page_size_le;
    page_aligned = g.page_aligned;
    le_page_size = g.le_page_size;
    some_page = g.some_page;
    in_flash = g.in_flash;
    flash_lt = g.flash_lt;
    sixteen = g.sixteen;
  }

  -- Given flash in which whole erase blocks can be erased, and of which a page is a whole number,
  -- a store of at least one page, with pages of at least 12 bytes, at most 2 ^ 16 and a whole
  -- number of words, that lie in the flash, which has less than 2 ^ 32, with a write size of 4,
  -- is well formed after `fd_key_value_store_erase`, whatever the flash held, and no key is found
  -- in it.
  pub erase-lookup :
      (s : Store)
      → Geometry s
      → (k : ℕ) × (s.page_size ≡ k * ok.erase_size)
      → IsStore (erase area s) × ((key : List ℕ) → lookup key (erase area s) ≡ none)
  unfolding erase
  erase-lookup s g whole =
      let (flash, p, n, blank) =
        erase_loop_lem s.page_count 0 s whole (omega (arith, g.in_flash))
          (λ j x y. absurd (omega (arith, y))) in
      let blank' : Erased flash 0 (s.page_count * s.page_size) =
        λ j x y. blank j x (omega (arith, y)) in
      let u : Store = record s { flash = flash } in
      let t : Store = record (at_start u) {
        notices = (notify_erased s.listeners (at_start u)).notices;
      } in
      let result : erase area s ≡ t =
        ap (λ v. let s0 = update_current v in notify_erased s0.listeners s0) p
        ∙ ap (λ s0. notify_erased s0.listeners s0)
            (update_current-Blank u (on_flash s flash g n) blank')
        ∙ notify_erased_lem s.listeners (at_start u) in
      let g' =
        noticed-Geometry (at_start u) t.notices (at_start-Geometry u (on_flash s flash g n)) in
      subst (λ v. IsStore v × ((key : List ℕ) → lookup key v ≡ none)) (sym result)
        (IsStore-Blank t g' blank' g.some_page refl refl, lookup-Blank t g' blank' g.some_page)
