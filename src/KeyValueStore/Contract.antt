-- ===== src/KeyValueStore/Contract.antt =====
-- What is relied on: bytes that are erased can be written once, and whole erase blocks can be erased.
use native.Mathlib.Nat.{mul_assoc}
use firefly_zephyr.Base.{
  ℕ, ◌+◌, ◌*◌, ◌%◌, ◌≤◌, ◌<◌, ◌≡◌, refl, sym, ap, ap₂, ◌∙◌, Bool, true, false, ◌⊎◌, inl, inr, List,
  [], ◌∷◌, ◌++◌, length, replicate, set, if◌then◌else◌, arith,
}
use firefly_zephyr.Base.Bytes.{byte_at, copy_in, byte_at-copy_in}
use firefly_zephyr.KeyValueStore.Types.{FlashArea, Store, fd_assert}
use firefly_zephyr.KeyValueStore.Stream.{nvm_erase, nvm_write}

abbrev pub Erased : List ℕ → ℕ → ℕ → Type 0
Erased flash from to = (j : ℕ) → from ≤ j → j < to → byte_at flash j ≡ 255

-- A write is of whole words, at a word, where the flash is erased. An erase is of whole blocks, at a
-- block.
pub record IsFlash (area : FlashArea) : Type 0 where
  pub opens : (f : List ℕ) → area.opens f ≡ true
  pub writes_erased :
      (f : List ℕ) (offset : ℕ) (bytes : List ℕ)
      → offset % 4 ≡ 0
      → length bytes % 4 ≡ 0
      → offset + length bytes ≤ length f
      → Erased f offset (offset + length bytes)
      → area.writes f offset bytes ≡ (true, copy_in f offset bytes)
  pub erase_size : ℕ
  pub erases :
      (f : List ℕ) (i n : ℕ)
      → i * erase_size + n * erase_size ≤ length f
      → area.erases f (i * erase_size) (n * erase_size)
        ≡ (true, copy_in f (i * erase_size) (replicate (n * erase_size) 255))

pub asserted : (c : Bool) (s : Store) → c ≡ true → fd_assert c s ≡ s
asserted true s e = refl
asserted false s e = cc

pub chosen : {A : Type 0} (c : Bool) (a b : A) → c ≡ true → (if c then a else b) ≡ a
chosen c a b e = rw e refl

pub other : {A : Type 0} (c : Bool) (a b : A) → c ≡ false → (if c then a else b) ≡ b
other c a b e = rw e refl

-- A write leaves what is erased behind it so.
pub Erased-copy_in :
    (f : List ℕ) (offset : ℕ) (bytes : List ℕ) (from to : ℕ)
    → (to ≤ offset) ⊎ (offset + length bytes ≤ from)
    → Erased f from to
    → Erased (copy_in f offset bytes) from to
Erased-copy_in f offset bytes from to h e j p q =
    byte_at-copy_in f offset bytes j (apart offset bytes from to j h p q) ∙ e j p q
  where
    apart :
        (offset : ℕ) (bytes : List ℕ) (from to j : ℕ)
        → (to ≤ offset) ⊎ (offset + length bytes ≤ from)
        → from ≤ j
        → j < to
        → (j < offset) ⊎ (offset + length bytes ≤ j)
    apart offset bytes from to j (inl h) p q = inl (omega arith)
    apart offset bytes from to j (inr h) p q = inr (omega arith)

-- Two writes in a row.
pub copy_in-append :
    (f : List ℕ) (offset : ℕ) (xs ys : List ℕ)
    → copy_in f offset (xs ++ ys) ≡ copy_in (copy_in f offset xs) (offset + length xs) ys
unfolding copy_in
copy_in-append f offset [] ys = ap (λ o. copy_in f o ys) (omega arith)
copy_in-append f offset (x ∷ xs) ys =
    copy_in-append (set f offset x) (offset + 1) xs ys
    ∙ ap (λ o. copy_in (copy_in (set f offset x) (offset + 1) xs) o ys) (omega arith)

abbrev erased_at : List ℕ → ℕ → ℕ → Bool × List ℕ
erased_at f offset n = (true, copy_in f offset (replicate n 255))

module _ (area : FlashArea) (ok : IsFlash area) where
  pub nvm_write_lem :
      (offset : ℕ) (bytes : List ℕ) (s : Store)
      → offset % 4 ≡ 0
      → length bytes % 4 ≡ 0
      → offset + length bytes ≤ length s.flash
      → Erased s.flash offset (offset + length bytes)
      → nvm_write area offset bytes s ≡ record s { flash = copy_in s.flash offset bytes }
  unfolding nvm_write
  nvm_write_lem offset bytes s a4 l4 p e =
      ap
        (λ (u : Store).
          let r = area.writes u.flash offset bytes in fd_assert r.0 (record u { flash = r.1 }))
        (asserted (area.opens s.flash) s (ok.opens s.flash))
      ∙ ap (λ (r : Bool × List ℕ). fd_assert r.0 (record s { flash = r.1 }))
          (ok.writes_erased s.flash offset bytes a4 l4 p e)

  -- A page is a whole number of erase blocks, so where it starts is one too.
  page_erases :
      (page k n : ℕ) (f : List ℕ)
      → n ≡ k * ok.erase_size
      → page * n + n ≤ length f
      → area.erases f (page * n) n ≡ (true, copy_in f (page * n) (replicate n 255))
  page_erases page k n f whole p =
      let start : page * n ≡ page * k * ok.erase_size =
        ap (λ m. page * m) whole ∙ sym (mul_assoc page k ok.erase_size) in
      let fits : page * k * ok.erase_size + k * ok.erase_size ≤ length f =
        omega (arith, start, whole, p) in
      ap₂ (λ a b. area.erases f a b) start whole
      ∙ ok.erases f (page * k) k fits
      ∙ sym (ap₂ (λ a b. erased_at f a b) start whole)

  pub nvm_erase_lem :
      (page k : ℕ) (s : Store)
      → s.page_size ≡ k * ok.erase_size
      → page * s.page_size + s.page_size ≤ length s.flash
      → nvm_erase area page s
        ≡ record s { flash = copy_in s.flash (page * s.page_size) (replicate s.page_size 255) }
  unfolding nvm_erase
  nvm_erase_lem page k s whole p =
      ap
        (λ (u : Store).
          let r = area.erases u.flash (page * u.page_size) u.page_size in
          fd_assert r.0 (record u { flash = r.1 }))
        (asserted (area.opens s.flash) s (ok.opens s.flash))
      ∙ ap (λ (r : Bool × List ℕ). fd_assert r.0 (record s { flash = r.1 }))
          (page_erases page k s.page_size s.flash whole p)
