-- ===== src/KeyValueStore/Ending.antt =====
-- The loop of `fd_key_value_store_allocate` ends, whatever the flash holds and the driver does.
use firefly_zephyr.Base.{
  ℕ, zero, suc, ◌+◌, ◌%◌, ◌^◌, ◌≤◌, ◌<◌, ◌≡◌, refl, ap, ◌∙◌, Bool, true, false, ◌⊎◌, inl, inr,
  Option, some, ltb, leb, Bool-cases, if◌then◌else◌, arith,
}
use firefly_zephyr.Base.Words.{sub32}
use firefly_zephyr.KeyValueStore.Types.{FlashArea, Store, fd_assert}
use firefly_zephyr.KeyValueStore.Pages.{is_page_empty}
use firefly_zephyr.KeyValueStore.Collect.{
  used_bytes, current_free_bytes, allocated, advance_current_page, garbage_collect, allocate_loop,
  allocate,
}
use firefly_zephyr.KeyValueStore.SamePages.{
  Same, Same-trans, Same-fd_assert, Same-is_page_empty, is_page_empty-asserts, Same-garbage_collect,
}

-- `size` bytes are free on the page, or more of it is used than it has, and data goes behind what is
-- there; or the store is full.
abbrev pub Outcome : ℕ → Bool × Store → Type 0
Outcome size (true, t) =
    ((used_bytes t + size ≤ t.page_size) ⊎ (t.page_size < used_bytes t))
    × (t.data_write_offset ≡ t.current.data_byte_count)
Outcome size (false, t) = t.is_full ≡ true

-- The loop ended, as it should.
abbrev pub Ends : ℕ → Option (Bool × Store) → Type 0
Ends size o = (r : Bool × Store) × (o ≡ some r) × Outcome size r

Ends-if :
    (size : ℕ) (c : Bool) (x y : Option (Bool × Store))
    → (c ≡ true → Ends size x)
    → (c ≡ false → Ends size y)
    → Ends size (if c then x else y)
Ends-if size true x y a b = a refl
Ends-if size false x y a b = b refl

-- The test of the loop, which wraps where the page is overfull.
room :
    (size used page_size : ℕ)
    → page_size ≤ 2 ^ 16
    → leb size (sub32 page_size used) ≡ true
    → (used + size ≤ page_size) ⊎ (page_size < used)
room size used page_size l h = elim (Bool-cases (ltb page_size used)) [
  | inl c ↦ inr (ground (arith, c))
  | inr c ↦ inl (ground (arith, c, l, h))
]

allocated-Ends :
    (size : ℕ) (c : Bool) (s : Store)
    → s.page_size ≤ 2 ^ 16
    → leb size (sub32 s.page_size (used_bytes s)) ≡ true
    → Ends size (some (allocated (fd_assert c s)))
allocated-Ends size true s l h = ((true, _), refl, (room size (used_bytes s) s.page_size l h, refl))
allocated-Ends size false s l h =
    ((true, _), refl, (room size (used_bytes s) s.page_size l h, refl))

not_below : (n m : ℕ) → ltb n m ≡ false → m ≤ n
not_below n m e = ground (arith, e)

advance_lem :
    (s : Store) → Same s (advance_current_page s) × (used_bytes (advance_current_page s) ≡ 0)
unfolding advance_current_page
advance_lem s =
    let page = (s.current.page + 1) % s.page_count in
    let a = Same-is_page_empty page s in
    let b = Same-fd_assert (is_page_empty page s).0 (is_page_empty page s).1 in
    (record { pages = b.pages ∙ a.pages; size = b.size ∙ a.size }, refl)

module _ (area : FlashArea) (size : ℕ) where
  -- An empty page has room.
  fresh-Ends :
      (fuel count : ℕ) (s : Store)
      → 0 < fuel
      → used_bytes s ≡ 0
      → size ≤ s.page_size
      → s.page_size ≤ 2 ^ 16
      → Ends size (allocate_loop area fuel size count s)
  unfolding allocate_loop current_free_bytes
  fresh-Ends zero count s p u h l = absurd (omega (arith, p))
  fresh-Ends (suc fuel) count s p u h l =
      Ends-if size (leb size (sub32 s.page_size (used_bytes s))) _ _
        (λ c. allocated-Ends size (leb (used_bytes s) s.page_size) s l c)
        (λ c. absurd (ground (arith, c, u, h, l)))

  -- Fuel for the collections that are left, and for an empty page.
  loop-Ends :
      (fuel count : ℕ) (s : Store)
      → count ≤ s.page_count
      → s.page_count + 3 ≤ fuel + count
      → size ≤ s.page_size
      → s.page_size ≤ 2 ^ 16
      → Ends size (allocate_loop area fuel size count s)
  unfolding allocate_loop current_free_bytes
  loop-Ends zero count s c f h l = absurd (omega (arith, c, f))
  loop-Ends (suc fuel) count s c f h l =
      let s0 = fd_assert (leb (used_bytes s) s.page_size) s in
      let s1 = advance_current_page s0 in
      let next = (s1.current.page + 1) % s1.page_count in
      let (skip, s2) = is_page_empty next s1 in
      let s3 = garbage_collect area s2 in
      let (advanced, unused) = advance_lem s0 in
      let a = Same-trans s s0 s1 (Same-fd_assert (leb (used_bytes s) s.page_size) s) advanced in
      let b = Same-trans s s1 s2 a (Same-is_page_empty next s1) in
      let d = Same-trans s s2 s3 b (Same-garbage_collect area s2) in
      Ends-if size (leb size (sub32 s.page_size (used_bytes s))) _ _
        (λ e. allocated-Ends size (leb (used_bytes s) s.page_size) s l e)
        (λ e.
          Ends-if size skip _ _
            (λ e.
              fresh-Ends fuel count s2 (omega (arith, c, f))
                (ap used_bytes (is_page_empty-asserts next s1) ∙ unused) (omega (arith, b.size, h))
                (omega (arith, b.size, l)))
            (λ e.
              Ends-if size (ltb s3.page_count (count + 1)) _ _ (λ e. ((false, _), refl, refl))
                (λ e.
                  loop-Ends fuel (count + 1) s3 (not_below s3.page_count (count + 1) e)
                    (omega (arith, d.pages, f)) (omega (arith, d.size, h))
                    (omega (arith, d.size, l)))))

  -- For a size of at most a page, which is at most 2 ^ 16 bytes, `fd_key_value_store_allocate`
  -- ends, whatever the flash holds and the flash driver does: it returns true, the next data is
  -- written behind what the current page holds, and that many bytes of the page are free, unless
  -- more of it is used than it has; or it returns false and the store is full.
  pub allocate-Ends :
      (s : Store) → size ≤ s.page_size → s.page_size ≤ 2 ^ 16 → Ends size (allocate area size s)
  unfolding allocate
  allocate-Ends s h l =
      Ends-if size s.is_full _ _ (λ f. ((false, s), refl, f))
        (λ f. loop-Ends (s.page_count + 3) 0 s (omega arith) (omega arith) h l)
