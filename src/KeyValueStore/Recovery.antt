-- ===== src/KeyValueStore/Recovery.antt =====
-- `fd_key_value_store_update_current` finds in the flash where the store was.
use mathlib.Core.Path.{subst}
use native.Mathlib.Nat.{mod-eq_of_lt, add-mod_right}
use firefly_zephyr.Base.{
  ℕ, zero, suc, ◌+◌, ◌-◌, ◌%◌, ◌≤◌, ◌<◌, ◌≡◌, refl, sym, ap, ◌∙◌, Bool, true, false, not, inl, inr,
  Option, none, some, ltb, ◌==◌, Bool-cases, if◌then◌else◌, arith,
}
use firefly_zephyr.KeyValueStore.Types.{Store, flags_unused}
use firefly_zephyr.KeyValueStore.Pages.{
  get_write_size, get_metadata, get_metadata_count, is_page_empty, find_occupied, find_empty,
  get_current_page, update_current,
}
use firefly_zephyr.KeyValueStore.Contract.{chosen, other}
use firefly_zephyr.KeyValueStore.Records.{words, get_write_size-words}
use firefly_zephyr.KeyValueStore.Invariant.{
  IsStore, get_metadata_count_lem, get_metadata_count-Kept,
}
use firefly_zephyr.KeyValueStore.Blank.{PageErased, is_page_empty-Erased, settle}

-- The page behind the current one.
abbrev pub next_page : Store → ℕ
next_page s = (s.current.page + 1) % s.page_count

abbrev pub Used : ℕ → Store → Type 0
Used p s = ((get_metadata p 0 s).flags == flags_unused) ≡ false

-- The pages below `first` are erased, those from it up to the current one are in use, and the one
-- behind is erased.
pub record Chain (first : ℕ) (s : Store) : Type 0 where
  pub first_le : first ≤ s.current.page
  pub short : s.current.page + 1 < s.page_count + first
  pub before : (p : ℕ) → p < first → PageErased p s
  pub used : (p : ℕ) → first ≤ p → p < s.current.page → Used p s
  pub behind : PageErased (next_page s) s

is_page_empty-Used : (p : ℕ) (s : Store) → Used p s → is_page_empty p s ≡ (false, s)
unfolding is_page_empty
is_page_empty-Used p s u = chosen (not ((get_metadata p 0 s).flags == flags_unused)) _ _ (ap not u)

find_occupied-first :
    (left i first : ℕ) (s : Store)
    → 12 ≤ s.page_size
    → i ≤ first
    → first < i + left
    → ((p : ℕ) → p < first → PageErased p s)
    → Used first s
    → find_occupied left i s ≡ (some first, s)
unfolding find_occupied
find_occupied-first zero i first s g a b e u = absurd (omega (arith, a, b))
find_occupied-first (suc left) i first s g a b e u = elim (Bool-cases (ltb i first)) [
  | inl c ↦
      ap
        (λ (r : Bool × Store).
          let later = find_occupied left (i + 1) r.1 in if not r.0 then (some i, r.1) else later)
        (is_page_empty-Erased s i g (e i (ground (arith, c))))
      ∙ find_occupied-first left (i + 1) first s g (ground (arith, c)) (omega (arith, b)) e u
  | inr c ↦
      let same : first ≡ i = ground (arith, a, c) in
      ap
        (λ (r : Bool × Store).
          let later = find_occupied left (i + 1) r.1 in if not r.0 then (some i, r.1) else later)
        (is_page_empty-Used i s (subst (λ p. Used p s) same u))
      ∙ ap (λ p. (some p, s)) (sym same)
]

-- Pages in use, up to one that is erased.
find_empty-next :
    (left first i last : ℕ) (s : Store)
    → 12 ≤ s.page_size
    → first + i ≤ last + 1
    → last + 1 < first + i + left
    → last < s.page_count
    → ((p : ℕ) → first ≤ p → p < last + 1 → Used p s)
    → PageErased ((last + 1) % s.page_count) s
    → find_empty left first i s ≡ (some ((last + 1) % s.page_count), s)
unfolding find_empty
find_empty-next zero first i last s g a b l u e = absurd (omega (arith, a, b))
find_empty-next (suc left) first i last s g a b l u e =
    let step : Bool × Store → Option ℕ × Store = λ r.
      let later = find_empty left first (i + 1) r.1 in
      if r.0 then (some ((first + i) % s.page_count), r.1) else later in
    elim (Bool-cases (ltb (first + i) (last + 1))) [
      | inl c ↦
          let below : first + i < last + 1 = ground (arith, c) in
          ap step (
            is_page_empty-Used _ s (
              subst (λ p. Used p s) (sym (mod-eq_of_lt (omega (arith, below, l))))
                (u (first + i) (omega arith) below)))
          ∙ find_empty-next left first (i + 1) last s g (omega (arith, below)) (omega (arith, b)) l
              u e
      | inr c ↦
          let same : last + 1 ≡ first + i = ground (arith, a, c) in
          let same' : (last + 1) % s.page_count ≡ (first + i) % s.page_count =
            ap (λ p. p % s.page_count) same in
          ap step (is_page_empty-Erased s _ g (subst (λ p. PageErased p s) same' e))
          ∙ ap (λ p. (some p, s)) (sym same')
    ]

-- A step back from the page behind.
step_back : (c n : ℕ) → c < n → ((c + 1) % n + n - 1) % n ≡ c
step_back c n h = elim (Bool-cases (ltb (c + 1) n)) [
  | inl b ↦
      ap (λ p. (p + n - 1) % n) (mod-eq_of_lt (ground (arith, b)))
      ∙ ap (λ k. k % n) {y = c + n} (omega (arith, h))
      ∙ add-mod_right c n
      ∙ mod-eq_of_lt h
  | inr b ↦
      let e : c + 1 ≡ 0 + n = ground (arith, b, h) in
      ap (λ p. (p + n - 1) % n)
        (ap (λ k. k % n) e ∙ add-mod_right 0 n ∙ mod-eq_of_lt (omega (arith, h)))
      ∙ ap (λ k. k % n) {y = c} (omega (arith, e))
      ∙ mod-eq_of_lt h
]

positive : (n : ℕ) → 0 < n → (n == 0) ≡ false
positive n h = ground (arith, h)

-- The state in which the page is looked for.
abbrev searched : Store → Store
searched t = record t {
  is_full = false;
  current = record t.current { data_byte_count = 0; metadata_count = 0 };
}

module _ (first : ℕ) (t : Store) (w : IsStore t) (chain : Chain first t)
    (some_record : 0 < t.current.metadata_count) where
  Used-up_to : (p : ℕ) → first ≤ p → p < t.current.page + 1 → Used p t
  Used-up_to p a b = elim (Bool-cases (ltb p t.current.page)) [
    | inl c ↦ chain.used p a (ground (arith, c))
    | inr c ↦
        subst (λ p. Used p t) {x = t.current.page} (ground (arith, b, c)) (w.used 0 some_record)
  ]

  get_current_page_lem :
      get_current_page
        (record t { current = record t.current { data_byte_count = 0; metadata_count = 0 } })
      ≡ (true, t.current.page, searched t)
  unfolding get_current_page
  get_current_page_lem =
      let back : Option ℕ × Store → Bool × ℕ × Store = λ e. elim (e.0) as (λ _. Bool × ℕ × Store) [
        | none ↦ (false, 0, e.1)
        | some page ↦ (true, (page + e.1.page_count - 1) % e.1.page_count, e.1)
      ] in
      ap
        (λ (r : Option ℕ × Store). elim (r.0) as (λ _. Bool × ℕ × Store) [
          | none ↦ (true, 0, r.1)
          | some first ↦ back (find_empty (r.1.page_count - 1) first 1 r.1)
        ])
        (find_occupied-first t.page_count 0 first (searched t) (omega (arith, w.fits)) (omega arith)
          (omega (arith, chain.first_le, w.page_lt)) chain.before
          (Used-up_to first (omega arith) (omega (arith, chain.first_le))))
      ∙ ap back (
          find_empty-next (t.page_count - 1) first 1 t.current.page (searched t)
            (omega (arith, w.fits)) (omega (arith, chain.first_le))
            (omega (arith, chain.short, w.page_lt)) w.page_lt Used-up_to chain.behind)
      ∙ ap (λ p. (true, p, searched t)) (step_back t.current.page t.page_count w.page_lt)

  -- The data ends where the last record says.
  abbrev LastEnd : Type 0
  LastEnd =
      let m = get_metadata t.current.page (t.current.metadata_count - 1) t in
      t.current.data_byte_count ≡ m.key_offset + words (m.key_size + m.value_size)

  pub update_current_lem : LastEnd → update_current t ≡ record t { is_full = false }
  unfolding update_current
  update_current_lem e =
      let page = t.current.page in
      let n = t.current.metadata_count in
      let m = get_metadata page (n - 1) t in
      let s1 : Store = record t {
        is_full = false;
        current = record { page = page; data_byte_count = 0; metadata_count = 0 };
      } in
      let at : ℕ → ℕ → Store = λ d k. record t {
        is_full = false;
        current = record { page = page; data_byte_count = d; metadata_count = k };
      } in
      let count : get_metadata_count page s1 ≡ n =
        get_metadata_count-Kept page t s1
          (record { page_size = refl; bytes = λ j _ _. refl; records = λ j _ _. refl })
        ∙ get_metadata_count_lem t w in
      let window = w.windows (n - 1) (omega (arith, some_record)) in
      ap settle get_current_page_lem
      ∙ ap
          (λ k.
            if k == 0
            then s1
            else (let r = get_metadata page (k - 1) s1 in
                at (r.key_offset + get_write_size (r.key_size + r.value_size) s1) k))
          count
      ∙ other (n == 0) s1 _ (positive n some_record)
      ∙ ap (λ d. at d n)
          (ap (λ k. m.key_offset + k)
              (get_write_size-words (m.key_size + m.value_size) s1 w.word
                (omega (arith, window.key, window.value, w.fits, w.page_size_le)))
            ∙ sym e)
