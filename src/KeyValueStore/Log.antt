-- ===== src/KeyValueStore/Log.antt =====
-- What the store holds, as a log: the entries of each page, the latest first, from the current page
-- backwards. A lookup finds the latest entry of a key on the first page that has a value for it.
use firefly_zephyr.Base.{
  ℕ, zero, suc, ◌+◌, ◌-◌, ◌≤◌, ◌<◌, ◌≡◌, refl, sym, ap, ◌∙◌, Bool, true, false, not, ◌&&◌, inl, inr,
  Option, none, some, List, [], ◌∷◌, ◌++◌, length, ltb, ◌==◌, if◌then◌else◌, bit_and, Bool-cases,
  arith,
}
use firefly_zephyr.Base.Bytes.{slice, length-slice}
use firefly_zephyr.Base.Words.{bytes_eq}
use firefly_zephyr.KeyValueStore.Types.{Metadata, flags_removed, Store, page_address}
use firefly_zephyr.KeyValueStore.Pages.{get_metadata, get_metadata_count}
use firefly_zephyr.KeyValueStore.Contract.{chosen, other}
use firefly_zephyr.KeyValueStore.Lookup.{
  key_matches, lookup_loop, lookup_on_page, page_loop, lookup, or_else,
}

pub record Entry : Type 0 where
  pub key : List ℕ
  pub removed : Bool
  pub value : List ℕ

abbrev pub entry_at : ℕ → Metadata → Store → Entry
entry_at page metadata s = record {
  key = slice s.flash (page_address page s + metadata.key_offset) metadata.key_size;
  removed = not (bit_and metadata.flags flags_removed == 0);
  value = slice s.flash (page_address page s + metadata.value_offset) metadata.value_size;
}

-- The entries of the `n` oldest records.
unfoldable pub entries : ℕ → ℕ → Store → List Entry
entries zero page s = []
entries (suc n) page s = entry_at page (get_metadata page n s) s ∷ entries n page s

unfoldable pub find : List ℕ → List Entry → Option (List ℕ)
find key [] = none
find key (e ∷ log) =
    if bytes_eq key e.key then (if e.removed then none else some e.value) else find key log

unfoldable pub find_all : List ℕ → List (List Entry) → Option (List ℕ)
find_all key [] = none
find_all key (log ∷ logs) = elim (find key log) [
  | none ↦ find_all key logs
  | some value ↦ some value
]

abbrev pub below : ℕ → List ℕ
below zero = []
below (suc k) = k ∷ below k

-- The `k` pages from `b` on, the last first.
abbrev pub above : ℕ → ℕ → List ℕ
above b zero = []
above b (suc k) = (b + k) ∷ above b k

-- The current page, those before it backwards, then the last one back to the one behind it.
abbrev pub pages : Store → List ℕ
pages s =
    s.current.page
    ∷ (below s.current.page ++ above (s.current.page + 1) (s.page_count - (s.current.page + 1)))

unfoldable pub all_entries : List ℕ → Store → List (List Entry)
all_entries [] s = []
all_entries (p ∷ ps) s = entries (get_metadata_count p s) p s ∷ all_entries ps s

unfoldable pub logs : Store → List (List Entry)
logs s = all_entries (pages s) s

-- The bytes that a lookup points to.
unfoldable pub fetch : Store → Option (ℕ × ℕ) → Option (List ℕ)
fetch s none = none
fetch s (some (address, size)) = some (slice s.flash address size)

pub bytes_eq-length : (xs ys : List ℕ) → bytes_eq xs ys ≡ true → length xs ≡ length ys
unfolding bytes_eq
bytes_eq-length [] [] h = refl
bytes_eq-length [] (y ∷ ys) h = cc
bytes_eq-length (x ∷ xs) [] h = cc
bytes_eq-length (x ∷ xs) (y ∷ ys) h = ground (arith, bytes_eq-length xs ys)

-- The size test and the comparison are a comparison of the keys.
key_matches-entry :
    (page : ℕ) (metadata : Metadata) (key : List ℕ) (s : Store)
    → key_matches page metadata key s ≡ bytes_eq key (entry_at page metadata s).key
unfolding key_matches
key_matches-entry page metadata key s =
    let a = page_address page s + metadata.key_offset in
    elim (Bool-cases (metadata.key_size == length key)) [
      | inl c ↦
          ap (λ b. b && bytes_eq key (slice s.flash a (length key))) c
          ∙ ap (λ n. bytes_eq key (slice s.flash a n)) (ground (arith, c))
      | inr c ↦
          ap (λ b. b && bytes_eq key (slice s.flash a (length key))) c
          ∙ elim (Bool-cases (bytes_eq key (slice s.flash a metadata.key_size))) [
            | inl d ↦ absurd (
                ground (
                  arith,
                  c,
                  bytes_eq-length key (slice s.flash a metadata.key_size) d,
                  length-slice s.flash a metadata.key_size,
                ))
            | inr d ↦ sym d
          ]
    ]

fetch_branches :
    (s : Store) (b c : Bool) (found : ℕ × ℕ) (later : Option (ℕ × ℕ)) (rest : Option (List ℕ))
    → fetch s later ≡ rest
    → fetch s (if b then (if not c then none else some found) else later)
      ≡ (if b then (if not c then none else some (slice s.flash found.0 found.1)) else rest)
unfolding fetch
fetch_branches s true true found later rest h = refl
fetch_branches s true false found later rest h = refl
fetch_branches s false c found later rest h = h

lookup_loop-find :
    (left page : ℕ) (key : List ℕ) (s : Store)
    → fetch s (lookup_loop left page key s) ≡ find key (entries left page s)
unfolding lookup_loop entries find fetch
lookup_loop-find zero page key s = refl
lookup_loop-find (suc left) page key s =
    rw (key_matches-entry page (get_metadata page left s) key s) (
      fetch_branches s (bytes_eq key (entry_at page (get_metadata page left s) s).key)
        (bit_and (get_metadata page left s).flags flags_removed == 0) _ _ _
        (lookup_loop-find left page key s))

-- What the first page that has a place for the key says.
unfoldable first_found : List ℕ → List ℕ → Store → Option (ℕ × ℕ)
first_found key [] s = none
first_found key (p ∷ ps) s = or_else (lookup_on_page p key s) (first_found key ps s)

fetch_or :
    (s : Store) (key : List ℕ) (here : Option (ℕ × ℕ)) (found : Option (List ℕ))
    (later : Option (ℕ × ℕ)) (rest : List (List Entry))
    → fetch s here ≡ found
    → fetch s later ≡ find_all key rest
    → fetch s (or_else here later)
      ≡ (elim found [ none ↦ find_all key rest | some value ↦ some value ])
unfolding fetch find_all
fetch_or s key none found later rest g h = rw (sym g) h
fetch_or s key (some (a, n)) found later rest g h = rw (sym g) refl

first_found-find_all :
    (key : List ℕ) (ps : List ℕ) (s : Store)
    → fetch s (first_found key ps s) ≡ find_all key (all_entries ps s)
unfolding first_found all_entries find_all lookup_on_page fetch
first_found-find_all key [] s = refl
first_found-find_all key (p ∷ ps) s =
    fetch_or s key _ _ _ (all_entries ps s) (lookup_loop-find (get_metadata_count p s) p key s)
      (first_found-find_all key ps s)

module _ (key : List ℕ) (s : Store) where
  abbrev before : ℕ → ℕ
  before p = if ltb 0 p then p - 1 else s.page_count - 1

  -- The loop goes from page `p` to page `q`, which is not the current one.
  goes_on :
      (fuel p q : ℕ) (ps : List ℕ)
      → before p ≡ q
      → (before p == s.current.page) ≡ false
      → page_loop fuel q key s ≡ first_found key ps s
      → page_loop (suc fuel) p key s ≡ first_found key (p ∷ ps) s
  unfolding page_loop first_found
  goes_on fuel p q ps e c h =
      ap (or_else (lookup_on_page p key s))
        (other (before p == s.current.page) _ _ c ∙ ap (λ r. page_loop fuel r key s) e ∙ h)

  -- It ends behind page `p`.
  ends :
      (fuel p : ℕ)
      → (before p == s.current.page) ≡ true
      → page_loop (suc fuel) p key s ≡ first_found key (p ∷ []) s
  unfolding page_loop first_found
  ends fuel p c = ap (or_else (lookup_on_page p key s)) (chosen (before p == s.current.page) _ _ c)

  -- From a page behind the current one.
  from_above :
      (k fuel : ℕ)
      → k < fuel
      → s.current.page + 1 + k < s.page_count
      → page_loop fuel (s.current.page + 1 + k) key s
        ≡ first_found key (above (s.current.page + 1) (suc k)) s
  from_above k zero h b = absurd (omega (arith, h))
  from_above zero (suc fuel) h b = ends fuel (s.current.page + 1 + 0) (ground arith)
  from_above (suc k) (suc fuel) h b =
      goes_on fuel (s.current.page + 1 + suc k) (s.current.page + 1 + k)
        (above (s.current.page + 1) (suc k)) (ground arith) (ground arith)
        (from_above k fuel (omega (arith, h)) (omega (arith, b)))

  -- From a page up to the current one, with `left` pages behind that.
  from_below :
      (p left fuel : ℕ)
      → p ≤ s.current.page
      → s.page_count ≡ s.current.page + 1 + left
      → p + left < fuel
      → page_loop fuel p key s
        ≡ first_found key (p ∷ (below p ++ above (s.current.page + 1) left)) s
  from_below p left zero h n f = absurd (omega (arith, f))
  from_below zero zero (suc fuel) h n f = ends fuel 0 (ground (arith, n))
  from_below zero (suc left) (suc fuel) h n f =
      goes_on fuel 0 (s.current.page + 1 + left) (above (s.current.page + 1) (suc left))
        (ground (arith, n)) (ground (arith, n))
        (from_above left fuel (omega (arith, f)) (omega (arith, n)))
  from_below (suc q) left (suc fuel) h n f =
      goes_on fuel (suc q) q (q ∷ (below q ++ above (s.current.page + 1) left)) (ground arith)
        (ground (arith, h)) (from_below q left fuel (omega (arith, h)) n (omega (arith, f)))

  page_loop-first_found :
      (fuel : ℕ)
      → s.current.page < s.page_count
      → s.page_count ≤ fuel
      → page_loop fuel s.current.page key s ≡ first_found key (pages s) s
  page_loop-first_found fuel b f =
      from_below s.current.page (s.page_count - (s.current.page + 1)) fuel (omega arith)
        (omega (arith, b)) (omega (arith, b, f))

  -- If the current page is one of the pages, the loop of `fd_key_value_store_lookup` is over
  -- after as many rounds as there are pages, for more rounds find the same; and the bytes that it
  -- points to are what the log holds for the key: those of the latest entry of the key on the
  -- first page, in the order the current one, those before it backwards, and the others from the
  -- last one back, whose latest entry of the key is not marked as removed, and there are none if
  -- there is no such page.
  pub lookup-find_all :
      s.current.page < s.page_count
      → ((fuel : ℕ) → s.page_count ≤ fuel → page_loop fuel s.current.page key s ≡ lookup key s)
        × (fetch s (lookup key s) ≡ find_all key (logs s))
  unfolding lookup logs
  lookup-find_all b = (
    λ fuel f.
        page_loop-first_found fuel b f ∙ sym (page_loop-first_found s.page_count b (omega arith)),
    ap (fetch s) (page_loop-first_found s.page_count b (omega arith))
        ∙ first_found-find_all key (pages s) s,
  )
