-- ===== src/KeyValueStore/Mapping.antt =====
-- The store as a map from keys to values: `fd_key_value_store_add`, `_get` and `_remove`.
use firefly_zephyr.Base.{
  ℕ, ◌+◌, ◌<◌, ◌≡◌, ◌≢◌, refl, sym, ap, ◌∙◌, Bool, true, false, inl, inr, Option, none, some, List,
  [], ◌∷◌, length, Bool-cases, arith,
}
use firefly_zephyr.Base.Bytes.{slice}
use firefly_zephyr.Base.Words.{bytes_eq, bytes_eq→eq, bytes_eq_self}
use firefly_zephyr.KeyValueStore.Types.{Codec, Store, flags_unused, fd_assert}
use firefly_zephyr.KeyValueStore.Lookup.{lookup, get}
use firefly_zephyr.KeyValueStore.Contract.{chosen, other}
use firefly_zephyr.KeyValueStore.Log.{
  Entry, find, find_all, all_entries, logs, fetch, lookup-find_all,
}
use firefly_zephyr.KeyValueStore.Invariant.{IsStore}
use firefly_zephyr.KeyValueStore.Commit.{HasRoom, Added}
use firefly_zephyr.KeyValueStore.Adds.{Added-IsStore}
use firefly_zephyr.KeyValueStore.Pushing.{new_entry, push, logs-Added}

-- The pages behind the current one.
abbrev pub older : List (List Entry) → List (List Entry)
older [] = []
older (log ∷ rest) = rest

-- What the pages behind the current one hold for a key.
abbrev pub older_value : List ℕ → Store → Option (List ℕ)
older_value key s = find_all key (older (logs s))

Filled : List (List Entry) → Type 0
Filled l = (log : List Entry) × (rest : List (List Entry)) × (l ≡ (log ∷ rest))

logs-Filled : (s : Store) → Filled (logs s)
unfolding logs all_entries Filled
logs-Filled s = (_, _, refl)

-- The entry that was pushed is found first.
find_all-found :
    (e : Entry) (l : List (List Entry))
    → Filled l
    → e.removed ≡ false
    → find_all e.key (push e l) ≡ some e.value
unfolding find_all find Filled
find_all-found e l (log, rest, q) h =
    ap (λ l. find_all e.key (push e l)) q
    ∙ ap
        (λ (o : Option (List ℕ)). elim o as (λ _. Option (List ℕ)) [
          | none ↦ find_all e.key rest
          | some v ↦ some v
        ])
        (chosen (bytes_eq e.key e.key) _ _ (bytes_eq_self e.key) ∙ other e.removed _ _ h)

-- A removed entry hides those of its page.
find_all-removed :
    (e : Entry) (l : List (List Entry))
    → Filled l
    → e.removed ≡ true
    → find_all e.key (push e l) ≡ find_all e.key (older l)
unfolding find_all find Filled
find_all-removed e l (log, rest, q) h =
    ap (λ l. find_all e.key (push e l)) q
    ∙ ap
        (λ (o : Option (List ℕ)). elim o as (λ _. Option (List ℕ)) [
          | none ↦ find_all e.key rest
          | some v ↦ some v
        ])
        (chosen (bytes_eq e.key e.key) _ _ (bytes_eq_self e.key) ∙ chosen e.removed _ _ h)
    ∙ ap (λ l. find_all e.key (older l)) (sym q)

find_all-other :
    (e : Entry) (key : List ℕ) (l : List (List Entry))
    → bytes_eq key e.key ≡ false
    → find_all key (push e l) ≡ find_all key l
unfolding find_all find
find_all-other e key [] h = refl
find_all-other e key (log ∷ rest) h =
    ap
      (λ (o : Option (List ℕ)). elim o as (λ _. Option (List ℕ)) [
        | none ↦ find_all key rest
        | some v ↦ some v
      ])
      (other (bytes_eq key e.key) _ _ h)

differs : (a b : List ℕ) → a ≢ b → bytes_eq a b ≡ false
differs a b ne = elim (Bool-cases (bytes_eq a b)) [
  | inl c ↦ absurd (ne (bytes_eq→eq a b c))
  | inr c ↦ c
]

some_injective : (a b : List ℕ) → Option.some a ≡ some b → a ≡ b
some_injective a b e =
    ap (λ (o : Option (List ℕ)). elim o as (λ _. List ℕ) [ none ↦ a | some x ↦ x ]) e

module _ {Message : Type 0} (codec : Codec Message) where
  get_found :
      (object object' : Message) (t : Store) (found : Option (ℕ × ℕ)) (value : List ℕ)
      → fetch t found ≡ some value
      → codec.decode value ≡ (true, true, object')
      → (elim found as (λ _. Bool × Message × Store) [
        | none ↦ (false, object, t)
        | some (address, size) ↦
            let (result, no_errmsg, decoded) = codec.decode (slice t.flash address size) in
            (result, decoded, fd_assert no_errmsg (fd_assert result t))
      ])
        ≡ (true, object', t)
  unfolding fetch
  get_found object object' t none value e d = cc
  get_found object object' t (some (address, size)) value e d =
      ap
        (λ (r : Bool × Bool × Message).
          let (result, no_errmsg, decoded) = r in
          (result, decoded, fd_assert no_errmsg (fd_assert result t)))
        (ap codec.decode (some_injective _ _ e) ∙ d)

  -- The bytes that are found are decoded.
  pub get_lem :
      (key : List ℕ) (object object' : Message) (t : Store) (value : List ℕ)
      → fetch t (lookup key t) ≡ some value
      → codec.decode value ≡ (true, true, object')
      → get codec key object t ≡ (true, object', t)
  unfolding get
  get_lem key object object' t value e d = get_found object object' t (lookup key t) value e d

pub found_in_logs :
    (key : List ℕ) (s : Store) → IsStore s → fetch s (lookup key s) ≡ find_all key (logs s)
found_in_logs key s w = (lookup-find_all key s w.page_lt).1

module _ (s : Store) (key value : List ℕ) (t : Store) (w : IsStore s)
    (r : HasRoom s (length key + length value)) where
  pub value-found : Added s key value 0 t → fetch t (lookup key t) ≡ some value
  value-found a =
      found_in_logs key t (Added-IsStore s key value 0 t w r a (omega arith))
      ∙ ap (find_all key) (logs-Added s key value 0 t w r a (omega arith))
      ∙ find_all-found (new_entry key value 0) (logs s) (logs-Filled s) refl

  pub value-removed : Added s key value 1 t → fetch t (lookup key t) ≡ older_value key s
  value-removed a =
      found_in_logs key t (Added-IsStore s key value 1 t w r a (omega arith))
      ∙ ap (find_all key) (logs-Added s key value 1 t w r a (omega arith))
      ∙ find_all-removed (new_entry key value 1) (logs s) (logs-Filled s) refl

  pub value-other :
      (flags : ℕ) (key' : List ℕ)
      → flags < flags_unused
      → Added s key value flags t
      → key' ≢ key
      → fetch t (lookup key' t) ≡ fetch s (lookup key' s)
  value-other flags key' h a ne =
      found_in_logs key' t (Added-IsStore s key value flags t w r a h)
      ∙ ap (find_all key') (logs-Added s key value flags t w r a h)
      ∙ find_all-other (new_entry key value flags) key' (logs s) (differs key' key ne)
      ∙ sym (found_in_logs key' s w)
