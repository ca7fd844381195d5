-- ===== src/KeyValueStore/Tests.antt =====
-- Calls on a store of two small pages.
use firefly_zephyr.Base.{
  ℕ, ◌≤◌, ◌≡◌, ◌≢◌, refl, ap, Bool, true, false, Option, none, some, List, [], ◌∷◌, ◌++◌, length,
  length-replicate, replicate, arith,
}
use firefly_zephyr.Base.Bytes.{copy_in, byte_at-replicate}
use firefly_zephyr.Base.Words.{uint32_at}
use firefly_zephyr.KeyValueStore.Example.{
  flash_area, flash_area-IsFlash, number, number_runs, store_on, blank, store_on-Geometry,
  blank-IsStore, key, other_key, held, held-Added, held-IsStore,
}
use firefly_zephyr.KeyValueStore.Types.{Store}
use firefly_zephyr.KeyValueStore.Pages.{update_current}
use firefly_zephyr.KeyValueStore.Lookup.{lookup, page_loop, is_set, is_some, get}
use firefly_zephyr.KeyValueStore.Stream.{ostream, ostream_callback, ostream_runs, ostream_flush}
use firefly_zephyr.KeyValueStore.Collect.{allocate}
use firefly_zephyr.KeyValueStore.Api.{add, set_message, remove, erase}
use firefly_zephyr.KeyValueStore.Streaming.{Room}
use firefly_zephyr.KeyValueStore.Flushing.{Written, joined, stream-Written}
use firefly_zephyr.KeyValueStore.Log.{fetch, find_all, logs, lookup-find_all}
use firefly_zephyr.KeyValueStore.Invariant.{IsStore}
use firefly_zephyr.KeyValueStore.Pushing.{new_entry, push}
use firefly_zephyr.KeyValueStore.Mapping.{value-found, older_value}
use firefly_zephyr.KeyValueStore.Operations.{add-logs, add-lookup_other, remove-lookup}
use firefly_zephyr.KeyValueStore.Setting.{set-get}
use firefly_zephyr.KeyValueStore.Erasing.{erase-lookup}
use firefly_zephyr.KeyValueStore.Ending.{Ends, allocate-Ends}
use firefly_zephyr.KeyValueStore.Recovery.{Chain}
use firefly_zephyr.KeyValueStore.Restart.{add-update_current}

room : Room (ostream blank) 24
unfolding ostream
room = record {
  aligned = refl;
  inside = omega (arith, length-replicate {A = ℕ} 128 255);
  erased = λ j a b. byte_at-replicate 128 255 j (omega (arith, b));
  sixteen = refl;
  counted = omega arith;
}

stream-Written_example : Written (ostream blank) (key ++ joined (replicate 17 1 ∷ (2 ∷ []) ∷ [])) (
    ostream_flush flash_area (
      ostream_runs flash_area
        (replicate 17 1 ∷ (2 ∷ []) ∷ [])
        (ostream_callback flash_area key (ostream blank))))
stream-Written_example =
    stream-Written flash_area flash_area-IsFlash key (replicate 17 1 ∷ (2 ∷ []) ∷ []) blank refl
      room

lookup-find_all_example :
    ((fuel : ℕ)
      → held.page_count ≤ fuel
      → page_loop fuel held.current.page key held ≡ lookup key held)
    × (fetch held (lookup key held) ≡ find_all key (logs held))
lookup-find_all_example = lookup-find_all key held held-IsStore.page_lt

held_full : held.is_full ≡ false
held_full = ap (λ v. v.is_full) held-Added.result

held_data : held.current.data_byte_count ≡ 8
held_data = ap (λ v. v.current.data_byte_count) held-Added.result

held_count : held.current.metadata_count ≡ 1
held_count = ap (λ v. v.current.metadata_count) held-Added.result

held_size : held.page_size ≡ 64
held_size = ap (λ v. v.page_size) held-Added.result

add-logs_example :
    (t : Store) × (add flash_area number other_key (some 6) held ≡ some (true, t))
    × IsStore t
    × (logs t ≡ push (new_entry other_key (8 ∷ 6 ∷ []) 0) (logs held))
add-logs_example =
    add-logs flash_area flash_area-IsFlash number number_runs other_key (some 6) held held-IsStore
      held_full (omega (arith, held_data, held_count, held_size))

set-get_example :
    (t : Store) × (set_message flash_area number key 7 held ≡ some (true, t))
    × IsStore t
    × (get number key 0 t ≡ (true, 7, t))
set-get_example =
    set-get flash_area flash_area-IsFlash number number_runs key 7 held 0 held-IsStore held_full
      (omega (arith, held_data, held_count, held_size)) (omega arith)

keys_differ : key ≢ other_key
keys_differ e = absurd (omega (arith, ap length e))

add-lookup_other_example :
    (t : Store) × (add flash_area number other_key none held ≡ some (true, t))
    × (fetch t (lookup key t) ≡ fetch held (lookup key held))
add-lookup_other_example =
    add-lookup_other flash_area flash_area-IsFlash number number_runs other_key key none held
      keys_differ held-IsStore held_full (omega (arith, held_data, held_count, held_size))

held_set : is_set key held ≡ true
unfolding is_set fetch
held_set =
    found (lookup key held)
      (value-found blank key (8 ∷ 5 ∷ []) held blank-IsStore (omega arith) held-Added)
  where
    found : (o : Option (ℕ × ℕ)) → fetch held o ≡ some (8 ∷ 5 ∷ []) → is_some o ≡ true
    found none e = cc
    found (some place) e = refl

remove-lookup_example :
    (t : Store) × (remove flash_area number key held ≡ some (true, t))
    × IsStore t
    × (fetch t (lookup key t) ≡ older_value key held)
remove-lookup_example =
    remove-lookup flash_area flash_area-IsFlash number number_runs key held held-IsStore held_full
      held_set (omega (arith, held_data, held_count, held_size))

blank-Chain : Chain 0 blank
blank-Chain = record {
  first_le = omega arith;
  short = omega arith;
  before = λ p a. absurd (omega (arith, a));
  used = λ p a b. absurd (omega (arith, b));
  behind = λ j a b. byte_at-replicate 128 255 j (omega (arith, b));
}

add-update_current_example :
    (t : Store) × (add flash_area number key (some 5) blank ≡ some (true, t))
    × (update_current t ≡ t)
add-update_current_example =
    add-update_current flash_area flash_area-IsFlash number number_runs key (some 5) 0 blank
      blank-Chain blank-IsStore refl (omega arith)

allocate-Ends_example : Ends 64 (allocate flash_area 64 held)
allocate-Ends_example =
    allocate-Ends flash_area 64 held (omega (arith, held_size)) (omega (arith, held_size))

erase-lookup_example :
    IsStore (erase flash_area (store_on (replicate 128 7)))
    × ((key : List ℕ) → lookup key (erase flash_area (store_on (replicate 128 7))) ≡ none)
erase-lookup_example =
    erase-lookup flash_area flash_area-IsFlash (store_on (replicate 128 7)) (store_on-Geometry 7)
      (2, refl)

abbrev and_then : (Store → Option (Bool × Store)) → Option (Bool × Store) → Option (Bool × Store)
and_then f none = none
and_then f (some (result, s)) = f s

abbrev got : Option (Bool × Store) → Bool × ℕ
got none = (false, 0)
got (some (result, s)) = let (found, object, s') = get number key 0 s in (found, object)

abbrev put : List ℕ → ℕ → Store → Option (Bool × Store)
put k object s = set_message flash_area number k object s

-- 5 and then 6 are set, and it is 6 that is got.
got_latest : got (and_then (put key 6) (put key 5 blank)) ≡ (true, 6)
unfolding set_message get uint32_at copy_in
got_latest = refl

-- Behind a collection of their page, it is 5.
got_collected :
    got (and_then (put other_key 1) (and_then (put key 6) (put key 5 blank))) ≡ (true, 5)
unfolding set_message get uint32_at copy_in
got_collected = refl

-- A value on an older page is there again when its key is removed.
got_removed :
    got (
      and_then (remove flash_area number key) (
        and_then (put other_key 2) (
          and_then
            (put other_key 1)
            (put key 5 (record blank { page_count = 3; flash = replicate 192 255 })))))
    ≡ (true, 5)
unfolding set_message remove get uint32_at copy_in
got_removed = refl
