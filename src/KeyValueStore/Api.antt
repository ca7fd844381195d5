-- ===== src/KeyValueStore/Api.antt =====
-- The functions of fd_key_value_store.h that change the store. `none` is a call that does not end.
use firefly_zephyr.Base.{
  ℕ, zero, suc, ◌+◌, Bool, true, false, not, ◌&&◌, Option, none, some, List, [], ◌∷◌, ◌++◌, length,
  ltb, leb, ◌==◌, if◌then◌else◌,
}
use firefly_zephyr.Base.Bytes.{byte_at}
use firefly_zephyr.KeyValueStore.Types.{
  FlashArea, Codec, flags_removed, Listener, Notice, Store, fd_assert,
}
use firefly_zephyr.KeyValueStore.Pages.{update_current}
use firefly_zephyr.KeyValueStore.Lookup.{lookup, is_set}
use firefly_zephyr.KeyValueStore.Stream.{
  nvm_erase, ostream, ostream_callback, ostream_runs, ostream_flush,
}
use firefly_zephyr.KeyValueStore.Collect.{allocate_key_value, set_commit}

abbrev pub notice : Notice → Store → Store
notice n s = record s { notices = s.notices ++ (n ∷ []) }

-- The loops that call the listeners.
unfoldable pub notify_set : List Listener → List ℕ → Store → Store
notify_set [] key s = s
notify_set (l ∷ listeners) key s =
    notify_set listeners key (if l.was_set then notice (Notice.set l.context key) s else s)

unfoldable pub notify_removed : List Listener → List ℕ → Store → Store
notify_removed [] key s = s
notify_removed (l ∷ listeners) key s =
    notify_removed listeners key
      (if l.was_removed then notice (Notice.removed l.context key) s else s)

unfoldable pub notify_erased : List Listener → Store → Store
notify_erased [] s = s
notify_erased (l ∷ listeners) s =
    notify_erased listeners (if l.was_erased then notice (Notice.erased l.context) s else s)

unfoldable pub add_listener : ℕ → Listener → Store → Store
add_listener limit listener s =
    let s0 = fd_assert (ltb (length s.listeners) limit) s in
    if leb limit (length s.listeners)
    then s0
    else record s0 { listeners = s0.listeners ++ (listener ∷ []) }

abbrev pub total_length : List (List ℕ) → ℕ
total_length [] = 0
total_length (run ∷ runs) = length run + total_length runs

-- The bytes of a run against those of the value.
unfoldable pub equal_stream_callback : List ℕ → Store → Store
equal_stream_callback [] s = s
equal_stream_callback (x ∷ bytes) s =
    let e = s.equal_stream_state in
    let same = x == byte_at s.flash (e.value + e.count) in
    equal_stream_callback bytes (
      if ltb e.count e.size
      then record s {
        equal_stream_state = record e { is_equal = e.is_equal && same; count = e.count + 1 };
      }
      else s)

unfoldable pub equal_stream_runs : List (List ℕ) → Store → Store
unfolding equal_stream_callback
equal_stream_runs [] s = s
equal_stream_runs (run ∷ runs) s = equal_stream_runs runs (equal_stream_callback run s)

unfoldable pub equal_stream : ℕ → ℕ → Store → Store
equal_stream value size s = record s {
  equal_stream_state = record { value = value; size = size; count = 0; is_equal = true };
}

module _ {Message : Type 0} where
  abbrev pub flags_of : Option Message → ℕ
  flags_of none = flags_removed
  flags_of (some object) = 0

  abbrev pub notify_added : Option Message → List ℕ → Store → Store
  notify_added none key s = notify_removed s.listeners key s
  notify_added (some object) key s = notify_set s.listeners key s

module _ {Message : Type 0} (codec : Codec Message) where
  -- The size of an object, or of no object, with the assertion on the result.
  unfoldable pub value_size_of : Option Message → Store → ℕ × Store
  value_size_of none s = (0, s)
  value_size_of (some object) s =
      let (result, size) = codec.encoded_size object in (size, fd_assert result s)

  -- A key that is not found has a value of no bytes.
  unfoldable pub is_set_to : List ℕ → Message → Store → Bool × Store
  unfolding lookup equal_stream equal_stream_runs
  is_set_to key object s =
      let (value, value_size) : ℕ × ℕ = elim (lookup key s) [
        | none ↦ (0, 0)
        | some found ↦ found
      ] in
      let (result, no_errmsg, runs) = codec.encode object in
      let s0 = fd_assert result (equal_stream_runs runs (equal_stream value value_size s)) in
      (s0.equal_stream_state.is_equal && (total_length runs == value_size), s0)

module _ {Message : Type 0} (area : FlashArea) (codec : Codec Message) where
  -- What goes through the stream behind the key.
  unfoldable pub put_value : Option Message → ℕ → Store → Store
  unfolding ostream_runs
  put_value none value_size s = s
  put_value (some object) value_size s =
      let (result, no_errmsg, runs) = codec.encode object in
      fd_assert (total_length runs == value_size)
        (fd_assert no_errmsg (fd_assert result (ostream_runs area runs s)))

  -- `fd_key_value_store_add` behind the allocation. No object stands for a NULL descriptor.
  unfoldable pub add_allocated : List ℕ → Option Message → ℕ → ℕ → Store → Store
  unfolding ostream ostream_callback put_value ostream_flush set_commit notify_set notify_removed
  add_allocated key object value_size data_size s =
      let s0 = ostream_callback area key (ostream s) in
      let s1 = ostream_flush area (put_value object value_size s0) in
      notify_added object key
        (set_commit area (length key) value_size data_size (flags_of object) s1)

  unfoldable pub add : List ℕ → Option Message → Store → Option (Bool × Store)
  unfolding value_size_of allocate_key_value add_allocated
  add key object s =
      let (value_size, s0) = value_size_of codec object s in
      elim (allocate_key_value area (length key) value_size s0) [
        | none ↦ none
        | some (result, data_size, s1) ↦
            if not result
            then some (false, s1)
            else some (true, add_allocated key object value_size data_size s1)
      ]

  unfoldable pub set_message : List ℕ → Message → Store → Option (Bool × Store)
  unfolding is_set_to add notify_set
  set_message key object s =
      let (same, s0) = is_set_to codec key object s in
      if same then some (true, s0) else (elim (add key (some object) s0) [
        | none ↦ none
        | some (result, s1) ↦
            if not result then some (false, s1) else some (true, notify_set s1.listeners key s1)
      ])

  unfoldable pub remove : List ℕ → Store → Option (Bool × Store)
  unfolding is_set add notify_removed
  remove key s = if not (is_set key s) then some (true, s) else (elim (add key none s) [
    | none ↦ none
    | some (result, s1) ↦
        if not result then some (false, s1) else some (true, notify_removed s1.listeners key s1)
  ])

module _ (area : FlashArea) where
  unfoldable pub erase_loop : ℕ → ℕ → Store → Store
  unfolding nvm_erase
  erase_loop zero i s = s
  erase_loop (suc left) i s = erase_loop left (i + 1) (nvm_erase area i s)

  unfoldable pub erase : Store → Store
  unfolding erase_loop update_current notify_erased
  erase s = let s0 = update_current (erase_loop s.page_count 0 s) in notify_erased s0.listeners s0

-- The result and the count are those of `flash_area_get_sectors`.
unfoldable pub initialize : Bool → ℕ → Store → Store
unfolding update_current
initialize result count s =
    let s0 = record (fd_assert result (record s { minumum_write_size = 4; page_size = 4096 })) {
      page_count = count;
    } in
    update_current (fd_assert (leb 2 count) s0)
