-- ===== src/KeyValueStore/Operations.antt =====
-- `fd_key_value_store_add` and `fd_key_value_store_remove` on a store with room on its page.
use firefly_zephyr.Base.{
  ℕ, ◌+◌, ◌<◌, ◌≡◌, ◌≢◌, ap, ◌∙◌, Bool, true, false, not, Option, none, some, List, [], length,
  if◌then◌else◌, arith,
}
use firefly_zephyr.KeyValueStore.Types.{FlashArea, Codec, Store, flags_unused}
use firefly_zephyr.KeyValueStore.Lookup.{lookup, is_set}
use firefly_zephyr.KeyValueStore.Api.{add, remove, flags_of, notify_removed}
use firefly_zephyr.KeyValueStore.Contract.{IsFlash, other}
use firefly_zephyr.KeyValueStore.Log.{logs, fetch}
use firefly_zephyr.KeyValueStore.Invariant.{IsStore}
use firefly_zephyr.KeyValueStore.Commit.{HasRoom, Added}
use firefly_zephyr.KeyValueStore.Adding.{IsCodec, value_bytes, Added-notify}
use firefly_zephyr.KeyValueStore.Allocating.{add-Added}
use firefly_zephyr.KeyValueStore.Adds.{Added-IsStore}
use firefly_zephyr.KeyValueStore.Pushing.{new_entry, push, logs-Added}
use firefly_zephyr.KeyValueStore.Mapping.{older_value, value-removed, value-other}

module _ {Message : Type 0} (area : FlashArea) (ok : IsFlash area) (codec : Codec Message)
    (ic : IsCodec codec) where
  -- The record for a key and an object, or no object, fits the current page.
  abbrev pub HasRoomFor : List ℕ → Option Message → Store → Type 0
  HasRoomFor key object s = HasRoom s (length key + length (value_bytes codec ic object))

  pub flags_lt : (object : Option Message) → flags_of object < flags_unused
  flags_lt none = omega arith
  flags_lt (some object) = omega arith

  -- Given flash in which whole words are written where it is erased, and a codec that decodes
  -- what it encodes, in a well-formed store that is not full, with room on its current page for a
  -- key and an object, or no object, `fd_key_value_store_add` ends, returns true and leaves a
  -- well-formed store whose log has one entry more, the key and what the object encodes to, or
  -- the mark of a removed key, on top of the current page, and is otherwise as before.
  pub add-logs :
      (key : List ℕ) (object : Option Message) (s : Store)
      → IsStore s
      → s.is_full ≡ false
      → HasRoomFor key object s
      → (t : Store) × (add area codec key object s ≡ some (true, t))
        × IsStore t
        × (logs t ≡ push (new_entry key (value_bytes codec ic object) (flags_of object)) (logs s))
  add-logs key object s w f r =
      let (t, e, a) = add-Added area ok codec ic key object s w f r in
      (
        t,
        e,
        Added-IsStore s key _ (flags_of object) t w r a (flags_lt object),
        logs-Added s key _ (flags_of object) t w r a (flags_lt object),
      )

  -- Given flash in which whole words are written where it is erased, and a codec that decodes
  -- what it encodes, in a well-formed store that is not full, with room on its current page for a
  -- key and an object, or no object, `fd_key_value_store_add` ends, returns true, and a lookup of
  -- any other key finds what it found before.
  pub add-lookup_other :
      (key key' : List ℕ) (object : Option Message) (s : Store)
      → key' ≢ key
      → IsStore s
      → s.is_full ≡ false
      → HasRoomFor key object s
      → (t : Store) × (add area codec key object s ≡ some (true, t))
        × (fetch t (lookup key' t) ≡ fetch s (lookup key' s))
  add-lookup_other key key' object s ne w f r =
      let (t, e, a) = add-Added area ok codec ic key object s w f r in
      (t, e, value-other s key _ t w r (flags_of object) key' (flags_lt object) a ne)

  remove-Added :
      (key : List ℕ) (s : Store)
      → IsStore s
      → s.is_full ≡ false
      → is_set key s ≡ true
      → HasRoomFor key none s
      → (t : Store) × (remove area codec key s ≡ some (true, t)) × Added s key [] 1 t
  unfolding remove
  remove-Added key s w f c r =
      let (t, e, a) = add-Added area ok codec ic key none s w f r in
      (
        notify_removed t.listeners key t,
        other (not (is_set key s)) _ _ (ap not c)
            ∙ ap
                (λ (o : Option (Bool × Store)). elim o as (λ _. Option (Bool × Store)) [
                  | none ↦ none
                  | some (result, s1) ↦
                      if not result
                      then some (false, s1)
                      else some (true, notify_removed s1.listeners key s1)
                ])
                e,
        Added-notify {Message = Message} s key [] 1 none t a,
      )

  -- Given flash in which whole words are written where it is erased, and a codec that decodes
  -- what it encodes, in a well-formed store that is not full, with room on its current page for a
  -- key, and where the key is set, `fd_key_value_store_remove` ends, returns true and leaves a
  -- well-formed store in which a lookup of the key finds what the pages behind the current one
  -- hold for it: nothing if they hold nothing, an older value if they hold one.
  pub remove-lookup :
      (key : List ℕ) (s : Store)
      → IsStore s
      → s.is_full ≡ false
      → is_set key s ≡ true
      → HasRoomFor key none s
      → (t : Store) × (remove area codec key s ≡ some (true, t))
        × IsStore t
        × (fetch t (lookup key t) ≡ older_value key s)
  remove-lookup key s w f c r =
      let (t, e, a) = remove-Added key s w f c r in
      (t, e, Added-IsStore s key [] 1 t w r a (omega arith), value-removed s key [] t w r a)
