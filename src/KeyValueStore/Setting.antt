-- ===== src/KeyValueStore/Setting.antt =====
-- `fd_key_value_store_set`: what is set is what is got, also where it was set before.
use firefly_zephyr.Base.{
  ℕ, ◌<◌, ◌≡◌, sym, ap, ◌∙◌, Bool, true, false, not, inl, inr, Option, none, some, List, [], length,
  if◌then◌else◌, Bool-cases, arith,
}
use firefly_zephyr.Base.Words.{bytes_eq, bytes_eq→eq}
use firefly_zephyr.KeyValueStore.Types.{FlashArea, Codec, EqualStreamState, Store}
use firefly_zephyr.KeyValueStore.Lookup.{lookup, get}
use firefly_zephyr.KeyValueStore.Api.{add, set_message, is_set_to, notify_set}
use firefly_zephyr.KeyValueStore.Contract.{IsFlash}
use firefly_zephyr.KeyValueStore.Log.{find_all, fetch}
use firefly_zephyr.KeyValueStore.Flushing.{joined}
use firefly_zephyr.KeyValueStore.Invariant.{IsStore}
use firefly_zephyr.KeyValueStore.Adding.{IsCodec, Added-notify}
use firefly_zephyr.KeyValueStore.Allocating.{add-Added}
use firefly_zephyr.KeyValueStore.Adds.{Added-IsStore}
use firefly_zephyr.KeyValueStore.Mapping.{get_lem, value-found, found_in_logs}
use firefly_zephyr.KeyValueStore.Operations.{HasRoomFor}
use firefly_zephyr.KeyValueStore.Beside.{IsStore-beside, logs-beside}
use firefly_zephyr.KeyValueStore.Comparing.{stored, is_set_to_lem}

stored_some :
    (o : Option (List ℕ)) (v : List ℕ) → bytes_eq v (stored o) ≡ true → 0 < length v → o ≡ some v
stored_some none v h p = absurd (omega (arith, ap length (bytes_eq→eq v [] h), p))
stored_some (some value) v h p = ap some (sym (bytes_eq→eq v value h))

module _ {Message : Type 0} (area : FlashArea) (ok : IsFlash area) (codec : Codec Message)
    (ic : IsCodec codec) (key : List ℕ) (object : Message) (s : Store) where
  -- The state behind the comparison.
  abbrev seen : EqualStreamState → Store
  seen e = record s { equal_stream_state = e }

  abbrev behind_test : Bool × Store → Option (Bool × Store)
  behind_test (same, s0) =
      if same then some (true, s0) else (elim (add area codec key (some object) s0) [
        | none ↦ none
        | some (result, s1) ↦
            if not result then some (false, s1) else some (true, notify_set s1.listeners key s1)
      ])

  set_same :
      (e : EqualStreamState) (before : Message)
      → IsStore s
      → is_set_to codec key object s ≡ (true, seen e)
      → fetch s (lookup key s) ≡ some (joined (ic.runs object))
      → (set_message area codec key object s ≡ some (true, seen e))
        × (get codec key before (seen e) ≡ (true, object, seen e))
  unfolding set_message
  set_same e before w q v = (
    ap behind_test q,
    get_lem codec key before object (seen e) (joined (ic.runs object))
        (found_in_logs key (seen e) (IsStore-beside s.data_write_offset e s w)
          ∙ ap (find_all key) (logs-beside s.data_write_offset e s)
          ∙ sym (found_in_logs key s w)
          ∙ v)
        (ic.decoded object),
  )

  set_other :
      (e : EqualStreamState) (before : Message)
      → IsStore s
      → s.is_full ≡ false
      → HasRoomFor area ok codec ic key (some object) s
      → is_set_to codec key object s ≡ (false, seen e)
      → (t : Store) × (set_message area codec key object s ≡ some (true, t))
        × IsStore t
        × (get codec key before t ≡ (true, object, t))
  unfolding set_message
  set_other e before w f r q =
      let w' = IsStore-beside s.data_write_offset e s w in
      let (t, p, a) = add-Added area ok codec ic key (some object) (seen e) w' f r in
      let u = notify_set t.listeners key t in
      let a' = Added-notify (seen e) key (joined (ic.runs object)) 0 (some object) t a in
      (
        u,
        ap behind_test q
            ∙ ap
                (λ (o : Option (Bool × Store)). elim o as (λ _. Option (Bool × Store)) [
                  | none ↦ none
                  | some (result, s1) ↦
                      if not result
                      then some (false, s1)
                      else some (true, notify_set s1.listeners key s1)
                ])
                p,
        Added-IsStore (seen e) key _ 0 u w' r a' (omega arith),
        get_lem codec key before object u _ (value-found (seen e) key _ u w' r a')
            (ic.decoded object),
      )

  -- Given flash in which whole words are written where it is erased, and a codec that decodes
  -- what it encodes, in a well-formed store that is not full, with room on its current page for a
  -- key and an object that encodes to at least one byte, `fd_key_value_store_set` ends, returns
  -- true and leaves a well-formed store from which `fd_key_value_store_get` gives back that
  -- object with no failed assertion, whether or not it was set before.
  pub set-get :
      (before : Message)
      → IsStore s
      → s.is_full ≡ false
      → HasRoomFor area ok codec ic key (some object) s
      → 0 < length (joined (ic.runs object))
      → (t : Store) × (set_message area codec key object s ≡ some (true, t))
        × IsStore t
        × (get codec key before t ≡ (true, object, t))
  set-get before w f r n =
      let (e, q) = is_set_to_lem codec ic key object s in
      let b = bytes_eq (joined (ic.runs object)) (stored (fetch s (lookup key s))) in
      elim (Bool-cases b) [
        | inl c ↦
            let (p, g) =
              set_same e before w (q ∙ ap (λ c. (c, seen e)) c)
                (stored_some (fetch s (lookup key s)) (joined (ic.runs object)) c n) in
            (seen e, p, IsStore-beside s.data_write_offset e s w, g)
        | inr c ↦ set_other e before w f r (q ∙ ap (λ c. (c, seen e)) c)
      ]
