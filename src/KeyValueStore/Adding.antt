-- ===== src/KeyValueStore/Adding.antt =====
-- `fd_key_value_store_add` where there is room, with a codec that encodes what it decodes.
use mathlib.Core.Path.{subst}
use firefly_zephyr.Base.{
  ℕ, ◌+◌, ◌≡◌, refl, sym, ap, ◌∙◌, Bool, true, false, Option, none, some, List, [], ◌∷◌, length,
  length-append, ◌==◌, if◌then◌else◌, arith,
}
use firefly_zephyr.KeyValueStore.Types.{FlashArea, Codec, Listener, Notice, Store, fd_assert}
use firefly_zephyr.KeyValueStore.Stream.{ostream, ostream_callback, ostream_runs, ostream_flush}
use firefly_zephyr.KeyValueStore.Collect.{set_commit}
use firefly_zephyr.KeyValueStore.Api.{
  total_length, notice, notify_set, notify_removed, notify_added, flags_of, put_value,
  add_allocated,
}
use firefly_zephyr.KeyValueStore.Contract.{IsFlash, asserted}
use firefly_zephyr.KeyValueStore.Records.{words}
use firefly_zephyr.KeyValueStore.Flushing.{joined}
use firefly_zephyr.KeyValueStore.Invariant.{IsStore}
use firefly_zephyr.KeyValueStore.Commit.{HasRoom, Added, Added-commit, record-Room}
use firefly_zephyr.KeyValueStore.Flushing.{stream-Written}

-- What `pb_encode` makes of a message, and that it can be decoded.
pub record IsCodec {Message : Type 0} (codec : Codec Message) : Type 0 where
  pub runs : Message → List (List ℕ)
  pub sized : (m : Message) → codec.encoded_size m ≡ (true, length (joined (runs m)))
  pub encoded : (m : Message) → codec.encode m ≡ (true, true, runs m)
  pub decoded : (m : Message) → codec.decode (joined (runs m)) ≡ (true, true, m)

pub total_length-joined : (runs : List (List ℕ)) → total_length runs ≡ length (joined runs)
total_length-joined [] = refl
total_length-joined (run ∷ runs) =
    omega (arith, total_length-joined runs, length-append run (joined runs))

-- A notice is added at most.
pub noticed :
    (b : Bool) (n : Notice) (s : Store)
    → (if b then notice n s else s) ≡ record s { notices = (if b then notice n s else s).notices }
noticed true n s = refl
noticed false n s = refl

-- Listeners are called, and that is all.
notify_set_lem :
    (listeners : List Listener) (key : List ℕ) (s : Store)
    → notify_set listeners key s ≡ record s { notices = (notify_set listeners key s).notices }
unfolding notify_set
notify_set_lem [] key s = refl
notify_set_lem (l ∷ listeners) key s =
    let u = if l.was_set then notice (Notice.set l.context key) s else s in
    notify_set_lem listeners key u
    ∙ ap {B = Store} (λ (v : Store). record v { notices = (notify_set listeners key u).notices })
        (noticed l.was_set (Notice.set l.context key) s)

notify_removed_lem :
    (listeners : List Listener) (key : List ℕ) (s : Store)
    → notify_removed listeners key s
      ≡ record s { notices = (notify_removed listeners key s).notices }
unfolding notify_removed
notify_removed_lem [] key s = refl
notify_removed_lem (l ∷ listeners) key s =
    let u = if l.was_removed then notice (Notice.removed l.context key) s else s in
    notify_removed_lem listeners key u
    ∙ ap {B = Store}
        (λ (v : Store). record v { notices = (notify_removed listeners key u).notices })
        (noticed l.was_removed (Notice.removed l.context key) s)

notify_added_lem :
    {Message : Type 0} (object : Option Message) (key : List ℕ) (s : Store)
    → notify_added object key s ≡ record s { notices = (notify_added object key s).notices }
notify_added_lem none key s = notify_removed_lem s.listeners key s
notify_added_lem (some object) key s = notify_set_lem s.listeners key s

pub Added-notify :
    {Message : Type 0} (s : Store) (key value : List ℕ) (flags : ℕ) (object : Option Message)
    (t : Store)
    → Added s key value flags t
    → Added s key value flags (notify_added object key t)
Added-notify s key value flags object t a =
    let n = (notify_added object key t).notices in
    subst (Added s key value flags) (sym (notify_added_lem object key t)) (record {
      padding = a.padding;
      size = a.size;
      result = ap {B = Store} (λ (v : Store). record v { notices = n }) a.result;
      sixteen = a.sixteen;
    })

module _ {Message : Type 0} (codec : Codec Message) (ic : IsCodec codec) where
  abbrev runs_of : Option Message → List (List ℕ)
  runs_of none = []
  runs_of (some object) = ic.runs object

  -- The bytes that an object, or no object, is stored as.
  abbrev pub value_bytes : Option Message → List ℕ
  value_bytes object = joined (runs_of object)

  module _ (area : FlashArea) (ok : IsFlash area) where
    put_value_lem :
        (object : Option Message) (s : Store)
        → put_value area codec object (length (value_bytes object)) s
          ≡ ostream_runs area (runs_of object) s
    unfolding put_value ostream_runs
    put_value_lem none s = refl
    put_value_lem (some object) s =
        ap
          (λ (e : Bool × Bool × List (List ℕ)).
            let (result, no_errmsg, runs) = e in
            fd_assert (total_length runs == length (joined (ic.runs object)))
              (fd_assert no_errmsg (fd_assert result (ostream_runs area runs s))))
          (ic.encoded object)
        ∙ asserted (total_length (ic.runs object) == length (joined (ic.runs object))) _
            (ground (arith, total_length-joined (ic.runs object)))

    pub add_allocated-Added :
        (key : List ℕ) (object : Option Message) (s : Store)
        → IsStore s
        → s.data_write_offset ≡ s.current.data_byte_count
        → HasRoom s (length key + length (value_bytes object))
        → Added s key (value_bytes object) (flags_of object) (
            add_allocated area codec key object
              (length (value_bytes object))
              (words (length key + length (value_bytes object)))
              s)
    unfolding add_allocated
    add_allocated-Added key object s w o r =
        let value = value_bytes object in
        let n = length key + length value in
        let s0 = ostream_callback area key (ostream s) in
        let flushed = ostream_flush area (ostream_runs area (runs_of object) s0) in
        let done =
          Added-commit area ok s flushed key value (flags_of object) w o r (
            stream-Written area ok key (runs_of object) s w.word (record-Room area ok s n w o r)) in
        subst
          (λ u. Added s key value (flags_of object) (
            notify_added object key (
              set_commit area (length key) (length value) (words n) (flags_of object)
                (ostream_flush area u))))
          (sym (put_value_lem object s0)) (Added-notify s key value (flags_of object) object _ done)
