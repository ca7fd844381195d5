-- ===== src/KeyValueStore/Comparing.antt =====
-- The stream that compares finds whether the value of a key is the encoding of an object.
use firefly_zephyr.Base.{
  ℕ, ◌+◌, ◌≤◌, ◌≡◌, refl, sym, ap, ap₂, ◌∙◌, Bool, true, false, ◌&&◌, inl, inr, Option, none, some,
  List, [], ◌∷◌, ◌++◌, length, ltb, ◌==◌, if◌then◌else◌, Bool-cases, arith,
}
use firefly_zephyr.Base.Bytes.{byte_at, slice, length-slice}
use firefly_zephyr.Base.Words.{bytes_eq}
use firefly_zephyr.KeyValueStore.Types.{Codec, EqualStreamState, Store, fd_assert}
use firefly_zephyr.KeyValueStore.Lookup.{lookup}
use firefly_zephyr.KeyValueStore.Api.{
  total_length, equal_stream, equal_stream_callback, equal_stream_runs, is_set_to,
}
use firefly_zephyr.KeyValueStore.Contract.{chosen}
use firefly_zephyr.KeyValueStore.Flushing.{joined}
use firefly_zephyr.KeyValueStore.Log.{fetch, bytes_eq-length}
use firefly_zephyr.KeyValueStore.Adding.{IsCodec, total_length-joined}

equal_stream_callback-append :
    (xs ys : List ℕ) (s : Store)
    → equal_stream_callback (xs ++ ys) s ≡ equal_stream_callback ys (equal_stream_callback xs s)
unfolding equal_stream_callback
equal_stream_callback-append [] ys s = refl
equal_stream_callback-append (x ∷ xs) ys s = equal_stream_callback-append xs ys _

equal_stream_runs-joined :
    (runs : List (List ℕ)) (s : Store)
    → equal_stream_runs runs s ≡ equal_stream_callback (joined runs) s
unfolding equal_stream_runs equal_stream_callback
equal_stream_runs-joined [] s = refl
equal_stream_runs-joined (run ∷ runs) s =
    equal_stream_runs-joined runs (equal_stream_callback run s)
    ∙ sym (equal_stream_callback-append run (joined runs) s)

-- The state of the stream behind one more byte.
abbrev compared : ℕ → Store → Store
compared x s =
    let e = s.equal_stream_state in
    record s {
      equal_stream_state = record e {
        is_equal = e.is_equal && (x == byte_at s.flash (e.value + e.count));
        count = e.count + 1;
      };
    }

only_stream :
    (c : Bool) (x : ℕ) (s : Store)
    → (if c then compared x s else s)
      ≡ record s { equal_stream_state = (if c then compared x s else s).equal_stream_state }
only_stream true x s = refl
only_stream false x s = refl

-- Only the state of the stream changes.
equal_stream_callback_lem :
    (bytes : List ℕ) (s : Store)
    → equal_stream_callback bytes s
      ≡ record s { equal_stream_state = (equal_stream_callback bytes s).equal_stream_state }
unfolding equal_stream_callback
equal_stream_callback_lem [] s = refl
equal_stream_callback_lem (x ∷ bytes) s =
    let c = ltb s.equal_stream_state.count s.equal_stream_state.size in
    let u = if c then compared x s else s in
    equal_stream_callback_lem bytes u
    ∙ ap {B = Store}
        (λ (v : Store). record v {
          equal_stream_state = (equal_stream_callback bytes u).equal_stream_state;
        })
        (only_stream c x s)

and_true : (b : Bool) → b ≡ (b && true)
and_true true = refl
and_true false = refl

and_false : (b : Bool) → (b && false) ≡ false
and_false true = refl
and_false false = refl

and_assoc : (a b c : Bool) → ((a && b) && c) ≡ (a && (b && c))
and_assoc true b c = refl
and_assoc false b c = refl

-- The bytes so far are equal, and those of the run.
is_equal_lem :
    (bytes : List ℕ) (s : Store)
    → s.equal_stream_state.count + length bytes ≤ s.equal_stream_state.size
    → (equal_stream_callback bytes s).equal_stream_state.is_equal ≡ (
        s.equal_stream_state.is_equal
        && bytes_eq bytes (
            slice s.flash (s.equal_stream_state.value + s.equal_stream_state.count) (length bytes)))
unfolding equal_stream_callback bytes_eq slice
is_equal_lem [] s h = and_true s.equal_stream_state.is_equal
is_equal_lem (x ∷ bytes) s h =
    let e = s.equal_stream_state in
    let at : e.value + (e.count + 1) ≡ e.value + e.count + 1 = omega arith in
    ap (λ u. (equal_stream_callback bytes u).equal_stream_state.is_equal)
      (chosen (ltb e.count e.size) (compared x s) s (ground (arith, h)))
    ∙ is_equal_lem bytes (compared x s) (omega (arith, h))
    ∙ and_assoc e.is_equal (x == byte_at s.flash (e.value + e.count)) _
    ∙ ap
        (λ o.
          e.is_equal
          && ((x == byte_at s.flash (e.value + e.count))
              && bytes_eq bytes (slice s.flash o (length bytes))))
        at

-- The value that a lookup finds, no bytes where it finds none.
abbrev pub stored : Option (List ℕ) → List ℕ
stored none = []
stored (some value) = value

module _ {Message : Type 0} (codec : Codec Message) (ic : IsCodec codec) where
  -- The answer is whether the bytes are the same.
  same_bytes :
      (a n : ℕ) (object : Message) (s : Store) (u : Store)
      → u ≡ equal_stream_runs (ic.runs object) (equal_stream a n s)
      → (u.equal_stream_state.is_equal && (total_length (ic.runs object) == n))
        ≡ bytes_eq (joined (ic.runs object)) (slice s.flash a n)
  unfolding equal_stream
  same_bytes a n object s u e =
      let bytes = joined (ic.runs object) in
      let answer = u.equal_stream_state.is_equal in
      let total = total_length-joined (ic.runs object) in
      elim (Bool-cases (total_length (ic.runs object) == n)) [
        | inl c ↦
            let size : length bytes ≡ n = ground (arith, c, total) in
            ap (λ b. answer && b) c
            ∙ sym (and_true answer)
            ∙ ap (λ v. v.equal_stream_state.is_equal)
                (e ∙ equal_stream_runs-joined (ic.runs object) (equal_stream a n s))
            ∙ is_equal_lem bytes (equal_stream a n s) (omega (arith, size))
            ∙ ap₂ (λ o k. bytes_eq bytes (slice s.flash o k)) (omega arith) size
        | inr c ↦
            ap (λ b. answer && b) c
            ∙ and_false answer
            ∙ elim (Bool-cases (bytes_eq bytes (slice s.flash a n))) [
              | inl d ↦ absurd (
                  ground (
                    arith,
                    c,
                    total,
                    bytes_eq-length bytes (slice s.flash a n) d,
                    length-slice s.flash a n,
                  ))
              | inr d ↦ sym d
            ]
      ]

  -- The place of the value.
  abbrev place : Option (ℕ × ℕ) → ℕ × ℕ
  place none = (0, 0)
  place (some found) = found

  place-stored :
      (s : Store) (found : Option (ℕ × ℕ))
      → slice s.flash (place found).0 (place found).1 ≡ stored (fetch s found)
  unfolding fetch slice
  place-stored s none = refl
  place-stored s (some (a, n)) = refl

  pub is_set_to_lem :
      (key : List ℕ) (object : Message) (s : Store)
      → (e : EqualStreamState) × (is_set_to codec key object s ≡ (
        bytes_eq (joined (ic.runs object)) (stored (fetch s (lookup key s))),
        record s { equal_stream_state = e },
      ))
  unfolding is_set_to equal_stream
  is_set_to_lem key object s =
      let (value, size) = place (lookup key s) in
      let u = equal_stream_runs (ic.runs object) (equal_stream value size s) in
      let changed : u ≡ record s { equal_stream_state = u.equal_stream_state } =
        equal_stream_runs-joined (ic.runs object) (equal_stream value size s)
        ∙ equal_stream_callback_lem (joined (ic.runs object)) (equal_stream value size s)
        ∙ ap {B = Store} (λ (v : Store). record s { equal_stream_state = v.equal_stream_state })
            (sym (equal_stream_runs-joined (ic.runs object) (equal_stream value size s))) in
      (
        u.equal_stream_state,
        ap
              (λ (r : Bool × Bool × List (List ℕ)).
                let (result, no_errmsg, runs) = r in
                let s0 = fd_assert result (equal_stream_runs runs (equal_stream value size s)) in
                (s0.equal_stream_state.is_equal && (total_length runs == size), s0))
              (ic.encoded object)
            ∙ ap₂ (λ b (v : Store). (b, v))
                (same_bytes value size object s u refl
                  ∙ ap (bytes_eq (joined (ic.runs object))) (place-stored s (lookup key s)))
                changed,
      )
