-- ===== src/KeyValueStore/Flushing.antt =====
-- A stream that is flushed has written its bytes, and padding up to a whole word.
use mathlib.Core.Path.{subst}
use firefly_zephyr.Base.{
  ℕ, ◌+◌, ◌-◌, ◌≡◌, refl, sym, ap, ◌∙◌, false, inl, inr, List, [], ◌∷◌, ◌++◌, append_assoc,
  append-nil, length, length-append, Bool-cases, ◌==◌, arith,
}
use firefly_zephyr.Base.Bytes.{slice, length-slice, slice-plus}
use firefly_zephyr.KeyValueStore.Types.{FlashArea, Store}
use firefly_zephyr.KeyValueStore.Stream.{
  ostream_write, ostream_flush, ostream_callback, ostream, ostream_runs,
}
use firefly_zephyr.KeyValueStore.Contract.{IsFlash, chosen, other}
use firefly_zephyr.KeyValueStore.Streaming.{
  pending, Room, Room-less, advanced, advanced-advanced, Streamed, Streamed-refl, Streamed-trans,
  Streamed-length, Room-Streamed,
}
use firefly_zephyr.KeyValueStore.Passing.{Streamed-callback, ostream_write_lem}
use firefly_zephyr.KeyValueStore.Records.{words, get_write_size-words}

-- The runs behind one another.
abbrev pub joined : List (List ℕ) → List ℕ
joined [] = []
joined (run ∷ runs) = run ++ joined runs

pub record Written (s : Store) (bytes : List ℕ) (t : Store) : Type 0 where
  pub padding : List ℕ
  pub size : length bytes + length padding ≡ words (length bytes)
  pub result : t ≡ advanced s (bytes ++ padding) t.ostream_state
  pub sixteen : length t.ostream_state.buffer ≡ 16

module _ (area : FlashArea) (ok : IsFlash area) where
  pub Streamed-runs :
      (runs : List (List ℕ)) (s : Store)
      → Room s (s.ostream_state.count + length (joined runs))
      → Streamed s (joined runs) (ostream_runs area runs s)
  unfolding ostream_runs
  Streamed-runs [] s r = Streamed-refl s r.sixteen r.counted
  Streamed-runs (run ∷ runs) s r =
      let sizes = length-append run (joined runs) in
      let a = Streamed-callback area ok run s (Room-less s _ _ (omega (arith, sizes)) r) in
      let t = ostream_callback area run s in
      let room =
        Room-Streamed s t run (length (joined runs)) a (Room-less s _ _ (omega (arith, sizes)) r) in
      Streamed-trans s t _ run (joined runs) a (Streamed-runs runs t room)

  -- The state that the flush writes.
  abbrev padded : Store → Store
  padded t = record t {
    ostream_state = record t.ostream_state { count = words t.ostream_state.count };
  }

  ostream_flush_lem :
      (t : Store)
      → t.minumum_write_size ≡ 4
      → (t.ostream_state.count == 0) ≡ false
      → Room t (words t.ostream_state.count)
      → ostream_flush area t
        ≡ advanced t (pending (padded t)) (record t.ostream_state { count = 0 })
  unfolding ostream_flush
  ostream_flush_lem t e c r =
      other (t.ostream_state.count == 0) _ _ c
      ∙ ap
          (λ n.
            ostream_write area (record t { ostream_state = record t.ostream_state { count = n } }))
          (get_write_size-words t.ostream_state.count t e (omega (arith, r.counted)))
      ∙ ostream_write_lem area ok (padded t)
          (record {
            aligned = r.aligned;
            inside = r.inside;
            erased = r.erased;
            sixteen = r.sixteen;
            counted = omega (arith, r.counted);
          })
          (omega arith)

  flush_nothing :
      (s t : Store) (bytes : List ℕ)
      → (a : Streamed s bytes t) → bytes ≡ a.written ++ pending t
      → t.ostream_state.count ≡ 0
      → Written s bytes (ostream_flush area t)
  unfolding ostream_flush slice
  flush_nothing s t bytes a all z =
      let e : a.written ≡ bytes ++ [] =
        sym (append-nil a.written)
        ∙ ap (λ n. a.written ++ slice t.ostream_state.buffer 0 n) (sym z)
        ∙ sym all
        ∙ sym (append-nil bytes) in
      subst (Written s bytes) (sym (chosen (t.ostream_state.count == 0) _ _ (ap (λ n. n == 0) z)))
        (record {
          padding = [];
          size = omega (arith, ap length e, length-append bytes [], a.whole);
          result = a.result ∙ ap (λ w. advanced s w t.ostream_state) e;
          sixteen = a.sixteen;
        })

  -- The padding is what the buffer held behind the pending bytes.
  flush_pending :
      (s t : Store) (bytes : List ℕ) (n : ℕ)
      → s.minumum_write_size ≡ 4
      → (a : Streamed s bytes t) → bytes ≡ a.written ++ pending t
      → length bytes ≡ length a.written + t.ostream_state.count
      → (t.ostream_state.count == 0) ≡ false
      → words t.ostream_state.count ≡ t.ostream_state.count + n
      → Room t (t.ostream_state.count + n)
      → Written s bytes (ostream_flush area t)
  flush_pending s t bytes n e a all sizes c more room =
      let buffer = t.ostream_state.buffer in
      let padding = slice buffer (0 + t.ostream_state.count) n in
      let written : a.written ++ pending (padded t) ≡ bytes ++ padding =
        ap (λ m. a.written ++ slice buffer 0 m) more
        ∙ ap (λ l. a.written ++ l) (slice-plus buffer 0 t.ostream_state.count n)
        ∙ sym (append_assoc a.written (pending t) padding)
        ∙ ap (λ l. l ++ padding) (sym all) in
      let flushed =
        ostream_flush_lem t (ap (λ u. u.minumum_write_size) a.result ∙ e) c
          (subst (Room t) (sym more) room) in
      subst (Written s bytes) (sym flushed) (record {
        padding = padding;
        size =
            omega (arith, length-slice buffer (0 + t.ostream_state.count) n, sizes, a.whole, more);
        result =
            ap (λ u. advanced u (pending (padded t)) (record t.ostream_state { count = 0 }))
              a.result
            ∙ advanced-advanced s a.written (pending (padded t)) t.ostream_state
                (record t.ostream_state { count = 0 })
            ∙ ap (λ w. advanced s w (record t.ostream_state { count = 0 })) written;
        sixteen = a.sixteen;
      })

  pub Written-flush :
      (s t : Store) (bytes : List ℕ)
      → s.minumum_write_size ≡ 4
      → s.ostream_state.count ≡ 0
      → Room s (words (length bytes))
      → Streamed s bytes t
      → Written s bytes (ostream_flush area t)
  unfolding slice
  Written-flush s t bytes e z r a =
      let all : bytes ≡ a.written ++ pending t =
        sym (ap (λ n. slice s.ostream_state.buffer 0 n ++ bytes) z) ∙ a.in_order in
      let sizes : length bytes ≡ length a.written + t.ostream_state.count =
        omega (arith, Streamed-length s t bytes a, z) in
      let n = words t.ostream_state.count - t.ostream_state.count in
      elim (Bool-cases (t.ostream_state.count == 0)) [
        | inl c ↦ flush_nothing s t bytes a all (ground (arith, c))
        | inr c ↦
            flush_pending s t bytes n e a all sizes c (omega arith)
              (Room-Streamed s t bytes n a (Room-less s _ _ (omega (arith, sizes, a.whole, z)) r))
      ]

  -- Given flash in which whole words are written where it is erased, a write size of 4, and
  -- erased room at a word for them, a key and runs of bytes that go through the stream of 16
  -- bytes and are flushed are one write of the key, the runs and padding up to a whole word, and
  -- no assertion fails.
  pub stream-Written :
      (key : List ℕ) (runs : List (List ℕ)) (s : Store)
      → s.minumum_write_size ≡ 4
      → Room (ostream s) (words (length key + length (joined runs)))
      → Written
          (ostream s)
          (key ++ joined runs)
          (ostream_flush area (ostream_runs area runs (ostream_callback area key (ostream s))))
  unfolding ostream
  stream-Written key runs s e r =
      let sizes = length-append key (joined runs) in
      let s0 = ostream s in
      let s1 = ostream_callback area key s0 in
      let a = Streamed-callback area ok key s0 (Room-less s0 _ _ (omega arith) r) in
      let room =
        Room-Streamed s0 s1 key (length (joined runs)) a (Room-less s0 _ _ (omega arith) r) in
      let b = Streamed-trans s0 s1 _ key (joined runs) a (Streamed-runs runs s1 room) in
      Written-flush s0 _ (key ++ joined runs) e refl (subst (λ n. Room s0 (words n)) (sym sizes) r)
        b
