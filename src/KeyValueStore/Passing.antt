-- ===== src/KeyValueStore/Passing.antt =====
-- A byte that is put, a buffer that is written, and a run of bytes.
use mathlib.Core.Path.{subst}
use firefly_zephyr.Base.{
  ℕ, ◌+◌, ◌%◌, ◌≤◌, ◌<◌, ◌≡◌, refl, sym, ap, ap₂, ◌∙◌, true, false, inl, inr, List, [], ◌∷◌, ◌++◌,
  length, length-set, get_or-set_self, get_or-set_ne, set, Bool-cases, leb, if◌then◌else◌, arith,
}
use firefly_zephyr.Base.Bytes.{byte_at, slice, copy_in, length-slice, slice_ext, slice-plus}
use firefly_zephyr.KeyValueStore.Types.{FlashArea, Store}
use firefly_zephyr.KeyValueStore.Stream.{nvm_write, ostream_write, put_byte, ostream_callback}
use firefly_zephyr.KeyValueStore.Contract.{IsFlash, asserted, chosen, other, nvm_write_lem}
use firefly_zephyr.KeyValueStore.Streaming.{
  cursor, pending, Room, Room-less, advanced, nothing_written, Streamed, Streamed-refl,
  Streamed-trans, Room-Streamed,
}

-- The bytes below an index stay when the byte there is set.
slice-set :
    (buffer : List ℕ) (i : ℕ) (x : ℕ)
    → i < length buffer
    → slice (set buffer i x) 0 (i + 1) ≡ slice buffer 0 i ++ (x ∷ [])
unfolding slice
slice-set buffer i x p =
    slice-plus (set buffer i x) 0 i 1
    ∙ ap₂ ◌++◌
        (slice_ext (set buffer i x) buffer 0 i
          (λ j _ q. get_or-set_ne buffer i j x 0 (omega arith)))
        (ap (λ b. b ∷ [])
          (ap (λ k. byte_at (set buffer i x) k) (omega arith) ∙ get_or-set_self buffer i x 0 p))

Streamed-put_byte :
    (x : ℕ) (s : Store)
    → length s.ostream_state.buffer ≡ 16
    → s.ostream_state.count < 16
    → Streamed s (x ∷ []) (put_byte x s)
Streamed-put_byte x s n c = record {
  written = [];
  in_order = sym (slice-set s.ostream_state.buffer s.ostream_state.count x (omega (arith, n, c)));
  whole = refl;
  result = nothing_written s (put_byte x s).ostream_state;
  sixteen = length-set s.ostream_state.buffer s.ostream_state.count x ∙ n;
  counted = omega (arith, c);
}

sixteen_of : (n : ℕ) → leb 16 n ≡ true → n ≤ 16 → n ≡ 16
sixteen_of n c p = ground (arith, c, p)

below_16 : (n : ℕ) → leb 16 n ≡ false → n < 16
below_16 n c = ground (arith, c)

module _ (area : FlashArea) (ok : IsFlash area) where
  -- The pending bytes are written, and none is pending.
  pub ostream_write_lem :
      (s : Store)
      → Room s s.ostream_state.count
      → s.ostream_state.count % 4 ≡ 0
      → ostream_write area s ≡ advanced s (pending s) (record s.ostream_state { count = 0 })
  unfolding ostream_write
  ostream_write_lem s r q4 =
      let n : length (pending s) ≡ s.ostream_state.count =
        length-slice s.ostream_state.buffer 0 s.ostream_state.count in
      ap
        (λ (u : Store).
          let v = nvm_write area (cursor u) (pending u) u in
          record v {
            data_write_offset = v.data_write_offset + u.ostream_state.count;
            ostream_state = record u.ostream_state { count = 0 };
          })
        (asserted (leb s.ostream_state.count 16) s (ground (arith, r.counted)))
      ∙ ap
          (λ (v : Store). record v {
            data_write_offset = v.data_write_offset + s.ostream_state.count;
            ostream_state = record s.ostream_state { count = 0 };
          })
          (nvm_write_lem area ok (cursor s) (pending s) s r.aligned (omega (arith, q4, n))
            (omega (arith, r.inside, n)) (λ j p q. r.erased j p (omega (arith, q, n))))
      ∙ ap
          (λ k. record s {
            flash = copy_in s.flash (cursor s) (pending s);
            data_write_offset = s.data_write_offset + k;
            ostream_state = record s.ostream_state { count = 0 };
          })
          (sym n)

  Streamed-write :
      (s : Store)
      → Room s s.ostream_state.count
      → s.ostream_state.count ≡ 16
      → Streamed s [] (advanced s (pending s) (record s.ostream_state { count = 0 }))
  unfolding slice
  Streamed-write s r e = record {
    written = pending s;
    in_order = refl;
    whole = ap (λ n. n % 16) (length-slice s.ostream_state.buffer 0 s.ostream_state.count ∙ e);
    result = refl;
    sixteen = r.sixteen;
    counted = omega arith;
  }

  -- A full buffer is written before the next byte.
  emptied :
      (s : Store)
      → Room s s.ostream_state.count
      → (t : Store) × (t ≡ (if leb 16 s.ostream_state.count then ostream_write area s else s))
        × Streamed s [] t
        × (t.ostream_state.count < 16)
  emptied s r = elim (Bool-cases (leb 16 s.ostream_state.count)) [
    | inl c ↦ (
      advanced s (pending s) (record s.ostream_state { count = 0 }),
      sym (
          chosen (leb 16 s.ostream_state.count) _ _ c
          ∙ ostream_write_lem s r (omega (arith, sixteen_of s.ostream_state.count c r.counted))),
      Streamed-write s r (sixteen_of s.ostream_state.count c r.counted),
      omega arith,
    )
    | inr c ↦ (
      s,
      sym (other (leb 16 s.ostream_state.count) _ _ c),
      Streamed-refl s r.sixteen r.counted,
      below_16 s.ostream_state.count c,
    )
  ]

  pub Streamed-callback :
      (bytes : List ℕ) (s : Store)
      → Room s (s.ostream_state.count + length bytes)
      → Streamed s bytes (ostream_callback area bytes s)
  unfolding ostream_callback
  Streamed-callback [] s r = Streamed-refl s r.sixteen r.counted
  Streamed-callback (x ∷ bytes) s r =
      let (t, e, a, below) = emptied s (Room-less s _ _ (omega arith) r) in
      let b =
        Streamed-trans s t (put_byte x t) [] (x ∷ []) a (Streamed-put_byte x t a.sixteen below) in
      let room =
        Room-Streamed s (put_byte x t) (x ∷ []) (length bytes) b
          (Room-less s _ _ (omega arith) r) in
      subst (λ u. Streamed s (x ∷ bytes) (ostream_callback area bytes (put_byte x u))) e
        (Streamed-trans s (put_byte x t) _ (x ∷ []) bytes b
          (Streamed-callback bytes (put_byte x t) room))
