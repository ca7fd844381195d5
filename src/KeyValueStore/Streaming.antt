-- ===== src/KeyValueStore/Streaming.antt =====
-- The stream writes the bytes that go through it, one behind the other.
use mathlib.Core.Path.{subst}
use firefly_zephyr.Base.{
  ℕ, ◌+◌, ◌*◌, ◌%◌, ◌≤◌, ◌≡◌, refl, sym, ap, ap₂, ◌∙◌, inr, List, [], ◌++◌, append_assoc,
  append-nil, length, length-append, arith,
}
use firefly_zephyr.Base.Bytes.{slice, copy_in, length-slice, length-copy_in}
use firefly_zephyr.KeyValueStore.Types.{OstreamState, Store}
use firefly_zephyr.KeyValueStore.Contract.{Erased, Erased-copy_in, copy_in-append}

-- Where the next byte goes, and the bytes that wait for it.
abbrev pub cursor : Store → ℕ
cursor s = s.current.page * s.page_size + s.data_write_offset

abbrev pub pending : Store → List ℕ
pending s = slice s.ostream_state.buffer 0 s.ostream_state.count

-- The next `n` bytes are in the flash, at a word, and erased, and the buffer is sound.
pub record Room (s : Store) (n : ℕ) : Type 0 where
  pub aligned : cursor s % 4 ≡ 0
  pub inside : cursor s + n ≤ length s.flash
  pub erased : Erased s.flash (cursor s) (cursor s + n)
  pub sixteen : length s.ostream_state.buffer ≡ 16
  pub counted : s.ostream_state.count ≤ 16

-- The state with these bytes written.
abbrev pub advanced : Store → List ℕ → OstreamState → Store
advanced s written state = record s {
  flash = copy_in s.flash (cursor s) written;
  data_write_offset = s.data_write_offset + length written;
  ostream_state = state;
}

-- From `s` to `t` the bytes went through, some of which are written by now.
pub record Streamed (s : Store) (bytes : List ℕ) (t : Store) : Type 0 where
  pub written : List ℕ
  pub in_order : pending s ++ bytes ≡ written ++ pending t
  pub whole : length written % 16 ≡ 0
  pub result : t ≡ advanced s written t.ostream_state
  pub sixteen : length t.ostream_state.buffer ≡ 16
  pub counted : t.ostream_state.count ≤ 16

pub nothing_written :
    (s : Store) (state : OstreamState) → record s { ostream_state = state } ≡ advanced s [] state
unfolding copy_in
nothing_written s state =
    ap (λ o. record s { data_write_offset = o; ostream_state = state }) (omega arith)

pub Streamed-refl :
    (s : Store) → length s.ostream_state.buffer ≡ 16 → s.ostream_state.count ≤ 16 → Streamed s [] s
unfolding copy_in
Streamed-refl s n c = record {
  written = [];
  in_order = append-nil (pending s);
  whole = refl;
  result = nothing_written s s.ostream_state;
  sixteen = n;
  counted = c;
}

-- Bytes that are written behind others.
pub advanced-advanced :
    (s : Store) (xs ys : List ℕ) (a b : OstreamState)
    → advanced (advanced s xs a) ys b ≡ advanced s (xs ++ ys) b
advanced-advanced s xs ys a b =
    ap₂ (λ f o. record s { flash = f; data_write_offset = o; ostream_state = b })
      (ap (λ o. copy_in (copy_in s.flash (cursor s) xs) o ys) (omega arith)
        ∙ sym (copy_in-append s.flash (cursor s) xs ys))
      (omega (arith, length-append xs ys))

pub Streamed-trans :
    (s t u : Store) (xs ys : List ℕ) → Streamed s xs t → Streamed t ys u → Streamed s (xs ++ ys) u
Streamed-trans s t u xs ys a b = record {
  written = a.written ++ b.written;
  in_order =
      sym (append_assoc (pending s) xs ys)
      ∙ ap (λ l. l ++ ys) a.in_order
      ∙ append_assoc a.written (pending t) ys
      ∙ ap (λ l. a.written ++ l) b.in_order
      ∙ sym (append_assoc a.written b.written (pending u));
  whole = omega (arith, a.whole, b.whole, length-append a.written b.written);
  result =
      b.result
      ∙ ap (λ v. advanced v b.written u.ostream_state) a.result
      ∙ advanced-advanced s a.written b.written t.ostream_state u.ostream_state;
  sixteen = b.sixteen;
  counted = b.counted;
}

pub Streamed-length :
    (s t : Store) (bytes : List ℕ) (a : Streamed s bytes t)
    → s.ostream_state.count + length bytes ≡ length a.written + t.ostream_state.count
Streamed-length s t bytes a = omega (
  arith,
  ap length a.in_order,
  length-append (pending s) bytes,
  length-append a.written (pending t),
  length-slice s.ostream_state.buffer 0 s.ostream_state.count,
  length-slice t.ostream_state.buffer 0 t.ostream_state.count,
)

-- Room is used up by what is written.
pub Room-Streamed :
    (s t : Store) (bytes : List ℕ) (n : ℕ)
    → Streamed s bytes t
    → Room s (s.ostream_state.count + length bytes + n)
    → Room t (t.ostream_state.count + n)
Room-Streamed s t bytes n a r =
    let c : cursor t ≡ cursor s + length a.written = ap cursor a.result ∙ omega arith in
    let f : t.flash ≡ copy_in s.flash (cursor s) a.written = ap (λ v. v.flash) a.result in
    let sizes : s.ostream_state.count + length bytes ≡ length a.written + t.ostream_state.count =
      Streamed-length s t bytes a in
    record {
      aligned = omega (arith, c, a.whole, r.aligned);
      inside =
          omega
            (arith, c, ap length f, length-copy_in s.flash (cursor s) a.written, r.inside, sizes);
      erased =
          subst (λ g. Erased g (cursor t) (cursor t + (t.ostream_state.count + n))) (sym f)
            (Erased-copy_in s.flash (cursor s) a.written (cursor t)
              (cursor t + (t.ostream_state.count + n)) (inr (omega (arith, c)))
              (λ j p q. r.erased j (omega (arith, p, c)) (omega (arith, q, c, sizes))));
      sixteen = a.sixteen;
      counted = a.counted;
    }

pub Room-less : (s : Store) (m n : ℕ) → m ≤ n → Room s n → Room s m
Room-less s m n p r = record {
  aligned = r.aligned;
  inside = omega (arith, p, r.inside);
  erased = λ j q h. r.erased j q (omega (arith, p, h));
  sixteen = r.sixteen;
  counted = r.counted;
}
