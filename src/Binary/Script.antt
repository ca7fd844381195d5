-- ===== src/Binary/Script.antt =====
-- A client that writes numbers and reads them back.
use mathlib.Core.Path.{subst}
use firefly_zephyr.Base.{
  ℕ, ◌+◌, ◌^◌, ◌≤◌, ◌<◌, ◌≡◌, refl, sym, ap, ◌∙◌, inl, List, [], ◌∷◌, length, arith,
}
use firefly_zephyr.Base.Bytes.{slice, copy_in, slice-copy_in, slice-copy_in_outside, length-copy_in}
use firefly_zephyr.Binary.{Binary, put_check, get_check}
use firefly_zephyr.Binary.Fields.{
  Width, uint8, uint16, uint24, uint32, uint48, uint64, Field, bytes, wanted, limit, put, get, pack,
  unpack, put_all, get_all, total, values, Fits,
}
use firefly_zephyr.Binary.RoundTrip.{unpack-pack}

length-pack : (w : Width) (v : ℕ) → length (pack w v) ≡ bytes w
unfolding pack
length-pack uint8 v = refl
length-pack uint16 v = refl
length-pack uint24 v = refl
length-pack uint32 v = refl
length-pack uint48 v = refl
length-pack uint64 v = refl

-- There is room for `n` bytes, and no sum wraps.
abbrev pub HasRoom : Binary → ℕ → Type 0
HasRoom b n = (b.put_index + n ≤ b.size) × (b.size < 2 ^ 32) × (b.size ≤ length b.buffer)

abbrev written : Binary → Width → ℕ → Binary
written b w v = record b {
  buffer = copy_in b.buffer b.put_index (pack w v);
  put_index = b.put_index + bytes w;
}

put_lem : (b : Binary) (w : Width) (v : ℕ) → HasRoom b (wanted w) → put b w v ≡ written b w v
unfolding put put_check pack
put_lem b uint8 v h = ground arith
put_lem b uint16 v h = ground arith
put_lem b uint24 v h = ground arith
put_lem b uint32 v h = ground arith
put_lem b uint48 v h = ground arith
put_lem b uint64 v h = ground arith

-- Reading with enough bytes left.
read_lem :
    (b : Binary) (w : Width)
    → b.get_index + bytes w ≤ b.size
    → b.size < 2 ^ 32
    → get b w ≡ (
      unpack w (slice b.buffer b.get_index (bytes w)),
      record b { get_index = b.get_index + bytes w },
    )
unfolding get get_check unpack
read_lem b uint8 h s = ground arith
read_lem b uint16 h s = ground arith
read_lem b uint24 h s = ground arith
read_lem b uint32 h s = ground arith
read_lem b uint48 h s = ground arith
read_lem b uint64 h s = ground arith

-- Reading where a packed number stands.
get_lem :
    (b : Binary) (w : Width) (v : ℕ)
    → v < limit w
    → b.get_index + bytes w ≤ b.size
    → b.size < 2 ^ 32
    → slice b.buffer b.get_index (bytes w) ≡ pack w v
    → get b w ≡ (v, record b { get_index = b.get_index + bytes w })
get_lem b w v p h s e = rw (read_lem b w h s, e, unpack-pack w v p) refl

wanted-bytes : (w : Width) → bytes w ≤ wanted w
wanted-bytes uint8 = omega arith
wanted-bytes uint16 = omega arith
wanted-bytes uint24 = omega arith
wanted-bytes uint32 = omega arith
wanted-bytes uint48 = omega arith
wanted-bytes uint64 = omega arith

-- Two bytes more than the numbers take are enough for every check.
slack : (w : Width) → wanted w ≤ bytes w + 2
slack uint8 = omega arith
slack uint16 = omega arith
slack uint24 = omega arith
slack uint32 = omega arith
slack uint48 = omega arith
slack uint64 = omega arith

HasRoom-written :
    (b : Binary) (f : Field) (n : ℕ)
    → HasRoom b (bytes f.width + n + 2)
    → HasRoom (written b f.width f.value) (n + 2)
HasRoom-written b f n h = omega (arith, length-copy_in b.buffer b.put_index (pack f.width f.value))

-- What `put_all` leaves as it is.
record IsKept (b b' : Binary) (n : ℕ) : Type 0 where
  pub size : b'.size ≡ b.size
  pub get_index : b'.get_index ≡ b.get_index
  pub errors : b'.errors ≡ b.errors
  pub put_index : b'.put_index ≡ b.put_index + n
  pub before :
      (from k : ℕ) → from + k ≤ b.put_index → slice b'.buffer from k ≡ slice b.buffer from k

put_first :
    (b : Binary) (f : Field) (n : ℕ)
    → HasRoom b (bytes f.width + n + 2)
    → put b f.width f.value ≡ written b f.width f.value
put_first b f n h = put_lem b f.width f.value (omega (arith, slack f.width))

put_all-IsKept :
    (b : Binary) (fields : List Field)
    → HasRoom b (total fields + 2)
    → IsKept b (put_all b fields) (total fields)
unfolding put_all
put_all-IsKept b [] h = record {
  size = refl;
  get_index = refl;
  errors = refl;
  put_index = omega arith;
  before = λ from k p. refl;
}
put_all-IsKept b (f ∷ fields) h =
    let rest =
      put_all-IsKept (written b f.width f.value) fields (HasRoom-written b f (total fields) h) in
    rw (put_first b f (total fields) h) (record {
      size = rest.size;
      get_index = rest.get_index;
      errors = rest.errors;
      put_index = omega (arith, rest.put_index);
      before = λ from k p.
          rest.before from k (omega arith)
          ∙ slice-copy_in_outside b.buffer b.put_index (pack f.width f.value) from k (inl p);
    })

put_all-first :
    (b : Binary) (f : Field) (fields : List Field)
    → HasRoom b (total (f ∷ fields) + 2)
    → put_all b (f ∷ fields) ≡ put_all (written b f.width f.value) fields
unfolding put_all
put_all-first b f fields h = ap (λ k. put_all k fields) (put_first b f (total fields) h)

packed_there :
    (b : Binary) (f : Field) (fields : List Field)
    → HasRoom b (total (f ∷ fields) + 2)
    → slice (put_all (written b f.width f.value) fields).buffer b.put_index (bytes f.width)
      ≡ pack f.width f.value
packed_there b f fields h =
    let rest =
      put_all-IsKept (written b f.width f.value) fields (HasRoom-written b f (total fields) h) in
    rest.before b.put_index (bytes f.width) (omega arith)
    ∙ subst
        (λ k.
          slice (copy_in b.buffer b.put_index (pack f.width f.value)) b.put_index k
          ≡ pack f.width f.value)
        (length-pack f.width f.value)
        (slice-copy_in b.buffer b.put_index (pack f.width f.value)
          (omega (arith, length-pack f.width f.value)))

reads :
    (b r : Binary) (fields : List Field)
    → HasRoom b (total fields + 2)
    → Fits fields
    → r.buffer ≡ (put_all b fields).buffer
    → r.size ≡ b.size
    → r.get_index ≡ b.put_index
    → get_all r fields ≡ (values fields, record r { get_index = b.put_index + total fields })
unfolding get_all put_all
reads b r [] h fits same size at = ap (λ n. ([], record r { get_index = n })) (omega arith)
reads b r (f ∷ fields) h fits same size at =
    let same' = same ∙ ap (λ (k : Binary). k.buffer) (put_all-first b f fields h) in
    let one =
      get_lem r f.width f.value fits.0 (omega arith) (omega arith)
        (rw (same', at) (packed_there b f fields h)) in
    let later =
      reads (written b f.width f.value) (record r { get_index = r.get_index + bytes f.width })
        fields (HasRoom-written b f (total fields) h) fits.1 same' size (omega arith) in
    rw (one, later) (ap (λ n. (f.value ∷ values fields, record r { get_index = n })) (omega arith))

-- Numbers of 8, 16, 24, 32, 48 or 64 bits that fit their width, put one after the other into a
-- buffer with two bytes to spare, whose size is below 2 ^ 32, are got back in the same order with
-- no new error, if `get_index` stood where the first was put.
pub put_all-get_all :
    (b : Binary) (fields : List Field)
    → HasRoom b (total fields + 2)
    → Fits fields
    → b.get_index ≡ b.put_index
    → let written = put_all b fields in
      (get_all written fields ≡ (values fields, record written { get_index = written.put_index }))
      × (written.put_index ≡ b.put_index + total fields)
      × (written.errors ≡ b.errors)
put_all-get_all b fields h fits at =
    let kept = put_all-IsKept b fields h in
    (
      reads b (put_all b fields) fields h fits refl kept.size (kept.get_index ∙ at)
          ∙ ap (λ k. (values fields, record (put_all b fields) { get_index = k }))
              (sym kept.put_index),
      kept.put_index,
      kept.errors,
    )
