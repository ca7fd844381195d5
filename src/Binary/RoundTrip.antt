-- ===== src/Binary/RoundTrip.antt =====
-- What fd_binary.c packs, it unpacks.
use firefly_zephyr.Base.{ℕ, ◌+◌, ◌*◌, ◌/◌, ◌%◌, ◌^◌, ◌<◌, ◌≡◌, bit_or, arith, List, [], ◌∷◌}
use firefly_zephyr.Base.Bits.{bit_or_field}
use firefly_zephyr.Base.Bytes.{slice}
use firefly_zephyr.Binary.{
  unpack_uint8, unpack_uint16, unpack_uint24, unpack_uint32, unpack_uint48, unpack_uint64,
  pack_uint8, pack_uint16, pack_uint24, pack_uint32, pack_uint48, pack_uint64,
}
use firefly_zephyr.Binary.Fields.{
  Width, uint8, uint16, uint24, uint32, uint48, uint64, limit, pack, unpack,
}

-- `high | low`, where `high` has no bit below `k`.
or_low : (k q high low : ℕ) → high ≡ q * 2 ^ k → low < 2 ^ k → bit_or high low ≡ high + low
or_low k q high low e p = rw e (bit_or_field k q low p)

or_three :
    (c b a : ℕ)
    → b < 256
    → a < 256
    → bit_or (bit_or (c * 2 ^ 16) (b * 2 ^ 8)) a ≡ c * 2 ^ 16 + b * 2 ^ 8 + a
or_three c b a p q =
    let inner = bit_or_field 16 c (b * 2 ^ 8) (omega arith) in
    rw inner (or_low 8 (c * 2 ^ 8 + b) _ a (omega arith) q)

or_four :
    (d c b a : ℕ)
    → c < 256
    → b < 256
    → a < 256
    → bit_or (bit_or (bit_or (d * 2 ^ 24) (c * 2 ^ 16)) (b * 2 ^ 8)) a
      ≡ d * 2 ^ 24 + c * 2 ^ 16 + b * 2 ^ 8 + a
or_four d c b a p q r =
    let inner = bit_or_field 24 d (c * 2 ^ 16) (omega arith) in
    let middle =
      or_low 16 (d * 2 ^ 8 + c) (d * 2 ^ 24 + c * 2 ^ 16) (b * 2 ^ 8) (omega arith) (omega arith) in
    rw (inner, middle) (or_low 8 (d * 2 ^ 16 + c * 2 ^ 8 + b) _ a (omega arith) r)

pub unpack_uint32-pack : (v : ℕ) → v < 2 ^ 32 → unpack_uint32 (pack_uint32 v) ≡ v
unfolding unpack_uint32 pack_uint32
unpack_uint32-pack v p = omega (
  arith,
  or_four (v / 2 ^ 24 % 256) (v / 2 ^ 16 % 256) (v / 2 ^ 8 % 256) (v % 256) (omega arith)
      (omega arith) (omega arith),
)

unpack_uint16-pack : (v : ℕ) → v < 2 ^ 16 → unpack_uint16 (pack_uint16 v) ≡ v
unfolding unpack_uint16 pack_uint16
unpack_uint16-pack v p = omega (arith, bit_or_field 8 (v / 2 ^ 8 % 256) (v % 256) (omega arith))

unpack_uint24-pack : (v : ℕ) → v < 2 ^ 24 → unpack_uint24 (pack_uint24 v) ≡ v
unfolding unpack_uint24 pack_uint24
unpack_uint24-pack v p =
    omega
      (arith, or_three (v / 2 ^ 16 % 256) (v / 2 ^ 8 % 256) (v % 256) (omega arith) (omega arith))

-- Bytes behind the first four do not count.
unpack_uint32-low :
    (v : ℕ) (rest : List ℕ)
    → unpack_uint32 (v % 256 ∷ v / 2 ^ 8 % 256 ∷ v / 2 ^ 16 % 256 ∷ v / 2 ^ 24 % 256 ∷ rest)
      ≡ v % 2 ^ 32
unfolding unpack_uint32
unpack_uint32-low v rest = omega (
  arith,
  or_four (v / 2 ^ 24 % 256) (v / 2 ^ 16 % 256) (v / 2 ^ 8 % 256) (v % 256) (omega arith)
      (omega arith) (omega arith),
)

unpack_uint48-pack : (v : ℕ) → v < 2 ^ 48 → unpack_uint48 (pack_uint48 v) ≡ v
unfolding unpack_uint48 pack_uint48 unpack_uint16 slice
unpack_uint48-pack v p =
    let low = unpack_uint32-low v (v / 2 ^ 32 % 256 ∷ v / 2 ^ 40 % 256 ∷ []) in
    let high = bit_or_field 8 (v / 2 ^ 40 % 256) (v / 2 ^ 32 % 256) (omega arith) in
    rw (low, high)
      (omega (
        arith,
        bit_or_field 32 (v / 2 ^ 40 % 256 * 2 ^ 8 + v / 2 ^ 32 % 256) (v % 2 ^ 32) (omega arith),
      ))

unpack_uint32-high :
    (v : ℕ)
    → unpack_uint32 (v / 2 ^ 32 % 256 ∷ v / 2 ^ 40 % 256 ∷ v / 2 ^ 48 % 256 ∷ v / 2 ^ 56 % 256 ∷ [])
      ≡ v / 2 ^ 32 % 2 ^ 32
unfolding unpack_uint32
unpack_uint32-high v = omega (
  arith,
  or_four (v / 2 ^ 56 % 256) (v / 2 ^ 48 % 256) (v / 2 ^ 40 % 256) (v / 2 ^ 32 % 256) (omega arith)
      (omega arith) (omega arith),
)

unpack_uint64-pack : (v : ℕ) → v < 2 ^ 64 → unpack_uint64 (pack_uint64 v) ≡ v
unfolding unpack_uint64 pack_uint64 slice
unpack_uint64-pack v p =
    let rest = v / 2 ^ 32 % 256 ∷ v / 2 ^ 40 % 256 ∷ v / 2 ^ 48 % 256 ∷ v / 2 ^ 56 % 256 ∷ [] in
    let low = unpack_uint32-low v rest in
    let high = unpack_uint32-high v in
    rw (low, high) (omega (arith, bit_or_field 32 (v / 2 ^ 32 % 2 ^ 32) (v % 2 ^ 32) (omega arith)))

-- At each of the six widths, a number that fits is unpacked from the bytes that it was packed
-- into.
pub unpack-pack : (w : Width) (v : ℕ) → v < limit w → unpack w (pack w v) ≡ v
unfolding unpack pack unpack_uint8 pack_uint8
unpack-pack uint8 v p = omega arith
unpack-pack uint16 v p = unpack_uint16-pack v p
unpack-pack uint24 v p = unpack_uint24-pack v p
unpack-pack uint32 v p = unpack_uint32-pack v p
unpack-pack uint48 v p = unpack_uint48-pack v p
unpack-pack uint64 v p = unpack_uint64-pack v p
