-- ===== src/Binary.antt =====
-- subsys/base/src/fd_binary.c: numbers packed into a buffer and read back, little endian. A pointer
-- into the buffer is an offset. The values of C's integer types are numbers below 2 ^ width.
pub mod Fields
pub mod RoundTrip
pub mod Script
mod Tests
use firefly_zephyr.Base.{
  ℕ, ◌+◌, ◌*◌, ◌/◌, ◌%◌, ◌^◌, Bool, true, false, List, [], ◌∷◌, ◌++◌, leb, if◌then◌else◌, replicate,
  bit_or, length,
}
use firefly_zephyr.Base.Bytes.{byte_at, slice, copy_in}
use firefly_zephyr.Base.Words.{add32, sub32}

-- `fd_binary_t`
pub record Binary : Type 0 where
  pub buffer : List ℕ
  pub size : ℕ
  pub put_index : ℕ
  pub get_index : ℕ
  pub errors : ℕ

abbrev pub error_underflow : ℕ
error_underflow = 1

abbrev pub error_overflow : ℕ
error_overflow = 8

-- The bytes are those that the pointer points to.
unfoldable pub unpack_uint8 : List ℕ → ℕ
unpack_uint8 bytes = byte_at bytes 0

unfoldable pub unpack_uint16 : List ℕ → ℕ
unpack_uint16 bytes = bit_or (byte_at bytes 1 * 2 ^ 8) (byte_at bytes 0)

unfoldable pub unpack_uint24 : List ℕ → ℕ
unpack_uint24 bytes =
    bit_or (bit_or (byte_at bytes 2 * 2 ^ 16) (byte_at bytes 1 * 2 ^ 8)) (byte_at bytes 0)

unfoldable pub unpack_uint32 : List ℕ → ℕ
unpack_uint32 bytes =
    bit_or
      (bit_or (bit_or (byte_at bytes 3 * 2 ^ 24) (byte_at bytes 2 * 2 ^ 16))
        (byte_at bytes 1 * 2 ^ 8))
      (byte_at bytes 0)

unfoldable pub unpack_uint48 : List ℕ → ℕ
unfolding unpack_uint32 unpack_uint16
unpack_uint48 bytes =
    let lo = unpack_uint32 bytes in
    let hi = unpack_uint16 (slice bytes 4 2) in bit_or (hi * 2 ^ 32) lo

unfoldable pub unpack_uint64 : List ℕ → ℕ
unfolding unpack_uint32
unpack_uint64 bytes =
    let lo = unpack_uint32 bytes in
    let hi = unpack_uint32 (slice bytes 4 4) in bit_or (hi * 2 ^ 32) lo

-- The bytes that are written, lowest first. A value stored in a byte loses its upper bits.
unfoldable pub pack_uint8 : ℕ → List ℕ
pack_uint8 value = value % 256 ∷ []

unfoldable pub pack_uint16 : ℕ → List ℕ
pack_uint16 value = value % 256 ∷ value / 2 ^ 8 % 256 ∷ []

unfoldable pub pack_uint24 : ℕ → List ℕ
pack_uint24 value = value % 256 ∷ value / 2 ^ 8 % 256 ∷ value / 2 ^ 16 % 256 ∷ []

unfoldable pub pack_uint32 : ℕ → List ℕ
pack_uint32 value =
    value % 256 ∷ value / 2 ^ 8 % 256 ∷ value / 2 ^ 16 % 256 ∷ value / 2 ^ 24 % 256 ∷ []

unfoldable pub pack_uint48 : ℕ → List ℕ
pack_uint48 value =
    value % 256
    ∷ value / 2 ^ 8 % 256
    ∷ value / 2 ^ 16 % 256
    ∷ value / 2 ^ 24 % 256
    ∷ value / 2 ^ 32 % 256
    ∷ value / 2 ^ 40 % 256
    ∷ []

unfoldable pub pack_uint64 : ℕ → List ℕ
pack_uint64 value =
    value % 256
    ∷ value / 2 ^ 8 % 256
    ∷ value / 2 ^ 16 % 256
    ∷ value / 2 ^ 24 % 256
    ∷ value / 2 ^ 32 % 256
    ∷ value / 2 ^ 40 % 256
    ∷ value / 2 ^ 48 % 256
    ∷ value / 2 ^ 56 % 256
    ∷ []

unfoldable pub initialize : List ℕ → ℕ → Binary
initialize buffer size = record {
  buffer = buffer;
  size = size;
  put_index = 0;
  get_index = 0;
  errors = 0;
}

unfoldable pub reset : Binary → Binary
reset b = record b { put_index = 0; get_index = 0; errors = 0 }

unfoldable pub remaining_length : Binary → ℕ
remaining_length b = sub32 b.size b.put_index

unfoldable pub get_check : Binary → ℕ → Bool × Binary
get_check b length =
    if leb (add32 b.get_index length) b.size
    then (true, b)
    else (false, record b { errors = bit_or b.errors error_underflow })

unfoldable pub put_check : Binary → ℕ → Bool × Binary
put_check b length =
    if leb (add32 b.put_index length) b.size
    then (true, b)
    else (false, record b { errors = bit_or b.errors error_overflow })

abbrev advance_get : Bool × Binary → ℕ → List ℕ × Binary
advance_get (true, b) length =
    (slice b.buffer b.get_index length, record b { get_index = add32 b.get_index length })
advance_get (false, b) length = (replicate length 0, b)

-- The bytes that are read, zeroes when too few are left.
unfoldable pub get_bytes : Binary → ℕ → List ℕ × Binary
unfolding get_check
get_bytes b length = advance_get (get_check b length) length

abbrev advance_put : Bool × Binary → List ℕ → Binary
advance_put (true, b) bytes = record b {
  buffer = copy_in b.buffer b.put_index bytes;
  put_index = add32 b.put_index (length bytes);
}
advance_put (false, b) bytes = b

unfoldable pub put_bytes : Binary → List ℕ → Binary
unfolding put_check
put_bytes b bytes = advance_put (put_check b (length bytes)) bytes

abbrev advance_value : Bool × Binary → ℕ → (List ℕ → ℕ) → ℕ × Binary
advance_value (true, b) length unpack =
    (unpack (slice b.buffer b.get_index length), record b { get_index = add32 b.get_index length })
advance_value (false, b) length unpack = (0, b)

unfoldable pub get_uint8 : Binary → ℕ × Binary
unfolding get_check unpack_uint8
get_uint8 b = advance_value (get_check b 1) 1 unpack_uint8

unfoldable pub get_uint16 : Binary → ℕ × Binary
unfolding get_check unpack_uint16
get_uint16 b = advance_value (get_check b 2) 2 unpack_uint16

unfoldable pub get_uint24 : Binary → ℕ × Binary
unfolding get_check unpack_uint24
get_uint24 b = advance_value (get_check b 3) 3 unpack_uint24

unfoldable pub get_uint32 : Binary → ℕ × Binary
unfolding get_check unpack_uint32
get_uint32 b = advance_value (get_check b 4) 4 unpack_uint32

unfoldable pub get_uint48 : Binary → ℕ × Binary
unfolding get_check unpack_uint48
get_uint48 b = advance_value (get_check b 6) 6 unpack_uint48

unfoldable pub get_uint64 : Binary → ℕ × Binary
unfolding get_check unpack_uint64
get_uint64 b = advance_value (get_check b 8) 8 unpack_uint64

unfoldable pub put_uint8 : Binary → ℕ → Binary
unfolding put_check pack_uint8
put_uint8 b value = advance_put (put_check b 1) (pack_uint8 value)

unfoldable pub put_uint16 : Binary → ℕ → Binary
unfolding put_check pack_uint16
put_uint16 b value = advance_put (put_check b 2) (pack_uint16 value)

unfoldable pub put_uint24 : Binary → ℕ → Binary
unfolding put_check pack_uint24
put_uint24 b value = advance_put (put_check b 3) (pack_uint24 value)

unfoldable pub put_uint32 : Binary → ℕ → Binary
unfolding put_check pack_uint32
put_uint32 b value = advance_put (put_check b 4) (pack_uint32 value)

-- The check is for the 8 bytes of the C type, and 6 are written.
unfoldable pub put_uint48 : Binary → ℕ → Binary
unfolding put_check pack_uint48
put_uint48 b value = advance_put (put_check b 8) (pack_uint48 value)

unfoldable pub put_uint64 : Binary → ℕ → Binary
unfolding put_check pack_uint64
put_uint64 b value = advance_put (put_check b 8) (pack_uint64 value)
