-- ===== src/Binary/Fields.antt =====
-- A sequence of numbers, each of one of the widths of fd_binary.c, as a client writes and reads it.
use firefly_zephyr.Base.{ℕ, ◌+◌, ◌^◌, ◌<◌, List, [], ◌∷◌}
use firefly_zephyr.Binary.{
  Binary, get_uint8, get_uint16, get_uint24, get_uint32, get_uint48, get_uint64, put_uint8,
  put_uint16, put_uint24, put_uint32, put_uint48, put_uint64, pack_uint8, pack_uint16, pack_uint24,
  pack_uint32, pack_uint48, pack_uint64, unpack_uint8, unpack_uint16, unpack_uint24, unpack_uint32,
  unpack_uint48, unpack_uint64,
}

pub data Width : Type 0 where
  uint8 uint16 uint24 uint32 uint48 uint64 : Width

-- How many bytes a number takes.
abbrev pub bytes : Width → ℕ
bytes uint8 = 1
bytes uint16 = 2
bytes uint24 = 3
bytes uint32 = 4
bytes uint48 = 6
bytes uint64 = 8

-- How many of them `put` wants to find free.
abbrev pub wanted : Width → ℕ
wanted uint8 = 1
wanted uint16 = 2
wanted uint24 = 3
wanted uint32 = 4
wanted uint48 = 8
wanted uint64 = 8

abbrev pub limit : Width → ℕ
limit uint8 = 2 ^ 8
limit uint16 = 2 ^ 16
limit uint24 = 2 ^ 24
limit uint32 = 2 ^ 32
limit uint48 = 2 ^ 48
limit uint64 = 2 ^ 64

pub record Field : Type 0 where
  pub width : Width
  pub value : ℕ

unfoldable pub put : Binary → Width → ℕ → Binary
unfolding put_uint8 put_uint16 put_uint24 put_uint32 put_uint48 put_uint64
put b uint8 value = put_uint8 b value
put b uint16 value = put_uint16 b value
put b uint24 value = put_uint24 b value
put b uint32 value = put_uint32 b value
put b uint48 value = put_uint48 b value
put b uint64 value = put_uint64 b value

unfoldable pub get : Binary → Width → ℕ × Binary
unfolding get_uint8 get_uint16 get_uint24 get_uint32 get_uint48 get_uint64
get b uint8 = get_uint8 b
get b uint16 = get_uint16 b
get b uint24 = get_uint24 b
get b uint32 = get_uint32 b
get b uint48 = get_uint48 b
get b uint64 = get_uint64 b

unfoldable pub pack : Width → ℕ → List ℕ
unfolding pack_uint8 pack_uint16 pack_uint24 pack_uint32 pack_uint48 pack_uint64
pack uint8 value = pack_uint8 value
pack uint16 value = pack_uint16 value
pack uint24 value = pack_uint24 value
pack uint32 value = pack_uint32 value
pack uint48 value = pack_uint48 value
pack uint64 value = pack_uint64 value

unfoldable pub unpack : Width → List ℕ → ℕ
unfolding unpack_uint8 unpack_uint16 unpack_uint24 unpack_uint32 unpack_uint48 unpack_uint64
unpack uint8 xs = unpack_uint8 xs
unpack uint16 xs = unpack_uint16 xs
unpack uint24 xs = unpack_uint24 xs
unpack uint32 xs = unpack_uint32 xs
unpack uint48 xs = unpack_uint48 xs
unpack uint64 xs = unpack_uint64 xs

unfoldable pub put_all : Binary → List Field → Binary
unfolding put
put_all b [] = b
put_all b (f ∷ fields) = put_all (put b f.width f.value) fields

unfoldable pub get_all : Binary → List Field → List ℕ × Binary
unfolding get
get_all b [] = ([], b)
get_all b (f ∷ fields) =
    let (value, b') = get b f.width in
    let (values, b'') = get_all b' fields in (value ∷ values, b'')

abbrev pub total : List Field → ℕ
total [] = 0
total (f ∷ fields) = bytes f.width + total fields

abbrev pub values : List Field → List ℕ
values [] = []
values (f ∷ fields) = f.value ∷ values fields

-- Each value fits its width.
abbrev pub Fits : List Field → Type 0
Fits [] = Unit
Fits (f ∷ fields) = (f.value < limit f.width) × Fits fields
