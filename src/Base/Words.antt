-- ===== src/Base/Words.antt =====
-- `uint32_t` arithmetic: native numbers, with `+` and `-` modulo 2 ^ 32 as in C, and the
-- little-endian value of the bytes of a packed field.
use Prim.Native.Nat.{ℕ, ◌+◌, ◌-◌, ◌*◌, ◌%◌, ◌^◌, ◌<◌}
use mathlib.Core.Bool.{Bool, true, false, ◌&&◌}
use mathlib.Core.Path.{◌≡◌, refl}
use mathlib.Core.List.{List, [], ◌∷◌}
use native.Mathlib.Omega.{arith}
use firefly_zephyr.Base.Tests.{◌==◌}
use firefly_zephyr.Base.Bytes.{byte_at}

abbrev pub add32 : ℕ → ℕ → ℕ
add32 a b = (a + b) % 2 ^ 32

abbrev pub sub32 : ℕ → ℕ → ℕ
sub32 a b = (a + 2 ^ 32 - b) % 2 ^ 32

-- A `uint32_t` field at an offset of a packed structure, little endian.
unfoldable pub uint32_at : List ℕ → ℕ → ℕ
uint32_at bytes o =
    (byte_at bytes o
      + 256 * byte_at bytes (o + 1)
      + 65536 * byte_at bytes (o + 2)
      + 16777216 * byte_at bytes (o + 3))
    % 2 ^ 32

pub uint32_at-lt : (bytes : List ℕ) (o : ℕ) → uint32_at bytes o < 2 ^ 32
unfolding uint32_at
uint32_at-lt bytes o = omega arith

-- `memcmp(a, b, n) == 0` for runs of one length.
unfoldable pub bytes_eq : List ℕ → List ℕ → Bool
bytes_eq [] [] = true
bytes_eq [] (y ∷ ys) = false
bytes_eq (x ∷ xs) [] = false
bytes_eq (x ∷ xs) (y ∷ ys) = x == y && bytes_eq xs ys

pub bytes_eq→eq : (xs ys : List ℕ) → bytes_eq xs ys ≡ true → xs ≡ ys
unfolding bytes_eq
bytes_eq→eq [] [] h = refl
bytes_eq→eq [] (y ∷ ys) h = cc
bytes_eq→eq (x ∷ xs) [] h = cc
bytes_eq→eq (x ∷ xs) (y ∷ ys) h = ground (arith, bytes_eq→eq xs ys)

pub bytes_eq_self : (xs : List ℕ) → bytes_eq xs xs ≡ true
unfolding bytes_eq
bytes_eq_self [] = refl
bytes_eq_self (x ∷ xs) = ground (arith, bytes_eq_self xs)
