-- ===== src/Base/Bits.antt =====
-- `|` of a field and the bits below it, and `&` with a mask of low bits, as arithmetic.
use Prim.Native.Nat.{ℕ, zero, suc, ◌+◌, ◌-◌, ◌*◌, ◌/◌, ◌%◌, ◌^◌, ◌≤◌, ◌<◌, min, max}
use Prim.Native.Nat.{bit_and, bit_or, digits, bit_and-bitwise, bit_or-bitwise}
use mathlib.Core.Path.{◌≡◌, refl, ap}
use native.Mathlib.Nat.{pow-suc, one-le-pow}
use native.Mathlib.Omega.{arith}

abbrev or_digits : ℕ → ℕ → ℕ → ℕ
or_digits = digits (λ b. b) max

abbrev and_digits : ℕ → ℕ → ℕ → ℕ
and_digits = digits (λ b. 0) min

run_out : (z : ℕ → ℕ) (f : ℕ → ℕ → ℕ) (n b : ℕ) → digits z f n 0 b ≡ z b
run_out z f zero b = refl
run_out z f (suc n) b = refl

halve_field : (q k : ℕ) → q * 2 ^ suc k ≡ 2 * (q * 2 ^ k)
halve_field q k = omega (arith, ap (λ (t : ℕ). q * t) (pow-suc 2 k))

-- The field stands at bit `k`, and `low` has no bit there or above.
or_digits_apart :
    (n k q high low : ℕ)
    → high ≤ n
    → high ≡ q * 2 ^ k
    → low < 2 ^ k
    → or_digits n high low ≡ high + low
or_digits_apart n k q zero low h e p = omega (arith, run_out (λ b. b) max n low)
or_digits_apart zero k q (suc high) low h e p = absurd (omega arith)
or_digits_apart (suc n) zero q (suc high) low h e p = omega (
  arith,
  or_digits_apart n zero (suc high / 2) (suc high / 2) (low / 2) (omega arith) (omega arith)
      (omega arith),
)
or_digits_apart (suc n) (suc k) q (suc high) low h e p = omega (
  arith,
  halve_field q k,
  pow-suc 2 k,
  or_digits_apart n k q (suc high / 2) (low / 2) (omega arith) (omega (arith, halve_field q k))
      (omega (arith, pow-suc 2 k)),
)

-- `(q << k) | low` is a sum when `low` fits `k` bits.
pub bit_or_field : (k q low : ℕ) → low < 2 ^ k → bit_or (q * 2 ^ k) low ≡ q * 2 ^ k + low
bit_or_field k q low p = omega (
  arith,
  bit_or-bitwise (q * 2 ^ k) low,
  or_digits_apart (q * 2 ^ k) k q (q * 2 ^ k) low (omega arith) refl p,
)

and_digits_mask :
    (n k q a low : ℕ) → a ≤ n → a ≡ q * 2 ^ k + low → low < 2 ^ k → and_digits n a (2 ^ k - 1) ≡ low
and_digits_mask n k q zero low h e p = omega (arith, run_out (λ b. 0) min n (2 ^ k - 1))
and_digits_mask zero k q (suc a) low h e p = absurd (omega arith)
and_digits_mask (suc n) zero q (suc a) low h e p = ground (
  arith,
  and_digits_mask n zero (suc a / 2) (suc a / 2) 0 (omega arith) (omega arith) (omega arith),
)
and_digits_mask (suc n) (suc k) q (suc a) low h e p =
    let half : (2 ^ suc k - 1) / 2 ≡ 2 ^ k - 1 = omega (arith, pow-suc 2 k) in
    ground (
      arith,
      halve_field q k,
      pow-suc 2 k,
      one-le-pow k 2,
      half,
      ap (λ (t : ℕ). and_digits n (suc a / 2) t) half,
      and_digits_mask n k q (suc a / 2) (low / 2) (omega arith) (omega (arith, halve_field q k))
          (omega (arith, pow-suc 2 k)),
    )

-- A mask of `k` low bits is the remainder by `2 ^ k`.
pub bit_and_low : (k a : ℕ) → bit_and a (2 ^ k - 1) ≡ a % 2 ^ k
bit_and_low k a = omega (
  arith,
  bit_and-bitwise a (2 ^ k - 1),
  and_digits_mask a k (a / 2 ^ k) a (a % 2 ^ k) (omega arith) (omega (arith, one-le-pow k 2))
      (omega (arith, one-le-pow k 2)),
)

and_digits_apart : (n k q a b : ℕ) → a < 2 ^ k → b ≡ q * 2 ^ k → and_digits n a b ≡ 0
and_digits_apart zero k q a b p e = refl
and_digits_apart (suc n) k q zero b p e = refl
and_digits_apart (suc n) zero q (suc a) b p e = absurd (omega arith)
and_digits_apart (suc n) (suc k) q (suc a) b p e = ground (
  arith,
  halve_field q k,
  pow-suc 2 k,
  and_digits_apart n k q (suc a / 2) (b / 2) (omega (arith, pow-suc 2 k))
      (omega (arith, halve_field q k)),
)

-- A number below bit `k` shares no bit with a field at `k`.
pub bit_and_apart : (k q a : ℕ) → a < 2 ^ k → bit_and a (q * 2 ^ k) ≡ 0
bit_and_apart k q a p =
    omega (arith, bit_and-bitwise a (q * 2 ^ k), and_digits_apart a k q a (q * 2 ^ k) p refl)

and_digits_even : (n a : ℕ) → a ≤ n → a < 2 ^ 31 → and_digits n a (2 ^ 31 - 2) ≡ a / 2 * 2
and_digits_even n zero p h = omega (arith, run_out (λ b. 0) min n (2 ^ 31 - 2))
and_digits_even zero (suc a) p h = absurd (omega arith)
and_digits_even (suc n) (suc a) p h = omega (
  arith,
  and_digits_mask n 30 0 (suc a / 2) (suc a / 2) (omega arith) (omega arith) (omega arith),
)

and_digits_words : (n a : ℕ) → a ≤ n → a < 2 ^ 32 → and_digits n a (2 ^ 32 - 4) ≡ a / 4 * 4
and_digits_words n zero p h = omega (arith, run_out (λ b. 0) min n (2 ^ 32 - 4))
and_digits_words zero (suc a) p h = absurd (omega arith)
and_digits_words (suc n) (suc a) p h =
    omega (arith, and_digits_even n (suc a / 2) (omega arith) (omega arith))

-- A mask of all but the two low bits cuts to whole words.
pub bit_and_words : (a : ℕ) → a < 2 ^ 32 → bit_and a (2 ^ 32 - 4) ≡ a / 4 * 4
bit_and_words a h =
    omega (arith, bit_and-bitwise a (2 ^ 32 - 4), and_digits_words a a (omega arith) h)
