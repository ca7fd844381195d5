-- ===== src/Base/Bytes.antt =====
-- Byte buffers: runs of bytes read and written at an offset, as memcpy and array indexing do.
use Prim.Native.Nat.{ℕ, zero, suc, ◌+◌, ◌*◌, ◌≤◌, ◌<◌}
use mathlib.Core.Path.{◌≡◌, refl, ap, ap₂, ◌∙◌}
use mathlib.Core.Logic.{◌≢◌, ◌⊎◌, inl, inr}
use mathlib.Core.List.{List, [], ◌∷◌, ◌++◌}
use native.Mathlib.Nat.{add-zero}
use native.Mathlib.Omega.{arith}
use native.Mathlib.Decide.{dec_lt}
use firefly_zephyr.Base.Lists.{
  length, get_or, set, replicate, length-set, get_or-set_self, get_or-set_ne,
}

-- `buffer[i]`. A read past the end is 0; the invariants of the callers rule it out.
abbrev pub byte_at : List ℕ → ℕ → ℕ
byte_at buffer i = get_or buffer i 0

-- The `n` bytes from `offset` on.
unfoldable pub slice : List ℕ → ℕ → ℕ → List ℕ
slice buffer offset zero = []
slice buffer offset (suc n) = byte_at buffer offset ∷ slice buffer (offset + 1) n

-- `buffer` with `bytes` written from `offset` on.
unfoldable pub copy_in : List ℕ → ℕ → List ℕ → List ℕ
copy_in buffer offset [] = buffer
copy_in buffer offset (x ∷ bytes) = copy_in (set buffer offset x) (offset + 1) bytes

pub length-slice : (buffer : List ℕ) (offset n : ℕ) → length (slice buffer offset n) ≡ n
unfolding slice
length-slice buffer offset zero = refl
length-slice buffer offset (suc n) = ap suc (length-slice buffer (offset + 1) n)

pub length-copy_in :
    (buffer : List ℕ) (offset : ℕ) (bytes : List ℕ)
    → length (copy_in buffer offset bytes) ≡ length buffer
unfolding copy_in
length-copy_in buffer offset [] = refl
length-copy_in buffer offset (x ∷ bytes) =
    length-copy_in (set buffer offset x) (offset + 1) bytes ∙ length-set buffer offset x

-- A write leaves the bytes before and behind it alone.
pub byte_at-copy_in :
    (buffer : List ℕ) (offset : ℕ) (bytes : List ℕ) (j : ℕ)
    → (j < offset) ⊎ (offset + length bytes ≤ j)
    → byte_at (copy_in buffer offset bytes) j ≡ byte_at buffer j
unfolding copy_in
byte_at-copy_in buffer offset [] j h = refl
byte_at-copy_in buffer offset (x ∷ bytes) j h =
    byte_at-copy_in (set buffer offset x) (offset + 1) bytes j (omega arith)
    ∙ get_or-set_ne buffer offset j x 0 (omega arith)

pub slice_ext :
    (a b : List ℕ) (offset n : ℕ)
    → ((j : ℕ) → offset ≤ j → j < offset + n → byte_at a j ≡ byte_at b j)
    → slice a offset n ≡ slice b offset n
unfolding slice
slice_ext a b offset zero h = refl
slice_ext a b offset (suc n) h =
    ap₂ ◌∷◌ (h offset (omega arith) (omega arith))
      (slice_ext a b (offset + 1) n (λ j p q. h j (omega arith) (omega arith)))

pub slice-copy_in_outside :
    (buffer : List ℕ) (offset : ℕ) (bytes : List ℕ) (from n : ℕ)
    → (from + n ≤ offset) ⊎ (offset + length bytes ≤ from)
    → slice (copy_in buffer offset bytes) from n ≡ slice buffer from n
slice-copy_in_outside buffer offset bytes from n h =
    slice_ext _ _ from n (λ j p q. byte_at-copy_in buffer offset bytes j (omega arith))

-- What was written is read back.
pub slice-copy_in :
    (buffer : List ℕ) (offset : ℕ) (bytes : List ℕ)
    → offset + length bytes ≤ length buffer
    → slice (copy_in buffer offset bytes) offset (length bytes) ≡ bytes
unfolding slice copy_in
slice-copy_in buffer offset [] h = refl
slice-copy_in buffer offset (x ∷ bytes) h =
    ap₂ ◌∷◌
      (byte_at-copy_in (set buffer offset x) (offset + 1) bytes offset (omega arith)
        ∙ get_or-set_self buffer offset x 0 (omega arith))
      (slice-copy_in (set buffer offset x) (offset + 1) bytes
        (omega (arith, length-set buffer offset x)))

pub mul_mono : (i j n : ℕ) → i ≤ j → i * n ≤ j * n
mul_mono i j n p = grind arith

-- Two runs of one length at different multiples of it do not overlap.
pub slots_apart :
    (i j size : ℕ) → i ≢ j → (i * size + size ≤ j * size) ⊎ (j * size + size ≤ i * size)
slots_apart i j size ne = elim (dec_lt i j) [
  | yes p ↦ inl (omega (arith, mul_mono (suc i) j size p))
  | no p ↦ inr (omega (arith, mul_mono (suc j) i size (omega arith)))
]

pub byte_at-copy_in_inside :
    (buffer : List ℕ) (offset : ℕ) (bytes : List ℕ) (i j : ℕ)
    → offset + length bytes ≤ length buffer
    → i < length bytes
    → j ≡ offset + i
    → byte_at (copy_in buffer offset bytes) j ≡ byte_at bytes i
unfolding copy_in
byte_at-copy_in_inside buffer offset [] i j h p e = elim p [ ]
byte_at-copy_in_inside buffer offset (x ∷ bytes) zero j h p e =
    byte_at-copy_in (set buffer offset x) (offset + 1) bytes j (omega arith)
    ∙ ap (byte_at (set buffer offset x)) (e ∙ add-zero offset)
    ∙ get_or-set_self buffer offset x 0 (omega arith)
byte_at-copy_in_inside buffer offset (x ∷ bytes) (suc i) j h p e =
    byte_at-copy_in_inside (set buffer offset x) (offset + 1) bytes i j
      (omega (arith, length-set buffer offset x)) (omega arith) (omega arith)

pub list_ext :
    (xs ys : List ℕ)
    → length xs ≡ length ys
    → ((j : ℕ) → j < length xs → byte_at xs j ≡ byte_at ys j)
    → xs ≡ ys
list_ext [] [] e h = refl
list_ext [] (y ∷ ys) e h = absurd (omega arith)
list_ext (x ∷ xs) [] e h = absurd (omega arith)
list_ext (x ∷ xs) (y ∷ ys) e h =
    ap₂ ◌∷◌ (h 0 (omega arith)) (list_ext xs ys (omega arith) (λ j p. h (suc j) (omega arith)))

pub byte_at-replicate : (n x j : ℕ) → j < n → byte_at (replicate n x) j ≡ x
byte_at-replicate zero x j p = elim p [ ]
byte_at-replicate (suc n) x zero p = refl
byte_at-replicate (suc n) x (suc j) p = byte_at-replicate n x j (omega arith)

pub slice-cons : (x : ℕ) (bytes : List ℕ) (o n : ℕ) → slice (x ∷ bytes) (suc o) n ≡ slice bytes o n
unfolding slice
slice-cons x bytes o zero = refl
slice-cons x bytes o (suc n) =
    ap (λ t. byte_at bytes o ∷ t)
      (ap (λ m. slice (x ∷ bytes) m n) (omega arith) ∙ slice-cons x bytes (o + 1) n)

pub slice-all : (bytes : List ℕ) → slice bytes 0 (length bytes) ≡ bytes
unfolding slice
slice-all [] = refl
slice-all (x ∷ bytes) = ap (λ t. x ∷ t) (slice-cons x bytes 0 (length bytes) ∙ slice-all bytes)

pub slice-plus : (b : List ℕ) (o m n : ℕ) → slice b o (m + n) ≡ slice b o m ++ slice b (o + m) n
unfolding slice
slice-plus b o zero n =
    let e : 0 + n ≡ n = omega arith in
    let e' : o ≡ o + 0 = omega arith in ap₂ (λ i k. slice b i k) e' e
slice-plus b o (suc m) n =
    let e : suc m + n ≡ suc (m + n) = omega arith in
    let e' : o + 1 + m ≡ o + suc m = omega arith in
    ap (λ k. slice b o k) e
    ∙ ap (λ t. byte_at b o ∷ t)
        (slice-plus b (o + 1) m n ∙ ap (λ i. slice b (o + 1) m ++ slice b i n) e')
