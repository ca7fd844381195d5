-- ===== src/Boot/Image.antt =====
-- The bytes that `fd_boot_check_hash` hands to the hash, described on the whole memory.
use firefly_zephyr.Base.{
  ℕ, zero, suc, ◌+◌, ◌-◌, ◌≤◌, ◌<◌, ◌≡◌, refl, ap, ap₂, ◌∙◌, sym, ◌⊎◌, inl, inr, List, [], ◌∷◌,
  ◌++◌, arith, length, replicate, length-replicate, ltb, leb, ◌&&◌, if◌then◌else◌,
}
use firefly_zephyr.Base.Bytes.{byte_at, copy_in, length-copy_in, byte_at-copy_in}
use firefly_zephyr.Base.Bytes.{byte_at-copy_in_inside, list_ext, byte_at-replicate}
use native.Mathlib.Decide.{dec_lt}
use firefly_zephyr.Boot.Types.{Range}

-- The `n` bytes from `location` on.
unfoldable pub bytes_of : (ℕ → ℕ) → ℕ → ℕ → List ℕ
bytes_of memory location zero = []
bytes_of memory location (suc n) = memory location ∷ bytes_of memory (location + 1) n

-- The memory with the range read as zero.
unfoldable pub blank : Range → (ℕ → ℕ) → ℕ → ℕ
blank range memory a =
    if leb range.location a && ltb a (range.location + range.length) then 0 else memory a

pub length-bytes_of : (f : ℕ → ℕ) (l n : ℕ) → length (bytes_of f l n) ≡ n
unfolding bytes_of
length-bytes_of f l zero = refl
length-bytes_of f l (suc n) = ap suc (length-bytes_of f (l + 1) n)

pub byte_at-bytes_of : (f : ℕ → ℕ) (l n j : ℕ) → j < n → byte_at (bytes_of f l n) j ≡ f (l + j)
unfolding bytes_of
byte_at-bytes_of f l zero j p = elim p [ ]
byte_at-bytes_of f l (suc n) zero p = ap f (omega arith)
byte_at-bytes_of f l (suc n) (suc j) p =
    byte_at-bytes_of f (l + 1) n j (omega arith) ∙ ap f (omega arith)

pub bytes_of-add :
    (f : ℕ → ℕ) (l a b c : ℕ) → a + b ≡ c → bytes_of f l c ≡ bytes_of f l a ++ bytes_of f (l + a) b
unfolding bytes_of
bytes_of-add f l zero b c e = ap₂ (bytes_of f) (omega arith) (omega arith)
bytes_of-add f l (suc a) b zero e = absurd (omega arith)
bytes_of-add f l (suc a) b (suc c) e =
    ap (λ t. f l ∷ t)
      (bytes_of-add f (l + 1) a b c (omega arith)
        ∙ ap (λ t. bytes_of f (l + 1) a ++ bytes_of f t b) (omega arith))

pub bytes_of_ext :
    (f g : ℕ → ℕ) (l n : ℕ)
    → ((j : ℕ) → j < n → f (l + j) ≡ g (l + j))
    → bytes_of f l n ≡ bytes_of g l n
bytes_of_ext f g l n h = list_ext _ _ (length-bytes_of f l n ∙ sym (length-bytes_of g l n)) (λ j p.
    let q : j < n = omega (arith, length-bytes_of f l n) in
    byte_at-bytes_of f l n j q ∙ h j q ∙ sym (byte_at-bytes_of g l n j q))

-- A block that holds the whole range, and one that it does not touch.
pub copy_in-blank :
    (f : ℕ → ℕ) (z : Range) (l n : ℕ)
    → l ≤ z.location
    → z.location + z.length ≤ l + n
    → copy_in (bytes_of f l n) (z.location - l) (replicate z.length 0) ≡ bytes_of (blank z f) l n
unfolding blank
copy_in-blank f z l n p q =
    list_ext _ _
      (length-copy_in image o zeros ∙ length-bytes_of f l n ∙ sym (length-bytes_of _ l n))
      (λ j r. at j (omega (arith, r, length-copy_in image o zeros, length-bytes_of f l n)))
  where
    o : ℕ
    o = z.location - l

    image : List ℕ
    image = bytes_of f l n

    zeros : List ℕ
    zeros = replicate z.length 0

    inside : (j : ℕ) → o ≤ j → j < o + z.length → byte_at (copy_in image o zeros) j ≡ 0
    inside j a b =
        byte_at-copy_in_inside image o zeros (j - o) j
          (omega (arith, length-replicate {A = ℕ} z.length 0, length-bytes_of f l n))
          (omega (arith, length-replicate {A = ℕ} z.length 0)) (omega arith)
        ∙ byte_at-replicate z.length 0 (j - o) (omega arith)

    outside :
        (j : ℕ)
        → j < n
        → (j < o) ⊎ (o + z.length ≤ j)
        → byte_at (copy_in image o zeros) j ≡ f (l + j)
    outside j r h =
        byte_at-copy_in image o zeros j (omega (arith, h, length-replicate {A = ℕ} z.length 0))
        ∙ byte_at-bytes_of f l n j r

    at : (j : ℕ) → j < n → byte_at (copy_in image o zeros) j ≡ byte_at (bytes_of (blank z f) l n) j
    at j r = elim (dec_lt j o) [
      | yes a ↦ outside j r (inl a) ∙ sym (byte_at-bytes_of (blank z f) l n j r ∙ ground arith)
      | no a ↦ elim (dec_lt j (o + z.length)) [
        | yes b ↦
            inside j (omega arith) b ∙ sym (byte_at-bytes_of (blank z f) l n j r ∙ ground arith)
        | no b ↦
            outside j r (inr (omega arith))
            ∙ sym (byte_at-bytes_of (blank z f) l n j r ∙ ground arith)
      ]
    ]

pub bytes_of-blank_apart :
    (f : ℕ → ℕ) (z : Range) (l n : ℕ)
    → (z.location + z.length ≤ l) ⊎ (l + n ≤ z.location)
    → bytes_of (blank z f) l n ≡ bytes_of f l n
unfolding blank
bytes_of-blank_apart f z l n h = bytes_of_ext _ f l n (λ j p. ground arith)
