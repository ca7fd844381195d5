-- ===== src/Boot/Blanking.antt =====
-- Which bytes of a block `fd_boot_check_hash` takes as zero.
use firefly_zephyr.Base.{ℕ, ◌+◌, ◌-◌, ◌*◌, ◌%◌, ◌^◌, ◌≤◌, ◌<◌, ◌≡◌, ◌⊎◌, inl, inr, arith}
use native.Mathlib.Decide.{dec_le}
use firefly_zephyr.Boot.Types.{Range}
use firefly_zephyr.Boot.Hash.{blank_block, block_length}
use firefly_zephyr.Boot.Image.{bytes_of, blank, copy_in-blank, bytes_of-blank_apart}

-- Where the hash's bytes may stand: in one block of those read from `start` on, and wholly inside
-- or wholly behind what is read.
pub record IsPlaced (z : Range) (start end : ℕ) : Type 0 where
  pub block : ℕ
  pub above : start + 64 * block ≤ z.location
  pub below : z.location + z.length ≤ start + 64 * block + 64
  pub small : z.location + z.length < 2 ^ 32
  pub whole : (z.location + z.length ≤ end) ⊎ (end ≤ start + 64 * block)

pub block_length_lem :
    (location end : ℕ)
    → location < end
    → end < 2 ^ 32
    → (block_length 64 location end ≡ end - location) × (block_length 64 location end ≤ 64)
      ⊎ (block_length 64 location end ≡ 64) × (64 < end - location)
unfolding block_length
block_length_lem location end p q = ground arith

-- One block, with the bytes of the hash blanked.
pub blank_block_lem :
    (f : ℕ → ℕ) (z : Range) (start end round n : ℕ)
    → IsPlaced z start end
    → end < 2 ^ 32
    → start + 64 * round < end
    → ((n ≡ end - (start + 64 * round)) × (n ≤ 64)) ⊎ ((n ≡ 64) × (64 < end - (start + 64 * round)))
    → blank_block z (start + 64 * round) n (bytes_of f (start + 64 * round) n)
      ≡ bytes_of (blank z f) (start + 64 * round) n
unfolding blank_block
blank_block_lem f z start end round n placed small inside len = elim (dec_le l z.location) [
  | yes p ↦ elim (dec_le (z.location + z.length) (l + n)) [
    | yes q ↦ ground (arith, copy_in-blank f z l n p q, fits)
    | no q ↦ ground (arith, fits, apart_above p q)
  ]
  | no p ↦ ground (arith, fits, apart_below p)
]
  where
    l : ℕ
    l = start + 64 * round

    fits : ((z.location + z.length) % 2 ^ 32 ≡ z.location + z.length) × ((l + n) % 2 ^ 32 ≡ l + n)
    fits = omega arith

    apart_above :
        l ≤ z.location
        → ¬ (z.location + z.length ≤ l + n)
        → bytes_of (blank z f) l n ≡ bytes_of f l n
    apart_above p q = bytes_of-blank_apart f z l n (inr (omega arith))

    apart_below : ¬ (l ≤ z.location) → bytes_of (blank z f) l n ≡ bytes_of f l n
    apart_below p = bytes_of-blank_apart f z l n (inl (omega arith))

-- The bytes in `z` are blanked, and no others, in each block from `start` on.
abbrev pub Blanks : (ℕ → ℕ) → Range → ℕ → ℕ → Type 0
Blanks f z start end =
    (round n : ℕ)
    → end < 2 ^ 32
    → start + 64 * round < end
    → ((n ≡ end - (start + 64 * round)) × (n ≤ 64)) ⊎ ((n ≡ 64) × (64 < end - (start + 64 * round)))
    → blank_block z (start + 64 * round) n (bytes_of f (start + 64 * round) n)
      ≡ bytes_of (blank z f) (start + 64 * round) n

-- Where `z` is in front of all that is read, nothing is blanked.
pub in_front-Blanks :
    (f : ℕ → ℕ) (z : Range) (start end : ℕ)
    → z.location < start
    → z.location + z.length ≤ start
    → Blanks f z start end
unfolding blank_block
in_front-Blanks f z start end p q round n small inside len =
    let l = start + 64 * round in
    let apart : bytes_of (blank z f) l n ≡ bytes_of f l n =
      bytes_of-blank_apart f z l n (inl (omega arith)) in
    ground (arith, apart, p)
