-- ===== src/Boot/Hash.antt =====
-- `fd_boot_is_valid_subrange` and `fd_boot_check_hash`.
use firefly_zephyr.Base.{ℕ, zero, suc, ◌-◌, Bool, List, ◌&&◌, ltb, leb, if◌then◌else◌, replicate}
use firefly_zephyr.Base.Bytes.{copy_in}
use firefly_zephyr.Base.Words.{add32, sub32, bytes_eq}
use firefly_zephyr.Boot.Types.{Range, hash_block_size}
use firefly_zephyr.Boot.Interface.{M, Interface, Reader, pure, ◌>>=◌, ◌>>◌, require, act}

-- The sums wrap, as `uint32_t` sums do.
unfoldable pub is_valid_subrange : Range → Range → Bool
is_valid_subrange range subrange =
    leb range.location subrange.location
    && leb (add32 subrange.location subrange.length) (add32 range.location range.length)

-- `memset(&data[zero.location - location], 0, zero.length)`, if all of it lies in the block.
unfoldable pub blank_block : Range → ℕ → ℕ → List ℕ → List ℕ
blank_block zero_range location length bytes =
    if leb location zero_range.location
      && leb (add32 zero_range.location zero_range.length) (add32 location length)
    then copy_in bytes (zero_range.location - location) (replicate zero_range.length 0)
    else bytes

-- The length of the block read at `location`.
unfoldable pub block_length : ℕ → ℕ → ℕ → ℕ
block_length block location end =
    let rest = sub32 end location in if ltb block rest then block else rest

module _ {W C : Type 0} (interface : Interface W) (reader : Reader W C) where
  -- `while (location < end)`. Each round moves `location` on, so `end - location` rounds are enough.
  unfoldable pub hash_loop : ℕ → Range → ℕ → ℕ → C → List ℕ → M W (C × List ℕ)
  hash_loop zero zero_range end location context hash_context = pure (context, hash_context)
  hash_loop (suc fuel) zero_range end location context hash_context =
      if ltb location end
      then (do
        act interface.feed
        let length = block_length hash_block_size location end
        (context', bytes) ← reader context location length
        hash_context' ←
            interface.hash_update hash_context (blank_block zero_range location length bytes)
        hash_loop fuel zero_range end (add32 location length) context' hash_context')
      else pure (context, hash_context)

  -- The Boolean is `result->is_valid`; the one issue of `*result` is a mismatch.
  unfoldable pub check_hash : C → Range → Range → Range → List ℕ → M W (C × Bool)
  check_hash context storage_range range zero_range hash = do
    require (is_valid_subrange storage_range range)
    hash_context ← interface.hash_initialize
    let end = add32 range.location range.length
    (context', hash_context') ←
        hash_loop (end - range.location) zero_range end range.location context hash_context
    actual_hash ← interface.hash_finalize hash_context'
    pure (context', bytes_eq actual_hash hash)
