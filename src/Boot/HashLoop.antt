-- ===== src/Boot/HashLoop.antt =====
-- `fd_boot_check_hash` hashes exactly the range, with the hash's own bytes taken as zero.
use firefly_zephyr.Base.{
  ℕ, zero, suc, ◌+◌, ◌-◌, ◌*◌, ◌^◌, ◌≤◌, ◌<◌, ◌≡◌, refl, ◌∙◌, ◌⊎◌, ◌↔◌, inl, inr, List, [], ◌++◌,
  append_assoc, append-nil, arith, ltb, Bool, true, false, ltb→lt,
}
use firefly_zephyr.Base.Words.{add32, bytes_eq, bytes_eq→eq, bytes_eq_self}
use firefly_zephyr.Boot.Types.{Range}
use firefly_zephyr.Boot.Interface.{Interface, Reader, pure, act, require}
use firefly_zephyr.Boot.Hash.{is_valid_subrange, blank_block, block_length, hash_loop, check_hash}
use firefly_zephyr.Boot.Image.{bytes_of, blank, bytes_of-add}
use firefly_zephyr.Boot.Blanking.{IsPlaced, Blanks, block_length_lem, blank_block_lem}
use firefly_zephyr.Boot.Triple.{
  Triple, Triple-bind, Triple-pure, Triple-if, Triple_mono, Triple_given,
}
use firefly_zephyr.Boot.Contract.{Memory, Contract, IsSound, Holds, Hashing}

module _ {W C : Type 0} {interface : Interface W} (c : Contract interface) (mem : Memory)
    (image : ℕ → ℕ) (reader : Reader W C) where
  -- The reader reads `image`, and does nothing else.
  abbrev pub ReadsImage : Type 0
  ReadsImage =
      (context : C) (hash_context s : List ℕ) (location length : ℕ)
      → Triple (Hashing c mem hash_context s) (reader context location length)
          (λ x m. (x.1 ≡ bytes_of image location length) × Hashing c mem hash_context s m)
          (Holds c mem)

module _ {W C : Type 0} {interface : Interface W} (c : Contract interface) (sound : IsSound c)
    (mem : Memory) (image : ℕ → ℕ) (reader : Reader W C) where
  module _ (reads : ReadsImage c mem image reader) (z : Range) (start end : ℕ)
      (blanks : Blanks image z start end) (small : end < 2 ^ 32) where
    abbrev pub hashed_from : ℕ → List ℕ
    hashed_from location = bytes_of (blank z image) location (end - location)

    -- The loop stands at a block's start, or at the end.
    abbrev pub IsAt : ℕ → ℕ → Type 0
    IsAt round location = (location ≡ start + 64 * round) ⊎ (location ≡ end)

    next-IsAt :
        (round location : ℕ)
        → location < end
        → IsAt round location
        → let n = block_length 64 location end in
          IsAt (round + 1) (add32 location n)
          × (add32 location n ≡ location + n)
          × (n + (end - (location + n)) ≡ end - location)
          × (0 < n)
    next-IsAt round location p at = ground (arith, block_length_lem location end p small)

    blanked :
        (round location : ℕ)
        → location < end
        → IsAt round location
        → let n = block_length 64 location end in
          blank_block z location n (bytes_of image location n) ≡ bytes_of (blank z image) location n
    blanked round location p (inl e) = rw e (
        blanks round _ small (omega arith)
          (block_length_lem (start + 64 * round) end (omega arith) small))
    blanked round location p (inr e) = absurd (omega arith)

    feed-Hashing :
        (hash_context s : List ℕ)
        → Triple
            (Hashing c mem hash_context s)
            (act interface.feed)
            (λ x. Hashing c mem hash_context s)
            (Holds c mem)
    unfolding act
    feed-Hashing hash_context s = record {
      runs =
          λ m h. (sound.feed_memory m.world ∙ h.0, sound.feed_absorbed m.world hash_context ∙ h.1);
    }

    hash_done :
        (location : ℕ) (context : C) (hash_context s : List ℕ)
        → end ≤ location
        → Triple {A = C × List ℕ}
            (Hashing c mem hash_context s)
            (pure (context, hash_context))
            (λ x m. Hashing c mem x.1 (s ++ hashed_from location) m)
            (Holds c mem)
    unfolding bytes_of
    hash_done location context hash_context s p =
        let e : end - location ≡ 0 = omega arith in
        Triple-pure (context, hash_context) (λ m h. (h.0, rw (e, append-nil) (h.1)))

    update-Hashing :
        (round location : ℕ) (hash_context s bytes : List ℕ)
        → location < end
        → IsAt round location
        → bytes ≡ bytes_of image location (block_length 64 location end)
        → let n = block_length 64 location end in
          Triple
            (Hashing c mem hash_context s)
            (interface.hash_update hash_context (blank_block z location n bytes))
            (λ context m. Hashing c mem context (s ++ bytes_of (blank z image) location n) m)
            (Holds c mem)
    update-Hashing round location hash_context s bytes p at read =
        rw (read, blanked round location p at)
          (sound.hash_update_lem mem hash_context s
            (bytes_of (blank z image) location (block_length 64 location end)))

    regroup :
        (round location : ℕ) (s : List ℕ)
        → location < end
        → IsAt round location
        → let n = block_length 64 location end in
          (s ++ bytes_of (blank z image) location n) ++ hashed_from (add32 location n)
          ≡ s ++ hashed_from location
    regroup round location s p at =
        let (at', e, split, pos) = next-IsAt round location p at in
        rw (
          e,
          append_assoc,
          ← bytes_of-add (blank z image) location (block_length 64 location end) _ _ split,
        )

    pub hash_loop-Hashing :
        (fuel round location : ℕ) (context : C) (hash_context s : List ℕ)
        → end ≤ location + fuel
        → IsAt round location
        → Triple
            (Hashing c mem hash_context s)
            (hash_loop interface reader fuel z end location context hash_context)
            (λ x m. Hashing c mem x.1 (s ++ hashed_from location) m)
            (Holds c mem)
    unfolding hash_loop
    hash_loop-Hashing zero round location context hash_context s enough at =
        hash_done location context hash_context s (omega arith)
    hash_loop-Hashing (suc fuel) round location context hash_context s enough at =
        Triple-if (ltb location end)
          (λ t.
            let p : location < end = ltb→lt location end t in
            let (at', e, split, pos) = next-IsAt round location p at in
            Triple-bind (feed-Hashing hash_context s) (λ u.
              Triple-bind (reads context hash_context s location _) (λ x. Triple_given (λ read.
                Triple-bind (update-Hashing round location hash_context s x.1 p at read)
                  (λ hash_context'.
                    Triple_mono (λ m h. h) (λ y m h. (h.0, h.1 ∙ regroup round location s p at))
                      (λ m h. h)
                      (hash_loop-Hashing fuel (round + 1)
                        (add32 location (block_length 64 location end)) x.0 hash_context'
                        (s ++ bytes_of (blank z image) location (block_length 64 location end))
                        (omega (arith, e, pos)) at'))))))
          (λ t. hash_done location context hash_context s (ground arith))

module _ {W : Type 0} {interface : Interface W} (c : Contract interface) (mem : Memory) where
  -- A condition that the code requires holds behind it, and nothing else has changed.
  pub require-Holds :
      (condition : Bool)
      → Triple
          (Holds c mem)
          (require condition)
          (λ x m. (condition ≡ true) × Holds c mem m)
          (Holds c mem)
  unfolding require
  require-Holds true = record { runs = λ m h. (refl, h) }
  require-Holds false = record { runs = λ m h. h }

-- The end of a range, as the code computes it.
abbrev pub range_end : Range → ℕ
range_end range = add32 range.location range.length

abbrev pub hashed : (ℕ → ℕ) → Range → Range → List ℕ
hashed image range z = bytes_of (blank z image) range.location (range_end range - range.location)

bytes_eq_iff : (a b : List ℕ) → (bytes_eq a b ≡ true) ↔ (a ≡ b)
bytes_eq_iff a b = (bytes_eq→eq a b, λ e. rw e (bytes_eq_self b))

-- With a reader that reads `image`, a result of `fd_boot_check_hash` means that the range lies in
-- the storage, and says exactly whether the digest of the range, with the bytes of the hash taken
-- as zero, is the expected hash. A range whose end wraps hashes as empty. Neither memory changes.
pub check_hash-Blanks :
    {W C : Type 0} {interface : Interface W} (c : Contract interface)
    → IsSound c
    → (mem : Memory) (image : ℕ → ℕ) (reader : Reader W C) → ReadsImage c mem image reader
    → (context : C) (storage range z : Range) (hash : List ℕ)
    → (is_valid_subrange storage range ≡ true → Blanks image z range.location (range_end range))
    → Triple
        (Holds c mem)
        (check_hash interface reader context storage range z hash)
        (λ x m.
          (is_valid_subrange storage range ≡ true)
          × ((x.1 ≡ true) ↔ (c.digest (hashed image range z) ≡ hash))
          × Holds c mem m)
        (Holds c mem)
unfolding check_hash
check_hash-Blanks {interface = interface} c sound mem image reader reads context storage range z
      hash blanks =
    Triple-bind (require-Holds c mem (is_valid_subrange storage range)) (λ u. Triple_given (λ valid.
      Triple-bind (sound.hash_initialize_lem mem) (λ hash_context.
        Triple-bind
          (hash_loop-Hashing c sound mem image reader reads z range.location end (blanks valid)
            (omega arith) (end - range.location) 0 range.location context hash_context []
            (omega arith) (inl (omega arith)))
          (λ x. Triple-bind (sound.hash_finalize_lem mem x.1 (hashed image range z)) (λ out.
            Triple-pure (x.0, bytes_eq out hash)
              (λ m h. (valid, rw (h.0) (bytes_eq_iff _ hash), h.1)))))))
  where
    end : ℕ
    end = range_end range

pub check_hash_lem :
    {W C : Type 0} {interface : Interface W} (c : Contract interface)
    → IsSound c
    → (mem : Memory) (image : ℕ → ℕ) (reader : Reader W C) → ReadsImage c mem image reader
    → (context : C) (storage range z : Range) (hash : List ℕ)
    → IsPlaced z range.location (range_end range)
    → Triple
        (Holds c mem)
        (check_hash interface reader context storage range z hash)
        (λ x m.
          (is_valid_subrange storage range ≡ true)
          × ((x.1 ≡ true) ↔ (c.digest (hashed image range z) ≡ hash))
          × Holds c mem m)
        (Holds c mem)
check_hash_lem c sound mem image reader reads context storage range z hash placed =
    check_hash-Blanks c sound mem image reader reads context storage range z hash
      (λ valid round n small inside len.
        blank_block_lem image z range.location (range_end range) round n placed small inside len)
