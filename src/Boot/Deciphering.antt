-- ===== src/Boot/Deciphering.antt =====
-- What `fd_boot_check_hash` hashes where its reader is `fd_boot_read_and_decrypt`: what the cipher
-- makes of the blocks of the update storage, one after the other.
use mathlib.Core.Path.{subst}
use firefly_zephyr.Base.{
  ℕ, zero, suc, ◌+◌, ◌-◌, ◌≤◌, ◌<◌, ◌^◌, ◌≡◌, refl, sym, ◌∙◌, Bool, true, false, List, [], ◌++◌,
  append_assoc, append-nil, ltb, ◌==◌, ltb→lt, arith,
}
use firefly_zephyr.Base.Words.{add32, bytes_eq, bytes_eq→eq}
use firefly_zephyr.Boot.Types.{Range}
use firefly_zephyr.Boot.Interface.{Machine, Interface, pure, act, require}
use firefly_zephyr.Boot.Hash.{is_valid_subrange, blank_block, block_length, hash_loop, check_hash}
use firefly_zephyr.Boot.Update.{read_and_decrypt}
use firefly_zephyr.Boot.Image.{bytes_of}
use firefly_zephyr.Boot.Triple.{
  Triple, Triple-bind, Triple-pure, Triple-if, Triple_mono, Triple_given, Triple_given_both,
  Triple_some, Triple_seen, Returns,
}
use firefly_zephyr.Boot.Contract.{Memory, Contract, IsSound, Holds, Hashing}
use firefly_zephyr.Boot.Blanking.{block_length_lem}
use firefly_zephyr.Boot.HashLoop.{require-Holds, range_end}

require-Hashing :
    {W : Type 0} {before failing : Machine W → Type 0} (condition : Bool)
    → ((m : Machine W) → before m → failing m)
    → ((m : Machine W) (code : ℕ) → failing m → failing (record m { error = code }))
    → Triple before (require condition) (λ x m. (condition ≡ true) × before m) failing
unfolding require
require-Hashing true f g = record { runs = λ m h. (refl, h) }
require-Hashing false f g = record { runs = λ m h. g m 1 (f m h) }

module _ {W : Type 0} {interface : Interface W} (c : Contract interface) (mem : Memory) (z : Range)
    (end : ℕ) where
  -- From `location` on, the cipher with this context makes these bytes of the blocks of 64 bytes
  -- that the update storage holds up to `end`, with the bytes in `z` taken as zero.
  pub data Deciphers : List ℕ → ℕ → List ℕ → Type 0 where
    done : {context : List ℕ} {location : ℕ} → end ≤ location → Deciphers context location []
    next :
        {context context' out rest : List ℕ} {location : ℕ}
        → location < end
        → block_length 64 location end ≡ 64
        → Returns
            (Holds c mem)
            (interface.decrypt_update context (bytes_of mem.update location 64))
            (context', out)
        → Deciphers context' (location + 64) rest
        → Deciphers context location (blank_block z location 64 out ++ rest)

module _ {W : Type 0} {interface : Interface W} (c : Contract interface) (sound : IsSound c)
    (mem : Memory) where
  read_and_decrypt-Hashing :
      (context hash_context s : List ℕ) (location length : ℕ)
      → Triple
          (Hashing c mem hash_context s)
          (read_and_decrypt interface context location length)
          (λ x m.
            (length ≡ 64)
            × Returns
                (Holds c mem)
                (interface.decrypt_update context (bytes_of mem.update location length))
                x
            × Hashing c mem hash_context s m)
          (Holds c mem)
  unfolding read_and_decrypt
  read_and_decrypt-Hashing context hash_context s location length =
      Triple-bind (sound.update_read_lem mem hash_context s location length) (λ bytes.
        Triple_given (λ read.
          Triple-bind (require-Hashing (length == 64) (λ m h. h.0) (λ m code h. h)) (λ u.
            Triple_given (λ sized. rw read (
              Triple_mono (λ m h. h) (λ x m h. (ground (arith, sized), h.0, h.1.1)) (λ m h. h)
                (Triple_seen (Holds c mem) (λ m h. h.0)
                  (sound.decrypt_update_lem context (bytes_of mem.update location length) mem
                    hash_context s)))))))

  module _ (z : Range) (end : ℕ) (small : end < 2 ^ 32) where
    feed-Hashing :
        (hash_context s : List ℕ)
        → Triple
            (Hashing c mem hash_context s)
            (act interface.feed)
            (λ x. Hashing c mem hash_context s)
            (Holds c mem)
    unfolding act
    feed-Hashing hash_context s = record {
      runs =
          λ m h. (sound.feed_memory m.world ∙ h.0, sound.feed_absorbed m.world hash_context ∙ h.1);
    }

    -- The hash has absorbed what the cipher made.
    abbrev Absorbs : List ℕ → ℕ → List ℕ → List ℕ × List ℕ → Machine W → Type 0
    Absorbs context location s x m =
        (bytes : List ℕ) × Deciphers c mem z end context location bytes
        × Hashing c mem x.1 (s ++ bytes) m

    hash_done :
        (location : ℕ) (context hash_context s : List ℕ)
        → end ≤ location
        → Triple
            (Hashing c mem hash_context s)
            (pure (context, hash_context))
            (Absorbs context location s)
            (Holds c mem)
    hash_done location context hash_context s p =
        Triple-pure (context, hash_context) (λ m h. ([], done p, (h.0, h.1 ∙ sym (append-nil s))))

    hash_loop-Deciphers :
        (fuel location : ℕ) (context hash_context s : List ℕ)
        → end ≤ location + fuel
        → Triple
            (Hashing c mem hash_context s)
            (hash_loop interface
              (read_and_decrypt interface)
              fuel
              z
              end
              location
              context
              hash_context)
            (Absorbs context location s)
            (Holds c mem)
    unfolding hash_loop
    hash_loop-Deciphers zero location context hash_context s enough =
        hash_done location context hash_context s (omega (arith, enough))
    hash_loop-Deciphers (suc fuel) location context hash_context s enough =
        Triple-if (ltb location end)
          (λ t.
            let p : location < end = ltb→lt location end t in
            Triple-bind (feed-Hashing hash_context s) (λ u.
              Triple-bind (read_and_decrypt-Hashing context hash_context s location _) (λ x.
                Triple_given_both (λ sized returns.
                  Triple-bind
                    (sound.hash_update_lem mem hash_context s
                      (blank_block z location (block_length 64 location end) x.1))
                    (λ hash_context'.
                      let block = blank_block z location (block_length 64 location end) x.1 in
                      let on : add32 location (block_length 64 location end) ≡ location + 64 =
                        ground (arith, sized, p, small, block_length_lem location end p small) in
                      Triple_mono (λ m h. h)
                        (λ y m h. (
                          block ++ h.0,
                          subst_block location x returns sized p on h.0 h.1,
                          (h.2.0, h.2.1 ∙ append_assoc s block h.0),
                        ))
                        (λ m h. h)
                        (hash_loop-Deciphers fuel (add32 location (block_length 64 location end))
                          x.0 hash_context' (s ++ block) (omega (arith, on, enough))))))))
          (λ t. hash_done location context hash_context s (ground arith))
      where
        subst_block :
            (location : ℕ) (x : List ℕ × List ℕ)
            → Returns
                (Holds c mem)
                (interface.decrypt_update context
                  (bytes_of mem.update location (block_length 64 location end)))
                x
            → block_length 64 location end ≡ 64
            → location < end
            → add32 location (block_length 64 location end) ≡ location + 64
            → (rest : List ℕ)
            → Deciphers c mem z end x.0 (add32 location (block_length 64 location end)) rest
            → Deciphers c mem z end context location
                (blank_block z location (block_length 64 location end) x.1 ++ rest)
        subst_block location x returns sized p on rest later =
            subst
              (λ n. Deciphers c mem z end context location (blank_block z location n x.1 ++ rest))
              (sym sized)
              (next p sized
                (subst
                  (λ n.
                    Returns (Holds c mem)
                      (interface.decrypt_update context (bytes_of mem.update location n)) x)
                  sized returns)
                (subst (λ l. Deciphers c mem z end x.0 l rest) on later))

  -- A hash that `fd_boot_check_hash` accepts is the digest of what the cipher makes of the range.
  pub check_hash-Deciphers :
      (context : List ℕ) (storage range z : Range) (hash : List ℕ)
      → Triple
          (Holds c mem)
          (check_hash interface (read_and_decrypt interface) context storage range z hash)
          (λ x m.
            (x.1 ≡ true
              → (is_valid_subrange storage range ≡ true)
                × ((bytes : List ℕ) × Deciphers c mem z
                      (range_end range)
                      context
                      range.location
                      bytes
                    × (c.digest bytes ≡ hash)))
            × Holds c mem m)
          (Holds c mem)
  unfolding check_hash
  check_hash-Deciphers context storage range z hash =
      Triple-bind (require-Holds c mem (is_valid_subrange storage range)) (λ u.
        Triple_given (λ valid. Triple-bind (sound.hash_initialize_lem mem) (λ hash_context.
          Triple-bind
            (hash_loop-Deciphers z (range_end range) (omega arith)
              (range_end range - range.location) range.location context hash_context []
              (omega arith))
            (λ x.
              Triple_some
                {G = λ bytes. Deciphers c mem z (range_end range) context range.location bytes}
                {before = λ bytes m. Hashing c mem x.1 bytes m}
                (λ bytes deciphers. Triple-bind (sound.hash_finalize_lem mem x.1 bytes) (λ out.
                  Triple-pure (x.0, bytes_eq out hash)
                    (λ m h. (
                      (λ e. (valid, (bytes, deciphers, sym h.0 ∙ bytes_eq→eq out hash e))),
                      h.1,
                    ))))))))
