-- ===== src/Boot/Decrypting.antt =====
-- The checks of an update behind its hash, those that decrypt included, change neither memory, and
-- what they find valid is the metadata that they were given, of an executable with its hash.
use firefly_zephyr.Base.{
  ℕ, zero, suc, ◌-◌, ◌^◌, ◌≤◌, ◌<◌, ◌≡◌, refl, sym, ap, ◌∙◌, inl, Bool, true, false, not, List, ltb,
  replicate, arith,
}
use firefly_zephyr.Base.Bytes.{slice, copy_in}
use firefly_zephyr.Base.Words.{add32, bytes_eq→eq}
use firefly_zephyr.Boot.Types.{
  Range, InfoExecutable, UpdateMetadata, UpdateResult, UpdateIssue, invalid_update,
}
use firefly_zephyr.Boot.Interface.{Machine, Interface, plain, pure}
use firefly_zephyr.Boot.Update.{
  read_and_decrypt, decrypt_loop, decrypt_range, valid_update, check_plain, check_decrypted,
  check_encrypted, encrypted_range, metadata_range, is_encrypted,
}
use firefly_zephyr.Boot.Triple.{
  Triple, Triple-bind, Triple-pure, Triple-if, Triple_given, Triple_given_both, Triple_seen,
  Returns,
}
use firefly_zephyr.Boot.Hash.{is_valid_subrange}
use firefly_zephyr.Boot.Image.{bytes_of, bytes_of-blank_apart}
use firefly_zephyr.Boot.Blanking.{in_front-Blanks}
use firefly_zephyr.Boot.HashLoop.{ReadsImage, range_end, check_hash-Blanks}
use firefly_zephyr.Boot.Deciphering.{Deciphers, check_hash-Deciphers}
use firefly_zephyr.Boot.Contract.{Memory, Contract, IsSound, Holds}
use firefly_zephyr.Boot.Keep.{
  Keeps, KeepsReader, Keeps-of_silent, Keeps-pure, Keeps-require, Keeps-bind, Keeps-if, Keeps-feed,
  Keeps-update_read, Keeps-decrypt_initialize, Keeps-decrypt_update, Keeps-decrypt_finalize,
  silent-Holds,
}

-- Where the executable of a plain update stands, and where the hash stands in a decrypted one.
abbrev pub plain_range : Range → UpdateMetadata → Range
plain_range storage metadata = record {
  location = add32 storage.location 84;
  length = metadata.executable_metadata.length;
}

abbrev pub encrypted_hash_range : Range → InfoExecutable → UpdateMetadata → Range
encrypted_hash_range storage info metadata = record {
  location = add32 (add32 (encrypted_range storage metadata).location info.metadata_offset) 24;
  length = 20;
}

not→true : (b : Bool) → not b ≡ false → b ≡ true
not→true b h = ground arith

module _ {W : Type 0} {interface : Interface W} (c : Contract interface) (sound : IsSound c)
    (mem : Memory) where
  Keeps-read_and_decrypt : KeepsReader c sound mem (read_and_decrypt interface)
  unfolding read_and_decrypt
  Keeps-read_and_decrypt context location length =
      Keeps-bind c sound mem (Keeps-update_read c sound mem location length) (λ bytes.
        Keeps-bind c sound mem (Keeps-require c sound mem _)
          (λ u. Keeps-decrypt_update c sound mem context bytes))

  Keeps-plain : KeepsReader c sound mem (plain interface.update_read)
  Keeps-plain context location length =
      Keeps-bind c sound mem (Keeps-update_read c sound mem location length)
        (λ bytes. Keeps-pure c sound mem (context, bytes))

  Keeps-decrypt_loop :
      (fuel end location offset : ℕ) (context bytes : List ℕ)
      → Keeps c sound mem (decrypt_loop interface fuel end location offset context bytes)
  unfolding decrypt_loop
  Keeps-decrypt_loop zero end location offset context bytes =
      Keeps-pure c sound mem (context, bytes)
  Keeps-decrypt_loop (suc fuel) end location offset context bytes =
      Keeps-if c sound mem (ltb location end)
        (Keeps-bind c sound mem (Keeps-feed c sound mem) (λ u.
          Keeps-bind c sound mem (Keeps-update_read c sound mem location _) (λ block.
            Keeps-bind c sound mem (Keeps-decrypt_update c sound mem context block)
              (λ x. Keeps-decrypt_loop fuel end _ _ x.0 _))))
        (Keeps-pure c sound mem (context, bytes))

  Keeps-decryption : Keeps c sound mem interface.get_decryption
  Keeps-decryption = Keeps-of_silent c sound mem sound.decryption_lem

  Keeps-decrypt_range :
      (metadata : UpdateMetadata) (range : Range) (bytes : List ℕ)
      → Keeps c sound mem (decrypt_range interface metadata range bytes)
  unfolding decrypt_range
  Keeps-decrypt_range metadata range bytes = Keeps-bind c sound mem Keeps-decryption (λ key.
      Keeps-bind c sound mem
        (Keeps-decrypt_initialize c sound mem key metadata.initialization_vector)
        (λ context. Keeps-bind c sound mem (Keeps-decrypt_loop _ _ _ 0 context bytes) (λ x.
          Keeps-bind c sound mem (Keeps-decrypt_finalize c sound mem x.0)
            (λ u. Keeps-pure c sound mem x.1))))

  abbrev storage : Range
  storage = c.layout.update_storage

  -- The metadata as the storage holds it, with the hash of the whole taken as zero.
  abbrev pub expected_bytes : List ℕ
  expected_bytes =
      copy_in (bytes_of mem.update (metadata_range storage).location 76) 36 (replicate 20 0)

  -- The executable in the storage has the hash that its metadata says: as it stands there, or as
  -- the cipher makes it of what stands there, where the cipher also makes the same metadata of
  -- the 128 bytes from 128 on.
  pub data Authentic (metadata : UpdateMetadata) : Type 0 where
    plain_hash :
        is_encrypted metadata ≡ false
        → is_valid_subrange storage (plain_range storage metadata) ≡ true
        → c.digest (
            bytes_of mem.update
              (plain_range storage metadata).location
              (range_end (plain_range storage metadata) - (plain_range storage metadata).location))
          ≡ metadata.executable_metadata.hash
        → Authentic metadata
    decrypted_hash :
        {decrypted bytes : List ℕ}
        → is_encrypted metadata ≡ true
        → Returns
            (Holds c mem)
            (decrypt_range interface metadata
              (record { location = 128; length = 128 })
              (replicate 128 0))
            decrypted
        → slice decrypted 8 76 ≡ expected_bytes
        → is_valid_subrange storage (encrypted_range storage metadata) ≡ true
        → Deciphers c mem
            (encrypted_hash_range storage c.layout.executable metadata)
            (range_end (encrypted_range storage metadata))
            (replicate 16 0)
            (encrypted_range storage metadata).location
            bytes
        → c.digest bytes ≡ metadata.executable_metadata.hash
        → Authentic metadata

  -- What the later checks add: a result that is valid is this metadata, and the executable has
  -- the hash that it says.
  abbrev pub Tells : UpdateMetadata → UpdateResult → Machine W → Type 0
  Tells metadata r m =
      (r.is_valid ≡ true → (r.metadata ≡ metadata) × Authentic metadata) × Holds c mem m

  pub invalid-Tells :
      (metadata : UpdateMetadata) (issue : UpdateIssue)
      → Triple (Holds c mem) (pure (invalid_update issue)) (Tells metadata) (Holds c mem)
  invalid-Tells metadata issue = Triple-pure (invalid_update issue) (λ m h. ((λ e. cc), h))

  valid-Tells :
      (metadata : UpdateMetadata)
      → Authentic metadata
      → Triple (Holds c mem) (pure (valid_update metadata)) (Tells metadata) (Holds c mem)
  valid-Tells metadata a = Triple-pure (valid_update metadata) (λ m h. ((λ e. (refl, a)), h))

  reads_update : ReadsImage c mem mem.update (plain interface.update_read)
  reads_update context hash_context s location length =
      Triple-bind (sound.update_read_lem mem hash_context s location length)
        (λ x. Triple-pure (context, x) (λ m h. h))

  -- The range that the code blanks lies in front of the executable.
  plain_in_front :
      (metadata : UpdateMetadata)
      → storage.location < 2 ^ 32
      → is_valid_subrange storage (plain_range storage metadata) ≡ true
      → 84 ≤ (plain_range storage metadata).location
  unfolding is_valid_subrange
  plain_in_front metadata small valid = ground (arith, small, valid)

  pub check_plain-Tells :
      (metadata : UpdateMetadata)
      → storage.location < 2 ^ 32
      → is_encrypted metadata ≡ false
      → Triple (Holds c mem) (check_plain interface storage metadata) (Tells metadata) (Holds c mem)
  unfolding check_plain
  check_plain-Tells metadata small stands =
      let range = plain_range storage metadata in
      let z : Range = record { location = 0; length = 20 } in
      Triple-bind
        (check_hash-Blanks c sound mem mem.update (plain interface.update_read) reads_update tt
          storage range z metadata.executable_metadata.hash
          (λ valid.
            in_front-Blanks mem.update z range.location (range_end range)
              (omega (arith, plain_in_front metadata small valid))
              (omega (arith, plain_in_front metadata small valid))))
        (λ x. Triple_given_both (λ valid hash.
          Triple-if (not x.1) (λ t. invalid-Tells metadata UpdateIssue.hash)
            (λ t. valid-Tells metadata (
              plain_hash stands valid (
                ap c.digest (
                  sym (
                    bytes_of-blank_apart mem.update z range.location
                      (range_end range - range.location)
                      (inl (omega (arith, plain_in_front metadata small valid)))))
                ∙ hash.0 (not→true x.1 t))))))

  -- The metadata agrees with its encrypted copy.
  abbrev Agrees : UpdateMetadata → List ℕ → Type 0
  Agrees metadata decrypted =
      Returns (Holds c mem)
        (decrypt_range interface metadata (record { location = 128; length = 128 })
          (replicate 128 0))
        decrypted
      × (slice decrypted 8 76 ≡ expected_bytes)

  check_decrypted-Tells :
      (metadata : UpdateMetadata) (decrypted : List ℕ)
      → is_encrypted metadata ≡ true
      → Agrees metadata decrypted
      → Triple
          (Holds c mem)
          (check_decrypted interface storage metadata)
          (Tells metadata)
          (Holds c mem)
  unfolding check_decrypted
  check_decrypted-Tells metadata decrypted closed agrees = Triple-bind Keeps-decryption (λ key.
      Triple-bind (Keeps-decrypt_initialize c sound mem key metadata.initialization_vector)
        (λ context. Triple-bind (silent-Holds c sound mem sound.executable_lem) (λ info.
          Triple_given (λ e. rw e (
            Triple-bind
              (check_hash-Deciphers c sound mem (replicate 16 0) storage
                (encrypted_range storage metadata)
                (encrypted_hash_range storage c.layout.executable metadata)
                metadata.executable_metadata.hash)
              (λ x. Triple_given (λ hash. Triple-bind (Keeps-decrypt_finalize c sound mem x.0) (λ u.
                Triple-if (not x.1) (λ t. invalid-Tells metadata UpdateIssue.hash)
                  (λ t.
                    let (valid, (bytes, deciphers, same)) = hash (not→true x.1 t) in
                    valid-Tells metadata
                      (decrypted_hash closed agrees.0 agrees.1 valid deciphers same))))))))))

  pub check_encrypted-Tells :
      (bytes : List ℕ) (metadata : UpdateMetadata)
      → bytes ≡ bytes_of mem.update (metadata_range storage).location 76
      → is_encrypted metadata ≡ true
      → Triple
          (Holds c mem)
          (check_encrypted interface storage bytes metadata)
          (Tells metadata)
          (Holds c mem)
  unfolding check_encrypted
  check_encrypted-Tells bytes metadata read closed =
      Triple-bind
        (Triple_seen (Holds c mem) (λ m h. h) (Keeps-decrypt_range metadata _ (replicate 128 0)))
        (λ decrypted. Triple_given (λ returns.
          Triple-if _ (λ t. invalid-Tells metadata UpdateIssue.metadata)
            (λ t. check_decrypted-Tells metadata decrypted closed (
              returns,
              sym (bytes_eq→eq _ _ (not→true _ t)) ∙ ap (λ b. copy_in b 36 (replicate 20 0)) read,
            ))))
