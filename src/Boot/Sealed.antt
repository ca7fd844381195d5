-- ===== src/Boot/Sealed.antt =====
-- `fd_boot_get_update_metadata` finds an update valid only if its header, its lengths, its trailer
-- and its hash are right.
use mathlib.Core.Path.{subst}
use firefly_zephyr.Base.{ℕ, ◌%◌, ◌≡◌, refl, sym, true, List, arith}
use firefly_zephyr.Base.Words.{add32, uint32_at}
use firefly_zephyr.Boot.Types.{
  Range, UpdateMetadata, UpdateResult, UpdateIssue, update_metadata_header_magic,
  update_metadata_header_version, update_trailer_magic, update_metadata_at, invalid_update,
}
use firefly_zephyr.Boot.Interface.{M, Machine, Result, ok, fail, Interface, plain, pure}
use firefly_zephyr.Boot.Update.{
  or_error, header_range, metadata_range, trailer_range, is_encrypted, expected_length,
  check_update, read_update, get_update_metadata,
}
use firefly_zephyr.Boot.Image.{bytes_of}
use firefly_zephyr.Boot.Triple.{
  Triple, Outcome, Triple-bind, Triple-pure, Triple-if, Triple_mono, Triple_given,
  Triple_given_both,
}
use firefly_zephyr.Boot.Contract.{Memory, Layout, Contract, IsSound, Holds}
use firefly_zephyr.Boot.Blanking.{IsPlaced}
use firefly_zephyr.Boot.HashLoop.{ReadsImage, range_end, hashed, require-Holds, check_hash_lem}
use firefly_zephyr.Boot.Keep.{silent-Holds, update_read-Holds}
use firefly_zephyr.Boot.Decrypting.{Authentic, Tells, check_plain-Tells, check_encrypted-Tells}
use firefly_zephyr.Boot.Verified.{IsLaidOut, not-==→eq, not→true}

abbrev pub seal_range : Range → Range
seal_range storage = record { location = add32 storage.location 44; length = 20 }

-- What the update storage holds, if the update with this metadata may be installed.
pub record IsSealed (digest : List ℕ → List ℕ) (layout : Layout) (stored : ℕ → ℕ)
    (metadata : UpdateMetadata) : Type 0 where
  pub header_magic :
      uint32_at (bytes_of stored (header_range layout.update_storage).location 8) 0
      ≡ update_metadata_header_magic
  pub header_version :
      uint32_at (bytes_of stored (header_range layout.update_storage).location 8) 4
      ≡ update_metadata_header_version
  pub metadata_read :
      metadata
      ≡ update_metadata_at (bytes_of stored (metadata_range layout.update_storage).location 76) 0
  pub whole_blocks : metadata.executable_metadata.length % 64 ≡ 0
  pub fills : metadata.executable_metadata.length ≡ expected_length layout.update_storage metadata
  pub trailer :
      uint32_at (bytes_of stored (trailer_range layout.update_storage).location 4) 0
      ≡ update_trailer_magic
  pub hash :
      digest (hashed stored layout.update_storage (seal_range layout.update_storage))
      ≡ metadata.hash

seal_range-IsPlaced :
    (layout : Layout)
    → IsLaidOut layout
    → let range = layout.update_storage in
      IsPlaced (seal_range range) range.location (range_end range)
seal_range-IsPlaced layout l = record {
  block = 0;
  above = omega (arith, l.update_small, l.update_long);
  below = omega (arith, l.update_small, l.update_long);
  small = omega (arith, l.update_small, l.update_long);
  whole = omega (arith, l.update_small, l.update_long);
}

-- The update checks: it is sealed, and the executable in it has the hash that its metadata says.
pub record IsChecked {W : Type 0} {interface : Interface W} (c : Contract interface)
    (sound : IsSound c) (mem : Memory) (metadata : UpdateMetadata) : Type 0 where
  pub sealed : IsSealed c.digest c.layout mem.update metadata
  pub authentic : Authentic c sound mem metadata

module _ {W : Type 0} {interface : Interface W} (c : Contract interface) (sound : IsSound c)
    (mem : Memory) where
  pub reads_update : ReadsImage c mem mem.update (plain interface.update_read)
  reads_update context hash_context s location length =
      Triple-bind (sound.update_read_lem mem hash_context s location length)
        (λ x. Triple-pure (context, x) (λ m h. h))

  or_error-Holds :
      {A : Type 0} (a : M W A) (Q : A → Machine W → Type 0)
      → Triple (Holds c mem) a Q (Holds c mem)
      → Triple (Holds c mem) (λ m. or_error (a m)) Q (Holds c mem)
  unfolding or_error
  or_error-Holds a Q t = record { runs = λ m h. keep (a m) (t.runs m h) }
    where
      keep :
          (r : Result _ × Machine W)
          → Outcome Q (Holds c mem) r
          → Outcome Q (Holds c mem) (or_error r)
      keep (ok x, m) o = o
      keep (fail, m) o = o

  -- What the code reports of the update.
  abbrev pub Reports : UpdateResult → Machine W → Type 0
  Reports r m = (r.is_valid ≡ true → IsChecked c sound mem r.metadata) × Holds c mem m

  invalid-Reports :
      (issue : UpdateIssue)
      → Triple (Holds c mem) (pure (invalid_update issue)) Reports (Holds c mem)
  invalid-Reports issue = Triple-pure (invalid_update issue) (λ m h. ((λ e. cc), h))

  checked :
      {metadata found : UpdateMetadata}
      → IsSealed c.digest c.layout mem.update metadata
      → (found ≡ metadata) × Authentic c sound mem metadata
      → IsChecked c sound mem found
  checked sealed (e, authentic) =
      subst (IsChecked c sound mem) (sym e) (record { sealed = sealed; authentic = authentic })

  Reports-of_Tells :
      {a : M W UpdateResult} {metadata : UpdateMetadata}
      → IsSealed c.digest c.layout mem.update metadata
      → Triple (Holds c mem) a (Tells c sound mem metadata) (Holds c mem)
      → Triple (Holds c mem) a Reports (Holds c mem)
  Reports-of_Tells sealed t =
      Triple_mono (λ m h. h) (λ r m h. ((λ e. checked sealed (h.0 e)), h.1)) (λ m h. h) t

  module _ (laid_out : IsLaidOut c.layout) where
    check_update-Reports :
        (header bytes : List ℕ)
        → header ≡ bytes_of mem.update (header_range c.layout.update_storage).location 8
        → bytes ≡ bytes_of mem.update (metadata_range c.layout.update_storage).location 76
        → uint32_at header 0 ≡ update_metadata_header_magic
        → uint32_at header 4 ≡ update_metadata_header_version
        → (update_metadata_at bytes 0).executable_metadata.length % 64 ≡ 0
        → (update_metadata_at bytes 0).executable_metadata.length
          ≡ expected_length c.layout.update_storage (update_metadata_at bytes 0)
        → Triple
            (Holds c mem)
            (check_update interface c.layout.update_storage bytes (update_metadata_at bytes 0))
            Reports
            (Holds c mem)
    unfolding check_update
    check_update-Reports header bytes read_header read_metadata magic version whole fills =
        Triple-if _ (λ t. invalid-Reports UpdateIssue.length)
          (λ t.
            Triple-bind (update_read-Holds c sound mem (trailer_range storage).location 4)
              (λ trailer. Triple_given (λ read.
                Triple-if _ (λ u. invalid-Reports UpdateIssue.trailer_magic)
                  (λ u.
                    Triple-bind
                      (check_hash_lem c sound mem mem.update _ reads_update tt storage storage
                        (seal_range storage) metadata.hash (seal_range-IsPlaced c.layout laid_out))
                      (λ x. Triple_given_both (λ inside hash.
                        Triple-if _ (λ v. invalid-Reports UpdateIssue.hash)
                          (λ v.
                            let sealed : IsSealed c.digest c.layout mem.update metadata = record {
                              header_magic = rw (← read_header) magic;
                              header_version = rw (← read_header) version;
                              metadata_read = rw (← read_metadata) refl;
                              whole_blocks = whole;
                              fills = fills;
                              trailer = rw (← read) (not-==→eq _ _ u);
                              hash = hash.0 (not→true x.1 v);
                            } in
                            Triple-if (is_encrypted metadata)
                              (λ w.
                                Reports-of_Tells sealed (
                                  check_encrypted-Tells c sound mem bytes metadata read_metadata w))
                              (λ w. Reports-of_Tells sealed (
                                check_plain-Tells c sound mem metadata
                                  (omega (arith, laid_out.update_small)) w)))))))))
      where
        storage : Range
        storage = c.layout.update_storage

        metadata : UpdateMetadata
        metadata = update_metadata_at bytes 0

    read_update-Reports :
        (header : List ℕ)
        → header ≡ bytes_of mem.update (header_range c.layout.update_storage).location 8
        → uint32_at header 0 ≡ update_metadata_header_magic
        → uint32_at header 4 ≡ update_metadata_header_version
        → Triple (Holds c mem) (read_update interface c.layout.update_storage) Reports (Holds c mem)
    unfolding read_update
    read_update-Reports header read_header magic version = Triple-bind (require-Holds c mem _) (λ u.
        Triple_given (λ valid.
          Triple-bind
            (update_read-Holds c sound mem (metadata_range c.layout.update_storage).location 76)
            (λ bytes. Triple_given (λ read.
              Triple-if _ (λ t. invalid-Reports UpdateIssue.length)
                (λ t.
                  Triple-if _ (λ t'. invalid-Reports UpdateIssue.length)
                    (λ t'.
                      check_update-Reports header bytes read_header read magic version
                        (not-==→eq _ _ t) (not-==→eq _ _ t')))))))

    -- What `fd_boot_get_update_metadata` reports as valid is what the storage holds: right magic
    -- numbers in front and behind, an executable that fills it, and a digest of the whole storage
    -- that equals the stored hash. The call changes neither memory, whether it fails or not.
    pub get_update_metadata-Reports :
        Triple (Holds c mem) (get_update_metadata interface) Reports (Holds c mem)
    unfolding get_update_metadata
    get_update_metadata-Reports =
        Triple-bind (silent-Holds c sound mem sound.update_storage_lem) (λ storage.
          Triple_given (λ e. rw e (
            Triple-bind (require-Holds c mem _) (λ u. Triple_given (λ valid.
              Triple-bind
                (or_error-Holds
                  (interface.update_read (header_range c.layout.update_storage).location 8) _
                  (update_read-Holds c sound mem (header_range c.layout.update_storage).location 8))
                (λ header. Triple_given (λ read.
                  Triple-if _ (λ t. invalid-Reports UpdateIssue.header_magic)
                    (λ t.
                      Triple-if _ (λ t'. invalid-Reports UpdateIssue.header_version)
                        (λ t'.
                          read_update-Reports header read (not-==→eq _ _ t)
                            (not-==→eq _ _ t'))))))))))
