-- ===== src/Boot/Verified.antt =====
-- `fd_boot_get_executable_metadata` finds an executable valid only if its header, its trailer and
-- its hash are right.
use firefly_zephyr.Base.{
  ℕ, ◌+◌, ◌/◌, ◌%◌, ◌^◌, ◌≤◌, ◌<◌, ◌≡◌, refl, sym, ap, ◌∙◌, ◌≢◌, Bool, true, false, not, List, ◌==◌,
  arith,
}
use mathlib.Core.Path.{subst}
use firefly_zephyr.Base.Words.{uint32_at, uint32_at-lt}
use firefly_zephyr.Boot.Types.{
  ExecutableMetadata, ExecutableResult, ExecutableIssue, executable_metadata_header_magic,
  executable_metadata_header_version, executable_trailer_magic, executable_metadata_at,
  invalid_executable,
}
use firefly_zephyr.Boot.Interface.{Machine, Interface, plain, pure}
use firefly_zephyr.Boot.Hash.{is_valid_subrange}
use firefly_zephyr.Boot.Executable.{
  header_range, metadata_range, trailer_range, executable_range, hash_range, valid_executable,
  check_executable, read_executable, get_executable_metadata,
}
use firefly_zephyr.Boot.Image.{bytes_of}
use firefly_zephyr.Boot.Triple.{
  Triple, Triple-bind, Triple-pure, Triple-failed, Triple-if, Triple_given, Triple_given_both,
}
use firefly_zephyr.Boot.Contract.{Memory, Layout, Contract, IsSound, Holds}
use firefly_zephyr.Boot.Blanking.{IsPlaced}
use firefly_zephyr.Boot.HashLoop.{ReadsImage, range_end, hashed, require-Holds, check_hash_lem}
use firefly_zephyr.Boot.Keep.{silent-Holds, executable_read-Holds}

-- The metadata stands at a multiple of the block from the start of the executable, and no sum of
-- the fixed addresses wraps.
pub record IsLaidOut (layout : Layout) : Type 0 where
  pub aligned : layout.executable.metadata_offset % 64 ≡ 0
  pub small : layout.executable.location + layout.executable.metadata_offset + 64 < 2 ^ 32
  pub update_small : layout.update_storage.location + layout.update_storage.length < 2 ^ 32
  pub update_long : 64 ≤ layout.update_storage.length

-- What the flash holds, if the executable with this metadata may run.
pub record IsVerified (digest : List ℕ → List ℕ) (layout : Layout) (flash : ℕ → ℕ)
    (metadata : ExecutableMetadata) : Type 0 where
  pub header_magic :
      uint32_at (bytes_of flash (header_range layout.executable).location 8) 0
      ≡ executable_metadata_header_magic
  pub header_version :
      uint32_at (bytes_of flash (header_range layout.executable).location 8) 4
      ≡ executable_metadata_header_version
  pub metadata_read :
      metadata
      ≡ executable_metadata_at (bytes_of flash (metadata_range layout.executable).location 36) 0
  pub whole_blocks : metadata.length % 64 ≡ 0
  pub stored :
      is_valid_subrange layout.executable_storage (executable_range layout.executable metadata)
      ≡ true
  pub trailer_stored :
      is_valid_subrange layout.executable_storage (trailer_range layout.executable metadata) ≡ true
  pub trailer :
      uint32_at (bytes_of flash (trailer_range layout.executable metadata).location 4) 0
      ≡ executable_trailer_magic
  pub hash :
      digest
        (hashed flash (executable_range layout.executable metadata) (hash_range layout.executable))
      ≡ metadata.hash

pub not-==→eq : (a b : ℕ) → not (a == b) ≡ false → a ≡ b
not-==→eq a b h = ground arith

pub not-==→ne : (a b : ℕ) → not (a == b) ≡ true → a ≢ b
not-==→ne a b h = ground arith

not→false : (b : Bool) → not b ≡ true → b ≡ false
not→false b h = ground arith

pub not→true : (b : Bool) → not b ≡ false → b ≡ true
not→true b h = ground arith

-- The bytes of the hash lie in one block of the executable, or behind it.
hash_range-IsPlaced :
    (layout : Layout) (metadata : ExecutableMetadata)
    → IsLaidOut layout
    → metadata.length % 64 ≡ 0
    → metadata.length < 2 ^ 32
    → let range = executable_range layout.executable metadata in
      IsPlaced (hash_range layout.executable) range.location (range_end range)
hash_range-IsPlaced layout metadata l whole small = record {
  block = layout.executable.metadata_offset / 64;
  above = omega (arith, l.aligned, l.small);
  below = omega (arith, l.aligned, l.small);
  small = omega (arith, l.small);
  whole = omega (arith, l.aligned, l.small);
}

module _ {W : Type 0} {interface : Interface W} (c : Contract interface) (sound : IsSound c)
    (mem : Memory) where
  pub reads_executable : ReadsImage c mem mem.executable (plain interface.executable_read)
  reads_executable context hash_context s location length =
      Triple-bind (sound.executable_read_lem mem hash_context s location length)
        (λ x. Triple-pure (context, x) (λ m h. h))

  -- What the code reports of the executable.
  abbrev pub Reports : ExecutableResult → Machine W → Type 0
  Reports r m =
      (r.is_valid ≡ true → IsVerified c.digest c.layout mem.executable r.metadata)
      × (r.is_valid ≡ false
          → (metadata : ExecutableMetadata)
          → ¬ (IsVerified c.digest c.layout mem.executable metadata))
      × Holds c mem m

  invalid-Reports :
      (issue : ExecutableIssue)
      → ((metadata : ExecutableMetadata) → ¬ (IsVerified c.digest c.layout mem.executable metadata))
      → Triple (Holds c mem) (pure (invalid_executable issue)) Reports (Holds c mem)
  invalid-Reports issue no_metadata =
      Triple-pure (invalid_executable issue) (λ m h. ((λ e. cc), (λ e. no_metadata), h))

  module _ (laid_out : IsLaidOut c.layout) where
    check_executable-Reports :
        (header metadata_bytes : List ℕ)
        → header ≡ bytes_of mem.executable (header_range c.layout.executable).location 8
        → metadata_bytes ≡ bytes_of mem.executable (metadata_range c.layout.executable).location 36
        → uint32_at header 0 ≡ executable_metadata_header_magic
        → uint32_at header 4 ≡ executable_metadata_header_version
        → (executable_metadata_at metadata_bytes 0).length % 64 ≡ 0
        → Triple
            (Holds c mem)
            (check_executable interface c.layout.executable_storage c.layout.executable
              (executable_metadata_at metadata_bytes 0))
            Reports
            (Holds c mem)
    unfolding check_executable
    check_executable-Reports header metadata_bytes read_header read_metadata magic version whole =
        Triple-if _
          (λ t.
            invalid-Reports ExecutableIssue.length
              (λ md v. cc (not→false _ t, (only md v).trailer_stored)))
          (λ t.
            Triple-bind
              (executable_read-Holds c sound mem
                (trailer_range c.layout.executable metadata).location 4)
              (λ trailer. Triple_given (λ read.
                Triple-if _
                  (λ u.
                    invalid-Reports ExecutableIssue.trailer_magic
                      (λ md v. not-==→ne _ _ u (rw read ((only md v).trailer))))
                  (λ u.
                    Triple-bind
                      (check_hash_lem c sound mem mem.executable _ reads_executable tt
                        c.layout.executable_storage (executable_range c.layout.executable metadata)
                        (hash_range c.layout.executable) metadata.hash
                        (hash_range-IsPlaced c.layout metadata laid_out whole
                          (uint32_at-lt metadata_bytes 12)))
                      (λ x.
                        Triple-if _
                          (λ v. Triple_given_both (λ inside hash.
                            invalid-Reports ExecutableIssue.hash
                              (λ md w. cc (not→false _ v, hash.1 (only md w).hash))))
                          (λ v. Triple-pure (valid_executable metadata) (λ m h. (
                            (λ e. record {
                              header_magic = rw (← read_header) magic;
                              header_version = rw (← read_header) version;
                              metadata_read = rw (← read_metadata) refl;
                              whole_blocks = whole;
                              stored = h.0;
                              trailer_stored = not→true _ t;
                              trailer = rw (← read) (not-==→eq _ _ u);
                              hash = h.1.0 (not→true x.1 v);
                            }),
                            (λ e. cc),
                            h.2,
                          ))))))))
      where
        metadata : ExecutableMetadata
        metadata = executable_metadata_at metadata_bytes 0

        only :
            (md : ExecutableMetadata)
            → IsVerified c.digest c.layout mem.executable md
            → IsVerified c.digest c.layout mem.executable metadata
        only md v =
            subst (IsVerified c.digest c.layout mem.executable)
              (v.metadata_read ∙ ap (λ b. executable_metadata_at b 0) (sym read_metadata)) v

    read_executable-Reports :
        (header : List ℕ)
        → header ≡ bytes_of mem.executable (header_range c.layout.executable).location 8
        → uint32_at header 0 ≡ executable_metadata_header_magic
        → uint32_at header 4 ≡ executable_metadata_header_version
        → Triple
            (Holds c mem)
            (read_executable interface c.layout.executable_storage c.layout.executable)
            Reports
            (Holds c mem)
    unfolding read_executable
    read_executable-Reports header read_header magic version =
        Triple-bind (require-Holds c mem _) (λ u. Triple_given (λ valid.
          Triple-bind
            (executable_read-Holds c sound mem (metadata_range c.layout.executable).location 36)
            (λ bytes. Triple_given (λ read.
              Triple-if _ (λ t. Triple-failed (λ m h. h))
                (λ t.
                  check_executable-Reports header bytes read_header read magic version
                    (not-==→eq _ _ t))))))

    -- A result of `fd_boot_get_executable_metadata` is valid exactly if the flash holds a verified
    -- executable, with the metadata reported: right magic numbers in front and behind, and a digest
    -- that equals the stored hash. The call changes neither memory, whether it fails or not.
    pub get_executable_metadata-Reports :
        Triple (Holds c mem) (get_executable_metadata interface) Reports (Holds c mem)
    unfolding get_executable_metadata
    get_executable_metadata-Reports =
        Triple-bind (silent-Holds c sound mem sound.executable_storage_lem) (λ storage.
          Triple_given (λ e. Triple-bind (silent-Holds c sound mem sound.executable_lem) (λ info.
            Triple_given (λ e'.
              rw (e, e')
                (Triple-bind (require-Holds c mem _) (λ u. Triple_given (λ valid.
                  Triple-bind
                    (executable_read-Holds c sound mem (header_range c.layout.executable).location
                      8)
                    (λ header. Triple_given (λ read.
                      Triple-if _
                        (λ t.
                          invalid-Reports ExecutableIssue.header_magic
                            (λ md v. not-==→ne _ _ t (rw read (v.header_magic))))
                        (λ t.
                          Triple-if _
                            (λ t'.
                              invalid-Reports ExecutableIssue.header_version
                                (λ md v. not-==→ne _ _ t' (rw read (v.header_version))))
                            (λ t'.
                              read_executable-Reports header read (not-==→eq _ _ t)
                                (not-==→eq _ _ t'))))))))))))
