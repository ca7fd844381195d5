-- ===== src/Boot/Checks.antt =====
-- What a caller of `fd_boot_check_hash`, `fd_boot_get_executable_metadata` and
-- `fd_boot_get_update_metadata` may rely on, stated of their results.
use mathlib.Core.Path.{subst}
use firefly_zephyr.Base.{ℕ, ◌≡◌, refl, ◌↔◌, inl, inr, Bool, true, List, Bool-cases}
use firefly_zephyr.Boot.Types.{Range, ExecutableMetadata, ExecutableResult, UpdateResult}
use firefly_zephyr.Boot.Interface.{M, Machine, Result, ok, fail, Interface, Reader}
use firefly_zephyr.Boot.Hash.{is_valid_subrange, check_hash}
use firefly_zephyr.Boot.Executable.{get_executable_metadata}
use firefly_zephyr.Boot.Update.{get_update_metadata}
use firefly_zephyr.Boot.Run.{update}
use firefly_zephyr.Boot.Triple.{Triple, Outcome}
use firefly_zephyr.Boot.Contract.{Contract, IsSound}
use firefly_zephyr.Boot.Blanking.{IsPlaced}
use firefly_zephyr.Boot.HashLoop.{ReadsImage, range_end, hashed, check_hash_lem}
use firefly_zephyr.Boot.Verified.{IsLaidOut, IsVerified, get_executable_metadata-Reports}
use firefly_zephyr.Boot.Sealed.{IsSealed, get_update_metadata-Reports}

module _ {W A : Type 0} where
  -- A call that returned `ok x` ends as its triple says.
  Triple-ok :
      {before : Machine W → Type 0} {a : M W A} {after : A → Machine W → Type 0}
      {failing : Machine W → Type 0} {m m' : Machine W} {x : A}
      → Triple before a after failing
      → before m
      → a m ≡ (ok x, m')
      → after x m'
  Triple-ok {after = after} {failing = failing} {m = m} t h e =
      subst (Outcome after failing) e (t.runs m h)

  -- What holds behind either result.
  Outcome_either :
      {after : A → Machine W → Type 0} {failing both : Machine W → Type 0}
      (r : Result A × Machine W)
      → ((x : A) (m : Machine W) → after x m → both m)
      → ((m : Machine W) → failing m → both m)
      → Outcome after failing r
      → both r.1
  Outcome_either (ok x, m) f g o = f x m o
  Outcome_either (fail, m) f g o = g m o

module _ {W : Type 0} {interface : Interface W} (c : Contract interface) (sound : IsSound c) where
  -- Given functions that keep the contract of fd_boot.h, a reader that reads `image`, and the
  -- bytes of the hash inside one block of the range, or in the block where it ends but behind its
  -- end: if `fd_boot_check_hash` returns true, the range lies in the storage, `is_valid` holds
  -- exactly if the digest of the range, with the bytes of the hash taken as zero, is the expected
  -- hash, and neither memory has changed. A range whose end wraps counts as empty.
  pub check_hash_decides :
      {C : Type 0} (image : ℕ → ℕ) (reader : Reader W C) (m m' : Machine W)
      → ReadsImage c (c.memory m.world) image reader
      → (context context' : C) (storage range z : Range) (hash : List ℕ) (is_valid : Bool)
      → IsPlaced z range.location (range_end range)
      → check_hash interface reader context storage range z hash m ≡ (ok (context', is_valid), m')
      → (is_valid_subrange storage range ≡ true)
        × ((is_valid ≡ true) ↔ (c.digest (hashed image range z) ≡ hash))
        × (c.memory m'.world ≡ c.memory m.world)
  check_hash_decides image reader m m' reads context context' storage range z hash is_valid placed
        e =
      Triple-ok
        (check_hash_lem c sound (c.memory m.world) image reader reads context storage range z hash
          placed)
        refl e

  module _ (laid_out : IsLaidOut c.layout) where
    -- Given functions that keep the contract of fd_boot.h, metadata on a 64-byte boundary, an
    -- update storage of at least 64 bytes, and fixed ranges that do not wrap, if
    -- `fd_boot_get_executable_metadata` returns true, `is_valid` holds exactly if the flash holds
    -- a verified executable with some metadata, and exactly if it holds one with the metadata
    -- that is returned; and neither memory has changed.
    pub get_executable_metadata_decides :
        (m m' : Machine W) (r : ExecutableResult)
        → get_executable_metadata interface m ≡ (ok r, m')
        → let flash = (c.memory m.world).executable in
          ((r.is_valid ≡ true)
            ↔ ((metadata : ExecutableMetadata) × IsVerified c.digest c.layout flash metadata))
          × ((r.is_valid ≡ true) ↔ IsVerified c.digest c.layout flash r.metadata)
          × (c.memory m'.world ≡ c.memory m.world)
    get_executable_metadata_decides m m' r e =
        let (there, nowhere, same) =
          Triple-ok (get_executable_metadata-Reports c sound (c.memory m.world) laid_out) refl e in
        (
          (
            λ v. (r.metadata, there v),
            λ x. elim (Bool-cases r.is_valid) [ inl v ↦ v | inr v ↦ absurd (nowhere v x.0 x.1) ],
          ),
          (
            there,
            λ x. elim (Bool-cases r.is_valid) [
              | inl v ↦ v
              | inr v ↦ absurd (nowhere v r.metadata x)
            ],
          ),
          same,
        )

    -- Given functions that keep the contract of fd_boot.h, metadata on a 64-byte boundary, an
    -- update storage of at least 64 bytes, and fixed ranges that do not wrap, if
    -- `fd_boot_get_update_metadata` returns true with `is_valid`, the update storage holds the
    -- magic numbers, an executable of whole blocks whose length fills it, and a digest of the
    -- whole that equals the stored hash, and the metadata that is returned is the stored one.
    pub get_update_metadata_seals :
        (m m' : Machine W) (r : UpdateResult)
        → get_update_metadata interface m ≡ (ok r, m')
        → r.is_valid ≡ true
        → IsSealed c.digest c.layout (c.memory m.world).update r.metadata
    get_update_metadata_seals m m' r e v =
        let checks =
          (Triple-ok (get_update_metadata-Reports c sound (c.memory m.world) laid_out) refl e).0
            v in
        checks.sealed

    -- Given functions that keep the contract of fd_boot.h, metadata on a 64-byte boundary, an
    -- update storage of at least 64 bytes, and fixed ranges that do not wrap, neither
    -- `fd_boot_get_executable_metadata` nor `fd_boot_get_update_metadata` changes the flash or
    -- the update storage, whatever it finds and whether it fails.
    pub checks_change_nothing :
        (m : Machine W)
        → (c.memory (get_executable_metadata interface m).1.world ≡ c.memory m.world)
          × (c.memory (get_update_metadata interface m).1.world ≡ c.memory m.world)
    checks_change_nothing m = (
      Outcome_either (get_executable_metadata interface m) (λ r m' o. o.2) (λ m' o. o)
          ((get_executable_metadata-Reports c sound (c.memory m.world) laid_out).runs m refl),
      Outcome_either (get_update_metadata interface m) (λ r m' o. o.1) (λ m' o. o)
          ((get_update_metadata-Reports c sound (c.memory m.world) laid_out).runs m refl),
    )
