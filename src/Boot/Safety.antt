-- ===== src/Boot/Safety.antt =====
-- The promises of `fd_boot_update`: it accepts only an executable that checks, and touches the flash
-- only for an update that checks and that its rules allow.
use firefly_zephyr.Base.{◌≡◌, refl, sym, ◌⊎◌, inl, inr, true, false, not}
use firefly_zephyr.Boot.Types.{
  ExecutableMetadata, ExecutableResult, UpdateMetadata, UpdateResult, BootResult, BootIssue, Action,
  no_action, run,
}
use mathlib.Core.Path.{subst}
use firefly_zephyr.Boot.Interface.{M, Machine, Result, ok, fail, Interface}
use firefly_zephyr.Boot.Executable.{get_executable_metadata}
use firefly_zephyr.Boot.Action.{get_action}
use firefly_zephyr.Boot.Run.{update, take_action, install_and_check, boot_valid, boot_issue}
use firefly_zephyr.Boot.Install
use firefly_zephyr.Boot.Triple.{
  Triple, Outcome, Outcome-mono, Triple-bind, Triple-pure, Triple-if, Triple_mono,
  Triple_given_both,
}
use firefly_zephyr.Boot.Contract.{Memory, Contract, IsSound, Holds}
use firefly_zephyr.Boot.Verified.{IsLaidOut, IsVerified, not→true, get_executable_metadata-Reports}
use firefly_zephyr.Boot.Rules.{IsOlder, MayInstall, get_action-install, get_action-run}
use firefly_zephyr.Boot.Sealed.{IsChecked, get_update_metadata-Reports}

-- Which update may be written over the flash that `mem` holds.
pub record IsAllowed {W : Type 0} {interface : Interface W} (c : Contract interface)
    (sound : IsSound c) (mem : Memory) : Type 0 where
  pub metadata : UpdateMetadata
  pub checks : IsChecked c sound mem metadata
  pub rule :
      ((current : ExecutableMetadata) × IsVerified c.digest c.layout mem.executable current
        × (IsOlder current.version metadata.executable_metadata.version
              × (interface.can_upgrade current.version metadata.executable_metadata.version ≡ true)
            ⊎ IsOlder metadata.executable_metadata.version current.version
              × (interface.can_downgrade current.version metadata.executable_metadata.version
                  ≡ true)))
      ⊎ (((current : ExecutableMetadata) → ¬ (IsVerified c.digest c.layout mem.executable current))
          × (interface.can_install metadata.executable_metadata.version ≡ true))

module _ {W : Type 0} {interface : Interface W} (c : Contract interface) (sound : IsSound c)
    (laid_out : IsLaidOut c.layout) where
  -- The flash holds a verified executable.
  abbrev pub Accepted : Machine W → Type 0
  Accepted m =
      (metadata : ExecutableMetadata) × IsVerified c.digest c.layout (c.memory m.world).executable
        metadata

  abbrev AcceptsResult : BootResult → Machine W → Type 0
  AcceptsResult r m = r.is_valid ≡ true → Accepted m

  abbrev Any : Machine W → Type 0
  Any m = Unit {0}

  Any-Triple : {A : Type 0} (a : M W A) → Triple Any a (λ x. Any) Any
  Any-Triple {A} a = record { runs = λ m h. any (a m) }
    where
      any : (r : Result A × Machine W) → Outcome (λ x. Any) Any r
      any (ok x, m) = tt
      any (fail, m) = tt

  check_again :
      Triple Any (get_executable_metadata interface) (λ r m. r.is_valid ≡ true → Accepted m) Any
  check_again = record {
    runs = λ m h.
        Outcome-mono (get_executable_metadata interface m)
          (λ r m' o e. (
            r.metadata,
            subst (λ k. IsVerified c.digest c.layout k.executable r.metadata) (sym o.2) (o.0 e),
          ))
          (λ m' o. tt)
          ((get_executable_metadata-Reports c sound (c.memory m.world) laid_out).runs m refl);
  }

  install_and_check-Accepts :
      (metadata : UpdateMetadata)
      → Triple Any (install_and_check interface metadata) AcceptsResult Any
  unfolding install_and_check
  install_and_check-Accepts metadata =
      Triple-bind (Any-Triple (Install.install interface metadata)) (λ u.
        Triple-bind check_again (λ r.
          Triple-if (not r.is_valid) (λ t. Triple-pure (boot_issue BootIssue.update) (λ m h e. cc))
            (λ t. Triple-pure boot_valid (λ m h e. h (not→true r.is_valid t)))))

  -- Both checks of `fd_boot_update`, and what they say of the memories, which they leave alone.
  module _ (mem : Memory) where
    allowed :
        (executable : ExecutableResult) (update : UpdateResult)
        → (executable.is_valid ≡ true
            → IsVerified c.digest c.layout mem.executable executable.metadata)
        → (executable.is_valid ≡ false
            → (current : ExecutableMetadata)
            → ¬ (IsVerified c.digest c.layout mem.executable current))
        → (update.is_valid ≡ true → IsChecked c sound mem update.metadata)
        → MayInstall interface.can_upgrade interface.can_downgrade interface.can_install executable
            update
        → IsAllowed c sound mem
    allowed executable update there nowhere checks (MayInstall.newer v e o u) = record {
      metadata = update.metadata;
      checks = checks v;
      rule = inl (executable.metadata, there e, inl (o, u));
    }
    allowed executable update there nowhere checks (MayInstall.older v e o d) = record {
      metadata = update.metadata;
      checks = checks v;
      rule = inl (executable.metadata, there e, inr (o, d));
    }
    allowed executable update there nowhere checks (MayInstall.first v e f) = record {
      metadata = update.metadata;
      checks = checks v;
      rule = inr (nowhere e, f);
    }

    -- What both checks say before the action is chosen.
    abbrev Checked : ExecutableResult → UpdateResult → Machine W → Type 0
    Checked executable update m =
        (executable.is_valid ≡ true
          → IsVerified c.digest c.layout mem.executable executable.metadata)
        × (executable.is_valid ≡ false
            → (current : ExecutableMetadata)
            → ¬ (IsVerified c.digest c.layout mem.executable current))
        × (update.is_valid ≡ true → IsChecked c sound mem update.metadata)
        × Holds c mem m

    abbrev chosen : ExecutableResult → UpdateResult → Action
    chosen executable update =
        get_action interface.can_upgrade interface.can_downgrade interface.can_install executable
          update

    abbrev Guarded : Machine W → Type 0
    Guarded m = Holds c mem m ⊎ IsAllowed c sound mem

    abbrev Safe : BootResult → Machine W → Type 0
    Safe r m = AcceptsResult r m × Guarded m

    take_action-Safe :
        (executable : ExecutableResult) (update : UpdateResult) (action : Action)
        → chosen executable update ≡ action
        → Triple
            (Checked executable update)
            (take_action interface update.metadata action)
            Safe
            Guarded
    unfolding take_action
    take_action-Safe executable update no_action e =
        Triple-pure (boot_issue BootIssue.firmware) (λ m h. ((λ v. cc), inl h.3))
    take_action-Safe executable update run e = Triple-pure boot_valid (λ m h. (
      (λ v. (
        executable.metadata,
        subst (λ k. IsVerified c.digest c.layout k.executable executable.metadata) (sym h.3)
            (h.0 (get_action-run _ _ _ executable update e)),
      )),
      inl h.3,
    ))
    take_action-Safe executable update Action.install e = record {
      runs = λ m h.
          let may =
            allowed executable update h.0 h.1 h.2
              ((get_action-install _ _ _ executable update).0 e) in
          Outcome-mono (install_and_check interface update.metadata m) (λ r m' o. (o, inr may))
            (λ m' o. inr may) ((install_and_check-Accepts update.metadata).runs m tt);
    }

    update-Safe : Triple (Holds c mem) (update interface) Safe Guarded
    unfolding update
    update-Safe =
        Triple-bind
          (Triple_mono (λ m h. h) (λ r m h. h) (λ m h. inl h)
            (get_executable_metadata-Reports c sound mem laid_out))
          (λ executable. Triple_given_both (λ there nowhere.
            Triple-bind
              (Triple_mono (λ m h. h) (λ r m h. (there, nowhere, h.0, h.1)) (λ m h. inl h)
                (get_update_metadata-Reports c sound mem laid_out))
              (λ u. take_action-Safe executable u (chosen executable u) refl)))

  -- Given functions that keep the contract of fd_boot.h, metadata on a 64-byte boundary, an
  -- update storage of at least 64 bytes, and fixed ranges that do not wrap, if `fd_boot_update`
  -- returns true with `is_valid`, the flash as it is then, installed just now or not, holds a
  -- verified executable: right magic numbers in front and behind, and a digest that equals the
  -- stored hash.
  pub update_accepts :
      (m m' : Machine W) (r : BootResult)
      → update interface m ≡ (ok r, m')
      → r.is_valid ≡ true
      → (metadata : ExecutableMetadata) × IsVerified c.digest c.layout
          (c.memory m'.world).executable
          metadata
  update_accepts m m' r e valid =
      (subst (Outcome (Safe (c.memory m.world)) (Guarded (c.memory m.world))) e
          ((update-Safe (c.memory m.world)).runs m refl)).0
        valid
