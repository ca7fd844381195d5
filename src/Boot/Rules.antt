-- ===== src/Boot/Rules.antt =====
-- What `fd_boot_version_is_lt` and `fd_boot_get_action` decide.
use firefly_zephyr.Base.{
  ◌<◌, ◌≡◌, ◌⊎◌, ◌↔◌, true, false, arith, Bool, inl, inr, not, ◌&&◌, if◌then◌else◌,
}
use firefly_zephyr.Boot.Types.{Version, ExecutableResult, UpdateResult, Action, run, no_action}
use firefly_zephyr.Boot.Action.{version_is_eq, version_is_lt, get_action}

-- Versions in the order of their numbers.
pub record IsOlder (a b : Version) : Type 0 where
  pub older :
      (a.major < b.major)
      ⊎ (a.major ≡ b.major) × (a.minor < b.minor)
      ⊎ (a.major ≡ b.major) × (a.minor ≡ b.minor) × (a.patch < b.patch)

-- `fd_boot_version_is_lt` decides the order of versions by major, then minor, then patch number.
pub version_is_lt_iff : (a b : Version) → (version_is_lt a b ≡ true) ↔ IsOlder a b
unfolding version_is_lt
version_is_lt_iff a b = ((λ e. record { older = ground arith }), λ o. ground (arith, o.older))

-- When `fd_boot_get_action` installs: over a valid executable, a newer version that the rule for
-- upgrades allows, or an older one that the rule for downgrades allows; else what the rule for a
-- flash without an executable allows.
pub data MayInstall (upgrade downgrade : Version → Version → Bool) (fresh : Version → Bool)
    (executable : ExecutableResult) (update : UpdateResult) : Type 0 where
  newer :
      update.is_valid ≡ true
      → executable.is_valid ≡ true
      → IsOlder executable.metadata.version update.metadata.executable_metadata.version
      → upgrade executable.metadata.version update.metadata.executable_metadata.version ≡ true
      → MayInstall upgrade downgrade fresh executable update
  older :
      update.is_valid ≡ true
      → executable.is_valid ≡ true
      → IsOlder update.metadata.executable_metadata.version executable.metadata.version
      → downgrade executable.metadata.version update.metadata.executable_metadata.version ≡ true
      → MayInstall upgrade downgrade fresh executable update
  first :
      update.is_valid ≡ true
      → executable.is_valid ≡ false
      → fresh update.metadata.executable_metadata.version ≡ true
      → MayInstall upgrade downgrade fresh executable update

trichotomy :
    (a b : Version)
    → (version_is_eq b a ≡ true) × (version_is_lt a b ≡ false) × (version_is_lt b a ≡ false)
      ⊎ (version_is_eq b a ≡ false) × (version_is_lt a b ≡ true) × (version_is_lt b a ≡ false)
      ⊎ (version_is_eq b a ≡ false) × (version_is_lt a b ≡ false) × (version_is_lt b a ≡ true)
unfolding version_is_eq version_is_lt
trichotomy a b = ground arith

pick : (there sealed equal lower up down fresh : Bool) → Action
pick there sealed equal lower up down fresh =
    if there && sealed
    then if equal
      then run
      else if lower
      then if up then Action.install else run
      else if down
      then Action.install
      else run
    else if there && not sealed
    then run
    else if not there && sealed
    then if fresh then Action.install else no_action
    else no_action

pick-install :
    (there sealed equal lower up down fresh : Bool)
    → pick there sealed equal lower up down fresh ≡ Action.install
    → (sealed ≡ true)
      × ((there ≡ true) × (equal ≡ false) × (lower ≡ true) × (up ≡ true)
          ⊎ (there ≡ true) × (equal ≡ false) × (lower ≡ false) × (down ≡ true)
          ⊎ (there ≡ false) × (fresh ≡ true))
unfolding pick
pick-install there sealed equal lower up down fresh e = ground arith

pick_of :
    (there sealed equal lower up down fresh : Bool)
    → sealed ≡ true
    → (there ≡ true) × (equal ≡ false) × (lower ≡ true) × (up ≡ true)
      ⊎ (there ≡ true) × (equal ≡ false) × (lower ≡ false) × (down ≡ true)
      ⊎ (there ≡ false) × (fresh ≡ true)
    → pick there sealed equal lower up down fresh ≡ Action.install
unfolding pick
pick_of there sealed equal lower up down fresh e f = ground arith

-- Of two versions, one is lower or they are equal.
IsOlder-cases :
    (a b : Version) → version_is_eq b a ≡ false → version_is_lt a b ≡ false → IsOlder b a
IsOlder-cases a b e n = (version_is_lt_iff b a).0 (ground (arith, trichotomy a b))

newer-apart :
    (a b : Version) → IsOlder a b → (version_is_eq b a ≡ false) × (version_is_lt a b ≡ true)
newer-apart a b o = ground (arith, trichotomy a b, (version_is_lt_iff a b).1 o)

older-apart :
    (a b : Version) → IsOlder b a → (version_is_eq b a ≡ false) × (version_is_lt a b ≡ false)
older-apart a b o = ground (arith, trichotomy a b, (version_is_lt_iff b a).1 o)

-- `fd_boot_get_action` installs exactly if the update is valid and either the executable is
-- valid, older, and the rule for upgrades allows it, or the executable is valid, newer, and the
-- rule for downgrades allows it, or the executable is not valid and the rule for that case allows
-- it.
pub get_action-install :
    (upgrade downgrade : Version → Version → Bool) (fresh : Version → Bool)
    (executable : ExecutableResult) (update : UpdateResult)
    → (get_action upgrade downgrade fresh executable update ≡ Action.install)
      ↔ MayInstall upgrade downgrade fresh executable update
unfolding get_action pick version_is_eq version_is_lt
get_action-install upgrade downgrade fresh executable update = (λ e. to (picked e), from)
  where
    a : Version
    a = executable.metadata.version

    b : Version
    b = update.metadata.executable_metadata.version

    t : Bool
    t = executable.is_valid

    s : Bool
    s = update.is_valid

    Cases : Type 0
    Cases =
        (s ≡ true)
        × ((t ≡ true)
              × (version_is_eq b a ≡ false)
              × (version_is_lt a b ≡ true)
              × (upgrade a b ≡ true)
            ⊎ (t ≡ true)
              × (version_is_eq b a ≡ false)
              × (version_is_lt a b ≡ false)
              × (downgrade a b ≡ true)
            ⊎ (t ≡ false) × (fresh b ≡ true))

    picked : get_action upgrade downgrade fresh executable update ≡ Action.install → Cases
    picked e =
        pick-install t s (version_is_eq b a) (version_is_lt a b) (upgrade a b) (downgrade a b)
          (fresh b) e

    to : Cases → MayInstall upgrade downgrade fresh executable update
    to (v, inl (p, e, n, u)) = MayInstall.newer v p ((version_is_lt_iff a b).0 n) u
    to (v, inr (inl (p, e, n, d))) = MayInstall.older v p (IsOlder-cases a b e n) d
    to (v, inr (inr (p, f))) = MayInstall.first v p f

    from :
        MayInstall upgrade downgrade fresh executable update
        → get_action upgrade downgrade fresh executable update ≡ Action.install
    from (MayInstall.newer v p o u) =
        pick_of t s (version_is_eq b a) (version_is_lt a b) (upgrade a b) (downgrade a b) (fresh b)
          v (inl (p, (newer-apart a b o).0, (newer-apart a b o).1, u))
    from (MayInstall.older v p o d) =
        pick_of t s (version_is_eq b a) (version_is_lt a b) (upgrade a b) (downgrade a b) (fresh b)
          v (inr (inl (p, (older-apart a b o).0, (older-apart a b o).1, d)))
    from (MayInstall.first v p f) =
        pick_of t s (version_is_eq b a) (version_is_lt a b) (upgrade a b) (downgrade a b) (fresh b)
          v (inr (inr (p, f)))

pub get_action-run :
    (upgrade downgrade : Version → Version → Bool) (fresh : Version → Bool)
    (executable : ExecutableResult) (update : UpdateResult)
    → get_action upgrade downgrade fresh executable update ≡ run
    → executable.is_valid ≡ true
unfolding get_action
get_action-run upgrade downgrade fresh executable update e = ground arith
