-- ===== src/Boot/Interface.antt =====
-- `fd_boot_update_interface_t`: the functions that the application hands to the boot loader. They
-- are not the boot loader's, so they are a parameter here, over any type `W` of device states.
use firefly_zephyr.Base.{ℕ, Bool, List, if◌then◌else◌}
use firefly_zephyr.Boot.Types.{Range, Version, InfoExecutable}

-- The result `true`, with what went through the out parameters, or `false`. What the code leaves
-- in `*result` beside `false` is not kept: its callers do not read it.
pub data Result {ℓ} (A : Type ℓ) : Type ℓ where
  ok : A → Result A
  fail : Result A

-- The device, and the `code` of the `fd_boot_error_t` that every call carries.
pub record Machine (W : Type 0) : Type 0 where
  pub world : W
  pub error : ℕ

abbrev pub M : Type 0 → Type 0 → Type 0
M W A = Machine W → Result A × Machine W

module _ {W : Type 0} where
  abbrev pub pure : {A : Type 0} → A → M W A
  pure a m = (ok a, m)

  abbrev pub bind : {A B : Type 0} → Result A × Machine W → (A → M W B) → Result B × Machine W
  bind (ok a, m) f = f a m
  bind (fail, m) f = (fail, m)

  infixl 5 ◌>>=◌ ◌>>◌
  abbrev pub ◌>>=◌ : {A B : Type 0} → M W A → (A → M W B) → M W B
  ◌>>=◌ a f m = bind (a m) f

  abbrev pub ◌>>◌ : {A B : Type 0} → M W A → M W B → M W B
  a >> b = a >>= λ _. b

  -- `fd_boot_set_error(error, code)`, and `return false` behind it.
  unfoldable pub set_error : ℕ → M W (Unit {0})
  set_error code m = (ok tt, record m { error = code })

  abbrev pub failed : {A : Type 0} → M W A
  failed m = (fail, m)

  -- `if (!condition) { fd_boot_set_error(error, 1); return false; }`
  unfoldable pub require : Bool → M W (Unit {0})
  unfolding set_error
  require condition = if condition then pure tt else (set_error 1 >> failed)

  -- A call of a function that returns nothing.
  unfoldable pub act : (W → W) → M W (Unit {0})
  act f m = (ok tt, record m { world = f m.world })

pub record Interface (W : Type 0) : Type 0 where
  -- info
  pub get_executable_storage : M W Range
  pub get_executable : M W InfoExecutable
  pub get_update_storage : M W Range
  pub get_decryption : M W (List ℕ)
  -- status: the amount is a fraction, here its two numbers
  pub progress : ℕ → ℕ → W → W
  -- watchdog
  pub feed : W → W
  -- hash: each call returns the new context
  pub hash_initialize : M W (List ℕ)
  pub hash_update : List ℕ → List ℕ → M W (List ℕ)
  pub hash_finalize : List ℕ → M W (List ℕ)
  -- decrypt
  pub decrypt_initialize : List ℕ → List ℕ → M W (List ℕ)
  pub decrypt_update : List ℕ → List ℕ → M W (List ℕ × List ℕ)
  pub decrypt_finalize : List ℕ → M W (Unit {0})
  -- readers: location and length
  pub executable_read : ℕ → ℕ → M W (List ℕ)
  pub update_read : ℕ → ℕ → M W (List ℕ)
  -- executable_flasher: `erase` returns the next location to erase
  pub erase : ℕ → ℕ → M W ℕ
  pub write : ℕ → List ℕ → M W (Unit {0})
  pub flash_finalize : M W (Unit {0})
  -- action
  pub can_upgrade : Version → Version → Bool
  pub can_downgrade : Version → Version → Bool
  pub can_install : Version → Bool
  -- executor
  pub cleanup : M W (Unit {0})
  pub start : ℕ → M W (Unit {0})

-- `fd_boot_reader_interface_t`: `C` is what its `context` points to, which a read may change.
abbrev pub Reader : Type 0 → Type 0 → Type 0
Reader W C = C → ℕ → ℕ → M W (C × List ℕ)

-- A reader without a context of the boot loader's.
abbrev pub plain : {W : Type 0} → (ℕ → ℕ → M W (List ℕ)) → Reader W (Unit {0})
plain read c location length = do bytes ← read location length; pure (c, bytes)
