-- ===== src/Boot/Contract.antt =====
-- What the boot loader relies on in the functions that it is handed, as the comments of fd_boot.h
-- describe them: the readers read, the hash absorbs what it is given, and only the flasher writes.
use firefly_zephyr.Base.{ℕ, ◌≡◌, List, [], ◌++◌}
use firefly_zephyr.Boot.Types.{Range, InfoExecutable}
use firefly_zephyr.Boot.Interface.{M, Machine, Interface}
use firefly_zephyr.Boot.Image.{bytes_of}
use firefly_zephyr.Boot.Triple.{Triple}

-- The two memories that the readers read.
pub record Memory : Type 0 where
  pub executable : ℕ → ℕ
  pub update : ℕ → ℕ

-- The fixed answers of `info`.
pub record Layout : Type 0 where
  pub executable_storage : Range
  pub executable : InfoExecutable
  pub update_storage : Range

pub record Contract {W : Type 0} (interface : Interface W) : Type 0 where
  pub memory : W → Memory
  pub layout : Layout
  -- What the hash with this context has absorbed, and the hash function.
  pub absorbed : W → List ℕ → List ℕ
  pub digest : List ℕ → List ℕ

module _ {W : Type 0} {interface : Interface W} (c : Contract interface) where
  abbrev pub Holds : Memory → Machine W → Type 0
  Holds mem m = c.memory m.world ≡ mem

  -- A hash is under way, and has absorbed `s`.
  abbrev pub Hashing : Memory → List ℕ → List ℕ → Machine W → Type 0
  Hashing mem context s m = Holds mem m × (c.absorbed m.world context ≡ s)

  -- The call, failing or not, leaves the memories and any hash under way as they are.
  abbrev pub Silent : {A : Type 0} → M W A → (A → Type 0) → Type 0
  Silent a Q =
      (mem : Memory) (context s : List ℕ)
      → Triple (Hashing mem context s) a (λ x m. Q x × Hashing mem context s m) (Holds mem)

  pub record IsSound : Type 0 where
    pub executable_storage_lem :
        Silent interface.get_executable_storage (λ x. x ≡ c.layout.executable_storage)
    pub executable_lem : Silent interface.get_executable (λ x. x ≡ c.layout.executable)
    pub update_storage_lem : Silent interface.get_update_storage (λ x. x ≡ c.layout.update_storage)
    pub decryption_lem : Silent interface.get_decryption (λ x. Unit)
    pub feed_memory : (w : W) → c.memory (interface.feed w) ≡ c.memory w
    pub feed_absorbed :
        (w : W) (context : List ℕ) → c.absorbed (interface.feed w) context ≡ c.absorbed w context
    pub progress_memory : (w : W) (i n : ℕ) → c.memory (interface.progress i n w) ≡ c.memory w
    pub executable_read_lem :
        (mem : Memory) (context s : List ℕ) (location length : ℕ)
        → Triple
            (Hashing mem context s)
            (interface.executable_read location length)
            (λ x m. (x ≡ bytes_of mem.executable location length) × Hashing mem context s m)
            (Holds mem)
    pub update_read_lem :
        (mem : Memory) (context s : List ℕ) (location length : ℕ)
        → Triple
            (Hashing mem context s)
            (interface.update_read location length)
            (λ x m. (x ≡ bytes_of mem.update location length) × Hashing mem context s m)
            (Holds mem)
    pub decrypt_initialize_lem :
        (key vector : List ℕ) → Silent (interface.decrypt_initialize key vector) (λ x. Unit)
    pub decrypt_update_lem :
        (context bytes : List ℕ) → Silent (interface.decrypt_update context bytes) (λ x. Unit)
    pub decrypt_finalize_lem :
        (context : List ℕ) → Silent (interface.decrypt_finalize context) (λ x. Unit)
    pub hash_initialize_lem :
        (mem : Memory)
        → Triple
            (Holds mem)
            interface.hash_initialize
            (λ context. Hashing mem context [])
            (Holds mem)
    pub hash_update_lem :
        (mem : Memory) (context s bytes : List ℕ)
        → Triple
            (Hashing mem context s)
            (interface.hash_update context bytes)
            (λ context'. Hashing mem context' (s ++ bytes))
            (Holds mem)
    pub hash_finalize_lem :
        (mem : Memory) (context s : List ℕ)
        → Triple
            (Hashing mem context s)
            (interface.hash_finalize context)
            (λ out m. (out ≡ c.digest s) × Holds mem m)
            (Holds mem)
