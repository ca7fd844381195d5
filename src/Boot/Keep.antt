-- ===== src/Boot/Keep.antt =====
-- Looking at an update, decrypting included, changes neither memory.
use firefly_zephyr.Base.{ℕ, zero, suc, ◌≡◌, refl, ◌∙◌, Bool, List, [], ltb, ◌++◌, if◌then◌else◌}
use firefly_zephyr.Base.Words.{bytes_eq}
use firefly_zephyr.Boot.Types.{Range}
use firefly_zephyr.Boot.Interface.{M, Machine, Interface, Reader, pure, act, require, ◌>>=◌}
use firefly_zephyr.Boot.Hash.{hash_loop, check_hash}
use firefly_zephyr.Boot.Triple.{
  Triple, Outcome-mono, Triple-bind, Triple-pure, Triple-if, Triple_mono,
}
use firefly_zephyr.Boot.Contract.{Memory, Contract, IsSound, Holds, Hashing, Silent}
use firefly_zephyr.Boot.Image.{bytes_of}
use firefly_zephyr.Boot.HashLoop.{require-Holds}

module _ {W : Type 0} {interface : Interface W} (c : Contract interface) (sound : IsSound c)
    (mem : Memory) where
  abbrev pub Keeps : {A : Type 0} → M W A → Type 0
  Keeps a = Triple (Holds c mem) a (λ x. Holds c mem) (Holds c mem)

  -- What a call does while any hash is under way, said without the hash.
  pub Holds-of :
      {A : Type 0} {a : M W A} (context : List ℕ) (Q : List ℕ → A → Machine W → Type 0)
      (Q' : A → Machine W → Type 0)
      → ((s : List ℕ) → Triple (Hashing c mem context s) a (Q s) (Holds c mem))
      → ((s : List ℕ) (x : A) (m : Machine W) → Q s x m → Q' x m)
      → Triple (Holds c mem) a Q' (Holds c mem)
  Holds-of {a = a} context Q Q' t out = record {
    runs = λ m h.
        Outcome-mono (a m) (out (c.absorbed m.world context)) (λ m' o. o)
          ((t (c.absorbed m.world context)).runs m (h, refl));
  }

  pub Keeps-of :
      {A : Type 0} {a : M W A} (context : List ℕ) (Q : List ℕ → A → Machine W → Type 0)
      → ((s : List ℕ) → Triple (Hashing c mem context s) a (Q s) (Holds c mem))
      → ((s : List ℕ) (x : A) (m : Machine W) → Q s x m → Holds c mem m)
      → Keeps a
  Keeps-of context Q t out = Holds-of context Q (λ x. Holds c mem) t out

  pub silent-Holds :
      {A : Type 0} {a : M W A} {Q : A → Type 0}
      → Silent c a Q
      → Triple (Holds c mem) a (λ x m. Q x × Holds c mem m) (Holds c mem)
  silent-Holds {Q = Q} t =
      Holds-of [] (λ s x m. Q x × Hashing c mem [] s m) (λ x m. Q x × Holds c mem m) (t mem [])
        (λ s x m h. (h.0, h.1.0))

  pub executable_read-Holds :
      (location length : ℕ)
      → Triple
          (Holds c mem)
          (interface.executable_read location length)
          (λ x m. (x ≡ bytes_of mem.executable location length) × Holds c mem m)
          (Holds c mem)
  executable_read-Holds location length =
      Holds-of [] (λ s x m. (x ≡ bytes_of mem.executable location length) × Hashing c mem [] s m)
        (λ x m. (x ≡ bytes_of mem.executable location length) × Holds c mem m)
        (λ s. sound.executable_read_lem mem [] s location length) (λ s x m h. (h.0, h.1.0))

  pub update_read-Holds :
      (location length : ℕ)
      → Triple
          (Holds c mem)
          (interface.update_read location length)
          (λ x m. (x ≡ bytes_of mem.update location length) × Holds c mem m)
          (Holds c mem)
  update_read-Holds location length =
      Holds-of [] (λ s x m. (x ≡ bytes_of mem.update location length) × Hashing c mem [] s m)
        (λ x m. (x ≡ bytes_of mem.update location length) × Holds c mem m)
        (λ s. sound.update_read_lem mem [] s location length) (λ s x m h. (h.0, h.1.0))

  pub Keeps-of_silent : {A : Type 0} {a : M W A} {Q : A → Type 0} → Silent c a Q → Keeps a
  Keeps-of_silent {Q = Q} t =
      Keeps-of [] (λ s x m. Q x × Hashing c mem [] s m) (t mem []) (λ s x m h. h.1.0)

  pub Keeps-pure : {A : Type 0} (x : A) → Keeps (pure x)
  Keeps-pure x = Triple-pure x (λ m h. h)

  pub Keeps-require : (condition : Bool) → Keeps (require condition)
  Keeps-require condition =
      Triple_mono (λ m h. h) (λ x m h. h.1) (λ m h. h) (require-Holds c mem condition)

  pub Keeps-bind :
      {A B : Type 0} {a : M W A} {f : A → M W B}
      → Keeps a
      → ((x : A) → Keeps (f x))
      → Keeps (a >>= f)
  Keeps-bind k h = Triple-bind k h

  pub Keeps-if :
      {A : Type 0} {a b : M W A} (test : Bool) → Keeps a → Keeps b → Keeps (if test then a else b)
  Keeps-if test k h = Triple-if test (λ e. k) (λ e. h)

  pub Keeps-feed : Keeps (act interface.feed)
  unfolding act
  Keeps-feed = record { runs = λ m h. sound.feed_memory m.world ∙ h }

  pub Keeps-update_read : (location length : ℕ) → Keeps (interface.update_read location length)
  Keeps-update_read location length =
      Keeps-of [] (λ s x m. (x ≡ bytes_of mem.update location length) × Hashing c mem [] s m)
        (λ s. sound.update_read_lem mem [] s location length) (λ s x m h. h.1.0)

  Keeps-executable_read : (location length : ℕ) → Keeps (interface.executable_read location length)
  Keeps-executable_read location length =
      Keeps-of [] (λ s x m. (x ≡ bytes_of mem.executable location length) × Hashing c mem [] s m)
        (λ s. sound.executable_read_lem mem [] s location length) (λ s x m h. h.1.0)

  Keeps-hash_update : (context bytes : List ℕ) → Keeps (interface.hash_update context bytes)
  Keeps-hash_update context bytes =
      Keeps-of context (λ s x m. Hashing c mem x (s ++ bytes) m)
        (λ s. sound.hash_update_lem mem context s bytes) (λ s x m h. h.0)

  Keeps-hash_finalize : (context : List ℕ) → Keeps (interface.hash_finalize context)
  Keeps-hash_finalize context =
      Keeps-of context (λ s x m. (x ≡ c.digest s) × Holds c mem m)
        (λ s. sound.hash_finalize_lem mem context s) (λ s x m h. h.1)

  Keeps-hash_initialize : Keeps interface.hash_initialize
  Keeps-hash_initialize =
      Triple_mono (λ m h. h) (λ x m h. h.0) (λ m h. h) (sound.hash_initialize_lem mem)

  pub Keeps-decrypt_initialize :
      (key vector : List ℕ) → Keeps (interface.decrypt_initialize key vector)
  Keeps-decrypt_initialize key vector = Keeps-of_silent (sound.decrypt_initialize_lem key vector)

  pub Keeps-decrypt_update :
      (context bytes : List ℕ) → Keeps (interface.decrypt_update context bytes)
  Keeps-decrypt_update context bytes = Keeps-of_silent (sound.decrypt_update_lem context bytes)

  pub Keeps-decrypt_finalize : (context : List ℕ) → Keeps (interface.decrypt_finalize context)
  Keeps-decrypt_finalize context = Keeps-of_silent (sound.decrypt_finalize_lem context)

  abbrev pub KeepsReader : {C : Type 0} → Reader W C → Type 0
  KeepsReader {C} reader =
      (context : C) (location length : ℕ) → Keeps (reader context location length)

  module _ {C : Type 0} {reader : Reader W C} (reads : KeepsReader reader) where
    Keeps-hash_loop :
        (fuel : ℕ) (z : Range) (end location : ℕ) (context : C) (hash_context : List ℕ)
        → Keeps (hash_loop interface reader fuel z end location context hash_context)
    unfolding hash_loop
    Keeps-hash_loop zero z end location context hash_context = Keeps-pure (context, hash_context)
    Keeps-hash_loop (suc fuel) z end location context hash_context =
        Keeps-if (ltb location end)
          (Keeps-bind Keeps-feed (λ u. Keeps-bind (reads context location _) (λ x.
            Keeps-bind (Keeps-hash_update hash_context _)
              (λ hash_context'. Keeps-hash_loop fuel z end _ x.0 hash_context'))))
          (Keeps-pure (context, hash_context))

    pub Keeps-check_hash :
        (context : C) (storage range z : Range) (hash : List ℕ)
        → Keeps (check_hash interface reader context storage range z hash)
    unfolding check_hash
    Keeps-check_hash context storage range z hash = Keeps-bind (Keeps-require _) (λ u.
        Keeps-bind Keeps-hash_initialize (λ hash_context.
          Keeps-bind (Keeps-hash_loop _ z _ _ context hash_context) (λ x.
            Keeps-bind (Keeps-hash_finalize x.1) (λ out. Keeps-pure (x.0, bytes_eq out hash)))))
