-- ===== src/Boot/Device.antt =====
-- A device to run the boot loader on: two memories as lists of bytes, a hash that adds up the bytes,
-- and a cipher that changes nothing.
use firefly_zephyr.Base.{ℕ, ◌+◌, ◌%◌, ◌/◌, refl, ap, List, [], ◌∷◌, ◌++◌, replicate}
use firefly_zephyr.Base.Bytes.{byte_at, copy_in}
use firefly_zephyr.Boot.Interface.{M, Interface, ok, pure}
use firefly_zephyr.Boot.Action.{can_upgrade, can_downgrade, can_install}
use firefly_zephyr.Boot.Image.{bytes_of}
use firefly_zephyr.Boot.Contract.{Memory, Layout, Contract, IsSound}

pub record Device : Type 0 where
  pub flash : List ℕ
  pub storage : List ℕ
  pub absorbed : List ℕ

unfoldable pub add_bytes : List ℕ → ℕ
add_bytes [] = 0
add_bytes (x ∷ xs) = (x + add_bytes xs) % 256

unfoldable pub digest : List ℕ → List ℕ
unfolding add_bytes
digest bytes = add_bytes bytes ∷ replicate 19 0

abbrev pub layout : Layout
layout = record {
  executable_storage = record { location = 0; length = 256 };
  executable = record { location = 0; metadata_offset = 64 };
  update_storage = record { location = 0; length = 320 };
}

abbrev pub absorb : List ℕ → M Device (List ℕ)
absorb bytes m =
    (ok [], record m { world = record (m.world) { absorbed = m.world.absorbed ++ bytes } })

abbrev pub device : Interface Device
device = record {
  get_executable_storage = pure layout.executable_storage;
  get_executable = pure layout.executable;
  get_update_storage = pure layout.update_storage;
  get_decryption = pure (replicate 16 7);
  progress = λ i n w. w;
  feed = λ w. w;
  hash_initialize = λ m. (ok [], record m { world = record (m.world) { absorbed = [] } });
  hash_update = λ context bytes. absorb bytes;
  hash_finalize = λ context m. (ok (digest m.world.absorbed), m);
  decrypt_initialize = λ key vector. pure vector;
  decrypt_update = λ context bytes. pure (context, bytes);
  decrypt_finalize = λ context. pure tt;
  executable_read = λ l n m. (ok (bytes_of (byte_at m.world.flash) l n), m);
  update_read = λ l n m. (ok (bytes_of (byte_at m.world.storage) l n), m);
  erase = λ l n m. (
    ok (l + n),
    record m { world = record (m.world) { flash = copy_in m.world.flash l (replicate n 255) } },
  );
  write = λ l bytes m.
      (ok tt, record m { world = record (m.world) { flash = copy_in m.world.flash l bytes } });
  flash_finalize = pure tt;
  can_upgrade = can_upgrade;
  can_downgrade = can_downgrade;
  can_install = can_install;
  cleanup = pure tt;
  start = λ l. pure tt;
}

abbrev pub contract : Contract device
contract = record {
  memory = λ w. record { executable = byte_at w.flash; update = byte_at w.storage };
  layout = layout;
  absorbed = λ w context. w.absorbed;
  digest = digest;
}

pub device-IsSound : IsSound contract
device-IsSound = record {
  executable_storage_lem = λ mem context s. record { runs = λ m h. (refl, h) };
  executable_lem = λ mem context s. record { runs = λ m h. (refl, h) };
  update_storage_lem = λ mem context s. record { runs = λ m h. (refl, h) };
  decryption_lem = λ mem context s. record { runs = λ m h. (tt, h) };
  feed_memory = λ w. refl;
  feed_absorbed = λ w context. refl;
  progress_memory = λ w i n. refl;
  executable_read_lem = λ mem context s l n. record {
    runs = λ m h. (ap (λ (k : Memory). bytes_of k.executable l n) h.0, h);
  };
  update_read_lem = λ mem context s l n. record {
    runs = λ m h. (ap (λ (k : Memory). bytes_of k.update l n) h.0, h);
  };
  decrypt_initialize_lem = λ key vector mem context s. record { runs = λ m h. (tt, h) };
  decrypt_update_lem = λ context bytes mem context' s. record { runs = λ m h. (tt, h) };
  decrypt_finalize_lem = λ context mem context' s. record { runs = λ m h. (tt, h) };
  hash_initialize_lem = λ mem. record { runs = λ m h. (h, refl) };
  hash_update_lem = λ mem context s bytes. record { runs = λ m h. (h.0, ap (λ t. t ++ bytes) h.1) };
  hash_finalize_lem = λ mem context s. record { runs = λ m h. (ap digest h.1, h.0) };
}

-- Little-endian words.
abbrev word : ℕ → List ℕ → List ℕ
word n rest = n % 256 ∷ n / 256 % 256 ∷ n / 65536 % 256 ∷ n / 16777216 ∷ rest

-- An executable of 128 bytes: 64 bytes of code, the metadata with this version and hash, and the
-- trailer. `sum` is the byte of the digest that is not zero.
abbrev pub executable_image : ℕ → ℕ → List ℕ
executable_image patch sum =
    replicate 64 1
    ++ (word 0xb001da1a (word 1 (word 1 (word 2 (word patch (word 128 (sum ∷ replicate 19 0))))))
        ++ (replicate 16 0 ++ word 0xb001e00d []))

-- An update of 320 bytes, not encrypted, with that executable inside. `fill` makes up the sum that
-- is checked for the executable, and `seal` is that of the whole.
abbrev pub update_image : ℕ → ℕ → ℕ → ℕ → List ℕ
update_image patch sum fill seal =
    word 0xab09da1e (word 1 (word 1 (word 2 (word patch (word 128 (sum ∷ replicate 19 0))))))
    ++ ((seal ∷ replicate 19 0)
        ++ (replicate 20 0
            ++ ((fill ∷ replicate 43 0)
                ++ (executable_image patch sum ++ (replicate 60 0 ++ word 0xda1ee00d [])))))
