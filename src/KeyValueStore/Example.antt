-- ===== src/KeyValueStore/Example.antt =====
-- Two pages of 64 bytes, each of two erase blocks, and messages of two bytes.
use firefly_zephyr.Base.{
  ℕ, ◌≡◌, refl, true, false, some, List, [], ◌∷◌, length-replicate, replicate, arith,
}
use firefly_zephyr.Base.Bytes.{copy_in, byte_at-replicate}
use firefly_zephyr.KeyValueStore.Types.{FlashArea, Codec, Store}
use firefly_zephyr.KeyValueStore.Api.{add}
use firefly_zephyr.KeyValueStore.Contract.{IsFlash}
use firefly_zephyr.KeyValueStore.Invariant.{IsStore}
use firefly_zephyr.KeyValueStore.Commit.{Added}
use firefly_zephyr.KeyValueStore.Adding.{IsCodec}
use firefly_zephyr.KeyValueStore.Allocating.{add-Added}
use firefly_zephyr.KeyValueStore.Adds.{Added-IsStore}
use firefly_zephyr.KeyValueStore.Blank.{Geometry, IsStore-Blank}

abbrev pub flash_area : FlashArea
flash_area = record {
  opens = λ f. true;
  erases = λ f offset n. (true, copy_in f offset (replicate n 255));
  writes = λ f offset bytes. (true, copy_in f offset bytes);
}

abbrev pub flash_area-IsFlash : IsFlash flash_area
flash_area-IsFlash = record {
  opens = λ f. refl;
  writes_erased = λ f offset bytes a b c d. refl;
  erase_size = 32;
  erases = λ f i n a. refl;
}

abbrev pub second_byte : List ℕ → ℕ
second_byte [] = 0
second_byte (x ∷ []) = 0
second_byte (x ∷ (y ∷ rest)) = y

-- A number behind its tag, each a run.
abbrev pub number : Codec ℕ
number = record {
  encoded_size = λ n. (true, 2);
  encode = λ n. (true, true, (8 ∷ []) ∷ (n ∷ []) ∷ []);
  decode = λ bytes. (true, true, second_byte bytes);
}

abbrev pub number_runs : IsCodec number
number_runs = record {
  runs = λ n. (8 ∷ []) ∷ (n ∷ []) ∷ [];
  sized = λ n. refl;
  encoded = λ n. refl;
  decoded = λ n. refl;
}

abbrev pub store_on : List ℕ → Store
store_on flash = record {
  page_count = 2;
  page_size = 64;
  minumum_write_size = 4;
  is_full = false;
  current = record { page = 0; data_byte_count = 0; metadata_count = 0 };
  data_write_offset = 0;
  ostream_state = record { buffer = replicate 16 0; count = 0 };
  garbage_collection_count = 0;
  equal_stream_state = record { value = 0; size = 0; count = 0; is_equal = true };
  listeners = [];
  flash = flash;
  notices = [];
  asserts = 0;
}

abbrev pub blank : Store
blank = store_on (replicate 128 255)

pub store_on-Geometry : (x : ℕ) → Geometry (store_on (replicate 128 x))
store_on-Geometry x = record {
  word = refl;
  page_size_le = omega arith;
  page_aligned = refl;
  le_page_size = omega arith;
  some_page = omega arith;
  in_flash = omega (arith, length-replicate 128 x);
  flash_lt = omega (arith, length-replicate 128 x);
  sixteen = refl;
}

pub blank-IsStore : IsStore blank
blank-IsStore =
    IsStore-Blank blank (store_on-Geometry 255)
      (λ j a b. byte_at-replicate 128 255 j (omega (arith, b))) (omega arith) refl refl

abbrev pub key : List ℕ
key = 99 ∷ 111 ∷ 110 ∷ 102 ∷ []

abbrev pub other_key : List ℕ
other_key = 99 ∷ 112 ∷ []

-- The store that holds 5.
pub held_and :
    (t : Store) × (add flash_area number key (some 5) blank ≡ some (true, t))
    × Added blank key (8 ∷ 5 ∷ []) 0 t
held_and =
    add-Added flash_area flash_area-IsFlash number number_runs key (some 5) blank blank-IsStore refl
      (omega arith)

abbrev pub held : Store
held = held_and.0

pub held-Added : Added blank key (8 ∷ 5 ∷ []) 0 held
held-Added = held_and.2

pub held-IsStore : IsStore held
held-IsStore =
    Added-IsStore blank key (8 ∷ 5 ∷ []) 0 held blank-IsStore (omega arith) held-Added (omega arith)
