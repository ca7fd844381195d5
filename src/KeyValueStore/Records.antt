-- ===== src/KeyValueStore/Records.antt =====
-- A metadata record that is written is read back, and erased flash is an unused record.
use firefly_zephyr.Base.{
  ℕ, ◌+◌, ◌-◌, ◌*◌, ◌/◌, ◌%◌, ◌^◌, ◌≤◌, ◌<◌, ◌≡◌, refl, ap, ◌∙◌, List, length, arith, bit_and,
}
use firefly_zephyr.Base.Bits.{bit_and_words}
use firefly_zephyr.Base.Bytes.{byte_at, copy_in, byte_at-copy_in_inside}
use firefly_zephyr.Base.Words.{uint32_at, add32}
use firefly_zephyr.Binary.{pack_uint16, pack_uint32}
use firefly_zephyr.KeyValueStore.Types.{Metadata, Store, flags_unused}
use firefly_zephyr.KeyValueStore.Pages.{metadata_at, pack_metadata, get_write_size, uint16_at}
use firefly_zephyr.KeyValueStore.Contract.{Erased}

-- A size in whole words.
abbrev pub words : ℕ → ℕ
words n = (n + 3) / 4 * 4

pub get_write_size-words :
    (n : ℕ) (s : Store) → s.minumum_write_size ≡ 4 → n + 3 < 2 ^ 32 → get_write_size n s ≡ words n
unfolding get_write_size
get_write_size-words n s e h =
    ap (λ k. bit_and (add32 n (k - 1)) (2 ^ 32 - 1 - (k - 1))) e
    ∙ ap (λ k. bit_and k (2 ^ 32 - 4)) (omega (arith, h))
    ∙ bit_and_words (n + 3) h

pub record Fits (m : Metadata) : Type 0 where
  pub flags : m.flags < 2 ^ 32
  pub key_offset : m.key_offset < 2 ^ 16
  pub key_size : m.key_size < 2 ^ 16
  pub value_offset : m.value_offset < 2 ^ 16
  pub value_size : m.value_size < 2 ^ 16

uint16_at-pack :
    (bytes : List ℕ) (o v : ℕ)
    → v < 2 ^ 16
    → byte_at bytes o ≡ v % 256
    → byte_at bytes (o + 1) ≡ v / 2 ^ 8 % 256
    → uint16_at bytes o ≡ v
uint16_at-pack bytes o v h a b = omega (arith, h, a, b)

uint32_at-pack :
    (bytes : List ℕ) (o v : ℕ)
    → v < 2 ^ 32
    → byte_at bytes o ≡ v % 256
    → byte_at bytes (o + 1) ≡ v / 2 ^ 8 % 256
    → byte_at bytes (o + 2) ≡ v / 2 ^ 16 % 256
    → byte_at bytes (o + 3) ≡ v / 2 ^ 24 % 256
    → uint32_at bytes o ≡ v
unfolding uint32_at
uint32_at-pack bytes o v h a b c d = omega (arith, h, a, b, c, d)

pub metadata_eq :
    (m n : Metadata)
    → m.flags ≡ n.flags
    → m.key_offset ≡ n.key_offset
    → m.key_size ≡ n.key_size
    → m.value_offset ≡ n.value_offset
    → m.value_size ≡ n.value_size
    → m ≡ n
metadata_eq m n a b c d e i = record {
  flags = a i;
  key_offset = b i;
  key_size = c i;
  value_offset = d i;
  value_size = e i;
}

-- The record read where one was written is that record.
pub metadata_at-pack :
    (flash : List ℕ) (o : ℕ) (m : Metadata)
    → o + 12 ≤ length flash
    → Fits m
    → metadata_at (copy_in flash o (pack_metadata m)) o ≡ m
unfolding pack_metadata pack_uint32 pack_uint16
metadata_at-pack flash o m h f =
    let at : (i : ℕ)
        → i < 12
        → (j : ℕ) → j ≡ o + i
        → byte_at (copy_in flash o (pack_metadata m)) j ≡ byte_at (pack_metadata m) i =
      λ i p j e. byte_at-copy_in_inside flash o (pack_metadata m) i j h p e in
    metadata_eq _ m
      (uint32_at-pack _ o m.flags f.flags (at 0 (omega arith) o (omega arith))
        (at 1 (omega arith) _ refl) (at 2 (omega arith) _ refl) (at 3 (omega arith) _ refl))
      (uint16_at-pack _ (o + 4) m.key_offset f.key_offset (at 4 (omega arith) _ refl)
        (at 5 (omega arith) _ (omega arith)))
      (uint16_at-pack _ (o + 6) m.key_size f.key_size (at 6 (omega arith) _ refl)
        (at 7 (omega arith) _ (omega arith)))
      (uint16_at-pack _ (o + 8) m.value_offset f.value_offset (at 8 (omega arith) _ refl)
        (at 9 (omega arith) _ (omega arith)))
      (uint16_at-pack _ (o + 10) m.value_size f.value_size (at 10 (omega arith) _ refl)
        (at 11 (omega arith) _ (omega arith)))

pub flags_unused_of :
    (flash : List ℕ) (o : ℕ) → Erased flash o (o + 12) → (metadata_at flash o).flags ≡ flags_unused
unfolding uint32_at
flags_unused_of flash o e = omega (
  arith,
  e o (omega arith) (omega arith),
  e (o + 1) (omega arith) (omega arith),
  e (o + 2) (omega arith) (omega arith),
  e (o + 3) (omega arith) (omega arith),
)

-- A record depends on its twelve bytes.
pub metadata_at_ext :
    (f g : List ℕ) (o : ℕ)
    → ((j : ℕ) → o ≤ j → j < o + 12 → byte_at f j ≡ byte_at g j)
    → metadata_at f o ≡ metadata_at g o
unfolding uint32_at
metadata_at_ext f g o h =
    let at : (i : ℕ) → i < 12 → byte_at f (o + i) ≡ byte_at g (o + i) =
      λ i p. h (o + i) (omega arith) (omega (arith, p)) in
    let first : byte_at f o ≡ byte_at g o = h o (omega arith) (omega arith) in
    let two : (i : ℕ) → i < 11 → uint16_at f (o + i) ≡ uint16_at g (o + i) = λ i p.
      omega (arith, at i (omega (arith, p)), h (o + i + 1) (omega arith) (omega (arith, p))) in
    metadata_eq _ _
      (omega (arith, first, at 1 (omega arith), at 2 (omega arith), at 3 (omega arith)))
      (two 4 (omega arith)) (two 6 (omega arith)) (two 8 (omega arith)) (two 10 (omega arith))
