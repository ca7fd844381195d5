-- ===== src/KeyValueStore/Commit.antt =====
-- Adding a record where there is room for it: its bytes, then its metadata, nothing else.
use mathlib.Core.Path.{subst}
use firefly_zephyr.Base.{
  ℕ, zero, suc, ◌+◌, ◌-◌, ◌*◌, ◌%◌, ◌^◌, ◌≤◌, ◌≡◌, refl, sym, ap, ap₂, ◌∙◌, inr, List, ◌++◌, length,
  length-append, arith,
}
use firefly_zephyr.Base.Bytes.{copy_in, length-copy_in, mul_mono}
use firefly_zephyr.Base.Words.{sub32}
use firefly_zephyr.KeyValueStore.Types.{
  FlashArea, Current, Metadata, metadata_size, OstreamState, Store, page_address,
}
use firefly_zephyr.KeyValueStore.Pages.{pack_metadata}
use firefly_zephyr.KeyValueStore.Stream.{ostream, nvm_write}
use firefly_zephyr.KeyValueStore.Collect.{set_commit}
use firefly_zephyr.KeyValueStore.Contract.{IsFlash, Erased, Erased-copy_in, nvm_write_lem}
use firefly_zephyr.KeyValueStore.Streaming.{cursor, Room}
use firefly_zephyr.KeyValueStore.Records.{words, metadata_eq}
use firefly_zephyr.KeyValueStore.Flushing.{Written}
use firefly_zephyr.KeyValueStore.Invariant.{IsStore}

abbrev pub new_metadata : Store → ℕ → ℕ → ℕ → Metadata
new_metadata s key_size value_size flags = record {
  flags = flags;
  key_offset = s.current.data_byte_count;
  key_size = key_size;
  value_offset = s.current.data_byte_count + key_size;
  value_size = value_size;
}

-- Where the next record goes.
abbrev pub record_address : Store → ℕ
record_address s =
    s.current.page * s.page_size + s.page_size - (s.current.metadata_count + 1) * metadata_size

-- `s` with the record.
abbrev pub committed : Store → List ℕ → Metadata → ℕ → OstreamState → Store
committed s body m size state = record s {
  flash =
      copy_in (copy_in s.flash (page_address s.current.page s + s.current.data_byte_count) body)
        (record_address s) (pack_metadata m);
  current = record s.current {
    data_byte_count = s.current.data_byte_count + size;
    metadata_count = s.current.metadata_count + 1;
  };
  data_write_offset = s.current.data_byte_count + size;
  ostream_state = state;
}

pub record Added (s : Store) (key value : List ℕ) (flags : ℕ) (t : Store) : Type 0 where
  pub padding : List ℕ
  pub size : length key + length value + length padding ≡ words (length key + length value)
  pub result :
      t
      ≡ record (committed s
          ((key ++ value) ++ padding)
          (new_metadata s (length key) (length value) flags)
          (words (length key + length value))
          t.ostream_state) { notices = t.notices }
  pub sixteen : length t.ostream_state.buffer ≡ 16

-- A record with data of `n` bytes, and the unused record behind it, fit the page.
abbrev pub HasRoom : Store → ℕ → Type 0
HasRoom s n = s.current.data_byte_count + 12 * s.current.metadata_count + words n + 24 ≤ s.page_size

pub length-pack_metadata : (m : Metadata) → length (pack_metadata m) ≡ 12
unfolding pack_metadata
length-pack_metadata m = refl

aligned_mul : (k n : ℕ) → n % 4 ≡ 0 → k * n % 4 ≡ 0
aligned_mul zero n h = omega arith
aligned_mul (suc k) n h = omega (arith, aligned_mul k n h, h)

module _ (area : FlashArea) (ok : IsFlash area) where
  pub record-Room :
      (s : Store) (n : ℕ)
      → IsStore s
      → s.data_write_offset ≡ s.current.data_byte_count
      → HasRoom s n
      → Room (ostream s) (words n)
  unfolding ostream
  record-Room s n w e r =
      let here : (s.current.page + 1) * s.page_size ≤ s.page_count * s.page_size =
        mul_mono (s.current.page + 1) s.page_count s.page_size (omega (arith, w.page_lt)) in
      record {
        aligned =
            omega (arith, e, w.data_aligned, aligned_mul s.current.page s.page_size w.page_aligned);
        inside = omega (arith, e, here, w.in_flash, r);
        erased = λ j a b. w.free j (omega (arith, a, e)) (omega (arith, b, e, r));
        sixteen = w.sixteen;
        counted = omega arith;
      }

  set_commit_lem :
      (s u : Store) (key_size value_size n flags : ℕ)
      → IsStore s
      → HasRoom s n
      → key_size + value_size ≤ n
      → u.current ≡ s.current
      → u.page_size ≡ s.page_size
      → length u.flash ≡ length s.flash
      → Erased u.flash (record_address s) (record_address s + 12)
      → set_commit area key_size value_size (words n) flags u ≡ record u {
        flash =
            copy_in u.flash
              (record_address s)
              (pack_metadata (new_metadata s key_size value_size flags));
        current = record s.current {
          data_byte_count = s.current.data_byte_count + words n;
          metadata_count = s.current.metadata_count + 1;
        };
      }
  unfolding set_commit
  set_commit_lem s u key_size value_size n flags w r h c p l e =
      let m = new_metadata s key_size value_size flags in
      let here : (s.current.page + 1) * s.page_size ≤ s.page_count * s.page_size =
        mul_mono (s.current.page + 1) s.page_count s.page_size (omega (arith, w.page_lt)) in
      let moved : Current = record s.current {
        data_byte_count = s.current.data_byte_count + words n;
        metadata_count = s.current.metadata_count + 1;
      } in
      ap₂
        (λ (k : Current) ps.
          nvm_write area (sub32 (k.page * ps + ps) ((k.metadata_count + 1) * metadata_size))
            (pack_metadata (record {
              flags = flags;
              key_offset = k.data_byte_count % 2 ^ 16;
              key_size = key_size % 2 ^ 16;
              value_offset = (k.data_byte_count + key_size) % 2 ^ 16;
              value_size = value_size % 2 ^ 16;
            }))
            (record u {
              current = record k {
                data_byte_count = k.data_byte_count + words n;
                metadata_count = k.metadata_count + 1;
              };
            }))
        c p
      ∙ ap₂ (λ o k. nvm_write area o (pack_metadata k) (record u { current = moved }))
          {y = record_address s} (omega (arith, here, w.in_flash, w.flash_lt, r))
          (metadata_eq _ m refl (omega (arith, r, w.page_size_le))
            (omega (arith, r, w.page_size_le, h)) (omega (arith, r, w.page_size_le, h))
            (omega (arith, r, w.page_size_le, h)))
      ∙ nvm_write_lem area ok (record_address s) (pack_metadata m) (record u { current = moved })
          (omega (arith, r, w.page_aligned, aligned_mul s.current.page s.page_size w.page_aligned))
          (omega (arith, length-pack_metadata m))
          (omega (arith, length-pack_metadata m, here, w.in_flash, l, r))
          (λ j a b. e j a (omega (arith, b, length-pack_metadata m)))

  -- A record is committed behind data that was written.
  pub Added-commit :
      (s u : Store) (key value : List ℕ) (flags : ℕ)
      → IsStore s
      → s.data_write_offset ≡ s.current.data_byte_count
      → HasRoom s (length key + length value)
      → Written (ostream s) (key ++ value) u
      → Added s key value flags
          (set_commit area (length key) (length value) (words (length key + length value)) flags u)
  unfolding ostream
  Added-commit s u key value flags w o r a =
      let body = (key ++ value) ++ a.padding in
      let n = length key + length value in
      let sizes : length body ≡ words n =
        omega (arith, a.size, length-append key value, length-append (key ++ value) a.padding) in
      let at : cursor (ostream s) ≡ page_address s.current.page s + s.current.data_byte_count =
        omega (arith, o) in
      let f : u.flash
          ≡ copy_in s.flash (page_address s.current.page s + s.current.data_byte_count) body =
        ap (λ v. v.flash) a.result ∙ ap (λ k. copy_in s.flash k body) at in
      let erased : Erased u.flash (record_address s) (record_address s + 12) =
        subst (λ g. Erased g (record_address s) (record_address s + 12)) (sym f)
          (Erased-copy_in s.flash _ body _ _ (inr (omega (arith, sizes, r)))
            (λ j p q. w.free j (omega (arith, p, r)) (omega (arith, q, r)))) in
      let done =
        set_commit_lem s u (length key) (length value) n flags w r (omega arith)
          (ap (λ v. v.current) a.result) (ap (λ v. v.page_size) a.result)
          (ap length f ∙ length-copy_in s.flash _ body) erased in
      let m = new_metadata s (length key) (length value) flags in
      let moved : Current = record s.current {
        data_byte_count = s.current.data_byte_count + words n;
        metadata_count = s.current.metadata_count + 1;
      } in
      let result : set_commit area (length key) (length value) (words n) flags u
          ≡ committed s body m (words n) u.ostream_state =
        done
        ∙ ap {B = Store}
            (λ (v : Store). record v {
              current = moved;
              flash = copy_in v.flash (record_address s) (pack_metadata m);
            })
            a.result
        ∙ ap₂ {C = Store}
            (λ k o. record s {
              current = moved;
              flash = copy_in (copy_in s.flash k body) (record_address s) (pack_metadata m);
              data_write_offset = o;
              ostream_state = u.ostream_state;
            })
            at (omega (arith, o, sizes)) in
      subst (Added s key value flags) (sym result) (record {
        padding = a.padding;
        size = omega (arith, a.size, length-append key value);
        result = refl;
        sixteen = a.sixteen;
      })
