-- ===== src/KeyValueStore/Stream.antt =====
-- Erasing and writing flash, and a stream that writes in runs of 16 bytes.
use firefly_zephyr.Base.{ℕ, ◌+◌, ◌*◌, List, [], ◌∷◌, set, leb, ◌==◌, if◌then◌else◌}
use firefly_zephyr.Base.Bytes.{slice}
use firefly_zephyr.KeyValueStore.Types.{FlashArea, Store, fd_assert}
use firefly_zephyr.KeyValueStore.Pages.{get_write_size}

abbrev pub put_byte : ℕ → Store → Store
put_byte x s =
    let state = s.ostream_state in
    record s {
      ostream_state = record { buffer = set state.buffer state.count x; count = state.count + 1 };
    }

-- The stream starts with an empty buffer.
unfoldable pub ostream : Store → Store
ostream s = record s { ostream_state = record s.ostream_state { count = 0 } }

module _ (area : FlashArea) where
  unfoldable pub nvm_erase : ℕ → Store → Store
  nvm_erase page s =
      let s0 = fd_assert (area.opens s.flash) s in
      let (result, flash) = area.erases s0.flash (page * s0.page_size) s0.page_size in
      fd_assert result (record s0 { flash = flash })

  unfoldable pub nvm_write : ℕ → List ℕ → Store → Store
  nvm_write offset bytes s =
      let s0 = fd_assert (area.opens s.flash) s in
      let (result, flash) = area.writes s0.flash offset bytes in
      fd_assert result (record s0 { flash = flash })

  unfoldable pub ostream_write : Store → Store
  unfolding nvm_write slice
  ostream_write s =
      let s0 = fd_assert (leb s.ostream_state.count 16) s in
      let state = s0.ostream_state in
      let offset = s0.current.page * s0.page_size + s0.data_write_offset in
      let s1 = nvm_write offset (slice state.buffer 0 state.count) s0 in
      record s1 {
        data_write_offset = s1.data_write_offset + state.count;
        ostream_state = record state { count = 0 };
      }

  -- What is written behind the last byte is what the buffer held there.
  unfoldable pub ostream_flush : Store → Store
  unfolding ostream_write get_write_size
  ostream_flush s =
      let state = s.ostream_state in
      if state.count == 0
      then s
      else ostream_write
          (record s { ostream_state = record state { count = get_write_size state.count s } })

  unfoldable pub ostream_callback : List ℕ → Store → Store
  unfolding ostream_write
  ostream_callback [] s = s
  ostream_callback (x ∷ bytes) s =
      ostream_callback bytes
        (put_byte x (if leb 16 s.ostream_state.count then ostream_write s else s))

  -- The runs that an encoder hands to the callback.
  unfoldable pub ostream_runs : List (List ℕ) → Store → Store
  unfolding ostream_callback
  ostream_runs [] s = s
  ostream_runs (run ∷ runs) s = ostream_runs runs (ostream_callback run s)
