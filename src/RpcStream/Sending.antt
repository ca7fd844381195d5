-- ===== src/RpcStream/Sending.antt =====
-- What `fd_rpc_stream_send_data` sends and keeps to send again.
use firefly_zephyr.Base.{
  ℕ, ◌+◌, ◌%◌, ◌^◌, ◌≤◌, ◌<◌, ◌≡◌, refl, ap, ap₂, ◌∙◌, Bool, true, inl, List, ◌++◌, leb, ltb, ◌==◌,
  length, arith,
}
use firefly_zephyr.Base.Bytes.{
  slice-plus, slice, copy_in, slice-copy_in, slice-copy_in_outside, length-copy_in,
}
use firefly_zephyr.Binary
use firefly_zephyr.Binary.{Binary, put_uint32, put_bytes, put_check, pack_uint32}
use firefly_zephyr.RpcStream.Types.{Kernel, Stream, LastSendData, fd_assert, now, tick}
use firefly_zephyr.RpcStream.Send.{send_command, send_data, tracker_update}
use firefly_zephyr.RpcStream.Packets.{data_packet, emit}

-- The bytes of `command` behind the two writes.
abbrev pub filled : List ℕ → ℕ → List ℕ → List ℕ
filled command k bytes = copy_in (copy_in command 0 (pack_uint32 k)) 4 bytes

pub slice-filled :
    (command : List ℕ) (k : ℕ) (bytes : List ℕ)
    → 4 + length bytes ≤ length command
    → slice (filled command k bytes) 0 (4 + length bytes) ≡ data_packet k bytes
unfolding pack_uint32
slice-filled command k bytes p =
    let inner = copy_in command 0 (pack_uint32 k) in
    slice-plus (filled command k bytes) 0 4 (length bytes)
    ∙ ap₂ ◌++◌
        (slice-copy_in_outside inner 4 bytes 0 4 (inl (omega arith))
          ∙ slice-copy_in command 0 (pack_uint32 k) (omega arith))
        (slice-copy_in inner 4 bytes (omega (arith, length-copy_in command 0 (pack_uint32 k))))

abbrev pub kept : ℕ → List ℕ → ℕ → ℕ → List ℕ → LastSendData
kept time command timeout k bytes = record {
  time = time;
  command = filled command k bytes;
  length = 4 + length bytes;
  timeout = timeout;
}

module _ {Sem Float : Type 0} (kernel : Kernel Sem Float) where
  abbrev pub holding : List ℕ → Stream Sem → Stream Sem
  holding bytes s = record (tick kernel s) {
    send_keep_alive = record s.send_keep_alive { last_active_time = now kernel s };
    last_send_data =
        kept (now kernel s) s.last_send_data.command s.last_send_data_timeout s.send_sequence_number
          bytes;
  }

  -- `send_data` behind its two assertions and the writes into `command`.
  store : Binary → List ℕ → Stream Sem → Stream Sem
  store binary bytes s =
      let s1 = fd_assert (binary.errors == 0) (tick kernel s) in
      let last : LastSendData = record {
        time = now kernel s;
        command = binary.buffer;
        length = 4 + length bytes;
        timeout = s1.last_send_data_timeout;
      } in
      send_command kernel (slice last.command 0 last.length) (record s1 {
        send_keep_alive = tracker_update s1.send_keep_alive (now kernel s);
        last_send_data = last;
      })

  written : List ℕ → Stream Sem → Binary
  written bytes s =
      put_bytes
        (put_uint32 (Binary.initialize s.last_send_data.command 1028) s.send_sequence_number) bytes

  send_data-store :
      (bytes : List ℕ) (s : Stream Sem)
      → let s0 = fd_assert (s.last_send_data.time == 0) (fd_assert (ltb 0 (length bytes)) s) in
        send_data kernel bytes s ≡ store (written bytes s0) bytes s0
  unfolding send_data store written
  send_data-store bytes s = refl

  asserted : (p q : Bool) (s : Stream Sem) → p ≡ true → q ≡ true → fd_assert p (fd_assert q s) ≡ s
  asserted p q s e f = rw (e, f) refl

  written_lem :
      (bytes : List ℕ) (s : Stream Sem)
      → length bytes ≤ 1024
      → written bytes s ≡ record {
        buffer = filled s.last_send_data.command s.send_sequence_number bytes;
        size = 1028;
        put_index = 4 + length bytes;
        get_index = 0;
        errors = 0;
      }
  unfolding written put_uint32 put_bytes put_check Binary.initialize pack_uint32
  written_lem bytes s p =
      let fits : (4 + length bytes) % 2 ^ 32 ≡ 4 + length bytes = omega arith in
      let room : leb (4 + length bytes) 1028 ≡ true = ground arith in
      rw (fits, room)
        (ap
          (λ n. record {
            buffer = filled s.last_send_data.command s.send_sequence_number bytes;
            size = 1028;
            put_index = n;
            get_index = 0;
            errors = 0;
          })
          fits)

  pub send_command-emit :
      (packet : List ℕ) (s : Stream Sem)
      → leb 4 (length packet) ≡ true
      → send_command kernel packet s ≡ emit kernel packet s
  unfolding send_command tracker_update
  send_command-emit packet s p = rw p refl

  store_lem :
      (bytes : List ℕ) (s : Stream Sem)
      → length s.last_send_data.command ≡ 1028
      → length bytes ≤ 1024
      → store (written bytes s) bytes s
        ≡ emit kernel (data_packet s.send_sequence_number bytes) (holding bytes s)
  unfolding store tracker_update pack_uint32
  store_lem bytes s full p =
      let sent = slice-filled s.last_send_data.command s.send_sequence_number bytes (omega arith) in
      ap (λ b. store b bytes s) (written_lem bytes s p)
      ∙ ap (λ packet. send_command kernel packet (holding bytes s)) sent
      ∙ send_command-emit (data_packet s.send_sequence_number bytes) (holding bytes s)
          (ground arith)

  pub send_data-emit :
      (bytes : List ℕ) (s : Stream Sem)
      → length s.last_send_data.command ≡ 1028
      → s.last_send_data.time ≡ 0
      → 0 < length bytes
      → length bytes ≤ 1024
      → send_data kernel bytes s
        ≡ emit kernel (data_packet s.send_sequence_number bytes) (holding bytes s)
  send_data-emit bytes s full idle p q =
      send_data-store bytes s
      ∙ ap (λ s0. store (written bytes s0) bytes s0)
          (asserted (s.last_send_data.time == 0) (ltb 0 (length bytes)) s (ground arith)
            (ground arith))
      ∙ store_lem bytes s full q
