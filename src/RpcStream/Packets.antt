-- ===== src/RpcStream/Packets.antt =====
-- The packets of a stream, byte for byte, and how the two ends make and read them.
use firefly_zephyr.Base.{
  ℕ, ◌+◌, ◌-◌, ◌/◌, ◌%◌, ◌^◌, ◌≤◌, ◌<◌, ◌≡◌, refl, ap, true, not, ◌∙◌, List, ◌∷◌, ◌++◌, leb, ltb,
  ◌==◌, if◌then◌else◌, length, arith, bit_and,
}
use firefly_zephyr.Base.Bytes.{slice-cons, slice-all, slice, copy_in}
use firefly_zephyr.Binary
use firefly_zephyr.Binary.{
  Binary, put_uint32, put_bytes, put_check, get_check, get_uint32, pack_uint32, unpack_uint32,
}
use firefly_zephyr.Binary.RoundTrip.{unpack_uint32-pack}
use firefly_zephyr.Base.Bits.{bit_and_low, bit_and_apart}
use firefly_zephyr.Base.Words.{add32}
use firefly_zephyr.RpcStream.Types.{
  Kernel, Stream, Call, no_last_send_data, fd_assert, call, now, tick,
}
use firefly_zephyr.RpcStream.Receive.{
  receive, receive_data, receive_ack, receive_command, receive_disconnect_request, is_connected,
}
use firefly_zephyr.RpcStream.Send.{
  send_disconnect, send_keep_alive, send_ack, disconnect, tracker_update,
}

abbrev pub data_packet : ℕ → List ℕ → List ℕ
data_packet sequence_number bytes = pack_uint32 sequence_number ++ bytes

abbrev pub ack_packet : ℕ → List ℕ
ack_packet sequence_number = pack_uint32 0x80000006 ++ pack_uint32 sequence_number

abbrev pub keep_alive_packet : List ℕ
keep_alive_packet = pack_uint32 0x80000004

abbrev pub disconnect_packet : List ℕ
disconnect_packet = pack_uint32 0x80000002

abbrev pub word : ℕ → List ℕ → List ℕ
word k rest = k % 256 ∷ k / 2 ^ 8 % 256 ∷ k / 2 ^ 16 % 256 ∷ k / 2 ^ 24 % 256 ∷ rest

pub word-pack : (k : ℕ) (rest : List ℕ) → pack_uint32 k ++ rest ≡ word k rest
unfolding pack_uint32
word-pack k rest = refl

header_lem :
    (bytes : List ℕ)
    → 4 ≤ length bytes
    → length bytes < 2 ^ 32
    → get_uint32 (Binary.initialize bytes (length bytes % 2 ^ 32)) ≡ (
      unpack_uint32 (slice bytes 0 4),
      record { buffer = bytes; size = length bytes; put_index = 0; get_index = 4; errors = 0 },
    )
unfolding get_uint32 get_check Binary.initialize
header_lem bytes p q = ground arith

-- The bytes behind the header.
behind_header : (k : ℕ) (bytes : List ℕ) → slice (data_packet k bytes) 4 (length bytes) ≡ bytes
unfolding pack_uint32
behind_header k bytes =
    slice-cons _ _ 3 _
    ∙ slice-cons _ _ 2 _
    ∙ slice-cons _ _ 1 _
    ∙ slice-cons _ _ 0 _
    ∙ slice-all bytes

low_bits : (k : ℕ) → k < 2 ^ 31 → bit_and (unpack_uint32 (pack_uint32 k)) 0x7fffffff ≡ k
low_bits k p = rw (unpack_uint32-pack k (omega arith)) (omega (arith, bit_and_low 31 k))

header_pack :
    (k : ℕ) (bytes : List ℕ) → k < 2 ^ 31 → unpack_uint32 (slice (data_packet k bytes) 0 4) ≡ k
unfolding pack_uint32 slice
header_pack k bytes p = unpack_uint32-pack k (omega arith)

module _ {Sem Float : Type 0} (kernel : Kernel Sem Float) where
  -- The state that a packet meets.
  abbrev pub heard : Stream Sem → Stream Sem
  heard s = record (tick kernel s) {
    receive_keep_alive = record s.receive_keep_alive { last_active_time = now kernel s };
  }

  dispatch : List ℕ → ℕ × Binary → Stream Sem → Stream Sem
  dispatch bytes (header, binary) s =
      if not (bit_and header 0x80000000 == 0)
      then receive_command kernel (bit_and header 0x7fffffff) binary s
      else if is_connected s.state
      then receive_data kernel header (slice bytes 4 (length bytes - 4)) s
      else s

  receive-dispatch :
      (bytes : List ℕ) (s : Stream Sem)
      → receive kernel bytes s
        ≡ dispatch bytes
            (get_uint32 (Binary.initialize bytes (length bytes % 2 ^ 32)))
            (fd_assert (leb 4 (length bytes)) (heard s))
  unfolding receive dispatch tracker_update
  receive-dispatch bytes s = refl

  -- A data packet goes to `receive_data` in a connected stream, and is dropped in another.
  pub receive-data_packet :
      (k : ℕ) (bytes : List ℕ) (s : Stream Sem)
      → k < 2 ^ 31
      → 4 + length bytes < 2 ^ 32
      → receive kernel (data_packet k bytes) s
        ≡ (if is_connected s.state then receive_data kernel k bytes (heard s) else heard s)
  unfolding pack_uint32 dispatch
  receive-data_packet k bytes s p q =
      let long : leb 4 (length (data_packet k bytes)) ≡ true = ground arith in
      let rest : length (data_packet k bytes) - 4 ≡ length bytes = omega arith in
      let flag : bit_and k 0x80000000 ≡ 0 = bit_and_apart 31 1 k p in
      receive-dispatch (data_packet k bytes) s
      ∙ rw
          (
            long,
            header_lem (data_packet k bytes) (omega arith) (omega arith),
            header_pack k bytes p,
            flag,
            rest,
            behind_header k bytes,
          )
          refl

  abbrev pub acked : ℕ → Stream Sem → Stream Sem
  acked serial_number s =
      if ltb serial_number s.send_sequence_number
      then s
      else if serial_number == s.send_sequence_number
      then (let s' =
            fd_assert (kernel.sem_count_get s.send_semaphore == 0)
              (record s { send_sequence_number = add32 s.send_sequence_number 1 }) in
          call Call.received_ack (record s' {
            send_semaphore = kernel.sem_give s'.send_semaphore;
            last_send_data = no_last_send_data;
          }))
      else send_disconnect kernel (disconnect kernel s)

  pub receive-ack_packet :
      (k : ℕ) (s : Stream Sem) → k < 2 ^ 31 → receive kernel (ack_packet k) s ≡ acked k (heard s)
  unfolding receive pack_uint32 slice tracker_update receive_ack send_disconnect unpack_uint32
      get_check
  receive-ack_packet k s p = ap (λ n. acked n (heard s)) (low_bits k p)

  pub receive-keep_alive_packet :
      (s : Stream Sem)
      → receive kernel keep_alive_packet s ≡ call Call.received_keep_alive (heard s)
  unfolding receive pack_uint32 slice tracker_update unpack_uint32 get_check
  receive-keep_alive_packet s = refl

  pub receive-disconnect_packet :
      (s : Stream Sem)
      → receive kernel disconnect_packet s
        ≡ call Call.received_disconnect (disconnect kernel (heard s))
  unfolding receive pack_uint32 slice tracker_update unpack_uint32 get_check receive_command
      receive_disconnect_request
  receive-disconnect_packet s = refl

  -- A packet handed to the client.
  abbrev pub emit : List ℕ → Stream Sem → Stream Sem
  emit packet s = call (Call.send_command packet) (record (tick kernel s) {
    send_keep_alive = record s.send_keep_alive { last_active_time = now kernel s };
  })

  pub send_ack-emit : (k : ℕ) (s : Stream Sem) → send_ack kernel k s ≡ emit (ack_packet k) s
  unfolding send_ack pack_uint32 put_check slice copy_in
  send_ack-emit k s = refl

  pub send_keep_alive-emit : (s : Stream Sem) → send_keep_alive kernel s ≡ emit keep_alive_packet s
  unfolding send_keep_alive pack_uint32 put_check slice copy_in
  send_keep_alive-emit s = refl

  pub send_disconnect-emit :
      (s : Stream Sem)
      → send_disconnect kernel s
        ≡ call Call.sent_disconnect (disconnect kernel (emit disconnect_packet s))
  unfolding send_disconnect pack_uint32 put_check slice copy_in
  send_disconnect-emit s = refl
