-- ===== src/RpcStream/Send.antt =====
-- What an end of a stream sends: `fd_rpc_stream_initialize`, `fd_rpc_stream_disconnect` and
-- `fd_rpc_stream_send_*`.
use firefly_zephyr.Base.{
  ℕ, ◌+◌, Bool, List, [], leb, ltb, ◌==◌, if◌then◌else◌, replicate, bit_or, length,
}
use firefly_zephyr.Base.Bytes.{slice}
use firefly_zephyr.Binary
use firefly_zephyr.Binary.{Binary, put_uint8, put_uint16, put_uint32, put_bytes}
use firefly_zephyr.RpcStream.Types.{
  Kernel, Configuration, Stream, disconnected, Tracker, LastSendData, Call, header_type_command,
  command_connect_response, command_disconnect, command_keep_alive, command_ack, command_nack,
  no_last_send_data, fd_assert, call, now, tick,
}

-- `fd_rpc_stream_tracker_*`
unfoldable pub tracker_initialize : ℕ → Tracker
tracker_initialize timeout = record { timeout = timeout; last_active_time = 0 }

unfoldable pub tracker_reset : Tracker → Tracker
tracker_reset t = record t { last_active_time = 0 }

unfoldable pub tracker_update : Tracker → ℕ → Tracker
tracker_update t time = record t { last_active_time = time }

-- A new buffer on the stack, empty: its bytes are written before they are read.
abbrev pub stack_buffer : ℕ → Binary
stack_buffer size = Binary.initialize (replicate size 0) size

module _ {Sem Float : Type 0} (kernel : Kernel Sem Float) where
  -- Of version 2 on, the configuration is an encoded message.
  unfoldable pub put_connection_configuration :
      Binary → ℕ → Configuration Float → Stream Sem → Binary × Stream Sem
  unfolding put_uint8 put_uint16 put_bytes
  put_connection_configuration binary version configuration s =
      if leb version 1
      then (put_uint16 (put_uint8 binary 1) 1024, s)
      else (let (result, bytes) = kernel.pb_encode configuration in
          let binary' = put_bytes binary bytes in
          (binary', fd_assert (binary'.errors == 0) (fd_assert result s)))

  unfoldable pub initialize : ℕ → Stream Sem
  unfolding tracker_initialize
  initialize clock =
      let semaphore = kernel.sem_init 1 1 in
      let s : Stream Sem = record {
        state = disconnected;
        receive_sequence_number = 0;
        receive_keep_alive = tracker_initialize 5000;
        send_sequence_number = 0;
        send_keep_alive = tracker_initialize 2000;
        send_semaphore = semaphore;
        last_send_data = no_last_send_data;
        last_send_data_timeout = 500;
        send_retry_count = 0;
        send_keep_alive_count = 0;
        receive_keep_alive_disconnect_count = 0;
        calls = [];
        clock = clock;
        asserts = 0;
      } in
      fd_assert (kernel.sem_count_get semaphore == 1) s

  unfoldable pub disconnect : Stream Sem → Stream Sem
  unfolding tracker_reset
  disconnect s =
      let semaphore = kernel.sem_give (kernel.sem_reset s.send_semaphore) in
      let s' = fd_assert (kernel.sem_count_get semaphore == 1) s in
      record s' {
        send_semaphore = semaphore;
        receive_sequence_number = 0;
        receive_keep_alive = tracker_reset s'.receive_keep_alive;
        send_sequence_number = 0;
        send_keep_alive = tracker_reset s'.send_keep_alive;
        last_send_data = no_last_send_data;
        state = disconnected;
      }

  unfoldable pub send_command : List ℕ → Stream Sem → Stream Sem
  unfolding tracker_update
  send_command bytes s =
      let s' = fd_assert (leb 4 (length bytes)) s in
      call (Call.send_command bytes) (record (tick kernel s') {
        send_keep_alive = tracker_update s'.send_keep_alive (now kernel s');
      })

  -- The bytes put so far, sent.
  abbrev pub send_binary : Binary → Stream Sem → Stream Sem
  send_binary binary s =
      send_command (slice binary.buffer 0 binary.put_index) (fd_assert (binary.errors == 0) s)

  unfoldable pub send_connect_response : ℕ → ℕ → Configuration Float → Stream Sem → Stream Sem
  unfolding put_connection_configuration put_uint8 put_uint32 Binary.initialize send_command
  send_connect_response result version configuration s =
      let header =
        put_uint32 (stack_buffer 64) (bit_or command_connect_response header_type_command) in
      let (binary, s') =
        put_connection_configuration (put_uint8 (put_uint8 header result) version) version
          configuration s in
      send_binary binary s'

  unfoldable pub send_disconnect : Stream Sem → Stream Sem
  unfolding put_uint32 Binary.initialize send_command disconnect
  send_disconnect s =
      let binary = put_uint32 (stack_buffer 16) (bit_or command_disconnect header_type_command) in
      call Call.sent_disconnect (disconnect (send_binary binary s))

  unfoldable pub send_keep_alive : Stream Sem → Stream Sem
  unfolding put_uint32 Binary.initialize send_command
  send_keep_alive s =
      send_binary (put_uint32 (stack_buffer 16) (bit_or command_keep_alive header_type_command)) s

  unfoldable pub send_ack : ℕ → Stream Sem → Stream Sem
  unfolding put_uint32 Binary.initialize send_command
  send_ack sequence_number s =
      let binary = put_uint32 (stack_buffer 16) (bit_or command_ack header_type_command) in
      send_binary (put_uint32 binary sequence_number) s

  unfoldable pub send_nack : Stream Sem → Stream Sem
  unfolding put_uint32 Binary.initialize send_command
  send_nack s =
      let binary = put_uint32 (stack_buffer 16) (bit_or command_nack header_type_command) in
      send_binary (put_uint32 binary s.send_sequence_number) s

  unfoldable pub wait_for_send_ack : Stream Sem → Bool × Stream Sem
  wait_for_send_ack s =
      let (taken, semaphore) = kernel.sem_take s.send_semaphore in
      (taken, record s { send_semaphore = semaphore })

  -- `command` is written in place, and sent again when no acknowledgement comes. The second
  -- assertion on the length is an assignment of `4 + length`, which is not 0.
  unfoldable pub send_data : List ℕ → Stream Sem → Stream Sem
  unfolding put_uint32 put_bytes Binary.initialize send_command tracker_update
  send_data bytes s =
      let s0 = fd_assert (s.last_send_data.time == 0) (fd_assert (ltb 0 (length bytes)) s) in
      let time = now kernel s0 in
      let binary =
        put_bytes
          (put_uint32 (Binary.initialize s0.last_send_data.command 1028) s0.send_sequence_number)
          bytes in
      let s1 = fd_assert (binary.errors == 0) (tick kernel s0) in
      let last : LastSendData = record {
        time = time;
        command = binary.buffer;
        length = 4 + length bytes;
        timeout = s1.last_send_data_timeout;
      } in
      send_command (slice last.command 0 last.length) (record s1 {
        send_keep_alive = tracker_update s1.send_keep_alive time;
        last_send_data = last;
      })
