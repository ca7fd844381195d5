-- ===== src/RpcStream/Receive.antt =====
-- What an end of a stream does with a packet: `fd_rpc_stream_receive` and `fd_rpc_stream_receive_*`.
use firefly_zephyr.Base.{
  ℕ, ◌-◌, ◌%◌, ◌^◌, Bool, true, false, not, List, leb, ltb, ◌==◌, if◌then◌else◌, bit_and, length,
}
use firefly_zephyr.Base.Bytes.{slice}
use firefly_zephyr.Base.Words.{add32, sub32}
use firefly_zephyr.Binary
use firefly_zephyr.Binary.{Binary, get_uint8, get_uint16, get_uint32}
use firefly_zephyr.RpcStream.Types.{
  Kernel, Configuration, Stream, State, disconnected, connected, Call, header_type_command,
  command_connect_request, command_connect_response, command_disconnect, command_keep_alive,
  command_ack, command_nack, no_last_send_data, assert_failure, fd_assert, call, now, tick,
}
use firefly_zephyr.RpcStream.Send.{
  tracker_update, disconnect, send_connect_response, send_disconnect, send_ack, send_nack,
}

abbrev pub is_connected : State → Bool
is_connected connected = true
is_connected disconnected = false

module _ {Sem Float : Type 0} (kernel : Kernel Sem Float) where
  unfoldable pub get_connection_configuration :
      Binary → ℕ → Stream Sem → Configuration Float × Binary × Stream Sem
  unfolding get_uint8 get_uint16
  get_connection_configuration binary version s =
      if leb version 1
      then (let (window, binary') = get_uint8 binary in
          let (unit, binary'') = get_uint16 binary' in
          (
            record {
              maximum_flow_window = window;
              maximum_transmission_unit = unit;
              receive_keep_alive = kernel.seconds_5;
              send_keep_alive = kernel.seconds_2;
              send_retry_timeout = kernel.seconds_half;
            },
            binary'',
            s,
          ))
      else (let (result, configuration, bytes_left) =
            kernel.pb_decode
              (slice binary.buffer binary.get_index (sub32 binary.size binary.get_index)) in
          (
            configuration,
            record binary { size = sub32 binary.size bytes_left },
            fd_assert result s,
          ))

  unfoldable pub receive_ack : Binary → Stream Sem → Stream Sem
  unfolding get_uint32 disconnect send_disconnect
  receive_ack binary s =
      let serial_number = bit_and (get_uint32 binary).0 0x7fffffff in
      if ltb serial_number s.send_sequence_number
      then s
      else if serial_number == s.send_sequence_number
      then (let s' =
            fd_assert (kernel.sem_count_get s.send_semaphore == 0)
              (record s { send_sequence_number = add32 s.send_sequence_number 1 }) in
          call Call.received_ack (record s' {
            send_semaphore = kernel.sem_give s'.send_semaphore;
            last_send_data = no_last_send_data;
          }))
      else send_disconnect kernel (disconnect kernel s)

  unfoldable pub receive_nack : Binary → Stream Sem → Stream Sem
  unfolding disconnect send_disconnect
  receive_nack binary s = send_disconnect kernel (disconnect kernel s)

  unfoldable pub receive_connect_request : Binary → Stream Sem → Stream Sem
  unfolding get_uint8 get_connection_configuration disconnect tracker_update send_connect_response
  receive_connect_request binary s =
      let (version, binary') = get_uint8 binary in
      let (configuration, binary'', s0) = get_connection_configuration binary' version s in
      let s1 = disconnect kernel s0 in
      let time = now kernel s1 in
      let s2 = record (tick kernel s1) {
        receive_keep_alive = record {
          timeout = kernel.milliseconds configuration.receive_keep_alive;
          last_active_time = time;
        };
        send_keep_alive = record {
          timeout = kernel.milliseconds configuration.send_keep_alive;
          last_active_time = time;
        };
        last_send_data = no_last_send_data;
        last_send_data_timeout = kernel.milliseconds configuration.send_retry_timeout;
        state = connected;
      } in
      call Call.received_connect (send_connect_response kernel 0 version configuration s2)

  unfoldable pub receive_disconnect_request : Stream Sem → Stream Sem
  unfolding disconnect
  receive_disconnect_request s = call Call.received_disconnect (disconnect kernel s)

  -- The three cases: data sent again, the next data, and a gap.
  unfoldable pub receive_data : ℕ → List ℕ → Stream Sem → Stream Sem
  unfolding send_ack send_nack
  receive_data sequence_number bytes s =
      if ltb sequence_number s.receive_sequence_number
      then send_ack kernel sequence_number s
      else if sequence_number == s.receive_sequence_number
      then (let s' =
            call (Call.received_data bytes) (send_ack kernel s.receive_sequence_number s) in
          record s' { receive_sequence_number = add32 s'.receive_sequence_number 1 })
      else send_nack kernel s

  -- The `switch` on the command.
  unfoldable pub receive_command : ℕ → Binary → Stream Sem → Stream Sem
  unfolding receive_connect_request receive_disconnect_request receive_ack receive_nack
  receive_command command binary s =
      if command == command_connect_request
      then receive_connect_request binary s
      else if command == command_connect_response
      then assert_failure s
      else if command == command_disconnect
      then receive_disconnect_request s
      else if command == command_keep_alive
      then call Call.received_keep_alive s
      else if command == command_ack
      then receive_ack binary s
      else if command == command_nack
      then receive_nack binary s
      else assert_failure s

  -- A packet of fewer than four bytes fails the assertion, and has no bytes behind its header here.
  unfoldable pub receive : List ℕ → Stream Sem → Stream Sem
  unfolding get_uint32 receive_command receive_data tracker_update Binary.initialize
  receive bytes s =
      let s' = fd_assert (leb 4 (length bytes)) (record (tick kernel s) {
        receive_keep_alive = tracker_update s.receive_keep_alive (now kernel s);
      }) in
      let (header, binary) = get_uint32 (Binary.initialize bytes (length bytes % 2 ^ 32)) in
      if not (bit_and header header_type_command == 0)
      then receive_command (bit_and header 0x7fffffff) binary s'
      else if is_connected s'.state
      then receive_data header (slice bytes 4 (length bytes - 4)) s'
      else s'
