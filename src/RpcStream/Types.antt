-- ===== src/RpcStream/Types.antt =====
-- The state of `fd_rpc_stream_t`, and what it stands on: the kernel of the operating system, the
-- floating point unit and the generated message codec, which are not this repository's.
use firefly_zephyr.Base.{ℕ, ◌+◌, ◌%◌, ◌^◌, Bool, List, [], ◌∷◌, ◌++◌, if◌then◌else◌, replicate}

-- `firefly_stream_v1_ConnectionConfiguration`
pub record Configuration (Float : Type 0) : Type 0 where
  pub maximum_flow_window : ℕ
  pub maximum_transmission_unit : ℕ
  pub receive_keep_alive : Float
  pub send_keep_alive : Float
  pub send_retry_timeout : Float

-- `uptime n` is what the call number `n` of `k_uptime_get` returns. `milliseconds x` is the whole
-- number of `x * 1000.0f`, `doubled n` that of `n * 2.0f`. `pb_decode` also returns `bytes_left`.
pub record Kernel (Sem Float : Type 0) : Type 0 where
  pub uptime : ℕ → ℕ
  pub sem_init : ℕ → ℕ → Sem
  pub sem_reset : Sem → Sem
  pub sem_give : Sem → Sem
  pub sem_take : Sem → Bool × Sem
  pub sem_count_get : Sem → ℕ
  pub seconds_5 : Float
  pub seconds_2 : Float
  pub seconds_half : Float
  pub milliseconds : Float → ℕ
  pub doubled : ℕ → ℕ
  pub pb_encode : Configuration Float → Bool × List ℕ
  pub pb_decode : List ℕ → Bool × Configuration Float × ℕ

-- `fd_rpc_stream_state_t`
pub data State : Type 0 where
  disconnected connected : State

-- `fd_rpc_stream_tracker_t`
pub record Tracker : Type 0 where
  pub timeout : ℕ
  pub last_active_time : ℕ

-- `fd_rpc_stream_last_send_data_t`
pub record LastSendData : Type 0 where
  pub time : ℕ
  pub command : List ℕ
  pub length : ℕ
  pub timeout : ℕ

-- The calls of the functions of `fd_rpc_stream_client_t`. What a client does in one of them, such
-- as sending the next data, is a call of its own that follows.
pub data Call : Type 0 where
  received_connect received_disconnect received_keep_alive received_ack sent_disconnect : Call
  received_data : List ℕ → Call
  send_command : List ℕ → Call

-- `fd_rpc_stream_t`, with the calls that it made of its client, latest last, the number of calls of
-- `k_uptime_get`, and the count of failed assertions.
pub record Stream (Sem : Type 0) : Type 0 where
  pub state : State
  pub receive_sequence_number : ℕ
  pub receive_keep_alive : Tracker
  pub send_sequence_number : ℕ
  pub send_keep_alive : Tracker
  pub send_semaphore : Sem
  pub last_send_data : LastSendData
  pub last_send_data_timeout : ℕ
  pub send_retry_count : ℕ
  pub send_keep_alive_count : ℕ
  pub receive_keep_alive_disconnect_count : ℕ
  pub calls : List Call
  pub clock : ℕ
  pub asserts : ℕ

abbrev pub header_type_command : ℕ
header_type_command = 0x80000000

abbrev pub command_connect_request : ℕ
command_connect_request = 0

abbrev pub command_connect_response : ℕ
command_connect_response = 1

abbrev pub command_disconnect : ℕ
command_disconnect = 2

abbrev pub command_keep_alive : ℕ
command_keep_alive = 4

abbrev pub command_ack : ℕ
command_ack = 6

abbrev pub command_nack : ℕ
command_nack = 8

abbrev pub command_ackack : ℕ
command_ackack = 10

-- What `memset` leaves of `last_send_data`.
abbrev pub no_last_send_data : LastSendData
no_last_send_data = record { time = 0; command = replicate 1028 0; length = 0; timeout = 0 }

module _ {Sem : Type 0} where
  abbrev pub assert_failure : Stream Sem → Stream Sem
  assert_failure s = record s { asserts = (s.asserts + 1) % 2 ^ 32 }

  abbrev pub fd_assert : Bool → Stream Sem → Stream Sem
  fd_assert condition s = if condition then s else assert_failure s

  abbrev pub call : Call → Stream Sem → Stream Sem
  call c s = record s { calls = s.calls ++ (c ∷ []) }

module _ {Sem Float : Type 0} (kernel : Kernel Sem Float) where
  -- What `k_uptime_get` returns now, and the state after that call.
  abbrev pub now : Stream Sem → ℕ
  now s = kernel.uptime s.clock

  abbrev pub tick : Stream Sem → Stream Sem
  tick s = record s { clock = s.clock + 1 }
