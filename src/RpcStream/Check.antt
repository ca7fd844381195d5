-- ===== src/RpcStream/Check.antt =====
-- `fd_rpc_stream_check`: sending again, keeping alive, and giving up.
use firefly_zephyr.Base.{ℕ, ◌+◌, ◌-◌, Bool, not, leb, ltb, ◌&&◌, if◌then◌else◌}
use firefly_zephyr.Base.Bytes.{slice}
use firefly_zephyr.Base.Words.{add32}
use firefly_zephyr.RpcStream.Types.{Kernel, Stream, Tracker, fd_assert, now, tick}
use firefly_zephyr.RpcStream.Send.{send_command, send_keep_alive, send_disconnect}
use firefly_zephyr.RpcStream.Receive.{is_connected}

-- `fd_rpc_stream_tracker_check(tracker, time) == fd_rpc_stream_tracker_status_timeout`. A time before
-- the last one fails the assertion, and is no timeout.
abbrev pub tracker_times_out : Tracker → ℕ → Bool
tracker_times_out t time = ltb t.timeout (time - t.last_active_time)

module _ {Sem Float : Type 0} (kernel : Kernel Sem Float) where
  unfoldable pub tracker_check : Tracker → ℕ → Stream Sem → Bool × Stream Sem
  tracker_check t time s = (tracker_times_out t time, fd_assert (leb t.last_active_time time) s)

  unfoldable pub check_retry : ℕ → Stream Sem → Stream Sem
  unfolding send_command
  check_retry time s =
      let last = s.last_send_data in
      if ltb 0 last.time && ltb (last.time + last.timeout) time
      then send_command kernel (slice last.command 0 last.length) (record s {
        send_retry_count = add32 s.send_retry_count 1;
        last_send_data = record last { timeout = kernel.doubled last.timeout };
      })
      else s

  unfoldable pub check_send_keep_alive : ℕ → Stream Sem → Stream Sem
  unfolding tracker_check send_keep_alive
  check_send_keep_alive time s =
      let (timeout, s') = tracker_check s.send_keep_alive time s in
      if timeout
      then send_keep_alive kernel
          (record s' { send_keep_alive_count = add32 s'.send_keep_alive_count 1 })
      else s'

  unfoldable pub check_receive_keep_alive : ℕ → Stream Sem → Stream Sem
  unfolding tracker_check send_disconnect
  check_receive_keep_alive time s =
      let (timeout, s') = tracker_check s.receive_keep_alive time s in
      if timeout
      then send_disconnect kernel (record s' {
        receive_keep_alive_disconnect_count = add32 s'.receive_keep_alive_disconnect_count 1;
      })
      else s'

  unfoldable pub check : Stream Sem → Stream Sem
  unfolding check_retry check_send_keep_alive check_receive_keep_alive
  check s =
      if not (is_connected s.state)
      then s
      else (let time = now kernel s in
          check_receive_keep_alive time
            (check_send_keep_alive time (check_retry time (tick kernel s))))
