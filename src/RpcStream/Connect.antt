-- ===== src/RpcStream/Connect.antt =====
-- A connect request starts the stream over, and a peer that is silent for too long ends it.
use mathlib.Core.Path.{subst}
use firefly_zephyr.Base.{
  ℕ, ◌-◌, ◌<◌, ◌≡◌, refl, sym, ap, ◌∙◌, Bool, true, false, inl, inr, List, [], ◌∷◌, ◌++◌,
  append_assoc, leb, ltb, bit_or, if◌then◌else◌, length, arith,
}
use firefly_zephyr.Base.Bytes.{slice}
use firefly_zephyr.Base.Words.{add32}
use firefly_zephyr.Binary.{Binary, put_uint8, put_uint32}
use firefly_zephyr.RpcStream.Types.{
  Kernel, Configuration, Stream, disconnected, connected, Tracker, Call, received_connect,
  sent_disconnect, no_last_send_data, command_connect_response, header_type_command, fd_assert,
  call, tick, now,
}
use firefly_zephyr.RpcStream.Send.{
  send_command, send_connect_response, put_connection_configuration, send_disconnect,
  send_keep_alive, disconnect, stack_buffer,
}
use firefly_zephyr.RpcStream.Receive.{receive_connect_request}
use firefly_zephyr.RpcStream.Check.{
  check, check_retry, check_send_keep_alive, check_receive_keep_alive, tracker_check,
  tracker_times_out,
}
use firefly_zephyr.RpcStream.Packets.{
  disconnect_packet, emit, send_disconnect-emit, send_keep_alive-emit,
}
use firefly_zephyr.RpcStream.Quiet.{disconnect-calls, disconnect-state}
use firefly_zephyr.RpcStream.Link.Acknowledgement.{again, check_retry_cases}
use firefly_zephyr.RpcStream.Link.Arrival.{check-connected}

-- Both directions begin with their first data.
pub record IsRestarted {Sem : Type 0} (s : Stream Sem) : Type 0 where
  pub is_connected : s.state ≡ connected
  pub receives_first : s.receive_sequence_number ≡ 0
  pub sends_first : s.send_sequence_number ≡ 0
  pub waits_for_nothing : s.last_send_data ≡ no_last_send_data

-- The peer and the client are told of the end.
pub record IsEnded {Sem : Type 0} (s : Stream Sem) : Type 0 where
  pub is_disconnected : s.state ≡ disconnected
  pub before : List Call
  pub told : s.calls ≡ before ++ (Call.send_command disconnect_packet ∷ sent_disconnect ∷ [])

chosen : {A : Type 0} (c : Bool) (a b : A) → c ≡ true → (if c then a else b) ≡ a
chosen c a b e = rw e refl

ltb-true : (m n : ℕ) → m < n → ltb m n ≡ true
ltb-true m n p = ground (arith, p)

module _ {Sem : Type 0} where
  IsRestarted-fd_assert : (c : Bool) (s : Stream Sem) → IsRestarted s → IsRestarted (fd_assert c s)
  IsRestarted-fd_assert true s h = h
  IsRestarted-fd_assert false s h = record {
    is_connected = h.is_connected;
    receives_first = h.receives_first;
    sends_first = h.sends_first;
    waits_for_nothing = h.waits_for_nothing;
  }

  put_branch :
      (c : Bool) (a b : Binary) (s t : Stream Sem)
      → IsRestarted s
      → IsRestarted t
      → IsRestarted (if◌then◌else◌ {A = Binary × Stream Sem} c (a, s) (b, t)).1
  put_branch true a b s t h k = h
  put_branch false a b s t h k = k

  IsRestarted-call : (c : Call) (s : Stream Sem) → IsRestarted s → IsRestarted (call c s)
  IsRestarted-call c s h = record {
    is_connected = h.is_connected;
    receives_first = h.receives_first;
    sends_first = h.sends_first;
    waits_for_nothing = h.waits_for_nothing;
  }

  kept_fd_assert :
      (c : Bool) (s : Stream Sem) → (fd_assert c s).receive_keep_alive ≡ s.receive_keep_alive
  kept_fd_assert true s = refl
  kept_fd_assert false s = refl

  kept_if :
      (c : Bool) (s t : Stream Sem) (x : Tracker)
      → s.receive_keep_alive ≡ x
      → t.receive_keep_alive ≡ x
      → (if◌then◌else◌ {A = Stream Sem} c s t).receive_keep_alive ≡ x
  kept_if true s t x e f = e
  kept_if false s t x e f = f

module _ {Sem Float : Type 0} (kernel : Kernel Sem Float) where
  IsRestarted-send_command :
      (bytes : List ℕ) (s : Stream Sem) → IsRestarted s → IsRestarted (send_command kernel bytes s)
  unfolding send_command
  IsRestarted-send_command bytes s h =
      let h' = IsRestarted-fd_assert (leb 4 (length bytes)) s h in
      record {
        is_connected = h'.is_connected;
        receives_first = h'.receives_first;
        sends_first = h'.sends_first;
        waits_for_nothing = h'.waits_for_nothing;
      }

  IsRestarted-put_connection_configuration :
      (binary : Binary) (version : ℕ) (configuration : Configuration Float) (s : Stream Sem)
      → IsRestarted s
      → IsRestarted (put_connection_configuration kernel binary version configuration s).1
  unfolding put_connection_configuration
  IsRestarted-put_connection_configuration binary version configuration s h =
      put_branch (leb version 1) _ _ s _ h (IsRestarted-fd_assert _ _ (IsRestarted-fd_assert _ _ h))

  IsRestarted-send_connect_response :
      (result version : ℕ) (configuration : Configuration Float) (s : Stream Sem)
      → IsRestarted s
      → IsRestarted (send_connect_response kernel result version configuration s)
  unfolding send_connect_response
  IsRestarted-send_connect_response result version configuration s h =
      IsRestarted-send_command _ _ (
        IsRestarted-fd_assert _ _ (
          IsRestarted-put_connection_configuration
            (put_uint8
              (put_uint8
                (put_uint32 (stack_buffer 64) (bit_or command_connect_response header_type_command))
                result)
              version)
            version configuration s h))

  -- A connect request of any version, well formed or not, leaves a stream in any state connected,
  -- with both sequence numbers 0 and no data waiting for an acknowledgement.
  pub receive_connect_request-IsRestarted :
      (binary : Binary) (s : Stream Sem) → IsRestarted (receive_connect_request kernel binary s)
  unfolding receive_connect_request disconnect
  receive_connect_request-IsRestarted binary s = IsRestarted-call received_connect _ (
      IsRestarted-send_connect_response 0 _ _ _ record {
        is_connected = refl;
        receives_first = refl;
        sends_first = refl;
        waits_for_nothing = refl;
      })

  -- A check that sends again, or keeps the peer alive, leaves the time of the last packet.
  kept_send_command :
      (bytes : List ℕ) (s : Stream Sem)
      → (send_command kernel bytes s).receive_keep_alive ≡ s.receive_keep_alive
  unfolding send_command
  kept_send_command bytes s = kept_fd_assert (leb 4 (length bytes)) s

  pub kept_check_retry :
      (time : ℕ) (s : Stream Sem)
      → (check_retry kernel time s).receive_keep_alive ≡ s.receive_keep_alive
  kept_check_retry time s = elim (check_retry_cases kernel time s) [
    | inl e ↦
        ap (λ t. t.receive_keep_alive) e
        ∙ kept_send_command (slice s.last_send_data.command 0 s.last_send_data.length)
            (again kernel s)
    | inr e ↦ ap (λ t. t.receive_keep_alive) e
  ]

  pub kept_check_send_keep_alive :
      (time : ℕ) (s : Stream Sem)
      → (check_send_keep_alive kernel time s).receive_keep_alive ≡ s.receive_keep_alive
  unfolding check_send_keep_alive tracker_check
  kept_check_send_keep_alive time s =
      let s' = fd_assert (leb s.send_keep_alive.last_active_time time) s in
      let asserted = kept_fd_assert (leb s.send_keep_alive.last_active_time time) s in
      let u = record s' { send_keep_alive_count = add32 s'.send_keep_alive_count 1 } in
      kept_if _ (send_keep_alive kernel u) s' _
        (ap (λ t. t.receive_keep_alive) (send_keep_alive-emit kernel u) ∙ asserted) asserted

  -- The stream as it gives its peer up.
  abbrev giving_up : ℕ → Stream Sem → Stream Sem
  giving_up time s =
      let s' = fd_assert (leb s.receive_keep_alive.last_active_time time) s in
      record s' {
        receive_keep_alive_disconnect_count = add32 s'.receive_keep_alive_disconnect_count 1;
      }

  check_receive_keep_alive-silent :
      (time : ℕ) (s : Stream Sem)
      → tracker_times_out s.receive_keep_alive time ≡ true
      → check_receive_keep_alive kernel time s ≡ send_disconnect kernel (giving_up time s)
  unfolding check_receive_keep_alive tracker_check
  check_receive_keep_alive-silent time s e = chosen _ _ _ e

  IsEnded-send_disconnect : (s : Stream Sem) → IsEnded (send_disconnect kernel s)
  IsEnded-send_disconnect s =
      subst (λ t. IsEnded t) (sym (send_disconnect-emit kernel s))
        record {
          is_disconnected = disconnect-state kernel (emit kernel disconnect_packet s);
          before = s.calls;
          told =
              ap (λ cs. cs ++ (sent_disconnect ∷ []))
                (disconnect-calls kernel (emit kernel disconnect_packet s))
              ∙ append_assoc s.calls (Call.send_command disconnect_packet ∷ [])
                  (sent_disconnect ∷ []);
        }

  -- If the last packet came longer ago than `receive_keep_alive.timeout`, `fd_rpc_stream_check`
  -- leaves a connected stream disconnected, and the last it does is to send a disconnect packet
  -- and to tell its client, whatever it sends before that.
  pub check-IsEnded :
      (s : Stream Sem)
      → s.state ≡ connected
      → s.receive_keep_alive.timeout < now kernel s - s.receive_keep_alive.last_active_time
      → IsEnded (check kernel s)
  check-IsEnded s c p =
      let time = now kernel s in
      let r = check_retry kernel time (tick kernel s) in
      let u = check_send_keep_alive kernel time r in
      let kept : u.receive_keep_alive ≡ s.receive_keep_alive =
        kept_check_send_keep_alive time r ∙ kept_check_retry time (tick kernel s) in
      let silent : tracker_times_out u.receive_keep_alive time ≡ true =
        ap (λ t. tracker_times_out t time) kept ∙ ltb-true _ _ p in
      subst (λ t. IsEnded t)
        (sym (check-connected kernel s c ∙ check_receive_keep_alive-silent time u silent))
        (IsEnded-send_disconnect (giving_up time u))
