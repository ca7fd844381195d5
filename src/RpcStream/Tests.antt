-- ===== src/RpcStream/Tests.antt =====
-- Runs of two ends of a stream, with semaphores that are counts and a clock that ticks at each call.
use mathlib.Core.Path.{subst}
use firefly_zephyr.Base.{
  ℕ, ◌+◌, ◌-◌, ◌≤◌, ◌<◌, ◌≡◌, refl, sym, ap, true, false, List, [], ◌∷◌, ◌++◌, ltb, length, arith,
}
use firefly_zephyr.RpcStream.Types.{Kernel, Stream, connected, no_last_send_data}
use firefly_zephyr.RpcStream.Send.{send_data}
use firefly_zephyr.RpcStream.Packets.{data_packet, ack_packet, emit, heard, receive-data_packet}
use firefly_zephyr.RpcStream.Sending.{holding, send_data-emit}
use firefly_zephyr.RpcStream.Quiet.{AllSent}
use firefly_zephyr.RpcStream.Receive.{receive, receive_data, receive_connect_request}
use firefly_zephyr.RpcStream.Check.{check}
use firefly_zephyr.RpcStream.Connect.{
  IsRestarted, receive_connect_request-IsRestarted, IsEnded, check-IsEnded,
}
use firefly_zephyr.Binary
use firefly_zephyr.Binary.{Binary}
use firefly_zephyr.RpcStream.Link.{
  Link, delivered, Carries, submit, deliver, acknowledge, Reach, start, next, IsFresh, IsBack,
}
use firefly_zephyr.RpcStream.Link.Sender.{Carries-last}
use firefly_zephyr.RpcStream.Link.Delivery.{
  delivered_in_order, acknowledged_all, acknowledgements_of_delivered,
}
use firefly_zephyr.RpcStream.Link.Resending.{SentSince-Carries, IsDue}
use firefly_zephyr.RpcStream.Link.Progress.{
  receive_data-acknowledges, receive-ack_last, Completes, completes,
}

abbrev counting : Kernel ℕ ℕ
counting = record {
  uptime = λ n. n + 1;
  sem_init = λ initial limit. initial;
  sem_reset = λ s. 0;
  sem_give = λ s. 1;
  sem_take = λ s. (ltb 0 s, s - 1);
  sem_count_get = λ s. s;
  seconds_5 = 5;
  seconds_2 = 2;
  seconds_half = 0;
  milliseconds = λ x. x;
  doubled = λ n. n + n;
  pb_encode = λ c. (true, []);
  pb_decode = λ bytes. (
    false,
    record {
      maximum_flow_window = 0;
      maximum_transmission_unit = 0;
      receive_keep_alive = 0;
      send_keep_alive = 0;
      send_retry_timeout = 0;
    },
    0,
  );
}

positive_counting : (n : ℕ) → 0 < counting.uptime n
positive_counting n = omega arith

abbrev new_end : Stream ℕ
new_end = record {
  state = connected;
  receive_sequence_number = 0;
  receive_keep_alive = record { timeout = 5000; last_active_time = 1 };
  send_sequence_number = 0;
  send_keep_alive = record { timeout = 2000; last_active_time = 1 };
  send_semaphore = 1;
  last_send_data = no_last_send_data;
  last_send_data_timeout = 1;
  send_retry_count = 0;
  send_keep_alive_count = 0;
  receive_keep_alive_disconnect_count = 0;
  calls = [];
  clock = 1;
  asserts = 0;
}

abbrev new_link : Link ℕ
new_link = record { sender = new_end; receiver = new_end; submitted = [] }

new_link-IsFresh : IsFresh new_link
new_link-IsFresh = record {
  nothing_submitted = refl;
  sender_connected = refl;
  sender_first = refl;
  sender_idle = refl;
  sender_room = refl;
  sender_calls = refl;
  receiver_first = refl;
  receiver_idle = refl;
  receiver_calls = refl;
}

abbrev sent_link : Link ℕ
sent_link = record new_link {
  sender = send_data counting (5 ∷ 6 ∷ []) new_end;
  submitted = (5 ∷ 6 ∷ []) ∷ [];
}

sent : Reach counting new_link sent_link
sent = next start (submit (5 ∷ 6 ∷ []) refl refl (omega arith) (omega arith) (omega arith))

-- The data is under way.
sent-Carries : Carries (data_packet 0 (5 ∷ 6 ∷ [])) sent_link.sender.calls
sent-Carries =
    subst (λ s. Carries (data_packet 0 (5 ∷ 6 ∷ [])) s.calls)
      (sym (send_data-emit counting (5 ∷ 6 ∷ []) new_end refl refl (omega arith) (omega arith)))
      (Carries-last (data_packet 0 (5 ∷ 6 ∷ [])) [])

abbrev twice_link : Link ℕ
twice_link =
    let receiver = receive counting (data_packet 0 (5 ∷ 6 ∷ [])) in
    record sent_link { receiver = receiver (receiver new_end) }

-- It arrives twice.
arrived_twice : Reach counting new_link twice_link
arrived_twice =
    next (next sent (deliver (data_packet 0 (5 ∷ 6 ∷ [])) sent-Carries))
      (deliver (data_packet 0 (5 ∷ 6 ∷ [])) sent-Carries)

delivered_in_order_example :
    (rest : List (List ℕ)) × ((5 ∷ 6 ∷ []) ∷ [] ≡ delivered twice_link ++ rest) × (length rest ≤ 1)
delivered_in_order_example =
    delivered_in_order counting positive_counting new_link-IsFresh arrived_twice

-- What the receiver does with it at first.
arrives :
    receive counting (data_packet 0 (5 ∷ 6 ∷ [])) new_end
    ≡ receive_data counting 0 (5 ∷ 6 ∷ []) (heard counting new_end)
arrives = receive-data_packet counting 0 (5 ∷ 6 ∷ []) new_end (omega arith) (omega arith)

abbrev once_link : Link ℕ
once_link = record sent_link { receiver = receive counting (data_packet 0 (5 ∷ 6 ∷ [])) new_end }

once-Carries : Carries (ack_packet 0) once_link.receiver.calls
once-Carries =
    subst (λ t. Carries (ack_packet 0) t.calls) (sym arrives)
      (SentSince-Carries (ack_packet 0) [] _
        (receive_data-acknowledges counting 0 (5 ∷ 6 ∷ []) (heard counting new_end) (omega arith)))

abbrev acknowledged_link : Link ℕ
acknowledged_link = record once_link { sender = receive counting (ack_packet 0) sent_link.sender }

acknowledged : Reach counting new_link acknowledged_link
acknowledged =
    next (next sent (deliver (data_packet 0 (5 ∷ 6 ∷ [])) sent-Carries))
      (acknowledge (ack_packet 0) once-Carries)

sends :
    send_data counting (5 ∷ 6 ∷ []) new_end
    ≡ emit counting (data_packet 0 (5 ∷ 6 ∷ [])) (holding counting (5 ∷ 6 ∷ []) new_end)
sends = send_data-emit counting (5 ∷ 6 ∷ []) new_end refl refl (omega arith) (omega arith)

sent-connected : sent_link.sender.state ≡ connected
sent-connected = ap (λ t. t.state) sends

acknowledged-idle :
    (acknowledged_link.sender.state ≡ connected)
    × (acknowledged_link.sender.last_send_data.time ≡ 0)
acknowledged-idle =
    subst
      (λ t.
        ((receive counting (ack_packet 0) t).state ≡ connected)
        × ((receive counting (ack_packet 0) t).last_send_data.time ≡ 0))
      (sym sends)
      (receive-ack_last counting
        (emit counting (data_packet 0 (5 ∷ 6 ∷ [])) (holding counting (5 ∷ 6 ∷ []) new_end))
        (omega arith) refl)

acknowledged_all_example : delivered acknowledged_link ≡ (5 ∷ 6 ∷ []) ∷ []
acknowledged_all_example =
    acknowledged_all counting positive_counting new_link-IsFresh acknowledged acknowledged-idle.0
      acknowledged-idle.1

acknowledgements_of_delivered_example :
    AllSent (IsBack (length (delivered twice_link))) twice_link.receiver.calls
acknowledgements_of_delivered_example =
    acknowledgements_of_delivered counting positive_counting new_link-IsFresh arrived_twice

-- The first copy is late.
sent-IsDue : IsDue counting sent_link.sender
sent-IsDue = subst (IsDue counting) (sym sends) (record { retry = omega arith; alive = refl })

completes_example : Completes counting positive_counting sent_link
completes_example =
    completes counting positive_counting new_link-IsFresh sent sent-connected refl (λ _. sent-IsDue)

-- Version 1, then the configuration.
receive_connect_request_example : IsRestarted (
    receive_connect_request counting
      (Binary.initialize (1 ∷ 8 ∷ 0 ∷ 4 ∷ []) 4)
      (record new_end { send_sequence_number = 7 }))
receive_connect_request_example =
    receive_connect_request-IsRestarted counting (Binary.initialize (1 ∷ 8 ∷ 0 ∷ 4 ∷ []) 4)
      (record new_end { send_sequence_number = 7 })

check-IsEnded_example : IsEnded (check counting (record new_end { clock = 9000 }))
check-IsEnded_example = check-IsEnded counting (record new_end { clock = 9000 }) refl (omega arith)
