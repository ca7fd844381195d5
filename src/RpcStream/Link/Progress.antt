-- ===== src/RpcStream/Link/Progress.antt =====
-- While both ends are connected, what is submitted can always be delivered and acknowledged.
use mathlib.Core.Path.{subst}
use firefly_zephyr.Base.{
  ℕ, ◌^◌, ◌≤◌, ◌<◌, ◌≡◌, refl, sym, ap, ◌∙◌, true, false, inl, inr, List, [], ◌∷◌, ltb, ◌==◌,
  append_assoc, length, ◌+◌, arith,
}
use firefly_zephyr.Base.Bytes.{slice}
use firefly_zephyr.RpcStream.Check.{check}
use firefly_zephyr.RpcStream.Types.{Kernel, Stream, connected, Call}
use firefly_zephyr.RpcStream.Receive.{receive, receive_data}
use firefly_zephyr.RpcStream.Packets.{
  data_packet, ack_packet, heard, acked, receive-data_packet, receive-ack_packet,
}
use firefly_zephyr.RpcStream.Link.{Link, delivered, here, Reach, IsFresh, idle, busy}
use firefly_zephyr.RpcStream.Link.Receiver.{taken, receive_data-repeated, receive_data-next}
use firefly_zephyr.RpcStream.Link.Arrival.{if-connected, order_cases}
use firefly_zephyr.RpcStream.Link.Resending.{
  SentSince, Onward, begin, check_again, deliver_new, acknowledge_new, Onward-Reach, IsDue,
  check-resends,
}
use firefly_zephyr.RpcStream.Link.Acknowledgement.{advanced, advanced_lem, long}
use firefly_zephyr.RpcStream.Link.Delivery.{Reach-IsOrdered, acknowledged_all}

module _ {Sem Float : Type 0} (kernel : Kernel Sem Float) where
  -- Data of the past and the next data are acknowledged.
  pub receive_data-acknowledges :
      (k : ℕ) (bytes : List ℕ) (s : Stream Sem)
      → k ≤ s.receive_sequence_number
      → SentSince (ack_packet k) s.calls (receive_data kernel k bytes s).calls
  unfolding taken
  receive_data-acknowledges k bytes s p = elim (order_cases k s.receive_sequence_number p) [
    | inl lt ↦ record {
      added = Call.send_command (ack_packet k) ∷ [];
      behind = ap (λ t. t.calls) (receive_data-repeated kernel k bytes s (ground arith));
      carries = here;
    }
    | inr e ↦
        subst (λ m. SentSince (ack_packet m) s.calls (receive_data kernel m bytes s).calls) (sym e)
          record {
            added =
                Call.send_command (ack_packet s.receive_sequence_number)
                ∷ Call.received_data bytes
                ∷ [];
            behind =
                ap (λ t. t.calls) (receive_data-next kernel bytes s (ground arith) (ground arith))
                ∙ append_assoc s.calls
                    (Call.send_command (ack_packet s.receive_sequence_number) ∷ [])
                    (Call.received_data bytes ∷ []);
            carries = here;
          }
  ]

  acked-advanced :
      (s : Stream Sem)
      → acked kernel s.send_sequence_number s
        ≡ advanced kernel (kernel.sem_count_get s.send_semaphore == 0) s
  unfolding advanced
  acked-advanced s =
      let e : ltb s.send_sequence_number s.send_sequence_number ≡ false = ground arith in
      let e' : (s.send_sequence_number == s.send_sequence_number) ≡ true = ground arith in
      rw (e, e') refl

  pub receive-ack_last :
      (s : Stream Sem)
      → s.send_sequence_number < 2 ^ 31
      → s.state ≡ connected
      → ((receive kernel (ack_packet s.send_sequence_number) s).state ≡ connected)
        × ((receive kernel (ack_packet s.send_sequence_number) s).last_send_data.time ≡ 0)
  receive-ack_last s p c =
      let step =
        receive-ack_packet kernel s.send_sequence_number s p ∙ acked-advanced (heard kernel s) in
      let (_, state, _, last) =
        advanced_lem kernel (kernel.sem_count_get s.send_semaphore == 0) (heard kernel s) in
      (
        ap (λ t. t.state) step ∙ state ∙ c,
        ap (λ t. t.last_send_data.time) step ∙ ap (λ d. d.time) last,
      )

module _ {Sem Float : Type 0} (kernel : Kernel Sem Float)
    (positive : (n : ℕ) → 0 < kernel.uptime n) where
  -- A link that goes on from `l`, with nothing that was sent before, to where all that was
  -- submitted there is delivered, and known to be.
  pub record Completes (l : Link Sem) : Type 0 where
    pub final : Link Sem
    pub steps : Onward kernel l final
    pub nothing_new : final.submitted ≡ l.submitted
    pub all : delivered final ≡ l.submitted
    pub still_connected : final.sender.state ≡ connected
    pub waits_for_nothing : final.sender.last_send_data.time ≡ 0

  -- The data that waits is sent again, arrives, and is acknowledged.
  busy-Completes :
      {l m : Link Sem}
      → IsFresh l
      → Reach kernel l m
      → m.sender.state ≡ connected
      → m.receiver.state ≡ connected
      → (bytes : List ℕ) → 0 < m.sender.last_send_data.time
      → m.sender.send_sequence_number + 1 ≡ length m.submitted
      → length bytes ≤ 1024
      → slice m.sender.last_send_data.command 0 m.sender.last_send_data.length
        ≡ data_packet m.sender.send_sequence_number bytes
      → IsDue kernel m.sender
      → Completes m
  busy-Completes {m = m} f r c d bytes p n q sent due =
      let o = Reach-IsOrdered kernel positive f r in
      let k = m.sender.send_sequence_number in
      let small : k < 2 ^ 31 = omega (arith, n, o.small) in
      let (again, c', number) =
        check-resends kernel (data_packet k bytes) m.sender c p due sent (long k bytes) in
      let arrives : receive kernel (data_packet k bytes) m.receiver
          ≡ receive_data kernel k bytes (heard kernel m.receiver) =
        receive-data_packet kernel k bytes m.receiver small (omega (arith, q))
        ∙ if-connected m.receiver.state _ _ d in
      let answered : SentSince (ack_packet k) m.receiver.calls
          (receive kernel (data_packet k bytes) m.receiver).calls =
        subst (λ t. SentSince (ack_packet k) m.receiver.calls t.calls) (sym arrives)
          (receive_data-acknowledges kernel k bytes (heard kernel m.receiver)
            (omega (arith, (o.sending c).acked, (o.receiving d).next_number))) in
      let (c'', e) =
        subst
          (λ j.
            ((receive kernel (ack_packet j) (check kernel m.sender)).state ≡ connected)
            × ((receive kernel (ack_packet j) (check kernel m.sender)).last_send_data.time ≡ 0))
          number
          (receive-ack_last kernel (check kernel m.sender) (omega (arith, number, small)) c') in
      let steps =
        acknowledge_new (ack_packet k) (deliver_new (data_packet k bytes) (check_again begin) again)
          answered in
      record {
        final = _;
        steps = steps;
        nothing_new = refl;
        all = acknowledged_all kernel positive f (Onward-Reach kernel r steps) c'' e;
        still_connected = c'';
        waits_for_nothing = e;
      }

  -- Between two ends of a new connection, of which one sends data, over a link that loses,
  -- repeats and reorders packets, with a clock that is never 0 and a client that sends at most 2
  -- ^ 31 pieces of data of at most 1024 bytes, the next when the last is acknowledged, after any
  -- steps that leave both ends connected, even if every packet sent so far is lost, the link can
  -- go on, with nothing new submitted, to where all data are delivered and the sender is
  -- connected and waits for nothing, provided that at its next reading of the clock a sender that
  -- waits is due to send again and has heard of its peer within `receive_keep_alive.timeout`.
  pub completes :
      {l m : Link Sem}
      → IsFresh l
      → Reach kernel l m
      → m.sender.state ≡ connected
      → m.receiver.state ≡ connected
      → (0 < m.sender.last_send_data.time → IsDue kernel m.sender)
      → Completes m
  completes {m = m} f r c d due = elim ((Reach-IsOrdered kernel positive f r).sending c).phase [
    | idle e _ ↦ record {
      final = m;
      steps = begin;
      nothing_new = refl;
      all = acknowledged_all kernel positive f r c e;
      still_connected = c;
      waits_for_nothing = e;
    }
    | busy bytes p there n q sent sends ↦ busy-Completes f r c d bytes p n q sent (due p)
  ]
