-- ===== src/RpcStream/Quiet.antt =====
-- Calls that hand no data to either side: they send at most a keep-alive or a disconnect packet, and
-- a stream that is still connected afterwards stands where it stood.
use firefly_zephyr.Base.{
  ℕ, ◌≡◌, refl, sym, ap, ◌∙◌, Bool, true, false, List, [], ◌∷◌, ◌++◌, append_assoc, append-nil, leb,
  if◌then◌else◌, arith,
}
use mathlib.Core.Path.{subst}
use firefly_zephyr.RpcStream.Types.{
  Kernel, Stream, LastSendData, State, disconnected, connected, Call, received_connect,
  received_disconnect, received_keep_alive, received_ack, sent_disconnect, received_data, fd_assert,
  assert_failure, call, tick,
}
use firefly_zephyr.RpcStream.Send.{send_keep_alive, send_disconnect, disconnect}
use firefly_zephyr.RpcStream.Receive.{receive}
use firefly_zephyr.RpcStream.Check.{
  check_send_keep_alive, check_receive_keep_alive, tracker_check, tracker_times_out,
}
use firefly_zephyr.Base.Words.{add32}
use firefly_zephyr.RpcStream.Packets.{
  keep_alive_packet, disconnect_packet, emit, heard, send_keep_alive-emit, send_disconnect-emit,
  receive-keep_alive_packet, receive-disconnect_packet,
}

-- Every packet that is sent among these calls has the property.
abbrev pub AllSent : (List ℕ → Type 0) → List Call → Type 0
AllSent P [] = Unit
AllSent P (Call.send_command p ∷ cs) = P p × AllSent P cs
AllSent P (c ∷ cs) = AllSent P cs

-- The data that is handed to the client among these calls.
abbrev pub received : List Call → List (List ℕ)
received [] = []
received (received_data bytes ∷ cs) = bytes ∷ received cs
received (c ∷ cs) = received cs

pub AllSent-append :
    (P : List ℕ → Type 0) (xs ys : List Call) → AllSent P xs → AllSent P ys → AllSent P (xs ++ ys)
AllSent-append P [] ys h k = k
AllSent-append P (Call.send_command p ∷ xs) ys h k = (h.0, AllSent-append P xs ys h.1 k)
AllSent-append P (received_connect ∷ xs) ys h k = AllSent-append P xs ys h k
AllSent-append P (received_disconnect ∷ xs) ys h k = AllSent-append P xs ys h k
AllSent-append P (received_keep_alive ∷ xs) ys h k = AllSent-append P xs ys h k
AllSent-append P (received_ack ∷ xs) ys h k = AllSent-append P xs ys h k
AllSent-append P (sent_disconnect ∷ xs) ys h k = AllSent-append P xs ys h k
AllSent-append P (received_data b ∷ xs) ys h k = AllSent-append P xs ys h k

pub AllSent-mono :
    (P Q : List ℕ → Type 0) (xs : List Call)
    → ((p : List ℕ) → P p → Q p)
    → AllSent P xs
    → AllSent Q xs
AllSent-mono P Q [] f h = tt
AllSent-mono P Q (Call.send_command p ∷ xs) f h = (f p h.0, AllSent-mono P Q xs f h.1)
AllSent-mono P Q (received_connect ∷ xs) f h = AllSent-mono P Q xs f h
AllSent-mono P Q (received_disconnect ∷ xs) f h = AllSent-mono P Q xs f h
AllSent-mono P Q (received_keep_alive ∷ xs) f h = AllSent-mono P Q xs f h
AllSent-mono P Q (received_ack ∷ xs) f h = AllSent-mono P Q xs f h
AllSent-mono P Q (sent_disconnect ∷ xs) f h = AllSent-mono P Q xs f h
AllSent-mono P Q (received_data b ∷ xs) f h = AllSent-mono P Q xs f h

pub received-append : (xs ys : List Call) → received (xs ++ ys) ≡ received xs ++ received ys
received-append [] ys = refl
received-append (received_data b ∷ xs) ys = ap (λ t. b ∷ t) (received-append xs ys)
received-append (Call.send_command p ∷ xs) ys = received-append xs ys
received-append (received_connect ∷ xs) ys = received-append xs ys
received-append (received_disconnect ∷ xs) ys = received-append xs ys
received-append (received_keep_alive ∷ xs) ys = received-append xs ys
received-append (received_ack ∷ xs) ys = received-append xs ys
received-append (sent_disconnect ∷ xs) ys = received-append xs ys

pub data IsControl (p : List ℕ) : Type 0 where
  keep_alive : p ≡ keep_alive_packet → IsControl p
  closing : p ≡ disconnect_packet → IsControl p

module _ {Sem : Type 0} where
  -- What a stream keeps while it is connected.
  abbrev pub core : Stream Sem → State × ℕ × ℕ × LastSendData
  core s = (s.state, s.receive_sequence_number, s.send_sequence_number, s.last_send_data)

  pub record Quiet (s t : Stream Sem) : Type 0 where
    pub added : List Call
    pub calls : t.calls ≡ s.calls ++ added
    pub control : AllSent IsControl added
    pub none_received : received added ≡ []
    pub stands : t.state ≡ connected → core t ≡ core s

  pub Quiet-trans : {s t u : Stream Sem} → Quiet s t → Quiet t u → Quiet s u
  Quiet-trans {s} q r = record {
    added = q.added ++ r.added;
    calls = r.calls ∙ ap (λ k. k ++ r.added) q.calls ∙ append_assoc s.calls q.added r.added;
    control = AllSent-append IsControl q.added r.added q.control r.control;
    none_received = received-append q.added r.added ∙ rw (q.none_received, r.none_received) refl;
    stands = λ e. let b = r.stands e in b ∙ q.stands (sym (ap (λ k. k.0) b) ∙ e);
  }

  pub Quiet-refl : (s : Stream Sem) → Quiet s s
  Quiet-refl s = record {
    added = [];
    calls = sym (append-nil s.calls);
    control = tt;
    none_received = refl;
    stands = λ e. refl;
  }

  -- No call of the client.
  Quiet-silent :
      (s t : Stream Sem) → t.calls ≡ s.calls → (t.state ≡ connected → core t ≡ core s) → Quiet s t
  Quiet-silent s t e h = record {
    added = [];
    calls = e ∙ sym (append-nil s.calls);
    control = tt;
    none_received = refl;
    stands = h;
  }

  Quiet-if : (c : Bool) {s t u : Stream Sem} → Quiet s t → Quiet s u → Quiet s (if c then t else u)
  Quiet-if true q r = q
  Quiet-if false q r = r

  Quiet-fd_assert : (c : Bool) (s : Stream Sem) → Quiet s (fd_assert c s)
  Quiet-fd_assert true s = Quiet-refl s
  Quiet-fd_assert false s = Quiet-silent s (assert_failure s) refl (λ e. refl)

  -- A call that neither sends nor receives data.
  Quiet-call :
      (c : Call) (s : Stream Sem)
      → AllSent IsControl (c ∷ [])
      → received (c ∷ []) ≡ []
      → Quiet s (call c s)
  Quiet-call c s h k = record {
    added = c ∷ [];
    calls = refl;
    control = h;
    none_received = k;
    stands = λ e. refl;
  }

module _ {Sem Float : Type 0} (kernel : Kernel Sem Float) where
  pub Quiet-tick : (s : Stream Sem) → Quiet s (tick kernel s)
  Quiet-tick s = Quiet-silent s (tick kernel s) refl (λ e. refl)

  pub Quiet-heard : (s : Stream Sem) → Quiet s (heard kernel s)
  Quiet-heard s = Quiet-silent s (heard kernel s) refl (λ e. refl)

  Quiet-emit : (p : List ℕ) (s : Stream Sem) → IsControl p → Quiet s (emit kernel p s)
  Quiet-emit p s h = record {
    added = Call.send_command p ∷ [];
    calls = refl;
    control = (h, tt);
    none_received = refl;
    stands = λ e. refl;
  }

  pub disconnect-calls : (s : Stream Sem) → (disconnect kernel s).calls ≡ s.calls
  unfolding disconnect
  disconnect-calls s = ground arith

  pub disconnect-state : (s : Stream Sem) → (disconnect kernel s).state ≡ disconnected
  unfolding disconnect
  disconnect-state s = refl

  pub Quiet-disconnect : (s : Stream Sem) → Quiet s (disconnect kernel s)
  Quiet-disconnect s =
      Quiet-silent s (disconnect kernel s) (disconnect-calls s)
        (λ e. absurd (cc (disconnect-state s, e)))

  pub Quiet-send_disconnect : (s : Stream Sem) → Quiet s (send_disconnect kernel s)
  Quiet-send_disconnect s =
      subst (λ t. Quiet s t) (sym (send_disconnect-emit kernel s))
        (Quiet-trans (Quiet-emit disconnect_packet s (closing refl)) (
          Quiet-trans (Quiet-disconnect (emit kernel disconnect_packet s)) (
            Quiet-call sent_disconnect (disconnect kernel (emit kernel disconnect_packet s)) tt
              refl)))

  pub Quiet-send_keep_alive : (s : Stream Sem) → Quiet s (send_keep_alive kernel s)
  Quiet-send_keep_alive s =
      subst (λ t. Quiet s t) (sym (send_keep_alive-emit kernel s))
        (Quiet-emit keep_alive_packet s (keep_alive refl))

  pub Quiet-keep_alive_packet : (s : Stream Sem) → Quiet s (receive kernel keep_alive_packet s)
  Quiet-keep_alive_packet s =
      subst (λ t. Quiet s t) (sym (receive-keep_alive_packet kernel s))
        (Quiet-trans (Quiet-heard s) (Quiet-call received_keep_alive (heard kernel s) tt refl))

  pub Quiet-disconnect_packet : (s : Stream Sem) → Quiet s (receive kernel disconnect_packet s)
  Quiet-disconnect_packet s =
      subst (λ t. Quiet s t) (sym (receive-disconnect_packet kernel s))
        (Quiet-trans (Quiet-heard s) (
          Quiet-trans (Quiet-disconnect (heard kernel s))
            (Quiet-call received_disconnect (disconnect kernel (heard kernel s)) tt refl)))

  pub Quiet-check_send_keep_alive :
      (time : ℕ) (s : Stream Sem) → Quiet s (check_send_keep_alive kernel time s)
  unfolding check_send_keep_alive tracker_check
  Quiet-check_send_keep_alive time s =
      let s' = fd_assert (leb s.send_keep_alive.last_active_time time) s in
      Quiet-trans (Quiet-fd_assert (leb s.send_keep_alive.last_active_time time) s) (
        Quiet-if (tracker_times_out s.send_keep_alive time)
          (Quiet-trans
            (Quiet-silent s'
              (record s' { send_keep_alive_count = add32 s'.send_keep_alive_count 1 }) refl
              (λ e. refl))
            (Quiet-send_keep_alive
              (record s' { send_keep_alive_count = add32 s'.send_keep_alive_count 1 })))
          (Quiet-refl s'))

  pub Quiet-check_receive_keep_alive :
      (time : ℕ) (s : Stream Sem) → Quiet s (check_receive_keep_alive kernel time s)
  unfolding check_receive_keep_alive tracker_check
  Quiet-check_receive_keep_alive time s =
      let s' = fd_assert (leb s.receive_keep_alive.last_active_time time) s in
      let t = record s' {
        receive_keep_alive_disconnect_count = add32 s'.receive_keep_alive_disconnect_count 1;
      } in
      Quiet-trans (Quiet-fd_assert (leb s.receive_keep_alive.last_active_time time) s) (
        Quiet-if (tracker_times_out s.receive_keep_alive time)
          (Quiet-trans (Quiet-silent s' t refl (λ e. refl)) (Quiet-send_disconnect t))
          (Quiet-refl s'))
