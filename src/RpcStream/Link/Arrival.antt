-- ===== src/RpcStream/Link/Arrival.antt =====
-- A packet arrives at the receiver, or the receiver checks its clocks.
use mathlib.Core.Path.{subst}
use firefly_zephyr.Base.{
  ℕ, ◌+◌, ◌^◌, ◌≤◌, ◌<◌, ◌≡◌, refl, sym, ap, ◌∙◌, false, not, ◌⊎◌, inl, inr, some, List, [], ◌∷◌,
  if◌then◌else◌, length, length-append, get_elem?, arith,
}
use firefly_zephyr.RpcStream.Types.{
  Kernel, Stream, State, connected, disconnected, Call, received_connect, received_disconnect,
  received_keep_alive, received_ack, sent_disconnect, received_data, tick, now,
}
use firefly_zephyr.RpcStream.Receive.{receive, receive_data, is_connected}
use firefly_zephyr.RpcStream.Check.{
  check, check_retry, check_send_keep_alive, check_receive_keep_alive,
}
use firefly_zephyr.RpcStream.Packets.{data_packet, heard, receive-data_packet}
use firefly_zephyr.RpcStream.Quiet.{
  AllSent, IsControl, keep_alive, closing, Quiet, Quiet-refl, Quiet-trans, Quiet-heard, Quiet-tick,
  Quiet-keep_alive_packet, Quiet-disconnect_packet, Quiet-check_send_keep_alive,
  Quiet-check_receive_keep_alive,
}
use firefly_zephyr.RpcStream.Link.{
  Link, delivered, Carries, here, later, IsForth, payload, forth_control, IsOrdered,
}
use firefly_zephyr.RpcStream.Link.Receiver.{
  get_elem?-lt, receiver_quiet, repeated, accepted, receive_data-next, taken,
}

pub Carries-AllSent :
    (P : List ℕ → Type 0) {p : List ℕ} (cs : List Call) → Carries p cs → AllSent P cs → P p
Carries-AllSent P [] c h = elim c [ ]
Carries-AllSent P (Call.send_command p ∷ cs) here h = h.0
Carries-AllSent P (Call.send_command p ∷ cs) (later c) h = Carries-AllSent P cs c h.1
Carries-AllSent P (received_connect ∷ cs) (later c) h = Carries-AllSent P cs c h
Carries-AllSent P (received_disconnect ∷ cs) (later c) h = Carries-AllSent P cs c h
Carries-AllSent P (received_keep_alive ∷ cs) (later c) h = Carries-AllSent P cs c h
Carries-AllSent P (received_ack ∷ cs) (later c) h = Carries-AllSent P cs c h
Carries-AllSent P (sent_disconnect ∷ cs) (later c) h = Carries-AllSent P cs c h
Carries-AllSent P (received_data b ∷ cs) (later c) h = Carries-AllSent P cs c h

pub state_cases : (s : State) → (s ≡ connected) ⊎ (is_connected s ≡ false)
state_cases connected = inl refl
state_cases disconnected = inr refl

pub if-connected :
    {A : Type 0} (s : State) (a b : A) → s ≡ connected → (if is_connected s then a else b) ≡ a
if-connected s a b e = rw e refl

pub if-disconnected :
    {A : Type 0} (s : State) (a b : A)
    → is_connected s ≡ false
    → (if is_connected s then a else b) ≡ b
if-disconnected s a b e = rw e refl

negated :
    {A : Type 0} (s : State) (a b : A) → s ≡ connected → (if not (is_connected s) then a else b) ≡ b
negated s a b e = rw e refl

pub order_cases : (k n : ℕ) → k ≤ n → (k < n) ⊎ (k ≡ n)
order_cases k n p = ground arith

module _ {Sem Float : Type 0} (kernel : Kernel Sem Float) where
  -- A control packet hands no data on.
  pub Quiet-control : (p : List ℕ) (s : Stream Sem) → IsControl p → Quiet s (receive kernel p s)
  Quiet-control p s (keep_alive e) =
      subst (λ t. Quiet s (receive kernel t s)) (sym e) (Quiet-keep_alive_packet kernel s)
  Quiet-control p s (closing e) =
      subst (λ t. Quiet s (receive kernel t s)) (sym e) (Quiet-disconnect_packet kernel s)

  -- Nothing is sent again by a stream that waits for nothing.
  pub check_retry-idle :
      (time : ℕ) (s : Stream Sem) → s.last_send_data.time ≡ 0 → check_retry kernel time s ≡ s
  unfolding check_retry
  check_retry-idle time s e = rw e refl

  pub check-disconnected : (s : Stream Sem) → is_connected s.state ≡ false → check kernel s ≡ s
  unfolding check
  check-disconnected s c = rw c refl

  pub check-connected :
      (s : Stream Sem)
      → s.state ≡ connected
      → check kernel s
        ≡ check_receive_keep_alive kernel (now kernel s) (
            check_send_keep_alive kernel
              (now kernel s)
              (check_retry kernel (now kernel s) (tick kernel s)))
  unfolding check
  check-connected s c = negated s.state _ _ c

  pub Quiet-check_idle : (s : Stream Sem) → s.last_send_data.time ≡ 0 → Quiet s (check kernel s)
  Quiet-check_idle s e = elim (state_cases s.state) [
    | inl c ↦
        subst (λ t. Quiet s t) (sym (check-connected s c))
          (subst
            (λ t. Quiet s (
              check_receive_keep_alive kernel (now kernel s)
                (check_send_keep_alive kernel (now kernel s) t)))
            (sym (check_retry-idle (now kernel s) (tick kernel s) e))
            (Quiet-trans (Quiet-tick kernel s) (
              Quiet-trans (Quiet-check_send_keep_alive kernel (now kernel s) (tick kernel s)) (
                Quiet-check_receive_keep_alive kernel (now kernel s)
                  (check_send_keep_alive kernel (now kernel s) (tick kernel s))))))
    | inr c ↦ subst (λ t. Quiet s t) (sym (check-disconnected s c)) (Quiet-refl s)
  ]

module _ {Sem Float : Type 0} (kernel : Kernel Sem Float) (l : Link Sem) (o : IsOrdered l) where
  arrived :
      (k : ℕ) (bytes : List ℕ)
      → get_elem? l.submitted k ≡ some bytes
      → l.receiver.state ≡ connected
      → IsOrdered (record l { receiver = receive_data kernel k bytes (heard kernel l.receiver) })
  arrived k bytes there c =
      let n = length (delivered l) in
      let within : k < length l.submitted = get_elem?-lt l.submitted k bytes there in
      let size : length l.submitted ≡ n + length o.undelivered =
        ap length o.split ∙ length-append (delivered l) o.undelivered in
      elim (order_cases k n (omega (arith, within, size, o.one_ahead))) [
        | inl lt ↦ repeated kernel l o k bytes lt c
        | inr e ↦
            let was = o.receiving c in
            let same : k ≡ l.receiver.receive_sequence_number = e ∙ sym was.next_number in
            let step : receive_data kernel k bytes (heard kernel l.receiver)
                ≡ taken kernel bytes (heard kernel l.receiver) =
              ap (λ m. receive_data kernel m bytes (heard kernel l.receiver)) same
              ∙ receive_data-next kernel bytes (heard kernel l.receiver) (ground arith)
                  (ground arith) in
            subst (λ r. IsOrdered (record l { receiver = r })) (sym step)
              (accepted kernel l o bytes c
                (subst (λ m. get_elem? l.submitted m ≡ some bytes) e there))
      ]

  deliver_payload :
      (k : ℕ) (bytes : List ℕ)
      → get_elem? l.submitted k ≡ some bytes
      → k < 2 ^ 31
      → length bytes ≤ 1024
      → IsOrdered (record l { receiver = receive kernel (data_packet k bytes) l.receiver })
  deliver_payload k bytes there p q =
      subst (λ r. IsOrdered (record l { receiver = r }))
        (sym (receive-data_packet kernel k bytes l.receiver p (omega arith)))
        (elim (state_cases l.receiver.state) [
          | inl c ↦
              subst (λ r. IsOrdered (record l { receiver = r }))
                (sym (if-connected l.receiver.state _ _ c)) (arrived k bytes there c)
          | inr c ↦
              subst (λ r. IsOrdered (record l { receiver = r }))
                (sym (if-disconnected l.receiver.state _ _ c))
                (receiver_quiet l o (heard kernel l.receiver) (Quiet-heard kernel l.receiver))
        ])

  pub deliver-IsOrdered :
      (p : List ℕ)
      → Carries p l.sender.calls
      → IsOrdered (record l { receiver = receive kernel p l.receiver })
  deliver-IsOrdered p c = elim (Carries-AllSent (IsForth l.submitted) l.sender.calls c o.forth) [
    | payload k bytes there small fits e ↦
        subst (λ t. IsOrdered (record l { receiver = receive kernel t l.receiver })) (sym e)
          (deliver_payload k bytes there small fits)
    | forth_control control ↦
        receiver_quiet l o (receive kernel p l.receiver) (Quiet-control kernel p l.receiver control)
  ]

  pub check_receiver-IsOrdered : IsOrdered (record l { receiver = check kernel l.receiver })
  check_receiver-IsOrdered = elim (state_cases l.receiver.state) [
    | inl c ↦
        receiver_quiet l o (check kernel l.receiver)
          (Quiet-check_idle kernel l.receiver (o.receiving c).sends_nothing)
    | inr c ↦
        subst (λ r. IsOrdered (record l { receiver = r }))
          (sym (check-disconnected kernel l.receiver c)) o
  ]
