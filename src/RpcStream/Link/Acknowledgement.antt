-- ===== src/RpcStream/Link/Acknowledgement.antt =====
-- A sender sends its data again, or hears that it arrived.
use mathlib.Core.Path.{subst}
use firefly_zephyr.Base.{
  ℕ, ◌+◌, ◌^◌, ◌<◌, ◌≡◌, refl, sym, ap, ◌∙◌, Bool, true, false, ◌⊎◌, inl, inr, List, [], ◌∷◌, ◌++◌,
  ltb, leb, ◌==◌, if◌then◌else◌, length, length-append, arith,
}
use firefly_zephyr.Base.Bytes.{slice}
use firefly_zephyr.Base.Words.{add32}
use firefly_zephyr.Binary.{pack_uint32}
use firefly_zephyr.RpcStream.Types.{
  Kernel, Stream, connected, Call, received_ack, no_last_send_data, fd_assert, call, tick, now,
}
use firefly_zephyr.RpcStream.Send.{send_command, disconnect}
use firefly_zephyr.RpcStream.Receive.{receive}
use firefly_zephyr.RpcStream.Check.{
  check, check_retry, check_send_keep_alive, check_receive_keep_alive,
}
use firefly_zephyr.RpcStream.Packets.{
  data_packet, ack_packet, emit, heard, acked, receive-ack_packet,
}
use firefly_zephyr.RpcStream.Sending.{send_command-emit}
use firefly_zephyr.RpcStream.Quiet.{
  Quiet, Quiet-refl, Quiet-trans, Quiet-heard, Quiet-tick, Quiet-disconnect, Quiet-send_disconnect,
  Quiet-check_send_keep_alive, Quiet-check_receive_keep_alive,
}
use firefly_zephyr.RpcStream.Link.{
  Link, delivered, Carries, payload, IsBack, ack, back_control, idle, busy, IsOrdered,
}
use firefly_zephyr.RpcStream.Link.Arrival.{
  Carries-AllSent, Quiet-control, check_retry-idle, check-connected, check-disconnected,
  state_cases,
}
use firefly_zephyr.RpcStream.Link.Sender.{Carries-append, sender_kept, sender_quiet}

if_cases :
    {A : Type 0} (c : Bool) (a b : A) → ((if c then a else b) ≡ a) ⊎ ((if c then a else b) ≡ b)
if_cases true a b = inl refl
if_cases false a b = inr refl

same_number : (k n : ℕ) → (k == n) ≡ true → k ≡ n
same_number k n e = ground (arith, e)

pub long : (k : ℕ) (bytes : List ℕ) → leb 4 (length (data_packet k bytes)) ≡ true
unfolding pack_uint32
long k bytes = ground arith

-- Three branches, of which only the second is not quiet.
choose :
    {Sem E : Type 0} (p q : Bool) {s a b c : Stream Sem}
    → Quiet s a
    → (q ≡ true → E)
    → Quiet s c
    → Quiet s (if p then a else if q then b else c)
      ⊎ (E × ((if p then a else if q then b else c) ≡ b))
choose true q h e h' = inl h
choose false true h e h' = inr (e refl, refl)
choose false false h e h' = inl h'

module _ {Sem Float : Type 0} (kernel : Kernel Sem Float) where
  -- The stream as it sends its last data again.
  abbrev pub again : Stream Sem → Stream Sem
  again s = record s {
    send_retry_count = add32 s.send_retry_count 1;
    last_send_data = record s.last_send_data { timeout = kernel.doubled s.last_send_data.timeout };
  }

  pub check_retry_cases :
      (time : ℕ) (s : Stream Sem)
      → (check_retry kernel time s
          ≡ send_command kernel
              (slice s.last_send_data.command 0 s.last_send_data.length)
              (again s))
        ⊎ (check_retry kernel time s ≡ s)
  unfolding check_retry
  check_retry_cases time s = if_cases _ _ _

  -- The next number is awaited.
  unfoldable pub advanced : Bool → Stream Sem → Stream Sem
  advanced c s =
      let s' = fd_assert c (record s { send_sequence_number = add32 s.send_sequence_number 1 }) in
      call received_ack (record s' {
        send_semaphore = kernel.sem_give s'.send_semaphore;
        last_send_data = no_last_send_data;
      })

  pub advanced_lem :
      (c : Bool) (s : Stream Sem)
      → ((advanced c s).calls ≡ s.calls ++ (received_ack ∷ []))
        × ((advanced c s).state ≡ s.state)
        × ((advanced c s).send_sequence_number ≡ add32 s.send_sequence_number 1)
        × ((advanced c s).last_send_data ≡ no_last_send_data)
  unfolding advanced
  advanced_lem true s = (refl, refl, refl, refl)
  advanced_lem false s = (refl, refl, refl, refl)

  acked_cases :
      (k : ℕ) (s : Stream Sem)
      → Quiet s (acked kernel k s)
        ⊎ ((k ≡ s.send_sequence_number)
            × (acked kernel k s ≡ advanced (kernel.sem_count_get s.send_semaphore == 0) s))
  unfolding advanced
  acked_cases k s =
      choose (ltb k s.send_sequence_number) (k == s.send_sequence_number) (Quiet-refl s)
        (λ e. same_number k s.send_sequence_number e)
        (Quiet-trans (Quiet-disconnect kernel s)
          (Quiet-send_disconnect kernel (disconnect kernel s)))

module _ {Sem Float : Type 0} (kernel : Kernel Sem Float) (l : Link Sem) (o : IsOrdered l) where
  retry-IsOrdered :
      (time : ℕ)
      → l.sender.state ≡ connected
      → IsOrdered (record l { sender = check_retry kernel time l.sender })
  retry-IsOrdered time c =
      let s = l.sender in
      let w = o.sending c in
      elim (w.phase) [
        | idle e n ↦
            subst (λ t. IsOrdered (record l { sender = t }))
              (sym (check_retry-idle kernel time s e)) o
        | busy bytes p there n q sent sends ↦ elim (check_retry_cases kernel time s) [
          | inl e ↦
              let packet = data_packet s.send_sequence_number bytes in
              let e' : check_retry kernel time s ≡ emit kernel packet (again kernel s) =
                e
                ∙ ap (λ t. send_command kernel t (again kernel s)) sent
                ∙ send_command-emit kernel packet (again kernel s)
                    (long s.send_sequence_number bytes) in
              subst (λ t. IsOrdered (record l { sender = t })) (sym e')
                (sender_kept l o (emit kernel packet (again kernel s))
                  (Call.send_command packet ∷ []) refl
                  (
                    payload s.send_sequence_number bytes there (omega (arith, n, o.small)) q refl,
                    tt,
                  )
                  (λ _. record {
                    acked = w.acked;
                    room = w.room;
                    phase =
                        busy bytes p there n q sent
                          (Carries-append packet s.calls (Call.send_command packet ∷ []) sends);
                  }))
          | inr e ↦ subst (λ t. IsOrdered (record l { sender = t })) (sym e) o
        ]
      ]

  -- The acknowledgement of the last data ends the wait for it.
  acknowledged_last :
      (k : ℕ)
      → k < length (delivered l)
      → k ≡ l.sender.send_sequence_number
      → (c : Bool) → IsOrdered (record l { sender = advanced kernel c (heard kernel l.sender) })
  acknowledged_last k lt e c =
      let t = advanced kernel c (heard kernel l.sender) in
      let (calls, state, number, last) = advanced_lem kernel c (heard kernel l.sender) in
      let size : length l.submitted ≡ length (delivered l) + length o.undelivered =
        ap length o.split ∙ length-append (delivered l) o.undelivered in
      sender_kept l o t (received_ack ∷ []) calls tt (λ connects.
        let w = o.sending (sym state ∙ connects) in
        let sum : t.send_sequence_number ≡ k + 1 = omega (arith, number, e, lt, size, o.small) in
        record {
          acked = omega (arith, sum, lt);
          room = ap (λ d. length d.command) last;
          phase = elim (w.phase) [
            | idle _ n ↦ absurd (omega (arith, n, e, lt, size))
            | busy _ _ _ n _ _ _ ↦ idle (ap (λ d. d.time) last) (omega (arith, n, sum, e))
          ];
        })

  acknowledged :
      (k : ℕ)
      → k < length (delivered l)
      → IsOrdered (record l { sender = receive kernel (ack_packet k) l.sender })
  acknowledged k lt =
      let s = heard kernel l.sender in
      let size : length l.submitted ≡ length (delivered l) + length o.undelivered =
        ap length o.split ∙ length-append (delivered l) o.undelivered in
      let small : k < 2 ^ 31 = omega (arith, lt, size, o.small) in
      subst (λ t. IsOrdered (record l { sender = t }))
        (sym (receive-ack_packet kernel k l.sender small))
        (elim (acked_cases kernel k s) [
          | inl q ↦
              sender_quiet (record l { sender = s })
                (sender_quiet l o s (Quiet-heard kernel l.sender)) (acked kernel k s) q
          | inr (e, f) ↦
              subst (λ t. IsOrdered (record l { sender = t })) (sym f)
                (acknowledged_last k lt e (kernel.sem_count_get s.send_semaphore == 0))
        ])

  pub acknowledge-IsOrdered :
      (p : List ℕ)
      → Carries p l.receiver.calls
      → IsOrdered (record l { sender = receive kernel p l.sender })
  acknowledge-IsOrdered p c =
      elim (Carries-AllSent (IsBack (length (delivered l))) l.receiver.calls c o.back) [
        | ack k lt e ↦
            subst (λ t. IsOrdered (record l { sender = receive kernel t l.sender })) (sym e)
              (acknowledged k lt)
        | back_control control ↦
            sender_quiet l o (receive kernel p l.sender) (Quiet-control kernel p l.sender control)
      ]

module _ {Sem Float : Type 0} (kernel : Kernel Sem Float) (l : Link Sem) (o : IsOrdered l) where
  pub check_sender-IsOrdered : IsOrdered (record l { sender = check kernel l.sender })
  check_sender-IsOrdered =
      let s = l.sender in
      elim (state_cases s.state) [
        | inl c ↦
            let t = tick kernel s in
            let ticked = sender_quiet l o t (Quiet-tick kernel s) in
            let r = check_retry kernel (now kernel s) t in
            let retried =
              retry-IsOrdered kernel (record l { sender = t }) ticked (now kernel s) c in
            let u = check_send_keep_alive kernel (now kernel s) r in
            subst (λ v. IsOrdered (record l { sender = v })) (sym (check-connected kernel s c))
              (sender_quiet (record l { sender = r }) retried
                (check_receive_keep_alive kernel (now kernel s) u)
                (Quiet-trans (Quiet-check_send_keep_alive kernel (now kernel s) r)
                  (Quiet-check_receive_keep_alive kernel (now kernel s) u)))
        | inr c ↦
            subst (λ v. IsOrdered (record l { sender = v })) (sym (check-disconnected kernel s c)) o
      ]
