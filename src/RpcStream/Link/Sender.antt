-- ===== src/RpcStream/Link/Sender.antt =====
-- The sender's steps keep the data in order.
use mathlib.Core.Path.{subst}
use firefly_zephyr.Base.{
  ℕ, suc, zero, ◌+◌, ◌^◌, ◌≤◌, ◌<◌, ◌≡◌, refl, sym, ap, ◌∙◌, some, List, [], ◌∷◌, ◌++◌, append-nil,
  length, length-append, get_elem?, arith,
}
use firefly_zephyr.Base.Bytes.{slice, length-copy_in}
use firefly_zephyr.Binary.{pack_uint32}
use firefly_zephyr.RpcStream.Types.{Kernel, Stream, connected, Call}
use firefly_zephyr.RpcStream.Send.{send_data}
use firefly_zephyr.RpcStream.Packets.{data_packet, emit}
use firefly_zephyr.RpcStream.Sending.{filled, holding, slice-filled, send_data-emit}
use firefly_zephyr.RpcStream.Quiet.{AllSent, AllSent-append, AllSent-mono, IsControl, Quiet}
use firefly_zephyr.RpcStream.Link.{
  Link, delivered, Carries, here, later, IsForth, payload, forth_control, Phase, idle, busy,
  IsSending, IsOrdered,
}
use firefly_zephyr.RpcStream.Link.Receiver.{get_elem?-append, length-snoc}

get_elem?-more :
    (xs ys : List (List ℕ)) (i : ℕ) (x : List ℕ)
    → get_elem? xs i ≡ some x
    → get_elem? (xs ++ ys) i ≡ some x
get_elem?-more [] ys i x e = cc
get_elem?-more (z ∷ xs) ys zero x e = e
get_elem?-more (z ∷ xs) ys (suc i) x e = get_elem?-more xs ys i x e

pub Carries-append : (p : List ℕ) (cs ds : List Call) → Carries p cs → Carries p (cs ++ ds)
Carries-append p [] ds c = elim c [ ]
Carries-append p (Call.send_command q ∷ cs) ds here = here
Carries-append p (d ∷ cs) ds (later c) = later (Carries-append p cs ds c)

pub Carries-last : (p : List ℕ) (cs : List Call) → Carries p (cs ++ (Call.send_command p ∷ []))
Carries-last p [] = here
Carries-last p (d ∷ cs) = later (Carries-last p cs)

IsForth-more : (xs ys : List (List ℕ)) (p : List ℕ) → IsForth xs p → IsForth (xs ++ ys) p
IsForth-more xs ys p (payload k bytes there small fits e) =
    payload k bytes (get_elem?-more xs ys k bytes there) small fits e
IsForth-more xs ys p (forth_control c) = forth_control c

empty_list : (xs : List (List ℕ)) → length xs ≡ 0 → xs ≡ []
empty_list [] e = refl
empty_list (x ∷ xs) e = absurd (omega (arith, e))

length-filled :
    (command : List ℕ) (k : ℕ) (bytes : List ℕ) → length (filled command k bytes) ≡ length command
length-filled command k bytes = length-copy_in _ 4 bytes ∙ length-copy_in command 0 (pack_uint32 k)

module _ {Sem : Type 0} (l : Link Sem) (o : IsOrdered l) where
  -- A sender that sent what was submitted, or control.
  pub sender_kept :
      (s : Stream Sem) (added : List Call)
      → s.calls ≡ l.sender.calls ++ added
      → AllSent (IsForth l.submitted) added
      → (s.state ≡ connected → IsSending l.submitted (length (delivered l)) s)
      → IsOrdered (record l { sender = s })
  sender_kept s added e forth sending = record {
    undelivered = o.undelivered;
    split = o.split;
    one_ahead = o.one_ahead;
    small = o.small;
    forth =
        subst (λ t. AllSent (IsForth l.submitted) t) (sym e)
          (AllSent-append _ l.sender.calls added o.forth forth);
    back = o.back;
    sending = sending;
    receiving = o.receiving;
  }

  Phase-same :
      (s t : Stream Sem)
      → t.send_sequence_number ≡ s.send_sequence_number
      → t.last_send_data ≡ s.last_send_data
      → (added : List Call) → t.calls ≡ s.calls ++ added
      → Phase l.submitted s
      → Phase l.submitted t
  Phase-same s t e f added g (idle a b) = idle (ap (λ k. k.time) f ∙ a) (e ∙ b)
  Phase-same s t e f added g (busy bytes p there n q sent sends) =
      busy bytes (omega (arith, p, ap (λ k. k.time) f))
        (ap (λ k. get_elem? l.submitted k) e ∙ there) (ap (λ k. k + 1) e ∙ n) q
        (ap (λ k. slice k.command 0 k.length) f ∙ sent ∙ ap (λ k. data_packet k bytes) (sym e))
        (subst (λ cs. Carries (data_packet t.send_sequence_number bytes) cs) (sym g)
          (Carries-append _ s.calls added
            (subst (λ k. Carries (data_packet k bytes) s.calls) (sym e) sends)))

  IsSending-same :
      (s t : Stream Sem) (n : ℕ)
      → t.send_sequence_number ≡ s.send_sequence_number
      → t.last_send_data ≡ s.last_send_data
      → (added : List Call) → t.calls ≡ s.calls ++ added
      → IsSending l.submitted n s
      → IsSending l.submitted n t
  IsSending-same s t n e f added g w = record {
    acked = omega (arith, w.acked, e);
    room = ap (λ k. length k.command) f ∙ w.room;
    phase = Phase-same s t e f added g w.phase;
  }

  pub sender_quiet : (s : Stream Sem) → Quiet l.sender s → IsOrdered (record l { sender = s })
  sender_quiet s q =
      sender_kept s q.added q.calls
        (AllSent-mono IsControl _ q.added (λ p c. forth_control c) q.control)
        (λ e.
          let c = q.stands e in
          IsSending-same l.sender s _ (ap (λ k. k.2) c) (ap (λ k. k.3) c) q.added q.calls
            (o.sending (sym (ap (λ k. k.0) c) ∙ e)))

  -- A sender that waits for nothing has nothing undelivered.
  pub all_delivered :
      IsSending l.submitted (length (delivered l)) l.sender
      → l.sender.last_send_data.time ≡ 0
      → (l.sender.send_sequence_number ≡ length l.submitted) × (o.undelivered ≡ [])
  all_delivered w e =
      let size : length l.submitted ≡ length (delivered l) + length o.undelivered =
        ap length o.split ∙ length-append (delivered l) o.undelivered in
      elim w.phase [
        | idle _ n ↦ (n, empty_list o.undelivered (omega (arith, w.acked, n, size)))
        | busy _ p _ _ _ _ _ ↦ absurd (omega (arith, p, e))
      ]

module _ {Sem Float : Type 0} (kernel : Kernel Sem Float) (l : Link Sem) (o : IsOrdered l) where
  submit_emit :
      (bytes : List ℕ)
      → ((n : ℕ) → 0 < kernel.uptime n)
      → l.sender.state ≡ connected
      → l.sender.last_send_data.time ≡ 0
      → length bytes ≤ 1024
      → length l.submitted < 2 ^ 31
      → IsOrdered (record l {
        sender =
            emit kernel
              (data_packet l.sender.send_sequence_number bytes)
              (holding kernel bytes l.sender);
        submitted = l.submitted ++ (bytes ∷ []);
      })
  submit_emit bytes positive c e q small =
      let w = o.sending c in
      let (n, none) = all_delivered l o w e in
      let count = length-snoc l.submitted bytes in
      let there : get_elem? (l.submitted ++ (bytes ∷ [])) l.sender.send_sequence_number
          ≡ some bytes =
        ap (λ k. get_elem? (l.submitted ++ (bytes ∷ [])) k) (omega (arith, n))
        ∙ get_elem?-append l.submitted (bytes ∷ []) 0 in
      record {
        undelivered = bytes ∷ [];
        split =
            ap (λ t. t ++ (bytes ∷ []))
              (o.split ∙ ap (λ t. delivered l ++ t) none ∙ append-nil (delivered l));
        one_ahead = omega arith;
        small = omega (arith, count, small);
        forth =
            AllSent-append _ l.sender.calls _
              (AllSent-mono _ _ l.sender.calls (IsForth-more l.submitted (bytes ∷ [])) o.forth)
              (
                payload l.sender.send_sequence_number bytes there (omega (arith, n, small)) q refl,
                tt,
              );
        back = o.back;
        sending = λ _. record {
          acked = w.acked;
          room =
              length-filled l.sender.last_send_data.command l.sender.send_sequence_number bytes
              ∙ w.room;
          phase =
              busy bytes (positive l.sender.clock) there (omega (arith, n, count)) q
                (slice-filled l.sender.last_send_data.command l.sender.send_sequence_number bytes
                  (omega (arith, w.room, q)))
                (Carries-last _ l.sender.calls);
        };
        receiving = o.receiving;
      }

  pub submit-IsOrdered :
      (bytes : List ℕ)
      → ((n : ℕ) → 0 < kernel.uptime n)
      → l.sender.state ≡ connected
      → l.sender.last_send_data.time ≡ 0
      → 0 < length bytes
      → length bytes ≤ 1024
      → length l.submitted < 2 ^ 31
      → IsOrdered (record l {
        sender = send_data kernel bytes l.sender;
        submitted = l.submitted ++ (bytes ∷ []);
      })
  submit-IsOrdered bytes positive c e p q small =
      subst (λ s. IsOrdered (record l { sender = s; submitted = l.submitted ++ (bytes ∷ []) }))
        (sym (send_data-emit kernel bytes l.sender (o.sending c).room e p q))
        (submit_emit bytes positive c e q small)
