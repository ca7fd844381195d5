-- ===== src/RpcStream/Link/Receiver.antt =====
-- The receiver's steps keep the data in order.
use mathlib.Core.Path.{subst}
use firefly_zephyr.Base.{
  ℕ, zero, suc, ◌+◌, ◌^◌, ◌≤◌, ◌<◌, ◌≡◌, refl, sym, ap, ◌∙◌, true, false, some, List, [], ◌∷◌, ◌++◌,
  append-nil, ltb, ◌==◌, length, get_elem?, arith,
}
use firefly_zephyr.Base.Words.{add32}
use firefly_zephyr.RpcStream.Types.{Kernel, Stream, connected, Call, call}
use firefly_zephyr.RpcStream.Receive.{receive_data}
use firefly_zephyr.RpcStream.Packets.{ack_packet, emit, heard, send_ack-emit}
use firefly_zephyr.RpcStream.Quiet.{
  AllSent, AllSent-append, AllSent-mono, IsControl, received, received-append, Quiet,
}
use firefly_zephyr.RpcStream.Link.{
  Link, delivered, IsBack, ack, back_control, IsReceiving, IsSending, IsOrdered,
}

pub length-snoc : (xs : List (List ℕ)) (x : List ℕ) → length (xs ++ (x ∷ [])) ≡ length xs + 1
length-snoc [] x = omega arith
length-snoc (y ∷ xs) x = omega (arith, length-snoc xs x)

pub get_elem?-append :
    (xs ys : List (List ℕ)) (i : ℕ) → get_elem? (xs ++ ys) (length xs + i) ≡ get_elem? ys i
get_elem?-append [] ys i = ap (λ (k : ℕ). get_elem? ys k) (omega arith)
get_elem?-append (x ∷ xs) ys i =
    let e : suc (length xs) + i ≡ suc (length xs + i) = omega arith in
    ap (λ k. get_elem? (x ∷ (xs ++ ys)) k) e ∙ get_elem?-append xs ys i

-- The first of a list of at most one.
only_one : (xs : List (List ℕ)) (x : List ℕ) → length xs ≤ 1 → get_elem? xs 0 ≡ some x → xs ≡ x ∷ []
only_one [] x h e = cc
only_one (y ∷ []) x h e = cc
only_one (y ∷ z ∷ xs) x h e = absurd (omega arith)

pub get_elem?-lt :
    (xs : List (List ℕ)) (k : ℕ) (x : List ℕ) → get_elem? xs k ≡ some x → k < length xs
get_elem?-lt [] k x e = cc
get_elem?-lt (y ∷ xs) zero x e = omega arith
get_elem?-lt (y ∷ xs) (suc k) x e = omega (arith, get_elem?-lt xs k x e)

control-IsBack : (count : ℕ) (cs : List Call) → AllSent IsControl cs → AllSent (IsBack count) cs
control-IsBack count cs h = AllSent-mono IsControl (IsBack count) cs (λ p c. back_control c) h

IsBack-more : (m n : ℕ) (p : List ℕ) → m ≤ n → IsBack m p → IsBack n p
IsBack-more m n p le (ack k lt e) = ack k (omega arith) e
IsBack-more m n p le (back_control c) = back_control c

module _ {Sem : Type 0} (l : Link Sem) (o : IsOrdered l) where
  -- A receiver that took part in nothing, or acknowledged something delivered.
  pub receiver_kept :
      (r : Stream Sem) (added : List Call)
      → r.calls ≡ l.receiver.calls ++ added
      → AllSent (IsBack (length (delivered l))) added
      → received added ≡ []
      → (r.state ≡ connected → IsReceiving (length (delivered l)) r)
      → IsOrdered (record l { receiver = r })
  receiver_kept r added e back none_received receiving =
      let same : received r.calls ≡ delivered l =
        ap received e
        ∙ received-append l.receiver.calls added
        ∙ ap (λ t. delivered l ++ t) none_received
        ∙ append-nil (delivered l) in
      record {
        undelivered = o.undelivered;
        split = rw same (o.split);
        one_ahead = o.one_ahead;
        small = o.small;
        forth = o.forth;
        back = rw (same, e) (AllSent-append _ l.receiver.calls added o.back back);
        sending = rw same (o.sending);
        receiving = rw same receiving;
      }

  pub receiver_quiet : (r : Stream Sem) → Quiet l.receiver r → IsOrdered (record l { receiver = r })
  receiver_quiet r q =
      receiver_kept r q.added q.calls (control-IsBack _ q.added q.control) q.none_received (λ e.
        let c = q.stands e in
        let was = o.receiving (sym (ap (λ k. k.0) c) ∙ e) in
        record {
          next_number = ap (λ k. k.1) c ∙ was.next_number;
          sends_nothing = ap (λ k. k.3.time) c ∙ was.sends_nothing;
        })

module _ {Sem Float : Type 0} (kernel : Kernel Sem Float) where
  pub receive_data-repeated :
      (k : ℕ) (bytes : List ℕ) (s : Stream Sem)
      → ltb k s.receive_sequence_number ≡ true
      → receive_data kernel k bytes s ≡ emit kernel (ack_packet k) s
  unfolding receive_data
  receive_data-repeated k bytes s e = rw e (send_ack-emit kernel k s)

  -- The stream with the next data handed on and acknowledged.
  unfoldable pub taken : List ℕ → Stream Sem → Stream Sem
  taken bytes s =
      record (call (Call.received_data bytes)
        (emit kernel (ack_packet s.receive_sequence_number) s)) {
          receive_sequence_number = add32 s.receive_sequence_number 1;
        }

  pub receive_data-next :
      (bytes : List ℕ) (s : Stream Sem)
      → ltb s.receive_sequence_number s.receive_sequence_number ≡ false
      → (s.receive_sequence_number == s.receive_sequence_number) ≡ true
      → receive_data kernel s.receive_sequence_number bytes s ≡ taken bytes s
  unfolding receive_data taken
  receive_data-next bytes s e e' =
      rw (e, e')
        (ap
          (λ t. record (call (Call.received_data bytes) t) {
            receive_sequence_number = add32 t.receive_sequence_number 1;
          })
          (send_ack-emit kernel s.receive_sequence_number s))

module _ {Sem Float : Type 0} (kernel : Kernel Sem Float) (l : Link Sem) (o : IsOrdered l) where
  -- Data that was delivered before is acknowledged again.
  pub repeated :
      (k : ℕ) (bytes : List ℕ)
      → k < length (delivered l)
      → l.receiver.state ≡ connected
      → IsOrdered (record l { receiver = receive_data kernel k bytes (heard kernel l.receiver) })
  repeated k bytes p c =
      let was = o.receiving c in
      subst (λ r. IsOrdered (record l { receiver = r }))
        (sym (
          receive_data-repeated kernel k bytes (heard kernel l.receiver)
            (ground (arith, was.next_number))))
        (receiver_kept l o (emit kernel (ack_packet k) (heard kernel l.receiver))
          (Call.send_command (ack_packet k) ∷ []) refl (ack k p refl, tt) refl
          (λ e. record { next_number = was.next_number; sends_nothing = was.sends_nothing }))

  -- The next data is handed on.
  pub accepted :
      (bytes : List ℕ)
      → l.receiver.state ≡ connected
      → get_elem? l.submitted (length (delivered l)) ≡ some bytes
      → IsOrdered (record l { receiver = taken kernel bytes (heard kernel l.receiver) })
  unfolding taken
  accepted bytes c there =
      let was = o.receiving c in
      let n = length (delivered l) in
      let zeroth : n + 0 ≡ n = omega arith in
      let found : get_elem? o.undelivered 0 ≡ some bytes =
        sym (get_elem?-append (delivered l) o.undelivered 0)
        ∙ ap (λ k. get_elem? (delivered l ++ o.undelivered) k) zeroth
        ∙ ap (λ t. get_elem? t n) (sym o.split)
        ∙ there in
      let next : o.undelivered ≡ bytes ∷ [] = only_one o.undelivered bytes o.one_ahead found in
      let a = Call.send_command (ack_packet l.receiver.receive_sequence_number) in
      let d = Call.received_data bytes in
      let grown : received (taken kernel bytes (heard kernel l.receiver)).calls
          ≡ delivered l ++ (bytes ∷ []) =
        received-append (l.receiver.calls ++ (a ∷ [])) (d ∷ [])
        ∙ ap (λ t. t ++ (bytes ∷ []))
            (received-append l.receiver.calls (a ∷ []) ∙ append-nil (delivered l)) in
      let count : length (delivered l ++ (bytes ∷ [])) ≡ n + 1 = length-snoc (delivered l) bytes in
      let all : l.submitted ≡ delivered l ++ (bytes ∷ []) =
        o.split ∙ ap (λ t. delivered l ++ t) next in
      let back : AllSent (IsBack (n + 1)) ((l.receiver.calls ++ (a ∷ [])) ++ (d ∷ [])) =
        AllSent-append _ (l.receiver.calls ++ (a ∷ [])) (d ∷ [])
          (AllSent-append _ l.receiver.calls (a ∷ [])
            (AllSent-mono (IsBack n) _ l.receiver.calls (λ p. IsBack-more n (n + 1) p (omega arith))
              o.back)
            (ack l.receiver.receive_sequence_number (omega (arith, was.next_number)) refl, tt))
          tt in
      let number : n + 1 ≡ length (received (taken kernel bytes (heard kernel l.receiver)).calls) =
        sym (ap length grown ∙ count) in
      let fits : n < 2 ^ 31 = omega (arith, get_elem?-lt l.submitted n bytes there, o.small) in
      record {
        undelivered = [];
        split = all ∙ sym grown ∙ sym (append-nil _);
        one_ahead = omega arith;
        small = o.small;
        forth = o.forth;
        back =
            subst (λ k. AllSent (IsBack k) ((l.receiver.calls ++ (a ∷ [])) ++ (d ∷ []))) number
              back;
        sending = λ e.
            subst (λ k. IsSending l.submitted k l.sender) number
              (let w = o.sending e in
                record { acked = omega (arith, w.acked); room = w.room; phase = w.phase });
        receiving = λ e.
            subst (λ k. IsReceiving k (taken kernel bytes (heard kernel l.receiver))) number
              record {
                next_number = omega (arith, was.next_number, fits);
                sends_nothing = was.sends_nothing;
              };
      }
