-- ===== src/RpcStream/Link/Delivery.antt =====
-- What holds of the link after any steps from a new connection.
use mathlib.Core.Path.{subst}
use firefly_zephyr.Base.{ℕ, ◌≤◌, ◌<◌, ◌≡◌, sym, ap, ◌∙◌, List, [], ◌++◌, append-nil, length, arith}
use firefly_zephyr.RpcStream.Types.{Kernel, connected}
use firefly_zephyr.RpcStream.Quiet.{AllSent, received}
use firefly_zephyr.RpcStream.Link.{
  Link, delivered, Step, submit, check_sender, check_receiver, deliver, acknowledge, Reach, start,
  next, IsFresh, IsForth, IsBack, idle, IsOrdered,
}
use firefly_zephyr.RpcStream.Link.Arrival.{deliver-IsOrdered, check_receiver-IsOrdered}
use firefly_zephyr.RpcStream.Link.Sender.{submit-IsOrdered, all_delivered}
use firefly_zephyr.RpcStream.Link.Acknowledgement.{acknowledge-IsOrdered, check_sender-IsOrdered}

module _ {Sem : Type 0} where
  IsFresh-IsOrdered : (l : Link Sem) → IsFresh l → IsOrdered l
  IsFresh-IsOrdered l f =
      let none : delivered l ≡ [] = ap received f.receiver_calls in
      let count : length (delivered l) ≡ 0 = ap length none in
      record {
        undelivered = [];
        split = f.nothing_submitted ∙ sym (ap (λ t. t ++ []) none);
        one_ahead = omega arith;
        small = omega (arith, ap length f.nothing_submitted);
        forth = subst (λ t. AllSent (IsForth l.submitted) t) (sym f.sender_calls) tt;
        back = subst (λ t. AllSent (IsBack (length (delivered l))) t) (sym f.receiver_calls) tt;
        sending = λ _. record {
          acked = omega (arith, f.sender_first);
          room = f.sender_room;
          phase = idle f.sender_idle (f.sender_first ∙ sym (ap length f.nothing_submitted));
        };
        receiving = λ _. record {
          next_number = f.receiver_first ∙ sym count;
          sends_nothing = f.receiver_idle;
        };
      }

module _ {Sem Float : Type 0} (kernel : Kernel Sem Float)
    (positive : (n : ℕ) → 0 < kernel.uptime n) where
  Step-IsOrdered : {l m : Link Sem} → IsOrdered l → Step kernel l m → IsOrdered m
  Step-IsOrdered {l} o (submit bytes c e p q small) =
      submit-IsOrdered kernel l o bytes positive c e p q small
  Step-IsOrdered {l} o check_sender = check_sender-IsOrdered kernel l o
  Step-IsOrdered {l} o check_receiver = check_receiver-IsOrdered kernel l o
  Step-IsOrdered {l} o (deliver p c) = deliver-IsOrdered kernel l o p c
  Step-IsOrdered {l} o (acknowledge p c) = acknowledge-IsOrdered kernel l o p c

  pub Reach-IsOrdered : {l m : Link Sem} → IsFresh l → Reach kernel l m → IsOrdered m
  Reach-IsOrdered {l} f start = IsFresh-IsOrdered l f
  Reach-IsOrdered f (next r s) = Step-IsOrdered (Reach-IsOrdered f r) s

  -- Between two ends of a new connection, of which one sends data, over a link that loses,
  -- repeats and reorders packets, with a clock that is never 0 and a client that sends at most 2
  -- ^ 31 pieces of data of at most 1024 bytes, the next when the last is acknowledged, the data
  -- that `fd_rpc_stream_receive` hands to the client of one end are, after any steps, those that
  -- the other client sent, in order and each once, but for one at most that is still on its way.
  pub delivered_in_order :
      {l m : Link Sem}
      → IsFresh l
      → Reach kernel l m
      → (rest : List (List ℕ)) × (m.submitted ≡ delivered m ++ rest) × (length rest ≤ 1)
  delivered_in_order f r = let o = Reach-IsOrdered f r in (o.undelivered, o.split, o.one_ahead)

  -- Between two ends of a new connection, of which one sends data, over a link that loses,
  -- repeats and reorders packets, with a clock that is never 0 and a client that sends at most 2
  -- ^ 31 pieces of data of at most 1024 bytes, the next when the last is acknowledged, a
  -- connected end that waits for no acknowledgement has had all its data delivered.
  pub acknowledged_all :
      {l m : Link Sem}
      → IsFresh l
      → Reach kernel l m
      → m.sender.state ≡ connected
      → m.sender.last_send_data.time ≡ 0
      → delivered m ≡ m.submitted
  acknowledged_all {m = m} f r c e =
      let o = Reach-IsOrdered f r in
      let (_, none) = all_delivered m o (o.sending c) e in
      sym (o.split ∙ ap (λ t. delivered m ++ t) none ∙ append-nil (delivered m))

  -- Between two ends of a new connection, of which one sends data, over a link that loses,
  -- repeats and reorders packets, with a clock that is never 0 and a client that sends at most 2
  -- ^ 31 pieces of data of at most 1024 bytes, the next when the last is acknowledged, all that
  -- the receiver ever sends are acknowledgements of data it has handed to its client, keep-alives
  -- and disconnects: it never reports a gap.
  pub acknowledgements_of_delivered :
      {l m : Link Sem}
      → IsFresh l
      → Reach kernel l m
      → AllSent (IsBack (length (delivered m))) m.receiver.calls
  acknowledgements_of_delivered f r = (Reach-IsOrdered f r).back
