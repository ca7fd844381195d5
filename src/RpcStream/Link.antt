-- ===== src/RpcStream/Link.antt =====
-- Two ends of a stream with a link between them that may lose, repeat and reorder packets: a packet
-- that was sent once may arrive at any time and any number of times, or never.
pub mod Receiver
pub mod Arrival
pub mod Sender
pub mod Acknowledgement
pub mod Delivery
pub mod Resending
pub mod Progress
use firefly_zephyr.Base.{
  ℕ, ◌+◌, ◌^◌, ◌≤◌, ◌<◌, ◌≡◌, Option, some, List, [], ◌∷◌, ◌++◌, length, get_elem?,
}
use firefly_zephyr.Base.Bytes.{slice}
use firefly_zephyr.RpcStream.Types.{Kernel, Stream, State, connected, Call}
use firefly_zephyr.RpcStream.Send.{send_data}
use firefly_zephyr.RpcStream.Receive.{receive}
use firefly_zephyr.RpcStream.Check.{check}
use firefly_zephyr.RpcStream.Packets.{data_packet, ack_packet}
use firefly_zephyr.RpcStream.Quiet.{AllSent, IsControl, received}

-- `submitted` is the data that the client of the sender sent, oldest first.
pub record Link (Sem : Type 0) : Type 0 where
  pub sender : Stream Sem
  pub receiver : Stream Sem
  pub submitted : List (List ℕ)

-- The packet was sent among these calls.
pub data Carries (p : List ℕ) : List Call → Type 0 where
  here : {cs : List Call} → Carries p (Call.send_command p ∷ cs)
  later : {c : Call} {cs : List Call} → Carries p cs → Carries p (c ∷ cs)

abbrev pub delivered : {Sem : Type 0} → Link Sem → List (List ℕ)
delivered l = received l.receiver.calls

module _ {Sem Float : Type 0} (kernel : Kernel Sem Float) where
  -- A client sends while the stream is connected and the data before is acknowledged, as the
  -- assertion of `fd_rpc_stream_send_data` wants, and no more than a sequence number can count.
  pub data Step (l : Link Sem) : Link Sem → Type 0 where
    submit :
        (bytes : List ℕ)
        → l.sender.state ≡ connected
        → l.sender.last_send_data.time ≡ 0
        → 0 < length bytes
        → length bytes ≤ 1024
        → length l.submitted < 2 ^ 31
        → Step l (record l {
          sender = send_data kernel bytes l.sender;
          submitted = l.submitted ++ (bytes ∷ []);
        })
    check_sender : Step l (record l { sender = check kernel l.sender })
    check_receiver : Step l (record l { receiver = check kernel l.receiver })
    deliver :
        (p : List ℕ)
        → Carries p l.sender.calls
        → Step l (record l { receiver = receive kernel p l.receiver })
    acknowledge :
        (p : List ℕ)
        → Carries p l.receiver.calls
        → Step l (record l { sender = receive kernel p l.sender })

  pub data Reach (l : Link Sem) : Link Sem → Type 0 where
    start : Reach l l
    next : {m n : Link Sem} → Reach l m → Step m n → Reach l n

-- Both ends are connected, and neither has sent or received anything since.
pub record IsFresh {Sem : Type 0} (l : Link Sem) : Type 0 where
  pub nothing_submitted : l.submitted ≡ []
  pub sender_connected : l.sender.state ≡ connected
  pub sender_first : l.sender.send_sequence_number ≡ 0
  pub sender_idle : l.sender.last_send_data.time ≡ 0
  pub sender_room : length l.sender.last_send_data.command ≡ 1028
  pub sender_calls : l.sender.calls ≡ []
  pub receiver_first : l.receiver.receive_sequence_number ≡ 0
  pub receiver_idle : l.receiver.last_send_data.time ≡ 0
  pub receiver_calls : l.receiver.calls ≡ []

-- The packets on the way to the receiver: submitted data under its number, or control.
pub data IsForth (submitted : List (List ℕ)) (p : List ℕ) : Type 0 where
  payload :
      (k : ℕ) (bytes : List ℕ)
      → get_elem? submitted k ≡ some bytes
      → k < 2 ^ 31
      → length bytes ≤ 1024
      → p ≡ data_packet k bytes
      → IsForth submitted p
  forth_control : IsControl p → IsForth submitted p

-- The packets on the way back: the number of delivered data, or control.
pub data IsBack (count : ℕ) (p : List ℕ) : Type 0 where
  ack : (k : ℕ) → k < count → p ≡ ack_packet k → IsBack count p
  back_control : IsControl p → IsBack count p

-- Between two calls a sender waits for nothing, or for the acknowledgement of the last data.
pub data Phase {Sem : Type 0} (submitted : List (List ℕ)) (s : Stream Sem) : Type 0 where
  idle : s.last_send_data.time ≡ 0 → s.send_sequence_number ≡ length submitted → Phase submitted s
  busy :
      (bytes : List ℕ)
      → 0 < s.last_send_data.time
      → get_elem? submitted s.send_sequence_number ≡ some bytes
      → s.send_sequence_number + 1 ≡ length submitted
      → length bytes ≤ 1024
      → slice s.last_send_data.command 0 s.last_send_data.length
        ≡ data_packet s.send_sequence_number bytes
      → Carries (data_packet s.send_sequence_number bytes) s.calls
      → Phase submitted s

pub record IsSending {Sem : Type 0} (submitted : List (List ℕ)) (count : ℕ) (s : Stream Sem)
    : Type 0 where
  pub acked : s.send_sequence_number ≤ count
  pub room : length s.last_send_data.command ≡ 1028
  pub phase : Phase submitted s

pub record IsReceiving {Sem : Type 0} (count : ℕ) (s : Stream Sem) : Type 0 where
  pub next_number : s.receive_sequence_number ≡ count
  pub sends_nothing : s.last_send_data.time ≡ 0

-- What holds between two steps.
pub record IsOrdered {Sem : Type 0} (l : Link Sem) : Type 0 where
  pub undelivered : List (List ℕ)
  pub split : l.submitted ≡ delivered l ++ undelivered
  pub one_ahead : length undelivered ≤ 1
  pub small : length l.submitted ≤ 2 ^ 31
  pub forth : AllSent (IsForth l.submitted) l.sender.calls
  pub back : AllSent (IsBack (length (delivered l))) l.receiver.calls
  pub sending : l.sender.state ≡ connected → IsSending l.submitted (length (delivered l)) l.sender
  pub receiving : l.receiver.state ≡ connected → IsReceiving (length (delivered l)) l.receiver
