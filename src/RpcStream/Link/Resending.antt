-- ===== src/RpcStream/Link/Resending.antt =====
-- A link that has lost all that was sent before goes on only with what is sent from then on:
-- `fd_rpc_stream_check` sends the data again.
use mathlib.Core.Path.{subst}
use firefly_zephyr.Base.{
  ℕ, ◌+◌, ◌<◌, ◌≡◌, refl, sym, ap, ◌∙◌, Bool, true, false, List, [], ◌∷◌, ◌++◌, append_assoc, ltb,
  leb, ◌&&◌, if◌then◌else◌, length, arith,
}
use firefly_zephyr.Base.Bytes.{slice}
use firefly_zephyr.Base.Words.{add32}
use firefly_zephyr.RpcStream.Types.{Kernel, Stream, connected, Call, fd_assert, tick, now}
use firefly_zephyr.RpcStream.Send.{send_command, send_keep_alive}
use firefly_zephyr.RpcStream.Receive.{receive}
use firefly_zephyr.RpcStream.Check.{
  check, check_retry, check_send_keep_alive, check_receive_keep_alive, tracker_check,
  tracker_times_out,
}
use firefly_zephyr.RpcStream.Packets.{emit, send_keep_alive-emit}
use firefly_zephyr.RpcStream.Sending.{send_command-emit}
use firefly_zephyr.RpcStream.Quiet.{
  Quiet, Quiet-trans, Quiet-check_send_keep_alive, Quiet-check_receive_keep_alive,
}
use firefly_zephyr.RpcStream.Connect.{kept_check_retry, kept_check_send_keep_alive}
use firefly_zephyr.RpcStream.Link.{
  Link, Carries, here, later, deliver, acknowledge, check_sender, Reach, next,
}
use firefly_zephyr.RpcStream.Link.Arrival.{check-connected}
use firefly_zephyr.RpcStream.Link.Acknowledgement.{again}

-- The packet was sent among the calls that came behind `before`.
pub record SentSince (p : List ℕ) (before calls : List Call) : Type 0 where
  pub added : List Call
  pub behind : calls ≡ before ++ added
  pub carries : Carries p added

Carries-behind : (p : List ℕ) (cs ds : List Call) → Carries p ds → Carries p (cs ++ ds)
Carries-behind p [] ds c = c
Carries-behind p (d ∷ cs) ds c = later (Carries-behind p cs ds c)

pub SentSince-Carries :
    (p : List ℕ) (before calls : List Call) → SentSince p before calls → Carries p calls
SentSince-Carries p before calls s =
    subst (Carries p) (sym s.behind) (Carries-behind p before s.added s.carries)

module _ {Sem Float : Type 0} (kernel : Kernel Sem Float) where
  -- The link goes on from `m` with checks of the sender, and with packets that are sent behind `m`.
  pub data Onward (m : Link Sem) : Link Sem → Type 0 where
    begin : Onward m m
    check_again :
        {n : Link Sem} → Onward m n → Onward m (record n { sender = check kernel n.sender })
    deliver_new :
        {n : Link Sem} (p : List ℕ)
        → Onward m n
        → SentSince p m.sender.calls n.sender.calls
        → Onward m (record n { receiver = receive kernel p n.receiver })
    acknowledge_new :
        {n : Link Sem} (p : List ℕ)
        → Onward m n
        → SentSince p m.receiver.calls n.receiver.calls
        → Onward m (record n { sender = receive kernel p n.sender })

  pub Onward-Reach : {l m n : Link Sem} → Reach kernel l m → Onward m n → Reach kernel l n
  Onward-Reach r begin = r
  Onward-Reach r (check_again o) = next (Onward-Reach r o) check_sender
  Onward-Reach {m = m} r (deliver_new {n} p o s) =
      next (Onward-Reach r o) (deliver p (SentSince-Carries p m.sender.calls n.sender.calls s))
  Onward-Reach {m = m} r (acknowledge_new {n} p o s) =
      next (Onward-Reach r o)
        (acknowledge p (SentSince-Carries p m.receiver.calls n.receiver.calls s))

connected_fd_assert :
    {Sem : Type 0} (c : Bool) (s : Stream Sem)
    → s.state ≡ connected
    → (fd_assert c s).state ≡ connected
connected_fd_assert true s e = e
connected_fd_assert false s e = e

connected_if :
    {Sem : Type 0} (c : Bool) (s t : Stream Sem)
    → s.state ≡ connected
    → t.state ≡ connected
    → (if◌then◌else◌ {A = Stream Sem} c s t).state ≡ connected
connected_if true s t e f = e
connected_if false s t e f = f

branch : {A : Type 0} (c : Bool) (a b : A) → c ≡ true → (if c then a else b) ≡ a
branch c a b e = rw e refl

other_branch : {A : Type 0} (c : Bool) (a b : A) → c ≡ false → (if c then a else b) ≡ b
other_branch c a b e = rw e refl

module _ {Sem Float : Type 0} (kernel : Kernel Sem Float) where
  -- The wait for the acknowledgement is over at the next reading of the clock, and the last packet
  -- of the peer does not lie too far back then.
  pub record IsDue (s : Stream Sem) : Type 0 where
    pub retry : s.last_send_data.time + s.last_send_data.timeout < now kernel s
    pub alive : tracker_times_out s.receive_keep_alive (now kernel s) ≡ false

  check_retry-due :
      (packet : List ℕ) (s : Stream Sem)
      → 0 < s.last_send_data.time
      → s.last_send_data.time + s.last_send_data.timeout < now kernel s
      → slice s.last_send_data.command 0 s.last_send_data.length ≡ packet
      → leb 4 (length packet) ≡ true
      → check_retry kernel (now kernel s) (tick kernel s)
        ≡ emit kernel packet (again kernel (tick kernel s))
  unfolding check_retry
  check_retry-due packet s p q e long =
      branch
        (ltb 0 s.last_send_data.time
          && ltb (s.last_send_data.time + s.last_send_data.timeout) (now kernel s))
        _ _ (ground (arith, p, q))
      ∙ ap (λ t. send_command kernel t (again kernel (tick kernel s))) e
      ∙ send_command-emit kernel packet (again kernel (tick kernel s)) long

  connected_send_keep_alive :
      (time : ℕ) (s : Stream Sem)
      → s.state ≡ connected
      → (check_send_keep_alive kernel time s).state ≡ connected
  unfolding check_send_keep_alive tracker_check
  connected_send_keep_alive time s e =
      let s' = fd_assert (leb s.send_keep_alive.last_active_time time) s in
      let u = record s' { send_keep_alive_count = add32 s'.send_keep_alive_count 1 } in
      let e' = connected_fd_assert (leb s.send_keep_alive.last_active_time time) s e in
      connected_if _ (send_keep_alive kernel u) s'
        (ap (λ t. t.state) (send_keep_alive-emit kernel u) ∙ e') e'

  connected_receive_keep_alive :
      (time : ℕ) (s : Stream Sem)
      → s.state ≡ connected
      → tracker_times_out s.receive_keep_alive time ≡ false
      → (check_receive_keep_alive kernel time s).state ≡ connected
  unfolding check_receive_keep_alive tracker_check
  connected_receive_keep_alive time s e alive =
      ap (λ (t : Stream Sem). t.state)
        (other_branch (tracker_times_out s.receive_keep_alive time) _ _ alive)
      ∙ connected_fd_assert (leb s.receive_keep_alive.last_active_time time) s e

  -- Data that waits is sent again, and the stream stays as it stands.
  pub check-resends :
      (packet : List ℕ) (s : Stream Sem)
      → s.state ≡ connected
      → 0 < s.last_send_data.time
      → IsDue s
      → slice s.last_send_data.command 0 s.last_send_data.length ≡ packet
      → leb 4 (length packet) ≡ true
      → SentSince packet s.calls (check kernel s).calls
        × ((check kernel s).state ≡ connected)
        × ((check kernel s).send_sequence_number ≡ s.send_sequence_number)
  check-resends packet s c p due e long =
      let time = now kernel s in
      let r = check_retry kernel time (tick kernel s) in
      let u = check_send_keep_alive kernel time r in
      let t = check_receive_keep_alive kernel time u in
      let checks : check kernel s ≡ t = check-connected kernel s c in
      let sent = check_retry-due packet s p due.retry e long in
      let r_connected : r.state ≡ connected = ap (λ v. v.state) sent ∙ c in
      let kept : u.receive_keep_alive ≡ s.receive_keep_alive =
        kept_check_send_keep_alive kernel time r ∙ kept_check_retry kernel time (tick kernel s) in
      let t_connected : t.state ≡ connected =
        connected_receive_keep_alive time u (connected_send_keep_alive time r r_connected)
          (ap (λ k. tracker_times_out k time) kept ∙ due.alive) in
      let quiet : Quiet r t =
        Quiet-trans (Quiet-check_send_keep_alive kernel time r)
          (Quiet-check_receive_keep_alive kernel time u) in
      (
        record {
          added = (Call.send_command packet ∷ []) ++ quiet.added;
          behind =
              ap (λ v. v.calls) checks
              ∙ quiet.calls
              ∙ ap (λ v. v.calls ++ quiet.added) sent
              ∙ append_assoc s.calls (Call.send_command packet ∷ []) quiet.added;
          carries = here;
        },
        ap (λ v. v.state) checks ∙ t_connected,
        ap (λ v. v.send_sequence_number) checks
            ∙ ap (λ k. k.2) (quiet.stands t_connected)
            ∙ ap (λ v. v.send_sequence_number) sent,
      )
