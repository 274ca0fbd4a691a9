-- ===== src/Socket/Delivery.antt =====
-- A socket that sends and the one that receives at the other end of its connection (socket.cpp).
use klibmsg.Base.{
  ℕ, suc, ◌+◌, ◌≤◌, ◌≡◌, ◌≢◌, refl, sym, ap, subst, ◌∙◌, true, false, List, [], ◌++◌, length,
  append-nil, inl, inr, arith,
}
use klibmsg.Memory.{Memory}
use klibmsg.Transfer.Many.{Reads}
use klibmsg.Net.{active, Net, ok}
use klibmsg.Net.Laws.{same_net}
use klibmsg.Fsm.{is_stopping}
use klibmsg.Socket.Ops.{Env}
use klibmsg.Socket.Session.{serve}
use klibmsg.Socket.Outgoing.{rest_of, to_send, queue_bytes}
use klibmsg.Socket.Outgoing.Step.{written, Sending}
use klibmsg.Socket.Outgoing.Fifo.{AllFair, turn_calls}
use klibmsg.Socket.Outgoing.Completes.{all_ready, AllEager, serve-completes}
use klibmsg.Socket.Incoming.{Told}
use klibmsg.Socket.Incoming.Wire.{Holds, Holds-append}
use klibmsg.Socket.Incoming.Events.{Brought}
use klibmsg.Socket.Incoming.Delivers.{feed-Told}

module _ (env : Env) (i fd fuel : ℕ) (envs : List Env) (n n' : Net)
    (h : Sending env.layout n.mem fd (n.socks i)) (free : (n.socks i).is_out_buf_busy ≡ false)
    (fair : AllFair n.mem i env.layout (all_ready envs) (n.socks i))
    (eager : AllEager env.layout n.mem i envs (n.socks i))
    (enough : length (to_send env.layout n.mem (n.socks i)) ≤ length envs)
    (run : serve (suc fuel) (turn_calls i (all_ready envs)) n ≡ ok tt n') where
  unbusy :
      to_send env.layout n.mem (n.socks i)
      ≡ queue_bytes env.layout n.mem (n.socks i).msg_buffer_queue
  unfolding to_send rest_of
  unbusy = rw free refl

  sent_all :
      ((n'.socks i).msg_buffer_queue ≡ [])
      × (written fd n'.log
          ≡ written fd n.log ++ queue_bytes env.layout n.mem (n.socks i).msg_buffer_queue)
  sent_all =
      let (n'', r, bytes, empty, free', kept, others) =
        serve-completes env.layout n.mem i fd fuel envs (n.socks i) h
          (λ busy. absurd (let e : true ≡ false = sym busy ∙ free in cc)) fair eager enough n refl
          refl in
      let same = same_net n' n'' (sym run ∙ r) in
      (
        ap (λ (x : Net). (x.socks i).msg_buffer_queue) same ∙ empty,
        ap (λ (x : Net). written fd x.log) same ∙ bytes ∙ ap (λ l. written fd n.log ++ l) unbusy,
      )

-- A connection between two programs with one layout of messages delivers. Let an active socket,
-- whose machine is not stopping, whose output buffer is free and whose messages fit in their
-- layout and have less than 2^31 bytes each, run through at least as many events that its
-- descriptor can be written to as there are bytes to write, each of which takes a byte at least
-- while there are any left, and no write then fails for good or answers more than was asked of it.
-- Let another active socket, whose machine is not stopping, in front of a message, run through at
-- least as many events that its descriptor can be read from, each of which brings the next of the
-- bytes that the first socket has written, at least one and no more than asked for, and does not
-- fail for good, until there are none left. Then the queue of the first socket is empty, and the
-- events of the second run to their end, change no other socket, and tell of exactly the messages
-- of that queue, in that order, each when its data have come to their target as they were in the
-- memory of the sender.
pub serve-Told :
    (env : Env) (i j fd fuel : ℕ) (envs : List Env) (reads : List Reads) (n n' m : Net)
    (wire : Memory)
    → Sending env.layout n.mem fd (n.socks i)
    → (n.socks i).is_out_buf_busy ≡ false
    → AllFair n.mem i env.layout (all_ready envs) (n.socks i)
    → AllEager env.layout n.mem i envs (n.socks i)
    → length (to_send env.layout n.mem (n.socks i)) ≤ length envs
    → serve (suc fuel) (turn_calls i (all_ready envs)) n ≡ ok tt n'
    → Holds wire 0 (written fd n'.log)
    → (m.socks j).state ≡ active
    → is_stopping (m.socks j).fsm_state ≡ false
    → (m.socks j).in_offset ≡ 0
    → Brought env wire
        (length (written fd n.log))
        (n.socks i).msg_buffer_queue
        m.mem
        (m.socks j).in_buf
        0
        reads
    → length (to_send env.layout n.mem (n.socks i)) ≤ length reads
    → ((n'.socks i).msg_buffer_queue ≡ [])
      × ((m' : Net) × Told env n.mem j fuel m' reads m (n.socks i).msg_buffer_queue
          × ((k : ℕ) → k ≢ j → m'.socks k ≡ m.socks k))
serve-Told env i j fd fuel envs reads n n' m wire h free fair eager enough run w a f z b enough' =
    let (empty, bytes) = sent_all env i fd fuel envs n n' h free fair eager enough run in
    let held = (Holds-append wire 0 (written fd n.log) _ (subst (Holds wire 0) bytes w)).1 in
    let zero_add : 0 + length (written fd n.log) ≡ length (written fd n.log) = omega arith in
    let all = ap length (unbusy env i fd fuel envs n n' h free fair eager enough run) in
    let (m', got, rest, trace, split, others, outcome) =
      feed-Told env n.mem wire j fuel reads (length (written fd n.log)) (n.socks i).msg_buffer_queue
        m a f z h.sendable (rw zero_add at held) b in
    elim outcome [
      | inl none ↦
          let same : (n.socks i).msg_buffer_queue ≡ got =
            split ∙ ap (λ l. got ++ l) none ∙ append-nil got in
          (empty, (m', subst (Told env n.mem j fuel m' reads m) (sym same) trace, others))
      | inr few ↦ absurd (omega (arith, few, enough', all))
    ]
