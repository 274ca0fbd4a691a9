-- ===== src/Socket/Outgoing/Bytes.antt =====
-- The bytes that a socket has still to write: when a message comes to the output buffer, and over a
-- call of SendRaw.
use klibmsg.Base.{
  ℕ, ◌+◌, ◌-◌, ◌^◌, ◌<◌, ◌≡◌, refl, ap, ap₂, ◌∙◌, Bool, true, false, List, [], ◌∷◌, ◌++◌,
  append-nil, inl, inr, arith,
}
use klibmsg.Memory.{Memory, load, load_ext, load-add, load-cong, load-store_self}
use klibmsg.Codes.{sock_event_type_sent}
use klibmsg.Os.{Errno, Rc, rc_ok, rc_err, eagain, econnreset}
use klibmsg.Message.{NetMsg, Layout, sizeof_net_msg, data_len}
use klibmsg.Transfer.{Sent, header}
use klibmsg.Transfer.Send.{stream, stream_head, stream_tail, size, outgoing, Progress, load-join}
use klibmsg.Net.{Sock, sent, sock_ptr}
use klibmsg.Fsm.Laws.{raised-SameButEvents}
use klibmsg.Socket.Ops.{dequeue}
use klibmsg.Socket.Outgoing.{message_bytes, rest_of, InMessage, Sendable, settled}

-- The bytes of a stream that is a header and then data.
load-stream :
    (buf mem : Memory) (address k : ℕ)
    → load (stream buf mem address) 0 (sizeof_net_msg + k)
      ≡ load buf 0 sizeof_net_msg ++ load mem address k
load-stream buf mem address k =
    load-add (stream buf mem address) 0 sizeof_net_msg sizeof_net_msg k refl
    ∙ ap₂ ◌++◌ (load-cong _ buf 0 sizeof_net_msg λ x p q. stream_head buf mem address x q) (
        load_ext _ mem sizeof_net_msg address k λ x p.
          let e : sizeof_net_msg + x - sizeof_net_msg ≡ x = omega arith in
          rw e at (stream_tail buf mem address (sizeof_net_msg + x) (omega arith)))

module _ (layout : Layout) (mem : Memory) where
  -- A message that was just copied to the output buffer.
  module _ (msg : NetMsg) (rest : List NetMsg) (s : Sock) (can : Sendable msg) where
    abbrev t : Sock
    t = record (dequeue layout (msg ∷ rest) s).1 { is_out_buf_busy = true }

    loaded : load t.out_buf 0 sizeof_net_msg ≡ layout.encode msg
    unfolding dequeue
    loaded = rw (layout.length-encode msg) at (load-store_self s.out_buf 0 (layout.encode msg))

    header-dequeue : header layout t.out_buf ≡ msg
    unfolding header
    header-dequeue = ap layout.decode loaded ∙ layout.decode-encode msg can.0

    pub dequeue-InMessage : InMessage layout mem t
    unfolding dequeue
    dequeue-InMessage = rw header-dequeue (omega arith, can.1)

    pub rest_of-dequeue : rest_of layout mem true t ≡ message_bytes layout mem msg
    unfolding rest_of message_bytes dequeue
    rest_of-dequeue =
        let e : sizeof_net_msg + data_len msg - 0 ≡ sizeof_net_msg + data_len msg = omega arith in
        rw (header-dequeue, e)
          (load-stream t.out_buf mem msg.src (data_len msg)
            ∙ ap (λ b. b ++ load mem msg.src (data_len msg)) loaded)

-- What it shares with the one before a call of SendRaw, whatever the result.
pub settled_fields :
    (i : ℕ) (rc : Rc) (s : Sock)
    → let s' = settled i rc s in
      (s'.msg_buffer_queue ≡ s.msg_buffer_queue)
      × (s'.state ≡ s.state)
      × (s'.fsm_state ≡ s.fsm_state)
      × (s'.s ≡ s.s)
unfolding settled
settled_fields i rc_ok s =
    let f =
      raised-SameButEvents i sent sock_event_type_sent (sock_ptr i)
        (record s { is_out_buf_busy = false }) in
    (f.queue, f.state, f.fsm_state, f.fd)
settled_fields i (rc_err e) s = (refl, refl, refl, refl)

module _ (layout : Layout) (mem : Memory) (i : ℕ) where
  -- The message in the output buffer is done with.
  settled-rc_ok :
      (s : Sock)
      → let s' = settled i rc_ok s in
        (s'.is_out_buf_busy ≡ false) × (rest_of layout mem s'.is_out_buf_busy s' ≡ [])
  unfolding settled rest_of
  settled-rc_ok s =
      let f =
        raised-SameButEvents i sent sock_event_type_sent (sock_ptr i)
          (record s { is_out_buf_busy = false }) in
      (f.busy, rw (f.busy) refl)

  pub not_busy : (s : Sock) → (settled i rc_ok s).is_out_buf_busy ≡ true → ⊥
  not_busy s b = let f = settled-rc_ok s in cc (f.0)

  module _ (r : Sent) (bad : Bool) (t : Sock) (busy : t.is_out_buf_busy ≡ true) where
    abbrev pub next : Sock
    next = settled i r.rc (record t { out_offset = r.offset })

    more_left :
        (e : Errno)
        → Progress (outgoing layout mem t.out_buf) (size layout mem t.out_buf) t.out_offset bad r
        → let s' = settled i (rc_err e) (record t { out_offset = r.offset }) in
          r.wire ++ rest_of layout mem s'.is_out_buf_busy s' ≡ rest_of layout mem true t
    unfolding rest_of settled
    more_left e p =
        rw (busy, p.written)
          (load-join (outgoing layout mem t.out_buf) t.out_offset r.offset
            (size layout mem t.out_buf) p.forward p.bounded)

    -- What a call of SendRaw with a result leaves of the message: what it wrote is gone from it.
    pub settled_rest :
        Progress (outgoing layout mem t.out_buf) (size layout mem t.out_buf) t.out_offset bad r
        → r.wire ++ rest_of layout mem next.is_out_buf_busy next ≡ rest_of layout mem true t
    unfolding rest_of
    settled_rest p = elim p.outcome [
      | inl (e, at_end) ↦
          rw (
            e,
            (settled-rc_ok (record t { out_offset = r.offset })).1,
            append-nil,
            p.written,
            at_end,
          )
      | inr (inl (e, before)) ↦ rw e (more_left eagain p)
      | inr (inr (e, b)) ↦ rw e (more_left econnreset p)
    ]

    -- SendRaw stays inside the message while that is not done.
    pub settled-InMessage :
        Progress (outgoing layout mem t.out_buf) (size layout mem t.out_buf) t.out_offset bad r
        → size layout mem t.out_buf < 2 ^ 31
        → next.is_out_buf_busy ≡ true
        → InMessage layout mem next
    unfolding settled
    settled-InMessage p small b = elim p.outcome [
      | inl (e, at_end) ↦ absurd (not_busy (record t { out_offset = r.offset }) (rw e at b))
      | inr (inl (e, before)) ↦ rw e (p.bounded, small)
      | inr (inr (e, b)) ↦ rw e (p.bounded, small)
    ]
