-- ===== src/Socket/Outgoing/Step.antt =====
-- One event, and one message more, on the sending side of a socket.
use klibmsg.Base.{
  ℕ, ◌≡◌, refl, sym, ap, ap₂, ◌-◌, ◌∙◌, Bool, true, false, Option, none, some, List, [], ◌∷◌, ◌++◌,
  ◌==◌, ==_refl, if◌then◌else◌, Bool-cases, append-nil, append_assoc, inl, inr,
}
use klibmsg.Memory.{Memory, load}
use klibmsg.Message.{NetMsg, Layout}
use klibmsg.Transfer.Send.{outgoing, size}
use klibmsg.Net.{active, Sock, send_task, Act, write}
use klibmsg.Fsm.{is_stopping}
use klibmsg.Socket.Ops.{Env, dequeue}
use klibmsg.Socket.Runs.{tasked}
use klibmsg.Socket.Runs.Post.{sending}
use klibmsg.Socket.Outgoing.{
  message_bytes, queue_bytes, rest_of, to_send, InMessage, Writable, Sendable, AllSendable, sent_by,
  wrote, filled_from, to_write, polled, poll_acts,
}
use klibmsg.Socket.Outgoing.Bytes.{
  settled_fields, dequeue-InMessage, rest_of-dequeue, settled_rest, settled-InMessage,
}
use klibmsg.Socket.Outgoing.Poll.{sent_by-Progress, Answers, due}

-- The bytes that a log, the latest entry first, has written to a descriptor.
abbrev pub bytes_to : ℕ → Act → List ℕ
bytes_to fd (write (some fd') bs) = if fd' == fd then bs else []
bytes_to fd a = []

abbrev pub written : ℕ → List Act → List ℕ
written fd [] = []
written fd (a ∷ log) = written fd log ++ bytes_to fd a

pub written-append :
    (fd : ℕ) (l l' : List Act) → written fd (l ++ l') ≡ written fd l' ++ written fd l
written-append fd [] l' = sym (append-nil (written fd l'))
written-append fd (a ∷ l) l' =
    ap (λ t. t ++ bytes_to fd a) (written-append fd l l')
    ∙ append_assoc (written fd l') (written fd l) (bytes_to fd a)

-- An active socket with a descriptor, whose messages can all be written.
pub record Sending (layout : Layout) (mem : Memory) (fd : ℕ) (s : Sock) : Type 0 where
  pub is_active : s.state ≡ active
  pub is_running : is_stopping s.fsm_state ≡ false
  pub is_open : s.s ≡ some fd
  pub inside : s.is_out_buf_busy ≡ true → InMessage layout mem s
  pub sendable : AllSendable s.msg_buffer_queue

module _ (layout : Layout) (mem : Memory) (fd i : ℕ) where
  queue_bytes-append :
      (q : List NetMsg) (msg : NetMsg)
      → queue_bytes layout mem (q ++ msg ∷ [])
        ≡ queue_bytes layout mem q ++ message_bytes layout mem msg
  unfolding queue_bytes
  queue_bytes-append [] msg = append-nil _
  queue_bytes-append (x ∷ q) msg =
      ap (◌++◌ (message_bytes layout mem x)) (queue_bytes-append q msg)
      ∙ sym (append_assoc (message_bytes layout mem x) _ _)

  AllSendable-append :
      (q : List NetMsg) (msg : NetMsg) → AllSendable q → Sendable msg → AllSendable (q ++ msg ∷ [])
  AllSendable-append [] msg h k = (k, tt)
  AllSendable-append (x ∷ q) msg (h, hs) k = (h, AllSendable-append q msg hs k)

  rest_of_same :
      (b : Bool) (s s' : Sock)
      → s'.out_buf ≡ s.out_buf
      → s'.out_offset ≡ s.out_offset
      → rest_of layout mem b s' ≡ rest_of layout mem b s
  unfolding rest_of
  rest_of_same true s s' e e' =
      ap₂ (λ (b : Memory) (o : ℕ). load (outgoing layout mem b) o (size layout mem b - o)) e e'
  rest_of_same false s s' e e' = refl

  tasked-Sending :
      (s : Sock)
      → Sending layout mem fd s
      → Sending layout mem fd (tasked i s send_task)
        × (to_send layout mem (tasked i s send_task) ≡ to_send layout mem s)
  unfolding to_send
  tasked-Sending s h = elim (Bool-cases (s.task_queued send_task)) [
    | inl old ↦ rw old (h, refl)
    | inr new ↦ rw new (
      record {
        is_active = h.is_active;
        is_running = h.is_running;
        is_open = h.is_open;
        inside = h.inside;
        sendable = h.sendable;
      },
      ap (λ l. l ++ queue_bytes layout mem s.msg_buffer_queue)
          (rest_of_same s.is_out_buf_busy s _ refl refl),
    )
  ]

  -- A message more stands behind all the others.
  pub sending-Sending :
      (msg : NetMsg) (s : Sock)
      → Sending layout mem fd s
      → Sendable msg
      → Sending layout mem fd (sending i msg s)
        × (to_send layout mem (sending i msg s)
            ≡ to_send layout mem s ++ message_bytes layout mem msg)
  unfolding to_send
  sending-Sending msg s h k =
      let s' : Sock = record s { msg_buffer_queue = s.msg_buffer_queue ++ msg ∷ [] } in
      let h' : Sending layout mem fd s' = record {
        is_active = h.is_active;
        is_running = h.is_running;
        is_open = h.is_open;
        inside = h.inside;
        sendable = AllSendable-append s.msg_buffer_queue msg h.sendable k;
      } in
      let (kept, same) = tasked-Sending s' h' in
      (
        kept,
        same
            ∙ ap₂ ◌++◌ (rest_of_same s.is_out_buf_busy s s' refl refl)
                (queue_bytes-append s.msg_buffer_queue msg)
            ∙ sym (append_assoc (rest_of layout mem s.is_out_buf_busy s) _ _),
      )

-- The writes of the event answer at most what is asked of them.
abbrev pub Accepts : Env → Memory → Option Sock → Type 0
Accepts env mem none = Unit {0}
Accepts env mem (some t) = Writable env.layout mem env t

module _ (env : Env) (mem : Memory) (fd i : ℕ) where
  abbrev pub Poll : Sock → Option Sock → Type 0
  Poll s o =
      Sending env.layout mem fd (polled env mem i s o)
      × (written fd (poll_acts env mem i o) ++ to_send env.layout mem (polled env mem i s o)
          ≡ to_send env.layout mem s)

  pub wire-written :
      (t : Sock) → t.s ≡ some fd → (bs : List ℕ) → written fd (write t.s bs ∷ []) ≡ bs
  wire-written t e bs = rw (e, ==_refl fd)

  pub wrote-Poll :
      (t : Sock)
      → t.is_out_buf_busy ≡ true
      → Sending env.layout mem fd t
      → Writable env.layout mem env t
      → Poll t (some t)
  unfolding to_send
  wrote-Poll t busy h w =
      let m = h.inside busy in
      let r = sent_by env mem t in
      let p = sent_by-Progress env mem t m w in
      let f = settled_fields i r.rc (record t { out_offset = r.offset }) in
      (
        record {
          is_active = f.1 ∙ h.is_active;
          is_running = ap is_stopping f.2 ∙ h.is_running;
          is_open = f.3 ∙ h.is_open;
          inside = settled-InMessage env.layout mem i r _ t busy p m.1;
          sendable = rw (f.0) h.sendable;
        },
        ap (λ l. l ++ to_send env.layout mem (wrote env mem i t)) (wire-written t h.is_open r.wire)
            ∙ sym (append_assoc r.wire _ _)
            ∙ ap₂ ◌++◌ (settled_rest env.layout mem i r _ t busy p)
                (ap (queue_bytes env.layout mem) f.0)
            ∙ ap (λ b. rest_of env.layout mem b t ++ queue_bytes env.layout mem t.msg_buffer_queue)
                (sym busy),
      )

  -- The next message comes to the output buffer.
  module _ (msg : NetMsg) (rest : List NetMsg) (s : Sock) where
    abbrev pub t : Sock
    t = record (dequeue env.layout (msg ∷ rest) s).1 { is_out_buf_busy = true }

    pub filled-Sending :
        Sending env.layout mem fd s
        → AllSendable (msg ∷ rest)
        → Sending env.layout mem fd t
          × (to_send env.layout mem t ≡ queue_bytes env.layout mem (msg ∷ rest))
    unfolding dequeue to_send queue_bytes
    filled-Sending h k = (
      record {
        is_active = h.is_active;
        is_running = h.is_running;
        is_open = h.is_open;
        inside = λ b. dequeue-InMessage env.layout mem msg rest s k.0;
        sendable = k.1;
      },
      ap (λ l. l ++ queue_bytes env.layout mem rest)
          (rest_of-dequeue env.layout mem msg rest s k.0),
    )

  queue-Poll :
      (q : List NetMsg) (s : Sock)
      → Sending env.layout mem fd s
      → AllSendable q
      → to_send env.layout mem s ≡ queue_bytes env.layout mem q
      → Accepts env mem (filled_from env.layout q s)
      → Answers env mem i (filled_from env.layout q s) × Poll s (filled_from env.layout q s)
  queue-Poll [] s h k e w = (tt, (h, refl))
  queue-Poll (msg ∷ rest) s h k e w =
      let (h', e') = filled-Sending msg rest s h k in
      let (later, bytes) = wrote-Poll (t msg rest s) refl h' w in
      ((h'.inside refl, w), (later, bytes ∙ e' ∙ sym e))

  flag-Poll :
      (b : Bool) (s : Sock)
      → s.is_out_buf_busy ≡ b
      → Sending env.layout mem fd s
      → Accepts env mem (to_write env.layout s b)
      → Answers env mem i (to_write env.layout s b) × Poll s (to_write env.layout s b)
  unfolding to_send rest_of
  flag-Poll true s e h w = ((h.inside e, w), wrote-Poll s e h w)
  flag-Poll false s e h w =
      queue-Poll s.msg_buffer_queue s h h.sendable
        (ap (λ b. rest_of env.layout mem b s ++ queue_bytes env.layout mem s.msg_buffer_queue) e) w

  -- What the event writes is gone from what the socket has to write, which it can go on writing.
  pub polled-Sending :
      (s : Sock)
      → Sending env.layout mem fd s
      → Accepts env mem (due env mem i s)
      → Answers env mem i (due env mem i s) × Poll s (due env mem i s)
  polled-Sending s h w = flag-Poll s.is_out_buf_busy s refl h w
