-- ===== src/Socket/Outgoing.antt =====
-- The sending side of a socket (socket.cpp): what its output buffer and its queue of messages hold,
-- and what an event of its descriptor, that it can be written to, makes of them.
pub mod Bytes
pub mod Poll
pub mod Step
pub mod Fifo
pub mod Shrinks
pub mod Completes
use klibmsg.Base.{
  ℕ, ◌+◌, ◌-◌, ◌^◌, ◌<◌, ◌≤◌, ◌≡◌, Bool, true, false, Option, none, some, List, [], ◌∷◌, ◌++◌, ◌==◌,
  if◌then◌else◌, max,
}
use klibmsg.Memory.{Memory, load}
use klibmsg.Codes.{sock_event_type_sent}
use klibmsg.Os.{Rc, rc_ok, rc_err}
use klibmsg.Message.{NetMsg, Layout, Fits, sizeof_net_msg, data_len}
use klibmsg.Transfer.{Sent, send_raw}
use klibmsg.Transfer.Send.{Within, size, outgoing}
use klibmsg.Net.{Sock, sent, sock_ptr, Act, write, reset_out}
use klibmsg.Fsm.{raised}
use klibmsg.Socket.Ops.{Env, dequeue}

module _ (layout : Layout) (mem : Memory) where
  -- The bytes of a message, the header and then the data.
  unfoldable pub message_bytes : NetMsg → List ℕ
  message_bytes msg = layout.encode msg ++ load mem msg.src (data_len msg)

  unfoldable pub queue_bytes : List NetMsg → List ℕ
  queue_bytes [] = []
  queue_bytes (msg ∷ rest) = message_bytes msg ++ queue_bytes rest

  -- What is still to be written of the message in the output buffer.
  unfoldable pub rest_of : Bool → Sock → List ℕ
  rest_of true s =
      load (outgoing layout mem s.out_buf) s.out_offset (size layout mem s.out_buf - s.out_offset)
  rest_of false s = []

  -- All that the socket has still to write.
  unfoldable pub to_send : Sock → List ℕ
  to_send s = rest_of s.is_out_buf_busy s ++ queue_bytes s.msg_buffer_queue

  -- SendRaw stands inside the message in the output buffer.
  abbrev pub InMessage : Sock → Type 0
  InMessage s = (s.out_offset ≤ size layout mem s.out_buf) × (size layout mem s.out_buf < 2 ^ 31)

  -- A call of SendRaw writes at most what it is to.
  abbrev pub Writable : Env → Sock → Type 0
  Writable env s =
      Within (sizeof_net_msg - s.out_offset) env.writes.0
      × Within (size layout mem s.out_buf - max s.out_offset sizeof_net_msg) env.writes.1

-- A message that fits in its layout, of less than 2^31 bytes.
abbrev pub Sendable : NetMsg → Type 0
Sendable msg = Fits msg × (sizeof_net_msg + data_len msg < 2 ^ 31)

abbrev pub AllSendable : List NetMsg → Type 0
AllSendable [] = Unit {0}
AllSendable (msg ∷ rest) = Sendable msg × AllSendable rest

-- The socket once a message stands in its output buffer; `none` if there is none to write.
abbrev pub filled_from : Layout → List NetMsg → Sock → Option Sock
filled_from layout [] s = none
filled_from layout (msg ∷ rest) s =
    some (record (dequeue layout (msg ∷ rest) s).1 { is_out_buf_busy = true })

abbrev pub to_write : Layout → Sock → Bool → Option Sock
to_write layout s true = some s
to_write layout s false = filled_from layout s.msg_buffer_queue s

-- The socket after a call of SendRaw with a result.
unfoldable pub settled : ℕ → Rc → Sock → Sock
settled i rc_ok s =
    raised i sent sock_event_type_sent (sock_ptr i) (record s { is_out_buf_busy = false })
settled i (rc_err e) s = s

abbrev pub sent_by : Env → Memory → Sock → Sent
sent_by env mem s = send_raw env.layout mem s.out_buf s.out_offset env.writes.0 env.writes.1

abbrev pub wrote : Env → Memory → ℕ → Sock → Sock
wrote env mem i s = let r = sent_by env mem s in settled i r.rc (record s { out_offset = r.offset })

-- The socket after the event, and what is asked of the kernel or the poller.
abbrev pub polled : Env → Memory → ℕ → Sock → Option Sock → Sock
polled env mem i s none = s
polled env mem i s (some t) = wrote env mem i t

abbrev pub poll_acts : Env → Memory → ℕ → Option Sock → List Act
poll_acts env mem i none = reset_out i ∷ []
poll_acts env mem i (some t) = write t.s (sent_by env mem t).wire ∷ []
