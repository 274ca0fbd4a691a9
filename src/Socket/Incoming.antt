-- ===== src/Socket/Incoming.antt =====
-- The receiving side of a socket (socket.cpp): an event of its descriptor that it can be read from,
-- and the messages that it tells of.
pub mod Hear
pub mod Wire
pub mod Arrives
pub mod Events
pub mod Delivers
use klibmsg.Base.{ℕ, suc, ◌+◌, ◌<◌, ◌≡◌, Bool, true, List, [], ◌∷◌}
use klibmsg.Codes.{sock_src_fd, worker_fd_in, sock_event_type_received}
use klibmsg.Memory.{Memory}
use klibmsg.Message.{NetMsg, data_len}
use klibmsg.Transfer.{Received, recv_raw}
use klibmsg.Transfer.Many.{Reads}
use klibmsg.Net.{Net, Sock, received, msg_ptr, ok}
use klibmsg.Socket.Ops.{Env}
use klibmsg.Socket.Feed.{feed}

-- RecvRaw in a state of the program.
abbrev pub heard : Env → ℕ → Net → Received
heard env i n =
    recv_raw env.layout env.token2dptr n.mem (n.socks i).in_buf (n.socks i).in_offset env.reads.0
      env.reads.1

-- The socket tells of a message that was received.
abbrev pub Tells : NetMsg → Sock → Type 0
Tells msg s =
    ((s.event received).srcptr ≡ msg_ptr msg)
    × ((s.event received).type ≡ sock_event_type_received)
    × ((s.event received).queued ≡ true)

-- The data of a message, in the memory of the sender, lie where they are to go.
abbrev pub DataCame : (ℕ → ℕ) → Memory → NetMsg → Memory → Type 0
DataCame token2dptr sender msg mem =
    (x : ℕ) → x < data_len msg → mem (token2dptr msg.dst + x) ≡ sender (msg.src + x)

-- What one event is told by the outside, where only the reads change from one to the next.
abbrev pub reading : Env → Reads → Env
reading env reads = record env { reads = reads }

-- A run of such events, and the messages that it told of: each when its event was over, with its
-- data in place.
pub data Told (env : Env) (sender : Memory) (i fuel : ℕ) (n' : Net)
    : List Reads → Net → List NetMsg → Type 0 where
  over : Told env sender i fuel n' [] n' []
  waits :
      {r : Reads} {rs : List Reads} {n n1 : Net} {msgs : List NetMsg}
      → feed (suc fuel) (reading env r) i sock_src_fd worker_fd_in n ≡ ok tt n1
      → (n1.socks i).event ≡ (n.socks i).event
      → Told env sender i fuel n' rs n1 msgs
      → Told env sender i fuel n' (r ∷ rs) n msgs
  tells :
      {r : Reads} {rs : List Reads} {n n1 : Net} {msg : NetMsg} {msgs : List NetMsg}
      → feed (suc fuel) (reading env r) i sock_src_fd worker_fd_in n ≡ ok tt n1
      → Tells msg (n1.socks i)
      → DataCame env.token2dptr sender msg n1.mem
      → Told env sender i fuel n' rs n1 msgs
      → Told env sender i fuel n' (r ∷ rs) n (msg ∷ msgs)
