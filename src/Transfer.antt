-- ===== src/Transfer.antt =====
-- NetSocket::SendRaw and NetSocket::RecvRaw (socket.cpp) on the parts of a socket that they use.
-- The results of the system calls are arguments, in the order of the calls.
pub mod Send
pub mod Grows
pub mod Gain
pub mod Recv
pub mod Many
pub mod Live
pub mod Completes
use klibmsg.Base.{
  ℕ, ◌+◌, ◌-◌, Bool, true, false, ◌&&◌, not, Option, none, some, List, [], ◌++◌, ltb, if◌then◌else◌,
  length,
}
use klibmsg.Memory.{Memory, load, store}
use klibmsg.Os.{
  Errno, eagain, econnreset, Rc, rc_ok, rc_err, Io, moved, failed, would_block, to_word, add_int,
  signed_lt,
}
use klibmsg.Message.{NetMsg, Layout, sizeof_net_msg, total_msg_sz}

-- `nbytes` once the error is dealt with; `none` where the code returns -ECONNRESET.
abbrev pub nbytes : Io ℕ → Option ℕ
nbytes (moved n) = some n
nbytes (failed e) = if would_block e then some 0 else none

abbrev pub bytes : Io (List ℕ) → Option (List ℕ)
bytes (moved bs) = some bs
bytes (failed e) = if would_block e then some [] else none

-- What SendRaw returns, `out_offset` after it, and the bytes that it wrote to `s_`.
pub record Sent : Type 0 where
  pub rc : Rc
  pub offset : ℕ
  pub wire : List ℕ

-- The write of `n` bytes at `address`.
abbrev pub wrote : Memory → ℕ → ℕ → Option ℕ → Option (ℕ × List ℕ)
wrote m address offset none = none
wrote m address offset (some n) = some (add_int offset n, load m address n)

unfoldable pub send_header : Memory → ℕ → Io ℕ → Option (ℕ × List ℕ)
send_header out_buf offset io =
    if ltb (to_word offset) sizeof_net_msg
    then wrote out_buf offset offset (nbytes io)
    else some (offset, [])

unfoldable pub send_data : Memory → NetMsg → ℕ → Io ℕ → Option (ℕ × List ℕ)
send_data mem msg offset io =
    if not (ltb (to_word offset) sizeof_net_msg) && signed_lt (to_word offset) (total_msg_sz msg)
    then wrote mem (msg.src + (offset - sizeof_net_msg)) offset (nbytes io)
    else some (offset, [])

unfoldable pub finish_send : ℕ → List ℕ → Option (ℕ × List ℕ) → ℕ → Sent
finish_send offset wire none total = record { rc = rc_err econnreset; offset = offset; wire = wire }
finish_send offset wire (some (offset', more)) total = record {
  rc = if signed_lt (to_word offset') total then rc_err eagain else rc_ok;
  offset = offset';
  wire = wire ++ more;
}

unfoldable pub send_rest : Memory → NetMsg → ℕ → Option (ℕ × List ℕ) → Io ℕ → Sent
send_rest mem msg offset none io = record { rc = rc_err econnreset; offset = offset; wire = [] }
send_rest mem msg offset (some (offset', wire)) io =
    finish_send offset' wire (send_data mem msg offset' io) (total_msg_sz msg)

-- What RecvRaw returns, `in_offset`, `in_buf` and the memory after it.
pub record Received : Type 0 where
  pub rc : Rc
  pub offset : ℕ
  pub in_buf : Memory
  pub mem : Memory

-- The read of bytes to `address`.
abbrev pub stored : Memory → ℕ → ℕ → Option (List ℕ) → Option (ℕ × Memory)
stored m address offset none = none
stored m address offset (some bs) = some (add_int offset (length bs), store m address bs)

unfoldable pub recv_header : Memory → ℕ → Io (List ℕ) → Option (ℕ × Memory)
recv_header in_buf offset io =
    if ltb (to_word offset) sizeof_net_msg
    then stored in_buf offset offset (bytes io)
    else some (offset, in_buf)

unfoldable pub recv_data : Memory → ℕ → NetMsg → ℕ → Io (List ℕ) → Option (ℕ × Memory)
recv_data mem address msg offset io =
    if signed_lt (to_word offset) (total_msg_sz msg)
    then stored mem (address + (offset - sizeof_net_msg)) offset (bytes io)
    else some (offset, mem)

unfoldable pub finish_recv : Memory → Memory → ℕ → Option (ℕ × Memory) → ℕ → Received
finish_recv in_buf mem offset none total = record {
  rc = rc_err econnreset;
  offset = offset;
  in_buf = in_buf;
  mem = mem;
}
finish_recv in_buf mem offset (some (offset', mem')) total =
    if signed_lt (to_word offset') total
    then record { rc = rc_err eagain; offset = offset'; in_buf = in_buf; mem = mem' }
    else record { rc = rc_ok; offset = 0; in_buf = in_buf; mem = mem' }

module _ (layout : Layout) where
  -- `*(NetMsg *)(&buf[0])`
  unfoldable pub header : Memory → NetMsg
  header buf = layout.decode (load buf 0 sizeof_net_msg)

  unfoldable pub send_raw : Memory → Memory → ℕ → Io ℕ → Io ℕ → Sent
  send_raw mem out_buf offset io io' =
      send_rest mem (header out_buf) offset (send_header out_buf offset io) io'

  -- `token2dptr` is the function that the user gives to NetDevice::Init.
  unfoldable pub recv_rest :
      (ℕ → ℕ) → Memory → Memory → ℕ → Option (ℕ × Memory) → Io (List ℕ) → Received
  recv_rest token2dptr mem in_buf offset none io = record {
    rc = rc_err econnreset;
    offset = offset;
    in_buf = in_buf;
    mem = mem;
  }
  recv_rest token2dptr mem in_buf offset (some (offset', in_buf')) io =
      let msg = header in_buf' in
      if ltb (to_word offset') sizeof_net_msg
      then record { rc = rc_err eagain; offset = offset'; in_buf = in_buf'; mem = mem }
      else finish_recv in_buf' mem offset' (recv_data mem (token2dptr msg.dst) msg offset' io)
          (total_msg_sz msg)

  unfoldable pub recv_raw : (ℕ → ℕ) → Memory → Memory → ℕ → Io (List ℕ) → Io (List ℕ) → Received
  recv_raw token2dptr mem in_buf offset io io' =
      recv_rest token2dptr mem in_buf offset (recv_header in_buf offset io) io'
