-- ===== src/Socket/Ops.antt =====
-- The helpers of the handlers: NetCloseFd (utils.cpp), GetErr, InitFromFd, InternalTasks,
-- DequeueNetMsgToBuf, ExtractNetMsg, and the calls of RecvRaw and SendRaw (socket.cpp).
use klibmsg.Base.{
  ℕ, Bool, true, false, Option, none, some, List, [], ◌∷◌, if◌then◌else◌, is_some, not, ℤ, ◌==ℤ◌,
}
use klibmsg.Codes.{
  sock_src_task_connecting, sock_src_task_connected, sock_src_task_accept, sock_src_task_send,
  sock_src_task_recv, worker_task_execute,
}
use klibmsg.Memory.{store}
use klibmsg.Os.{
  Errno, success, ewouldblock, einprogress, eintr, etimedout, econnreset, Rc, Io, moved, failed,
}
use klibmsg.Message.{NetMsg, Layout}
use klibmsg.Transfer.{header, send_raw, recv_raw}
use klibmsg.Net.{
  SockState, idle, being_accepted, Sock, M, pure, ◌>>=◌, ◌>>◌, get, modify, emit, check, change,
  get_mem, add_fd, set_in, set_out, close, write, set_nonblock,
}

-- What one call of a handler is told by the outside: the compiler's layout of a message, the
-- user's Token2Dptr, and the results of the system calls that the call may make.
pub record Env : Type 0 where
  pub layout : Layout
  pub token2dptr : ℕ → ℕ
  pub accept4 : Io ℕ
  pub close_errno : Errno  -- `success` where `close` returns 0
  pub setfd_ok : Bool  -- `fcntl(s_, F_SETFD, FD_CLOEXEC) == 0`
  pub is_nonblock : Bool  -- `opt & O_NONBLOCK`
  pub so_error : Io Errno
  pub reads : Io (List ℕ) × Io (List ℕ)
  pub writes : Io ℕ × Io ℕ

-- The errors of `close` that NetCloseFd lets pass.
abbrev pub can_ignore : Errno → Bool
can_ignore success = true
can_ignore eintr = true
can_ignore etimedout = true
can_ignore ewouldblock = true
can_ignore einprogress = true
can_ignore econnreset = true
can_ignore _ = false

abbrev pub is_success : Errno → Bool
is_success success = true
is_success _ = false

unfoldable pub net_close_fd : Env → Option ℕ → M (Unit {0})
net_close_fd env none = pure tt
net_close_fd env (some fd) = do emit (close fd); check (can_ignore env.close_errno)

-- `NetCloseFd(sock->s()); sock->s() = -1;`
unfoldable pub close_socket : Env → ℕ → M (Unit {0})
close_socket env i = do sock ← get i; net_close_fd env sock.s; modify i λ s. record s { s = none }

abbrev pub set_state : ℕ → SockState → M (Unit {0})
set_state i st = modify i λ s. record s { state = st }

abbrev pub can_take_fd : SockState → Bool
can_take_fd idle = true
can_take_fd being_accepted = true
can_take_fd _ = false

unfoldable pub init_from_fd : Env → ℕ → ℕ → M (Unit {0})
init_from_fd env i fd = do
  sock ← get i
  check (can_take_fd sock.state)
  check (not (is_some sock.s))
  modify i λ s. record s { s = some fd }
  check env.setfd_ok
  if env.is_nonblock then pure tt else emit (set_nonblock fd)

unfoldable pub get_err : Env → Errno
get_err env = elim env.so_error [ moved opt ↦ opt | failed e ↦ e ]

-- `worker()->AddFd(s_, &wfd())`
abbrev pub add_wfd : ℕ → M (Unit {0})
add_wfd i = do sock ← get i; emit (add_fd i sock.s)

-- The tasks of the user's thread; the result says whether the source was one of them.
unfoldable pub internal_tasks : ℕ → ℤ → ℤ → M Bool
internal_tasks i src type =
    let execute = check (type ==ℤ worker_task_execute) in
    if src ==ℤ sock_src_task_send
    then (do execute; emit (set_out i); pure true)
    else if src ==ℤ sock_src_task_recv
    then (do execute; emit (set_in i); pure true)
    else if src ==ℤ sock_src_task_connected
    then (do execute; add_wfd i; pure true)
    else if src ==ℤ sock_src_task_connecting
    then (do execute; add_wfd i; emit (set_out i); pure true)
    else if src ==ℤ sock_src_task_accept
    then (do execute; add_wfd i; emit (set_in i); pure true)
    else pure false

unfoldable pub dequeue : Layout → List NetMsg → Sock → Bool × Sock
dequeue layout [] s = (false, s)
dequeue layout (msg ∷ rest) s = (
  true,
  record s {
    msg_buffer_queue = rest;
    out_buf = store s.out_buf 0 (layout.encode msg);
    out_offset = 0;
  },
)

unfoldable pub dequeue_net_msg_to_buf : Env → ℕ → M Bool
dequeue_net_msg_to_buf env i = do
  sock ← get i
  modify i λ s. (dequeue env.layout s.msg_buffer_queue s).1
  pure (dequeue env.layout sock.msg_buffer_queue sock).0

-- RecvRaw of socket `i`.
unfoldable pub sock_recv_raw : Env → ℕ → M Rc
sock_recv_raw env i = do
  sock ← get i
  mem ← get_mem
  let r = recv_raw env.layout env.token2dptr mem sock.in_buf sock.in_offset env.reads.0 env.reads.1
  modify i λ s. record s { in_buf = r.in_buf; in_offset = r.offset }
  change λ n. record n { mem = r.mem }
  pure r.rc

-- SendRaw of socket `i`.
unfoldable pub sock_send_raw : Env → ℕ → M Rc
sock_send_raw env i = do
  sock ← get i
  mem ← get_mem
  let r = send_raw env.layout mem sock.out_buf sock.out_offset env.writes.0 env.writes.1
  modify i λ s. record s { out_offset = r.offset }
  emit (write sock.s r.wire)
  pure r.rc

unfoldable pub extract_net_msg : Env → ℕ → M NetMsg
extract_net_msg env i = do sock ← get i; pure (header env.layout sock.in_buf)
