-- ===== src/Socket/Events.antt =====
-- The parts of NetSocketHandler (socket.cpp) that act: what a socket does on an event of its
-- descriptor, and NetSocket::AsyncStop.
use klibmsg.Base.{ℕ, Bool, true, false, Option, none, some, if◌then◌else◌, ltb}
use klibmsg.Codes.{
  sock_event_type_connected, sock_event_type_accepted, sock_event_type_sent,
  sock_event_type_received, sock_event_type_error, sock_event_type_accept_error,
  sock_event_type_shutdown, device_src_socket_event,
}
use klibmsg.Os.{
  Errno, eagain, econnaborted, econnreset, enfile, emfile, enobufs, enomem, Rc, rc_ok, rc_err, Io,
  moved, failed,
}
use klibmsg.Net.{
  accepted, active, done, listening, accepting_error, established, sent, received, error, stop_task,
  sock_ptr, msg_ptr, M, pure, ◌>>=◌, ◌>>◌, get, modify, emit, check, rm_fd, reset_out, close,
}
use klibmsg.Fsm.{raise, raise_to, execute}
use klibmsg.Socket.Ops.{
  Env, close_socket, set_state, init_from_fd, get_err, dequeue_net_msg_to_buf, sock_recv_raw,
  sock_send_raw, extract_net_msg, is_success,
}

-- NetSocket::AsyncStop
unfoldable pub async_stop : ℕ → M (Unit {0})
async_stop i = do execute i stop_task; raise i error sock_event_type_shutdown (sock_ptr i)

-- The `switch (rc)` behind RecvRaw and SendRaw: any error but these two fails a CHECK.
abbrev pub check_reset : Rc → M (Unit {0})
check_reset (rc_err eagain) = pure tt
check_reset (rc_err econnreset) = pure tt
check_reset _ = check false

unfoldable pub after_recv : Env → ℕ → Rc → M (Unit {0})
after_recv env i rc_ok = do
  msg ← extract_net_msg env i
  raise i received sock_event_type_received (msg_ptr msg)
after_recv env i (rc_err e) = check_reset (rc_err e)

unfoldable pub after_send : ℕ → Rc → M (Unit {0})
after_send i rc_ok = do
  modify i λ s. record s { is_out_buf_busy = false }
  raise i sent sock_event_type_sent (sock_ptr i)
after_send i (rc_err e) = check_reset (rc_err e)

-- kNetWorkerFdOut in the active state.
unfoldable pub active_out : Env → ℕ → M (Unit {0})
active_out env i = do
  sock ← get i
  let send = do rc ← sock_send_raw env i; after_send i rc
  if sock.is_out_buf_busy then send else do
    found ← dequeue_net_msg_to_buf env i
    if found
        then (do modify i λ s. record s { is_out_buf_busy = true }; send)
        else emit (reset_out i)

unfoldable pub active_in : Env → ℕ → M (Unit {0})
active_in env i = do rc ← sock_recv_raw env i; after_recv env i rc

-- The descriptor is given up: `RmFd`, `NetCloseFd`, `s_ = -1`, done, and an error event.
unfoldable pub drop_fd : Env → ℕ → M (Unit {0})
drop_fd env i = do
  emit (rm_fd i)
  close_socket env i
  set_state i done
  raise i error sock_event_type_error (sock_ptr i)

abbrev pub close_some : Option ℕ → M (Unit {0})
close_some none = check false
close_some (some fd) = emit (close fd)

-- `rc = close(sock->s()); CHECK_EQ(rc, 0); sock->s() = -1;`, where -1 is not closed.
unfoldable pub close_checked : Env → ℕ → M (Unit {0})
close_checked env i = do
  sock ← get i
  close_some sock.s
  check (is_success env.close_errno)
  modify i λ s. record s { s = none }

-- kNetWorkerFdOut in the connecting state.
unfoldable pub connecting_out : Env → ℕ → M (Unit {0})
connecting_out env i = do
  emit (reset_out i)
  set_state i active
  let sockerr = get_err env
  if is_success sockerr then raise i established sock_event_type_connected (sock_ptr i) else do
    modify i λ s. record s { errnum = sockerr }
    emit (rm_fd i)
    close_checked env i
    set_state i done
    raise i error sock_event_type_error (sock_ptr i)

abbrev pub lacks_resources : Errno → Bool
lacks_resources enfile = true
lacks_resources emfile = true
lacks_resources enobufs = true
lacks_resources enomem = true
lacks_resources _ = false

-- A connection was accepted on behalf of socket `j`.
unfoldable pub take_connection : Env → ℕ → ℕ → ℕ → M (Unit {0})
take_connection env i j fd = do
  init_from_fd env j fd
  set_state j accepted
  raise_to i j established device_src_socket_event sock_event_type_accepted (sock_ptr j)
  modify j λ s. record s { asock = none }
  modify i λ s. record s { asock = none }
  emit (rm_fd i)
  set_state i listening

unfoldable pub accept_error : ℕ → Errno → M (Unit {0})
accept_error i e =
    if lacks_resources e
    then (do
      modify i λ s. record s { errnum = e }
      set_state i accepting_error
      emit (rm_fd i)
      raise i error sock_event_type_accept_error (sock_ptr i))
    else check false

unfoldable pub accept_failed : ℕ → Errno → M (Unit {0})
accept_failed i econnaborted = pure tt
accept_failed i e = accept_error i e

abbrev pub connect_peer : Env → ℕ → ℕ → Option ℕ → M (Unit {0})
connect_peer env i fd none = check false
connect_peer env i fd (some j) = take_connection env i j fd

unfoldable pub accept_result : Env → ℕ → Io ℕ → M (Unit {0})
accept_result env i (failed e) = accept_failed i e
accept_result env i (moved fd) = do check (ltb 0 fd); sock ← get i; connect_peer env i fd sock.asock

-- kNetWorkerFdIn in the accepting state. Descriptor 0 fails `CHECK_GT(s, 0)`; a null `asock_`
-- is followed, which is a crash.
unfoldable pub accepting_in : Env → ℕ → M (Unit {0})
accepting_in env i = accept_result env i env.accept4
