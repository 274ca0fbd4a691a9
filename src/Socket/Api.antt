-- ===== src/Socket/Api.antt =====
-- The methods of NetSocket for the user's thread (socket.cpp).
use klibmsg.Base.{
  ℤ, negsuc, ℕ, Bool, true, false, Option, none, some, [], ◌∷◌, ◌++◌, ◌==◌, ◌||◌, if◌then◌else◌,
}
use klibmsg.Codes.{
  sock_action_accept, sock_action_being_accepted, sock_action_listen, sock_action_connect,
  sock_action_activate, sock_action_done, sock_action_error, sock_action_started,
}
use klibmsg.Os.{success, Ip, Errno, einprogress, Rc, rc_ok, rc_err, Io, moved, failed}
use klibmsg.Message.{NetMsg}
use klibmsg.Net.{
  idle, fsm_idle, no_ptr, Event, Sock, SockState, starting, accepted, established, sent, received,
  error, stopped, TaskKind, connecting_task, connected_task, accept_task, send_task, recv_task,
  stop_task, M, pure, ◌>>=◌, ◌>>◌, get, modify, check,
}
use klibmsg.Fsm.{execute, put_event, same_task}
use klibmsg.Socket.Ops.{Env, init_from_fd, is_success}
use klibmsg.Socket.Feed.{action, fsm_start, fsm_stop, is_idle}

-- NetFsmEvent::Init
abbrev init_event : Event
init_event = record { fsm = none; src = negsuc 0; srcptr = no_ptr; type = negsuc 0; queued = false }

-- NetCtx::Init
abbrev ctx_init : Sock → Sock
ctx_init s = record s { events = []; eventsto = [] }

-- NetFsm::Init; a socket's own machine has no `srcptr_`.
abbrev fsm_init : ℤ → Sock → Sock
fsm_init src s = record (put_event stopped init_event s) {
  fsm_state = fsm_idle;
  fsm_src = src;
  fsm_srcptr = no_ptr;
}

-- NetWorkerTask::Init, of which only the item is state.
abbrev task_init : TaskKind → Sock → Sock
task_init k s = record s { task_queued = λ k'. if same_task k' k then false else s.task_queued k' }

abbrev tasks_init : Sock → Sock
tasks_init s = task_init stop_task (
    task_init recv_task (
      task_init send_task
        (task_init accept_task (task_init connected_task (task_init connecting_task s)))))

abbrev events_init : Sock → Sock
events_init s =
    put_event error init_event (
      put_event received init_event
        (put_event sent init_event (put_event established init_event s)))

-- NetSocket::Init, with the worker that is chosen and the address; the buffers keep what they hold.
unfoldable pub init : ℤ → ℕ → Ip → Sock → Sock
init src worker ip s = record (events_init (tasks_init (fsm_init src (ctx_init s)))) {
  state = idle;
  s = none;
  errnum = success;
  worker = worker;
  ip = ip;
  asock = none;
  in_offset = 0;
  out_offset = 0;
  msg_buffer_queue = [];
}

abbrev is_starting : SockState → Bool
is_starting starting = true
is_starting _ = false

abbrev is_accepted : SockState → Bool
is_accepted accepted = true
is_accepted _ = false

-- NetSocket::Start, with what `socket` returns.
unfoldable pub start : ℕ → Env → ℕ → Io ℕ → M Rc
start fuel env i (failed e) = pure (rc_err e)
start fuel env i (moved fd) = do init_from_fd env i fd; fsm_start fuel env i; pure rc_ok

-- NetSocket::StartFd
unfoldable pub start_fd : ℕ → Env → ℕ → ℕ → M (Unit {0})
start_fd fuel env i fd = do
  init_from_fd env i fd
  fsm_start fuel env i
  action fuel env i sock_action_started

-- NetSocket::Stop
unfoldable pub stop : ℕ → Env → ℕ → M (Unit {0})
stop = fsm_stop

abbrev code : Errno → Rc
code e = if is_success e then rc_ok else rc_err e

-- NetSocket::SetSockOpt, with the error of `setsockopt`.
unfoldable pub set_sock_opt : ℕ → Errno → M Rc
set_sock_opt i e = do
  sock ← get i
  check (is_starting sock.state || is_accepted sock.state)
  pure (code e)

-- NetSocket::Bind, with the errors of `setsockopt` and `bind`.
unfoldable pub bind : ℕ → Errno → Errno → M Rc
bind i opt_error e = do
  sock ← get i
  check (is_starting sock.state)
  check (is_success opt_error)
  pure (code e)

-- NetSocket::Listen, with the error of `listen`.
unfoldable pub listen : ℕ → Env → ℕ → Errno → M Rc
listen fuel env i e = do
  sock ← get i
  check (is_starting sock.state)
  if is_success e then (do action fuel env i sock_action_listen; pure rc_ok) else pure (rc_err e)

abbrev free_for : Option ℕ → ℕ → Bool
free_for none j = true
free_for (some a) j = a == j

-- NetSocket::Accept by socket `i` of listener `j`.
unfoldable pub accept : ℕ → Env → ℕ → ℕ → M (Unit {0})
accept fuel env i j = do
  sock ← get i
  if is_idle sock
      then (do fsm_start fuel env i; action fuel env i sock_action_being_accepted)
      else pure tt
  action fuel env j sock_action_accept
  self ← get i
  check (free_for self.asock j)
  modify i λ s. record s { asock = some j }
  listener ← get j
  check (free_for listener.asock i)
  modify j λ s. record s { asock = some i }
  execute j accept_task

-- NetSocket::Activate
unfoldable pub activate : ℕ → Env → ℕ → M (Unit {0})
activate fuel env i = action fuel env i sock_action_activate

abbrev pub is_in_progress : Errno → Bool
is_in_progress einprogress = true
is_in_progress _ = false

-- NetSocket::Connect, with the error of `connect`.
unfoldable pub connect : ℕ → Env → ℕ → Errno → M (Unit {0})
connect fuel env i e = do
  action fuel env i sock_action_connect
  if is_success e
      then action fuel env i sock_action_done
      else if is_in_progress e
      then execute i connecting_task
      else (do modify i λ s. record s { errnum = e }; action fuel env i sock_action_error)

-- NetSocket::AsyncSendMsg
unfoldable pub async_send_msg : ℕ → NetMsg → M (Unit {0})
async_send_msg i msg = do
  modify i λ s. record s { msg_buffer_queue = s.msg_buffer_queue ++ msg ∷ [] }
  execute i send_task
