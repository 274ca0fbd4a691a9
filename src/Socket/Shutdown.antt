-- ===== src/Socket/Shutdown.antt =====
-- NetSocketShutdownHandler (socket.cpp), which a socket that is being stopped is fed by.
use klibmsg.Base.{ℕ, Bool, true, false, ◌&&◌, if◌then◌else◌, ℤ, ◌==ℤ◌}
use klibmsg.Codes.{
  net_fsm_action, net_fsm_stop, sock_action_cancel, sock_action_done, sock_src_task_stop,
  sock_event_type_stopped, worker_task_execute,
}
use klibmsg.Os.{success}
use klibmsg.Net.{
  SockState, idle, starting, being_accepted, accepted, done, removing_fd, listening, accepting,
  cancelling, stopping, stopping_accept, accepting_error, M, pure, ◌>>=◌, ◌>>◌, get, modify, emit,
  check, rm_fd, bad_state,
}
use klibmsg.Fsm.{fsm_stopped}
use klibmsg.Socket.Ops.{Env, close_socket, set_state, internal_tasks}
use klibmsg.Socket.Events.{async_stop}

-- The labels `finish2` and `finish1`; `finish3` is `pure tt`.
unfoldable pub finish2 : ℕ → M (Unit {0})
finish2 i = do set_state i idle; fsm_stopped i sock_event_type_stopped

unfoldable pub finish1 : Env → ℕ → M (Unit {0})
finish1 env i = do close_socket env i; finish2 i

-- The synchronous and the asynchronous stop, by the state of the socket.
unfoldable pub stop_in : Env → (ℕ → ℤ → M (Unit {0})) → ℕ → SockState → M (Unit {0})
stop_in env action i idle = pure tt
stop_in env action i done = finish2 i
stop_in env action i starting = finish1 env i
stop_in env action i accepted = finish1 env i
stop_in env action i accepting_error = finish1 env i
stop_in env action i listening = finish1 env i
stop_in env action i being_accepted = do action i sock_action_cancel; set_state i stopping_accept
stop_in env action i removing_fd = set_state i stopping
stop_in env action i _ = do async_stop i; set_state i stopping

abbrev pub can_stop : SockState → Bool
can_stop accepting = false
can_stop cancelling = false
can_stop _ = true

-- Behind the request to stop.
unfoldable pub stopping_in : Env → ℕ → SockState → ℤ → ℤ → M (Unit {0})
stopping_in env i stopping_accept src type = do
  check (src ==ℤ net_fsm_action && type ==ℤ sock_action_done)
  finish2 i
stopping_in env i stopping src type =
    if src ==ℤ sock_src_task_stop
    then (do check (type ==ℤ worker_task_execute); emit (rm_fd i); finish1 env i)
    else pure tt
stopping_in env i st src type = emit (bad_state st src type)

-- NetSocketShutdownHandler
unfoldable pub shutdown_handler : Env → (ℕ → ℤ → M (Unit {0})) → ℕ → ℤ → ℤ → M (Unit {0})
shutdown_handler env action i src type = do
  known ← internal_tasks i src type
  sock ← get i
  if known
      then pure tt
      else if src ==ℤ net_fsm_action && type ==ℤ net_fsm_stop
      then (do
        check (can_stop sock.state)
        modify i λ s. record s { errnum = success }
        stop_in env action i sock.state)
      else stopping_in env i sock.state src type
