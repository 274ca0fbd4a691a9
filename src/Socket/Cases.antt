-- ===== src/Socket/Cases.antt =====
-- NetSocketHandler (socket.cpp). NetFsmBadAction and NetFsmBadSource print and go on, and no
-- `break` stands behind them: control falls through into the next `case`, of the inner switch and
-- then of the outer one. So each case of the outer switch is a function that ends in the next one.
use klibmsg.Base.{ℕ, false, Option, none, some, if◌then◌else◌, ℤ, ◌==ℤ◌}
use klibmsg.Codes.{
  net_fsm_action, net_fsm_start, sock_action_accept, sock_action_being_accepted, sock_action_cancel,
  sock_action_listen, sock_action_connect, sock_action_activate, sock_action_done,
  sock_action_error, sock_action_started, sock_src_fd, sock_src_task_stop,
  sock_event_type_connected, sock_event_type_accepted, sock_event_type_error, worker_fd_in,
  worker_fd_out, worker_fd_err, worker_task_execute,
}
use klibmsg.Net.{
  SockState, idle, starting, being_accepted, accepted, connecting, active, removing_fd, done,
  listening, accepting, cancelling, stopping, stopping_accept, accepting_error, established, error,
  connected_task, stop_task, sock_ptr, M, pure, ◌>>=◌, ◌>>◌, get, emit, check, rm_fd, bad_action,
  bad_source, bad_state,
}
use klibmsg.Fsm.{raise, execute}
use klibmsg.Socket.Events.{async_stop, active_in, active_out, drop_fd, connecting_out, accepting_in}
use klibmsg.Socket.Ops.{Env, close_socket, set_state, add_wfd, internal_tasks}

-- `asock()->fsm().Action(kNetSockActionDone)`; a null pointer is followed, which is a crash.
abbrev pub tell_peer : (ℕ → ℤ → M (Unit {0})) → Option ℕ → M (Unit {0})
tell_peer action none = check false
tell_peer action (some j) = action j sock_action_done

module _ (env : Env) (action : ℕ → ℤ → M (Unit {0})) (i : ℕ) (st : SockState) (src type : ℤ) where
  unfoldable pub case_default : M (Unit {0})
  case_default = emit (bad_state st src type)

  unfoldable pub cancelling_fd : M (Unit {0})
  cancelling_fd =
      if type ==ℤ worker_fd_in
      then pure tt
      else (do emit (bad_action st src type); emit (bad_source st src type); case_default)

  unfoldable pub case_cancelling : M (Unit {0})
  case_cancelling =
      if src ==ℤ sock_src_task_stop
      then (if type ==ℤ worker_task_execute
          then (do emit (rm_fd i); set_state i listening; sock ← get i; tell_peer action sock.asock)
          else (do emit (bad_action st src type); cancelling_fd))
      else if src ==ℤ sock_src_fd
      then cancelling_fd
      else (do emit (bad_source st src type); case_default)

  unfoldable pub case_accepting_error : M (Unit {0})
  case_accepting_error =
      if src ==ℤ net_fsm_action
      then (if type ==ℤ sock_action_accept
          then set_state i accepting
          else (do emit (bad_action st src type); emit (bad_source st src type); case_cancelling))
      else (do emit (bad_source st src type); case_cancelling)

  unfoldable pub accepting_fd : M (Unit {0})
  accepting_fd =
      if type ==ℤ worker_fd_in
      then accepting_in env i
      else (do emit (bad_action st src type); emit (bad_source st src type); case_accepting_error)

  unfoldable pub case_accepting : M (Unit {0})
  case_accepting =
      if src ==ℤ net_fsm_action
      then (if type ==ℤ sock_action_done
          then set_state i listening
          else if type ==ℤ sock_action_cancel
          then (do set_state i cancelling; execute i stop_task)
          else (do emit (bad_action st src type); accepting_fd))
      else if src ==ℤ sock_src_fd
      then accepting_fd
      else (do emit (bad_source st src type); case_accepting_error)

  unfoldable pub case_listening : M (Unit {0})
  case_listening =
      if src ==ℤ net_fsm_action
      then (if type ==ℤ sock_action_accept
          then set_state i accepting
          else (do emit (bad_action st src type); emit (bad_source st src type); case_accepting))
      else (do emit (bad_source st src type); case_accepting)

  -- The case of the done state, which returns, is `pure tt`.
  unfoldable pub case_removing_fd : M (Unit {0})
  case_removing_fd =
      if src ==ℤ sock_src_task_stop
      then (if type ==ℤ worker_task_execute then drop_fd env i else emit (bad_action st src type))
      else if src ==ℤ sock_src_fd
      then pure tt
      else if src ==ℤ net_fsm_action
      then (if type ==ℤ sock_action_error
          then pure tt
          else (do emit (bad_action st src type); emit (bad_source st src type)))
      else emit (bad_source st src type)

  unfoldable pub active_action : M (Unit {0})
  active_action =
      if type ==ℤ sock_action_error
      then (do set_state i removing_fd; async_stop i)
      else (do emit (bad_action st src type); emit (bad_source st src type); case_removing_fd)

  unfoldable pub case_active : M (Unit {0})
  case_active =
      if src ==ℤ sock_src_fd
      then (if type ==ℤ worker_fd_in
          then active_in env i
          else if type ==ℤ worker_fd_out
          then active_out env i
          else if type ==ℤ worker_fd_err
          then drop_fd env i
          else (do emit (bad_action st src type); active_action))
      else if src ==ℤ net_fsm_action
      then active_action
      else (do emit (bad_source st src type); case_removing_fd)

  unfoldable pub connecting_fd : M (Unit {0})
  connecting_fd =
      if type ==ℤ worker_fd_out
      then connecting_out env i
      else if type ==ℤ worker_fd_err
      then drop_fd env i
      else (do emit (bad_action st src type); emit (bad_source st src type); case_active)

  unfoldable pub case_connecting : M (Unit {0})
  case_connecting =
      if src ==ℤ net_fsm_action
      then (if type ==ℤ sock_action_done
          then (do
            set_state i active
            execute i connected_task
            raise i established sock_event_type_connected (sock_ptr i))
          else if type ==ℤ sock_action_error
          then (do
            close_socket env i
            set_state i done
            raise i error sock_event_type_error (sock_ptr i))
          else (do emit (bad_action st src type); connecting_fd))
      else if src ==ℤ sock_src_fd
      then connecting_fd
      else (do emit (bad_source st src type); case_active)

  unfoldable pub case_accepted : M (Unit {0})
  case_accepted =
      if src ==ℤ net_fsm_action
      then (if type ==ℤ sock_action_activate
          then (do add_wfd i; set_state i active)
          else (do emit (bad_action st src type); emit (bad_source st src type); case_connecting))
      else (do emit (bad_source st src type); case_connecting)

  unfoldable pub case_being_accepted : M (Unit {0})
  case_being_accepted =
      if src ==ℤ net_fsm_action
      then (if type ==ℤ sock_action_done
          then (do set_state i accepted; raise i established sock_event_type_accepted (sock_ptr i))
          else (do emit (bad_action st src type); emit (bad_source st src type); case_accepted))
      else (do emit (bad_source st src type); case_accepted)

  unfoldable pub case_starting : M (Unit {0})
  case_starting =
      if src ==ℤ net_fsm_action
      then (if type ==ℤ sock_action_listen
          then set_state i listening
          else if type ==ℤ sock_action_connect
          then set_state i connecting
          else if type ==ℤ sock_action_being_accepted
          then set_state i being_accepted
          else if type ==ℤ sock_action_started
          then (do add_wfd i; set_state i active)
          else (do
            emit (bad_action st src type)
            emit (bad_source st src type)
            case_being_accepted))
      else (do emit (bad_source st src type); case_being_accepted)

  unfoldable pub case_idle : M (Unit {0})
  case_idle =
      if src ==ℤ net_fsm_action
      then (if type ==ℤ net_fsm_start
          then set_state i starting
          else (do emit (bad_action st src type); emit (bad_source st src type); case_starting))
      else (do emit (bad_source st src type); case_starting)

-- The outer `switch (sock->state())`.
unfoldable pub dispatch : Env → (ℕ → ℤ → M (Unit {0})) → ℕ → SockState → ℤ → ℤ → M (Unit {0})
dispatch env action i idle src type = case_idle env action i idle src type
dispatch env action i starting src type = case_starting env action i starting src type
dispatch env action i being_accepted src type =
    case_being_accepted env action i being_accepted src type
dispatch env action i accepted src type = case_accepted env action i accepted src type
dispatch env action i connecting src type = case_connecting env action i connecting src type
dispatch env action i active src type = case_active env action i active src type
dispatch env action i removing_fd src type = case_removing_fd env action i removing_fd src type
dispatch env action i done src type = pure tt
dispatch env action i listening src type = case_listening env action i listening src type
dispatch env action i accepting src type = case_accepting env action i accepting src type
dispatch env action i accepting_error src type =
    case_accepting_error env action i accepting_error src type
dispatch env action i cancelling src type = case_cancelling env action i cancelling src type
dispatch env action i stopping src type = case_default env action i stopping src type
dispatch env action i stopping_accept src type = case_default env action i stopping_accept src type

-- NetSocketHandler
unfoldable pub handler : Env → (ℕ → ℤ → M (Unit {0})) → ℕ → ℤ → ℤ → M (Unit {0})
handler env action i src type = do
  known ← internal_tasks i src type
  sock ← get i
  if known then pure tt else dispatch env action i sock.state src type
