-- ===== src/Socket/Safety/Cases.antt =====
-- Every case of NetSocketHandler is safe.
use klibmsg.Base.{ℕ, ◌≡◌, refl, true, false, Option, none, some, ℤ, ◌==ℤ◌}
use klibmsg.Codes.{
  net_fsm_action, net_fsm_start, sock_action_accept, sock_action_being_accepted, sock_action_cancel,
  sock_action_listen, sock_action_connect, sock_action_activate, sock_action_done,
  sock_action_error, sock_action_started, sock_src_fd, sock_src_task_stop, worker_fd_in,
  worker_fd_out, worker_fd_err, worker_task_execute,
}
use klibmsg.Net.{
  SockState, idle, starting, being_accepted, accepted, connecting, active, removing_fd, done,
  listening, accepting, cancelling, stopping, stopping_accept, accepting_error, M, ◌>>◌, emit,
  rm_fd, bad_action, bad_source,
}
use klibmsg.Socket.Ops.{Env}
use klibmsg.Socket.Cases.{
  tell_peer, case_default, cancelling_fd, case_cancelling, case_accepting_error, accepting_fd,
  case_accepting, case_listening, case_removing_fd, active_action, case_active, connecting_fd,
  case_connecting, case_accepted, case_being_accepted, case_starting, case_idle, dispatch, handler,
}
use klibmsg.Socket.Safety.{
  Keeps, bind-Keeps, then-Keeps, pure-Keeps, get-Keeps, check-Keeps, if-Keeps, emit-Keeps,
  Clears-Keeps, done_After,
}
use klibmsg.Socket.Safety.Steps.{
  raise-Keeps, execute-Keeps, close_socket-Clears, add_wfd-Keeps, internal_tasks-Keeps,
}
use klibmsg.Socket.Safety.Events.{
  set_state-Keeps, async_stop-Keeps, active_in-Keeps, active_out-Keeps, drop_fd-Keeps,
  connecting_out-Keeps, accepting_in-Keeps,
}

-- The handler may act on another socket only on the stop task.
module _ (env : Env) (action : ℕ → ℤ → M (Unit {0})) (i : ℕ) (st : SockState) (src type : ℤ)
    (acts : (src ==ℤ sock_src_task_stop) ≡ true → (j : ℕ) → Keeps (action j sock_action_done)) where
  bad-Keeps : (m : M (Unit {0})) → Keeps m → Keeps (emit (bad_action st src type) >> m)
  bad-Keeps m p = then-Keeps (emit-Keeps _) p

  source-Keeps : (m : M (Unit {0})) → Keeps m → Keeps (emit (bad_source st src type) >> m)
  source-Keeps m p = then-Keeps (emit-Keeps _) p

  both-Keeps :
      (m : M (Unit {0}))
      → Keeps m
      → Keeps (emit (bad_action st src type) >> (emit (bad_source st src type) >> m))
  both-Keeps m p = bad-Keeps _ (source-Keeps m p)

  case_default-Keeps : Keeps (case_default env action i st src type)
  unfolding case_default
  case_default-Keeps = emit-Keeps _

  cancelling_fd-Keeps : Keeps (cancelling_fd env action i st src type)
  unfolding cancelling_fd
  cancelling_fd-Keeps =
      if-Keeps (type ==ℤ worker_fd_in) (λ e. pure-Keeps tt) λ e. both-Keeps _ case_default-Keeps

  tell_peer-Keeps :
      (src ==ℤ sock_src_task_stop) ≡ true → (o : Option ℕ) → Keeps (tell_peer action o)
  tell_peer-Keeps e none = check-Keeps false
  tell_peer-Keeps e (some j) = acts e j

  case_cancelling-Keeps : Keeps (case_cancelling env action i st src type)
  unfolding case_cancelling
  case_cancelling-Keeps =
      if-Keeps (src ==ℤ sock_src_task_stop)
        (λ e.
          if-Keeps (type ==ℤ worker_task_execute)
            (λ e'. then-Keeps (emit-Keeps (rm_fd i)) (
              then-Keeps (set_state-Keeps i listening refl)
                (bind-Keeps (get-Keeps i) λ sock. tell_peer-Keeps e sock.asock)))
            λ e'. bad-Keeps _ cancelling_fd-Keeps)
        λ e.
          if-Keeps (src ==ℤ sock_src_fd) (λ e'. cancelling_fd-Keeps)
            λ e'. source-Keeps _ case_default-Keeps

  case_accepting_error-Keeps : Keeps (case_accepting_error env action i st src type)
  unfolding case_accepting_error
  case_accepting_error-Keeps =
      if-Keeps (src ==ℤ net_fsm_action)
        (λ e.
          if-Keeps (type ==ℤ sock_action_accept) (λ e'. set_state-Keeps i accepting refl)
            λ e'. both-Keeps _ case_cancelling-Keeps)
        λ e. source-Keeps _ case_cancelling-Keeps

  accepting_fd-Keeps : Keeps (accepting_fd env action i st src type)
  unfolding accepting_fd
  accepting_fd-Keeps =
      if-Keeps (type ==ℤ worker_fd_in) (λ e. accepting_in-Keeps env i)
        λ e. both-Keeps _ case_accepting_error-Keeps

  case_accepting-Keeps : Keeps (case_accepting env action i st src type)
  unfolding case_accepting
  case_accepting-Keeps =
      if-Keeps (src ==ℤ net_fsm_action)
        (λ e.
          if-Keeps (type ==ℤ sock_action_done) (λ e'. set_state-Keeps i listening refl)
            λ e'.
              if-Keeps (type ==ℤ sock_action_cancel)
                (λ e''. then-Keeps (set_state-Keeps i cancelling refl) (execute-Keeps i _))
                λ e''. bad-Keeps _ accepting_fd-Keeps)
        λ e.
          if-Keeps (src ==ℤ sock_src_fd) (λ e'. accepting_fd-Keeps)
            λ e'. source-Keeps _ case_accepting_error-Keeps

  case_listening-Keeps : Keeps (case_listening env action i st src type)
  unfolding case_listening
  case_listening-Keeps =
      if-Keeps (src ==ℤ net_fsm_action)
        (λ e.
          if-Keeps (type ==ℤ sock_action_accept) (λ e'. set_state-Keeps i accepting refl)
            λ e'. both-Keeps _ case_accepting-Keeps)
        λ e. source-Keeps _ case_accepting-Keeps

  case_removing_fd-Keeps : Keeps (case_removing_fd env action i st src type)
  unfolding case_removing_fd
  case_removing_fd-Keeps =
      if-Keeps (src ==ℤ sock_src_task_stop)
        (λ e.
          if-Keeps (type ==ℤ worker_task_execute) (λ e'. drop_fd-Keeps env i) λ e'. emit-Keeps _)
        λ e.
          if-Keeps (src ==ℤ sock_src_fd) (λ e'. pure-Keeps tt)
            λ e'.
              if-Keeps (src ==ℤ net_fsm_action)
                (λ e''.
                  if-Keeps (type ==ℤ sock_action_error) (λ f. pure-Keeps tt)
                    λ f. bad-Keeps _ (emit-Keeps _))
                λ e''. emit-Keeps _

  active_action-Keeps : Keeps (active_action env action i st src type)
  unfolding active_action
  active_action-Keeps =
      if-Keeps (type ==ℤ sock_action_error)
        (λ e. then-Keeps (set_state-Keeps i removing_fd refl) (async_stop-Keeps i))
        λ e. both-Keeps _ case_removing_fd-Keeps

  case_active-Keeps : Keeps (case_active env action i st src type)
  unfolding case_active
  case_active-Keeps =
      if-Keeps (src ==ℤ sock_src_fd)
        (λ e.
          if-Keeps (type ==ℤ worker_fd_in) (λ e'. active_in-Keeps env i)
            λ e'.
              if-Keeps (type ==ℤ worker_fd_out) (λ e''. active_out-Keeps env i)
                λ e''.
                  if-Keeps (type ==ℤ worker_fd_err) (λ f. drop_fd-Keeps env i)
                    λ f. bad-Keeps _ active_action-Keeps)
        λ e.
          if-Keeps (src ==ℤ net_fsm_action) (λ e'. active_action-Keeps)
            λ e'. source-Keeps _ case_removing_fd-Keeps

  connecting_fd-Keeps : Keeps (connecting_fd env action i st src type)
  unfolding connecting_fd
  connecting_fd-Keeps =
      if-Keeps (type ==ℤ worker_fd_out) (λ e. connecting_out-Keeps env i)
        λ e.
          if-Keeps (type ==ℤ worker_fd_err) (λ e'. drop_fd-Keeps env i)
            λ e'. both-Keeps _ case_active-Keeps

  case_connecting-Keeps : Keeps (case_connecting env action i st src type)
  unfolding case_connecting
  case_connecting-Keeps =
      if-Keeps (src ==ℤ net_fsm_action)
        (λ e.
          if-Keeps (type ==ℤ sock_action_done)
            (λ e'.
              then-Keeps (set_state-Keeps i active refl)
                (then-Keeps (execute-Keeps i _) (raise-Keeps i _ _ _)))
            λ e'.
              if-Keeps (type ==ℤ sock_action_error)
                (λ e''.
                  Clears-Keeps i _ _ (close_socket-Clears env i)
                    λ n c. done_After i n _ c (raise-Keeps i _ _ _))
                λ e''. bad-Keeps _ connecting_fd-Keeps)
        λ e.
          if-Keeps (src ==ℤ sock_src_fd) (λ e'. connecting_fd-Keeps)
            λ e'. source-Keeps _ case_active-Keeps

  case_accepted-Keeps : Keeps (case_accepted env action i st src type)
  unfolding case_accepted
  case_accepted-Keeps =
      if-Keeps (src ==ℤ net_fsm_action)
        (λ e.
          if-Keeps (type ==ℤ sock_action_activate)
            (λ e'. then-Keeps (add_wfd-Keeps i) (set_state-Keeps i active refl))
            λ e'. both-Keeps _ case_connecting-Keeps)
        λ e. source-Keeps _ case_connecting-Keeps

  case_being_accepted-Keeps : Keeps (case_being_accepted env action i st src type)
  unfolding case_being_accepted
  case_being_accepted-Keeps =
      if-Keeps (src ==ℤ net_fsm_action)
        (λ e.
          if-Keeps (type ==ℤ sock_action_done)
            (λ e'. then-Keeps (set_state-Keeps i accepted refl) (raise-Keeps i _ _ _))
            λ e'. both-Keeps _ case_accepted-Keeps)
        λ e. source-Keeps _ case_accepted-Keeps

  case_starting-Keeps : Keeps (case_starting env action i st src type)
  unfolding case_starting
  case_starting-Keeps =
      if-Keeps (src ==ℤ net_fsm_action)
        (λ e.
          if-Keeps (type ==ℤ sock_action_listen) (λ e'. set_state-Keeps i listening refl)
            λ e'.
              if-Keeps (type ==ℤ sock_action_connect) (λ f. set_state-Keeps i connecting refl)
                λ f.
                  if-Keeps (type ==ℤ sock_action_being_accepted)
                    (λ g. set_state-Keeps i being_accepted refl)
                    λ g.
                      if-Keeps (type ==ℤ sock_action_started)
                        (λ h. then-Keeps (add_wfd-Keeps i) (set_state-Keeps i active refl))
                        λ h. both-Keeps _ case_being_accepted-Keeps)
        λ e. source-Keeps _ case_being_accepted-Keeps

  case_idle-Keeps : Keeps (case_idle env action i st src type)
  unfolding case_idle
  case_idle-Keeps =
      if-Keeps (src ==ℤ net_fsm_action)
        (λ e.
          if-Keeps (type ==ℤ net_fsm_start) (λ e'. set_state-Keeps i starting refl)
            λ e'. both-Keeps _ case_starting-Keeps)
        λ e. source-Keeps _ case_starting-Keeps

module _ (env : Env) (action : ℕ → ℤ → M (Unit {0})) (i : ℕ) (src type : ℤ)
    (acts : (src ==ℤ sock_src_task_stop) ≡ true → (j : ℕ) → Keeps (action j sock_action_done)) where
  dispatch-Keeps : (st : SockState) → Keeps (dispatch env action i st src type)
  unfolding dispatch
  dispatch-Keeps idle = case_idle-Keeps env action i idle src type acts
  dispatch-Keeps starting = case_starting-Keeps env action i starting src type acts
  dispatch-Keeps being_accepted =
      case_being_accepted-Keeps env action i being_accepted src type acts
  dispatch-Keeps accepted = case_accepted-Keeps env action i accepted src type acts
  dispatch-Keeps connecting = case_connecting-Keeps env action i connecting src type acts
  dispatch-Keeps active = case_active-Keeps env action i active src type acts
  dispatch-Keeps removing_fd = case_removing_fd-Keeps env action i removing_fd src type acts
  dispatch-Keeps done = pure-Keeps tt
  dispatch-Keeps listening = case_listening-Keeps env action i listening src type acts
  dispatch-Keeps accepting = case_accepting-Keeps env action i accepting src type acts
  dispatch-Keeps accepting_error =
      case_accepting_error-Keeps env action i accepting_error src type acts
  dispatch-Keeps cancelling = case_cancelling-Keeps env action i cancelling src type acts
  dispatch-Keeps stopping = case_default-Keeps env action i stopping src type acts
  dispatch-Keeps stopping_accept = case_default-Keeps env action i stopping_accept src type acts

  pub handler-Keeps : Keeps (handler env action i src type)
  unfolding handler
  handler-Keeps = bind-Keeps (internal_tasks-Keeps i src type) λ known.
      bind-Keeps (get-Keeps i)
        λ sock. if-Keeps known (λ e. pure-Keeps tt) λ e. dispatch-Keeps sock.state
