-- ===== src/Socket/Runs/Busy.antt =====
-- What Stop makes of a socket that stops by a task of its worker, and what the task does.
use klibmsg.Base.{
  ℕ, suc, ◌≡◌, refl, Bool, true, false, none, some, [], ◌∷◌, ℤ, ap, ◌∙◌, Bool-cases, inl, inr,
}
use klibmsg.Codes.{sock_src_task_stop, sock_event_type_shutdown, worker_task_execute}
use klibmsg.Os.{success}
use klibmsg.Net.{
  SockState, idle, starting, being_accepted, accepted, connecting, active, done, removing_fd,
  listening, accepting, cancelling, stopping, stopping_accept, accepting_error, fsm_stopping, error,
  stop_task, sock_ptr, Sock, close, signal, rm_fd, M, ◌>>◌, modify,
}
use klibmsg.Fsm.{raised, is_stopping, is_active}
use klibmsg.Fsm.Laws.{raised-SameButEvents}
use klibmsg.Socket.Ops.{Env, internal_tasks, can_ignore}
use klibmsg.Socket.Events.{async_stop}
use klibmsg.Socket.Shutdown.{finish1, stop_in, stopping_in, can_stop, shutdown_handler}
use klibmsg.Socket.Feed.{feed, action}
use klibmsg.Socket.Api.{stop}
use klibmsg.Socket.Runs.{
  Does, next-Does, step-Does, then-Does, pure-Does, get-Does, modify-Does, emit-Does, check-Does,
  raise-Does, execute-Does, close_socket-Does, tasked,
}
use klibmsg.Socket.Runs.Stop.{ended, finish2-Does, stop-Does, request-Does}

-- The states from which a socket stops by a task of its worker.
abbrev pub is_busy : SockState → Bool
is_busy connecting = true
is_busy active = true
is_busy _ = false

-- A socket that waits for the task to stop it.
abbrev pub waiting : ℕ → Sock → Sock
waiting i s =
    record (raised i error sock_event_type_shutdown (sock_ptr i)
      (tasked i (record s { fsm_state = fsm_stopping; errnum = success }) stop_task)) {
        state = stopping;
      }

stop_in_busy :
    (env : Env) (action : ℕ → ℤ → M (Unit {0})) (i : ℕ) (st : SockState)
    → is_busy st ≡ true
    → (stop_in env action i st ≡ (async_stop i >> modify i (λ s. record s { state = stopping })))
      × (can_stop st ≡ true)
unfolding stop_in
stop_in_busy env action i connecting h = (refl, refl)
stop_in_busy env action i active h = (refl, refl)
stop_in_busy env action i starting h = cc
stop_in_busy env action i accepted h = cc
stop_in_busy env action i accepting_error h = cc
stop_in_busy env action i listening h = cc
stop_in_busy env action i idle h = cc
stop_in_busy env action i done h = cc
stop_in_busy env action i being_accepted h = cc
stop_in_busy env action i removing_fd h = cc
stop_in_busy env action i accepting h = cc
stop_in_busy env action i cancelling h = cc
stop_in_busy env action i stopping h = cc
stop_in_busy env action i stopping_accept h = cc

async_stop-Does :
    (i : ℕ) (s : Sock)
    → Does i s
        (async_stop i)
        tt
        (raised i error sock_event_type_shutdown (sock_ptr i) (tasked i s stop_task))
        (signal (tasked i s stop_task).worker ∷ [])
unfolding async_stop
async_stop-Does i s = then-Does (execute-Does i s stop_task) (raise-Does i _ _ _ _)

busy-Does :
    (fuel : ℕ) (env : Env) (i : ℕ) (s : Sock)
    → is_active s.fsm_state ≡ true
    → is_busy s.state ≡ true
    → Does i s (stop fuel env i) tt (waiting i s) (
        signal (tasked i (record s { fsm_state = fsm_stopping; errnum = success }) stop_task).worker
        ∷ [])
busy-Does fuel env i s a h =
    let s1 : Sock = record s { fsm_state = fsm_stopping } in
    let (busy, can) = stop_in_busy env (action fuel env) i s.state h in
    stop-Does fuel env i s _ _ a (
      request-Does env (action fuel env) i s1 _ _ can (
        rw busy (
          then-Does (async_stop-Does i (record s1 { errnum = success }))
            (modify-Does i _ _ (refl, λ k h. h)))))

stopping-Does :
    (env : Env) (i fd : ℕ) (s : Sock) (st : SockState)
    → st ≡ stopping
    → is_stopping s.fsm_state ≡ true
    → s.s ≡ some fd
    → can_ignore env.close_errno ≡ true
    → Does i s
        (stopping_in env i st sock_src_task_stop worker_task_execute)
        tt
        (ended i s)
        (close fd ∷ rm_fd i ∷ [])
unfolding stopping_in finish1
stopping-Does env i fd s st e f o c = rw e (
    step-Does (check-Does i s true refl) (
      then-Does (emit-Does i s (rm_fd i))
        (then-Does (close_socket-Does i s env fd o c) (finish2-Does i (record s { s = none }) f))))

-- The task, in a socket that waits for it.
task-Does :
    (k : ℕ) (env : Env) (i fd : ℕ) (s : Sock)
    → is_stopping s.fsm_state ≡ true
    → s.state ≡ stopping
    → s.s ≡ some fd
    → can_ignore env.close_errno ≡ true
    → Does i s
        (feed (suc k) env i sock_src_task_stop worker_task_execute)
        tt
        (ended i s)
        (close fd ∷ rm_fd i ∷ [])
unfolding feed shutdown_handler internal_tasks finish1
task-Does k env i fd s f st o c = next-Does _ (get-Does i s) (
    rw f (
      next-Does _ (pure-Does i s false)
        (next-Does _ (get-Does i s) (stopping-Does env i fd s s.state st f o c))))

tasked_same :
    (i : ℕ) (s : Sock)
    → ((tasked i s stop_task).fsm_state ≡ s.fsm_state) × ((tasked i s stop_task).s ≡ s.s)
tasked_same i s = elim (Bool-cases (s.task_queued stop_task)) [
  | inl old ↦ rw old (refl, refl)
  | inr new ↦ rw new (refl, refl)
]

-- Stop of an active machine whose socket is connecting or active, and then the task that it gave to
-- the worker, where `close` fails in no other way than NetCloseFd lets pass: the worker is woken up,
-- the descriptor leaves the poller and is closed, in that order, and the socket and its machine are
-- idle, with no descriptor, and with the events of the shutdown and of the stop raised. No other
-- socket changes.
pub stop_busy-Does :
    (fuel k : ℕ) (env : Env) (i fd : ℕ) (s : Sock)
    → is_active s.fsm_state ≡ true
    → is_busy s.state ≡ true
    → s.s ≡ some fd
    → can_ignore env.close_errno ≡ true
    → Does i s
        (stop fuel env i >> feed (suc k) env i sock_src_task_stop worker_task_execute)
        tt
        (ended i (waiting i s))
        (close fd
          ∷ rm_fd i
          ∷ signal
              (tasked i (record s { fsm_state = fsm_stopping; errnum = success }) stop_task).worker
          ∷ [])
stop_busy-Does fuel k env i fd s a h o c =
    let s1 : Sock = record s { fsm_state = fsm_stopping; errnum = success } in
    let t = tasked_same i s1 in
    let r =
      raised-SameButEvents i error sock_event_type_shutdown (sock_ptr i) (tasked i s1 stop_task) in
    then-Does (busy-Does fuel env i s a h) (
      task-Does k env i fd (waiting i s) (ap is_stopping (r.fsm_state ∙ t.0)) refl (r.fd ∙ t.1 ∙ o)
        c)
