-- ===== src/Socket/Runs/Connect.antt =====
-- What Connect makes of a socket, by the result of `connect`; and what becomes of an action that the
-- state of a socket does not expect.
use klibmsg.Base.{
  ℕ, suc, ◌≡◌, refl, true, false, none, some, List, [], ◌∷◌, ℤ, if◌then◌else◌, ap, Bool-cases, inl,
  inr,
}
use klibmsg.Codes.{
  net_fsm_action, sock_action_connect, sock_action_done, sock_action_error, sock_action_cancel,
  sock_event_type_connected, sock_event_type_error,
}
use klibmsg.Os.{Errno, success}
use klibmsg.Net.{
  SockState, starting, being_accepted, connecting, active, done, stopping_accept, fsm_stopping,
  established, error, connecting_task, connected_task, sock_ptr, Sock, Act, close, signal,
  bad_state, M,
}
use klibmsg.Fsm.{raised, is_stopping, is_active}
use klibmsg.Socket.Ops.{Env, can_ignore, is_success}
use klibmsg.Socket.Cases.{dispatch, handler, case_starting, case_connecting}
use klibmsg.Socket.Shutdown.{stop_in, stopping_in, shutdown_handler, can_stop}
use klibmsg.Socket.Feed.{feed, action, action_by, is_positive}
use klibmsg.Socket.Api.{connect, is_in_progress, stop}
use klibmsg.Socket.Runs.{
  Does, next-Does, step-Does, then-Does, get-Does, modify-Does, emit-Does, check-Does, raise-Does,
  execute-Does, close_socket-Does, tasked,
}
use klibmsg.Socket.Runs.Stop.{internal_tasks_action, stop-Does, request-Does}

-- An action for a machine that is not stopping goes to the case of the state.
pub action-Does :
    (k : ℕ) (env : Env) (i : ℕ) (type : ℤ) (s s' : Sock) (l : List Act)
    → is_positive type ≡ true
    → is_stopping s.fsm_state ≡ false
    → Does i s (dispatch env (action_by (feed k env)) i s.state net_fsm_action type) tt s' l
    → Does i s (action (suc k) env i type) tt s' l
unfolding action action_by feed handler
action-Does k env i type s s' l t f p = step-Does (check-Does i s _ t) (
    next-Does _ (get-Does i s)
      (rw f (next-Does _ (internal_tasks_action i s type) (next-Does _ (get-Does i s) p))))

module _ (env : Env) (act : ℕ → ℤ → M (Unit {0})) (i : ℕ) (s : Sock) where
  to_connecting :
      (st : SockState)
      → st ≡ starting
      → Does i s
          (dispatch env act i st net_fsm_action sock_action_connect)
          tt
          (record s { state = connecting })
          []
  unfolding dispatch case_starting
  to_connecting st e = rw e (modify-Does i s _ (refl, λ k h. h))

  to_active :
      Does i s
        (dispatch env act i connecting net_fsm_action sock_action_done)
        tt
        (raised i established sock_event_type_connected
          (sock_ptr i)
          (tasked i (record s { state = active }) connected_task))
        (signal (tasked i (record s { state = active }) connected_task).worker ∷ [])
  unfolding dispatch case_connecting
  to_active =
      step-Does (modify-Does i s _ (refl, λ k h. h))
        (then-Does (execute-Does i _ connected_task) (raise-Does i _ _ _ _))

  to_done :
      (fd : ℕ)
      → s.s ≡ some fd
      → can_ignore env.close_errno ≡ true
      → Does i s
          (dispatch env act i connecting net_fsm_action sock_action_error)
          tt
          (raised i error sock_event_type_error (sock_ptr i) (record s { s = none; state = done }))
          (close fd ∷ [])
  unfolding dispatch case_connecting
  to_done fd o c =
      then-Does (close_socket-Does i s env fd o c)
        (step-Does (modify-Does i _ _ (refl, λ k h. h)) (raise-Does i _ _ _ _))

-- The socket behind Connect, and what was asked for, by the error of `connect`.
abbrev pub connected : ℕ → Errno → ℕ → Sock → Sock × List Act
connected i e fd s =
    if is_success e
    then (
      raised i established sock_event_type_connected (sock_ptr i)
          (tasked i (record s { state = active }) connected_task),
      signal (tasked i (record s { state = active }) connected_task).worker ∷ [],
    )
    else if is_in_progress e
    then (
      tasked i (record s { state = connecting }) connecting_task,
      signal (tasked i (record s { state = connecting }) connecting_task).worker ∷ [],
    )
    else (
      raised i error sock_event_type_error (sock_ptr i)
          (record s { errnum = e; s = none; state = done }),
      close fd ∷ [],
    )

-- Connect of a socket that is starting, whose machine is not stopping, and where `close` fails in no
-- other way than NetCloseFd lets pass. If `connect` succeeds, the socket is active, the task of a
-- connection is marked as queued, the worker is signalled, and the event of the connection is raised;
-- if it is in progress, the socket is connecting, the task for that is marked as queued and the worker
-- is signalled; on another error the descriptor is closed, the socket is done and remembers the error,
-- and the error is raised. A task that is marked now and was not marked before is in the queue of the
-- socket's worker, and no task leaves a queue. No other socket changes.
pub connect-Does :
    (k : ℕ) (env : Env) (i fd : ℕ) (e : Errno) (s : Sock)
    → s.state ≡ starting
    → is_stopping s.fsm_state ≡ false
    → s.s ≡ some fd
    → can_ignore env.close_errno ≡ true
    → Does i s (connect (suc k) env i e) tt (connected i e fd s).0 (connected i e fd s).1
unfolding connect
connect-Does k env i fd e s st f o c =
    let act = action_by (feed k env) in
    let s1 : Sock = record s { state = connecting } in
    step-Does
      (action-Does k env i sock_action_connect s s1 [] refl f
        (to_connecting env act i s s.state st))
      (elim (Bool-cases (is_success e)) [
        | inl good ↦
            rw good (action-Does k env i sock_action_done s1 _ _ refl f (to_active env act i s1))
        | inr bad ↦ elim (Bool-cases (is_in_progress e)) [
          | inl later ↦ rw (bad, later) (execute-Does i s1 connecting_task)
          | inr hard ↦
              rw (bad, hard)
                (step-Does (modify-Does i s1 _ (refl, λ k h. h)) (
                  action-Does k env i sock_action_error (record s1 { errnum = e }) _ _ refl f
                    (to_done env act i (record s1 { errnum = e }) fd o c)))
        ]
      ])

-- The cancel action, fed to a socket that is being accepted and stops.
refused-Does :
    (env : Env) (i : ℕ) (s : Sock) (st : SockState)
    → st ≡ being_accepted
    → Does i s
        (stopping_in env i st net_fsm_action sock_action_cancel)
        tt
        s
        (bad_state being_accepted net_fsm_action sock_action_cancel ∷ [])
unfolding stopping_in
refused-Does env i s st e = rw e (emit-Does i s _)

cancel-Does :
    (k : ℕ) (env : Env) (i : ℕ) (s : Sock)
    → is_stopping s.fsm_state ≡ true
    → s.state ≡ being_accepted
    → Does i s
        (action (suc k) env i sock_action_cancel)
        tt
        s
        (bad_state being_accepted net_fsm_action sock_action_cancel ∷ [])
unfolding action action_by feed shutdown_handler
cancel-Does k env i s f e = step-Does (check-Does i s true refl) (
    next-Does _ (get-Does i s) (
      rw f (
        next-Does _ (internal_tasks_action i s sock_action_cancel)
          (next-Does _ (get-Does i s) (refused-Does env i s s.state e)))))

stop_in-accepted :
    (k : ℕ) (env : Env) (i : ℕ) (s : Sock) (st : SockState)
    → is_stopping s.fsm_state ≡ true
    → s.state ≡ being_accepted
    → st ≡ being_accepted
    → Does i s
        (stop_in env (action (suc k) env) i st)
        tt
        (record s { state = stopping_accept })
        (bad_state being_accepted net_fsm_action sock_action_cancel ∷ [])
unfolding stop_in
stop_in-accepted k env i s st f e e' =
    rw e' (then-Does (cancel-Does k env i s f e) (modify-Does i s _ (refl, λ k h. h)))

-- Stop of an active machine whose socket is being accepted: it feeds the cancel action to that
-- socket itself, which refuses it as a bad state. The socket waits in the state stopping-accept, its
-- machine is stopping, and nothing is asked of the worker. No other socket changes.
pub stop_being_accepted-Does :
    (k : ℕ) (env : Env) (i : ℕ) (s : Sock)
    → is_active s.fsm_state ≡ true
    → s.state ≡ being_accepted
    → Does i s
        (stop (suc k) env i)
        tt
        (record s { state = stopping_accept; fsm_state = fsm_stopping; errnum = success })
        (bad_state being_accepted net_fsm_action sock_action_cancel ∷ [])
stop_being_accepted-Does k env i s a e =
    let s1 : Sock = record s { fsm_state = fsm_stopping } in
    stop-Does (suc k) env i s _ _ a (
      request-Does env (action (suc k) env) i s1 _ _ (ap can_stop e)
        (stop_in-accepted k env i (record s1 { errnum = success }) s.state refl e e))
