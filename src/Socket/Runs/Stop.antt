-- ===== src/Socket/Runs/Stop.antt =====
-- What Stop makes of a socket, by its state.
use klibmsg.Base.{ℕ, ◌≡◌, refl, Bool, true, false, none, some, List, [], ◌∷◌, ℤ}
use klibmsg.Codes.{net_fsm_action, net_fsm_stop, sock_event_type_stopped}
use klibmsg.Os.{success}
use klibmsg.Net.{
  SockState, idle, starting, being_accepted, accepted, connecting, active, done, removing_fd,
  listening, accepting, cancelling, stopping, stopping_accept, accepting_error, fsm_idle,
  fsm_stopping, stopped, no_ptr, Sock, Act, close, M,
}
use klibmsg.Fsm.{raised, fsm_stopped, is_stopping, is_active}
use klibmsg.Socket.Ops.{Env, internal_tasks, can_ignore}
use klibmsg.Socket.Shutdown.{finish2, finish1, stop_in, can_stop, shutdown_handler}
use klibmsg.Socket.Feed.{action, fsm_stop}
use klibmsg.Socket.Api.{stop}
use klibmsg.Socket.Runs.{
  Does, next-Does, step-Does, then-Does, pure-Does, get-Does, modify-Does, check-Does, raise-Does,
  close_socket-Does,
}

-- The states from which a socket stops at once.
abbrev pub is_plain : SockState → Bool
is_plain starting = true
is_plain accepted = true
is_plain accepting_error = true
is_plain listening = true
is_plain _ = false

-- A socket that is stopped: idle, with no descriptor, and its event for the owner raised.
abbrev pub ended : ℕ → Sock → Sock
ended i s =
    record (raised i stopped sock_event_type_stopped no_ptr (record s { s = none; state = idle })) {
      fsm_state = fsm_idle;
    }

pub finish2-Does :
    (i : ℕ) (s : Sock)
    → is_stopping s.fsm_state ≡ true
    → Does i s
        (finish2 i)
        tt
        (record (raised i stopped sock_event_type_stopped no_ptr (record s { state = idle })) {
          fsm_state = fsm_idle;
        })
        []
unfolding finish2 fsm_stopped
finish2-Does i s h = step-Does (modify-Does i s _ (refl, λ k h. h)) (
    next-Does _ (get-Does i _) (
      step-Does (check-Does i _ _ h)
        (step-Does (raise-Does i _ _ _ _) (modify-Does i _ _ (refl, λ k h. h)))))

pub internal_tasks_action :
    (i : ℕ) (s : Sock) (type : ℤ) → Does i s (internal_tasks i net_fsm_action type) false s []
unfolding internal_tasks
internal_tasks_action i s type = pure-Does i s false

stop_in_plain :
    (env : Env) (action : ℕ → ℤ → M (Unit {0})) (i : ℕ) (st : SockState)
    → is_plain st ≡ true
    → (stop_in env action i st ≡ finish1 env i) × (can_stop st ≡ true)
unfolding stop_in
stop_in_plain env action i starting h = (refl, refl)
stop_in_plain env action i accepted h = (refl, refl)
stop_in_plain env action i accepting_error h = (refl, refl)
stop_in_plain env action i listening h = (refl, refl)
stop_in_plain env action i idle h = cc
stop_in_plain env action i done h = cc
stop_in_plain env action i being_accepted h = cc
stop_in_plain env action i connecting h = cc
stop_in_plain env action i active h = cc
stop_in_plain env action i removing_fd h = cc
stop_in_plain env action i accepting h = cc
stop_in_plain env action i cancelling h = cc
stop_in_plain env action i stopping h = cc
stop_in_plain env action i stopping_accept h = cc

-- The request to stop, up to the state.
pub request-Does :
    (env : Env) (action : ℕ → ℤ → M (Unit {0})) (i : ℕ) (s s' : Sock) (l : List Act)
    → can_stop s.state ≡ true
    → Does i (record s { errnum = success }) (stop_in env action i s.state) tt s' l
    → Does i s (shutdown_handler env action i net_fsm_action net_fsm_stop) tt s' l
unfolding shutdown_handler
request-Does env action i s s' l c p = next-Does _ (internal_tasks_action i s net_fsm_stop) (
    next-Does _ (get-Does i s)
      (step-Does (check-Does i s _ c) (step-Does (modify-Does i s _ (refl, λ k h. h)) p)))

-- Stop up to the request.
pub stop-Does :
    (fuel : ℕ) (env : Env) (i : ℕ) (s s' : Sock) (l : List Act)
    → is_active s.fsm_state ≡ true
    → Does i
        (record s { fsm_state = fsm_stopping })
        (shutdown_handler env (action fuel env) i net_fsm_action net_fsm_stop)
        tt
        s'
        l
    → Does i s (stop fuel env i) tt s' l
unfolding stop fsm_stop
stop-Does fuel env i s s' l h p =
    next-Does _ (get-Does i s) (rw h (step-Does (modify-Does i s _ (refl, λ k h. h)) p))

-- Stop of an active machine whose socket is starting, accepted, listening or in an accepting error,
-- and where `close` fails in no other way than NetCloseFd lets pass: its descriptor is closed, it
-- is idle with no descriptor and no error number, its machine is idle, and `stopped_` is raised.
-- No other socket changes.
pub stop_plain-Does :
    (fuel : ℕ) (env : Env) (i fd : ℕ) (s : Sock)
    → is_active s.fsm_state ≡ true
    → is_plain s.state ≡ true
    → s.s ≡ some fd
    → can_ignore env.close_errno ≡ true
    → Does i s
        (stop fuel env i)
        tt
        (ended i (record s { errnum = success; fsm_state = fsm_stopping }))
        (close fd ∷ [])
unfolding finish1
stop_plain-Does fuel env i fd s a h o c =
    let s1 : Sock = record s { fsm_state = fsm_stopping } in
    let (plain, can) = stop_in_plain env (action fuel env) i s.state h in
    stop-Does fuel env i s _ _ a (
      request-Does env (action fuel env) i s1 _ _ can (
        rw plain (
          then-Does (close_socket-Does i (record s1 { errnum = success }) env fd o c)
            (finish2-Does i (record s1 { errnum = success; s = none }) refl))))
