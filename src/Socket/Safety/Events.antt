-- ===== src/Socket/Safety/Events.antt =====
-- What the cases of the handler do on an event is safe.
use klibmsg.Base.{ℕ, ◌≡◌, refl, Bool, true, false, Option, none, some, ltb, ap}
use klibmsg.Os.{Errno, econnaborted, eagain, econnreset, Rc, rc_ok, rc_err, Io, moved, failed}
use klibmsg.Net.{SockState, accepted, active, done, listening, accepting_error, rm_fd, reset_out}
use klibmsg.Socket.Ops.{Env, set_state, get_err, is_success, extract_net_msg}
use klibmsg.Socket.Events.{
  async_stop, check_reset, after_recv, after_send, active_out, active_in, drop_fd, connecting_out,
  lacks_resources, take_connection, accept_error, accept_failed, connect_peer, accept_result,
  accepting_in,
}
use klibmsg.Socket.Safety.{
  Keeps, bind-Keeps, then-Keeps, pure-Keeps, get-Keeps, check-Keeps, if-Keeps, emit-Keeps,
  modify-Keeps_same, Clears-Keeps, done_After,
}
use klibmsg.Socket.Safety.Steps.{
  raise-Keeps, raise_to-Keeps, execute-Keeps, close_socket-Clears, close_checked-Clears,
  init_from_fd-Keeps, dequeue-Keeps, sock_recv_raw-Keeps, sock_send_raw-Keeps,
}

abbrev is_done : SockState → Bool
is_done done = true
is_done _ = false

-- A state other than done.
pub set_state-Keeps : (i : ℕ) (st : SockState) → is_done st ≡ false → Keeps (set_state i st)
set_state-Keeps i st h = modify-Keeps_same i _ (λ s. refl) (λ s e. cc (ap is_done e))

pub async_stop-Keeps : (i : ℕ) → Keeps (async_stop i)
unfolding async_stop
async_stop-Keeps i = then-Keeps (execute-Keeps i _) (raise-Keeps i _ _ _)

pub check_reset-Keeps : (rc : Rc) → Keeps (check_reset rc)
check_reset-Keeps (rc_err eagain) = pure-Keeps tt
check_reset-Keeps (rc_err econnreset) = pure-Keeps tt
check_reset-Keeps _ = check-Keeps false

pub after_recv-Keeps : (env : Env) (i : ℕ) (rc : Rc) → Keeps (after_recv env i rc)
unfolding after_recv extract_net_msg
after_recv-Keeps env i rc_ok =
    bind-Keeps (bind-Keeps (get-Keeps i) λ sock. pure-Keeps _) λ msg. raise-Keeps i _ _ _
after_recv-Keeps env i (rc_err e) = check_reset-Keeps (rc_err e)

pub after_send-Keeps : (i : ℕ) (rc : Rc) → Keeps (after_send i rc)
unfolding after_send
after_send-Keeps i rc_ok =
    then-Keeps (modify-Keeps_same i _ (λ s. refl) (λ s h. h)) (raise-Keeps i _ _ _)
after_send-Keeps i (rc_err e) = check_reset-Keeps (rc_err e)

pub active_in-Keeps : (env : Env) (i : ℕ) → Keeps (active_in env i)
unfolding active_in
active_in-Keeps env i = bind-Keeps (sock_recv_raw-Keeps env i) λ rc. after_recv-Keeps env i rc

pub active_out-Keeps : (env : Env) (i : ℕ) → Keeps (active_out env i)
unfolding active_out
active_out-Keeps env i =
    let send = bind-Keeps (sock_send_raw-Keeps env i) λ rc. after_send-Keeps i rc in
    bind-Keeps (get-Keeps i) λ sock.
      if-Keeps sock.is_out_buf_busy (λ e. send)
        λ e. bind-Keeps (dequeue-Keeps env i) λ found.
          if-Keeps found (λ e'. then-Keeps (modify-Keeps_same i _ (λ s. refl) (λ s h. h)) send)
            λ e'. emit-Keeps (reset_out i)

pub drop_fd-Keeps : (env : Env) (i : ℕ) → Keeps (drop_fd env i)
unfolding drop_fd
drop_fd-Keeps env i =
    then-Keeps (emit-Keeps (rm_fd i)) (
      Clears-Keeps i _ _ (close_socket-Clears env i)
        λ n e. done_After i n _ e (raise-Keeps i _ _ _))

pub connecting_out-Keeps : (env : Env) (i : ℕ) → Keeps (connecting_out env i)
unfolding connecting_out
connecting_out-Keeps env i = then-Keeps (emit-Keeps (reset_out i)) (
    then-Keeps (set_state-Keeps i active refl) (
      if-Keeps (is_success (get_err env)) (λ e. raise-Keeps i _ _ _)
        λ e. then-Keeps (modify-Keeps_same i _ (λ s. refl) (λ s h. h)) (
          then-Keeps (emit-Keeps (rm_fd i)) (
            Clears-Keeps i _ _ (close_checked-Clears env i)
              λ n c. done_After i n _ c (raise-Keeps i _ _ _)))))

pub accept_error-Keeps : (i : ℕ) (e : Errno) → Keeps (accept_error i e)
unfolding accept_error
accept_error-Keeps i e =
    if-Keeps (lacks_resources e)
      (λ h. then-Keeps (modify-Keeps_same i _ (λ s. refl) (λ s h. h)) (
        then-Keeps (set_state-Keeps i accepting_error refl)
          (then-Keeps (emit-Keeps (rm_fd i)) (raise-Keeps i _ _ _))))
      λ h. check-Keeps false

pub accept_failed-Keeps : (i : ℕ) (e : Errno) → Keeps (accept_failed i e)
unfolding accept_failed
accept_failed-Keeps i econnaborted = pure-Keeps tt
accept_failed-Keeps i _ = accept_error-Keeps i _

pub take_connection-Keeps : (env : Env) (i j fd : ℕ) → Keeps (take_connection env i j fd)
unfolding take_connection
take_connection-Keeps env i j fd = then-Keeps (init_from_fd-Keeps env j fd) (
    then-Keeps (set_state-Keeps j accepted refl) (
      then-Keeps (raise_to-Keeps i j _ _ _ _) (
        then-Keeps (modify-Keeps_same j _ (λ s. refl) (λ s h. h)) (
          then-Keeps (modify-Keeps_same i _ (λ s. refl) (λ s h. h))
            (then-Keeps (emit-Keeps (rm_fd i)) (set_state-Keeps i listening refl))))))

pub connect_peer-Keeps : (env : Env) (i fd : ℕ) (o : Option ℕ) → Keeps (connect_peer env i fd o)
connect_peer-Keeps env i fd none = check-Keeps false
connect_peer-Keeps env i fd (some j) = take_connection-Keeps env i j fd

pub accept_result-Keeps : (env : Env) (i : ℕ) (r : Io ℕ) → Keeps (accept_result env i r)
unfolding accept_result
accept_result-Keeps env i (failed e) = accept_failed-Keeps i e
accept_result-Keeps env i (moved fd) =
    then-Keeps (check-Keeps (ltb 0 fd))
      (bind-Keeps (get-Keeps i) λ sock. connect_peer-Keeps env i fd sock.asock)

pub accepting_in-Keeps : (env : Env) (i : ℕ) → Keeps (accepting_in env i)
unfolding accepting_in
accepting_in-Keeps env i = accept_result-Keeps env i env.accept4
