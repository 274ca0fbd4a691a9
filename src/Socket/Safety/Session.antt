-- ===== src/Socket/Safety/Session.antt =====
-- The methods for the user's thread are safe, and so is every sequence of calls.
use klibmsg.Base.{refl, ℕ, suc, List, [], ◌∷◌}
use klibmsg.Codes.{
  sock_action_accept, sock_action_being_accepted, sock_action_listen, sock_action_connect,
  sock_action_activate, sock_action_done, sock_action_error, sock_action_started,
}
use klibmsg.Os.{Errno, Rc, rc_ok, rc_err, Io, moved, failed}
use klibmsg.Message.{NetMsg}
use klibmsg.Net.{connecting_task, accept_task, send_task, Net, M, pure, ◌>>=◌}
use klibmsg.Socket.Ops.{Env, is_success}
use klibmsg.Socket.Feed.{is_idle}
use klibmsg.Socket.Api.{
  start, start_fd, stop, set_sock_opt, bind, listen, accept, activate, connect, async_send_msg,
  is_in_progress,
}
use klibmsg.Socket.Session.{
  Call, call_feed, call_start, call_start_fd, call_stop, call_set_sock_opt, call_bind, call_listen,
  call_accept, call_activate, call_connect, call_send, call, serve,
}
use klibmsg.Socket.Safety.{
  After, Keeps, bind-Keeps, then-Keeps, pure-Keeps, get-Keeps, check-Keeps, if-Keeps,
  modify-Keeps_same,
}
use klibmsg.Socket.Safety.Steps.{execute-Keeps, init_from_fd-Keeps}
use klibmsg.Socket.Safety.Feed.{feed-Keeps, action-Keeps, fsm_start-Keeps, fsm_stop-Keeps}

module _ (k : ℕ) (env : Env) (i : ℕ) where
  pub start-Keeps : (made : Io ℕ) → Keeps (start (suc (suc k)) env i made)
  unfolding start
  start-Keeps (failed e) = pure-Keeps (rc_err e)
  start-Keeps (moved fd) =
      then-Keeps (init_from_fd-Keeps env i fd)
        (then-Keeps (fsm_start-Keeps k env i) (pure-Keeps rc_ok))

  pub start_fd-Keeps : (fd : ℕ) → Keeps (start_fd (suc (suc k)) env i fd)
  unfolding start_fd
  start_fd-Keeps fd =
      then-Keeps (init_from_fd-Keeps env i fd)
        (then-Keeps (fsm_start-Keeps k env i) (action-Keeps k env i sock_action_started))

  pub listen-Keeps : (e : Errno) → Keeps (listen (suc (suc k)) env i e)
  unfolding listen
  listen-Keeps e = bind-Keeps (get-Keeps i) λ sock. then-Keeps (check-Keeps _) (
      if-Keeps (is_success e)
        (λ h. then-Keeps (action-Keeps k env i sock_action_listen) (pure-Keeps rc_ok))
        λ h. pure-Keeps (rc_err e))

  pub accept-Keeps : (j : ℕ) → Keeps (accept (suc (suc k)) env i j)
  unfolding accept
  accept-Keeps j = bind-Keeps (get-Keeps i) λ sock.
      then-Keeps
        (if-Keeps (is_idle sock)
          (λ h.
            then-Keeps (fsm_start-Keeps k env i) (action-Keeps k env i sock_action_being_accepted))
          λ h. pure-Keeps tt)
        (then-Keeps (action-Keeps k env j sock_action_accept) (
          bind-Keeps (get-Keeps i) λ self. then-Keeps (check-Keeps _) (
            then-Keeps (modify-Keeps_same i _ (λ s. refl) (λ s h. h)) (
              bind-Keeps (get-Keeps j) λ listener. then-Keeps (check-Keeps _) (
                then-Keeps (modify-Keeps_same j _ (λ s. refl) (λ s h. h))
                  (execute-Keeps j accept_task))))))

  pub connect-Keeps : (e : Errno) → Keeps (connect (suc (suc k)) env i e)
  unfolding connect
  connect-Keeps e = then-Keeps (action-Keeps k env i sock_action_connect) (
      if-Keeps (is_success e) (λ h. action-Keeps k env i sock_action_done)
        λ h.
          if-Keeps (is_in_progress e) (λ h'. execute-Keeps i connecting_task)
            λ h'.
              then-Keeps (modify-Keeps_same i _ (λ s. refl) (λ s h. h))
                (action-Keeps k env i sock_action_error))

set_sock_opt-Keeps : (i : ℕ) (e : Errno) → Keeps (set_sock_opt i e)
unfolding set_sock_opt
set_sock_opt-Keeps i e = bind-Keeps (get-Keeps i) λ sock. then-Keeps (check-Keeps _) (pure-Keeps _)

pub bind-Keeps_api : (i : ℕ) (e e' : Errno) → Keeps (bind i e e')
unfolding bind
bind-Keeps_api i e e' =
    bind-Keeps (get-Keeps i)
      λ sock. then-Keeps (check-Keeps _) (then-Keeps (check-Keeps _) (pure-Keeps _))

pub async_send_msg-Keeps : (i : ℕ) (msg : NetMsg) → Keeps (async_send_msg i msg)
unfolding async_send_msg
async_send_msg-Keeps i msg =
    then-Keeps (modify-Keeps_same i _ (λ s. refl) (λ s h. h)) (execute-Keeps i send_task)

drop-Keeps : {m : M Rc} → Keeps m → Keeps (m >>= λ rc. pure tt)
drop-Keeps p = bind-Keeps p λ rc. pure-Keeps tt

pub call-Keeps : (k : ℕ) (env : Env) (c : Call) → Keeps (call (suc (suc k)) env c)
unfolding call stop activate
call-Keeps k env (call_feed i src type) = feed-Keeps k env i src type
call-Keeps k env (call_start i made) = drop-Keeps (start-Keeps k env i made)
call-Keeps k env (call_start_fd i fd) = start_fd-Keeps k env i fd
call-Keeps k env (call_stop i) = fsm_stop-Keeps k env i
call-Keeps k env (call_set_sock_opt i e) = drop-Keeps (set_sock_opt-Keeps i e)
call-Keeps k env (call_bind i e e') = drop-Keeps (bind-Keeps_api i e e')
call-Keeps k env (call_listen i e) = drop-Keeps (listen-Keeps k env i e)
call-Keeps k env (call_accept i j) = accept-Keeps k env i j
call-Keeps k env (call_activate i) = action-Keeps k env i sock_action_activate
call-Keeps k env (call_connect i e) = connect-Keeps k env i e
call-Keeps k env (call_send i msg) = async_send_msg-Keeps i msg

serve-Keeps : (k : ℕ) (calls : List (Env × Call)) → Keeps (serve (suc (suc k)) calls)
unfolding serve
serve-Keeps k [] = pure-Keeps tt
serve-Keeps k ((env, c) ∷ calls) = then-Keeps (call-Keeps k env c) (serve-Keeps k calls)

-- Whatever sequence of calls the program makes and whatever the outside answers, a fuel of two is
-- enough for every one of them. If no CHECK fails, then for every socket that the device has made:
-- if it had no descriptor when it was done, that is still so; the descriptor that it had before is
-- still its own or there was a `close` of it; and each descriptor that the log told was closed is
-- still so told. A worker that was signalled if it had tasks is so afterwards too, and a callback
-- that waited for its data or for PollCompletionQueue, or had been called, still waits or has been.
pub serve-Safe :
    (k : ℕ) (calls : List (Env × Call)) (n : Net) → After n (serve (suc (suc k)) calls n)
serve-Safe k calls n = (serve-Keeps k calls).holds n
