-- ===== src/Socket/Session.antt =====
-- A run of the program as a sequence of the calls of the sockets' methods by the user's thread and
-- of Feed by the worker, each with what the outside answers during it.
use klibmsg.Base.{ℕ, List, [], ◌∷◌, ℤ}
use klibmsg.Os.{Errno, Rc, Io}
use klibmsg.Message.{NetMsg}
use klibmsg.Net.{M, pure, ◌>>=◌, ◌>>◌}
use klibmsg.Socket.Ops.{Env}
use klibmsg.Socket.Feed.{feed}
use klibmsg.Socket.Api.{
  start, start_fd, stop, set_sock_opt, bind, listen, accept, activate, connect, async_send_msg,
}

pub data Call : Type 0 where
  call_feed : ℕ → ℤ → ℤ → Call
  call_start : ℕ → Io ℕ → Call
  call_start_fd : ℕ → ℕ → Call
  call_stop : ℕ → Call
  call_set_sock_opt : ℕ → Errno → Call
  call_bind : ℕ → Errno → Errno → Call
  call_listen : ℕ → Errno → Call
  call_accept : ℕ → ℕ → Call
  call_activate : ℕ → Call
  call_connect : ℕ → Errno → Call
  call_send : ℕ → NetMsg → Call

abbrev drop : M Rc → M (Unit {0})
drop m = do rc ← m; pure tt

unfoldable pub call : ℕ → Env → Call → M (Unit {0})
call fuel env (call_feed i src type) = feed fuel env i src type
call fuel env (call_start i made) = drop (start fuel env i made)
call fuel env (call_start_fd i fd) = start_fd fuel env i fd
call fuel env (call_stop i) = stop fuel env i
call fuel env (call_set_sock_opt i e) = drop (set_sock_opt i e)
call fuel env (call_bind i opt_error e) = drop (bind i opt_error e)
call fuel env (call_listen i e) = drop (listen fuel env i e)
call fuel env (call_accept i j) = accept fuel env i j
call fuel env (call_activate i) = activate fuel env i
call fuel env (call_connect i e) = connect fuel env i e
call fuel env (call_send i msg) = async_send_msg i msg

unfoldable pub serve : ℕ → List (Env × Call) → M (Unit {0})
serve fuel [] = pure tt
serve fuel ((env, c) ∷ calls) = do call fuel env c; serve fuel calls
