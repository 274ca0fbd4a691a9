-- ===== src/Worker/Deeds.antt =====
-- Messages given to AsyncSendMsg, the sending task that a worker takes from its queue, and events of
-- the descriptor, in any order (socket.cpp, worker.cpp).
use klibmsg.Base.{ℕ, suc, ltb, false, List, [], ◌∷◌, if◌then◌else◌}
use klibmsg.Codes.{sock_src_fd, worker_fd_out, worker_task_execute}
use klibmsg.Message.{NetMsg}
use klibmsg.Net.{send_task, ok, M, pure, change, at, ◌>>◌, modify}
use klibmsg.Socket.Ops.{Env}
use klibmsg.Socket.Feed.{feed}
use klibmsg.Socket.Api.{async_send_msg}
use klibmsg.Worker.{set_task, task_src, has_task, without_task, take_and_hold}

pub data Deed : Type 0 where
  post : NetMsg → Deed
  take_all : Deed
  work ready : Env → Deed

-- The poller tells of the event descriptor only where its count is not 0.
unfoldable pub take_signalled : ℕ → M (Unit {0})
take_signalled w n = if ltb 0 (n.efd_count w) then take_and_hold w n else ok tt n

-- The sending task of socket `i`, if the worker has it among those that it took.
unfoldable pub pick : ℕ → ℕ → M (Unit {0})
pick w i = do
  change λ n. record n { taken = at n.taken w (without_task i send_task) }
  modify i (set_task send_task false)

unfoldable pub run_if_taken : ℕ → ℕ → M (Unit {0}) → M (Unit {0})
run_if_taken w i run n = if has_task i send_task (n.taken w) then (pick w i >> run) n else ok tt n

-- What the user's thread or worker `w` does for socket `i`: AsyncSendMsg; the taking of the worker's
-- tasks; the run of the sending task, once it was taken; an event of the descriptor.
unfoldable pub deed : ℕ → ℕ → ℕ → Deed → M (Unit {0})
deed fuel w i (post msg) = async_send_msg i msg
deed fuel w i take_all = take_signalled w
deed fuel w i (work env) =
    run_if_taken w i (feed (suc fuel) env i (task_src send_task) worker_task_execute)
deed fuel w i (ready env) = feed (suc fuel) env i sock_src_fd worker_fd_out

unfoldable pub deeds : ℕ → ℕ → ℕ → List Deed → M (Unit {0})
deeds fuel w i [] = pure tt
deeds fuel w i (d ∷ ds) = do deed fuel w i d; deeds fuel w i ds
