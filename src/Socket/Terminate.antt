-- ===== src/Socket/Terminate.antt =====
-- NetSocket::Terminate (socket.cpp), NetWorkerTask::Terminate (worker.cpp), NetQueueItem::Terminate
-- (utils.cpp) and NetFsm::Terminate (fsm.cpp), which only check, but for the task that is taken out
-- of the queue of the worker.
use klibmsg.Base.{ℕ, Bool, true, false, not}
use klibmsg.Net.{
  SockState, idle, TaskKind, connecting_task, connected_task, accept_task, send_task, recv_task,
  stop_task, Sock, M, ◌>>=◌, ◌>>◌, get, check,
}
use klibmsg.Socket.Feed.{is_idle}
use klibmsg.Worker.{cancel}

abbrev pub is_state_idle : SockState → Bool
is_state_idle idle = true
is_state_idle _ = false

-- `CHECK_EQ(next(), NETQUEUE_NOT_INQUEUE)` for the item of a task.
unfoldable pub terminate_task : TaskKind → Sock → M (Unit {0})
terminate_task k s = check (not (s.task_queued k))

-- NetFsm::Terminate
abbrev fsm_terminate : Sock → M (Unit {0})
fsm_terminate s = check (is_idle s)

unfoldable pub terminate : ℕ → M (Unit {0})
terminate i = do
  sock ← get i
  check (is_state_idle sock.state)
  cancel sock.worker i recv_task
  left ← get i
  terminate_task stop_task left
  terminate_task recv_task left
  terminate_task send_task left
  terminate_task accept_task left
  terminate_task connected_task left
  terminate_task connecting_task left
  fsm_terminate left
