-- ===== src/Worker.antt =====
-- NetWorker (worker.h, worker.cpp) and NetEventFd (utils.h, utils.cpp): a thread that waits on its
-- poller, and runs the tasks in its queue and the events of the sockets in their contexts. A
-- section under `sync_` is one step. What the thread is told from outside is its fuel.
pub mod Safety
pub mod Start
pub mod Stop
pub mod Awake
pub mod Deeds
pub mod Tasked
pub mod Wakeups
use klibmsg.Base.{
  ℕ, zero, suc, ◌+◌, Bool, true, false, ◌&&◌, ◌||◌, not, Option, none, some, List, [], ◌∷◌, ◌++◌,
  ltb, ◌==◌, if◌then◌else◌, ℤ,
}
use klibmsg.Codes.{
  sock_src_fd, sock_src_task_connecting, sock_src_task_connected, sock_src_task_accept,
  sock_src_task_send, sock_src_task_recv, sock_src_task_stop, worker_fd_in, worker_fd_out,
  worker_fd_err, worker_task_execute,
}
use klibmsg.Os.{Errno, Io}
use klibmsg.Poller
use klibmsg.Poller.{Poller, Slot, Kind, poller_in, poller_out, poller_err}
use klibmsg.Net.{
  Sock, TaskKind, connecting_task, connected_task, accept_task, send_task, recv_task, stop_task,
  Task, sock_task, stop_item, Net, ok, abort, out_of_fuel, M, pure, ◌>>=◌, ◌>>◌, get, modify,
  change, emit, check, signal, at,
}
use klibmsg.Fsm.{same_task}
use klibmsg.Device.State.{User}
use klibmsg.Device.Ops.{Sys}
use klibmsg.Context.{Answers, execute_critical_section}
use klibmsg.Socket.Ops.{Env}
use klibmsg.Socket.Feed.{feed}

-- NetEventFd::Unsignal: `read` fails on a count of 0, and otherwise sets it to 0.
unfoldable pub unsignal : ℕ → M (Unit {0})
unsignal w n =
    if ltb 0 (n.efd_count w)
    then ok tt (record n { efd_count = at n.efd_count w λ c. 0 })
    else abort

-- `memcpy(&tasks, &tasks_, …); tasks_.Init();`
unfoldable pub take_queue : ℕ → M (List Task)
take_queue w n = ok (n.tasks w) (record n { tasks = at n.tasks w λ l. [] })

-- What the routine does under the lock.
unfoldable pub take_tasks : ℕ → M (List Task)
take_tasks w = do unsignal w; take_queue w

unfoldable pub push_stop : ℕ → M (Unit {0})
push_stop w = change λ n. if n.stop_queued w then n else record n {
  tasks = at n.tasks w (λ l. l ++ stop_item ∷ []);
  stop_queued = at n.stop_queued w λ b. true;
}

-- NetWorker::Terminate, up to the `join`; the rest is in Worker/Stop.antt.
unfoldable pub terminate : ℕ → M (Unit {0})
terminate w = do push_stop w; emit (signal w)

-- The items of a queue less a task.
unfoldable pub without_task : ℕ → TaskKind → List Task → List Task
without_task i k [] = []
without_task i k (stop_item ∷ l) = stop_item ∷ without_task i k l
without_task i k (sock_task j k' ∷ l) =
    if j == i && same_task k' k then l else sock_task j k' ∷ without_task i k l

unfoldable pub has_task : ℕ → TaskKind → List Task → Bool
has_task i k [] = false
has_task i k (stop_item ∷ l) = has_task i k l
has_task i k (sock_task j k' ∷ l) = (j == i && same_task k' k) || has_task i k l

abbrev pub set_task : TaskKind → Bool → Sock → Sock
set_task k b s = record s { task_queued = λ k'. if same_task k' k then b else s.task_queued k' }

-- NetWorker::Cancel, which finds the task only in `tasks_`.
unfoldable pub remove_task : ℕ → ℕ → TaskKind → M (Unit {0})
remove_task w i k = change λ n. record n { tasks = at n.tasks w (without_task i k) }

unfoldable pub get_tasks : ℕ → M (List Task)
get_tasks w n = ok (n.tasks w) n

unfoldable pub cancel : ℕ → ℕ → TaskKind → M (Unit {0})
cancel w i k = do
  queued ← get_tasks w
  if has_task i k queued then (do remove_task w i k; modify i (set_task k false)) else pure tt

-- The sources of a socket's tasks, as NetSocket::Init sets them.
abbrev pub task_src : TaskKind → ℤ
task_src connecting_task = sock_src_task_connecting
task_src connected_task = sock_src_task_connected
task_src accept_task = sock_src_task_accept
task_src send_task = sock_src_task_send
task_src recv_task = sock_src_task_recv
task_src stop_task = sock_src_task_stop

-- What the system answers while one task or event is processed.
pub record Turn : Type 0 where
  pub env : Env
  pub answers : List Sys
  pub others : Answers

unfoldable pub feed_in_context : ℕ → User → Turn → ℕ → ℤ → ℤ → M (Unit {0})
feed_in_context fuel user t i src type =
    execute_critical_section fuel user i (feed fuel t.env i src type) t.answers t.others

-- `while (tasks.Pop() != nullptr) { continue; }`
unfoldable pub discard : ℕ → List Task → M (Unit {0})
discard w [] = pure tt
discard w (sock_task i k ∷ l) = do modify i (set_task k false); discard w l
discard w (stop_item ∷ l) = discard w l

unfoldable pub unqueue_stop : ℕ → M (Unit {0})
unqueue_stop w = change λ n. record n { stop_queued = at n.stop_queued w λ b. false }

-- The loop over the tasks that were taken; the result says whether the thread ends.
unfoldable pub run_tasks : ℕ → User → ℕ → List Task → List Turn → M Bool
run_tasks fuel user w [] turns = pure false
run_tasks fuel user w (stop_item ∷ l) turns = do unqueue_stop w; discard w l; pure true
run_tasks fuel user w (sock_task i k ∷ l) [] = λ n. out_of_fuel
run_tasks fuel user w (sock_task i k ∷ l) (t ∷ turns) = do
  modify i (set_task k false)
  feed_in_context fuel user t i (task_src k) worker_task_execute
  run_tasks fuel user w l turns

-- The same in parts, between which other threads run: what is done under the lock, with the tasks
-- kept in the routine's own queue, and the Pop of that queue, behind which the task's owner is fed in
-- its context or, where the item is `stop_`, the rest is thrown away.
unfoldable pub hold : ℕ → List Task → M (Unit {0})
hold w l = change λ n. record n { taken = at n.taken w λ t. l }

unfoldable pub get_taken : ℕ → M (List Task)
get_taken w n = ok (n.taken w) n

unfoldable pub take_and_hold : ℕ → M (Unit {0})
take_and_hold w = do held ← get_taken w; l ← take_tasks w; hold w (held ++ l)

unfoldable pub pop_task : ℕ → List Task → M (Unit {0})
pop_task w [] = pure tt
pop_task w (stop_item ∷ l) = do hold w []; unqueue_stop w; discard w l
pop_task w (sock_task i k ∷ l) = do hold w l; modify i (set_task k false)

unfoldable pub pop_taken : ℕ → M (Unit {0})
pop_taken w = do held ← get_taken w; pop_task w held

abbrev is_poller_in : Kind → Bool
is_poller_in poller_in = true
is_poller_in _ = false

-- kNetWorkerFdIn, kNetWorkerFdOut and kNetWorkerFdErr.
abbrev pub fd_code : Kind → ℤ
fd_code poller_in = worker_fd_in
fd_code poller_out = worker_fd_out
fd_code poller_err = worker_fd_err

unfoldable pub first_turn : List Turn → (Turn → M Bool) → M Bool
first_turn [] f = λ n. out_of_fuel
first_turn (t ∷ turns) f = f t

-- An event of the poller: of `efd_`, or of a socket.
unfoldable pub handle_event : ℕ → User → ℕ → ℕ → Kind → List Turn → M Bool
handle_event fuel user w zero kind turns = do
  check (is_poller_in kind)
  tasks ← take_tasks w
  run_tasks fuel user w tasks turns
handle_event fuel user w (suc i) kind turns =
    first_turn turns λ t. do feed_in_context fuel user t i sock_src_fd (fd_code kind); pure false

unfoldable pub next_event : ℕ → M (Option (ℕ × Kind))
next_event w n =
    let r = Poller.event (n.pollers w) in ok r.0 (record n { pollers = at n.pollers w λ p. r.1 })

unfoldable pub or_stop : M Bool → Bool → M Bool
or_stop more true = pure true
or_stop more false = more

unfoldable pub on_event : ℕ → User → ℕ → List Turn → M Bool → Option (ℕ × Kind) → M Bool
on_event fuel user w turns more none = pure false
on_event fuel user w turns more (some (h, kind)) = do
  stops ← handle_event fuel user w h kind turns
  or_stop more stops

-- The loop over the events of one `Wait`.
unfoldable pub event_loop : ℕ → User → ℕ → List (List Turn) → M Bool
event_loop fuel user w [] = λ n. out_of_fuel
event_loop fuel user w (turns ∷ later) = do
  e ← next_event w
  on_event fuel user w turns (event_loop fuel user w later) e

unfoldable pub set_poller : ℕ → Option Poller → M (Unit {0})
set_poller w none = λ n. out_of_fuel
set_poller w (some p) = change λ n. record n { pollers = at n.pollers w λ q. p }

unfoldable pub wait_events : ℕ → List (Io (List Slot)) → M (Unit {0})
wait_events w waits n = set_poller w (Poller.wait waits (n.pollers w)) n

-- A round: what `epoll_wait` returns, and the turns of each of its events.
abbrev pub Round : Type 0
Round = List (Io (List Slot)) × List (List Turn)

unfoldable pub unless_stopped : M (Unit {0}) → Bool → M (Unit {0})
unless_stopped more true = pure tt
unless_stopped more false = more

-- NetWorkerRoutine
unfoldable pub routine : ℕ → User → ℕ → List Round → M (Unit {0})
routine fuel user w [] = λ n. out_of_fuel
routine fuel user w ((waits, turns) ∷ rounds) = do
  wait_events w waits
  stops ← event_loop fuel user w turns
  unless_stopped (routine fuel user w rounds) stops
