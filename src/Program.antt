-- ===== src/Program.antt =====
-- The program behind NetDevice::Init, as its threads interleave: what the user's thread calls of NetDevice and NetSocket
-- (device.cpp, socket.cpp), and what the workers do (worker.cpp, ctx.cpp). A step is what a thread
-- does between two points where another may run; any list of steps is an interleaving.
pub mod Safety
pub mod Users
use klibmsg.Base.{ℕ, ◌+◌, Bool, List, [], ◌∷◌, Option, ℤ}
use klibmsg.Os.{Io}
use klibmsg.Poller.{Slot, Kind}
use klibmsg.Message.{NetMsg}
use klibmsg.Net.{Act, TaskKind, Task, M, pure, ◌>>=◌, ◌>>◌}
use klibmsg.Device.State.{User}
use klibmsg.Device.Completion.{poll}
use klibmsg.Device.Ops.{Sys, send_data, read_data, close_completion_queue, stop_all}
use klibmsg.Socket.Ops.{Env}
use klibmsg.Socket.Session.{Call, call}
use klibmsg.Worker.{
  Turn, Round, terminate, cancel, wait_events, handle_event, event_loop, run_tasks, routine,
  feed_in_context, next_event, take_and_hold, pop_taken,
}

-- The methods of NetDevice that the user calls, those of a socket, and the parts of a worker `w`:
-- a `Wait`, the next event of the poller, the tasks taken under the lock, the Pop of one of them, a
-- section of socket `i`, and several of these in one: an event, a list of tasks, or the whole routine.
pub data Step : Type 0 where
  send_step : Sys → ℕ → ℕ → Step
  read_step : Sys → ℕ → ℕ → ℕ → Step
  poll_step : ℕ → Step
  close_step : Step
  end_step : List ℕ → Step
  call_step : Env → Call → Step
  wait_step : ℕ → List (Io (List Slot)) → Step
  next_step take_step pop_step : ℕ → Step
  event_step : ℕ → ℕ → Kind → List Turn → Step
  tasks_step : ℕ → List Task → List Turn → Step
  section_step : Turn → ℕ → ℤ → ℤ → Step
  routine_step : ℕ → List Round → Step
  terminate_step : ℕ → Step
  cancel_step : ℕ → ℕ → TaskKind → Step

abbrev no_result : {A : Type 0} → M A → M (Unit {0})
no_result m = do r ← m; pure tt

unfoldable pub perform : ℕ → User → Step → M (Unit {0})
perform fuel user (send_step sys src dst) = no_result (send_data fuel user sys src dst)
perform fuel user (read_step sys src dst callback) = read_data fuel user sys src dst callback
perform fuel user (poll_step turns) = poll turns
perform fuel user close_step = close_completion_queue
perform fuel user (end_step js) = stop_all js
perform fuel user (call_step env c) = call fuel env c
perform fuel user (wait_step w waits) = wait_events w waits
perform fuel user (next_step w) = no_result (next_event w)
perform fuel user (take_step w) = take_and_hold w
perform fuel user (pop_step w) = pop_taken w
perform fuel user (event_step w h kind turns) = no_result (handle_event fuel user w h kind turns)
perform fuel user (tasks_step w l turns) = no_result (run_tasks fuel user w l turns)
perform fuel user (section_step t i src type) = feed_in_context fuel user t i src type
perform fuel user (routine_step w rounds) = routine fuel user w rounds
perform fuel user (terminate_step w) = terminate w
perform fuel user (cancel_step w i k) = cancel w i k

unfoldable pub perform_all : ℕ → User → List Step → M (Unit {0})
perform_all fuel user [] = pure tt
perform_all fuel user (s ∷ l) = do perform fuel user s; perform_all fuel user l
