-- ===== src/Worker/Stop.antt =====
-- NetPool::Terminate and the whole of NetWorker::Terminate (utils.cpp, worker.cpp): the stop item,
-- the last rounds of the thread, for which the `join` waits, and what follows.
use klibmsg.Base.{ℕ, suc, not, List, [], ◌∷◌}
use klibmsg.Os.{Errno}
use klibmsg.Net.{M, pure, ◌>>◌, change, check, at}
use klibmsg.Device.State.{User}
use klibmsg.Socket.Ops.{can_ignore}
use klibmsg.Worker.{Round, terminate, routine}

-- What the system answers: to the thread, and to the two calls of `close`.
pub record Ending : Type 0 where
  pub rounds : List Round
  pub close_poller : Errno
  pub close_efd : Errno

unfoldable pub stop_check : ℕ → M (Unit {0})
stop_check w n = check (not (n.stop_queued w)) n

-- Behind the `join`.
unfoldable pub clean_up : ℕ → Ending → M (Unit {0})
clean_up w e = do
  check (can_ignore e.close_poller)
  check (can_ignore e.close_efd)
  stop_check w
  change λ n. record n { tasks = at n.tasks w λ l. [] }

unfoldable pub terminate_worker : ℕ → User → ℕ → Ending → M (Unit {0})
terminate_worker fuel user w e = do terminate w; routine fuel user w e.rounds; clean_up w e

-- NetPool::Terminate
unfoldable pub terminate_pool : ℕ → User → ℕ → List Ending → M (Unit {0})
terminate_pool fuel user w [] = pure tt
terminate_pool fuel user w (e ∷ es) = do
  terminate_worker fuel user w e
  terminate_pool fuel user (suc w) es
