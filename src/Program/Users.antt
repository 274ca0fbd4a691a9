-- ===== src/Program/Users.antt =====
-- The steps of the user's thread, and those of a worker that only change its queue.
use klibmsg.Base.{ℕ, suc, List, [], ◌∷◌}
use klibmsg.Net.{Net}
use klibmsg.Device.State.{User}
use klibmsg.Device.Safety.{
  send_data-Keeps, read_data-Keeps, close_completion_queue-Keeps, stop_all-Keeps,
}
use klibmsg.Socket.Safety.{After, Keeps, pure-Keeps, bind-Keeps, then-Keeps}
use klibmsg.Socket.Safety.Session.{call-Keeps}
use klibmsg.Worker.Safety.{cancel-Keeps}
use klibmsg.Worker.Safety.Routine.{terminate-Keeps}
use klibmsg.Program.{
  Step, send_step, read_step, poll_step, close_step, end_step, call_step, wait_step, next_step,
  take_step, pop_step, event_step, tasks_step, section_step, routine_step, terminate_step,
  cancel_step, perform, perform_all,
}

-- The steps whose length does not depend on the outside.
unfoldable pub AllDirect : List Step → Type 0
AllDirect [] = Unit {0}
AllDirect (send_step _ _ _ ∷ l) = AllDirect l
AllDirect (read_step _ _ _ _ ∷ l) = AllDirect l
AllDirect (close_step ∷ l) = AllDirect l
AllDirect (end_step _ ∷ l) = AllDirect l
AllDirect (call_step _ _ ∷ l) = AllDirect l
AllDirect (terminate_step _ ∷ l) = AllDirect l
AllDirect (cancel_step _ _ _ ∷ l) = AllDirect l
AllDirect (_ ∷ l) = ⊥

module _ (k : ℕ) (user : User) where
  perform_direct-Keeps :
      (s : Step) (l : List Step)
      → AllDirect (s ∷ l)
      → Keeps (perform (suc (suc k)) user s) × AllDirect l
  unfolding perform AllDirect
  perform_direct-Keeps (send_step sys src dst) l d =
      (bind-Keeps (send_data-Keeps k user sys src dst) (λ r. pure-Keeps tt), d)
  perform_direct-Keeps (read_step sys src dst callback) l d =
      (read_data-Keeps k user sys src dst callback, d)
  perform_direct-Keeps close_step l d = (close_completion_queue-Keeps, d)
  perform_direct-Keeps (end_step js) l d = (stop_all-Keeps js, d)
  perform_direct-Keeps (call_step env c) l d = (call-Keeps k env c, d)
  perform_direct-Keeps (terminate_step w) l d = (terminate-Keeps w, d)
  perform_direct-Keeps (cancel_step w i t) l d = (cancel-Keeps w i t, d)
  perform_direct-Keeps (poll_step _) l d = absurd d
  perform_direct-Keeps (wait_step _ _) l d = absurd d
  perform_direct-Keeps (next_step _) l d = absurd d
  perform_direct-Keeps (take_step _) l d = absurd d
  perform_direct-Keeps (pop_step _) l d = absurd d
  perform_direct-Keeps (event_step _ _ _ _) l d = absurd d
  perform_direct-Keeps (tasks_step _ _ _) l d = absurd d
  perform_direct-Keeps (section_step _ _ _ _) l d = absurd d
  perform_direct-Keeps (routine_step _ _) l d = absurd d

  perform_all-Keeps : (l : List Step) → AllDirect l → Keeps (perform_all (suc (suc k)) user l)
  unfolding perform_all
  perform_all-Keeps [] d = pure-Keeps tt
  perform_all-Keeps (s ∷ l) d =
      let (p, rest) = perform_direct-Keeps s l d in then-Keeps p (perform_all-Keeps l rest)

-- Any sequence of SendData, ReadData, CloseCompletionQueue, the device's destructor, calls of
-- sockets, Cancel and the first part of a worker's Terminate either ends in a safe state or a CHECK
-- fails: a fuel of two is enough for every one of them.
pub perform_all-After :
    (k : ℕ) (user : User) (l : List Step) (n : Net)
    → AllDirect l
    → After n (perform_all (suc (suc k)) user l n)
perform_all-After k user l n d = (perform_all-Keeps k user l d).holds n
